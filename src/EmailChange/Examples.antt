-- ===== src/EmailChange/Examples.antt =====
-- Concrete runs of the theorems on packages/core/src/email-change-requests.ts.
use careerscope.EmailChange.Begin.{begin-stores, IsStored}
use careerscope.EmailChange.Laws.{verify-completed, hash_of, verify-users}
use careerscope.Base.Table.{delete, find}
use careerscope.Base.{any, is_some, ◌⊎◌, none, some, true, false, [], ◌∷◌, ◌+◌, refl, ◌≡◌, ◌<◌, ℕ}
use careerscope.Otp.Code.{
  create_email_otp, verify_email_otp, Crypto, Secret, Verification, six_digits, other,
}
use careerscope.Otp.Challenges.{Keys}
use careerscope.EmailChange.{
  upsert, store_request, ChangeCodes, is_taken, is_user, verified_email, is_owned, Outcome, UserRow,
  ChangeRequest, Accounts, Draws, current, verify, begin,
}

abbrev sample_crypto : Crypto
sample_crypto = record {
  is_challenge_id = λ n. true;
  is_digest = λ n. true;
  digest = λ id code key. id + code + key;
}

abbrev sample_keys : Keys
sample_keys = record {
  parse_email = λ e. some e;
  lower = λ e. e;
  is_uuid = λ n. true;
  hmac = λ e key. e + key;
}

abbrev sample_hash : ℕ → ℕ → ℕ
sample_hash e key = e + key

abbrev sample_secret : Secret
sample_secret = record { key = 9; byte_length = 32 }

abbrev sample_user : UserRow
sample_user = record { id = 7; email = some 50; email_verified_at = some 10 }

-- The new address is verified, the current one is not yet.
abbrev half_done : ChangeRequest
half_done = record {
  id = 3;
  owner_id = 7;
  current_email_hash = 59;
  new_email = 60;
  current_half = record { challenge_id = 1; digest = 133; attempts = 2; verified_at = none };
  new_half = record { challenge_id = 2; digest = 5; attempts = 0; verified_at = some 1500 };
  expires_at = 301000;
}

abbrev sample_accounts : Accounts
sample_accounts = record { users = sample_user ∷ []; requests = half_done ∷ [] }

verify-completed_example :
    (r : ChangeRequest) × (email : ℕ) × (find (is_owned 7) sample_accounts.requests ≡ some r)
    × (verified_email (find (is_user 7) sample_accounts.users) ≡ some email)
    × (hash_of sample_crypto sample_keys sample_hash email sample_secret
        ≡ some r.current_email_hash)
    × (2000 < r.expires_at)
    × (verify_email_otp sample_crypto r.current_half.challenge_id
          (six_digits 123)
          r.current_half.digest
          sample_secret
          r.expires_at
          r.current_half.attempts
          2000
        ≡ Verification.accepted)
    × (is_some r.new_half.verified_at ≡ true)
    × (any (is_taken r.new_email 7) sample_accounts.users ≡ false)
unfolding verify find verify_email_otp
verify-completed_example =
    verify-completed sample_crypto sample_keys sample_hash 7 2100 current (six_digits 123)
      sample_secret 2000 sample_accounts refl

verify-users_example :
    ((verify sample_crypto sample_keys sample_hash 7 2100 current other sample_secret 2000
        sample_accounts).0
      ≡ some Outcome.completed)
    ⊎ ((verify sample_crypto sample_keys sample_hash 7 2100 current other sample_secret 2000
          sample_accounts).1.users
        ≡ sample_user ∷ [])
verify-users_example =
    verify-users sample_crypto sample_keys sample_hash 7 2100 current other sample_secret 2000
      sample_accounts

abbrev sample_draws : Draws
sample_draws = record {
  request_id = 4;
  current_challenge_id = 5;
  new_challenge_id = 6;
  current_code = 111111;
  new_code = 222222;
}

abbrev sample_codes : ChangeCodes
sample_codes = record {
  request_id = 4;
  current_challenge_id = 5;
  new_challenge_id = 6;
  current_email = 50;
  new_email = 61;
  current_code = 111111;
  new_code = 222222;
}

begin-stores_example :
    IsStored sample_crypto sample_keys sample_hash 7 sample_secret 5000 sample_codes
      (begin sample_crypto sample_keys sample_hash 7 61 sample_secret 5000 sample_draws
        sample_accounts).1
    × (find
          (is_owned 8)
          (begin sample_crypto sample_keys sample_hash 7 61 sample_secret 5000 sample_draws
            sample_accounts).1.requests
        ≡ find (is_owned 8) sample_accounts.requests)
unfolding begin store_request upsert delete find create_email_otp
begin-stores_example =
    begin-stores sample_crypto sample_keys sample_hash 7 61 sample_secret 5000 sample_draws
      sample_accounts sample_codes 8 refl refl
