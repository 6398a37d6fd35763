-- ===== src/Otp/Examples.antt =====
-- Concrete runs of the theorems on email-otp-challenges.ts.
use careerscope.Otp.Single.{replace_active-one, consume-deletes, consume_once}
use careerscope.Base.Table.{sort_by, count, delete, find}
use careerscope.Otp.Budget.{five_tries, tries, Try}
use careerscope.Base.{none, some, true, false, [], ◌∷◌, ◌+◌, refl, ◌≡◌, ◌≤◌, ℕ, Option}
use careerscope.Otp.Code.{verify_email_otp, Crypto, Secret, accepted, invalid, six_digits, other}
use careerscope.Otp.Challenges.{
  active_id, is_address, is_row, replaced, cleanup, replace_active, hash_otp_email, Keys, Challenge,
  NewChallenge, sign_in, ChallengeContext, ok,
}
use careerscope.Otp.Consume.{apply_verdict, ConsumeInput, consume}

abbrev sample_crypto : Crypto
sample_crypto = record {
  is_challenge_id = λ n. true;
  is_digest = λ n. true;
  digest = λ id code key. id + code + key;
}

abbrev sample_keys : Keys
sample_keys = record {
  parse_email = λ e. some e;
  lower = λ e. e;
  is_uuid = λ n. true;
  hmac = λ e key. e + key;
}

abbrev sample_secret : Secret
sample_secret = record { key = 9; byte_length = 32 }

abbrev sample_challenge : Challenge
sample_challenge = record {
  id = 4;
  email_hash = 20;
  digest = 136;
  attempts = 0;
  created_at = 1000;
  expires_at = 301000;
  intent = sign_in;
  terms_version = none;
  privacy_version = none;
  marketing_opt_in = false;
  marketing_version = none;
  age_screen_passed = none;
}

abbrev sample_input : ConsumeInput
sample_input = record {
  id = 4;
  email = 11;
  code = six_digits 123;
  secret = sample_secret;
  now = some 2000;
  expected_intent = none;
}

-- Counts the acceptances.
abbrev sample_accept : ChallengeContext → ℕ → Option ℕ
sample_accept c n = some (n + 1)

abbrev wrong_try : Try
wrong_try = record { clock = 2000; code = other; now = none; expected_intent = none }

five_tries_example :
    tries sample_crypto sample_keys sample_accept 4 11 sample_secret
      (wrong_try ∷ wrong_try ∷ wrong_try ∷ wrong_try ∷ wrong_try ∷ wrong_try ∷ wrong_try ∷ [])
      (sample_challenge ∷ [])
      0
    ≤ 5
unfolding hash_otp_email find
five_tries_example =
    five_tries sample_crypto sample_keys sample_accept 4 11 sample_secret 20
      (wrong_try ∷ wrong_try ∷ wrong_try ∷ wrong_try ∷ wrong_try ∷ wrong_try ∷ wrong_try ∷ [])
      (sample_challenge ∷ []) 0 refl refl

consume-deletes_example :
    (consume sample_crypto sample_keys sample_accept 2000 sample_input (sample_challenge ∷ []) 0).1
    ≡ delete (is_row 4) (sample_challenge ∷ [])
unfolding hash_otp_email find consume verify_email_otp apply_verdict
consume-deletes_example =
    consume-deletes sample_crypto sample_keys sample_accept 2000 sample_input 20
      (sample_challenge ∷ []) 0 accepted refl refl refl

consume_once_example :
    let (r, rows, s) =
      consume sample_crypto sample_keys sample_accept 2000 sample_input (sample_challenge ∷ []) 0 in
    consume sample_crypto sample_keys sample_accept 3000 sample_input rows s ≡ (ok invalid, rows, s)
unfolding hash_otp_email find consume verify_email_otp apply_verdict
consume_once_example =
    consume_once sample_crypto sample_keys sample_accept 2000 sample_input 20
      (sample_challenge ∷ []) 0 accepted 3000 sample_input refl refl refl refl

abbrev sample_new : NewChallenge
sample_new = record {
  id = 5;
  email = 11;
  digest = 7;
  expires_at = 400000;
  intent = none;
  terms_version = none;
  privacy_version = none;
  marketing_opt_in = none;
  marketing_version = none;
  age_screen_passed = none;
}

replace_active-one_example :
    (count
        (is_address 20)
        (replace_active sample_crypto sample_keys 100000 100000 sample_new sample_secret
          (some 60000)
          (sample_challenge ∷ [])).1
      ≡ 1)
    × (active_id sample_crypto sample_keys 100000 11 sample_secret
          (replace_active sample_crypto sample_keys 100000 100000 sample_new sample_secret
            (some 60000)
            (sample_challenge ∷ [])).1
        ≡ ok (some 5))
unfolding hash_otp_email replace_active cleanup replaced delete sort_by
replace_active-one_example =
    replace_active-one sample_crypto sample_keys 100000 100000 sample_new sample_secret (some 60000)
      (sample_challenge ∷ []) 20 refl refl
