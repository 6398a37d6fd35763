-- ===== src/EmailChange.antt =====
-- packages/core/src/email-change-requests.ts: a change of the sign-in address, which asks for a code
-- from the current and from the new address.
use careerscope.Base.Table.{find, update, delete}
use careerscope.Otp.Challenges.{Keys}
use careerscope.Base.{
  is_some, not, ltb, leb, any, ◌==◌, ◌++◌, ◌&&◌, if◌then◌else◌, Bool, ℕ, Option, List, none, some,
  true, false, [], ◌∷◌, ◌+◌,
}
use careerscope.Otp.Code.{
  max_safe_integer, email_otp_lifetime_ms, verify_email_otp, create_email_otp, Submitted, Secret,
  EmailOtp, Crypto, Verification,
}
pub mod Laws
pub mod Begin
mod Examples

pub data Outcome : Type 0 where
  accepted already_verified completed incorrect expired exhausted invalid conflict : Outcome

pub data Address : Type 0 where
  current new : Address

-- The columns of `users` that the file reads and writes.
pub record UserRow : Type 0 where
  pub id : ℕ
  pub email : Option ℕ
  pub email_verified_at : Option ℕ

-- One address's half of a request.
pub record Half : Type 0 where
  pub challenge_id : ℕ
  pub digest : ℕ
  pub attempts : ℕ
  pub verified_at : Option ℕ

pub record ChangeRequest : Type 0 where
  pub id : ℕ
  pub owner_id : ℕ
  pub current_email_hash : ℕ
  pub new_email : ℕ
  pub current_half : Half
  pub new_half : Half
  pub expires_at : ℕ

pub record Accounts : Type 0 where
  pub users : List UserRow
  pub requests : List ChangeRequest

-- Returned once for delivery.
pub record ChangeCodes : Type 0 where
  pub request_id : ℕ
  pub current_challenge_id : ℕ
  pub new_challenge_id : ℕ
  pub current_email : ℕ
  pub new_email : ℕ
  pub current_code : ℕ
  pub new_code : ℕ

-- What a call of `begin` draws: three identifiers and two codes.
pub record Draws : Type 0 where
  pub request_id : ℕ
  pub current_challenge_id : ℕ
  pub new_challenge_id : ℕ
  pub current_code : ℕ
  pub new_code : ℕ

-- `none` is a thrown error, by which the transaction is rolled back.
abbrev pub Reply : Type 0 → Type 0
Reply A = Option A × Accounts

abbrev pub is_user : ℕ → UserRow → Bool
is_user id u = u.id == id

abbrev pub is_owned : ℕ → ChangeRequest → Bool
is_owned owner r = r.owner_id == owner

abbrev pub is_request : ℕ → ChangeRequest → Bool
is_request id r = r.id == id

unfoldable pub cancel : ℕ → ℕ → Accounts → Accounts
cancel owner request_id a = record a {
  requests = delete (λ r. is_owned owner r && is_request request_id r) a.requests;
}

-- The address of a user whose address is verified.
abbrev pub verified_email : Option UserRow → Option ℕ
verified_email none = none
verified_email (some u) = elim u.email_verified_at [ none ↦ none | some t ↦ u.email ]

abbrev pub half_of : Address → ChangeRequest → Half
half_of current r = r.current_half
half_of new r = r.new_half

abbrev pub set_half : Address → Half → ChangeRequest → ChangeRequest
set_half current h r = record r { current_half = h }
set_half new h r = record r { new_half = h }

abbrev pub other_address : Address → Address
other_address current = new
other_address new = current

abbrev pub is_taken : ℕ → ℕ → UserRow → Bool
is_taken email owner u = elim u.email [ none ↦ false | some e ↦ e == email ] && not (u.id == owner)

abbrev rejection : Verification → Outcome
rejection Verification.expired = Outcome.expired
rejection Verification.exhausted = Outcome.exhausted
rejection Verification.invalid = Outcome.invalid
rejection _ = Outcome.incorrect

-- `current_hash` is the HMAC of an address with the file's own prefix; `parse_email` and `lower` are
-- the schema of an address and JavaScript's.
module _ (crypto : Crypto) (keys : Keys) (current_hash : ℕ → ℕ → ℕ) where
  abbrev pub normalize : ℕ → Option ℕ
  normalize email = elim (keys.parse_email email) [ none ↦ none | some e ↦ some (keys.lower e) ]

  abbrev fresh_half : ℕ → EmailOtp → Half
  fresh_half id otp = record {
    challenge_id = id;
    digest = otp.digest;
    attempts = 0;
    verified_at = none;
  }

  abbrev pub new_request : ℕ → Draws → ℕ → ℕ → Secret → ℕ → EmailOtp → EmailOtp → ChangeRequest
  new_request owner d normalized new_email secret now current_otp new_otp = record {
    id = d.request_id;
    owner_id = owner;
    current_email_hash = current_hash normalized secret.key;
    new_email = new_email;
    current_half = fresh_half d.current_challenge_id current_otp;
    new_half = fresh_half d.new_challenge_id new_otp;
    expires_at = now + email_otp_lifetime_ms;
  }

  -- `INSERT … ON CONFLICT (owner_id) DO UPDATE`: the request replaces the user's former one.
  unfoldable pub upsert : ChangeRequest → List ChangeRequest → List ChangeRequest
  upsert r rows = delete (is_owned r.owner_id) rows ++ r ∷ []

  -- The two codes; `none` where `createEmailOtp` throws.
  abbrev pub codes : Draws → Secret → ℕ → Option (EmailOtp × EmailOtp)
  codes d secret now =
      elim (create_email_otp crypto d.current_challenge_id secret now d.current_code) [
        | none ↦ none
        | some a ↦ elim (create_email_otp crypto d.new_challenge_id secret now d.new_code) [
          | none ↦ none
          | some b ↦ some (a, b)
        ]
      ]

  unfoldable pub store_request :
      ℕ → Draws → ℕ → Secret → ℕ → ℕ → EmailOtp → EmailOtp → Accounts → Reply (Option ChangeCodes)
  unfolding upsert
  store_request owner d new_email secret now normalized current_otp new_otp a =
      if new_email == normalized then (some none, a) else (
        some (
            some (record {
              request_id = d.request_id;
              current_challenge_id = d.current_challenge_id;
              new_challenge_id = d.new_challenge_id;
              current_email = normalized;
              new_email = new_email;
              current_code = current_otp.code;
              new_code = new_otp.code;
            })),
        record a {
          requests =
              upsert (new_request owner d normalized new_email secret now current_otp new_otp)
                (delete (λ r. is_owned owner r && leb r.expires_at now) a.requests);
        },
      )

  unfoldable pub begin : ℕ → ℕ → Secret → ℕ → Draws → Accounts → Reply (Option ChangeCodes)
  unfolding store_request create_email_otp
  begin owner new_email_input secret now d a = elim (normalize new_email_input) [
    | none ↦ (none, a)
    | some new_email ↦ elim (codes d secret now) [
      | none ↦ (none, a)
      | some (current_otp, new_otp) ↦ elim (verified_email (find (is_user owner) a.users)) [
        | none ↦ (some none, a)
        | some email ↦ elim (normalize email) [
          | none ↦ (none, a)
          | some normalized ↦
              store_request owner d new_email secret now normalized current_otp new_otp a
        ]
      ]
    ]
  ]

  abbrev pub drop_request : ChangeRequest → Accounts → Accounts
  drop_request r a = record a { requests = delete (is_request r.id) a.requests }

  abbrev count_wrong : Half → Half
  count_wrong h = record h { attempts = h.attempts + 1 }

  -- Both addresses are verified: the address is changed, unless another account has it.
  unfoldable pub finish : ℕ → ℕ → ChangeRequest → Accounts → Outcome × Accounts
  finish owner db_now r a =
      if any (is_taken r.new_email owner) a.users then (Outcome.conflict, drop_request r a) else (
        Outcome.completed,
        record (drop_request r a) {
          users =
              update (is_user owner)
                (λ u. record u { email = some r.new_email; email_verified_at = some db_now })
                a.users;
        },
      )

  -- The verdict on the submitted code, applied to one half of the request.
  unfoldable pub apply_code :
      ℕ → ℕ → Address → ChangeRequest → Verification → Accounts → Outcome × Accounts
  unfolding finish
  apply_code owner db_now address r Verification.accepted a =
      let marked = record (half_of address r) { verified_at = some db_now } in
      elim ((half_of (other_address address) r).verified_at) [
        | none ↦ (
          Outcome.accepted,
          record a { requests = update (is_request r.id) (set_half address marked) a.requests },
        )
        | some t ↦ finish owner db_now r a
      ]
  apply_code owner db_now address r Verification.incorrect a =
      if leb 5 ((half_of address r).attempts + 1) then (Outcome.exhausted, drop_request r a) else (
        Outcome.incorrect,
        record a {
          requests =
              update (is_request r.id) (λ q. set_half address (count_wrong (half_of address r)) q)
                a.requests;
        },
      )
  apply_code owner db_now address r verdict a = (rejection verdict, a)

  unfoldable pub verify_request :
      ℕ → ℕ → Address → Submitted → Secret → ℕ → ℕ → ChangeRequest → Accounts → Outcome × Accounts
  unfolding apply_code verify_email_otp
  verify_request owner db_now address code secret now hash r a =
      let half = half_of address r in
      if not (hash == r.current_email_hash)
      then (Outcome.invalid, drop_request r a)
      else if leb r.expires_at now
      then (Outcome.expired, drop_request r a)
      else if is_some half.verified_at
      then (Outcome.already_verified, a)
      else apply_code owner db_now address r
          (verify_email_otp crypto half.challenge_id code half.digest secret r.expires_at
            half.attempts now)
          a

  -- `none` is the error that a stored address fails its schema.
  unfoldable pub verify : ℕ → ℕ → Address → Submitted → Secret → ℕ → Accounts → Reply Outcome
  unfolding verify_request
  verify owner db_now address code secret now a =
      if ltb max_safe_integer now
      then (some Outcome.invalid, a)
      else elim (find (is_owned owner) a.requests) [
        | none ↦ (some Outcome.invalid, a)
        | some r ↦ elim (verified_email (find (is_user owner) a.users)) [
          | none ↦ (some Outcome.invalid, a)
          | some email ↦ elim (normalize email) [
            | none ↦ (none, a)
            | some normalized ↦
                let (outcome, b) =
                  verify_request owner db_now address code secret now
                    (current_hash normalized secret.key) r a in
                (some outcome, b)
          ]
        ]
      ]
