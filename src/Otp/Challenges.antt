-- ===== src/Otp/Challenges.antt =====
-- email-otp-challenges.ts: the table of active challenges. `Keys` holds what the file takes from
-- outside: the HMAC of an address and the schemas of an address and an identifier.
use careerscope.Base.Table.{sort_by, find, delete}
use careerscope.Otp.Code.{max_safe_integer, is_valid_secret, Secret, Crypto}
use careerscope.Base.{
  is_some, keep, take, none, some, true, false, ◌||◌, ◌+◌, not, leb, any, [], ◌++◌, if◌then◌else◌,
  ◌∷◌, ltb, ◌==◌, ◌&&◌, get_or, Option, List, Bool, ℕ,
}

pub data Intent : Type 0 where
  sign_in sign_up recovery_setup recovery_sign_in : Intent

abbrev intent_code : Intent → ℕ
intent_code sign_in = 0
intent_code sign_up = 1
intent_code recovery_setup = 2
intent_code recovery_sign_in = 3

abbrev pub is_intent : Intent → Intent → Bool
is_intent a b = intent_code a == intent_code b

pub record NewChallenge : Type 0 where
  pub id : ℕ
  pub email : ℕ
  pub digest : ℕ
  pub expires_at : ℕ
  pub intent : Option Intent
  pub terms_version : Option ℕ
  pub privacy_version : Option ℕ
  pub marketing_opt_in : Option Bool
  pub marketing_version : Option ℕ
  pub age_screen_passed : Option Bool

pub record Challenge : Type 0 where
  pub id : ℕ
  pub email_hash : ℕ
  pub digest : ℕ
  pub attempts : ℕ
  pub created_at : ℕ
  pub expires_at : ℕ
  pub intent : Intent
  pub terms_version : Option ℕ
  pub privacy_version : Option ℕ
  pub marketing_opt_in : Bool
  pub marketing_version : Option ℕ
  pub age_screen_passed : Option Bool

-- What the challenge recorded at issue time.
pub record ChallengeContext : Type 0 where
  pub intent : Intent
  pub terms_version : Option ℕ
  pub privacy_version : Option ℕ
  pub marketing_opt_in : Bool
  pub marketing_version : Option ℕ
  pub age_screen_passed : Option Bool

-- `emailSchema` gives the trimmed address; `lower` is JavaScript's; `is_uuid` is `uuidSchema`.
pub record Keys : Type 0 where
  pub parse_email : ℕ → Option ℕ
  pub lower : ℕ → ℕ
  pub is_uuid : ℕ → Bool
  pub hmac : ℕ → ℕ → ℕ

pub data Failure : Type 0 where
  invalid_input invalid_expiration age_screen_required age_screen_not_allowed : Failure
  accept_failed constraint_violated : Failure

pub data Result {ℓ} (A : Type ℓ) : Type ℓ where
  ok : A → Result A
  err : Failure → Result A

abbrev passed : Option Bool → Bool
passed none = false
passed (some b) = b

abbrev is_sign_up : Option Intent → Bool
is_sign_up none = false
is_sign_up (some i) = is_intent i sign_up

abbrev pub is_row : ℕ → Challenge → Bool
is_row id c = c.id == id

abbrev pub is_address : ℕ → Challenge → Bool
is_address email_hash c = c.email_hash == email_hash

-- `id = $1 AND email_hash = $2`.
abbrev pub is_challenge : ℕ → ℕ → Challenge → Bool
is_challenge id email_hash c = c.id == id && c.email_hash == email_hash

-- With an issue go the 500 expired rows that expired first.
unfoldable pub cleanup : ℕ → List Challenge → List Challenge
cleanup now rows =
    let expired = take 500 (sort_by (λ c. c.expires_at) (keep (λ c. leb c.expires_at now) rows)) in
    delete (λ c. any (λ (e : Challenge). e.id == c.id) expired) rows

-- An unexpired challenge of the address that was issued within the cooldown.
abbrev is_recent : ℕ → ℕ → ℕ → Challenge → Bool
is_recent now email_hash cooldown c =
    is_address email_hash c && ltb now c.expires_at && ltb now (c.created_at + cooldown)

abbrev cooling : ℕ → ℕ → Option ℕ → List Challenge → Bool
cooling now email_hash none rows = false
cooling now email_hash (some cooldown) rows = any (is_recent now email_hash cooldown) rows

abbrev is_set : Option Bool → Bool
is_set none = false
is_set (some b) = true

-- `email_otp_signup_acceptance_complete`
abbrev is_acceptance_complete : NewChallenge → Bool
is_acceptance_complete input =
    if is_sign_up input.intent
    then is_some input.terms_version && is_some input.privacy_version
    else not (is_some input.terms_version)
      && not (is_some input.privacy_version)
      && not (get_or input.marketing_opt_in false)

-- `email_otp_marketing_version_required`
abbrev is_marketing_versioned : NewChallenge → Bool
is_marketing_versioned input =
    not (get_or input.marketing_opt_in false) || is_some input.marketing_version

-- What the table's primary key and its checks ask of the row to insert; `rows` are the other rows.
abbrev is_storable : ℕ → NewChallenge → List Challenge → Bool
is_storable now input rows =
    not (any (is_row input.id) rows)
    && is_acceptance_complete input
    && is_marketing_versioned input
    && ltb now input.expires_at

module _ (crypto : Crypto) (keys : Keys) where
  -- `none` is a thrown error: no address, or a short key.
  unfoldable pub hash_otp_email : ℕ → Secret → Option ℕ
  hash_otp_email email secret = elim (keys.parse_email email) [
    | none ↦ none
    | some address ↦
        if is_valid_secret secret then some (keys.hmac (keys.lower address) secret.key) else none
  ]

  abbrev pub new_row : ℕ → ℕ → NewChallenge → Challenge
  new_row now email_hash input = record {
    id = input.id;
    email_hash = email_hash;
    digest = input.digest;
    attempts = 0;
    created_at = now;
    expires_at = input.expires_at;
    intent = get_or input.intent sign_in;
    terms_version = input.terms_version;
    privacy_version = input.privacy_version;
    marketing_opt_in = get_or input.marketing_opt_in false;
    marketing_version = input.marketing_version;
    age_screen_passed = input.age_screen_passed;
  }

  -- The table after a challenge is stored.
  unfoldable pub replaced : ℕ → ℕ → NewChallenge → List Challenge → List Challenge
  unfolding cleanup
  replaced now email_hash input rows =
      delete (is_address email_hash) (cleanup now rows) ++ new_row now email_hash input ∷ []

  -- `clock` is the process's time, `now` the database's.
  unfoldable pub replace_active :
      ℕ → ℕ → NewChallenge → Secret → Option ℕ → List Challenge → Result Bool × List Challenge
  unfolding hash_otp_email replaced cleanup
  replace_active clock now input secret cooldown rows =
      if not (keys.is_uuid input.id) || not (crypto.is_digest input.digest)
      then (err invalid_input, rows)
      else elim (hash_otp_email input.email secret) [
        | none ↦ (err invalid_input, rows)
        | some email_hash ↦
            if ltb max_safe_integer input.expires_at || leb input.expires_at clock
            then (err invalid_expiration, rows)
            else if is_sign_up input.intent && not (passed input.age_screen_passed)
            then (err age_screen_required, rows)
            else if not (is_sign_up input.intent) && is_set input.age_screen_passed
            then (err age_screen_not_allowed, rows)
            else if cooling now email_hash cooldown (cleanup now rows)
            then (ok false, cleanup now rows)
            else if not (is_storable now input (delete (is_address email_hash) (cleanup now rows)))
            then (err constraint_violated, rows)
            else (ok true, replaced now email_hash input rows)
      ]

  unfoldable pub active_id : ℕ → ℕ → Secret → List Challenge → Result (Option ℕ)
  unfolding hash_otp_email
  active_id now email secret rows = elim (hash_otp_email email secret) [
    | none ↦ err invalid_input
    | some email_hash ↦
        elim (find (λ (c : Challenge). is_address email_hash c && ltb now c.expires_at) rows) [
          | none ↦ ok none
          | some c ↦ ok (some c.id)
        ]
  ]

  unfoldable pub invalidate : ℕ → ℕ → Secret → List Challenge → Result (Unit {0}) × List Challenge
  unfolding hash_otp_email
  invalidate id email secret rows =
      if not (keys.is_uuid id)
      then (err invalid_input, rows)
      else elim (hash_otp_email email secret) [
        | none ↦ (err invalid_input, rows)
        | some email_hash ↦ (ok tt, delete (is_challenge id email_hash) rows)
      ]
