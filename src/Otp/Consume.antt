-- ===== src/Otp/Consume.antt =====
-- email-otp-challenges.ts: `consume`, which checks a code against a challenge. `S` is what the
-- caller's `onAccepted` changes in the same transaction; `none` is that it throws.
use careerscope.Base.Table.{update, find, delete}
use careerscope.Base.{
  leb, get_or, ◌||◌, ◌&&◌, if◌then◌else◌, not, ltb, List, ◌+◌, Bool, ℕ, Option, none, some, false,
}
use careerscope.Otp.Code.{
  verify_email_otp, is_valid_secret, max_safe_integer, Verification, Secret, Submitted, Crypto,
  accepted, incorrect, expired, exhausted, invalid,
}
use careerscope.Otp.Challenges.{
  Failure, Result, is_challenge, is_row, hash_otp_email, is_intent, Keys, Intent, ChallengeContext,
  Challenge, sign_up, ok, err,
}

pub record ConsumeInput : Type 0 where
  pub id : ℕ
  pub email : ℕ
  pub code : Submitted
  pub secret : Secret
  pub now : Option ℕ
  pub expected_intent : Option Intent

abbrev pub context : Challenge → ChallengeContext
context c = record {
  intent = c.intent;
  terms_version = c.terms_version;
  privacy_version = c.privacy_version;
  marketing_opt_in = c.marketing_opt_in;
  marketing_version = c.marketing_version;
  age_screen_passed = c.age_screen_passed;
}

abbrev unsafe_time : Option ℕ → Bool
unsafe_time none = false
unsafe_time (some t) = ltb max_safe_integer t

abbrev other_intent : Option Intent → Intent → Bool
other_intent none i = false
other_intent (some e) i = not (is_intent e i)

abbrev wants_sign_up : Option Intent → Bool
wants_sign_up none = false
wants_sign_up (some e) = is_intent e sign_up

abbrev is_passed : Option Bool → Bool
is_passed none = false
is_passed (some b) = b

abbrev pub count_attempt : Challenge → Challenge
count_attempt c = record c { attempts = c.attempts + 1 }

module _ {S : Type 0} (crypto : Crypto) (keys : Keys)
    (on_accepted : ChallengeContext → S → Option S) where
  -- What a verdict does to the table, under the row's lock.
  unfoldable pub apply_verdict :
      Verification → Challenge → List Challenge → S → Result Verification × List Challenge × S
  apply_verdict accepted c rows s = elim (on_accepted (context c) s) [
    | none ↦ (err Failure.accept_failed, rows, s)
    | some t ↦ (ok accepted, delete (is_row c.id) rows, t)
  ]
  apply_verdict expired c rows s = (ok expired, delete (is_row c.id) rows, s)
  apply_verdict exhausted c rows s = (ok exhausted, delete (is_row c.id) rows, s)
  apply_verdict invalid c rows s = (ok invalid, rows, s)
  apply_verdict incorrect c rows s =
      if leb 5 (c.attempts + 1)
      then (ok exhausted, delete (is_row c.id) rows, s)
      else (ok incorrect, update (is_row c.id) count_attempt rows, s)

  -- The row is there and the intent is the expected one.
  unfoldable pub consume_row :
      ℕ → ConsumeInput → Challenge → List Challenge → S → Result Verification × List Challenge × S
  consume_row clock input c rows s =
      if other_intent input.expected_intent c.intent
      then (ok invalid, rows, s)
      else if wants_sign_up input.expected_intent && not (is_passed c.age_screen_passed)
      then (ok invalid, delete (is_row c.id) rows, s)
      else if ltb max_safe_integer (get_or input.now clock)
      then (ok invalid, rows, s)
      else apply_verdict
          (verify_email_otp crypto c.id input.code c.digest input.secret c.expires_at c.attempts
            (get_or input.now clock))
          c rows s

  -- `clock` is the time that is read once the row's lock is held.
  unfoldable pub consume :
      ℕ → ConsumeInput → List Challenge → S → Result Verification × List Challenge × S
  unfolding consume_row
  consume clock input rows s =
      if not (keys.is_uuid input.id) || not (is_valid_secret input.secret) || unsafe_time input.now
      then (ok invalid, rows, s)
      else elim (hash_otp_email crypto keys input.email input.secret) [
        | none ↦ (ok invalid, rows, s)
        | some email_hash ↦ elim (find (is_challenge input.id email_hash) rows) [
          | none ↦ (ok invalid, rows, s)
          | some c ↦ consume_row clock input c rows s
        ]
      ]
