-- ===== src/Otp/Code.antt =====
-- email-otp.ts: creating and verifying a code. A code, a digest, an address and an identifier are
-- numbers; the patterns that they must match are tests. The HMAC is not part of the program: it is
-- the parameter `digest` of `challengeId`, `code` and key.
use careerscope.Base.{some, none, ◌+◌, ltb, ◌||◌, ◌==◌, not, leb, if◌then◌else◌, Option, Bool, ℕ}

abbrev pub email_otp_lifetime_ms : ℕ
email_otp_lifetime_ms = 300000

abbrev pub email_otp_maximum_attempts : ℕ
email_otp_maximum_attempts = 5

-- `Number.MAX_SAFE_INTEGER`.
abbrev pub max_safe_integer : ℕ
max_safe_integer = 9007199254740991

-- A key with its length in bytes.
pub record Secret : Type 0 where
  pub key : ℕ
  pub byte_length : ℕ

abbrev pub is_valid_secret : Secret → Bool
is_valid_secret s = leb 32 s.byte_length

pub data Verification : Type 0 where
  accepted incorrect expired exhausted invalid : Verification

-- What the patterns of the file test, and the HMAC.
pub record Crypto : Type 0 where
  pub is_challenge_id : ℕ → Bool
  pub is_digest : ℕ → Bool
  pub digest : ℕ → ℕ → ℕ → ℕ

-- `unknown`: a submitted value is a text of six digits, or anything else.
pub data Submitted : Type 0 where
  six_digits : ℕ → Submitted
  other : Submitted

pub record EmailOtp : Type 0 where
  pub code : ℕ
  pub digest : ℕ
  pub expires_at : ℕ

module _ (crypto : Crypto) where
  -- `drawn` is `randomInt(0, 1_000_000)`; its six digits are the code. `none` is a thrown error.
  unfoldable pub create_email_otp : ℕ → Secret → ℕ → ℕ → Option EmailOtp
  create_email_otp challenge_id secret now drawn =
      if not (crypto.is_challenge_id challenge_id)
        || not (is_valid_secret secret)
        || ltb max_safe_integer now
        || ltb max_safe_integer (now + email_otp_lifetime_ms)
      then none
      else some (record {
        code = drawn;
        digest = crypto.digest challenge_id drawn secret.key;
        expires_at = now + email_otp_lifetime_ms;
      })

  abbrev compare_code : ℕ → ℕ → Secret → Submitted → Verification
  compare_code challenge_id digest secret other = incorrect
  compare_code challenge_id digest secret (six_digits code) =
      if digest == crypto.digest challenge_id code secret.key then accepted else incorrect

  -- Times and attempts are not negative here; the checks that they are safe integers remain.
  unfoldable pub verify_email_otp : ℕ → Submitted → ℕ → Secret → ℕ → ℕ → ℕ → Verification
  verify_email_otp challenge_id code digest secret expires_at attempts now =
      if not (crypto.is_challenge_id challenge_id)
        || not (is_valid_secret secret)
        || not (crypto.is_digest digest)
        || ltb max_safe_integer expires_at
        || ltb max_safe_integer attempts
        || ltb max_safe_integer now
      then invalid
      else if leb email_otp_maximum_attempts attempts
      then exhausted
      else if leb expires_at now
      then expired
      else compare_code challenge_id digest secret code
