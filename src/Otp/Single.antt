-- ===== src/Otp/Single.antt =====
-- packages/core/src/email-otp-challenges.ts, `consume` and `replaceActive`: the challenge's row.
use careerscope.Otp.Budget.{found_row, consume_found, find-delete_row, consume_none}
use careerscope.Base.Table.{
  find-delete-none, find-append, count-delete_self, count-append, find, count, delete,
}
use careerscope.Otp.Consume.{consume, apply_verdict, consume_row, ConsumeInput}
use careerscope.Base.{
  ap, ◌&&◌, ◌∙◌, ◌⊎◌, ◌≢◌, ltb, if◌then◌else◌, Option-cases, get_or, ◌<◌, List, Option, ℕ, Bool,
  none, some, true, false, [], ◌∷◌, inl, inr, refl, arith, ◌≡◌,
}
use careerscope.Otp.Challenges.{
  new_row, cleanup, replaced, is_challenge, active_id, is_address, replace_active, is_row,
  hash_otp_email, Challenge, NewChallenge, ChallengeContext, Keys, ok,
}
use careerscope.Otp.Code.{
  verify_email_otp, Submitted, Secret, Verification, Crypto, accepted, expired, exhausted, invalid,
  six_digits, other,
}

-- The answers after which the challenge is gone.
abbrev pub is_final : Verification → Bool
is_final accepted = true
is_final expired = true
is_final exhausted = true
is_final _ = false

Submitted-cases : (x : Submitted) → (x ≡ other) ⊎ ((n : ℕ) × (x ≡ six_digits n))
Submitted-cases other = inl refl
Submitted-cases (six_digits n) = inr (n, refl)

module _ {S : Type 0} (crypto : Crypto) (keys : Keys)
    (on_accepted : ChallengeContext → S → Option S) where
  consume_row_final :
      (clock : ℕ) (input : ConsumeInput) (c : Challenge) (rows : List Challenge) (s : S)
      (v : Verification)
      → (consume_row crypto keys on_accepted clock input c rows s).0 ≡ ok v
      → is_final v ≡ true
      → (consume_row crypto keys on_accepted clock input c rows s).1 ≡ delete (is_row c.id) rows
  unfolding consume_row apply_verdict
  consume_row_final clock input c rows s v h f = ground arith

  accepted_other :
      (clock : ℕ) (input : ConsumeInput) (c : Challenge) (rows : List Challenge) (s : S)
      → (consume_row crypto keys on_accepted clock input c rows s).0 ≡ ok accepted
      → input.code ≢ other
  unfolding consume_row apply_verdict verify_email_otp
  accepted_other clock input c rows s h e = ground arith

  accepted_code :
      (clock : ℕ) (input : ConsumeInput) (c : Challenge) (rows : List Challenge) (s : S) (code : ℕ)
      → (consume_row crypto keys on_accepted clock input c rows s).0 ≡ ok accepted
      → input.code ≡ six_digits code
      → (c.attempts < 5)
        × (get_or input.now clock < c.expires_at)
        × ((n : ℕ) × (input.code ≡ six_digits n)
            × (c.digest ≡ crypto.digest c.id n input.secret.key))
  unfolding consume_row apply_verdict verify_email_otp
  accepted_code clock input c rows s code h e =
      (ground arith, ground arith, (code, ground arith, ground arith))

  accepted_row :
      (clock : ℕ) (input : ConsumeInput) (c : Challenge) (rows : List Challenge) (s : S)
      → (consume_row crypto keys on_accepted clock input c rows s).0 ≡ ok accepted
      → (c.attempts < 5)
        × (get_or input.now clock < c.expires_at)
        × ((code : ℕ) × (input.code ≡ six_digits code)
            × (c.digest ≡ crypto.digest c.id code input.secret.key))
  accepted_row clock input c rows s h = elim (Submitted-cases input.code) [
    | inl e ↦ absurd (accepted_other clock input c rows s h e)
    | inr (code, e) ↦ accepted_code clock input c rows s code h e
  ]

  -- After an answer that is final the row of that identifier is gone.
  pub consume-deletes :
      (clock : ℕ) (input : ConsumeInput) (h : ℕ) (rows : List Challenge) (s : S) (v : Verification)
      → hash_otp_email crypto keys input.email input.secret ≡ some h
      → (consume crypto keys on_accepted clock input rows s).0 ≡ ok v
      → is_final v ≡ true
      → (consume crypto keys on_accepted clock input rows s).1 ≡ delete (is_row input.id) rows
  consume-deletes clock input h rows s v hashed answered final =
      elim (Option-cases (find (is_challenge input.id h) rows)) [
        | inl e ↦ ground (arith, consume_none crypto keys on_accepted clock input h rows s hashed e)
        | inr (c, e) ↦
            elim (consume_found crypto keys on_accepted clock input h rows s hashed c e) [
              | inl k ↦ ground (arith, k)
              | inr k ↦ rw k (
                  consume_row_final clock input c rows s v (rw k at answered) final
                  ∙ ap (λ i. delete (is_row i) rows) (found_row input.id h rows c e).0)
            ]
      ]

  consume_absent :
      (clock : ℕ) (input : ConsumeInput) (rows : List Challenge) (s : S)
      → ((h : ℕ) → find (is_challenge input.id h) rows ≡ none)
      → consume crypto keys on_accepted clock input rows s ≡ (ok invalid, rows, s)
  unfolding consume
  consume_absent clock input rows s gone =
      elim (Option-cases (hash_otp_email crypto keys input.email input.secret)) [
        | inl e ↦ ground arith
        | inr (h, e) ↦ ground (arith, gone h)
      ]

  -- A code is used once: after an answer accepted, expired or exhausted, every later call with the
  -- same identifier answers invalid and changes nothing, whatever it submits.
  pub consume_once :
      (clock : ℕ) (input : ConsumeInput) (h : ℕ) (rows : List Challenge) (s : S) (v : Verification)
      (clock' : ℕ) (later : ConsumeInput)
      → hash_otp_email crypto keys input.email input.secret ≡ some h
      → (consume crypto keys on_accepted clock input rows s).0 ≡ ok v
      → is_final v ≡ true
      → later.id ≡ input.id
      → let (r, rows', s') = consume crypto keys on_accepted clock input rows s in
        consume crypto keys on_accepted clock' later rows' s' ≡ (ok invalid, rows', s')
  consume_once clock input h rows s v clock' later hashed answered final same =
      let k = consume-deletes clock input h rows s v hashed answered final in
      consume_absent clock' later (consume crypto keys on_accepted clock input rows s).1
        (consume crypto keys on_accepted clock input rows s).2
        (λ h'. rw (k, same) (find-delete_row input.id h' rows))

module _ (crypto : Crypto) (keys : Keys) (clock now : ℕ) (input : NewChallenge) (secret : Secret)
    (cooldown : Option ℕ) (rows : List Challenge) (h : ℕ)
    (hashed : hash_otp_email crypto keys input.email secret ≡ some h)
    (done : (replace_active crypto keys clock now input secret cooldown rows).0 ≡ ok true) where
  replace_active-replaced :
      (replace_active crypto keys clock now input secret cooldown rows).1
      ≡ replaced crypto keys now h input rows
  unfolding replace_active
  replace_active-replaced = ground arith

  replaced-count : count (is_address h) (replaced crypto keys now h input rows) ≡ 1
  unfolding replaced
  replaced-count =
      count-append (is_address h) (delete (is_address h) (cleanup now rows))
        (new_row crypto keys now h input ∷ [])
      ∙ rw (count-delete_self (is_address h) (cleanup now rows)) (unfold count in ground arith)

  issued :
      find
        (λ (c : Challenge). is_address h c && ltb now c.expires_at)
        (replaced crypto keys now h input rows)
      ≡ (if ltb now input.expires_at then some (new_row crypto keys now h input) else none)
  unfolding replaced
  issued =
      find-append (λ (c : Challenge). is_address h c && ltb now c.expires_at)
        (delete (is_address h) (cleanup now rows)) (new_row crypto keys now h input ∷ [])
      ∙ rw
          (find-delete-none (λ (c : Challenge). is_address h c && ltb now c.expires_at)
            (is_address h) (cleanup now rows) (λ x t. ground arith))
          (unfold find in ground arith)

  replaced-active :
      active_id crypto keys now input.email secret (replaced crypto keys now h input rows)
      ≡ ok (if ltb now input.expires_at then some input.id else none)
  unfolding active_id
  replaced-active = ground (arith, issued)

  -- After an issue that stores a challenge it is the one challenge of its address, and the active
  -- one, unless the database's clock is past its expiry.
  pub replace_active-one :
      (count (is_address h) (replace_active crypto keys clock now input secret cooldown rows).1 ≡ 1)
      × (active_id crypto keys now input.email secret
            (replace_active crypto keys clock now input secret cooldown rows).1
          ≡ ok (if ltb now input.expires_at then some input.id else none))
  replace_active-one = rw replace_active-replaced (replaced-count, replaced-active)
