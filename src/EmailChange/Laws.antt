-- ===== src/EmailChange/Laws.antt =====
-- packages/core/src/email-change-requests.ts: `verify`.
use careerscope.Base.{
  ap, Option, none, some, true, false, inl, inr, arith, ◌≡◌, ◌<◌, ◌⊎◌, Option-cases, any, is_some,
  ℕ,
}
use careerscope.Base.Table.{find}
use careerscope.EmailChange.{
  Outcome, Address, current, new, ChangeRequest, Accounts, is_owned, is_user, is_taken, half_of,
  other_address, verified_email, verify, verify_request, finish, apply_code,
}
use careerscope.Otp.Code.{Crypto, Secret, Submitted, Verification, verify_email_otp}
use careerscope.Otp.Challenges.{Keys}

module _ (crypto : Crypto) (keys : Keys) (current_hash : ℕ → ℕ → ℕ) where
  abbrev pub hash_of : ℕ → Secret → Option ℕ
  hash_of email secret = elim (keys.parse_email email) [
    | none ↦ none
    | some e ↦ some (current_hash (keys.lower e) secret.key)
  ]

  apply_code_users :
      (owner db_now : ℕ) (address : Address) (r : ChangeRequest) (v : Verification) (a : Accounts)
      → ((apply_code crypto keys current_hash owner db_now address r v a).0 ≡ Outcome.completed)
        ⊎ ((apply_code crypto keys current_hash owner db_now address r v a).1.users ≡ a.users)
  unfolding apply_code finish
  apply_code_users owner db_now current r v a = ground arith
  apply_code_users owner db_now new r v a = ground arith

  verify_request_users :
      (owner db_now : ℕ) (address : Address) (code : Submitted) (secret : Secret) (now hash : ℕ)
      (r : ChangeRequest) (a : Accounts)
      → ((verify_request crypto keys current_hash owner db_now address code secret now hash r a).0
          ≡ Outcome.completed)
        ⊎ ((verify_request crypto keys current_hash owner db_now address code secret now hash r
              a).1.users
            ≡ a.users)
  unfolding verify_request
  verify_request_users owner db_now address code secret now hash r a = ground (
    arith,
    apply_code_users owner db_now address r
        (verify_email_otp crypto (half_of address r).challenge_id code (half_of address r).digest
          secret r.expires_at (half_of address r).attempts now)
        a,
  )

  -- A call of `verify` changes the accounts only where it answers completed.
  pub verify-users :
      (owner db_now : ℕ) (address : Address) (code : Submitted) (secret : Secret) (now : ℕ)
      (a : Accounts)
      → ((verify crypto keys current_hash owner db_now address code secret now a).0
          ≡ some Outcome.completed)
        ⊎ ((verify crypto keys current_hash owner db_now address code secret now a).1.users
            ≡ a.users)
  unfolding verify
  verify-users owner db_now address code secret now a =
      elim (Option-cases (find (is_owned owner) a.requests)) [
        | inl e ↦ ground (arith, e)
        | inr (r, e) ↦ elim (Option-cases (verified_email (find (is_user owner) a.users))) [
          | inl f ↦ ground (arith, e, f)
          | inr (email, f) ↦ elim (Option-cases (keys.parse_email email)) [
            | inl g ↦ ground (arith, e, f, g)
            | inr (n, g) ↦ ground (
              arith,
              e,
              f,
              g,
              verify_request_users owner db_now address code secret now
                  (current_hash (keys.lower n) secret.key) r a,
            )
          ]
        ]
      ]

  apply_code_completed :
      (owner db_now : ℕ) (address : Address) (r : ChangeRequest) (v : Verification) (a : Accounts)
      → (apply_code crypto keys current_hash owner db_now address r v a).0 ≡ Outcome.completed
      → (v ≡ Verification.accepted)
        × (is_some (half_of (other_address address) r).verified_at ≡ true)
        × (any (is_taken r.new_email owner) a.users ≡ false)
  unfolding apply_code finish
  apply_code_completed owner db_now current r v a h = ground arith
  apply_code_completed owner db_now new r v a h = ground arith

  verify_request_completed :
      (owner db_now : ℕ) (address : Address) (code : Submitted) (secret : Secret) (now hash : ℕ)
      (r : ChangeRequest) (a : Accounts)
      → (verify_request crypto keys current_hash owner db_now address code secret now hash r a).0
        ≡ Outcome.completed
      → (hash ≡ r.current_email_hash)
        × (now < r.expires_at)
        × (verify_email_otp crypto
              (half_of address r).challenge_id
              code
              (half_of address r).digest
              secret
              r.expires_at
              (half_of address r).attempts
              now
            ≡ Verification.accepted)
        × (is_some (half_of (other_address address) r).verified_at ≡ true)
        × (any (is_taken r.new_email owner) a.users ≡ false)
  unfolding verify_request
  verify_request_completed owner db_now address code secret now hash r a h = ground (
    arith,
    apply_code_completed owner db_now address r
        (verify_email_otp crypto (half_of address r).challenge_id code (half_of address r).digest
          secret r.expires_at (half_of address r).attempts now)
        a,
  )

  -- Where `verify` answers completed, the owner has a pending request that is not expired, the code is
  -- the one of the submitted half, the other half was verified before, no other account has the new
  -- address, and the current address is the one the request was made for.
  pub verify-completed :
      (owner db_now : ℕ) (address : Address) (code : Submitted) (secret : Secret) (now : ℕ)
      (a : Accounts)
      → (verify crypto keys current_hash owner db_now address code secret now a).0
        ≡ some Outcome.completed
      → (r : ChangeRequest) × (email : ℕ) × (find (is_owned owner) a.requests ≡ some r)
        × (verified_email (find (is_user owner) a.users) ≡ some email)
        × (hash_of email secret ≡ some r.current_email_hash)
        × (now < r.expires_at)
        × (verify_email_otp crypto
              (half_of address r).challenge_id
              code
              (half_of address r).digest
              secret
              r.expires_at
              (half_of address r).attempts
              now
            ≡ Verification.accepted)
        × (is_some (half_of (other_address address) r).verified_at ≡ true)
        × (any (is_taken r.new_email owner) a.users ≡ false)
  unfolding verify
  verify-completed owner db_now address code secret now a h =
      elim (Option-cases (find (is_owned owner) a.requests)) [
        | inl e ↦ ground (arith, e, h)
        | inr (r, e) ↦ elim (Option-cases (verified_email (find (is_user owner) a.users))) [
          | inl f ↦ ground (arith, e, f, h)
          | inr (email, f) ↦ elim (Option-cases (keys.parse_email email)) [
            | inl g ↦ ground (arith, e, f, g, h)
            | inr (n, g) ↦
                let k =
                  verify_request_completed owner db_now address code secret now
                    (current_hash (keys.lower n) secret.key) r a (ground (arith, e, f, g, h)) in
                (r, email, e, f, rw (g, hash_of) (ap some k.0), k.1, k.2, k.3, k.4)
          ]
        ]
      ]
