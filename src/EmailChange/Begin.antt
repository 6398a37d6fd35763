-- ===== src/EmailChange/Begin.antt =====
-- packages/core/src/email-change-requests.ts: what `begin` leaves in the table of requests.
use careerscope.Base.Table.{or_else, find-delete-other, delete, find-append, find-delete-none, find}
use careerscope.Base.{
  Option, inr, refl, ◌∙◌, inl, subst, Bool-cases, true, false, [], Option-cases, arith, some, none,
  List, ◌≡◌, ℕ, ◌+◌, ◌∷◌, ◌==◌, ◌&&◌, leb, ==_iff, ==_refl, sym, ap,
}
use careerscope.EmailChange.{
  Half, ChangeRequest, ChangeCodes, Draws, Accounts, is_owned, is_user, verified_email, new_request,
  upsert, store_request, begin, codes,
}
use careerscope.Otp.Code.{Crypto, Secret, EmailOtp, email_otp_lifetime_ms, create_email_otp}
use careerscope.Otp.Challenges.{Keys}

-- A half for which no code was submitted yet and whose code is `code`.
abbrev IsNewHalf : Crypto → Secret → ℕ → ℕ → Half → Type 0
IsNewHalf crypto secret challenge_id code h =
    (h.challenge_id ≡ challenge_id)
    × (h.digest ≡ crypto.digest challenge_id code secret.key)
    × (h.attempts ≡ 0)
    × (h.verified_at ≡ none)

module _ (crypto : Crypto) (keys : Keys) (current_hash : ℕ → ℕ → ℕ) where
  -- The request of the codes that were returned, with both halves open for five minutes.
  abbrev pub IsNewRequest : Secret → ℕ → ChangeCodes → ChangeRequest → Type 0
  IsNewRequest secret now c r =
      (r.id ≡ c.request_id)
      × (r.current_email_hash ≡ current_hash c.current_email secret.key)
      × (r.new_email ≡ c.new_email)
      × (r.expires_at ≡ now + email_otp_lifetime_ms)
      × IsNewHalf crypto secret c.current_challenge_id c.current_code r.current_half
      × IsNewHalf crypto secret c.new_challenge_id c.new_code r.new_half

  abbrev pub IsStored : ℕ → Secret → ℕ → ChangeCodes → Accounts → Type 0
  IsStored owner secret now c a =
      (r : ChangeRequest) × (find (is_owned owner) a.requests ≡ some r)
      × IsNewRequest secret now c r

  create_email_otp-digest :
      (id now drawn : ℕ) (secret : Secret) (x : EmailOtp)
      → create_email_otp crypto id secret now drawn ≡ some x
      → x.digest ≡ crypto.digest id x.code secret.key
  unfolding create_email_otp
  create_email_otp-digest id now drawn secret x e = ground arith

  codes-digests :
      (d : Draws) (secret : Secret) (now : ℕ) (x y : EmailOtp)
      → codes crypto keys current_hash d secret now ≡ some (x, y)
      → (x.digest ≡ crypto.digest d.current_challenge_id x.code secret.key)
        × (y.digest ≡ crypto.digest d.new_challenge_id y.code secret.key)
  codes-digests d secret now x y e =
      elim (Option-cases
        (create_email_otp crypto d.current_challenge_id secret now d.current_code)) [
          | inl f ↦ ground (arith, e, f)
          | inr (p, f) ↦
              elim (Option-cases
                (create_email_otp crypto d.new_challenge_id secret now d.new_code)) [
                  | inl g ↦ ground (arith, e, f, g)
                  | inr (q, g) ↦ ground (
                    arith,
                    e,
                    f,
                    g,
                    create_email_otp-digest d.current_challenge_id now d.current_code secret p f,
                    create_email_otp-digest d.new_challenge_id now d.new_code secret q g,
                  )
                ]
        ]

  or_else-none : (r : Option ChangeRequest) → or_else r none ≡ r
  or_else-none none = refl
  or_else-none (some r) = refl

  other_owner :
      (x : ChangeRequest) (p o : ℕ) → is_owned o x ≡ true → (p == o) ≡ false → is_owned p x ≡ false
  other_owner x p o e h = elim (Bool-cases (x.owner_id == p)) [
    | inr d ↦ d
    | inl d ↦
        let same = (==_iff p o).1 (sym ((==_iff x.owner_id p).0 d) ∙ (==_iff x.owner_id o).0 e) in
        ground (arith, same, h)
  ]

  find-upsert :
      (r : ChangeRequest) (rows : List ChangeRequest)
      → find (is_owned r.owner_id) (upsert crypto keys current_hash r rows) ≡ some r
  unfolding upsert find
  find-upsert r rows =
      let gone = find-delete-none (is_owned r.owner_id) (is_owned r.owner_id) rows (λ x h. h) in
      find-append (is_owned r.owner_id) (delete (is_owned r.owner_id) rows) (r ∷ [])
      ∙ rw (gone, ==_refl r.owner_id) refl

  find-upsert-other :
      (r : ChangeRequest) (rows : List ChangeRequest) (o : ℕ)
      → (r.owner_id == o) ≡ false
      → find (is_owned o) (upsert crypto keys current_hash r rows) ≡ find (is_owned o) rows
  unfolding upsert find
  find-upsert-other r rows o h =
      let kept =
        find-delete-other (is_owned o) (is_owned r.owner_id) rows
          (λ x e. other_owner x r.owner_id o e h) in
      find-append (is_owned o) (delete (is_owned r.owner_id) rows) (r ∷ [])
      ∙ rw (kept, h) (or_else-none _)

  -- The codes that are returned, and the table with the request they are for.
  abbrev the_codes : Draws → ℕ → ℕ → EmailOtp → EmailOtp → ChangeCodes
  the_codes d email n x y = record {
    request_id = d.request_id;
    current_challenge_id = d.current_challenge_id;
    new_challenge_id = d.new_challenge_id;
    current_email = n;
    new_email = email;
    current_code = x.code;
    new_code = y.code;
  }

  abbrev with_request : ℕ → ChangeRequest → ℕ → Accounts → Accounts
  with_request owner r now a = record a {
    requests =
        upsert crypto keys current_hash r
          (delete (λ r. is_owned owner r && leb r.expires_at now) a.requests);
  }

  same_codes : (p q : ChangeCodes) → some (some p) ≡ some (some q) → p ≡ q
  same_codes p q e = cc

  stored :
      (owner : ℕ) (d : Draws) (email : ℕ) (secret : Secret) (now n : ℕ) (x y : EmailOtp)
      (a : Accounts) (c : ChangeCodes) (o : ℕ)
      → codes crypto keys current_hash d secret now ≡ some (x, y)
      → (store_request crypto keys current_hash owner d email secret now n x y a).0 ≡ some (some c)
      → (owner == o) ≡ false
      → IsStored owner secret now c
          (store_request crypto keys current_hash owner d email secret now n x y a).1
        × (find
              (is_owned o)
              (store_request crypto keys current_hash owner d email secret now n x y a).1.requests
            ≡ find (is_owned o) a.requests)
  unfolding store_request
  stored owner d email secret now n x y a c o f h k = elim (Bool-cases (email == n)) [
    | inl e ↦ ground (arith, e, h)
    | inr e ↦
        let r = new_request crypto keys current_hash owner d n email secret now x y in
        let w : store_request crypto keys current_hash owner d email secret now n x y a
            ≡ (some (some (the_codes d email n x y)), with_request owner r now a) =
          ground (arith, e) in
        let same : the_codes d email n x y ≡ c =
          same_codes (the_codes d email n x y) c (sym (ap (λ z. z.0) w) ∙ h) in
        let (p, q) = codes-digests d secret now x y f in
        let old = λ (r : ChangeRequest). is_owned owner r && leb r.expires_at now in
        let kept =
          find-delete-other (is_owned o) old a.requests
            (λ z u. ground (arith, other_owner z owner o u k)) in
        subst
          (λ z.
            IsStored owner secret now c z.1
            × (find (is_owned o) z.1.requests ≡ find (is_owned o) a.requests))
          (sym w)
          (
            subst (λ z. IsStored owner secret now z (with_request owner r now a)) same
                (
                  r,
                  find-upsert r (delete old a.requests),
                  (refl, refl, refl, refl, (refl, p, refl, refl), (refl, q, refl, refl)),
                ),
            find-upsert-other r (delete old a.requests) o k ∙ kept,
          )
  ]

  -- Where `begin` answers with codes, the owner's request is the one of those codes: none of its halves
  -- is verified or has an attempt, whatever request it replaces; the other owners' requests are the same.
  pub begin-stores :
      (owner email : ℕ) (secret : Secret) (now : ℕ) (d : Draws) (a : Accounts) (c : ChangeCodes)
      (o : ℕ)
      → (begin crypto keys current_hash owner email secret now d a).0 ≡ some (some c)
      → (owner == o) ≡ false
      → IsStored owner secret now c (begin crypto keys current_hash owner email secret now d a).1
        × (find (is_owned o) (begin crypto keys current_hash owner email secret now d a).1.requests
            ≡ find (is_owned o) a.requests)
  unfolding begin
  begin-stores owner email secret now d a c o h q = elim (Option-cases (keys.parse_email email)) [
    | inl e ↦ ground (arith, e, h)
    | inr (n, e) ↦ elim (Option-cases (codes crypto keys current_hash d secret now)) [
      | inl f ↦ ground (arith, e, f, h)
      | inr ((x, y), f) ↦ elim (Option-cases (verified_email (find (is_user owner) a.users))) [
        | inl g ↦ ground (arith, e, f, g, h)
        | inr (u, g) ↦ elim (Option-cases (keys.parse_email u)) [
          | inl k ↦ ground (arith, e, f, g, k, h)
          | inr (m, k) ↦
              let w : begin crypto keys current_hash owner email secret now d a
                  ≡ store_request crypto keys current_hash owner d (keys.lower n) secret now
                      (keys.lower m) x y a =
                ground (arith, e, f, g, k) in
              subst
                (λ z.
                  IsStored owner secret now c z.1
                  × (find (is_owned o) z.1.requests ≡ find (is_owned o) a.requests))
                (sym w)
                (stored owner d (keys.lower n) secret now (keys.lower m) x y a c o f
                  (ap (λ z. z.0) (sym w) ∙ h) q)
        ]
      ]
    ]
  ]
