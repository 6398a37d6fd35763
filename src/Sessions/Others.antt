-- ===== src/Sessions/Others.antt =====
-- packages/core/src/auth.ts: what a rotation, `revokeOtherSessions` and a password login do to the sessions
-- and accounts they are not for.
use careerscope.Sessions.Login.{
  as_credentials, refused, login_checked, committed, same_hash, login_locked, finish_login, SignIn,
  check_password, signed_in, login_session,
}
use careerscope.Sessions.Revocation.{
  revoke_others, is_other, is_current_session, revoke_other_sessions, belongs_to,
}
use careerscope.Sessions.Issue.{create_session, Drawn}
use careerscope.Search.State.{Text}
use careerscope.Base.Table.{update, find}
use careerscope.Base.{
  subst, ==_iff, ap, keep, none, some, true, false, [], ◌∷◌, ℕ, Bool, List, Option, all, not,
  get_or, ◌==◌, ◌&&◌, ◌||◌, if◌then◌else◌, arith, ◌≡◌, refl, inl, inr, Bool-cases, ==_refl, ◌>>=◌,
  ◌>>◌, guard,
}
use careerscope.Sessions.State.{
  has_email, is_account, AccountRow, is_token, revoke, is_session, is_active, PreviousSession,
  Session, Platform, AuthTables,
}

-- An update that leaves the row alone, and that turns no other row into one that is looked for.
find-update_kept :
    {A : Type 0} (q w : A → Bool) (f : A → A) (xs : List A) (c : A)
    → ((x : A) → q x ≡ false → q (f x) ≡ false)
    → w c ≡ false
    → find q xs ≡ some c
    → find q (update w f xs) ≡ some c
unfolding find update
find-update_kept q w f [] c k o e = ground arith
find-update_kept q w f (x ∷ xs) c k o e = elim (Bool-cases (q x)) [
  | inl g ↦ ground arith
  | inr g ↦ let rest = find-update_kept q w f xs c k o in ground (arith, k x g)
]

update-is_other :
    (now owner id later : ℕ) (ss : List Session)
    → all
        (λ s. not (belongs_to owner s && is_active later s) || is_session id s)
        (update (is_other owner id) (revoke now) ss)
      ≡ true
unfolding update
update-is_other now owner id later [] = refl
update-is_other now owner id later (s ∷ ss) = ground (arith, update-is_other now owner id later ss)

keep-other_owner :
    (now owner other id : ℕ) (ss : List Session)
    → (owner == other) ≡ false
    → keep (belongs_to other) (update (is_other owner id) (revoke now) ss)
      ≡ keep (belongs_to other) ss
unfolding update
keep-other_owner now owner other id [] e = refl
keep-other_owner now owner other id (s ∷ ss) e =
    ground (arith, keep-other_owner now owner other id ss e)

abbrev IsRevokedTo : ℕ → ℕ → ℕ → ℕ → ℕ → AuthTables → AuthTables → Type 0
IsRevokedTo now owner h later other t u =
    (c : Session) × (find (is_current_session now owner h) u.sessions ≡ some c)
    × (all (λ s. not (belongs_to owner s && is_active later s) || is_session c.id s) u.sessions
        ≡ true)
    × (keep (belongs_to other) u.sessions ≡ keep (belongs_to other) t.sessions)

current-kept :
    (now owner h : ℕ) (s : Session)
    → is_current_session now owner h s ≡ false
    → is_current_session now owner h (revoke now s) ≡ false
current-kept now owner h s e = ground arith

revoke_others-active :
    (now owner h later other : ℕ) (t : AuthTables) (o : Option Session)
    → find (is_current_session now owner h) t.sessions ≡ o
    → (revoke_others now owner o t).0 ≡ true
    → (owner == other) ≡ false
    → IsRevokedTo now owner h later other t (revoke_others now owner o t).1
revoke_others-active now owner h later other t none f e d = ground arith
revoke_others-active now owner h later other t (some c) f e d = (
  c,
  find-update_kept (is_current_session now owner h) (is_other owner c.id) (revoke now) t.sessions c
      (current-kept now owner h) (ground (arith, ==_refl c.id)) f,
  update-is_other now owner c.id later t.sessions,
  keep-other_owner now owner other c.id t.sessions d,
)

refused_false :
    {b : Bool} (r : Bool × AuthTables) (t : AuthTables)
    → b ≡ false
    → (if b then r else (false, t)).0 ≡ true
    → ⊥
refused_false r t f e = ground arith

-- A true answer of `revokeOtherSessions`: there is the session of the presented token, it is still accepted,
-- every session of the account that is active at any later time is that one, and other accounts' sessions
-- are as they were.
pub revoke_other_sessions-active :
    (digest : Text → ℕ) (now owner : ℕ) (token : Text) (t : AuthTables) (later other : ℕ)
    → (revoke_other_sessions digest now owner token t).0 ≡ true
    → (owner == other) ≡ false
    → (c : Session) × (find
          (is_current_session now owner (digest token))
          (revoke_other_sessions digest now owner token t).1.sessions
        ≡ some c)
      × (all
            (λ s. not (belongs_to owner s && is_active later s) || is_session c.id s)
            (revoke_other_sessions digest now owner token t).1.sessions
          ≡ true)
      × (keep (belongs_to other) (revoke_other_sessions digest now owner token t).1.sessions
          ≡ keep (belongs_to other) t.sessions)
unfolding revoke_other_sessions
revoke_other_sessions-active digest now owner token t later other e d =
    elim (Bool-cases (is_token token)) [
      | inl b ↦
          let o = find (is_current_session now owner (digest token)) t.sessions in
          rw b (revoke_others-active now owner (digest token) later other t o refl (ground arith) d)
      | inr b ↦ absurd (
          refused_false
            (revoke_others now owner (find (is_current_session now owner (digest token)) t.sessions)
              t)
            t b e)
    ]

same_hash-eq : (a b : Option ℕ) → same_hash a b ≡ true → a ≡ b
same_hash-eq none none e = refl
same_hash-eq none (some b) e = ground arith
same_hash-eq (some a) none e = ground arith
same_hash-eq (some a) (some b) e = ap some ((==_iff a b).0 e)

abbrev pub is_signed_in : SignIn → Bool
is_signed_in (signed_in c) = true
is_signed_in r = false

committed-refused :
    (t : AuthTables) (b : Bool) (r : SignIn × AuthTables)
    → is_signed_in (if b then r else (refused, t)).0 ≡ true
    → b ≡ true
committed-refused t b r e = ground arith

login_locked-hash :
    (digest : Text → ℕ) (now : ℕ) (d : Drawn) (id : ℕ) (hash : Option ℕ)
    (previous : Option PreviousSession) (device : Option Text) (t : AuthTables)
    (o : Option AccountRow)
    → is_signed_in (login_locked digest now d id hash previous device t o).0 ≡ true
    → (w : AccountRow) × (o ≡ some w) × (w.password_hash ≡ hash)
login_locked-hash digest now d id hash previous device t none e = ground arith
login_locked-hash digest now d id hash previous device t (some w) e = (
  w,
  refl,
  same_hash-eq w.password_hash hash (
      committed-refused t (same_hash w.password_hash hash)
        (committed t (as_credentials (create_session digest now d id previous device t))) e),
)

-- The row that the password was checked on, and its account's row in the transaction.
abbrev IsVerified : Platform → ℕ → Text → Text → AuthTables → AuthTables → Type 0
IsVerified p dummy email password seen t =
    (u : AccountRow) × (w : AccountRow) × (find (has_email (p.normal email)) seen.users ≡ some u)
    × (find (is_account u.id) t.users ≡ some w)
    × (p.verify (get_or w.password_hash dummy) password ≡ true)

guarded : {A : Type 0} (b : Bool) (x u : A) → (guard b >> some x) ≡ some u → (b ≡ true) × (x ≡ u)
guarded true x u e = (refl, ground arith)
guarded false x u e = ground arith

check_password-found :
    (p : Platform) (dummy : ℕ) (password : Text) (o : Option AccountRow) (u : AccountRow)
    → (o >>= λ x. guard (p.verify (get_or x.password_hash dummy) password) >> some x) ≡ some u
    → (o ≡ some u) × (p.verify (get_or u.password_hash dummy) password ≡ true)
check_password-found p dummy password none u e = ground arith
check_password-found p dummy password (some x) u e =
    let (b, same) = guarded (p.verify (get_or x.password_hash dummy) password) x u e in
    (ap some same, subst (λ y. p.verify (get_or y.password_hash dummy) password ≡ true) same b)

login_checked-IsVerified :
    (p : Platform) (dummy now : ℕ) (d : Drawn) (email password : Text)
    (previous : Option PreviousSession) (device : Option Text) (seen t : AuthTables)
    (o : Option AccountRow)
    → check_password p dummy email password seen ≡ o
    → is_signed_in (login_checked p.digest now d previous device t o).0 ≡ true
    → IsVerified p dummy email password seen t
unfolding check_password finish_login
login_checked-IsVerified p dummy now d email password previous device seen t none f e = ground arith
login_checked-IsVerified p dummy now d email password previous device seen t (some u) f e =
    let (w, g, h) =
      login_locked-hash p.digest now d u.id u.password_hash previous device t
        (find (is_account u.id) t.users) e in
    let c =
      check_password-found p dummy password (find (has_email (p.normal email)) seen.users) u f in
    (u, w, c.0, g, rw h c.1)

stored_hash :
    (p : Platform) (dummy : ℕ) (password : Text) (o : Option ℕ)
    → p.verify dummy password ≡ false
    → p.verify (get_or o dummy) password ≡ true
    → (h : ℕ) × (o ≡ some h) × (p.verify h password ≡ true)
stored_hash p dummy password none d e = ground arith
stored_hash p dummy password (some h) d e = (h, refl, e)

-- A password login that signs in has found the address's account when it checked the password, and in the
-- transaction the account's row has a hash that the password satisfies, where the password does not satisfy
-- the hash of the random password that stands in for a missing one.
pub login_session-verified :
    (p : Platform) (dummy now : ℕ) (d : Drawn) (email password : Text)
    (previous : Option PreviousSession) (device : Option Text) (seen t : AuthTables)
    → p.verify dummy password ≡ false
    → is_signed_in (login_session p dummy now d email password previous device seen t).0 ≡ true
    → (u : AccountRow) × (w : AccountRow) × (h : ℕ) × (find (has_email (p.normal email)) seen.users
        ≡ some u)
      × (find (is_account u.id) t.users ≡ some w)
      × (w.password_hash ≡ some h)
      × (p.verify h password ≡ true)
unfolding login_session
login_session-verified p dummy now d email password previous device seen t wrong e =
    let (u, w, f, g, v) =
      login_checked-IsVerified p dummy now d email password previous device seen t
        (check_password p dummy email password seen) refl e in
    let (h, k, x) = stored_hash p dummy password w.password_hash wrong v in (u, w, h, f, g, k, x)
