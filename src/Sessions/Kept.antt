-- ===== src/Sessions/Kept.antt =====
-- packages/core/src/auth.ts: conditions on the rows of `sessions` and of `session_refresh_tokens` that
-- every call keeps.
use careerscope.Sessions.Revocation.{
  is_other, is_current_session, belongs_to, revoke_session, revoke_others, revoke_other_sessions,
  logout, is_swept, sweep_batch,
}
use careerscope.Sessions.Trace.{
  rotate_token, test_login, otp_login, email_login, password_login, AuthCall,
}
use careerscope.Sessions.Rotation.{consume_token, rotate_session, NewTokens}
use careerscope.Sessions.Issue.{
  new_refresh, new_session, is_presented, digest_of, revoke_presented, Drawn,
}
use careerscope.Search.State.{Text}
use careerscope.Base.Table.{update, find, all-delete, all-update, all-append}
use careerscope.Base.{none, some, true, [], ◌∷◌, ℕ, Bool, List, Option, all, ◌&&◌, arith, ◌≡◌}
use careerscope.Sessions.State.{
  Platform, is_session, revoke, insert_session, insert_refresh, AuthTables, RefreshToken, Session,
}

-- The condition on what a sign-in and a rotation draw.
abbrev pub draws : (Drawn → Bool) → (NewTokens → Bool) → AuthCall → Bool
draws fine fine_new (password_login d id hash previous device) = fine d
draws fine fine_new (email_login d email previous device) = fine d
draws fine fine_new (otp_login d id ids email a previous device seen) = fine d
draws fine fine_new (test_login d hash email previous device seen) = fine d
draws fine fine_new (rotate_token n token) = fine_new n
draws fine fine_new _ = true

abbrev pub all_draw : (Drawn → Bool) → (NewTokens → Bool) → List (ℕ × AuthCall) → Bool
all_draw fine fine_new [] = true
all_draw fine fine_new ((now, call) ∷ calls) =
    draws fine fine_new call && all_draw fine fine_new calls

-- Conditions on the rows of the two tables that the statements keep, and that the rows which are inserted
-- satisfy, as far as `fine` and `fine_new` hold of what is drawn.
pub record RowLaws (p : Platform) (ps : Session → Bool) (pr : RefreshToken → Bool)
    (fine : Drawn → Bool) (fine_new : NewTokens → Bool) : Type 0 where
  pub revoked : (now : ℕ) (s : Session) → ps s ≡ true → ps (revoke now s) ≡ true
  pub replaced :
      (now : ℕ) (n : NewTokens) (s : Session)
      → fine_new n ≡ true
      → ps s ≡ true
      → ps (rotate_session now (p.digest n.access_token) s) ≡ true
  pub consumed : (now : ℕ) (r : RefreshToken) → pr r ≡ true → pr (consume_token now r) ≡ true
  pub opened :
      (now : ℕ) (d : Drawn) (owner : ℕ) (device : Option Text)
      → fine d ≡ true
      → ps (new_session now p.digest d owner device) ≡ true
  pub issued :
      (d : Drawn) (id expiry : ℕ)
      → fine d ≡ true
      → pr (new_refresh (p.digest d.refresh_token) id expiry) ≡ true
  pub issued_new :
      (n : NewTokens) (id expiry : ℕ)
      → fine_new n ≡ true
      → pr (new_refresh (p.digest n.refresh_token) id expiry) ≡ true

module _ (ps : Session → Bool) (pr : RefreshToken → Bool) where
  abbrev pub kept : AuthTables → Bool
  kept t = all ps t.sessions && all pr t.refresh_tokens

  abbrev pub kept_if : Option AuthTables → Bool
  kept_if none = true
  kept_if (some u) = kept u

  abbrev pub kept_with : {A : Type 0} → Option (A × AuthTables) → Bool
  kept_with none = true
  kept_with (some (a, u)) = kept u

  pub insert_session-kept :
      (s : Session) (t : AuthTables)
      → ps s ≡ true
      → kept t ≡ true
      → kept_if (insert_session s t) ≡ true
  unfolding insert_session
  insert_session-kept s t h k = ground (arith, all-append ps ps t.sessions (s ∷ []))

  pub insert_refresh-kept :
      (r : RefreshToken) (t : AuthTables)
      → pr r ≡ true
      → kept t ≡ true
      → kept_if (insert_refresh r t) ≡ true
  unfolding insert_refresh
  insert_refresh-kept r t h k = ground (arith, all-append pr pr t.refresh_tokens (r ∷ []))

  pub sweep_batch-kept :
      (batch : List Session) (t : AuthTables) → kept t ≡ true → kept (sweep_batch batch t) ≡ true
  unfolding sweep_batch
  sweep_batch-kept batch t k = ground (
    arith,
    all-delete ps (λ s. is_swept batch s.id) t.sessions,
    all-delete pr (λ r. is_swept batch r.session_id) t.refresh_tokens,
  )

  module _ (revoked : (now : ℕ) (s : Session) → ps s ≡ true → ps (revoke now s) ≡ true) where
    pub update-revoke-kept :
        (q : Session → Bool) (now : ℕ) (t : AuthTables)
        → kept t ≡ true
        → kept (record t { sessions = update q (revoke now) t.sessions }) ≡ true
    update-revoke-kept q now t k =
        ground (arith, all-update ps q (revoke now) t.sessions (revoked now))

    pub revoke_presented-kept :
        (now : ℕ) (a b : Option ℕ) (t : AuthTables)
        → kept t ≡ true
        → kept (revoke_presented now a b t) ≡ true
    unfolding revoke_presented
    revoke_presented-kept now a b t k =
        update-revoke-kept (is_presented a b t.refresh_tokens) now t k

    pub logout-kept :
        (digest : Text → ℕ) (now : ℕ) (a b : Option Text) (t : AuthTables)
        → kept t ≡ true
        → kept (logout digest now a b t) ≡ true
    unfolding logout
    logout-kept digest now a b t k =
        ground (arith, revoke_presented-kept now (digest_of digest a) (digest_of digest b) t)

    pub revoke_session-kept :
        (now owner id : ℕ) (t : AuthTables)
        → kept t ≡ true
        → kept (revoke_session now owner id t).1 ≡ true
    unfolding revoke_session
    revoke_session-kept now owner id t k =
        update-revoke-kept (λ s. belongs_to owner s && is_session id s) now t k

    revoke_others-kept :
        (now owner : ℕ) (c : Option Session) (t : AuthTables)
        → kept t ≡ true
        → kept (revoke_others now owner c t).1 ≡ true
    revoke_others-kept now owner none t k = k
    revoke_others-kept now owner (some c) t k = update-revoke-kept (is_other owner c.id) now t k

    pub revoke_other_sessions-kept :
        (digest : Text → ℕ) (now owner : ℕ) (token : Text) (t : AuthTables)
        → kept t ≡ true
        → kept (revoke_other_sessions digest now owner token t).1 ≡ true
    unfolding revoke_other_sessions
    revoke_other_sessions-kept digest now owner token t k =
        let c = find (is_current_session now owner (digest token)) t.sessions in
        ground (arith, revoke_others-kept now owner c t)
