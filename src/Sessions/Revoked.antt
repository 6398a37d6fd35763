-- ===== src/Sessions/Revoked.antt =====
-- packages/core/src/auth.ts: what the replay of a refresh token, the revocation of a session and sign-out end.
use careerscope.Sessions.KeptCalls.{after_calls-kept}
use careerscope.Sessions.Kept.{all_draw}
use careerscope.Sessions.Trace.{after_calls, AuthCall}
use careerscope.Sessions.Ended.{
  is_over, barred_laws, any_token, is_over-is_ended, all_tokens, is_ended, other_new_access,
  any_rotation, other_session, other_access, is_barred,
}
use careerscope.Sessions.Issue.{digest_of, accepts, is_presented, info, revoke_presented, session}
use careerscope.Sessions.Revocation.{belongs_to, revoke_session, logout}
use careerscope.Sessions.State.{
  revoke, is_refresh, is_session, AuthTables, Session, RefreshToken, Platform,
}
use careerscope.Search.State.{Text}
use careerscope.Base.Table.{update, find, count}
use careerscope.Base.{
  ==_iff, subst, none, some, true, false, [], ◌∷◌, ℕ, Bool, List, Option, all, ◌==◌, ◌&&◌, arith,
  ◌≡◌, refl, inl, inr, Bool-cases, ◌≤◌,
}
use careerscope.Sessions.Rotation.{
  rotation, rotate, refresh_of, refresh_joined, refresh_found, refresh, Refreshed, NewTokens,
  reused,
}

update-revoke-is_over :
    (now id : ℕ) (ss : List Session)
    → all (is_over id) (update (is_session id) (revoke now) ss) ≡ true
unfolding update
update-revoke-is_over now id [] = refl
update-revoke-is_over now id (s ∷ ss) = ground (arith, update-revoke-is_over now id ss)

abbrev pub is_reused : ℕ → Refreshed → Bool
is_reused id (reused x) = x == id
is_reused id _ = false

rotation-reused :
    (digest : Text → ℕ) (n : NewTokens) (s : Session) (t : AuthTables) (id : ℕ)
    (o : Option AuthTables)
    → is_reused id (rotation digest n s t o).0 ≡ false
rotation-reused digest n s t id none = refl
rotation-reused digest n s t id (some u) = refl

reused-is_over_found :
    (digest : Text → ℕ) (now id : ℕ) (n : NewTokens) (r : RefreshToken) (s : Session)
    (t : AuthTables)
    → is_reused id (refresh_found digest now n r s t).0 ≡ true
    → all (is_over id) (refresh_found digest now n r s t).1.sessions ≡ true
unfolding refresh_found
reused-is_over_found digest now id n r s t e =
    let a = rotation-reused digest n s t id (rotate digest now n r s t) in
    let b = update-revoke-is_over now s.id t.sessions in
    elim (Bool-cases (s.id == id)) [
      | inl same ↦
          let c =
            subst (λ x. all (is_over x) (update (is_session s.id) (revoke now) t.sessions) ≡ true)
              ((==_iff s.id id).0 same) b in
          ground arith
      | inr other ↦ ground arith
    ]

reused-is_over_of :
    (digest : Text → ℕ) (now id : ℕ) (n : NewTokens) (r : RefreshToken) (o : Option Session)
    (t : AuthTables)
    → is_reused id (refresh_of digest now n r o t).0 ≡ true
    → all (is_over id) (refresh_of digest now n r o t).1.sessions ≡ true
reused-is_over_of digest now id n r none t e = ground arith
reused-is_over_of digest now id n r (some s) t e = reused-is_over_found digest now id n r s t e

reused-is_over_joined :
    (digest : Text → ℕ) (now id : ℕ) (n : NewTokens) (o : Option RefreshToken) (t : AuthTables)
    → is_reused id (refresh_joined digest now n o t).0 ≡ true
    → all (is_over id) (refresh_joined digest now n o t).1.sessions ≡ true
reused-is_over_joined digest now id n none t e = ground arith
reused-is_over_joined digest now id n (some r) t e =
    reused-is_over_of digest now id n r (find (is_session r.session_id) t.sessions) t e

reused-is_over :
    (digest : Text → ℕ) (now id : ℕ) (n : NewTokens) (token : Option Text) (t : AuthTables)
    → is_reused id (refresh digest now n token t).0 ≡ true
    → all (is_over id) (refresh digest now n token t).1.sessions ≡ true
unfolding refresh
reused-is_over digest now id n none t e = ground arith
reused-is_over digest now id n (some token) t e =
    let o = find (is_refresh (digest token)) t.refresh_tokens in
    let j = reused-is_over_joined digest now id n o t in ground arith

-- When `refresh` answers that a consumed token was presented, the session is over: from then on no access
-- token is accepted for it and no refresh token exchanged, after any calls that draw no session of the
-- same identifier.
pub refresh-reused-is_ended :
    (p : Platform) (now id : ℕ) (m : NewTokens) (stolen : Option Text) (t : AuthTables)
    (calls : List (ℕ × AuthCall)) (later : ℕ) (n : NewTokens) (token : Option Text)
    → is_reused id (refresh p.digest now m stolen t).0 ≡ true
    → all_draw (other_session id) any_rotation calls ≡ true
    → is_ended p id later n token (after_calls p calls (refresh p.digest now m stolen t).1) ≡ true
refresh-reused-is_ended p now id m stolen t calls later n token e fresh =
    is_over-is_ended p id (refresh p.digest now m stolen t).1 calls later n token
      (reused-is_over p.digest now id m stolen t e) fresh

count-none-is_over :
    (q : Session → Bool) (now id : ℕ) (ss : List Session)
    → count (is_session id) ss ≡ 0
    → all (is_over id) (update q (revoke now) ss) ≡ true
unfolding count update
count-none-is_over q now id [] e = refl
count-none-is_over q now id (s ∷ ss) e = ground (arith, count-none-is_over q now id ss)

count-owned_le :
    (owner id : ℕ) (ss : List Session)
    → count (λ s. belongs_to owner s && is_session id s) ss ≤ count (is_session id) ss
unfolding count
count-owned_le owner id [] = omega arith
count-owned_le owner id (s ∷ ss) = ground (arith, count-owned_le owner id ss)

revoke_session-is_over :
    (now owner id : ℕ) (ss : List Session)
    → count (λ s. belongs_to owner s && is_session id s) ss ≡ 1
    → count (is_session id) ss ≤ 1
    → all (is_over id) (update (λ s. belongs_to owner s && is_session id s) (revoke now) ss) ≡ true
unfolding count update
revoke_session-is_over now owner id [] e u = refl
revoke_session-is_over now owner id (s ∷ ss) e u =
    let a = revoke_session-is_over now owner id ss in
    let b = count-none-is_over (λ x. belongs_to owner x && is_session id x) now id ss in
    let c = count-owned_le owner id ss in ground arith

-- When `revokeSession` answers true, and the identifier is unique as the table requires, the session is over.
pub revoke_session-is_ended :
    (p : Platform) (now owner id : ℕ) (t : AuthTables) (calls : List (ℕ × AuthCall)) (later : ℕ)
    (n : NewTokens) (token : Option Text)
    → (revoke_session now owner id t).0 ≡ true
    → count (is_session id) t.sessions ≤ 1
    → all_draw (other_session id) any_rotation calls ≡ true
    → is_ended p id later n token (after_calls p calls (revoke_session now owner id t).1) ≡ true
unfolding revoke_session
revoke_session-is_ended p now owner id t calls later n token e u fresh =
    is_over-is_ended p id (revoke_session now owner id t).1 calls later n token
      (revoke_session-is_over now owner id t.sessions
        ((==_iff (count (λ s. belongs_to owner s && is_session id s) t.sessions) 1).0 e) u)
      fresh

presented-is_barred :
    (now h : ℕ) (b : Option ℕ) (rs : List RefreshToken) (ss : List Session)
    → all (is_barred h) (update (is_presented (some h) b rs) (revoke now) ss) ≡ true
unfolding update
presented-is_barred now h b rs [] = refl
presented-is_barred now h b rs (s ∷ ss) = ground (arith, presented-is_barred now h b rs ss)

is_barred-found :
    (now h : ℕ) (digest : Text → ℕ) (token : Text) (ss : List Session)
    → all (is_barred h) ss ≡ true
    → info digest token (find (accepts digest now h) ss) ≡ none
unfolding find
is_barred-found now h digest token [] a = refl
is_barred-found now h digest token (s ∷ ss) a =
    ground (arith, is_barred-found now h digest token ss)

is_barred-session :
    (digest : Text → ℕ) (now : ℕ) (token : Text) (t : AuthTables)
    → all (is_barred (digest token)) t.sessions ≡ true
    → session digest now (some token) t ≡ none
unfolding session
is_barred-session digest now token t a =
    ground (arith, is_barred-found now (digest token) digest token t.sessions a)

pub barred_after :
    (p : Platform) (token : Text) (t : AuthTables) (calls : List (ℕ × AuthCall)) (later : ℕ)
    → all (is_barred (p.digest token)) t.sessions ≡ true
    → all_draw
        (other_access p.digest (p.digest token))
        (other_new_access p.digest (p.digest token))
        calls
      ≡ true
    → session p.digest later (some token) (after_calls p calls t) ≡ none
barred_after p token t calls later a fresh =
    let h = p.digest token in
    let b = all_tokens t.refresh_tokens in
    let k =
      after_calls-kept p (is_barred h) any_token (other_access p.digest h)
        (other_new_access p.digest h) (barred_laws p h) calls t fresh (ground arith) in
    is_barred-session p.digest later token (after_calls p calls t) (ground arith)

-- After a sign-out with an access token that token is never accepted again, by any later calls at any
-- times that draw no access token of the same digest.
pub logout-session :
    (p : Platform) (now : ℕ) (token : Text) (refresh_token : Option Text) (t : AuthTables)
    (calls : List (ℕ × AuthCall)) (later : ℕ)
    → all_draw
        (other_access p.digest (p.digest token))
        (other_new_access p.digest (p.digest token))
        calls
      ≡ true
    → session p.digest later
        (some token)
        (after_calls p calls (logout p.digest now (some token) refresh_token t))
      ≡ none
unfolding logout revoke_presented session
logout-session p now [] refresh_token t calls later fresh = refl
logout-session p now (c ∷ cs) refresh_token t calls later fresh =
    let h = p.digest (c ∷ cs) in
    let b = digest_of p.digest refresh_token in
    barred_after p (c ∷ cs) (logout p.digest now (some (c ∷ cs)) refresh_token t) calls later
      (presented-is_barred now h b t.refresh_tokens t.sessions) fresh
