-- ===== src/Sessions/Single.antt =====
-- packages/core/src/auth.ts, `refresh`: how often a refresh token can be exchanged.
use careerscope.Sessions.KeptCalls.{after_calls-kept}
use careerscope.Sessions.Trace.{after_calls, AuthCall}
use careerscope.Sessions.Kept.{all_draw, kept_if, kept, RowLaws}
use careerscope.Sessions.Issue.{new_refresh, Drawn}
use careerscope.Search.State.{Text}
use careerscope.Base.Table.{find, update, all-append}
use careerscope.Base.{
  subst, ==_iff, holds, none, some, true, false, [], ◌∷◌, ℕ, Bool, List, Option, all, not, is_some,
  ◌==◌, ◌||◌, arith, ◌≡◌, refl,
}
use careerscope.Sessions.State.{
  is_session, insert_refresh, is_refresh, AuthTables, Session, RefreshToken, Platform,
}
use careerscope.Sessions.Rotation.{
  refresh_of, refresh_joined, refresh, rotate_session, rotation, consume_token, rotated,
  replace_token, rotate, refresh_found, Refreshed, NewTokens,
}

abbrev is_spent : ℕ → RefreshToken → Bool
is_spent h r = not (is_refresh h r) || is_some r.consumed_at

abbrev any_session : Session → Bool
any_session s = true

abbrev pub other_refresh : (Text → ℕ) → ℕ → Drawn → Bool
other_refresh digest h d = not (digest d.refresh_token == h)

abbrev pub other_rotation : (Text → ℕ) → ℕ → NewTokens → Bool
other_rotation digest h n = not (digest n.refresh_token == h)

spent_laws :
    (p : Platform) (h : ℕ)
    → RowLaws p any_session (is_spent h) (other_refresh p.digest h) (other_rotation p.digest h)
spent_laws p h = record {
  revoked = λ now s e. refl;
  replaced = λ now n s f e. refl;
  consumed = λ now r e. ground arith;
  opened = λ now d owner device e. refl;
  issued = λ d id expiry e. ground arith;
  issued_new = λ n id expiry e. ground arith;
}

all_any : (xs : List Session) → all any_session xs ≡ true
all_any [] = refl
all_any (x ∷ xs) = all_any xs

update-consume-is_spent :
    (now h : ℕ) (rs : List RefreshToken)
    → all (is_spent h) (update (is_refresh h) (consume_token now) rs) ≡ true
unfolding update
update-consume-is_spent now h [] = refl
update-consume-is_spent now h (r ∷ rs) = ground (arith, update-consume-is_spent now h rs)

rotate-is_spent :
    (digest : Text → ℕ) (now : ℕ) (n : NewTokens) (r : RefreshToken) (s : Session) (t : AuthTables)
    → other_rotation digest r.token_hash n ≡ true
    → kept_if any_session (is_spent r.token_hash) (rotate digest now n r s t) ≡ true
unfolding rotate replace_token insert_refresh
rotate-is_spent digest now n r s t other =
    let rows = update (is_refresh r.token_hash) (consume_token now) t.refresh_tokens in
    let a = update-consume-is_spent now r.token_hash t.refresh_tokens in
    let new = new_refresh (digest n.refresh_token) s.id s.expires_at in
    let b = all-append (is_spent r.token_hash) (is_spent r.token_hash) rows (new ∷ []) in
    let c =
      all_any (update (is_session s.id) (rotate_session now (digest n.access_token)) t.sessions) in
    ground arith

abbrev pub is_rotated : Refreshed → Bool
is_rotated (rotated owner c) = true
is_rotated _ = false

rotation-is_spent :
    (digest : Text → ℕ) (n : NewTokens) (s : Session) (t : AuthTables) (h : ℕ)
    (o : Option AuthTables)
    → kept_if any_session (is_spent h) o ≡ true
    → is_rotated (rotation digest n s t o).0 ≡ true
    → kept any_session (is_spent h) (rotation digest n s t o).1 ≡ true
rotation-is_spent digest n s t h none k e = ground arith
rotation-is_spent digest n s t h (some u) k e = k

refresh_found-is_spent :
    (digest : Text → ℕ) (now : ℕ) (n : NewTokens) (r : RefreshToken) (s : Session) (t : AuthTables)
    → other_rotation digest r.token_hash n ≡ true
    → is_rotated (refresh_found digest now n r s t).0 ≡ true
    → kept any_session (is_spent r.token_hash) (refresh_found digest now n r s t).1 ≡ true
unfolding refresh_found
refresh_found-is_spent digest now n r s t other e =
    let o = rotate digest now n r s t in
    let k =
      rotation-is_spent digest n s t r.token_hash o (rotate-is_spent digest now n r s t other) in
    ground arith

refresh_of-is_spent :
    (digest : Text → ℕ) (now : ℕ) (n : NewTokens) (r : RefreshToken) (o : Option Session)
    (t : AuthTables)
    → other_rotation digest r.token_hash n ≡ true
    → is_rotated (refresh_of digest now n r o t).0 ≡ true
    → kept any_session (is_spent r.token_hash) (refresh_of digest now n r o t).1 ≡ true
refresh_of-is_spent digest now n r none t other e = ground arith
refresh_of-is_spent digest now n r (some s) t other e =
    refresh_found-is_spent digest now n r s t other e

refresh_joined-is_spent :
    (digest : Text → ℕ) (now h : ℕ) (n : NewTokens) (o : Option RefreshToken) (t : AuthTables)
    → holds (λ r. not (is_refresh h r)) o ≡ false
    → other_rotation digest h n ≡ true
    → is_rotated (refresh_joined digest now n o t).0 ≡ true
    → kept any_session (is_spent h) (refresh_joined digest now n o t).1 ≡ true
refresh_joined-is_spent digest now h n none t g other e = ground arith
refresh_joined-is_spent digest now h n (some r) t g other e =
    let same : r.token_hash ≡ h = (==_iff r.token_hash h).0 (ground arith) in
    let o = find (is_session r.session_id) t.sessions in
    subst (λ x. kept any_session (is_spent x) (refresh_of digest now n r o t).1 ≡ true) same
      (refresh_of-is_spent digest now n r o t (rw same other) e)

refresh_found-unrotated :
    (digest : Text → ℕ) (now : ℕ) (n : NewTokens) (r : RefreshToken) (s : Session) (t : AuthTables)
    → is_some r.consumed_at ≡ true
    → is_rotated (refresh_found digest now n r s t).0 ≡ false
unfolding refresh_found
refresh_found-unrotated digest now n r s t c = ground arith

refresh_of-unrotated :
    (digest : Text → ℕ) (now : ℕ) (n : NewTokens) (r : RefreshToken) (o : Option Session)
    (t : AuthTables)
    → is_some r.consumed_at ≡ true
    → is_rotated (refresh_of digest now n r o t).0 ≡ false
refresh_of-unrotated digest now n r none t c = refl
refresh_of-unrotated digest now n r (some s) t c = refresh_found-unrotated digest now n r s t c

refresh_joined-unrotated :
    (digest : Text → ℕ) (now : ℕ) (n : NewTokens) (o : Option RefreshToken) (t : AuthTables)
    → holds (λ r. not (is_some r.consumed_at)) o ≡ false
    → is_rotated (refresh_joined digest now n o t).0 ≡ false
refresh_joined-unrotated digest now n none t c = refl
refresh_joined-unrotated digest now n (some r) t c =
    refresh_of-unrotated digest now n r (find (is_session r.session_id) t.sessions) t (ground arith)

is_spent-found :
    (h : ℕ) (rs : List RefreshToken)
    → all (is_spent h) rs ≡ true
    → holds (λ r. not (is_some r.consumed_at)) (find (is_refresh h) rs) ≡ false
unfolding find
is_spent-found h [] a = refl
is_spent-found h (r ∷ rs) a = ground (arith, is_spent-found h rs)

found-refresh :
    (h : ℕ) (rs : List RefreshToken)
    → holds (λ r. not (is_refresh h r)) (find (is_refresh h) rs) ≡ false
unfolding find
found-refresh h [] = refl
found-refresh h (r ∷ rs) = ground (arith, found-refresh h rs)

refresh-is_spent :
    (digest : Text → ℕ) (now : ℕ) (n : NewTokens) (token : Text) (t : AuthTables)
    → other_rotation digest (digest token) n ≡ true
    → is_rotated (refresh digest now n (some token) t).0 ≡ true
    → kept any_session (is_spent (digest token)) (refresh digest now n (some token) t).1 ≡ true
unfolding refresh
refresh-is_spent digest now n token t other e =
    let o = find (is_refresh (digest token)) t.refresh_tokens in
    let f = found-refresh (digest token) t.refresh_tokens in
    let k = refresh_joined-is_spent digest now (digest token) n o t f other in ground arith

-- Once a refresh token has been exchanged it is never exchanged again, by any later calls at any times,
-- as long as neither that exchange nor a later call draws a refresh token of the same digest.
pub refresh_once :
    (p : Platform) (now : ℕ) (n : NewTokens) (token : Text) (t : AuthTables)
    (calls : List (ℕ × AuthCall)) (later : ℕ) (m : NewTokens)
    → is_rotated (refresh p.digest now n (some token) t).0 ≡ true
    → other_rotation p.digest (p.digest token) n ≡ true
    → all_draw
        (other_refresh p.digest (p.digest token))
        (other_rotation p.digest (p.digest token))
        calls
      ≡ true
    → is_rotated
        (refresh p.digest later m
          (some token)
          (after_calls p calls (refresh p.digest now n (some token) t).1)).0
      ≡ false
unfolding refresh
refresh_once p now n token t calls later m first other fresh =
    let u = (refresh p.digest now n (some token) t).1 in
    let h = p.digest token in
    let v = after_calls p calls u in
    let k =
      after_calls-kept p any_session (is_spent h) (other_refresh p.digest h)
        (other_rotation p.digest h) (spent_laws p h) calls u fresh
        (refresh-is_spent p.digest now n token t other first) in
    let g = is_spent-found h v.refresh_tokens (ground arith) in
    let a = refresh_joined-unrotated p.digest later m (find (is_refresh h) v.refresh_tokens) v g in
    ground arith
