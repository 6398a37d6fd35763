-- ===== src/Sessions/Ended.antt =====
-- packages/core/src/auth.ts: sessions that were revoked, and access tokens that were signed out.
use careerscope.Sessions.KeptCalls.{after_calls-kept}
use careerscope.Sessions.Trace.{after_calls, AuthCall}
use careerscope.Sessions.Kept.{all_draw, RowLaws}
use careerscope.Sessions.State.{
  is_refresh, is_session, has_token, AuthTables, Session, RefreshToken, Platform,
}
use careerscope.Sessions.Issue.{accepts, info, session, SessionInfo, Drawn}
use careerscope.Search.State.{Text}
use careerscope.Base.Table.{find}
use careerscope.Base.{
  holds, none, some, true, false, [], ◌∷◌, ℕ, Bool, List, Option, all, not, is_some, ◌==◌, ◌&&◌,
  ◌||◌, arith, ◌≡◌, refl,
}
use careerscope.Sessions.Rotation.{
  rotation, rotate, refresh_of, refresh_joined, rotated, refresh_found, refresh, Refreshed,
  NewTokens,
}

abbrev pub is_over : ℕ → Session → Bool
is_over id s = not (is_session id s) || is_some s.revoked_at

abbrev pub is_barred : ℕ → Session → Bool
is_barred h s = not (has_token h s) || is_some s.revoked_at

abbrev pub any_token : RefreshToken → Bool
any_token r = true

pub all_tokens : (rs : List RefreshToken) → all any_token rs ≡ true
all_tokens [] = refl
all_tokens (r ∷ rs) = all_tokens rs

abbrev pub other_session : ℕ → Drawn → Bool
other_session id d = not (d.session_id == id)

abbrev pub any_rotation : NewTokens → Bool
any_rotation n = true

abbrev pub other_access : (Text → ℕ) → ℕ → Drawn → Bool
other_access digest h d = not (digest d.access_token == h)

abbrev pub other_new_access : (Text → ℕ) → ℕ → NewTokens → Bool
other_new_access digest h n = not (digest n.access_token == h)

pub over_laws :
    (p : Platform) (id : ℕ) → RowLaws p (is_over id) any_token (other_session id) any_rotation
over_laws p id = record {
  revoked = λ now s e. ground arith;
  replaced = λ now n s f e. e;
  consumed = λ now r e. refl;
  opened = λ now d owner device e. ground arith;
  issued = λ d x expiry e. refl;
  issued_new = λ n x expiry e. refl;
}

pub barred_laws :
    (p : Platform) (h : ℕ)
    → RowLaws p (is_barred h) any_token (other_access p.digest h) (other_new_access p.digest h)
barred_laws p h = record {
  revoked = λ now s e. ground arith;
  replaced = λ now n s f e. ground arith;
  consumed = λ now r e. refl;
  opened = λ now d owner device e. ground arith;
  issued = λ d x expiry e. refl;
  issued_new = λ n x expiry e. refl;
}

-- The answer is for this session.
abbrev pub names : ℕ → Option SessionInfo → Bool
names id none = false
names id (some i) = i.session_id == id

abbrev pub rotates : ℕ → Refreshed → Bool
rotates id (rotated owner c) = c.session_id == id
rotates id _ = false

is_over-found :
    (id now h : ℕ) (digest : Text → ℕ) (token : Text) (ss : List Session)
    → all (is_over id) ss ≡ true
    → names id (info digest token (find (accepts digest now h) ss)) ≡ false
unfolding find
is_over-found id now h digest token [] a = refl
is_over-found id now h digest token (s ∷ ss) a =
    ground (arith, is_over-found id now h digest token ss)

is_over-session :
    (digest : Text → ℕ) (now id : ℕ) (token : Option Text) (t : AuthTables)
    → all (is_over id) t.sessions ≡ true
    → names id (session digest now token t) ≡ false
unfolding session
is_over-session digest now id none t a = refl
is_over-session digest now id (some token) t a =
    ground (arith, is_over-found id now (digest token) digest token t.sessions a)

rotation-id :
    (digest : Text → ℕ) (n : NewTokens) (s : Session) (t : AuthTables) (id : ℕ)
    (o : Option AuthTables)
    → is_session id s ≡ false
    → rotates id (rotation digest n s t o).0 ≡ false
rotation-id digest n s t id none e = refl
rotation-id digest n s t id (some u) e = e

is_over-refresh_found :
    (digest : Text → ℕ) (now id : ℕ) (n : NewTokens) (r : RefreshToken) (s : Session)
    (t : AuthTables)
    → is_over id s ≡ true
    → rotates id (refresh_found digest now n r s t).0 ≡ false
unfolding refresh_found
is_over-refresh_found digest now id n r s t a =
    ground (arith, rotation-id digest n s t id (rotate digest now n r s t))

is_over-refresh_of :
    (digest : Text → ℕ) (now id : ℕ) (n : NewTokens) (r : RefreshToken) (o : Option Session)
    (t : AuthTables)
    → holds (λ s. not (is_over id s)) o ≡ false
    → rotates id (refresh_of digest now n r o t).0 ≡ false
is_over-refresh_of digest now id n r none t a = refl
is_over-refresh_of digest now id n r (some s) t a =
    is_over-refresh_found digest now id n r s t (ground arith)

is_over-any :
    (id : ℕ) (q : Session → Bool) (ss : List Session)
    → all (is_over id) ss ≡ true
    → holds (λ s. not (is_over id s)) (find q ss) ≡ false
unfolding find
is_over-any id q [] a = refl
is_over-any id q (s ∷ ss) a = ground (arith, is_over-any id q ss)

is_over-refresh_joined :
    (digest : Text → ℕ) (now id : ℕ) (n : NewTokens) (o : Option RefreshToken) (t : AuthTables)
    → all (is_over id) t.sessions ≡ true
    → rotates id (refresh_joined digest now n o t).0 ≡ false
is_over-refresh_joined digest now id n none t a = refl
is_over-refresh_joined digest now id n (some r) t a =
    is_over-refresh_of digest now id n r (find (is_session r.session_id) t.sessions) t
      (is_over-any id (is_session r.session_id) t.sessions a)

is_over-refresh :
    (digest : Text → ℕ) (now id : ℕ) (n : NewTokens) (token : Option Text) (t : AuthTables)
    → all (is_over id) t.sessions ≡ true
    → rotates id (refresh digest now n token t).0 ≡ false
unfolding refresh
is_over-refresh digest now id n none t a = refl
is_over-refresh digest now id n (some token) t a = ground (
  arith,
  is_over-refresh_joined digest now id n (find (is_refresh (digest token)) t.refresh_tokens) t a,
)

-- Neither an access token nor a refresh token serves a session whose rows are revoked.
unfoldable pub is_ended : Platform → ℕ → ℕ → NewTokens → Option Text → AuthTables → Bool
is_ended p id later n token t =
    not (names id (session p.digest later token t))
    && not (rotates id (refresh p.digest later n token t).0)

pub is_over-is_ended :
    (p : Platform) (id : ℕ) (t : AuthTables) (calls : List (ℕ × AuthCall)) (later : ℕ)
    (n : NewTokens) (token : Option Text)
    → all (is_over id) t.sessions ≡ true
    → all_draw (other_session id) any_rotation calls ≡ true
    → is_ended p id later n token (after_calls p calls t) ≡ true
unfolding is_ended
is_over-is_ended p id t calls later n token a fresh =
    let u = after_calls p calls t in
    let b = all_tokens t.refresh_tokens in
    let k =
      after_calls-kept p (is_over id) any_token (other_session id) any_rotation (over_laws p id)
        calls t fresh (ground arith) in
    let x = is_over-session p.digest later id token u (ground arith) in
    let y = is_over-refresh p.digest later id n token u (ground arith) in ground arith
