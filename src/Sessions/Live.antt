-- ===== src/Sessions/Live.antt =====
-- packages/core/src/auth.ts: what a sign-in and a rotation let the holder of their tokens do.
use careerscope.Sessions.Rotation.{
  rotated_credentials, rotation, rotated, replace_token, consume_token, rotate_session, rotate,
  refresh_found, refresh, NewTokens,
}
use careerscope.Sessions.Issue.{
  new_refresh, new_session, csrf_for_access_token, session, is_presented, previous_refresh,
  credentials, revoke_presented, previous_access, digest_of, accepts, create_session, Drawn,
}
use careerscope.Search.State.{Text}
use careerscope.Base.Table.{update, find}
use careerscope.Base.{
  sym, subst, none, some, true, false, [], ◌∷◌, ◌+◌, ◌++◌, ℕ, Bool, List, Option, any, ltb, not,
  is_some, ◌&&◌, ◌||◌, if◌then◌else◌, arith, ◌≡◌, refl, ==_refl, ◌<◌,
}
use careerscope.Sessions.State.{
  SessionCredentials, is_active, RefreshToken, refresh_session_lifetime, access_session_lifetime,
  is_token, is_live, revoke, is_refresh, is_account, insert_refresh, is_session, insert_session,
  has_token, PreviousSession, AuthTables, Session,
}

-- The identifier and the digests that are drawn are not in use.
abbrev pub is_unused : (Text → ℕ) → Drawn → AuthTables → Bool
is_unused digest d t =
    not (any (λ s. has_token (digest d.access_token) s || is_session d.session_id s) t.sessions)
    && not (any (is_refresh (digest d.refresh_token)) t.refresh_tokens)

any-update-revoke :
    (now h id : ℕ) (q : Session → Bool) (ss : List Session)
    → any (λ s. has_token h s || is_session id s) (update q (revoke now) ss)
      ≡ any (λ s. has_token h s || is_session id s) ss
unfolding update
any-update-revoke now h id q [] = refl
any-update-revoke now h id q (s ∷ ss) = ground (arith, any-update-revoke now h id q ss)

any-last : (s : Session) (ss : List Session) → any (is_session s.id) (ss ++ (s ∷ [])) ≡ true
any-last s [] = ground (arith, ==_refl s.id)
any-last s (x ∷ xs) = ground (arith, any-last s xs)

-- The tables after a sign-in for an account with tokens that are not in use.
unfoldable pub opened_tables :
    ℕ → (Text → ℕ) → Drawn → ℕ → Option PreviousSession → Option Text → AuthTables → AuthTables
opened_tables now digest d owner previous device t =
    let a = digest_of digest (previous_access previous) in
    let b = digest_of digest (previous_refresh previous) in
    record t {
      sessions =
          update (is_presented a b t.refresh_tokens) (revoke now) t.sessions
          ++ (new_session now digest d owner device ∷ []);
      refresh_tokens =
          t.refresh_tokens
          ++ (new_refresh (digest d.refresh_token) d.session_id (now + refresh_session_lifetime)
              ∷ []);
    }

pub create_session_unused :
    (digest : Text → ℕ) (now : ℕ) (d : Drawn) (owner : ℕ) (previous : Option PreviousSession)
    (device : Option Text) (t : AuthTables)
    → is_unused digest d t ≡ true
    → any (is_account owner) t.users ≡ true
    → create_session digest now d owner previous device t
      ≡ some (credentials d, opened_tables now digest d owner previous device t)
unfolding create_session insert_session insert_refresh revoke_presented opened_tables
create_session_unused digest now d owner previous device t u o =
    let a = digest_of digest (previous_access previous) in
    let b = digest_of digest (previous_refresh previous) in
    let q = is_presented a b t.refresh_tokens in
    let same = any-update-revoke now (digest d.access_token) d.session_id q t.sessions in
    let s = new_session now digest d owner device in
    let last = any-last s (update q (revoke now) t.sessions) in ground arith

accepts-new :
    (digest : Text → ℕ) (now later : ℕ) (q : Session → Bool) (s : Session) (ss : List Session)
    → any (λ x. has_token s.token_hash x || is_session s.id x) ss ≡ false
    → find (accepts digest later s.token_hash) (update q (revoke now) ss ++ (s ∷ []))
      ≡ (if is_live later s then some s else none)
unfolding find update
accepts-new digest now later q s [] u = ground (arith, ==_refl s.token_hash)
accepts-new digest now later q s (x ∷ xs) u = ground (arith, accepts-new digest now later q s xs)

opened_tables-session :
    (digest : Text → ℕ) (now : ℕ) (d : Drawn) (owner : ℕ) (previous : Option PreviousSession)
    (device : Option Text) (t : AuthTables) (later : ℕ)
    → is_unused digest d t ≡ true
    → is_token d.access_token ≡ true
    → later < now + access_session_lifetime
    → session digest later
        (some d.access_token)
        (opened_tables now digest d owner previous device t)
      ≡ some (record {
        session_id = d.session_id;
        owner_id = owner;
        csrf = csrf_for_access_token digest d.access_token;
      })
unfolding session opened_tables
opened_tables-session digest now d owner previous device t later u k e =
    let a = digest_of digest (previous_access previous) in
    let b = digest_of digest (previous_refresh previous) in
    let s = new_session now digest d owner device in
    let f =
      accepts-new digest now later (is_presented a b t.refresh_tokens) s t.sessions
        (ground arith) in
    rw (k, f) (ground arith)

-- A sign-in for an account succeeds when what it draws is not in use, and its access token, if it has the
-- form of one, is then accepted for the session and the account until fifteen minutes have passed.
pub create_session-session :
    (digest : Text → ℕ) (now : ℕ) (d : Drawn) (owner : ℕ) (previous : Option PreviousSession)
    (device : Option Text) (t : AuthTables) (later : ℕ)
    → is_unused digest d t ≡ true
    → any (is_account owner) t.users ≡ true
    → is_token d.access_token ≡ true
    → later < now + access_session_lifetime
    → (u : AuthTables) × (create_session digest now d owner previous device t
        ≡ some (credentials d, u))
      × (session digest later (some d.access_token) u
          ≡ some (record {
            session_id = d.session_id;
            owner_id = owner;
            csrf = csrf_for_access_token digest d.access_token;
          }))
create_session-session digest now d owner previous device t later u o k e = (
  opened_tables now digest d owner previous device t,
  create_session_unused digest now d owner previous device t u o,
  opened_tables-session digest now d owner previous device t later u k e,
)

find-refresh_new :
    (r : RefreshToken) (rs : List RefreshToken)
    → any (is_refresh r.token_hash) rs ≡ false
    → find (is_refresh r.token_hash) (rs ++ (r ∷ [])) ≡ some r
unfolding find
find-refresh_new r [] u = ground (arith, ==_refl r.token_hash)
find-refresh_new r (x ∷ xs) u = ground (arith, find-refresh_new r xs)

find-session_new :
    (now h : ℕ) (q : Session → Bool) (s : Session) (ss : List Session)
    → any (λ x. has_token h x || is_session s.id x) ss ≡ false
    → find (is_session s.id) (update q (revoke now) ss ++ (s ∷ [])) ≡ some s
unfolding find update
find-session_new now h q s [] u = ground (arith, ==_refl s.id)
find-session_new now h q s (x ∷ xs) u = ground (arith, find-session_new now h q s xs)

-- The tokens of a rotation are not in use.
abbrev pub is_unused_rotation : (Text → ℕ) → NewTokens → AuthTables → Bool
is_unused_rotation digest n t =
    not (any (has_token (digest n.access_token)) t.sessions)
    && not (any (is_refresh (digest n.refresh_token)) t.refresh_tokens)

any-update-rotate :
    (now h id : ℕ) (ss : List Session)
    → any (is_session id) (update (is_session id) (rotate_session now h) ss)
      ≡ any (is_session id) ss
unfolding update
any-update-rotate now h id [] = refl
any-update-rotate now h id (s ∷ ss) = ground (arith, any-update-rotate now h id ss)

any-update-consume :
    (now h k : ℕ) (rs : List RefreshToken)
    → any (is_refresh h) (update (is_refresh k) (consume_token now) rs) ≡ any (is_refresh h) rs
unfolding update
any-update-consume now h k [] = refl
any-update-consume now h k (r ∷ rs) = ground (arith, any-update-consume now h k rs)

any-token_only :
    (h id : ℕ) (ss : List Session)
    → any (has_token h) ss ≡ false
    → any (λ s. has_token h s && not (is_session id s)) ss ≡ false
any-token_only h id [] u = refl
any-token_only h id (s ∷ ss) u = ground (arith, any-token_only h id ss)

any-found :
    (id : ℕ) (ss : List Session) (s : Session)
    → find (is_session id) ss ≡ some s
    → any (is_session s.id) ss ≡ true
unfolding find
any-found id [] s f = ground arith
any-found id (x ∷ xs) s f = ground (arith, any-found id xs s, ==_refl x.id)

rotate_unused :
    (digest : Text → ℕ) (now : ℕ) (n : NewTokens) (r : RefreshToken) (s : Session) (t : AuthTables)
    → is_unused_rotation digest n t ≡ true
    → any (is_session s.id) t.sessions ≡ true
    → is_some (rotate digest now n r s t) ≡ true
unfolding rotate replace_token insert_refresh
rotate_unused digest now n r s t u f =
    let a = any-token_only (digest n.access_token) s.id t.sessions in
    let b = any-update-rotate now (digest n.access_token) s.id t.sessions in
    let c = any-update-consume now (digest n.refresh_token) r.token_hash t.refresh_tokens in
    ground arith

rotation_unused :
    (digest : Text → ℕ) (n : NewTokens) (s : Session) (t : AuthTables) (o : Option AuthTables)
    → is_some o ≡ true
    → (rotation digest n s t o).0 ≡ rotated s.owner_id (rotated_credentials digest n s)
rotation_unused digest n s t none e = ground arith
rotation_unused digest n s t (some u) e = refl

refresh_found_unused :
    (digest : Text → ℕ) (now : ℕ) (n : NewTokens) (r : RefreshToken) (s : Session) (t : AuthTables)
    → is_unused_rotation digest n t ≡ true
    → any (is_session s.id) t.sessions ≡ true
    → not (is_some r.consumed_at) && ltb now r.expires_at && is_active now s ≡ true
    → (refresh_found digest now n r s t).0 ≡ rotated s.owner_id (rotated_credentials digest n s)
unfolding refresh_found
refresh_found_unused digest now n r s t u f e =
    let a =
      rotation_unused digest n s t (rotate digest now n r s t)
        (rotate_unused digest now n r s t u f) in
    ground arith

opened_tables-refresh :
    (digest : Text → ℕ) (now : ℕ) (d : Drawn) (owner : ℕ) (previous : Option PreviousSession)
    (device : Option Text) (t : AuthTables) (later : ℕ) (n : NewTokens)
    → is_unused digest d t ≡ true
    → is_token d.refresh_token ≡ true
    → later < now + refresh_session_lifetime
    → is_unused_rotation digest n (opened_tables now digest d owner previous device t) ≡ true
    → (refresh digest later n
        (some d.refresh_token)
        (opened_tables now digest d owner previous device t)).0
      ≡ rotated owner (record {
        access_token = n.access_token;
        refresh_token = n.refresh_token;
        session_id = d.session_id;
      })
unfolding refresh opened_tables
opened_tables-refresh digest now d owner previous device t later n u k e v =
    let a = digest_of digest (previous_access previous) in
    let b = digest_of digest (previous_refresh previous) in
    let q = is_presented a b t.refresh_tokens in
    let s = new_session now digest d owner device in
    let r = new_refresh (digest d.refresh_token) d.session_id (now + refresh_session_lifetime) in
    let w = opened_tables now digest d owner previous device t in
    let fr = find-refresh_new r t.refresh_tokens (ground arith) in
    let fs = find-session_new now (digest d.access_token) q s t.sessions (ground arith) in
    rw (k, fr, fs)
      (refresh_found_unused digest later n r s w v
        (any-found d.session_id (update q (revoke now) t.sessions ++ (s ∷ [])) s fs) (ground arith))

same_tables :
    (c : SessionCredentials) (u v : AuthTables) (o : Option (SessionCredentials × AuthTables))
    → o ≡ some (c, u)
    → o ≡ some (c, v)
    → u ≡ v
same_tables c u v o e f = cc

-- In the tables that a sign-in leaves, whose draws were not in use, its refresh token is exchanged for the
-- next tokens of the same session and account until thirty days have passed, if it has the form of a token
-- and what the exchange draws is not in use.
pub create_session-refresh :
    (digest : Text → ℕ) (now : ℕ) (d : Drawn) (owner : ℕ) (previous : Option PreviousSession)
    (device : Option Text) (t : AuthTables) (later : ℕ) (n : NewTokens) (u : AuthTables)
    → create_session digest now d owner previous device t ≡ some (credentials d, u)
    → is_unused digest d t ≡ true
    → any (is_account owner) t.users ≡ true
    → is_token d.refresh_token ≡ true
    → later < now + refresh_session_lifetime
    → is_unused_rotation digest n u ≡ true
    → (refresh digest later n (some d.refresh_token) u).0
      ≡ rotated owner (record {
        access_token = n.access_token;
        refresh_token = n.refresh_token;
        session_id = d.session_id;
      })
create_session-refresh digest now d owner previous device t later n u s x o k e v =
    let same : opened_tables now digest d owner previous device t ≡ u =
      same_tables (credentials d) (opened_tables now digest d owner previous device t) u
        (create_session digest now d owner previous device t)
        (create_session_unused digest now d owner previous device t x o) s in
    subst
      (λ w.
        (refresh digest later n (some d.refresh_token) w).0
        ≡ rotated owner (record {
          access_token = n.access_token;
          refresh_token = n.refresh_token;
          session_id = d.session_id;
        }))
      same
      (opened_tables-refresh digest now d owner previous device t later n x k e
        (subst (λ w. is_unused_rotation digest n w ≡ true) (sym same) v))
