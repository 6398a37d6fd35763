-- ===== src/Sessions/Rotation.antt =====
-- packages/core/src/auth.ts: `refresh`, which exchanges a refresh token for the next one.
use careerscope.Sessions.Issue.{new_refresh}
use careerscope.Search.State.{Text}
use careerscope.Base.Table.{update, find}
use careerscope.Base.{
  none, some, ◌+◌, ℕ, Option, any, ltb, not, is_some, ◌&&◌, ◌||◌, if◌then◌else◌, ◌>>=◌,
}
use careerscope.Sessions.State.{
  revoke, insert_refresh, is_token, is_session, is_refresh, has_token, access_session_lifetime,
  SessionCredentials, Session, RefreshToken, AuthTables,
}

pub data Refreshed : Type 0 where
  rotated : ℕ → SessionCredentials → Refreshed
  reused : ℕ → Refreshed
  invalid : Refreshed
  unrotated : Refreshed

-- The two tokens of `randomBytes`.
pub record NewTokens : Type 0 where
  pub access_token : Text
  pub refresh_token : Text

abbrev pub consume_token : ℕ → RefreshToken → RefreshToken
consume_token now r = record r { consumed_at = some now }

abbrev pub rotate_session : ℕ → ℕ → Session → Session
rotate_session now h s = record s {
  token_hash = h;
  access_expires_at = now + access_session_lifetime;
  last_used_at = some now;
}

-- The primary key of `sessions` when a row's `token_hash` is changed.
unfoldable pub replace_token : ℕ → ℕ → ℕ → AuthTables → Option AuthTables
replace_token now id h t =
    if any (λ s. has_token h s && not (is_session id s)) t.sessions
    then none
    else some (record t { sessions = update (is_session id) (rotate_session now h) t.sessions })

module _ (digest : Text → ℕ) where
  -- A token that was not consumed, of an open session.
  unfoldable pub rotate : ℕ → NewTokens → RefreshToken → Session → AuthTables → Option AuthTables
  rotate now n r s t = do
    let consumed = record t {
      refresh_tokens = update (is_refresh r.token_hash) (consume_token now) t.refresh_tokens;
    }
    replaced ← replace_token now s.id (digest n.access_token) consumed
    insert_refresh (new_refresh (digest n.refresh_token) s.id s.expires_at) replaced

  abbrev pub rotated_credentials : NewTokens → Session → SessionCredentials
  rotated_credentials n s = record {
    access_token = n.access_token;
    refresh_token = n.refresh_token;
    session_id = s.id;
  }

  abbrev pub rotation :
      NewTokens → Session → AuthTables → Option AuthTables → Refreshed × AuthTables
  rotation n s t none = (unrotated, t)
  rotation n s t (some u) = (rotated s.owner_id (rotated_credentials n s), u)

  -- The two rows of the join, locked.
  unfoldable pub refresh_found :
      ℕ → NewTokens → RefreshToken → Session → AuthTables → Refreshed × AuthTables
  refresh_found now n r s t =
      if is_some r.consumed_at
      then (reused s.id, record t { sessions = update (is_session s.id) (revoke now) t.sessions })
      else if is_some s.revoked_at || not (ltb now r.expires_at && ltb now s.expires_at)
      then (invalid, t)
      else rotation n s t (rotate now n r s t)

  abbrev pub refresh_of :
      ℕ → NewTokens → RefreshToken → Option Session → AuthTables → Refreshed × AuthTables
  refresh_of now n r none t = (invalid, t)
  refresh_of now n r (some s) t = refresh_found now n r s t

  abbrev pub refresh_joined :
      ℕ → NewTokens → Option RefreshToken → AuthTables → Refreshed × AuthTables
  refresh_joined now n none t = (invalid, t)
  refresh_joined now n (some r) t = refresh_of now n r (find (is_session r.session_id) t.sessions) t

  unfoldable pub refresh : ℕ → NewTokens → Option Text → AuthTables → Refreshed × AuthTables
  refresh now n none t = (invalid, t)
  refresh now n (some token) t =
      if is_token token
      then refresh_joined now n (find (is_refresh (digest token)) t.refresh_tokens) t
      else (invalid, t)
