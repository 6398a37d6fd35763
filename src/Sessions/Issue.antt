-- ===== src/Sessions/Issue.antt =====
-- packages/core/src/auth.ts: `createSession`, the one way to a session, and `session`, which accepts an
-- access token.
use careerscope.Search.State.{Text}
use careerscope.Base.Table.{update, find}
use careerscope.Base.{
  none, some, [], ◌∷◌, ◌+◌, ◌++◌, ℕ, Bool, List, Option, any, ◌&&◌, ◌||◌, if◌then◌else◌, ◌>>=◌,
}
use careerscope.Sessions.State.{
  is_of, is_live, insert_refresh, access_session_lifetime, revoke, refresh_session_lifetime,
  is_token, insert_session, has_token, equals, SessionCredentials, Session, RefreshToken,
  PreviousSession, AuthTables,
}

-- What a sign-in draws.
pub record Drawn : Type 0 where
  pub session_id : ℕ
  pub access_token : Text
  pub refresh_token : Text

-- A missing or empty token has no digest.
abbrev pub digest_of : (Text → ℕ) → Option Text → Option ℕ
digest_of digest none = none
digest_of digest (some []) = none
digest_of digest (some (c ∷ cs)) = some (digest (c ∷ cs))

-- The session that either of two digests belongs to.
abbrev pub is_presented : Option ℕ → Option ℕ → List RefreshToken → Session → Bool
is_presented access refresh tokens s =
    equals access s.token_hash || any (λ r. equals refresh r.token_hash && is_of s.id r) tokens

unfoldable pub revoke_presented : ℕ → Option ℕ → Option ℕ → AuthTables → AuthTables
revoke_presented now access refresh t = record t {
  sessions = update (is_presented access refresh t.refresh_tokens) (revoke now) t.sessions;
}

abbrev pub previous_access : Option PreviousSession → Option Text
previous_access none = none
previous_access (some p) = p.access_token

abbrev pub previous_refresh : Option PreviousSession → Option Text
previous_refresh none = none
previous_refresh (some p) = p.refresh_token

abbrev pub new_session : ℕ → (Text → ℕ) → Drawn → ℕ → Option Text → Session
new_session now digest d owner device = record {
  id = d.session_id;
  token_hash = digest d.access_token;
  owner_id = owner;
  expires_at = now + refresh_session_lifetime;
  access_expires_at = now + access_session_lifetime;
  created_at = some now;
  last_used_at = some now;
  device_label = device;
  revoked_at = none;
}

abbrev pub new_refresh : ℕ → ℕ → ℕ → RefreshToken
new_refresh h id expiry = record {
  token_hash = h;
  session_id = id;
  expires_at = expiry;
  consumed_at = none;
}

abbrev pub credentials : Drawn → SessionCredentials
credentials d = record {
  access_token = d.access_token;
  refresh_token = d.refresh_token;
  session_id = d.session_id;
}

pub record SessionInfo : Type 0 where
  pub session_id : ℕ
  pub owner_id : ℕ
  pub csrf : ℕ

-- The characters of `csrf:`.
abbrev csrf_prefix : Text
csrf_prefix = 99 ∷ 115 ∷ 114 ∷ 102 ∷ 58 ∷ []

module _ (digest : Text → ℕ) where
  unfoldable pub create_session :
      ℕ
      → Drawn
      → ℕ
      → Option PreviousSession
      → Option Text
      → AuthTables
      → Option (SessionCredentials × AuthTables)
  create_session now d owner previous device t = do
    let revoked =
        revoke_presented now (digest_of digest (previous_access previous))
          (digest_of digest (previous_refresh previous)) t
    opened ← insert_session (new_session now digest d owner device) revoked
    u ←
        insert_refresh
          (new_refresh (digest d.refresh_token) d.session_id (now + refresh_session_lifetime))
          opened
    some (credentials d, u)

  abbrev pub csrf_for_access_token : Text → ℕ
  csrf_for_access_token token = digest (csrf_prefix ++ token)

  abbrev pub info : Text → Option Session → Option SessionInfo
  info token none = none
  info token (some s) =
      some (record { session_id = s.id; owner_id = s.owner_id; csrf = csrf_for_access_token token })

  abbrev pub accepts : ℕ → ℕ → Session → Bool
  accepts now h s = has_token h s && is_live now s

  -- The session of an access token.
  unfoldable pub session : ℕ → Option Text → AuthTables → Option SessionInfo
  session now none t = none
  session now (some token) t =
      if is_token token then info token (find (accepts now (digest token)) t.sessions) else none
