-- ===== src/Sessions/State.antt =====
-- packages/core/src/auth.ts and schema.ts: the tables of the accounts and their sessions, with the
-- keys that the database enforces. A digest is a number, a token the list of its characters.
use careerscope.Search.State.{Text}
use careerscope.Base.{
  same_text, none, some, true, false, [], ◌∷◌, ◌++◌, ℕ, Bool, List, Option, any, all, length, leb,
  ltb, not, get_or, is_some, ◌==◌, ◌&&◌, ◌||◌, if◌then◌else◌,
}

-- Equality of a nullable column, where NULL equals nothing.
abbrev pub equals : Option ℕ → ℕ → Bool
equals none b = false
equals (some a) b = a == b

abbrev pub equals_text : Option Text → Text → Bool
equals_text none b = false
equals_text (some a) b = same_text a b

-- `IS NOT DISTINCT FROM`.
abbrev pub not_distinct : Option Text → Option Text → Bool
not_distinct none none = true
not_distinct (some a) (some b) = same_text a b
not_distinct _ _ = false

-- The hash functions and string methods that the file calls.
pub record Platform : Type 0 where
  -- SHA-256.
  pub digest : Text → ℕ
  -- `trim().toLowerCase()`.
  pub normal : Text → Text
  -- The `email` schema.
  pub is_email : Text → Bool
  -- Argon2, with the salt that it draws.
  pub password_hash : ℕ → Text → ℕ
  pub verify : ℕ → Text → Bool

pub record AccountRow : Type 0 where
  pub id : ℕ
  pub email : Option Text
  pub password_hash : Option ℕ
  pub email_verified_at : Option ℕ
  pub age_screen_passed : Option Bool

pub data Document : Type 0 where
  terms privacy_notice marketing : Document

pub record AcceptanceRow : Type 0 where
  pub id : ℕ
  pub owner_id : ℕ
  pub document : Document
  pub version : Text
  pub accepted : Bool

pub record Session : Type 0 where
  pub id : ℕ
  pub token_hash : ℕ
  pub owner_id : ℕ
  pub expires_at : ℕ
  pub access_expires_at : ℕ
  pub created_at : Option ℕ
  pub last_used_at : Option ℕ
  pub device_label : Option Text
  pub revoked_at : Option ℕ

pub record RefreshToken : Type 0 where
  pub token_hash : ℕ
  pub session_id : ℕ
  pub expires_at : ℕ
  pub consumed_at : Option ℕ

pub record AuthTables : Type 0 where
  pub users : List AccountRow
  pub acceptances : List AcceptanceRow
  pub sessions : List Session
  pub refresh_tokens : List RefreshToken

pub record SessionCredentials : Type 0 where
  pub access_token : Text
  pub refresh_token : Text
  pub session_id : ℕ

pub record PreviousSession : Type 0 where
  pub access_token : Option Text
  pub refresh_token : Option Text

-- Seconds.
abbrev pub access_session_lifetime : ℕ
access_session_lifetime = 900

abbrev pub refresh_session_lifetime : ℕ
refresh_session_lifetime = 2592000

abbrev is_hex : ℕ → Bool
is_hex c = (leb 97 c && leb c 102) || (leb 48 c && leb c 57)

-- `/^[a-f0-9]{64}$/`
abbrev pub is_token : Text → Bool
is_token t = (length t == 64) && all is_hex t

abbrev pub is_account : ℕ → AccountRow → Bool
is_account id u = u.id == id

abbrev pub has_email : Text → AccountRow → Bool
has_email email u = equals_text u.email email

abbrev pub is_session : ℕ → Session → Bool
is_session id s = s.id == id

abbrev pub has_token : ℕ → Session → Bool
has_token h s = s.token_hash == h

abbrev pub is_refresh : ℕ → RefreshToken → Bool
is_refresh h r = r.token_hash == h

-- The refresh tokens of a session.
abbrev pub is_of : ℕ → RefreshToken → Bool
is_of id r = r.session_id == id

-- `revoked_at = COALESCE(revoked_at, now())`
abbrev pub revoke : ℕ → Session → Session
revoke now s = record s { revoked_at = some (get_or s.revoked_at now) }

-- Not expired and not revoked, for the refresh token; with the access window, for the access token.
abbrev pub is_active : ℕ → Session → Bool
is_active now s = ltb now s.expires_at && not (is_some s.revoked_at)

abbrev pub is_live : ℕ → Session → Bool
is_live now s = ltb now s.access_expires_at && is_active now s

-- The primary key, the unique identifier and the foreign key of `sessions`.
unfoldable pub insert_session : Session → AuthTables → Option AuthTables
insert_session s t =
    if any (λ r. has_token s.token_hash r || is_session s.id r) t.sessions
      || not (any (is_account s.owner_id) t.users)
    then none
    else some (record t { sessions = t.sessions ++ (s ∷ []) })

-- The primary key and the foreign key of `session_refresh_tokens`.
unfoldable pub insert_refresh : RefreshToken → AuthTables → Option AuthTables
insert_refresh r t =
    if any (is_refresh r.token_hash) t.refresh_tokens
      || not (any (is_session r.session_id) t.sessions)
    then none
    else some (record t { refresh_tokens = t.refresh_tokens ++ (r ∷ []) })
