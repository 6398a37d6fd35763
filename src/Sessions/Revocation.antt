-- ===== src/Sessions/Revocation.antt =====
-- packages/core/src/auth.ts: sign-out, the list of an account's sessions, their revocation and the sweep
-- of those that have expired.
use careerscope.Sessions.Issue.{revoke_presented, digest_of}
use careerscope.Sessions.State.{
  not_distinct, is_live, is_active, revoke, is_token, is_session, has_token, has_email, Session,
  AuthTables,
}
use careerscope.Search.State.{Text}
use careerscope.Base.Table.{order_rows, update, find, delete, count, sort_by}
use careerscope.Base.{
  none, some, true, false, ℕ, Bool, List, Option, any, length, leb, ltb, not, is_some, ◌==◌, ◌&&◌,
  ◌||◌, if◌then◌else◌, keep, take, map,
}

-- One batch; `locked` tells which rows another transaction holds.
unfoldable pub expired_batch : ℕ → ℕ → (Session → Bool) → List Session → List Session
expired_batch now size locked sessions =
    take size
      (sort_by (λ s. s.expires_at) (keep (λ s. leb s.expires_at now && not (locked s)) sessions))

abbrev pub is_swept : List Session → ℕ → Bool
is_swept batch id = any (is_session id) batch

-- The refresh tokens go with their session.
unfoldable pub sweep_batch : List Session → AuthTables → AuthTables
sweep_batch batch t = record t {
  sessions = delete (λ s. is_swept batch s.id) t.sessions;
  refresh_tokens = delete (λ r. is_swept batch r.session_id) t.refresh_tokens;
}

unfoldable pub sweep_expired_sessions : ℕ → ℕ → (Session → Bool) → AuthTables → ℕ × AuthTables
sweep_expired_sessions now size locked t =
    let batch = expired_batch now size locked t.sessions in (length batch, sweep_batch batch t)

unfoldable pub logout : (Text → ℕ) → ℕ → Option Text → Option Text → AuthTables → AuthTables
logout digest now access refresh t =
    if not (is_some (digest_of digest access)) && not (is_some (digest_of digest refresh))
    then t
    else revoke_presented now (digest_of digest access) (digest_of digest refresh) t

abbrev pub belongs_to : ℕ → Session → Bool
belongs_to owner s = s.owner_id == owner

-- False when the session is not the account's.
unfoldable pub revoke_session : ℕ → ℕ → ℕ → AuthTables → Bool × AuthTables
revoke_session now owner id t = (
  count (λ s. belongs_to owner s && is_session id s) t.sessions == 1,
  record t {
    sessions = update (λ s. belongs_to owner s && is_session id s) (revoke now) t.sessions;
  },
)

-- The row of the token itself, while it is accepted.
abbrev pub is_current_session : ℕ → ℕ → ℕ → Session → Bool
is_current_session now owner h s = belongs_to owner s && (has_token h s && is_live now s)

abbrev pub is_other : ℕ → ℕ → Session → Bool
is_other owner id s = belongs_to owner s && not (is_session id s)

abbrev pub revoke_others : ℕ → ℕ → Option Session → AuthTables → Bool × AuthTables
revoke_others now owner none t = (false, t)
revoke_others now owner (some c) t =
    (true, record t { sessions = update (is_other owner c.id) (revoke now) t.sessions })

unfoldable pub revoke_other_sessions : (Text → ℕ) → ℕ → ℕ → Text → AuthTables → Bool × AuthTables
revoke_other_sessions digest now owner token t =
    if is_token token
    then revoke_others now owner (find (is_current_session now owner (digest token)) t.sessions) t
    else (false, t)

pub record ListedSession : Type 0 where
  pub id : ℕ
  pub created_at : Option ℕ
  pub last_used_at : Option ℕ
  pub device_label : Option Text
  pub current : Bool

-- `DESC NULLS LAST` of two nullable columns, then the identifier.
abbrev comes_later : Option ℕ → Option ℕ → Bool → Bool
comes_later none none tie = tie
comes_later none (some b) tie = false
comes_later (some a) none tie = true
comes_later (some a) (some b) tie = ltb b a || ((a == b) && tie)

abbrev pub is_before : Session → Session → Bool
is_before a b =
    comes_later a.last_used_at b.last_used_at
      (comes_later a.created_at b.created_at (leb a.id b.id))

-- The answer's `Unknown device` is `none` here.
abbrev pub listed : ℕ → Session → ListedSession
listed current s = record {
  id = s.id;
  created_at = s.created_at;
  last_used_at = s.last_used_at;
  device_label = s.device_label;
  current = s.id == current;
}

unfoldable pub list_sessions : ℕ → ℕ → ℕ → AuthTables → List ListedSession
list_sessions now owner current t =
    map (listed current)
      (order_rows is_before (keep (λ s. belongs_to owner s && is_active now s) t.sessions))

-- An account's sessions, none of them from this device.
unfoldable pub is_new_device : Text → Option Text → AuthTables → Bool
is_new_device email device t = elim (find (has_email email) t.users) [
  | none ↦ false
  | some u ↦
      any (belongs_to u.id) t.sessions
      && not (any (λ s. belongs_to u.id s && not_distinct s.device_label device) t.sessions)
]
