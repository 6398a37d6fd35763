-- ===== src/Sessions/Examples.antt =====
-- packages/core/src/auth.ts: sign-ins of an account, with digests that are a token's first character.
use careerscope.Sessions.Others.{login_session-verified, revoke_other_sessions-active}
use careerscope.Sessions.Single.{refresh_once, is_rotated}
use careerscope.Sessions.Revoked.{refresh-reused-is_ended, logout-session, revoke_session-is_ended}
use careerscope.Sessions.Ended.{is_ended}
use careerscope.Sessions.Revocation.{
  logout, belongs_to, is_current_session, revoke_session, revoke_other_sessions,
}
use careerscope.Sessions.Live.{create_session-session, create_session-refresh, opened_tables}
use careerscope.Sessions.Login.{finish_login, check_password, login_session}
use careerscope.Sessions.Issue.{
  revoke_presented, csrf_for_access_token, credentials, create_session, session, Drawn,
}
use careerscope.Sessions.Trace.{
  sweep, sign_out, revoke_one, email_login, password_login, after_calls, AuthCall,
}
use careerscope.Sessions.State.{
  is_account, has_email, is_session, is_active, insert_refresh, insert_session, Session, Platform,
  AuthTables, AccountRow,
}
use careerscope.Search.State.{Text}
use careerscope.Base.Table.{update, find, count}
use careerscope.Base.{
  none, some, true, false, [], ◌∷◌, zero, suc, ℕ, Bool, List, all, not, ◌==◌, ◌&&◌, ◌||◌, arith,
  ◌≡◌, refl, keep,
}
use careerscope.Sessions.Rotation.{
  replace_token, rotate, rotated, refresh_found, refresh, NewTokens,
}

abbrev first_char : Text → ℕ
first_char [] = 0
first_char (c ∷ cs) = c

abbrev same : Text → Text
same t = t

abbrev any_text : Text → Bool
any_text t = true

abbrev salted : ℕ → Text → ℕ
salted salt w = first_char w

abbrev matches : ℕ → Text → Bool
matches h w = h == first_char w

abbrev platform : Platform
platform = record {
  digest = first_char;
  normal = same;
  is_email = any_text;
  password_hash = salted;
  verify = matches;
}

abbrev filled : ℕ → ℕ → Text
filled zero c = []
filled (suc n) c = c ∷ filled n c

abbrev token_a : Text
token_a = filled 64 97

abbrev token_b : Text
token_b = filled 64 98

abbrev token_c : Text
token_c = filled 64 99

abbrev token_d : Text
token_d = filled 64 100

abbrev token_e : Text
token_e = filled 64 101

abbrev token_f : Text
token_f = filled 64 102

abbrev ann : AccountRow
ann = record {
  id = 7;
  email = some (65 ∷ []);
  password_hash = some 80;
  email_verified_at = none;
  age_screen_passed = none;
}

abbrev empty : AuthTables
empty = record { users = ann ∷ []; acceptances = []; sessions = []; refresh_tokens = [] }

abbrev first_drawn : Drawn
first_drawn = record { session_id = 1; access_token = token_a; refresh_token = token_b }

abbrev phone_drawn : Drawn
phone_drawn = record { session_id = 2; access_token = token_e; refresh_token = token_f }

abbrev new_tokens : NewTokens
new_tokens = record { access_token = token_c; refresh_token = token_d }

abbrev opened_at : ℕ → AuthTables
opened_at now = opened_tables now first_char first_drawn 7 none none empty

abbrev two_sessions : AuthTables
two_sessions = opened_tables 1010 first_char phone_drawn 7 none none (opened_at 1000)

-- The holder refreshes, and then signs in on a second device and signs out.
abbrev later_calls : List (ℕ × AuthCall)
later_calls =
    (1200, password_login phone_drawn 7 (some 80) none none)
    ∷ (1300, sign_out (some token_c) none)
    ∷ []

refresh_once_example :
    is_rotated
      (refresh first_char 1400 new_tokens (some token_b) (
        after_calls platform later_calls
          (refresh first_char 1100 new_tokens (some token_b) (opened_at 1000)).1)).0
    ≡ false
unfolding refresh refresh_found rotate replace_token insert_refresh find update opened_tables
refresh_once_example =
    refresh_once platform 1100 new_tokens token_b (opened_at 1000) later_calls 1400 new_tokens refl
      refl refl

-- The tables after the first refresh token was used.
abbrev refreshed : AuthTables
refreshed = (refresh first_char 1100 new_tokens (some token_b) (opened_at 1000)).1

refresh-reused-is_ended_example :
    is_ended platform 1 1400 new_tokens (some token_d) (
      after_calls platform
        ((1200, sweep 500 (λ s. false)) ∷ [])
        (refresh first_char 1150 new_tokens (some token_b) refreshed).1)
    ≡ true
unfolding refresh refresh_found rotate replace_token insert_refresh find update opened_tables
refresh-reused-is_ended_example =
    refresh-reused-is_ended platform 1150 1 new_tokens (some token_b) refreshed
      ((1200, sweep 500 (λ s. false)) ∷ []) 1400 new_tokens (some token_d) refl refl

revoke_session-is_ended_example :
    is_ended platform 1 1400 new_tokens
      (some token_b)
      (after_calls platform ((1200, revoke_one 7 2) ∷ []) (revoke_session 1100 7 1 two_sessions).1)
    ≡ true
unfolding revoke_session opened_tables count update
revoke_session-is_ended_example =
    revoke_session-is_ended platform 1100 7 1 two_sessions ((1200, revoke_one 7 2) ∷ []) 1400
      new_tokens (some token_b) refl (omega arith) refl

logout-session_example :
    session first_char 1101 (some token_a) (
      after_calls platform
        ((1100, email_login phone_drawn (65 ∷ []) none none) ∷ [])
        (logout first_char 1050 (some token_a) none (opened_at 1000)))
    ≡ none
logout-session_example =
    logout-session platform 1050 token_a none (opened_at 1000)
      ((1100, email_login phone_drawn (65 ∷ []) none none) ∷ []) 1101 refl

create_session-session_example :
    (u : AuthTables) × (create_session first_char 1000 first_drawn 7 none none empty
      ≡ some (credentials first_drawn, u))
    × (session first_char 1899 (some token_a) u
        ≡ some (record {
          session_id = 1;
          owner_id = 7;
          csrf = csrf_for_access_token first_char token_a;
        }))
create_session-session_example =
    create_session-session first_char 1000 first_drawn 7 none none empty 1899 refl refl refl
      (omega arith)

create_session-refresh_example :
    (refresh first_char 500000 new_tokens (some token_b) (opened_at 1000)).0
    ≡ rotated 7 (record { access_token = token_c; refresh_token = token_d; session_id = 1 })
unfolding create_session insert_session insert_refresh revoke_presented opened_tables update
create_session-refresh_example =
    create_session-refresh first_char 1000 first_drawn 7 none none empty 500000 new_tokens
      (opened_at 1000) refl refl refl refl (omega arith) refl

revoke_other_sessions-active_example :
    (c : Session) × (find
        (is_current_session 1100 7 97)
        (revoke_other_sessions first_char 1100 7 token_a two_sessions).1.sessions
      ≡ some c)
    × (all
          (λ s. not (belongs_to 7 s && is_active 1200 s) || is_session c.id s)
          (revoke_other_sessions first_char 1100 7 token_a two_sessions).1.sessions
        ≡ true)
    × (keep (belongs_to 8) (revoke_other_sessions first_char 1100 7 token_a two_sessions).1.sessions
        ≡ keep (belongs_to 8) two_sessions.sessions)
unfolding revoke_other_sessions opened_tables find update
revoke_other_sessions-active_example =
    revoke_other_sessions-active first_char 1100 7 token_a two_sessions 1200 8 refl refl

login_session-verified_example :
    (u : AccountRow) × (w : AccountRow) × (h : ℕ) × (find (has_email (65 ∷ [])) empty.users
      ≡ some u)
    × (find (is_account u.id) empty.users ≡ some w)
    × (w.password_hash ≡ some h)
    × (matches h (80 ∷ []) ≡ true)
unfolding login_session check_password finish_login create_session insert_session insert_refresh
    revoke_presented find update
login_session-verified_example =
    login_session-verified platform 0 1000 first_drawn (65 ∷ []) (80 ∷ []) none none empty empty
      refl refl
