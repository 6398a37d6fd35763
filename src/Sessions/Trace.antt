-- ===== src/Sessions/Trace.antt =====
-- packages/core/src/auth.ts: the calls that change the accounts' tables, as one type, and their effect in
-- a row.
use careerscope.Sessions.Login.{
  committed, login_with_verified_email, finish_login, create_owner, register,
}
use careerscope.Sessions.Accounts.{
  test_login_session, create_otp_account_in_transaction, Acceptance, AcceptanceIds,
}
use careerscope.Sessions.Revocation.{
  sweep_expired_sessions, revoke_other_sessions, revoke_session, logout,
}
use careerscope.Sessions.Rotation.{refresh, NewTokens}
use careerscope.Sessions.Issue.{Drawn}
use careerscope.Sessions.State.{Session, PreviousSession, Platform, AuthTables}
use careerscope.Search.State.{Text}
use careerscope.Base.{none, some, [], ◌∷◌, ℕ, Bool, List, Option}

-- A call with its arguments and what it draws; the time of the call comes beside it. A password login is
-- the transaction after the check of the password.
pub data AuthCall : Type 0 where
  create_user : ℕ → ℕ → Text → Text → AuthCall
  create_first : ℕ → ℕ → Text → Text → AuthCall
  password_login : Drawn → ℕ → Option ℕ → Option PreviousSession → Option Text → AuthCall
  email_login : Drawn → Text → Option PreviousSession → Option Text → AuthCall
  otp_login :
      Drawn
      → ℕ
      → AcceptanceIds
      → Text
      → Acceptance
      → Option PreviousSession
      → Option Text
      → AuthTables
      → AuthCall
  test_login : Drawn → ℕ → Text → Option PreviousSession → Option Text → AuthTables → AuthCall
  rotate_token : NewTokens → Option Text → AuthCall
  sign_out : Option Text → Option Text → AuthCall
  revoke_one : ℕ → ℕ → AuthCall
  revoke_rest : ℕ → Text → AuthCall
  sweep : ℕ → (Session → Bool) → AuthCall

abbrev pub tables_or : AuthTables → Option AuthTables → AuthTables
tables_or t none = t
tables_or t (some u) = u

module _ (p : Platform) where
  unfoldable pub auth_step : ℕ → AuthCall → AuthTables → AuthTables
  auth_step now (create_user id salt email password) t =
      tables_or t (register p id salt email password t)
  auth_step now (create_first id salt email password) t =
      tables_or t (create_owner p id salt email password t)
  auth_step now (password_login d id hash previous device) t =
      (finish_login p.digest now d id hash previous device t).1
  auth_step now (email_login d email previous device) t =
      (login_with_verified_email p now d email previous device t).1
  auth_step now (otp_login d id ids email a previous device seen) t =
      (committed t
        (create_otp_account_in_transaction p now d id ids email a previous device seen t)).1
  auth_step now (test_login d hash email previous device seen) t =
      (test_login_session p now d hash email previous device seen t).1
  auth_step now (rotate_token n token) t = (refresh p.digest now n token t).1
  auth_step now (sign_out access refresh_token) t = logout p.digest now access refresh_token t
  auth_step now (revoke_one owner id) t = (revoke_session now owner id t).1
  auth_step now (revoke_rest owner token) t = (revoke_other_sessions p.digest now owner token t).1
  auth_step now (sweep size locked) t = (sweep_expired_sessions now size locked t).1

  -- Any calls by any processes, one after the other.
  unfoldable pub after_calls : List (ℕ × AuthCall) → AuthTables → AuthTables
  unfolding auth_step
  after_calls [] t = t
  after_calls ((now, call) ∷ calls) t = after_calls calls (auth_step now call t)
