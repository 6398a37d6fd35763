-- ===== src/Sessions/Login.antt =====
-- packages/core/src/auth.ts: sign-in with a password and with a verified address, and the creation of an
-- account with a password.
use careerscope.Sessions.Issue.{create_session, Drawn}
use careerscope.Search.State.{Text}
use careerscope.Base.Table.{update, find}
use careerscope.Base.{
  none, some, true, false, [], ◌∷◌, ◌++◌, ℕ, Bool, List, Option, any, length, leb, get_or, ◌==◌,
  ◌&&◌, if◌then◌else◌, ◌>>=◌, ◌>>◌, guard,
}
use careerscope.Sessions.State.{
  is_account, has_email, PreviousSession, SessionCredentials, Platform, AuthTables, AccountRow,
}

pub data SignIn : Type 0 where
  signed_in : SessionCredentials → SignIn
  refused : SignIn
  threw : SignIn

-- A transaction that throws, or that finds nothing to sign in to, changes nothing.
abbrev pub committed :
    AuthTables → Option (Option SessionCredentials × AuthTables) → SignIn × AuthTables
committed t none = (threw, t)
committed t (some (none, u)) = (refused, t)
committed t (some (some c, u)) = (signed_in c, u)

abbrev pub as_credentials :
    Option (SessionCredentials × AuthTables) → Option (Option SessionCredentials × AuthTables)
as_credentials none = none
as_credentials (some (c, u)) = some (some c, u)

abbrev pub same_hash : Option ℕ → Option ℕ → Bool
same_hash none none = true
same_hash (some a) (some b) = a == b
same_hash _ _ = false

abbrev pub checked_email : Platform → Text → Option Text
checked_email p email =
    let n = p.normal email in if p.is_email n && leb (length n) 254 then some n else none

abbrev pub checked_password : Text → Option Text
checked_password w = if leb 12 (length w) && leb (length w) 256 then some w else none

-- `INSERT … ON CONFLICT (email) DO NOTHING`, and whether a row came of it.
unfoldable pub insert_account : AccountRow → Text → AuthTables → Option (Bool × AuthTables)
insert_account a email t =
    if any (has_email email) t.users
    then some (false, t)
    else if any (is_account a.id) t.users
    then none
    else some (true, record t { users = t.users ++ (a ∷ []) })

abbrev pub password_account : ℕ → Text → ℕ → AccountRow
password_account id email hash = record {
  id = id;
  email = some email;
  password_hash = some hash;
  email_verified_at = none;
  age_screen_passed = none;
}

unfoldable pub register : Platform → ℕ → ℕ → Text → Text → AuthTables → Option AuthTables
register p id salt email password t = do
  n ← checked_email p email
  w ← checked_password password
  r ← insert_account (password_account id n (p.password_hash salt w)) n t
  some r.1

abbrev has_no_rows : List AccountRow → Bool
has_no_rows [] = true
has_no_rows (u ∷ us) = false

-- The table is locked, so that the test and the insertion are one step.
unfoldable pub create_owner : Platform → ℕ → ℕ → Text → Text → AuthTables → Option AuthTables
create_owner p id salt email password t = do
  n ← checked_email p email
  w ← checked_password password
  guard (has_no_rows t.users)
  some (record t { users = t.users ++ (password_account id n (p.password_hash salt w) ∷ []) })

-- The password check, on the row that is read before the transaction. An account without a password is
-- checked against `dummy`, as an unknown address is.
unfoldable pub check_password : Platform → ℕ → Text → Text → AuthTables → Option AccountRow
check_password p dummy email password t = do
  u ← find (has_email (p.normal email)) t.users
  guard (p.verify (get_or u.password_hash dummy) password)
  some u

-- The transaction, which reads the stored hash again under the row's lock.
abbrev pub login_locked :
    (Text → ℕ)
    → ℕ
    → Drawn
    → ℕ
    → Option ℕ
    → Option PreviousSession
    → Option Text
    → AuthTables
    → Option AccountRow
    → SignIn × AuthTables
login_locked digest now d id hash previous device t none = (refused, t)
login_locked digest now d id hash previous device t (some u) =
    if same_hash u.password_hash hash
    then committed t (as_credentials (create_session digest now d id previous device t))
    else (refused, t)

unfoldable pub finish_login :
    (Text → ℕ)
    → ℕ
    → Drawn
    → ℕ
    → Option ℕ
    → Option PreviousSession
    → Option Text
    → AuthTables
    → SignIn × AuthTables
finish_login digest now d id hash previous device t =
    login_locked digest now d id hash previous device t (find (is_account id) t.users)

abbrev pub login_checked :
    (Text → ℕ)
    → ℕ
    → Drawn
    → Option PreviousSession
    → Option Text
    → AuthTables
    → Option AccountRow
    → SignIn × AuthTables
login_checked digest now d previous device t none = (refused, t)
login_checked digest now d previous device t (some u) =
    finish_login digest now d u.id u.password_hash previous device t

-- `seen` are the tables as they are when the password is checked.
unfoldable pub login_session :
    Platform
    → ℕ
    → ℕ
    → Drawn
    → Text
    → Text
    → Option PreviousSession
    → Option Text
    → AuthTables
    → AuthTables
    → SignIn × AuthTables
login_session p dummy now d email password previous device seen t =
    login_checked p.digest now d previous device t (check_password p dummy email password seen)

abbrev pub verify_email : ℕ → AccountRow → AccountRow
verify_email now u = record u { email_verified_at = some (get_or u.email_verified_at now) }

abbrev pub verified_login :
    (Text → ℕ)
    → ℕ
    → Drawn
    → Option PreviousSession
    → Option Text
    → AuthTables
    → Option AccountRow
    → Option (Option SessionCredentials × AuthTables)
verified_login digest now d previous device t none = some (none, t)
verified_login digest now d previous device t (some u) = as_credentials (
    create_session digest now d u.id previous device
      (record t { users = update (is_account u.id) (verify_email now) t.users }))

unfoldable pub login_with_verified_email_in_transaction :
    Platform
    → ℕ
    → Drawn
    → Text
    → Option PreviousSession
    → Option Text
    → AuthTables
    → Option (Option SessionCredentials × AuthTables)
login_with_verified_email_in_transaction p now d email previous device t = do
  n ← checked_email p email
  verified_login p.digest now d previous device t (find (has_email n) t.users)

unfoldable pub login_with_verified_email :
    Platform
    → ℕ
    → Drawn
    → Text
    → Option PreviousSession
    → Option Text
    → AuthTables
    → SignIn × AuthTables
login_with_verified_email p now d email previous device t =
    committed t (login_with_verified_email_in_transaction p now d email previous device t)
