-- ===== src/Sessions/Accounts.antt =====
-- packages/core/src/auth.ts and test-users.ts: the sign-ins that create an account: after a one-time code,
-- and for the fixed test users.

use careerscope.Sessions.Login.{
  threw, password_account, refused, login_with_verified_email_in_transaction, insert_account,
  committed, checked_email, as_credentials, SignIn,
}
use careerscope.Sessions.Issue.{create_session, Drawn}
use careerscope.Search.State.{Text}
use careerscope.Base.Table.{find}
use careerscope.Base.{
  same_text, none, some, true, false, [], ◌∷◌, ◌++◌, ℕ, Bool, List, Option, any, ◌==◌,
  if◌then◌else◌, ◌>>=◌,
}
use careerscope.Sessions.State.{
  privacy_notice, has_email, terms, PreviousSession, SessionCredentials, Platform, Document,
  AuthTables, AccountRow, AcceptanceRow,
}

pub record Acceptance : Type 0 where
  pub terms_version : Text
  pub privacy_version : Text
  pub age_screen_passed : Bool
  pub marketing_opt_in : Bool
  pub marketing_version : Option Text

pub record AcceptanceIds : Type 0 where
  pub first : ℕ
  pub second : ℕ
  pub third : ℕ

abbrev acceptance_row : ℕ → ℕ → Document → Text → AcceptanceRow
acceptance_row id owner document version = record {
  id = id;
  owner_id = owner;
  document = document;
  version = version;
  accepted = true;
}

abbrev marketing_row : ℕ → ℕ → Bool → Option Text → List AcceptanceRow
marketing_row id owner true (some (c ∷ cs)) =
    acceptance_row id owner Document.marketing (c ∷ cs) ∷ []
marketing_row id owner _ _ = []

abbrev pub acceptance_rows : AcceptanceIds → ℕ → Acceptance → List AcceptanceRow
acceptance_rows ids owner a =
    acceptance_row ids.first owner terms a.terms_version
    ∷ acceptance_row ids.second owner privacy_notice a.privacy_version
    ∷ marketing_row ids.third owner a.marketing_opt_in a.marketing_version

-- A verified account without a session is an error here.
abbrev pub established :
    Option (Option SessionCredentials × AuthTables)
    → Option (Option SessionCredentials × AuthTables)
established (some (some c, u)) = some (some c, u)
established _ = none

abbrev pub otp_account : ℕ → ℕ → Text → Acceptance → AccountRow
otp_account id now email a = record {
  id = id;
  email = some email;
  password_hash = none;
  email_verified_at = some now;
  age_screen_passed = some a.age_screen_passed;
}

abbrev pub with_acceptances : AcceptanceIds → ℕ → Acceptance → AuthTables → AuthTables
with_acceptances ids owner a t = record t {
  acceptances = t.acceptances ++ acceptance_rows ids owner a;
}

-- A row of the insertion is a new account; without one another request has created it.
abbrev pub inserted :
    (Text → ℕ)
    → ℕ
    → Drawn
    → ℕ
    → AcceptanceIds
    → Acceptance
    → Option PreviousSession
    → Option Text
    → Option (Option SessionCredentials × AuthTables)
    → Bool × AuthTables
    → Option (Option SessionCredentials × AuthTables)
inserted digest now d id ids a previous device login (true, t) =
    as_credentials (create_session digest now d id previous device (with_acceptances ids id a t))
inserted digest now d id ids a previous device login (false, t) = login

abbrev pub otp_session :
    Platform
    → ℕ
    → Drawn
    → ℕ
    → AcceptanceIds
    → Text
    → Acceptance
    → Option PreviousSession
    → Option Text
    → AuthTables
    → AuthTables
    → Option (Option SessionCredentials × AuthTables)
    → Option (Option SessionCredentials × AuthTables)
otp_session p now d id ids n a previous device seen t login =
    if any (has_email n) seen.users
    then login
    else (insert_account (otp_account id now n a) n t
        >>= inserted p.digest now d id ids a previous device login)

-- `seen` are the tables that the first query reads, before the insertion.
unfoldable pub create_otp_account_in_transaction :
    Platform
    → ℕ
    → Drawn
    → ℕ
    → AcceptanceIds
    → Text
    → Acceptance
    → Option PreviousSession
    → Option Text
    → AuthTables
    → AuthTables
    → Option (Option SessionCredentials × AuthTables)
create_otp_account_in_transaction p now d id ids email a previous device seen t =
    checked_email p email >>= λ n.
    otp_session p now d id ids n a previous device seen t
      (established (login_with_verified_email_in_transaction p now d n previous device t))

pub record TestUser : Type 0 where
  pub id : ℕ
  pub email : Text

-- `@careerscope.tech`
abbrev test_domain : Text
test_domain =
    64 ∷ 99 ∷ 97 ∷ 114 ∷ 101 ∷ 101 ∷ 114 ∷ 115 ∷ 99 ∷ 111 ∷ 112 ∷ 101 ∷ 46 ∷ 116 ∷ 101 ∷ 99 ∷ 104
    ∷ []

abbrev pub test_users : List TestUser
test_users =
    record { id = 1; email = 118 ∷ 97 ∷ 114 ∷ 117 ∷ 110 ∷ test_domain }
    ∷ record { id = 2; email = 97 ∷ 100 ∷ 109 ∷ 105 ∷ 110 ∷ test_domain }
    ∷ []

abbrev pub is_test_user : Text → TestUser → Bool
is_test_user email u = same_text u.email email

-- The account of the address, once it is there: it must be the fixed one.
abbrev pub test_sign_in :
    (Text → ℕ)
    → ℕ
    → Drawn
    → ℕ
    → Option PreviousSession
    → Option Text
    → AuthTables
    → SignIn × AuthTables
test_sign_in digest now d id previous device t =
    committed t (as_credentials (create_session digest now d id previous device t))

-- After the insertion the row is read again, and the account stays if the session fails.
abbrev pub test_created :
    (Text → ℕ)
    → ℕ
    → Drawn
    → Text
    → ℕ
    → Option PreviousSession
    → Option Text
    → AuthTables
    → Option (Bool × AuthTables)
    → SignIn × AuthTables
test_created digest now d email id previous device t none = (threw, t)
test_created digest now d email id previous device t (some (b, u)) =
    elim (find (has_email email) u.users) [
      | none ↦ (refused, u)
      | some a ↦ if a.id == id then test_sign_in digest now d id previous device u else (refused, u)
    ]

-- `seen` are the tables that the first query reads; `hash` is that of a random password.
unfoldable pub test_login_as :
    Platform
    → ℕ
    → Drawn
    → ℕ
    → Text
    → Option PreviousSession
    → Option Text
    → AuthTables
    → AuthTables
    → Option TestUser
    → SignIn × AuthTables
test_login_as p now d hash n previous device seen t none = (refused, t)
test_login_as p now d hash n previous device seen t (some account) =
    elim (find (has_email n) seen.users) [
      | some a ↦
          if a.id == account.id
          then test_sign_in p.digest now d account.id previous device t
          else (threw, t)
      | none ↦
          test_created p.digest now d n account.id previous device t
            (insert_account (password_account account.id n hash) n t)
    ]

unfoldable pub test_login_session :
    Platform
    → ℕ
    → Drawn
    → ℕ
    → Text
    → Option PreviousSession
    → Option Text
    → AuthTables
    → AuthTables
    → SignIn × AuthTables
test_login_session p now d hash email previous device seen t =
    test_login_as p now d hash (p.normal email) previous device seen t
      (find (is_test_user (p.normal email)) test_users)
