-- ===== src/Sessions/KeptSignIn.antt =====
-- packages/core/src/auth.ts: the sign-ins keep a condition on the rows that the rows they
-- insert satisfy.
use careerscope.Sessions.Accounts.{
  TestUser, test_login_as, with_acceptances, test_users, otp_account, inserted, is_test_user,
  Acceptance, test_sign_in, test_login_session, test_created, established,
  create_otp_account_in_transaction, AcceptanceIds,
}
use careerscope.Sessions.Login.{
  login_locked, verify_email, password_account, verified_login, checked_email,
  login_with_verified_email_in_transaction, insert_account, finish_login, committed, as_credentials,
}
use careerscope.Sessions.Kept.{
  RowLaws, insert_refresh-kept, insert_session-kept, revoke_presented-kept, kept_with, kept_if,
  kept,
}
use careerscope.Sessions.Rotation.{NewTokens}
use careerscope.Sessions.Issue.{
  previous_refresh, previous_access, digest_of, credentials, revoke_presented, create_session,
  new_refresh, new_session, Drawn,
}
use careerscope.Search.State.{Text}
use careerscope.Base.Table.{update, find}
use careerscope.Base.{
  none, some, true, false, ◌+◌, ℕ, Bool, Option, any, arith, ◌≡◌, refl, inl, inr, Bool-cases,
  Option-cases, ◌>>=◌,
}
use careerscope.Sessions.State.{
  refresh_session_lifetime, insert_refresh, is_account, insert_session, has_email, AccountRow,
  PreviousSession, SessionCredentials, AuthTables, RefreshToken, Session, Platform,
}

module _ (p : Platform) (ps : Session → Bool) (pr : RefreshToken → Bool) (fine : Drawn → Bool)
    (fine_new : NewTokens → Bool) (laws : RowLaws p ps pr fine fine_new) where
  kept_pair :
      {A : Type 0} (a : A) (o : Option AuthTables)
      → kept_if ps pr o ≡ true
      → kept_with ps pr (o >>= λ u. some (a, u)) ≡ true
  kept_pair a none h = h
  kept_pair a (some u) h = h

  pub kept_found :
      (o : Option AuthTables) (u : AuthTables)
      → o ≡ some u
      → kept_if ps pr o ≡ true
      → kept ps pr u ≡ true
  kept_found o u e h = cc

  create_session-kept :
      (now : ℕ) (d : Drawn) (owner : ℕ) (previous : Option PreviousSession) (device : Option Text)
      (t : AuthTables)
      → fine d ≡ true
      → kept ps pr t ≡ true
      → kept_with ps pr (create_session p.digest now d owner previous device t) ≡ true
  unfolding create_session
  create_session-kept now d owner previous device t f k =
      let u =
        revoke_presented now (digest_of p.digest (previous_access previous))
          (digest_of p.digest (previous_refresh previous)) t in
      let k1 =
        revoke_presented-kept ps pr laws.revoked now (digest_of p.digest (previous_access previous))
          (digest_of p.digest (previous_refresh previous)) t k in
      let s = new_session now p.digest d owner device in
      let k2 = insert_session-kept ps pr s u (laws.opened now d owner device f) k1 in
      elim (Option-cases (insert_session s u)) [
        | inl e ↦ rw e refl
        | inr (v, e) ↦ rw e (
            kept_pair (credentials d)
              (insert_refresh
                (new_refresh (p.digest d.refresh_token) d.session_id
                  (now + refresh_session_lifetime))
                v)
              (insert_refresh-kept ps pr
                (new_refresh (p.digest d.refresh_token) d.session_id
                  (now + refresh_session_lifetime))
                v (laws.issued d d.session_id (now + refresh_session_lifetime) f)
                (kept_found (insert_session s u) v e k2)))
      ]

  pub committed-kept :
      (t : AuthTables) (o : Option (Option SessionCredentials × AuthTables))
      → kept ps pr t ≡ true
      → kept_with ps pr o ≡ true
      → kept ps pr (committed t o).1 ≡ true
  committed-kept t none k h = k
  committed-kept t (some (none, u)) k h = k
  committed-kept t (some (some c, u)) k h = h

  as_credentials-kept :
      (o : Option (SessionCredentials × AuthTables))
      → kept_with ps pr o ≡ true
      → kept_with ps pr (as_credentials o) ≡ true
  as_credentials-kept none h = h
  as_credentials-kept (some (c, u)) h = h

  login_locked-kept :
      (now : ℕ) (d : Drawn) (id : ℕ) (hash : Option ℕ) (previous : Option PreviousSession)
      (device : Option Text) (t : AuthTables) (u : Option AccountRow)
      → fine d ≡ true
      → kept ps pr t ≡ true
      → kept ps pr (login_locked p.digest now d id hash previous device t u).1 ≡ true
  login_locked-kept now d id hash previous device t none f k = k
  login_locked-kept now d id hash previous device t (some u) f k =
      let o = create_session p.digest now d id previous device t in
      let h =
        committed-kept t (as_credentials o) k
          (as_credentials-kept o (create_session-kept now d id previous device t f k)) in
      ground arith

  pub finish_login-kept :
      (now : ℕ) (d : Drawn) (id : ℕ) (hash : Option ℕ) (previous : Option PreviousSession)
      (device : Option Text) (t : AuthTables)
      → fine d ≡ true
      → kept ps pr t ≡ true
      → kept ps pr (finish_login p.digest now d id hash previous device t).1 ≡ true
  unfolding finish_login
  finish_login-kept now d id hash previous device t f k =
      login_locked-kept now d id hash previous device t (find (is_account id) t.users) f k

  verified_login-kept :
      (now : ℕ) (d : Drawn) (previous : Option PreviousSession) (device : Option Text)
      (t : AuthTables) (u : Option AccountRow)
      → fine d ≡ true
      → kept ps pr t ≡ true
      → kept_with ps pr (verified_login p.digest now d previous device t u) ≡ true
  verified_login-kept now d previous device t none f k = k
  verified_login-kept now d previous device t (some u) f k =
      let v = record t { users = update (is_account u.id) (verify_email now) t.users } in
      as_credentials-kept (create_session p.digest now d u.id previous device v)
        (create_session-kept now d u.id previous device v f k)

  pub login_in_transaction-kept :
      (now : ℕ) (d : Drawn) (email : Text) (previous : Option PreviousSession)
      (device : Option Text) (t : AuthTables)
      → fine d ≡ true
      → kept ps pr t ≡ true
      → kept_with ps pr (login_with_verified_email_in_transaction p now d email previous device t)
        ≡ true
  unfolding login_with_verified_email_in_transaction
  login_in_transaction-kept now d email previous device t f k =
      elim (Option-cases (checked_email p email)) [
        | inl e ↦ rw e refl
        | inr (n, e) ↦
            rw e (verified_login-kept now d previous device t (find (has_email n) t.users) f k)
      ]

  established-kept :
      (o : Option (Option SessionCredentials × AuthTables))
      → kept_with ps pr o ≡ true
      → kept_with ps pr (established o) ≡ true
  established-kept none h = refl
  established-kept (some (none, u)) h = refl
  established-kept (some (some c, u)) h = h

  insert_account-kept :
      (a : AccountRow) (email : Text) (t : AuthTables)
      → kept ps pr t ≡ true
      → kept_with ps pr (insert_account a email t) ≡ true
  unfolding insert_account
  insert_account-kept a email t k = ground arith

  inserted-kept :
      (now : ℕ) (d : Drawn) (id : ℕ) (ids : AcceptanceIds) (a : Acceptance)
      (previous : Option PreviousSession) (device : Option Text)
      (login : Option (Option SessionCredentials × AuthTables)) (o : Option (Bool × AuthTables))
      → fine d ≡ true
      → kept_with ps pr login ≡ true
      → kept_with ps pr o ≡ true
      → kept_with ps pr (o >>= inserted p.digest now d id ids a previous device login) ≡ true
  inserted-kept now d id ids a previous device login none f l h = refl
  inserted-kept now d id ids a previous device login (some (false, u)) f l h = l
  inserted-kept now d id ids a previous device login (some (true, u)) f l h =
      let v = with_acceptances ids id a u in
      as_credentials-kept (create_session p.digest now d id previous device v)
        (create_session-kept now d id previous device v f h)

  pub otp_account-kept :
      (now : ℕ) (d : Drawn) (id : ℕ) (ids : AcceptanceIds) (email : Text) (a : Acceptance)
      (previous : Option PreviousSession) (device : Option Text) (seen t : AuthTables)
      → fine d ≡ true
      → kept ps pr t ≡ true
      → kept_with ps pr
          (create_otp_account_in_transaction p now d id ids email a previous device seen t)
        ≡ true
  unfolding create_otp_account_in_transaction
  otp_account-kept now d id ids email a previous device seen t f k =
      elim (Option-cases (checked_email p email)) [
        | inl e ↦ rw e refl
        | inr (n, e) ↦ rw e (
            let login =
              established (login_with_verified_email_in_transaction p now d n previous device t) in
            let l =
              established-kept
                (login_with_verified_email_in_transaction p now d n previous device t)
                (login_in_transaction-kept now d n previous device t f k) in
            let o = insert_account (otp_account id now n a) n t in
            let i =
              inserted-kept now d id ids a previous device login o f l
                (insert_account-kept (otp_account id now n a) n t k) in
            elim (Bool-cases (any (has_email n) seen.users)) [ inl b ↦ rw b l | inr b ↦ rw b i ])
      ]

  test_sign_in-kept :
      (now : ℕ) (d : Drawn) (id : ℕ) (previous : Option PreviousSession) (device : Option Text)
      (t : AuthTables)
      → fine d ≡ true
      → kept ps pr t ≡ true
      → kept ps pr (test_sign_in p.digest now d id previous device t).1 ≡ true
  test_sign_in-kept now d id previous device t f k =
      let o = create_session p.digest now d id previous device t in
      committed-kept t (as_credentials o) k
        (as_credentials-kept o (create_session-kept now d id previous device t f k))

  test_created-kept :
      (now : ℕ) (d : Drawn) (email : Text) (id : ℕ) (previous : Option PreviousSession)
      (device : Option Text) (t : AuthTables) (o : Option (Bool × AuthTables))
      → fine d ≡ true
      → kept ps pr t ≡ true
      → kept_with ps pr o ≡ true
      → kept ps pr (test_created p.digest now d email id previous device t o).1 ≡ true
  test_created-kept now d email id previous device t none f k h = k
  test_created-kept now d email id previous device t (some (b, u)) f k h =
      let s = test_sign_in-kept now d id previous device u f h in ground arith

  test_login_as-kept :
      (now : ℕ) (d : Drawn) (hash : ℕ) (n : Text) (previous : Option PreviousSession)
      (device : Option Text) (seen t : AuthTables) (account : Option TestUser)
      → fine d ≡ true
      → kept ps pr t ≡ true
      → kept ps pr (test_login_as p now d hash n previous device seen t account).1 ≡ true
  unfolding test_login_as
  test_login_as-kept now d hash n previous device seen t none f k = k
  test_login_as-kept now d hash n previous device seen t (some account) f k =
      let o = insert_account (password_account account.id n hash) n t in
      let c =
        test_created-kept now d n account.id previous device t o f k
          (insert_account-kept (password_account account.id n hash) n t k) in
      let s = test_sign_in-kept now d account.id previous device t f k in ground arith

  pub test_login-kept :
      (now : ℕ) (d : Drawn) (hash : ℕ) (email : Text) (previous : Option PreviousSession)
      (device : Option Text) (seen t : AuthTables)
      → fine d ≡ true
      → kept ps pr t ≡ true
      → kept ps pr (test_login_session p now d hash email previous device seen t).1 ≡ true
  unfolding test_login_session
  test_login-kept now d hash email previous device seen t f k =
      test_login_as-kept now d hash (p.normal email) previous device seen t
        (find (is_test_user (p.normal email)) test_users) f k
