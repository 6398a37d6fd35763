-- ===== src/Sessions/KeptCalls.antt =====
-- packages/core/src/auth.ts: the rotation and every call keep a condition on the rows that the rows they
-- insert satisfy.
use careerscope.Sessions.KeptSignIn.{
  test_login-kept, otp_account-kept, login_in_transaction-kept, committed-kept, kept_found,
  finish_login-kept,
}
use careerscope.Sessions.Revocation.{sweep_expired_sessions, expired_batch}
use careerscope.Sessions.Trace.{
  auth_step, sweep, revoke_rest, revoke_one, sign_out, rotate_token, test_login, otp_login,
  email_login, password_login, create_first, create_user, AuthCall, tables_or, after_calls,
}
use careerscope.Sessions.Accounts.{create_otp_account_in_transaction}
use careerscope.Sessions.Login.{
  login_with_verified_email, register, create_owner, login_with_verified_email_in_transaction,
  insert_account,
}
use careerscope.Sessions.Kept.{
  RowLaws, sweep_batch-kept, revoke_other_sessions-kept, revoke_session-kept, logout-kept, draws,
  all_draw, update-revoke-kept, insert_refresh-kept, kept_if, kept,
}
use careerscope.Sessions.Rotation.{
  refresh_of, rotation, rotate, replace_token, refresh_joined, refresh_found, refresh,
  consume_token, rotate_session, NewTokens,
}
use careerscope.Sessions.Issue.{new_refresh, Drawn}
use careerscope.Search.State.{Text}
use careerscope.Base.Table.{update, find, all-update}
use careerscope.Base.{
  none, some, true, [], ◌∷◌, ℕ, Bool, List, Option, arith, ◌≡◌, refl, inl, inr, Option-cases,
}
use careerscope.Sessions.State.{is_session, is_refresh, AuthTables, RefreshToken, Session, Platform}

module _ (p : Platform) (ps : Session → Bool) (pr : RefreshToken → Bool) (fine : Drawn → Bool)
    (fine_new : NewTokens → Bool) (laws : RowLaws p ps pr fine fine_new) where
  replace_token-kept :
      (now id : ℕ) (n : NewTokens) (t : AuthTables)
      → fine_new n ≡ true
      → kept ps pr t ≡ true
      → kept_if ps pr (replace_token now id (p.digest n.access_token) t) ≡ true
  unfolding replace_token
  replace_token-kept now id n t f k = ground (
    arith,
    all-update ps (is_session id) (rotate_session now (p.digest n.access_token)) t.sessions
        (λ s e. laws.replaced now n s f e),
  )

  rotate-kept :
      (now : ℕ) (n : NewTokens) (r : RefreshToken) (s : Session) (t : AuthTables)
      → fine_new n ≡ true
      → kept ps pr t ≡ true
      → kept_if ps pr (rotate p.digest now n r s t) ≡ true
  unfolding rotate
  rotate-kept now n r s t f k =
      let c = record t {
        refresh_tokens = update (is_refresh r.token_hash) (consume_token now) t.refresh_tokens;
      } in
      let k1 =
        all-update pr (is_refresh r.token_hash) (consume_token now) t.refresh_tokens
          (laws.consumed now) in
      let k2 = replace_token-kept now s.id n c f (ground (arith, k1)) in
      elim (Option-cases (replace_token now s.id (p.digest n.access_token) c)) [
        | inl e ↦ rw e refl
        | inr (v, e) ↦ rw e (
            insert_refresh-kept ps pr (new_refresh (p.digest n.refresh_token) s.id s.expires_at) v
              (laws.issued_new n s.id s.expires_at f)
              (kept_found p ps pr fine fine_new laws
                (replace_token now s.id (p.digest n.access_token) c) v e k2))
      ]

  rotation-kept :
      (n : NewTokens) (s : Session) (t : AuthTables) (o : Option AuthTables)
      → kept ps pr t ≡ true
      → kept_if ps pr o ≡ true
      → kept ps pr (rotation p.digest n s t o).1 ≡ true
  rotation-kept n s t none k h = k
  rotation-kept n s t (some u) k h = h

  refresh_found-kept :
      (now : ℕ) (n : NewTokens) (r : RefreshToken) (s : Session) (t : AuthTables)
      → fine_new n ≡ true
      → kept ps pr t ≡ true
      → kept ps pr (refresh_found p.digest now n r s t).1 ≡ true
  unfolding refresh_found
  refresh_found-kept now n r s t f k =
      let a = update-revoke-kept ps pr laws.revoked (is_session s.id) now t k in
      let b = rotation-kept n s t (rotate p.digest now n r s t) k (rotate-kept now n r s t f k) in
      ground arith

  refresh_of-kept :
      (now : ℕ) (n : NewTokens) (r : RefreshToken) (s : Option Session) (t : AuthTables)
      → fine_new n ≡ true
      → kept ps pr t ≡ true
      → kept ps pr (refresh_of p.digest now n r s t).1 ≡ true
  refresh_of-kept now n r none t f k = k
  refresh_of-kept now n r (some s) t f k = refresh_found-kept now n r s t f k

  refresh_joined-kept :
      (now : ℕ) (n : NewTokens) (r : Option RefreshToken) (t : AuthTables)
      → fine_new n ≡ true
      → kept ps pr t ≡ true
      → kept ps pr (refresh_joined p.digest now n r t).1 ≡ true
  refresh_joined-kept now n none t f k = k
  refresh_joined-kept now n (some r) t f k =
      refresh_of-kept now n r (find (is_session r.session_id) t.sessions) t f k

  refresh-kept :
      (now : ℕ) (n : NewTokens) (token : Option Text) (t : AuthTables)
      → fine_new n ≡ true
      → kept ps pr t ≡ true
      → kept ps pr (refresh p.digest now n token t).1 ≡ true
  unfolding refresh
  refresh-kept now n none t f k = k
  refresh-kept now n (some token) t f k =
      let j =
        refresh_joined-kept now n (find (is_refresh (p.digest token)) t.refresh_tokens) t f k in
      ground arith

  created-kept :
      (t : AuthTables) (o : Option AuthTables)
      → kept ps pr t ≡ true
      → kept_if ps pr o ≡ true
      → kept ps pr (tables_or t o) ≡ true
  created-kept t none k h = k
  created-kept t (some u) k h = h

  register-kept :
      (id salt : ℕ) (email password : Text) (t : AuthTables)
      → kept ps pr t ≡ true
      → kept_if ps pr (register p id salt email password t) ≡ true
  unfolding register insert_account
  register-kept id salt email password t k = ground arith

  create_owner-kept :
      (id salt : ℕ) (email password : Text) (t : AuthTables)
      → kept ps pr t ≡ true
      → kept_if ps pr (create_owner p id salt email password t) ≡ true
  unfolding create_owner
  create_owner-kept id salt email password t k = ground arith

  pub auth_step-kept :
      (now : ℕ) (call : AuthCall) (t : AuthTables)
      → draws fine fine_new call ≡ true
      → kept ps pr t ≡ true
      → kept ps pr (auth_step p now call t) ≡ true
  unfolding auth_step login_with_verified_email sweep_expired_sessions
  auth_step-kept now (create_user id salt email password) t f k =
      created-kept t (register p id salt email password t) k
        (register-kept id salt email password t k)
  auth_step-kept now (create_first id salt email password) t f k =
      created-kept t (create_owner p id salt email password t) k
        (create_owner-kept id salt email password t k)
  auth_step-kept now (password_login d id hash previous device) t f k =
      finish_login-kept p ps pr fine fine_new laws now d id hash previous device t f k
  auth_step-kept now (email_login d email previous device) t f k =
      committed-kept p ps pr fine fine_new laws t
        (login_with_verified_email_in_transaction p now d email previous device t) k
        (login_in_transaction-kept p ps pr fine fine_new laws now d email previous device t f k)
  auth_step-kept now (otp_login d id ids email a previous device seen) t f k =
      committed-kept p ps pr fine fine_new laws t
        (create_otp_account_in_transaction p now d id ids email a previous device seen t) k
        (otp_account-kept p ps pr fine fine_new laws now d id ids email a previous device seen t f
          k)
  auth_step-kept now (test_login d hash email previous device seen) t f k =
      test_login-kept p ps pr fine fine_new laws now d hash email previous device seen t f k
  auth_step-kept now (rotate_token n token) t f k = refresh-kept now n token t f k
  auth_step-kept now (sign_out a b) t f k = logout-kept ps pr laws.revoked p.digest now a b t k
  auth_step-kept now (revoke_one owner id) t f k =
      revoke_session-kept ps pr laws.revoked now owner id t k
  auth_step-kept now (revoke_rest owner token) t f k =
      revoke_other_sessions-kept ps pr laws.revoked p.digest now owner token t k
  auth_step-kept now (sweep size locked) t f k =
      sweep_batch-kept ps pr (expired_batch now size locked t.sessions) t k

  pub after_calls-kept :
      (calls : List (ℕ × AuthCall)) (t : AuthTables)
      → all_draw fine fine_new calls ≡ true
      → kept ps pr t ≡ true
      → kept ps pr (after_calls p calls t) ≡ true
  unfolding after_calls
  after_calls-kept [] t f k = k
  after_calls-kept ((now, call) ∷ calls) t f k =
      after_calls-kept calls (auth_step p now call t) (ground arith)
        (auth_step-kept now call t (ground arith) k)
