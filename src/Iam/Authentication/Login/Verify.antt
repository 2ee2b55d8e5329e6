-- ===== src/Iam/Authentication/Login/Verify.antt =====
-- What a session that VerifyLogin opens has been proved with.
use backend_infrastructure_g.Base.{
  ◌≡◌, sym, ap, subst, ◌∙◌, true, false, not, ◌||◌, Text, arith, none,
}
use backend_infrastructure_g.Iam.Service.{User, TokenPair}
use backend_infrastructure_g.Iam.AuthCache.{ok}
use backend_infrastructure_g.Iam.AuthCache.Attempts.{Challenge, attempt}
use backend_infrastructure_g.Iam.Service.{found}
use backend_infrastructure_g.Iam.Authentication.{
  done, AuthenticationState, World, Env, clocks, row_or_default,
}
use backend_infrastructure_g.Iam.Security.{consume_credential}
use backend_infrastructure_g.Iam.Authentication.Login.{
  verify_factor, verify_challenged, verify_login,
}
use backend_infrastructure_g.Iam.Authentication.Login.Steps.{
  continue-done, raise_if-done, read_state-done,
}
use backend_infrastructure_g.Iam.Authentication.Login.Sessions.{IsSessionOf}
use backend_infrastructure_g.Iam.Authentication.Login.Checks.{
  IsVerified, find_challenged-done, attempt_challenge-done, verify_factor-session,
}

-- Logins by password are allowed.
abbrev pub IsOpen : World → Type 0
IsOpen w = (w.settings.initialized_at ≡ true) × (w.settings.password_login_enabled ≡ true)

module _ (env : Env) where
  allowed_settings :
      (state : AuthenticationState)
      → (not state.initialized_at || not state.password_login_enabled) ≡ false
      → (state.initialized_at ≡ true) × (state.password_login_enabled ≡ true)
  allowed_settings state h = (ground arith, ground arith)

  verify_challenged-session :
      (c : Challenge) (id code recovery : Text) (w w' : World) (pair : TokenPair)
      → verify_challenged env c id code recovery w ≡ (w', done pair)
      → IsOpen w
        × ((user : User) × (env.backend.find_by_id c.user_id ≡ found user)
            × (user.active ≡ true)
            × IsVerified env c user id code recovery w
            × IsSessionOf env user.id pair w')
  unfolding verify_challenged
  verify_challenged-session c id code recovery w w' pair h =
      let (w1, user, s1, h1) = continue-done _ _ h in
      let (known, active, e1) = find_challenged-done env c.user_id w w1 user s1 in
      let (w2, state, s2, h2) = continue-done _ _ h1 in
      let (same_state, e2) = read_state-done env w1 w2 state s2 in
      let (w3, u3, s3, h3) = continue-done _ _ h2 in
      let (checks, e3) =
        raise_if-done (not state.initialized_at || not state.password_login_enabled) _ w2 w3 u3
          s3 in
      let (on, enabled) = allowed_settings state checks in
      let runs : verify_factor env c user id code recovery w ≡ (w', done pair) =
        subst (λ x. verify_factor env c user id code recovery x ≡ (w', done pair))
          (sym (e1 ∙ e2 ∙ e3)) h3 in
      let proof = verify_factor-session env c user id code recovery w w' pair runs in
      let settings : state ≡ w.settings = same_state ∙ ap (λ x. x.settings) (sym e1) in
      (
        (
          ap (λ x. x.initialized_at) (sym settings) ∙ on,
          ap (λ x. x.password_login_enabled) (sym settings) ∙ enabled,
        ),
        (user, known, active, proof.0, proof.1),
      )

  IsVerified-kept :
      (c : Challenge) (user : User) (id code recovery : Text) (w w1 : World)
      → w1.rows ≡ w.rows
      → w1.consumptions ≡ w.consumptions
      → IsVerified env c user id code recovery w1
      → IsVerified env c user id code recovery w
  IsVerified-kept c user id code recovery w w1 rows kept h =
      let (v, step, hash, row, mode, version, shown, accepted) = h in
      (
        v,
        step,
        hash,
        row ∙ ap (λ f. row_or_default (f user.id)) rows,
        mode,
        version,
        shown,
        subst
            (λ x.
              (consume_credential env.write_fault (clocks env) id v.version step hash
                record { row = v; consumptions = x }).1
              ≡ none)
            kept accepted,
      )

  -- If VerifyLogin opens a session, then Attempt gave the challenge, within its five attempts, the
  -- service is initialized with logins by password enabled, the challenge's user exists, is active
  -- and the session's, the user's mode is totp and the settings are of the version of the challenge,
  -- and ConsumeCredential accepted, with the challenge, a TOTP step of the user's secret or one of
  -- the user's recovery codes.
  pub verify_login-session :
      (id code recovery : Text) (w w' : World) (pair : TokenPair)
      → verify_login env id code recovery w ≡ (w', done pair)
      → (c : Challenge) × (user : User) × ((attempt env.store env.attempt_fault env.redis_now id
            w.challenges).1
          ≡ ok c)
        × IsOpen w
        × (env.backend.find_by_id c.user_id ≡ found user)
        × (user.active ≡ true)
        × IsVerified env c user id code recovery w
        × IsSessionOf env user.id pair w'
  unfolding verify_login
  verify_login-session id code recovery w w' pair h =
      let (w1, u1, s1, h1) = continue-done _ _ h in
      let (_, e1) = raise_if-done _ _ w w1 u1 s1 in
      let (w2, c, s2, h2) = continue-done _ _ h1 in
      let (given, settings, rows, kept) = attempt_challenge-done env id w1 w2 c s2 in
      let ((on, enabled), (user, known, active, verified, opens)) =
        verify_challenged-session c id code recovery w2 w' pair h2 in
      let same_settings : w2.settings ≡ w.settings = settings ∙ ap (λ x. x.settings) (sym e1) in
      (
        c,
        user,
        ap (λ x. (attempt env.store env.attempt_fault env.redis_now id x.challenges).1) e1 ∙ given,
        (
          ap (λ x. x.initialized_at) (sym same_settings) ∙ on,
          ap (λ x. x.password_login_enabled) (sym same_settings) ∙ enabled,
        ),
        known,
        active,
        IsVerified-kept c user id code recovery w w2 (rows ∙ ap (λ x. x.rows) (sym e1))
            (kept ∙ ap (λ x. x.consumptions) (sym e1)) verified,
        opens,
      )
