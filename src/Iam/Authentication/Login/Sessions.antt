-- ===== src/Iam/Authentication/Login/Sessions.antt =====
-- What a session that Login opens has been proved with.
use backend_infrastructure_g.Base.{
  ◌≡◌, ◌≢◌, refl, sym, ap, subst, ◌∙◌, ◌⊎◌, inl, inr, true, false, not, none, some, Text,
  trim_space, text_eq, text_eq_sound, arith, Bool-cases,
}
use backend_infrastructure_g.Iam.Service.{User, found, TokenPair}
use backend_infrastructure_g.Iam.AuthCache.{login, verify_and_consume}
use backend_infrastructure_g.Iam.Security.{Mode, default_mode, email, totp, SecurityState}
use backend_infrastructure_g.Iam.Authentication.{
  done, AuthenticationState, World, Env, row_or_default, initialize, open_session,
}
use backend_infrastructure_g.Iam.Authentication.Login.{
  session, is_six_digits, is_empty, open_login, email_login, totp_login, by_mode, password_login,
  bootstrap_login, initialize_with, initialized_or_out, login_as, log_in,
}
use backend_infrastructure_g.Iam.Authentication.Login.Steps.{
  continue-done, raise_if-done, open_session-done, credentials-done, use_code-done, read_state-done,
  read_security-done,
}

module _ (env : Env) where
  -- The user has the session's token.
  abbrev pub IsSessionOf : Text → TokenPair → World → Type 0
  IsSessionOf id pair w = w.sessions.tokens (env.hash pair.refresh_token) ≡ some id

  -- A verified address, to which the code of the login was sent.
  abbrev pub IsEmailProof : User → Text → World → Type 0
  IsEmailProof user code w =
      (user.email_verified ≡ true)
      × (is_six_digits code ≡ true)
      × ((verify_and_consume env.store env.code_fault env.redis_now user.email login code
            w.codes_sent).1
          ≡ none)

  -- How a password login may end in a session.
  abbrev pub IsPasswordProof : Mode → User → Text → World → Type 0
  IsPasswordProof m user code w = (m ≡ default_mode) ⊎ ((m ≡ email) × IsEmailProof user code w)

  open_login-session :
      (user : User) (w w' : World) (pair : TokenPair)
      → open_login env user w ≡ (w', done (session pair))
      → IsSessionOf user.id pair w'
  unfolding open_login
  open_login-session user w w' pair h =
      let (w1, p, opens, rest) = continue-done (open_session env user.id w) _ h in
      let same_pair : p ≡ pair = ground arith in
      let same_world : w1 ≡ w' = ground arith in
      subst (λ q. IsSessionOf user.id q w') same_pair
        (subst (λ x. IsSessionOf user.id p x) same_world
          (open_session-done env user.id w w1 p opens).0)

  email_login-session :
      (user : User) (code : Text) (w w' : World) (pair : TokenPair)
      → email_login env user code w ≡ (w', done (session pair))
      → IsEmailProof user code w × IsSessionOf user.id pair w'
  unfolding email_login
  email_login-session user code w w' pair h =
      let (w1, u1, s1, h1) = continue-done _ _ h in
      let (verified, e1) = raise_if-done (not user.email_verified) _ w w1 u1 s1 in
      let (w2, u2, s2, h2) = continue-done _ _ h1 in
      let (given, e2) = raise_if-done (is_empty code) _ w1 w2 u2 s2 in
      let (w3, u3, s3, h3) = continue-done _ _ h2 in
      let (digits, e3) = raise_if-done (not (is_six_digits code)) _ w2 w3 u3 s3 in
      let (w4, u4, s4, h4) = continue-done _ _ h3 in
      let accepted = (use_code-done env user code w3 w4 u4 s4).0 in
      (
        (
          ground arith,
          ground arith,
          ap
                (λ x.
                  (verify_and_consume env.store env.code_fault env.redis_now user.email login code
                    x.codes_sent).1)
                (e1 ∙ e2 ∙ e3)
              ∙ accepted,
        ),
        open_login-session user w4 w' pair h4,
      )

  -- With the mode totp, a password never opens a session.
  totp_login-session :
      (user : User) (v : SecurityState) (w w' : World) (pair : TokenPair)
      → totp_login env user v w ≢ (w', done (session pair))
  unfolding totp_login
  totp_login-session user v w w' pair = λ h.
      let (w1, u1, s1, h1) = continue-done _ _ h in
      let (w2, current, s2, h2) = continue-done _ _ h1 in
      let (w3, u3, s3, h3) = continue-done _ _ h2 in
      let (w4, challenge, s4, h4) = continue-done _ _ h3 in ground arith

  by_mode-session :
      (m : Mode) (user : User) (v : SecurityState) (code : Text) (w w' : World) (pair : TokenPair)
      → by_mode env m user v code w ≡ (w', done (session pair))
      → IsPasswordProof m user code w × IsSessionOf user.id pair w'
  unfolding by_mode
  by_mode-session default_mode user v code w w' pair h =
      (inl refl, open_login-session user w w' pair h)
  by_mode-session email user v code w w' pair h =
      let (proof, opens) = email_login-session user code w w' pair h in (inr (refl, proof), opens)
  by_mode-session totp user v code w w' pair h = absurd (totp_login-session user v w w' pair h)

  password_login-session :
      (state : AuthenticationState) (user : User) (code : Text) (w w' : World) (pair : TokenPair)
      → password_login env state user code w ≡ (w', done (session pair))
      → (state.password_login_enabled ≡ true)
        × IsPasswordProof (row_or_default (w.rows user.id)).mode user code w
        × IsSessionOf user.id pair w'
  unfolding password_login
  password_login-session state user code w w' pair h =
      let (w1, u1, s1, h1) = continue-done _ _ h in
      let (enabled, e1) = raise_if-done (not state.password_login_enabled) _ w w1 u1 s1 in
      let (w2, v, s2, h2) = continue-done _ _ h1 in
      let (row, codes_kept) = read_security-done env user.id w1 w2 v s2 in
      let (proof, opens) = by_mode-session v.mode user v code w2 w' pair h2 in
      let same_row : v ≡ row_or_default (w.rows user.id) =
        row ∙ ap (λ x. row_or_default (x.rows user.id)) (sym e1) in
      (
        ground arith,
        IsPasswordProof-kept v.mode (row_or_default (w.rows user.id)).mode w2 w
            (ap (λ r. r.mode) same_row) (codes_kept ∙ ap (λ x. x.codes_sent) (sym e1)) proof,
        opens,
      )
    where
      IsPasswordProof-kept :
          (m m' : Mode) (x y : World)
          → m ≡ m'
          → x.codes_sent ≡ y.codes_sent
          → IsPasswordProof m user code x
          → IsPasswordProof m' user code y
      IsPasswordProof-kept m m' x y e c (inl plain) = inl (sym e ∙ plain)
      IsPasswordProof-kept m m' x y e c (inr (is_email, (verified, digits, accepted))) = inr (
        sym e ∙ is_email,
        (
          verified,
          digits,
          subst
              (λ k.
                (verify_and_consume env.store env.code_fault env.redis_now user.email login code
                  k).1
                ≡ none)
              c accepted,
        ),
      )

  -- An active user with this address and this password.
  abbrev pub HasPassword : Text → Text → User → Type 0
  HasPassword address password user =
      (env.backend.find_by_email (env.backend.lower (trim_space address)) ≡ found user)
      × (env.backend.verify password user.password_hash ≡ some true)
      × (user.active ≡ true)

  -- If Login of an initialized service opens a session, then logins by password are enabled, the
  -- address and the password are those of an active user, who is the session's, and that user's mode
  -- is the default one, or it is email, the address is verified and VerifyAndConsume took the code of
  -- six digits. With the mode totp no session is opened.
  pub log_in-session :
      (address password code : Text) (w w' : World) (pair : TokenPair)
      → w.settings.initialized_at ≡ true
      → log_in env address password code w ≡ (w', done (session pair))
      → (w.settings.password_login_enabled ≡ true)
        × ((user : User) × HasPassword address password user
            × IsPasswordProof (row_or_default (w.rows user.id)).mode user code w
            × IsSessionOf user.id pair w')
  unfolding log_in login_as
  log_in-session address password code w w' pair initialized h =
      let (w1, state, s1, h1) = continue-done _ _ h in
      let (same_state, e1) = read_state-done env w w1 state s1 in
      let (w2, user, s2, h2) = continue-done _ _ h1 in
      let (known, right, active, e2) = credentials-done env address password w1 w2 user s2 in
      let on : state.initialized_at ≡ true = ap (λ x. x.initialized_at) same_state ∙ initialized in
      let runs : password_login env state user code w2 ≡ (w', done (session pair)) = rw on at h2 in
      let (enabled, proof, opens) = password_login-session state user code w2 w' pair runs in
      (
        ap (λ x. x.password_login_enabled) (sym same_state) ∙ enabled,
        (
          user,
          (known, right, active),
          subst (λ x. IsPasswordProof (row_or_default (x.rows user.id)).mode user code x)
              (sym (e1 ∙ e2)) proof,
          opens,
        ),
      )

  initialize_with-session :
      (id : Text) (w w' : World) (pair p : TokenPair)
      → initialize_with env id p w ≡ (w', done (session pair))
      → (p ≡ pair)
        × (w.settings.bootstrap_admin_user_id ≡ id)
        × (w'.settings.initialized_at ≡ true)
        × (w'.sessions ≡ w.sessions)
  unfolding initialize_with initialize initialized_or_out
  initialize_with-session id w w' pair p h = elim (Bool-cases env.write_fault) [
    | inl broken ↦ absurd (ground arith)
    | inr writes ↦ elim (Bool-cases (text_eq w.settings.bootstrap_admin_user_id id)) [
      | inl same ↦ (
        ground arith,
        text_eq_sound w.settings.bootstrap_admin_user_id id same,
        ground arith,
        ground arith,
      )
      | inr other ↦ absurd (ground arith)
    ]
  ]

  bootstrap_login-session :
      (state : AuthenticationState) (user : User) (w w' : World) (pair : TokenPair)
      → bootstrap_login env state user w ≡ (w', done (session pair))
      → (w'.settings.initialized_at ≡ true)
        × (w.settings.bootstrap_admin_user_id ≡ user.id)
        × IsSessionOf user.id pair w'
  unfolding bootstrap_login
  bootstrap_login-session state user w w' pair h =
      let (w1, u1, s1, h1) = continue-done _ _ h in
      let (_, e1) = raise_if-done _ _ w w1 u1 s1 in
      let (w2, p, s2, h2) = continue-done _ _ h1 in
      let (opens, kept) = open_session-done env user.id w1 w2 p s2 in
      let (same_pair, admin, initialized, keys) = initialize_with-session user.id w2 w' pair p h2 in
      (
        initialized,
        ap (λ x. x.settings.bootstrap_admin_user_id) e1
            ∙ (ap (λ x. x.bootstrap_admin_user_id) (sym kept) ∙ admin),
        ap (λ k. k.tokens (env.hash pair.refresh_token)) keys
            ∙ subst (λ q. IsSessionOf user.id q w2) same_pair opens,
      )

  -- If Login of a service that is not initialized opens a session, then the address and the password
  -- are those of the bootstrap administrator, who is active, and whose session it is, and the service
  -- is initialized afterwards.
  pub log_in-bootstrap :
      (address password code : Text) (w w' : World) (pair : TokenPair)
      → w.settings.initialized_at ≡ false
      → log_in env address password code w ≡ (w', done (session pair))
      → (w'.settings.initialized_at ≡ true)
        × ((user : User) × HasPassword address password user
            × (w.settings.bootstrap_admin_user_id ≡ user.id)
            × IsSessionOf user.id pair w')
  unfolding log_in login_as
  log_in-bootstrap address password code w w' pair uninitialized h =
      let (w1, state, s1, h1) = continue-done _ _ h in
      let (same_state, e1) = read_state-done env w w1 state s1 in
      let (w2, user, s2, h2) = continue-done _ _ h1 in
      let (known, right, active, e2) = credentials-done env address password w1 w2 user s2 in
      let off : state.initialized_at ≡ false =
        ap (λ x. x.initialized_at) same_state ∙ uninitialized in
      let runs : bootstrap_login env state user w2 ≡ (w', done (session pair)) = rw off at h2 in
      let (initialized, admin, opens) = bootstrap_login-session state user w2 w' pair runs in
      (
        initialized,
        (
          user,
          (known, right, active),
          ap (λ x. x.settings.bootstrap_admin_user_id) (e1 ∙ e2) ∙ admin,
          opens,
        ),
      )
