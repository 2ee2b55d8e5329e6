-- ===== src/Iam/Authentication/Login.antt =====
-- pkg/modules/iam/authentication_service.go: credentials, Login, consumeProof and VerifyLogin.
pub mod Steps
pub mod Sessions
pub mod Proof
pub mod Checks
pub mod Verify
use backend_infrastructure_g.Base.{
  ℕ, Bool, true, false, not, ◌&&◌, ◌||◌, ◌==◌, Option, none, some, List, [], ◌∷◌, Text, codes,
  text_eq, trim_space, length, leb, ℤ, negsuc, ltb_ℤ, if◌then◌else◌,
}
use backend_infrastructure_g.Iam.Service.{
  User, IamError, invalid_credentials, fault, Found, found, missing, unreadable, TokenPair, hash_of,
}
use backend_infrastructure_g.Iam.AuthCache.{login}
use backend_infrastructure_g.Iam.AuthCache.Attempts.{Challenge}
use backend_infrastructure_g.Iam.Security.{
  Mode, default_mode, email, totp, SecurityState, totp_enabled, holds_hash,
}
use backend_infrastructure_g.Iam.Authentication.{
  AuthError, iam, bad_code, email_code_required, invalid_fields, Outcome, done, raised,
  AuthenticationState, World, Env, Action, pure, raise, continue, ◌>>=◌, ◌>>◌, raise_if, read_state,
  initialize, read_security, consume, find_user, use_code, new_challenge_of, attempt_challenge,
  end_challenge, open_session, log_out,
}

pub data LoginResult : Type 0 where
  session : TokenPair → LoginResult
  totp_required : Text → LoginResult

abbrev pub is_empty : Text → Bool
is_empty [] = true
is_empty (c ∷ s) = false

-- `emailCodePattern`
unfoldable pub is_six_digits : Text → Bool
is_six_digits code = (length code == 6) && all_digits code
  where
    all_digits : Text → Bool
    all_digits [] = true
    all_digits (c ∷ s) = leb 48 c && leb c 57 && all_digits s

abbrev is_totp : Mode → Bool
is_totp totp = true
is_totp _ = false

abbrev pub is_after : Option ℤ → ℤ → Bool
is_after none now = false
is_after (some t) now = ltb_ℤ now t

abbrev eq_bool : Bool → Bool → Bool
eq_bool true b = b
eq_bool false b = not b

module _ (env : Env) where
  -- `credentials` after the user was looked up and the password checked.
  checked_credentials : Found → Option Bool → Outcome User
  checked_credentials unreadable v = raised (iam fault)
  checked_credentials (found user) (some true) =
      if user.active then done user else raised (iam invalid_credentials)
  checked_credentials _ _ = raised (iam invalid_credentials)

  unfoldable pub credentials : Text → Text → Action User
  unfolding checked_credentials
  credentials address password w =
      let user = env.backend.find_by_email (env.backend.lower (trim_space address)) in
      (
        w,
        checked_credentials user (env.backend.verify password (hash_of env.hash env.backend user)),
      )

  -- The first login of the bootstrap administrator: a session that is revoked again if the
  -- service cannot be initialized.
  initialized_or_out : TokenPair → World × Outcome (Unit {0}) → World × Outcome LoginResult
  initialized_or_out pair (w, done _) = (w, done (session pair))
  initialized_or_out pair (w, raised e) = (log_out env pair.refresh_token w, raised e)

  unfoldable pub initialize_with : Text → TokenPair → Action LoginResult
  unfolding initialized_or_out
  initialize_with id pair w = initialized_or_out pair (initialize env id w)

  unfoldable pub bootstrap_login : AuthenticationState → User → Action LoginResult
  unfolding initialize_with
  bootstrap_login state user = do
    raise_if
        (is_empty state.bootstrap_admin_user_id
          || not (text_eq user.id state.bootstrap_admin_user_id))
        (iam invalid_credentials)
    pair ← open_session env user.id
    initialize_with user.id pair

  unfoldable pub open_login : User → Action LoginResult
  open_login user = do pair ← open_session env user.id; pure (session pair)

  unfoldable pub email_login : User → Text → Action LoginResult
  unfolding open_login
  email_login user code = do
    raise_if (not user.email_verified) (iam invalid_credentials)
    raise_if (is_empty code) email_code_required
    raise_if (not (is_six_digits code)) (invalid_fields (codes "email_code" ∷ []))
    use_code env user.email login code
    open_login user

  unfoldable pub totp_login : User → SecurityState → Action LoginResult
  totp_login user v = do
    raise_if (not (totp_enabled v)) (iam invalid_credentials)
    current ← find_user env user.id
    raise_if (not current.active || not (text_eq current.password_hash user.password_hash))
        (iam invalid_credentials)
    challenge ← new_challenge_of env record { user_id = user.id; version = v.version }
    pure (totp_required challenge)

  by_mode : Mode → User → SecurityState → Text → Action LoginResult
  unfolding open_login email_login totp_login
  by_mode default_mode user v code = open_login user
  by_mode email user v code = email_login user code
  by_mode totp user v code = totp_login user v

  unfoldable pub password_login : AuthenticationState → User → Text → Action LoginResult
  unfolding by_mode
  password_login state user code = do
    raise_if (not state.password_login_enabled) (iam invalid_credentials)
    v ← read_security env user.id
    by_mode v.mode user v code

  login_as : AuthenticationState → User → Text → Action LoginResult
  unfolding bootstrap_login password_login
  login_as state user code =
      if state.initialized_at then password_login state user code else bootstrap_login state user

  -- `Login`
  unfoldable pub log_in : Text → Text → Text → Action LoginResult
  unfolding login_as credentials
  log_in address password code = do
    state ← read_state env
    user ← credentials address password
    login_as state user code

  -- What proves the factor: the TOTP step, and the hash of a recovery code.
  proved_step : Outcome ℤ → Outcome (ℤ × Text)
  proved_step (done step) = done (step, [])
  proved_step (raised e) = raised e

  proved_secret : SecurityState → Text → Outcome Text → Outcome (ℤ × Text)
  unfolding proved_step
  proved_secret v code (done secret) =
      proved_step (env.totp_step secret code env.now v.last_totp_step)
  proved_secret v code (raised e) = raised e

  prove_totp : Text → SecurityState → Text → Action (ℤ × Text)
  unfolding proved_secret
  prove_totp id v code w = (w, proved_secret v code (env.decrypt v.secret id))

  unfoldable pub prove : Text → SecurityState → Text → Text → Action (ℤ × Text)
  unfolding prove_totp
  prove id v (c ∷ code) recovery = prove_totp id v (c ∷ code)
  prove id v [] recovery = do
    raise_if (not (is_after v.recovery_codes_expires_at env.now)) bad_code
    raise_if (not (holds_hash (env.recovery_hash recovery) v.recovery_hashes)) bad_code
    pure (negsuc 0, env.recovery_hash recovery)

  -- `consumeProof`
  unfoldable pub consume_proof : Text → SecurityState → Text → Text → Text → Action (Unit {0})
  unfolding prove
  consume_proof id v credential code recovery = do
    raise_if (eq_bool (is_empty code) (is_empty recovery)) bad_code
    proof ← prove id v code recovery
    consume env id credential v.version proof.0 proof.1

  -- The fields that VerifyLogin finds invalid.
  unfoldable pub verify_fields : Text → Text → Text → List Text
  verify_fields challenge_id code recovery =
      let rest =
        if eq_bool (is_empty code) (is_empty recovery)
          || (not (is_empty code) && not (is_six_digits code))
        then codes "code" ∷ []
        else [] in
      if is_empty challenge_id then codes "challenge_id" ∷ rest else rest

  abbrev no_fields : List Text → Bool
  no_fields [] = true
  no_fields _ = false

  -- Any error hides the user.
  challenged_user : Found → Outcome User
  challenged_user (found user) = if user.active then done user else raised (iam invalid_credentials)
  challenged_user _ = raised (iam invalid_credentials)

  unfoldable pub find_challenged : Text → Action User
  unfolding challenged_user
  find_challenged id w = (w, challenged_user (env.backend.find_by_id id))

  -- `VerifyLogin` from the proof on.
  unfoldable pub finish_login : User → SecurityState → Text → Text → Text → Action TokenPair
  unfolding consume_proof
  finish_login user v challenge_id code recovery = do
    consume_proof user.id v challenge_id code recovery
    end_challenge env challenge_id
    open_session env user.id

  unfoldable pub verify_factor : Challenge → User → Text → Text → Text → Action TokenPair
  unfolding finish_login
  verify_factor challenge user challenge_id code recovery = do
    v ← read_security env user.id
    raise_if (not (is_totp v.mode) || not (totp_enabled v) || not (v.version == challenge.version))
        bad_code
    finish_login user v challenge_id code recovery

  unfoldable pub verify_challenged : Challenge → Text → Text → Text → Action TokenPair
  unfolding find_challenged verify_factor
  verify_challenged challenge challenge_id code recovery = do
    user ← find_challenged challenge.user_id
    state ← read_state env
    raise_if (not state.initialized_at || not state.password_login_enabled)
        (iam invalid_credentials)
    verify_factor challenge user challenge_id code recovery

  -- `VerifyLogin`
  unfoldable pub verify_login : Text → Text → Text → Action TokenPair
  unfolding verify_fields verify_challenged
  verify_login challenge_id code recovery = do
    raise_if (not (no_fields (verify_fields challenge_id code recovery)))
        (invalid_fields (verify_fields challenge_id code recovery))
    challenge ← attempt_challenge env challenge_id
    verify_challenged challenge challenge_id code recovery
