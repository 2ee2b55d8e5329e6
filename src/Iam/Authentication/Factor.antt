-- ===== src/Iam/Authentication/Factor.antt =====
-- pkg/modules/iam/authentication_service.go: PutSecurity, Enroll, Confirm and Disable.
pub mod Steps
pub mod Changes
use backend_infrastructure_g.Base.{
  ℕ, ◌+◌, Bool, true, false, not, ◌&&◌, ◌||◌, Option, none, some, List, [], ◌∷◌, Text, codes,
  text_eq, ℤ, pos, negsuc, ◌+ℤ◌, if◌then◌else◌,
}
use backend_infrastructure_g.Iam.Service.{
  User, invalid_credentials, inactive_user, invalid_user_input, fault,
}
use backend_infrastructure_g.Iam.Security.{
  Mode, default_mode, email, totp, SecurityState, totp_enabled, security_conflict,
  email_not_verified,
}
use backend_infrastructure_g.Iam.Security.Edits.{with_mode, with_pending, confirmed, disabled}
use backend_infrastructure_g.Iam.Authentication.{
  AuthError, iam, security, bad_code, forbidden, Outcome, done, raised, World, Env, Action, pure,
  raise, continue, ◌>>=◌, ◌>>◌, raise_if, read_state, read_security, save, find_user, end_sessions,
}
use backend_infrastructure_g.Iam.Authentication.Login.{is_after, consume_proof}

abbrev is_email : Mode → Bool
is_email email = true
is_email _ = false

abbrev pub is_totp : Mode → Bool
is_totp totp = true
is_totp _ = false

-- The texts of the modes; `none` for any other.
unfoldable pub parse_mode : Text → Option Mode
parse_mode t =
    if text_eq t (codes "default")
    then some default_mode
    else (if text_eq t (codes "email")
        then some email
        else (if text_eq t (codes "totp") then some totp else none))

module _ (env : Env) where
  -- `base.requireInitialized`
  unfoldable pub require_initialized : Action (Unit {0})
  require_initialized = do
    state ← read_state env
    raise_if (not state.initialized_at) (iam invalid_credentials)

  -- `base.requireActiveUser`
  unfoldable pub require_active_user : Text → Action (Unit {0})
  unfolding require_initialized
  require_active_user id = do
    require_initialized
    user ← find_user env id
    raise_if (not user.active) (iam inactive_user)

  -- The user of a change to the settings, who must be active.
  unfoldable pub active_user : Text → Action User
  unfolding require_initialized
  active_user id = do
    require_initialized
    user ← find_user env id
    raise_if (not user.active) (iam invalid_credentials)
    pure user

  -- A password that cannot be checked counts as wrong.
  abbrev is_right : Option Bool → Bool
  is_right (some b) = b
  is_right none = false

  unfoldable pub check_password : Text → User → Action (Unit {0})
  check_password password user =
      raise_if (not (is_right (env.backend.verify password user.password_hash)))
        (iam invalid_credentials)

  -- PutSecurity with the settings that it has read.
  put_mode : Text → User → SecurityState → Option Mode → Action Mode
  put_mode id user v none = raise (iam invalid_user_input)
  put_mode id user v (some mode) = do
    raise_if (totp_enabled v && not (is_totp mode)) forbidden
    raise_if (is_email mode && not user.email_verified) (security email_not_verified)
    raise_if (is_totp mode && not (totp_enabled v)) forbidden
    save env id (with_mode mode v) v.version
    pure mode

  -- `PutSecurity`
  unfoldable pub put_security : Text → Text → Action Mode
  unfolding active_user put_mode parse_mode
  put_security id mode = do
    user ← active_user id
    v ← read_security env id
    put_mode id user v (parse_mode mode)

  abbrev ask : {A : Type 0} → Outcome A → Action A
  ask o w = (w, o)

  -- A new secret, saved as the pending one; the result has the secret and its URI.
  unfoldable pub save_secret : Text → User → SecurityState → Action (Text × Text)
  save_secret id user v = do
    secret ← ask (env.new_secret user.email)
    encrypted ← ask (env.encrypt secret.0 id)
    save env id (with_pending encrypted env.now v) v.version
    pure secret

  -- `Enroll`
  unfoldable pub enroll : Text → Text → Action (Text × Text)
  unfolding active_user check_password save_secret
  enroll id password = do
    user ← active_user id
    check_password password user
    v ← read_security env id
    raise_if (totp_enabled v) (security security_conflict)
    save_secret id user v

  -- The pending secret, proved by a code, becomes the factor.
  unfoldable pub save_confirmed : Text → Text → SecurityState → Action (List Text)
  save_confirmed id code v = do
    secret ← ask (env.decrypt v.pending_secret id)
    step ← ask (env.totp_step secret code env.now (negsuc 0))
    made ← ask env.recovery_codes
    save env id (confirmed step made.1 (env.now +ℤ env.recovery_ttl) v) v.version
    pure made.0

  -- `Confirm`
  unfoldable pub confirm : Text → Text → Action (List Text)
  unfolding require_active_user save_confirmed
  confirm id code = do
    require_active_user id
    v ← read_security env id
    raise_if (totp_enabled v || not (is_after v.pending_expires_at env.now)) bad_code
    save_confirmed id code v

  unfoldable pub remove_factor : Text → Text → Text → SecurityState → Action (Unit {0})
  remove_factor id code recovery v = do
    consume_proof env id v [] code recovery
    save env id (disabled (v.version + 1)) (v.version + 1)
    end_sessions env id

  disable_read : Text → Text → Text → SecurityState → Action (Unit {0})
  unfolding remove_factor
  disable_read id code recovery v =
      if totp_enabled v then remove_factor id code recovery v else end_sessions env id

  -- `Disable`
  unfoldable pub disable : Text → Text → Text → Text → Action (Unit {0})
  unfolding active_user check_password disable_read
  disable id password code recovery = do
    user ← active_user id
    check_password password user
    v ← read_security env id
    disable_read id code recovery v
