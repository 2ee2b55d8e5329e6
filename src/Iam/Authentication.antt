-- ===== src/Iam/Authentication.antt =====
-- pkg/modules/iam/authentication_service.go: what AuthenticationService works on. A request is an
-- `Action` on the `World`, the tables of PostgreSQL and of Redis, and `Env` is what a request finds
-- outside of it: the repositories of users, clocks, random values, the cryptography of
-- SecondFactorCrypto, and whether a call of a store fails. `initialized_at` is whether it is set.
pub mod Login
pub mod Factor
mod Tests
use backend_infrastructure_g.Base.{
  ℕ, ◌≡◌, refl, Bool, true, false, not, ◌&&◌, ◌||◌, Option, none, some, List, [], ◌∷◌, Text, codes,
  text_eq, set, ℤ, negsuc, if◌then◌else◌,
}
use backend_infrastructure_g.Iam.Refresh.{RefreshError, revoke, revoke_all}
use backend_infrastructure_g.Iam.Service.{
  User, IamError, invalid_credentials, not_found, refresh_failed, fault, found, missing, unreadable,
  Found, TokenPair, Session, opened, denied, Backend, issue_pair,
}
use backend_infrastructure_g.Iam.AuthCache.{
  Purpose, CacheError, invalid_code, Fault, Result, ok, failed, Drawn, verify_and_consume,
}
use backend_infrastructure_g.Iam.AuthCache.Attempts.{
  Challenge, Table, issue_challenge, attempt, consume_challenge,
}
use backend_infrastructure_g.Iam.Security.{
  Mode, default_mode, email, SecurityState, SecurityError, security_conflict, email_not_verified,
  database_error, Store, Clocks, consume_credential, save_security,
}

pub data AuthError : Type 0 where
  iam : IamError → AuthError
  cache : CacheError → AuthError
  security : SecurityError → AuthError
  forbidden email_code_required : AuthError
  invalid_fields : List Text → AuthError

pub data Outcome {ℓ} (A : Type ℓ) : Type ℓ where
  done : A → Outcome A
  raised : AuthError → Outcome A

pub record AuthenticationState : Type 0 where
  pub password_login_enabled : Bool
  pub registration_enabled : Bool
  pub registration_email_verification_required : Bool
  pub allowed_email_domains : List Text
  pub bootstrap_admin_user_id : Text
  pub initialized_at : Bool

-- The refresh tokens, the email codes and the challenges are in Redis, the rest in PostgreSQL.
pub record World : Type 0 where
  pub sessions : backend_infrastructure_g.Iam.Refresh.Keys
  pub codes_sent : backend_infrastructure_g.Iam.AuthCache.Keys
  pub challenges : Table
  pub settings : AuthenticationState
  pub rows : Text → Option SecurityState
  pub consumptions : List (Text × ℤ)

pub record Env : Type 0 where
  pub hash : Text → Text
  pub backend : Backend
  pub store : backend_infrastructure_g.Iam.AuthCache.Store
  pub settings_fault : Bool
  pub security_fault : Bool
  pub write_fault : Bool
  pub code_fault : Option Fault
  pub issue_fault : Option Fault
  pub attempt_fault : Option Fault
  pub delete_fault : Option Fault
  pub new_challenge : Drawn Text
  pub redis_now : ℕ
  pub now : ℤ
  pub database_now : ℤ
  pub decrypt : Text → Text → Outcome Text
  pub totp_step : Text → Text → ℤ → ℤ → Outcome ℤ
  pub recovery_hash : Text → Text
  pub recovery_codes : Outcome (List Text × List Text)
  pub new_secret : Text → Outcome (Text × Text)
  pub encrypt : Text → Text → Outcome Text
  pub recovery_ttl : ℤ
  pub verified_now : Text → Bool

abbrev pub clocks : Env → Clocks
clocks env = record { service = env.now; database = env.database_now }

abbrev pub Action : Type 0 → Type 0
Action A = World → World × Outcome A

module _ {A : Type 0} where
  abbrev pub pure : A → Action A
  pure a w = (w, done a)

  abbrev pub raise : AuthError → Action A
  raise e w = (w, raised e)

-- What comes after an action that has run.
unfoldable pub continue : {A B : Type 0} → World × Outcome A → (A → Action B) → World × Outcome B
continue (w, done a) f = f a w
continue (w, raised e) f = (w, raised e)

infixl 5 ◌>>=◌ ◌>>◌
abbrev pub ◌>>=◌ : {A B : Type 0} → Action A → (A → Action B) → Action B
◌>>=◌ m f w = continue (m w) f

abbrev pub ◌>>◌ : {B : Type 0} → Action (Unit {0}) → Action B → Action B
m >> k = m >>= λ _. k

abbrev pub raise_if : Bool → AuthError → Action (Unit {0})
raise_if c e w = (w, if c then raised e else done tt)

-- ErrInvalidCode, which the cache and the tables return too.
abbrev pub bad_code : AuthError
bad_code = cache invalid_code

abbrev pub of_security : SecurityError → AuthError
of_security security_conflict = security security_conflict
of_security email_not_verified = security email_not_verified
of_security SecurityError.invalid_code = bad_code
of_security database_error = iam fault

abbrev pub of_cache : {A : Type 0} → Result A → Outcome A
of_cache (ok a) = done a
of_cache (failed e) = raised (cache e)

abbrev pub of_cache_error : Option CacheError → Outcome (Unit {0})
of_cache_error none = done tt
of_cache_error (some e) = raised (cache e)

abbrev pub of_refresh_error : Option RefreshError → Outcome (Unit {0})
of_refresh_error none = done tt
of_refresh_error (some e) = raised (iam (refresh_failed e))

abbrev pub of_session : Session → Outcome TokenPair
of_session (opened pair) = done pair
of_session (denied e) = raised (iam e)

-- EnsureSecuritySettings inserts this row, by the table's defaults.
abbrev pub default_row : SecurityState
default_row = record {
  mode = default_mode;
  version = 0;
  secret = [];
  pending_secret = [];
  pending_expires_at = none;
  last_totp_step = negsuc 0;
  recovery_hashes = [];
  recovery_codes_expires_at = none;
}

abbrev pub row_or_default : Option SecurityState → SecurityState
row_or_default none = default_row
row_or_default (some r) = r

-- A transaction on a user's row and the consumptions; `e` is raised if there is no row.
in_store : Text → World → Store × Option SecurityError → World × Outcome (Unit {0})
in_store id w (s, none) =
    (record w { rows = set id s.row w.rows; consumptions = s.consumptions }, done tt)
in_store id w (s, some x) =
    (record w { rows = set id s.row w.rows; consumptions = s.consumptions }, raised (of_security x))

pub on_row :
    Text
    → AuthError
    → (Store → Store × Option SecurityError)
    → Option SecurityState
    → Action (Unit {0})
unfolding in_store
on_row id e f none w = (w, raised e)
on_row id e f (some r) w = in_store id w (f record { row = r; consumptions = w.consumptions })

abbrev is_email_mode : Mode → Bool
is_email_mode email = true
is_email_mode _ = false

module _ (env : Env) where
  -- `repo.Authentication`
  unfoldable pub read_state : Action AuthenticationState
  read_state w = (w, if env.settings_fault then raised (iam fault) else done w.settings)

  -- `repo.Initialize`
  unfoldable pub initialize : Text → Action (Unit {0})
  initialize id w =
      if env.write_fault
      then (w, raised (iam fault))
      else (if text_eq w.settings.bootstrap_admin_user_id id
          then (record w { settings = record (w.settings) { initialized_at = true } }, done tt)
          else (w, raised (iam invalid_credentials)))

  -- `repo.Security`
  unfoldable pub read_security : Text → Action SecurityState
  read_security id w = if env.security_fault then (w, raised (iam fault)) else (
    record w { rows = set id (row_or_default (w.rows id)) w.rows },
    done (row_or_default (w.rows id)),
  )

  -- `repo.SaveSecurity`; it reads again whether the user's address is verified.
  unfoldable pub save : Text → SecurityState → ℕ → Action (Unit {0})
  unfolding on_row
  save id v version w =
      on_row id (if is_email_mode v.mode then iam not_found else security security_conflict)
        (save_security env.write_fault (env.verified_now id) v version) (w.rows id) w

  -- `repo.ConsumeCredential`
  unfoldable pub consume : Text → Text → ℕ → ℤ → Text → Action (Unit {0})
  unfolding on_row
  consume id credential version step recovery w =
      on_row id (iam fault)
        (consume_credential env.write_fault (clocks env) credential version step recovery)
        (w.rows id) w

  unfoldable pub find_user : Text → Action User
  find_user id w = (
    w,
    elim (env.backend.find_by_id id) [
      | found user ↦ done user
      | missing ↦ raised (iam not_found)
      | unreadable ↦ raised (iam fault)
    ],
  )

  -- `codes.VerifyAndConsume`
  unfoldable pub use_code : Text → Purpose → Text → Action (Unit {0})
  use_code address purpose code w =
      let r =
        verify_and_consume env.store env.code_fault env.redis_now address purpose code
          w.codes_sent in
      (record w { codes_sent = r.0 }, of_cache_error r.1)

  -- `challenges.Issue`, `Attempt` and `Consume`
  unfoldable pub new_challenge_of : Challenge → Action Text
  new_challenge_of c w =
      let r =
        issue_challenge env.store env.issue_fault env.redis_now env.new_challenge c w.challenges in
      (record w { challenges = r.0 }, of_cache r.1)

  unfoldable pub attempt_challenge : Text → Action Challenge
  attempt_challenge id w =
      let r = attempt env.store env.attempt_fault env.redis_now id w.challenges in
      (record w { challenges = r.0 }, of_cache r.1)

  unfoldable pub end_challenge : Text → Action (Unit {0})
  end_challenge id w =
      let r = consume_challenge env.store env.delete_fault env.redis_now id w.challenges in
      (record w { challenges = r.0 }, of_cache_error r.1)

  -- `base.issuePair`
  unfoldable pub open_session : Text → Action TokenPair
  open_session id w =
      let r = issue_pair env.hash env.backend id w.sessions in
      (record w { sessions = r.0 }, of_session r.1)

  -- `base.Logout`, whose error is dropped.
  unfoldable pub log_out : Text → World → World
  log_out raw w = record w {
    sessions =
        (revoke env.hash env.backend.cache_fault env.backend.cache_fault (λ db. db) raw
          w.sessions).0;
  }

  -- `base.RevokeAll`
  unfoldable pub end_sessions : Text → Action (Unit {0})
  end_sessions id w =
      let r = revoke_all env.hash env.backend.cache_fault id w.sessions in
      (record w { sessions = r.0 }, of_refresh_error r.1)
