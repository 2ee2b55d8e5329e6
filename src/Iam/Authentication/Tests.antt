-- ===== src/Iam/Authentication/Tests.antt =====
-- A service with one user, ann, whose password is "pw", and hashes that are the texts themselves.
use backend_infrastructure_g.Base.{
  ◌+◌, ◌≡◌, refl, ◌⊎◌, true, false, none, some, List, [], ◌∷◌, Text, codes, text_eq, trim_space,
  trim_left, is_space, set, pos, if◌then◌else◌,
}
use backend_infrastructure_g.Iam.Refresh.Session.{Event, replaces, rotates, apply_all, no_keys}
use backend_infrastructure_g.Iam.Refresh.{issue, replace_script, revoke_all, revoke_all_script}
use backend_infrastructure_g.Iam.Service.{User, found, missing, TokenPair, Backend, issue_pair}
use backend_infrastructure_g.Iam.AuthCache.{drawn, ok}
use backend_infrastructure_g.Iam.AuthCache.Attempts.{
  Challenge, attempt, challenge_key, consume_challenge,
}
use backend_infrastructure_g.Iam.Security.{
  totp, SecurityState, totp_enabled, consume_credential, insert_consumption, record_consumption,
  prune, is_consumed, spend, save_security, save_settings,
}
use backend_infrastructure_g.Iam.Authentication.{
  done, AuthenticationState, World, Env, continue, row_or_default, read_state, initialize,
  read_security, consume, save, find_user, attempt_challenge, end_challenge, open_session,
  end_sessions,
}
use backend_infrastructure_g.Iam.Authentication.Login.{
  session, credentials, log_in, password_login, bootstrap_login, initialize_with, open_login,
  consume_proof, prove, find_challenged, finish_login, verify_factor, verify_challenged,
  verify_login, verify_fields, is_six_digits,
}
use backend_infrastructure_g.Iam.Authentication.Login.Sessions.{
  HasPassword, IsPasswordProof, IsSessionOf, log_in-session, log_in-bootstrap,
}
use backend_infrastructure_g.Iam.Authentication.Login.Checks.{IsVerified}
use backend_infrastructure_g.Iam.Authentication.Login.Verify.{IsOpen, verify_login-session}
use backend_infrastructure_g.Iam.Authentication.Factor.{
  is_totp, parse_mode, require_initialized, active_user, check_password, put_security,
  remove_factor, disable,
}
use backend_infrastructure_g.Iam.Authentication.Factor.Steps.{IsSignedOut}
use backend_infrastructure_g.Iam.Authentication.Factor.Changes.{
  HasNoFactor, IsProved, disable-HasNoFactor, put_security-done,
}

abbrev same : Text → Text
same s = s

abbrev ann : User
ann = record {
  id = codes "u1";
  email = codes "ann";
  email_verified = true;
  password_hash = codes "h";
  active = true;
}

abbrev backend : Backend
backend = record {
  find_by_email = λ e. if text_eq e (codes "ann") then found ann else missing;
  find_by_id = λ i. found ann;
  permissions_for_user = λ i. some [];
  initialized = some (some true);
  verify = λ p h. some (text_eq p (codes "pw"));
  issue_access = λ i. some (codes "access");
  lower = same;
  new_token = some (codes "t1");
  cache_fault = false;
}

abbrev env : Env
env = record {
  hash = same;
  backend = backend;
  store = record { prefix = []; digest = same; lower = same };
  settings_fault = false;
  security_fault = false;
  write_fault = false;
  code_fault = none;
  issue_fault = none;
  attempt_fault = none;
  delete_fault = none;
  new_challenge = drawn (codes "c");
  redis_now = 7;
  now = pos 7;
  database_now = pos 8;
  decrypt = λ s i. done s;
  totp_step = λ s c n l. done (pos 101);
  recovery_hash = same;
  recovery_codes = done ([], []);
  new_secret = λ e. done (codes "s", codes "uri");
  encrypt = λ s i. done s;
  recovery_ttl = pos 1;
  verified_now = λ i. true;
}

abbrev settings : AuthenticationState
settings = record {
  password_login_enabled = true;
  registration_enabled = false;
  registration_email_verification_required = true;
  allowed_email_domains = [];
  bootstrap_admin_user_id = codes "u1";
  initialized_at = true;
}

abbrev world : World
world = record {
  sessions = no_keys same;
  codes_sent = record { entries = λ k. none; cooldowns = λ k. none; counters = λ k. none };
  challenges = λ k. none;
  settings = settings;
  rows = λ i. none;
  consumptions = [];
}

abbrev pair : TokenPair
pair = record { access_token = codes "access"; refresh_token = codes "t1" }

abbrev logged_in : World
logged_in = (log_in env (codes "ann") (codes "pw") [] world).0

logs_in : log_in env (codes "ann") (codes "pw") [] world ≡ (logged_in, done (session pair))
unfolding log_in credentials password_login open_login read_state read_security open_session
    issue_pair issue replace_script continue text_eq trim_space trim_left is_space
logs_in = refl

log_in-session_example :
    (world.settings.password_login_enabled ≡ true)
    × ((user : User) × HasPassword env (codes "ann") (codes "pw") user
        × IsPasswordProof env (row_or_default (world.rows user.id)).mode user [] world
        × IsSessionOf env user.id pair logged_in)
log_in-session_example =
    log_in-session env (codes "ann") (codes "pw") [] world logged_in pair refl logs_in

abbrev fresh : World
fresh = record world { settings = record settings { initialized_at = false } }

abbrev initialized : World
initialized = (log_in env (codes "ann") (codes "pw") [] fresh).0

initializes : log_in env (codes "ann") (codes "pw") [] fresh ≡ (initialized, done (session pair))
unfolding log_in credentials bootstrap_login initialize_with initialize read_state open_session
    issue_pair issue replace_script continue text_eq trim_space trim_left is_space
initializes = refl

log_in-bootstrap_example :
    (initialized.settings.initialized_at ≡ true)
    × ((user : User) × HasPassword env (codes "ann") (codes "pw") user
        × (fresh.settings.bootstrap_admin_user_id ≡ user.id)
        × IsSessionOf env user.id pair initialized)
log_in-bootstrap_example =
    log_in-bootstrap env (codes "ann") (codes "pw") [] fresh initialized pair refl initializes

-- Ann with a factor, and the challenge of her login.
abbrev id : Text
id = codes "0123456789abcdef0123456789abcdef0123456789abcdef0123456789abcdef"

abbrev with_factor : SecurityState
with_factor = record {
  mode = totp;
  version = 4;
  secret = codes "s";
  pending_secret = [];
  pending_expires_at = none;
  last_totp_step = pos 100;
  recovery_hashes = [];
  recovery_codes_expires_at = none;
}

-- A token of hers that was replaced by another.
abbrev scripts : List Event
scripts = replaces (codes "t7") (codes "u1") ∷ rotates (codes "t7") (codes "t8") (codes "u1") ∷ []

abbrev challenged : World
challenged = record world {
  sessions = apply_all same scripts (no_keys same);
  rows = set (codes "u1") with_factor (λ i. none);
  challenges = λ k.
      if text_eq k (challenge_key env.store id)
      then some record {
        challenge = record { user_id = codes "u1"; version = 4 };
        attempts = 0;
        expires_at = 300;
      }
      else none;
}

abbrev verified : World
verified = (verify_login env id (codes "123456") [] challenged).0

verifies : verify_login env id (codes "123456") [] challenged ≡ (verified, done pair)
unfolding verify_login verify_fields is_six_digits attempt_challenge attempt challenge_key
    verify_challenged find_challenged read_state verify_factor read_security finish_login
    consume_proof prove consume consume_credential insert_consumption record_consumption prune
    is_consumed spend end_challenge open_session issue_pair issue replace_script continue text_eq
    consume_challenge
verifies = refl

verify_login-session_example :
    (c : Challenge) × (user : User) × ((attempt env.store env.attempt_fault env.redis_now id
        challenged.challenges).1
      ≡ ok c)
    × IsOpen challenged
    × (env.backend.find_by_id c.user_id ≡ found user)
    × (user.active ≡ true)
    × IsVerified env c user id (codes "123456") [] challenged
    × IsSessionOf env user.id pair verified
verify_login-session_example =
    verify_login-session env id (codes "123456") [] challenged verified pair verifies

abbrev without : World
without = (disable env (codes "u1") (codes "pw") (codes "123456") [] challenged).0

disables : disable env (codes "u1") (codes "pw") (codes "123456") [] challenged ≡ (without, done tt)
unfolding disable active_user require_initialized read_state find_user check_password read_security
    remove_factor consume_proof prove consume consume_credential insert_consumption spend save
    save_security save_settings end_sessions revoke_all revoke_all_script continue text_eq
disables = refl

disable-HasNoFactor_example :
    HasNoFactor env (codes "u1") without
    × IsSignedOut env (codes "u1") without
    × ((totp_enabled (row_or_default (challenged.rows (codes "u1"))) ≡ false)
        ⊎ IsProved env
            (codes "u1")
            (row_or_default (challenged.rows (codes "u1")))
            (codes "123456")
            [])
    × ((user : User) × (env.backend.find_by_id (codes "u1") ≡ found user)
        × (user.active ≡ true)
        × (env.backend.verify (codes "pw") user.password_hash ≡ some true))
disable-HasNoFactor_example =
    disable-HasNoFactor env (codes "u1") (codes "pw") (codes "123456") [] challenged without scripts
      refl disables

abbrev put : World
put = (put_security env (codes "u1") (codes "totp") challenged).0

puts : put_security env (codes "u1") (codes "totp") challenged ≡ (put, done totp)
unfolding put_security active_user require_initialized read_state find_user parse_mode read_security
    save save_security save_settings continue text_eq
puts = refl

put_security-done_example :
    (parse_mode (codes "totp") ≡ some totp)
    × (is_totp totp ≡ totp_enabled (row_or_default (challenged.rows (codes "u1"))))
    × (put.rows (codes "u1")
        ≡ some (record (row_or_default (challenged.rows (codes "u1"))) {
          mode = totp;
          version = (row_or_default (challenged.rows (codes "u1"))).version + 1;
        }))
put_security-done_example =
    put_security-done env (codes "u1") (codes "totp") challenged put totp puts
