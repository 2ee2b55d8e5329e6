-- ===== src/Iam/Service.antt =====
-- pkg/modules/iam/service.go: the sessions of Service, and who may act. Repositories, the password
-- hash, the signed tokens and strings.ToLower are parameters. Login is the path of a service without
-- an authentication service. `Fault` is any error of a repository or library.
pub mod Laws
mod Tests
use backend_infrastructure_g.Base.{
  ℕ, Bool, true, false, not, ◌&&◌, Option, none, some, List, [], ◌∷◌, Text, codes, text_eq,
  trim_space, ltb, length, if◌then◌else◌,
}
use backend_infrastructure_g.Iam.Rbac.{has_permission}
use backend_infrastructure_g.Iam.Refresh.{
  Keys, RefreshError, invalid_refresh_token, Reply, ok, refused, issue, lookup, rotate, revoke_all,
}

pub record User : Type 0 where
  pub id : Text
  pub email : Text
  pub email_verified : Bool
  pub password_hash : Text
  pub active : Bool

pub data IamError : Type 0 where
  not_found invalid_credentials inactive_user permission_denied : IamError
  cannot_deactivate_self management_unavailable invalid_user_input fault : IamError
  refresh_failed : RefreshError → IamError

-- A repository's answer; ErrNotFound is told apart.
pub data Found : Type 0 where
  found : User → Found
  missing unreadable : Found

pub record TokenPair : Type 0 where
  pub access_token : Text
  pub refresh_token : Text

pub data Session : Type 0 where
  opened : TokenPair → Session
  denied : IamError → Session

-- What `CurrentUser` returns.
pub data CurrentUser : Type 0 where
  authenticated : User → List Text → CurrentUser
  no_user : IamError → CurrentUser

-- What the service calls, and what it finds there. `initialized` is `none` without an
-- authentication service; its value is `none` if the state cannot be read.
pub record Backend : Type 0 where
  pub find_by_email : Text → Found
  pub find_by_id : Text → Found
  pub permissions_for_user : Text → Option (List Text)
  pub initialized : Option (Option Bool)
  pub verify : Text → Text → Option Bool
  pub issue_access : Text → Option Text
  pub lower : Text → Text
  pub new_token : Option Text
  pub cache_fault : Bool

abbrev pub dummy_password_hash : Text
dummy_password_hash =
    codes
      "$argon2id$v=19$m=65536,t=3,p=2$AAAAAAAAAAAAAAAAAAAAAA$AAAAAAAAAAAAAAAAAAAAAAAAAAAAAAAAAAAAAAAAAAA"

module _ (hash : Text → Text) (b : Backend) where
  paired : Text → Keys × Reply → Keys × Session
  paired access (db, ok token) =
      (db, opened record { access_token = access; refresh_token = token })
  paired access (db, refused e) = (db, denied (refresh_failed e))

  pair_with : Option Text → Text → Keys → Keys × Session
  unfolding paired
  pair_with none user_id db = (db, denied fault)
  pair_with (some access) user_id db =
      paired access (issue hash b.cache_fault b.new_token user_id db)

  unfoldable pub issue_pair : Text → Keys → Keys × Session
  unfolding pair_with
  issue_pair user_id db = pair_with (b.issue_access user_id) user_id db

  -- `Login` after the user was looked up and the password checked.
  checked : Found → Option Bool → Keys → Keys × Session
  unfolding issue_pair
  checked missing v db = (db, denied invalid_credentials)
  checked unreadable v db = (db, denied fault)
  checked (found user) none db = (db, denied fault)
  checked (found user) (some false) db = (db, denied invalid_credentials)
  checked (found user) (some true) db =
      if user.active then issue_pair user.id db else (db, denied inactive_user)

  -- The hash that the password is checked against, also when there is no user.
  unfoldable pub hash_of : Found → Text
  hash_of (found user) = user.password_hash
  hash_of missing = dummy_password_hash
  hash_of unreadable = dummy_password_hash

  unfoldable pub login : Text → Text → Keys → Keys × Session
  unfolding checked hash_of
  login email password db =
      let user = b.find_by_email (b.lower (trim_space email)) in
      checked user (b.verify password (hash_of user)) db

  -- An error of `requireInitialized`.
  unfoldable pub require_initialized : Option IamError
  require_initialized = elim b.initialized [
    | none ↦ none
    | some none ↦ some fault
    | some (some true) ↦ none
    | some (some false) ↦ some invalid_credentials
  ]

  rotated_pair : Text → Option Text → Text → Keys → Keys × Session
  unfolding paired
  rotated_pair raw none user_id db = (db, denied fault)
  rotated_pair raw (some access) user_id db =
      paired access (rotate hash b.cache_fault raw b.new_token user_id db)

  refresh_user : Text → Text → Found → Keys → Keys × Session
  unfolding rotated_pair
  refresh_user raw user_id missing db = (db, denied (refresh_failed invalid_refresh_token))
  refresh_user raw user_id unreadable db = (db, denied fault)
  refresh_user raw user_id (found user) db =
      if user.active
      then rotated_pair raw (b.issue_access user_id) user_id db
      else (db, denied (refresh_failed invalid_refresh_token))

  refresh_reply : Text → Reply → Keys → Keys × Session
  unfolding refresh_user
  refresh_reply raw (refused e) db = (db, denied (refresh_failed e))
  refresh_reply raw (ok user_id) db = refresh_user raw user_id (b.find_by_id user_id) db

  refresh_from : Option IamError → Text → Keys → Keys × Session
  unfolding refresh_reply
  refresh_from (some e) raw db = (db, denied e)
  refresh_from none raw db = refresh_reply raw (lookup hash b.cache_fault raw db) db

  unfoldable pub refresh : Text → Keys → Keys × Session
  unfolding refresh_from require_initialized
  refresh raw db = refresh_from require_initialized raw db

  active_error : Found → Option IamError
  active_error missing = some not_found
  active_error unreadable = some fault
  active_error (found user) = if user.active then none else some inactive_user

  after_initialized : Option IamError → Text → Option IamError
  unfolding active_error
  after_initialized (some e) user_id = some e
  after_initialized none user_id = active_error (b.find_by_id user_id)

  unfoldable pub require_active_user : Text → Option IamError
  unfolding after_initialized require_initialized
  require_active_user user_id = after_initialized require_initialized user_id

  -- `Authorize` after the check of the user.
  permitted : Option (List Text) → Text → Option IamError
  permitted none required = some fault
  permitted (some p) required = if has_permission p required then none else some permission_denied

  after_active : Option IamError → Text → Text → Option IamError
  unfolding permitted
  after_active (some e) user_id required = some e
  after_active none user_id required = permitted (b.permissions_for_user user_id) required

  -- `none` where `Authorize` returns nil. The user is checked only with an authentication service.
  unfoldable pub authorize : Text → Text → Option IamError
  unfolding after_active require_active_user
  authorize user_id required = elim b.initialized [
    | none ↦ after_active none user_id required
    | some x ↦ after_active (require_active_user user_id) user_id required
  ]

  -- The permissions of `CurrentUser`; a repository's nil list is empty.
  with_permissions : User → Option (List Text) → CurrentUser
  with_permissions user none = no_user fault
  with_permissions user (some permissions) = authenticated user permissions

  current_found : Bool → Text → Found → CurrentUser
  unfolding with_permissions
  current_found has_rbac user_id missing = no_user not_found
  current_found has_rbac user_id unreadable = no_user fault
  current_found has_rbac user_id (found user) =
      if user.active
      then (if has_rbac
          then with_permissions user (b.permissions_for_user user_id)
          else authenticated user [])
      else no_user inactive_user

  current_from : Bool → Option IamError → Text → CurrentUser
  unfolding current_found
  current_from has_rbac (some e) user_id = no_user e
  current_from has_rbac none user_id = current_found has_rbac user_id (b.find_by_id user_id)

  -- `CurrentUser`; the first argument says whether there is a repository of permissions.
  unfoldable pub current_user : Bool → Text → CurrentUser
  unfolding current_from require_initialized
  current_user has_rbac user_id = current_from has_rbac require_initialized user_id
