-- ===== src/Iam/Service/Laws.antt =====
-- Who gets a session and who may act (service.go).
use backend_infrastructure_g.Base.{
  ◌≡◌, refl, sym, ap, ◌∙◌, subst, ◌↔◌, ◌⊎◌, inl, inr, Bool, true, false, Option, none, some, List,
  Text, text_eq_refl, trim_space, arith, Bool-cases, Option-cases,
}
use backend_infrastructure_g.Iam.Rbac.{has_permission}
use backend_infrastructure_g.Iam.Refresh.{Keys, issue, replace_script}
use backend_infrastructure_g.Iam.Service.{
  User, IamError, invalid_credentials, Found, found, missing, unreadable, TokenPair, opened, denied,
  Backend, issue_pair, checked, hash_of, login, paired, pair_with, authorize, after_active,
  permitted, require_active_user, require_initialized, after_initialized, active_error,
}

module _ (hash : Text → Text) (b : Backend) where
  -- The user whose session was opened.
  pub record HasLoggedIn (email password : Text) (pair : TokenPair) (db : Keys) : Type 0 where
    pub user : User
    pub known : b.find_by_email (b.lower (trim_space email)) ≡ found user
    pub right_password : b.verify password user.password_hash ≡ some true
    pub is_active : user.active ≡ true
    pub session : db.tokens (hash pair.refresh_token) ≡ some user.id

  issue-opened :
      (access user_id : Text) (db : Keys) (pair : TokenPair)
      → (paired hash b access (issue hash b.cache_fault b.new_token user_id db)).1 ≡ opened pair
      → (paired hash b access (issue hash b.cache_fault b.new_token user_id db)).0.tokens
          (hash pair.refresh_token)
        ≡ some user_id
  unfolding paired issue replace_script
  issue-opened access user_id db pair e = ground (arith, text_eq_refl (hash pair.refresh_token))

  pair_with-opened :
      (o : Option Text) (user_id : Text) (db : Keys) (pair : TokenPair)
      → (pair_with hash b o user_id db).1 ≡ opened pair
      → (pair_with hash b o user_id db).0.tokens (hash pair.refresh_token) ≡ some user_id
  unfolding pair_with
  pair_with-opened none user_id db pair e = cc
  pair_with-opened (some access) user_id db pair e = issue-opened access user_id db pair e

  pub issue_pair-opened :
      (user_id : Text) (db : Keys) (pair : TokenPair)
      → (issue_pair hash b user_id db).1 ≡ opened pair
      → (issue_pair hash b user_id db).0.tokens (hash pair.refresh_token) ≡ some user_id
  unfolding issue_pair
  issue_pair-opened user_id db pair e = pair_with-opened (b.issue_access user_id) user_id db pair e

  checked-opened :
      (f : Found) (v : Option Bool) (db : Keys) (pair : TokenPair)
      → (checked hash b f v db).1 ≡ opened pair
      → (user : User) × (f ≡ found user)
        × (v ≡ some true)
        × (user.active ≡ true)
        × ((checked hash b f v db).0.tokens (hash pair.refresh_token) ≡ some user.id)
  unfolding checked issue_pair
  checked-opened missing v db pair e = cc
  checked-opened unreadable v db pair e = cc
  checked-opened (found user) none db pair e = cc
  checked-opened (found user) (some false) db pair e = cc
  checked-opened (found user) (some true) db pair e = elim (Bool-cases user.active) [
    | inl active ↦ (
      user,
      refl,
      refl,
      active,
      rw active (pair_with-opened (b.issue_access user.id) user.id db pair (rw active at e)),
    )
    | inr inactive ↦ absurd (cc (rw inactive at e))
  ]

  -- If `Login` opens a session, the address belongs to a user whose password was checked and is the
  -- right one and who is active, and the new refresh token is that user's in the cache.
  pub login-HasLoggedIn :
      (email password : Text) (db : Keys) (pair : TokenPair)
      → (login hash b email password db).1 ≡ opened pair
      → HasLoggedIn email password pair (login hash b email password db).0
  unfolding login hash_of
  login-HasLoggedIn email password db pair e =
      let f = b.find_by_email (b.lower (trim_space email)) in
      let (user, known, right, active, session) =
        checked-opened f (b.verify password (hash_of hash b f)) db pair e in
      record {
        user = user;
        known = known;
        right_password = ap (λ x. b.verify password (hash_of hash b x)) (sym known) ∙ right;
        is_active = active;
        session = session;
      }

  -- A login with a wrong password and a login with an unknown address cannot be told apart: both
  -- return ErrInvalidCredentials and leave the cache as it is.
  pub login_indistinct :
      (email unknown password : Text) (user : User) (db : Keys)
      → b.find_by_email (b.lower (trim_space unknown)) ≡ missing
      → b.find_by_email (b.lower (trim_space email)) ≡ found user
      → b.verify password user.password_hash ≡ some false
      → (login hash b unknown password db ≡ (db, denied invalid_credentials))
        × (login hash b email password db ≡ (db, denied invalid_credentials))
  unfolding login checked hash_of
  login_indistinct email unknown password user db no_user known wrong =
      (rw no_user refl, rw (known, wrong) refl)

  active_error-none :
      (f : Found)
      → (active_error hash b f ≡ none) ↔ ((user : User) × (f ≡ found user) × (user.active ≡ true))
  unfolding active_error
  active_error-none missing = ((λ e. cc), λ h. cc (h.1))
  active_error-none unreadable = ((λ e. cc), λ h. cc (h.1))
  active_error-none (found user) =
      ((λ e. (user, refl, ground arith)), (λ h. let (u, same, active) = h in ground arith))

  permitted-none :
      (o : Option (List Text)) (required : Text)
      → (permitted hash b o required ≡ none)
        ↔ ((p : List Text) × (o ≡ some p) × (has_permission p required ≡ true))
  unfolding permitted
  permitted-none none required = ((λ e. cc), λ h. cc (h.1))
  permitted-none (some p) required =
      ((λ e. (p, refl, ground arith)), (λ h. let (q, same, yes_) = h in ground arith))

  -- An active user of a service that is initialized.
  abbrev pub IsActiveUser : Text → Type 0
  IsActiveUser user_id =
      (b.initialized ≡ some (some true))
      × ((user : User) × (b.find_by_id user_id ≡ found user) × (user.active ≡ true))

  require_active_user-none :
      (user_id : Text) (x : Option Bool)
      → b.initialized ≡ some x
      → (require_active_user hash b user_id ≡ none) ↔ IsActiveUser user_id
  unfolding require_active_user require_initialized after_initialized
  require_active_user-none user_id none e = rw e ((λ h. cc), λ h. cc (h.0))
  require_active_user-none user_id (some false) e = rw e ((λ h. cc), λ h. cc (h.0))
  require_active_user-none user_id (some true) e =
      let a = active_error-none (b.find_by_id user_id) in rw e ((λ h. (refl, a.0 h)), λ h. a.1 h.1)

  after_active-none :
      (o : Option IamError) (user_id required : Text)
      → (after_active hash b o user_id required ≡ none) ↔ (
          (o ≡ none)
          × ((p : List Text) × (b.permissions_for_user user_id ≡ some p)
              × (has_permission p required ≡ true)))
  unfolding after_active
  after_active-none (some x) user_id required = ((λ e. cc), λ h. cc (h.0))
  after_active-none none user_id required =
      let q = permitted-none (b.permissions_for_user user_id) required in
      ((λ e. (refl, q.0 e)), λ h. q.1 h.1)

  -- `Authorize` lets a user act exactly if the user's permissions can be read and cover the required
  -- one, and, in a service with an authentication service, if that is initialized and the user exists
  -- and is active.
  pub authorize-none_iff :
      (user_id required : Text)
      → (authorize hash b user_id required ≡ none) ↔ (
          ((b.initialized ≡ none) ⊎ IsActiveUser user_id)
          × ((p : List Text) × (b.permissions_for_user user_id ≡ some p)
              × (has_permission p required ≡ true)))
  unfolding authorize
  authorize-none_iff user_id required = elim (Option-cases b.initialized) [
    | inl without ↦
        let q = after_active-none none user_id required in
        rw (without, authorize) ((λ e. (inl refl, (q.0 e).1)), λ h. q.1 (refl, h.1))
    | inr (x, with_one) ↦
        let q = after_active-none (require_active_user hash b user_id) user_id required in
        let r = require_active_user-none user_id x with_one in
        subst
          (λ i.
            (elim i as (λ _. Option IamError) [
              | none ↦ after_active hash b none user_id required
              | some x ↦ after_active hash b (require_active_user hash b user_id) user_id required
            ]
              ≡ none)
            ↔ (((b.initialized ≡ none) ⊎ IsActiveUser user_id)
                × ((p : List Text) × (b.permissions_for_user user_id ≡ some p)
                    × (has_permission p required ≡ true))))
          (sym with_one)
          (
            (λ e. let h = q.0 e in (inr (r.0 h.0), h.1)),
            (λ h. q.1 (elim (h.0) [ inl no_one ↦ cc (no_one, with_one) | inr u ↦ r.1 u ], h.1)),
          )
  ]
