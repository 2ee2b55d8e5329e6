-- ===== src/Iam/Authentication/Factor/Steps.antt =====
-- Steps of PutSecurity and Disable that came to their end.
use backend_infrastructure_g.Base.{
  ℕ, ◌+◌, ◌≡◌, ◌≢◌, refl, sym, ap, ◌∙◌, inl, inr, true, not, Option, none, some, Text, text_eq_refl,
  arith, set_same, Option-cases, Bool-cases,
}
use backend_infrastructure_g.Iam.Refresh.{Keys, RefreshError, revoke_all, revoke_all_script}
use backend_infrastructure_g.Iam.Service.{
  User, Found, found, missing, unreadable, invalid_credentials, fault,
}
use backend_infrastructure_g.Iam.Security.{SecurityState, Store, SecurityError, save_security}
use backend_infrastructure_g.Iam.Security.Snapshots.{save_security-none}
use backend_infrastructure_g.Iam.Authentication.{
  AuthError, Outcome, done, raised, AuthenticationState, World, Env, raise_if, continue,
  row_or_default, of_refresh_error, on_row, in_store, find_user, read_security, save, end_sessions,
}
use backend_infrastructure_g.Iam.Authentication.Login.Steps.{
  continue-done, raise_if-done, read_state-done, ends,
}
use backend_infrastructure_g.Iam.Refresh.Session.{IsLinked, revoke_all_script-IsLinked}
use backend_infrastructure_g.Iam.Authentication.Login.Proof.{on_row-sessions}
use backend_infrastructure_g.Iam.Authentication.Factor.{require_initialized, active_user}

in_store-row :
    (id : Text) (w w1 : World) (r : Store × Option SecurityError) (u : Unit {0})
    → in_store id w r ≡ (w1, done u)
    → (r.1 ≡ none) × (w1.rows id ≡ some r.0.row)
unfolding in_store
in_store-row id w w1 (s, none) u h =
    (refl, ap (λ x. x.0.rows id) (sym h) ∙ set_same id s.row w.rows)
in_store-row id w w1 (s, some x) u h = absurd (ground arith)

on_row-row :
    (id : Text) (e : AuthError) (f : Store → Store × Option SecurityError)
    (o : Option SecurityState) (w w1 : World) (u : Unit {0})
    → on_row id e f o w ≡ (w1, done u)
    → (r : SecurityState) × (o ≡ some r)
      × ((f record { row = r; consumptions = w.consumptions }).1 ≡ none)
      × (w1.rows id ≡ some (f record { row = r; consumptions = w.consumptions }).0.row)
unfolding on_row
on_row-row id e f none w w1 u h = absurd (ground arith)
on_row-row id e f (some r) w w1 u h =
    let (saved, row) =
      in_store-row id w w1 (f record { row = r; consumptions = w.consumptions }) u h in
    (r, refl, saved, row)

module _ (env : Env) where
  -- A save found the version that it names, and wrote the state with the next one.
  pub save-done :
      (id : Text) (v : SecurityState) (version : ℕ) (w w1 : World) (u : Unit {0})
      → save env id v version w ≡ (w1, done u)
      → (r : SecurityState) × (w.rows id ≡ some r)
        × (r.version ≡ version)
        × (w1.rows id ≡ some (record v { version = r.version + 1 }))
  unfolding save
  save-done id v version w w1 u h =
      let (r, there, saved, row) =
        on_row-row id _ (save_security env.write_fault (env.verified_now id) v version) (w.rows id)
          w w1 u h in
      let (same, written) =
        save_security-none env.write_fault (env.verified_now id) v version
          record { row = r; consumptions = w.consumptions } saved in
      (r, there, same, row ∙ ap (λ s. some s.row) written)

  revoked :
      (o : Option RefreshError) (w w1 : World) (u : Unit {0})
      → ends w (of_refresh_error o) ≡ (w1, done u)
      → (o ≡ none) × (w ≡ w1)
  revoked none w w1 u h = (refl, ap (λ x. x.0) h)
  revoked (some e) w w1 u h = absurd (ground arith)

  -- Saves and reads of the settings leave the sessions.
  pub save-sessions :
      (id : Text) (v : SecurityState) (version : ℕ) (w w1 : World) (u : Unit {0})
      → save env id v version w ≡ (w1, done u)
      → w1.sessions ≡ w.sessions
  unfolding save
  save-sessions id v version w w1 u h =
      ap (λ x. x.0.sessions) (sym h)
      ∙ on_row-sessions id _ (save_security env.write_fault (env.verified_now id) v version)
          (w.rows id) w

  pub read_security-sessions :
      (id : Text) (w w1 : World) (v : SecurityState)
      → read_security env id w ≡ (w1, done v)
      → w1.sessions ≡ w.sessions
  unfolding read_security
  read_security-sessions id w w1 v h = elim (Bool-cases env.security_fault) [
    | inl broken ↦ absurd (ground arith)
    | inr reads ↦ ground arith
  ]

  -- No refresh token is left to the user: the user's key is gone, and no token names the user.
  abbrev pub IsSignedOut : Text → World → Type 0
  IsSignedOut id w =
      (w.sessions.users (env.hash id) ≡ none) × ((token : Text) → w.sessions.tokens token ≢ some id)

  revoke_all-users :
      (id : Text) (db : Keys) → (revoke_all_script (env.hash id) db).users (env.hash id) ≡ none
  unfolding revoke_all_script
  revoke_all-users id db = elim (Option-cases (db.users (env.hash id))) [
    | inl no_one ↦ ground arith
    | inr (token, held) ↦ ground (arith, text_eq_refl (env.hash id))
  ]

  revoke_all-done :
      (id : Text) (db : Keys)
      → (revoke_all env.hash env.backend.cache_fault id db).1 ≡ none
      → (revoke_all env.hash env.backend.cache_fault id db).0 ≡ revoke_all_script (env.hash id) db
  unfolding revoke_all
  revoke_all-done id db h = ground arith

  signed_out :
      (id : Text) (w : World) (db : Keys)
      → IsLinked env.hash db
      → w.sessions ≡ revoke_all_script (env.hash id) db
      → IsSignedOut id w
  signed_out id w db linked e = rw e (
    revoke_all-users id db,
    (λ token h.
        let named = revoke_all_script-IsLinked env.hash id db linked token id h in
        cc (revoke_all-users id db, named)),
  )

  pub end_sessions-done :
      (id : Text) (w w1 : World) (u : Unit {0})
      → IsLinked env.hash w.sessions
      → end_sessions env id w ≡ (w1, done u)
      → IsSignedOut id w1 × (w1.rows ≡ w.rows)
  unfolding end_sessions
  end_sessions-done id w w1 u linked h =
      let r = revoke_all env.hash env.backend.cache_fault id w.sessions in
      let (ran, same) = revoked r.1 (record w { sessions = r.0 }) w1 u h in
      (
        signed_out id w1 w.sessions linked
            (ap (λ x. x.sessions) (sym same) ∙ revoke_all-done id w.sessions ran),
        ap (λ x. x.rows) (sym same),
      )

  found_user :
      (f : Found) (w w1 : World) (user : User)
      → ends w (elim f [
        | found x ↦ done x
        | missing ↦ raised (
            backend_infrastructure_g.Iam.Authentication.iam
              backend_infrastructure_g.Iam.Service.not_found)
        | unreadable ↦ raised (backend_infrastructure_g.Iam.Authentication.iam fault)
      ])
        ≡ (w1, done user)
      → (f ≡ found user) × (w ≡ w1)
  found_user (found x) w w1 user h = (ground arith, ap (λ x. x.0) h)
  found_user missing w w1 user h = absurd (ground arith)
  found_user unreadable w w1 user h = absurd (ground arith)

  pub active_user-done :
      (id : Text) (w w1 : World) (user : User)
      → active_user env id w ≡ (w1, done user)
      → (env.backend.find_by_id id ≡ found user) × (user.active ≡ true) × (w ≡ w1)
  unfolding active_user require_initialized find_user
  active_user-done id w w1 user h =
      let (w2, u2, s2, h2) = continue-done _ _ h in
      let (w3, state, s3, h3) = continue-done _ _ s2 in
      let (_, e3) = read_state-done env w w3 state s3 in
      let (_, e2) = raise_if-done _ _ w3 w2 u2 h3 in
      let (w4, x, s4, h4) = continue-done _ _ h2 in
      let (known, e4) = found_user (env.backend.find_by_id id) w2 w4 x s4 in
      let (w5, u5, s5, h5) = continue-done _ _ h4 in
      let (active, e5) = raise_if-done (not x.active) _ w4 w5 u5 s5 in
      let same : x ≡ user = ground arith in
      let last : w5 ≡ w1 = ground arith in
      (
        known ∙ ap found same,
        ap (λ y. y.active) (sym same) ∙ ground arith,
        e3 ∙ e2 ∙ e4 ∙ e5 ∙ last,
      )
