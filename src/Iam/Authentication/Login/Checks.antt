-- ===== src/Iam/Authentication/Login/Checks.antt =====
-- The checks of VerifyLogin around the proof of the second factor.
use backend_infrastructure_g.Base.{
  ◌≡◌, refl, sym, ap, subst, ◌∙◌, inl, inr, true, false, not, ◌||◌, ◌==◌, none, some, Text, arith,
  set, set_same, ℤ, Bool-cases,
}
use backend_infrastructure_g.Iam.Service.{User, Found, found, missing, unreadable, TokenPair}
use backend_infrastructure_g.Iam.AuthCache.{Result, ok, failed}
use backend_infrastructure_g.Iam.AuthCache.Attempts.{Challenge, attempt}
use backend_infrastructure_g.Iam.Security.{
  Mode, default_mode, email, totp, SecurityState, totp_enabled, consume_credential,
}
use backend_infrastructure_g.Iam.Authentication.{
  done, World, Env, clocks, row_or_default, of_cache, read_security, attempt_challenge,
}
use backend_infrastructure_g.Iam.Authentication.Login.{
  is_totp, find_challenged, challenged_user, finish_login, verify_factor,
}
use backend_infrastructure_g.Iam.Authentication.Login.Steps.{
  continue-done, raise_if-done, open_session-done, ends,
}
use backend_infrastructure_g.Iam.Authentication.Login.Sessions.{IsSessionOf}
use backend_infrastructure_g.Iam.Authentication.Login.Proof.{IsFactorProof, consume_proof-done}

attempted :
    (o : Result Challenge) (w w1 : World) (c : Challenge)
    → ends w (of_cache o) ≡ (w1, done c)
    → (o ≡ ok c) × (w ≡ w1)
attempted (ok x) w w1 c h = (ground arith, ap (λ x. x.0) h)
attempted (failed e) w w1 c h = absurd (ground arith)

is_totp_sound : (m : Mode) → is_totp m ≡ true → m ≡ totp
is_totp_sound default_mode h = absurd (ground arith)
is_totp_sound email h = absurd (ground arith)
is_totp_sound totp h = refl

module _ (env : Env) where
  pub attempt_challenge-done :
      (id : Text) (w w1 : World) (c : Challenge)
      → attempt_challenge env id w ≡ (w1, done c)
      → ((attempt env.store env.attempt_fault env.redis_now id w.challenges).1 ≡ ok c)
        × (w1.settings ≡ w.settings)
        × (w1.rows ≡ w.rows)
        × (w1.consumptions ≡ w.consumptions)
  unfolding attempt_challenge
  attempt_challenge-done id w w1 c h =
      let r = attempt env.store env.attempt_fault env.redis_now id w.challenges in
      let (given, same) = attempted r.1 (record w { challenges = r.0 }) w1 c h in
      (
        given,
        ap (λ x. x.settings) (sym same),
        ap (λ x. x.rows) (sym same),
        ap (λ x. x.consumptions) (sym same),
      )

  challenged :
      (f : Found) (w w1 : World) (user : User)
      → ends w (challenged_user env f) ≡ (w1, done user)
      → (f ≡ found user) × (user.active ≡ true) × (w ≡ w1)
  unfolding challenged_user
  challenged missing w w1 user h = absurd (ground arith)
  challenged unreadable w w1 user h = absurd (ground arith)
  challenged (found x) w w1 user h = elim (Bool-cases x.active) [
    | inl active ↦ (ground arith, ground arith, ground arith)
    | inr inactive ↦ absurd (ground arith)
  ]

  pub find_challenged-done :
      (id : Text) (w w1 : World) (user : User)
      → find_challenged env id w ≡ (w1, done user)
      → (env.backend.find_by_id id ≡ found user) × (user.active ≡ true) × (w ≡ w1)
  unfolding find_challenged
  find_challenged-done id w w1 user h = challenged (env.backend.find_by_id id) w w1 user h

  -- The row that was read is the row that is there.
  pub read_row-done :
      (id : Text) (w w1 : World) (v : SecurityState)
      → read_security env id w ≡ (w1, done v)
      → (v ≡ row_or_default (w.rows id))
        × (w1.rows id ≡ some v)
        × (w1.consumptions ≡ w.consumptions)
  unfolding read_security
  read_row-done id w w1 v h = elim (Bool-cases env.security_fault) [
    | inl broken ↦ absurd (ground arith)
    | inr reads ↦
        let same : v ≡ row_or_default (w.rows id) = ground arith in
        let written : w1.rows ≡ set id (row_or_default (w.rows id)) w.rows = ground arith in
        (
          same,
          ap (λ f. f id) written
              ∙ (set_same id (row_or_default (w.rows id)) w.rows ∙ ap some (sym same)),
          ground arith,
        )
  ]

  finish_login-session :
      (user : User) (v : SecurityState) (id code recovery : Text) (w w' : World) (pair : TokenPair)
      → finish_login env user v id code recovery w ≡ (w', done pair)
      → ((step : ℤ) × (hash : Text) × (r : SecurityState) × IsFactorProof env user.id v code
            recovery step hash
          × (w.rows user.id ≡ some r)
          × ((consume_credential env.write_fault
                (clocks env)
                id
                v.version
                step
                hash
                record { row = r; consumptions = w.consumptions }).1
              ≡ none))
        × IsSessionOf env user.id pair w'
  unfolding finish_login
  finish_login-session user v id code recovery w w' pair h =
      let (w1, u1, s1, h1) = continue-done _ _ h in
      let (w2, u2, s2, h2) = continue-done _ _ h1 in
      (
        consume_proof-done env user.id v id code recovery w w1 u1 s1,
        (open_session-done env user.id w2 w' pair h2).0,
      )

  -- The user's settings are those of the challenge, and the proof of the factor was spent in the
  -- database together with the challenge.
  abbrev pub IsVerified : Challenge → User → Text → Text → Text → World → Type 0
  IsVerified c user id code recovery w =
      (v : SecurityState) × (step : ℤ) × (hash : Text) × (v ≡ row_or_default (w.rows user.id))
      × (v.mode ≡ totp)
      × (v.version ≡ c.version)
      × IsFactorProof env user.id v code recovery step hash
      × ((consume_credential env.write_fault (clocks env) id v.version step hash
            record { row = v; consumptions = w.consumptions }).1
          ≡ none)

  current_settings :
      (v : SecurityState) (c : Challenge)
      → (not (is_totp v.mode) || not (totp_enabled v) || not (v.version == c.version)) ≡ false
      → (is_totp v.mode ≡ true) × (v.version ≡ c.version)
  current_settings v c h = (ground arith, ground arith)

  spent_row :
      (id credential : Text) (v r : SecurityState) (step : ℤ) (hash : Text) (w w1 : World)
      → w1.rows id ≡ some v
      → w1.rows id ≡ some r
      → w1.consumptions ≡ w.consumptions
      → (consume_credential env.write_fault
          (clocks env)
          credential
          v.version
          step
          hash
          record { row = r; consumptions = w1.consumptions }).1
        ≡ none
      → (consume_credential env.write_fault
          (clocks env)
          credential
          v.version
          step
          hash
          record { row = v; consumptions = w.consumptions }).1
        ≡ none
  spent_row id credential v r step hash w w1 there row kept accepted =
      let same : r ≡ v = ground arith in
      subst
        (λ x.
          (consume_credential env.write_fault (clocks env) credential v.version step hash
            record { row = x; consumptions = w.consumptions }).1
          ≡ none)
        same
        (subst
          (λ x.
            (consume_credential env.write_fault (clocks env) credential v.version step hash
              record { row = r; consumptions = x }).1
            ≡ none)
          kept accepted)

  pub verify_factor-session :
      (c : Challenge) (user : User) (id code recovery : Text) (w w' : World) (pair : TokenPair)
      → verify_factor env c user id code recovery w ≡ (w', done pair)
      → IsVerified c user id code recovery w × IsSessionOf env user.id pair w'
  unfolding verify_factor
  verify_factor-session c user id code recovery w w' pair h =
      let (w1, v, s1, h1) = continue-done _ _ h in
      let (row, there, kept) = read_row-done user.id w w1 v s1 in
      let (w2, u2, s2, h2) = continue-done _ _ h1 in
      let (checks, e2) =
        raise_if-done (not (is_totp v.mode) || not (totp_enabled v) || not (v.version == c.version))
          _ w1 w2 u2 s2 in
      let (mode, version) = current_settings v c checks in
      let runs : finish_login env user v id code recovery w1 ≡ (w', done pair) =
        subst (λ x. finish_login env user v id code recovery x ≡ (w', done pair)) (sym e2) h2 in
      let ((step, hash, r, shown, there', accepted), opens) =
        finish_login-session user v id code recovery w1 w' pair runs in
      (
        (
          v,
          step,
          hash,
          row,
          is_totp_sound v.mode mode,
          version,
          shown,
          spent_row user.id id v r step hash w w1 there there' kept accepted,
        ),
        opens,
      )
