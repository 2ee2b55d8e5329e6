-- ===== src/Iam/Authentication/Factor/Changes.antt =====
-- What PutSecurity and Disable do to the second factor.
use backend_infrastructure_g.Base.{
  ◌+◌, ◌≡◌, refl, sym, ap, subst, ◌∙◌, ◌⊎◌, inl, inr, Bool, true, false, not, ◌&&◌, Option, none,
  some, List, [], Text, arith, ℤ, Bool-cases,
}
use backend_infrastructure_g.Iam.Refresh.Session.{
  Event, apply_all, IsLinked, apply_all-IsLinked, no_keys,
}
use backend_infrastructure_g.Iam.Service.{User, found}
use backend_infrastructure_g.Iam.Security.{Mode, SecurityState, totp_enabled}
use backend_infrastructure_g.Iam.Security.Edits.{with_mode, disabled}
use backend_infrastructure_g.Iam.Authentication.{done, World, Env, row_or_default}
use backend_infrastructure_g.Iam.Authentication.Login.Steps.{continue-done, raise_if-done}
use backend_infrastructure_g.Iam.Authentication.Login.Proof.{
  IsFactorProof, consume_proof-done, consume_proof-sessions,
}
use backend_infrastructure_g.Iam.Authentication.Login.Checks.{read_row-done}
use backend_infrastructure_g.Iam.Authentication.Factor.{
  is_totp, parse_mode, is_right, check_password, put_mode, put_security, remove_factor,
  disable_read, disable,
}
use backend_infrastructure_g.Iam.Authentication.Factor.Steps.{
  save-done, save-sessions, read_security-sessions, IsSignedOut, end_sessions-done,
  active_user-done,
}

module _ (env : Env) where
  -- The user has no factor.
  abbrev pub HasNoFactor : Text → World → Type 0
  HasNoFactor id w = (r : SecurityState) × (w.rows id ≡ some r) × (totp_enabled r ≡ false)

  abbrev pub IsProved : Text → SecurityState → Text → Text → Type 0
  IsProved id v code recovery =
      (step : ℤ) × (hash : Text) × IsFactorProof env id v code recovery step hash

  remove_factor-done :
      (id code recovery : Text) (v : SecurityState) (w w' : World) (u : Unit {0})
      → IsLinked env.hash w.sessions
      → remove_factor env id code recovery v w ≡ (w', done u)
      → HasNoFactor id w' × IsSignedOut env id w' × IsProved id v code recovery
  unfolding remove_factor
  remove_factor-done id code recovery v w w' u linked h =
      let (w1, u1, s1, h1) = continue-done _ _ h in
      let (step, hash, _, shown, _, _) = consume_proof-done env id v [] code recovery w w1 u1 s1 in
      let (w2, u2, s2, h2) = continue-done _ _ h1 in
      let (r, _, _, written) =
        save-done env id (disabled (v.version + 1)) (v.version + 1) w1 w2 u2 s2 in
      let linked' : IsLinked env.hash w2.sessions =
        subst (IsLinked env.hash)
          (sym (
            save-sessions env id (disabled (v.version + 1)) (v.version + 1) w1 w2 u2 s2
            ∙ consume_proof-sessions env id v [] code recovery w w1 u1 s1))
          linked in
      let (out, kept) = end_sessions-done env id w2 w' u linked' h2 in
      (
        (
          record (disabled (v.version + 1)) { version = r.version + 1 },
          ap (λ f. f id) kept ∙ written,
          refl,
        ),
        out,
        (step, hash, shown),
      )

  disable_read-done :
      (id code recovery : Text) (v : SecurityState) (w w' : World) (u : Unit {0})
      → w.rows id ≡ some v
      → IsLinked env.hash w.sessions
      → disable_read env id code recovery v w ≡ (w', done u)
      → HasNoFactor id w'
        × IsSignedOut env id w'
        × ((totp_enabled v ≡ false) ⊎ IsProved id v code recovery)
  unfolding disable_read
  disable_read-done id code recovery v w w' u there linked h = elim (Bool-cases (totp_enabled v)) [
    | inl on ↦
        let (gone, out, proved) =
          remove_factor-done id code recovery v w w' u linked (rw on at h) in
        (gone, out, inr proved)
    | inr off ↦
        let (out, kept) = end_sessions-done env id w w' u linked (rw off at h) in
        ((v, ap (λ f. f id) kept ∙ there, off), out, inl off)
  ]

  right_password : (o : Option Bool) → not (is_right env o) ≡ false → o ≡ some true
  right_password none h = absurd (ground arith)
  right_password (some b) h = ground arith

  stored-IsLinked : (es : List Event) → IsLinked env.hash (apply_all env.hash es (no_keys env.hash))
  stored-IsLinked es =
      apply_all-IsLinked env.hash es (no_keys env.hash) (λ token id e. absurd (cc e))

  -- If Disable returns nil, where the refresh tokens stand as any sequence of the scripts on them has
  -- left them, then the user exists and is active, the password is right, the user has no second
  -- factor and no refresh token afterwards, neither under the user's key nor as any token that names
  -- the user, and the factor was off before, or a TOTP step or a recovery code was shown.
  pub disable-HasNoFactor :
      (id password code recovery : Text) (w w' : World) (scripts : List Event)
      → w.sessions ≡ apply_all env.hash scripts (no_keys env.hash)
      → disable env id password code recovery w ≡ (w', done tt)
      → HasNoFactor id w'
        × IsSignedOut env id w'
        × ((totp_enabled (row_or_default (w.rows id)) ≡ false)
            ⊎ IsProved id (row_or_default (w.rows id)) code recovery)
        × ((user : User) × (env.backend.find_by_id id ≡ found user)
            × (user.active ≡ true)
            × (env.backend.verify password user.password_hash ≡ some true))
  unfolding disable check_password
  disable-HasNoFactor id password code recovery w w' scripts stored h =
      let (w1, user, s1, h1) = continue-done _ _ h in
      let (known, active, e1) = active_user-done env id w w1 user s1 in
      let (w2, u2, s2, h2) = continue-done _ _ h1 in
      let (right, e2) = raise_if-done _ _ w1 w2 u2 s2 in
      let (w3, v, s3, h3) = continue-done _ _ h2 in
      let (row, there, _) = read_row-done env id w2 w3 v s3 in
      let linked : IsLinked env.hash w3.sessions =
        subst (IsLinked env.hash)
          (sym (
            read_security-sessions env id w2 w3 v s3
            ∙ (ap (λ x. x.sessions) (sym (e1 ∙ e2)) ∙ stored)))
          (stored-IsLinked scripts) in
      let (gone, out, before) = disable_read-done id code recovery v w3 w' tt there linked h3 in
      let same : v ≡ row_or_default (w.rows id) =
        row ∙ ap (λ x. row_or_default (x.rows id)) (sym (e1 ∙ e2)) in
      (
        gone,
        out,
        subst (λ x. (totp_enabled x ≡ false) ⊎ IsProved id x code recovery) same before,
        (
          user,
          known,
          active,
          right_password (env.backend.verify password user.password_hash) right,
        ),
      )

  put_mode-done :
      (id : Text) (user : User) (v : SecurityState) (o : Option Mode) (w w' : World) (m : Mode)
      → w.rows id ≡ some v
      → put_mode env id user v o w ≡ (w', done m)
      → (o ≡ some m)
        × (is_totp m ≡ totp_enabled v)
        × (w'.rows id ≡ some (record v { mode = m; version = v.version + 1 }))
  unfolding put_mode
  put_mode-done id user v none w w' m there h = absurd (ground arith)
  put_mode-done id user v (some x) w w' m there h =
      let (w1, u1, s1, h1) = continue-done _ _ h in
      let (stays, e1) = raise_if-done (totp_enabled v && not (is_totp x)) _ w w1 u1 s1 in
      let (w2, u2, s2, h2) = continue-done _ _ h1 in
      let (_, e2) = raise_if-done _ _ w1 w2 u2 s2 in
      let (w3, u3, s3, h3) = continue-done _ _ h2 in
      let (starts, e3) = raise_if-done (is_totp x && not (totp_enabled v)) _ w2 w3 u3 s3 in
      let (w4, u4, s4, h4) = continue-done _ _ h3 in
      let (r, row, same, written) = save-done env id (with_mode x v) v.version w3 w4 u4 s4 in
      let is_x : x ≡ m = ground arith in
      let last : w4 ≡ w' = ground arith in
      (
        ap some is_x,
        ap is_totp (sym is_x) ∙ ground arith,
        ap (λ y. y.rows id) (sym last)
            ∙ (written
                ∙ (ap (λ n. some (record v { mode = x; version = n + 1 })) same
                    ∙ ap (λ y. some (record v { mode = y; version = v.version + 1 })) is_x)),
      )

  -- If PutSecurity accepts a mode, it is one of the three, it is totp exactly if the user has a
  -- factor, and the user's settings are as they were but for the mode and the next version.
  pub put_security-done :
      (id mode : Text) (w w' : World) (m : Mode)
      → put_security env id mode w ≡ (w', done m)
      → (parse_mode mode ≡ some m)
        × (is_totp m ≡ totp_enabled (row_or_default (w.rows id)))
        × (w'.rows id
            ≡ some (record (row_or_default (w.rows id)) {
              mode = m;
              version = (row_or_default (w.rows id)).version + 1;
            }))
  unfolding put_security
  put_security-done id mode w w' m h =
      let (w1, user, s1, h1) = continue-done _ _ h in
      let (_, _, e1) = active_user-done env id w w1 user s1 in
      let (w2, v, s2, h2) = continue-done _ _ h1 in
      let (row, there, _) = read_row-done env id w1 w2 v s2 in
      let (parsed, factor, written) = put_mode-done id user v (parse_mode mode) w2 w' m there h2 in
      let same : v ≡ row_or_default (w.rows id) =
        row ∙ ap (λ x. row_or_default (x.rows id)) (sym e1) in
      (
        parsed,
        factor ∙ ap totp_enabled same,
        written
            ∙ ap (λ (x : SecurityState). some (record x { mode = m; version = x.version + 1 }))
                same,
      )
