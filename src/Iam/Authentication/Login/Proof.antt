-- ===== src/Iam/Authentication/Login/Proof.antt =====
-- The proof of a second factor that VerifyLogin accepted.
use backend_infrastructure_g.Base.{
  ℕ, ◌≡◌, refl, sym, ap, ◌∙◌, ◌⊎◌, inl, inr, true, not, Option, none, some, [], ◌∷◌, Text, arith, ℤ,
}
use backend_infrastructure_g.Iam.Service.{fault}
use backend_infrastructure_g.Iam.Security.{
  SecurityState, holds_hash, Store, SecurityError, consume_credential,
}
use backend_infrastructure_g.Iam.Authentication.{
  AuthError, iam, Outcome, done, raised, World, Env, clocks, on_row, in_store, consume,
}
use backend_infrastructure_g.Iam.Authentication.Login.{
  consume_proof, prove, prove_totp, proved_step, proved_secret,
}
use backend_infrastructure_g.Iam.Authentication.Login.Steps.{continue-done, raise_if-done}

-- The database accepted the consumption.
in_store-done :
    (id : Text) (w w1 : World) (r : Store × Option SecurityError) (u : Unit {0})
    → in_store id w r ≡ (w1, done u)
    → r.1 ≡ none
unfolding in_store
in_store-done id w w1 (s, none) u h = refl
in_store-done id w w1 (s, some x) u h = absurd (ground arith)

on_row-done :
    (id : Text) (e : AuthError) (f : Store → Store × Option SecurityError)
    (o : Option SecurityState) (w w1 : World) (u : Unit {0})
    → on_row id e f o w ≡ (w1, done u)
    → (r : SecurityState) × (o ≡ some r)
      × ((f record { row = r; consumptions = w.consumptions }).1 ≡ none)
unfolding on_row
on_row-done id e f none w w1 u h = absurd (ground arith)
on_row-done id e f (some r) w w1 u h =
    (r, refl, in_store-done id w w1 (f record { row = r; consumptions = w.consumptions }) u h)

-- A transaction on a user's row leaves the sessions.
in_store-sessions :
    (id : Text) (w : World) (r : Store × Option SecurityError)
    → (in_store id w r).0.sessions ≡ w.sessions
unfolding in_store
in_store-sessions id w (s, none) = refl
in_store-sessions id w (s, some x) = refl

pub on_row-sessions :
    (id : Text) (e : AuthError) (f : Store → Store × Option SecurityError)
    (o : Option SecurityState) (w : World)
    → (on_row id e f o w).0.sessions ≡ w.sessions
unfolding on_row
on_row-sessions id e f none w = refl
on_row-sessions id e f (some r) w =
    in_store-sessions id w (f record { row = r; consumptions = w.consumptions })

module _ (env : Env) where
  -- What was shown of the second factor: a TOTP step of the user's secret after the last one, or a
  -- recovery code.
  abbrev pub IsFactorProof : Text → SecurityState → Text → Text → ℤ → Text → Type 0
  IsFactorProof id v code recovery step hash =
      ((secret : Text) × (env.decrypt v.secret id ≡ done secret)
        × (env.totp_step secret code env.now v.last_totp_step ≡ done step)
        × (hash ≡ []))
      ⊎ ((hash ≡ env.recovery_hash recovery) × (holds_hash hash v.recovery_hashes ≡ true))

  proved_step-done :
      (o : Outcome ℤ) (p : ℤ × Text) → proved_step env o ≡ done p → (o ≡ done p.0) × (p.1 ≡ [])
  unfolding proved_step
  proved_step-done (done step) p h = (ground arith, ground arith)
  proved_step-done (raised e) p h = absurd (ground arith)

  proved_secret-done :
      (v : SecurityState) (code : Text) (o : Outcome Text) (p : ℤ × Text)
      → proved_secret env v code o ≡ done p
      → (secret : Text) × (o ≡ done secret)
        × (env.totp_step secret code env.now v.last_totp_step ≡ done p.0)
        × (p.1 ≡ [])
  unfolding proved_secret
  proved_secret-done v code (done secret) p h =
      let (proved, empty) =
        proved_step-done (env.totp_step secret code env.now v.last_totp_step) p h in
      (secret, refl, proved, empty)
  proved_secret-done v code (raised e) p h = absurd (ground arith)

  prove_totp-done :
      (id : Text) (v : SecurityState) (code : Text) (w w1 : World) (p : ℤ × Text)
      → prove_totp env id v code w ≡ (w1, done p)
      → ((secret : Text) × (env.decrypt v.secret id ≡ done secret)
          × (env.totp_step secret code env.now v.last_totp_step ≡ done p.0)
          × (p.1 ≡ []))
        × (w ≡ w1)
  unfolding prove_totp
  prove_totp-done id v code w w1 p h =
      (proved_secret-done v code (env.decrypt v.secret id) p (ap (λ x. x.1) h), ap (λ x. x.0) h)

  prove-done :
      (id : Text) (v : SecurityState) (code recovery : Text) (w w1 : World) (p : ℤ × Text)
      → prove env id v code recovery w ≡ (w1, done p)
      → IsFactorProof id v code recovery p.0 p.1 × (w ≡ w1)
  unfolding prove
  prove-done id v (c ∷ code) recovery w w1 p h =
      let (shown, same) = prove_totp-done id v (c ∷ code) w w1 p h in (inl shown, same)
  prove-done id v [] recovery w w1 p h =
      let (w2, u2, s2, h2) = continue-done _ _ h in
      let (_, e2) = raise_if-done _ _ w w2 u2 s2 in
      let (w3, u3, s3, h3) = continue-done _ _ h2 in
      let (held, e3) =
        raise_if-done (not (holds_hash (env.recovery_hash recovery) v.recovery_hashes)) _ w2 w3 u3
          s3 in
      let is_hash : p.1 ≡ env.recovery_hash recovery = ground arith in
      let same : w3 ≡ w1 = ground arith in
      (inr (is_hash, rw is_hash (ground arith)), e2 ∙ e3 ∙ same)

  consume-done :
      (id credential : Text) (version : ℕ) (step : ℤ) (hash : Text) (w w' : World) (u : Unit {0})
      → consume env id credential version step hash w ≡ (w', done u)
      → (r : SecurityState) × (w.rows id ≡ some r)
        × ((consume_credential env.write_fault
              (clocks env)
              credential
              version
              step
              hash
              record { row = r; consumptions = w.consumptions }).1
            ≡ none)
  unfolding consume
  consume-done id credential version step hash w w' u h =
      on_row-done id (iam fault)
        (consume_credential env.write_fault (clocks env) credential version step hash) (w.rows id) w
        w' u h

  pub consume_proof-done :
      (id : Text) (v : SecurityState) (credential code recovery : Text) (w w' : World)
      (u : Unit {0})
      → consume_proof env id v credential code recovery w ≡ (w', done u)
      → (step : ℤ) × (hash : Text) × (r : SecurityState) × IsFactorProof id v code recovery step
          hash
        × (w.rows id ≡ some r)
        × ((consume_credential env.write_fault
              (clocks env)
              credential
              v.version
              step
              hash
              record { row = r; consumptions = w.consumptions }).1
            ≡ none)
  unfolding consume_proof
  consume_proof-done id v credential code recovery w w' u h =
      let (w1, u1, s1, h1) = continue-done _ _ h in
      let (_, e1) = raise_if-done _ _ w w1 u1 s1 in
      let (w2, proof, s2, h2) = continue-done _ _ h1 in
      let (shown, e2) = prove-done id v code recovery w1 w2 proof s2 in
      let (r, row, accepted) = consume-done id credential v.version proof.0 proof.1 w2 w' u h2 in
      (
        proof.0,
        proof.1,
        r,
        shown,
        ap (λ x. x.rows id) (e1 ∙ e2) ∙ row,
        ap
              (λ x.
                (consume_credential env.write_fault (clocks env) credential v.version proof.0
                  proof.1 record { row = r; consumptions = x.consumptions }).1)
              (e1 ∙ e2)
            ∙ accepted,
      )

  pub consume_proof-sessions :
      (id : Text) (v : SecurityState) (credential code recovery : Text) (w w' : World)
      (u : Unit {0})
      → consume_proof env id v credential code recovery w ≡ (w', done u)
      → w'.sessions ≡ w.sessions
  unfolding consume_proof consume
  consume_proof-sessions id v credential code recovery w w' u h =
      let (w1, u1, s1, h1) = continue-done _ _ h in
      let (_, e1) = raise_if-done _ _ w w1 u1 s1 in
      let (w2, proof, s2, h2) = continue-done _ _ h1 in
      let (_, e2) = prove-done id v code recovery w1 w2 proof s2 in
      ap (λ x. x.0.sessions) (sym h2)
      ∙ (on_row-sessions id (iam fault)
            (consume_credential env.write_fault (clocks env) credential v.version proof.0 proof.1)
            (w2.rows id) w2
          ∙ ap (λ x. x.sessions) (sym (e1 ∙ e2)))
