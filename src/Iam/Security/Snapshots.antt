-- ===== src/Iam/Security/Snapshots.antt =====
-- Requests that read the settings, think, and save them, interleaved in any way.
use backend_infrastructure_g.Base.{
  ℕ, zero, suc, ◌+◌, ◌≡◌, refl, sym, ap, subst, ◌∙◌, ◌<◌, ◌⊎◌, inl, inr, Bool, true, Option, none,
  some, List, [], ◌∷◌, Text, ℤ, All, All-imp, arith, Option-cases,
}
use backend_infrastructure_g.Iam.Security.{
  SecurityState, Store, Clocks, SecurityError, record_consumption, save_security,
  insert_consumption, spend, consume_credential, invalidate_password_credentials,
}
use backend_infrastructure_g.Iam.Security.Edits.{Edit, apply_edit, disabled}

-- The store, and the states that requests have read and not let go of.
pub record System : Type 0 where
  pub store : Store
  pub snapshots : List SecurityState

-- One statement or transaction: a read; a save of an edited snapshot, with what the database knows
-- of the user's address; the saving end of `Disable`; the consumption of a proof; a new password;
-- and what other transactions do to authentication_consumptions, which ConsumeCredential for other
-- users, Register and VerifyEmail prune by the database's clock and insert into.
pub data Event : Type 0 where
  reads : Event
  saves : Bool → Bool → ℕ → Edit → Event
  disables : Bool → ℕ → Event
  consumes : Bool → Clocks → Text → ℕ → ℤ → Text → Event
  invalidates : Event
  elsewhere : ℤ → Text → ℤ → Event

unfoldable pub nth : ℕ → List SecurityState → Option SecurityState
nth k [] = none
nth zero (v ∷ vs) = some v
nth (suc k) (v ∷ vs) = nth k vs

-- The save of a snapshot, if the request holds one.
unfoldable pub save_snapshot :
    Bool → Bool → Edit → Option SecurityState → Store → Store × Option SecurityError
unfolding save_security
save_snapshot fault verified e none s = (s, none)
save_snapshot fault verified e (some v) s =
    save_security fault verified (apply_edit e v) v.version s

-- The table after a transaction that may have ended without a change.
abbrev pub or_same : List (Text × ℤ) → Option (List (Text × ℤ)) → List (Text × ℤ)
or_same cs none = cs
or_same cs (some cs') = cs'

unfoldable pub step : Event → System → System
unfolding save_snapshot
step reads s = record s { snapshots = s.store.row ∷ s.snapshots }
step (saves fault verified k e) s = record s {
  store = (save_snapshot fault verified e (nth k s.snapshots) s.store).0;
}
step (disables fault version) s = record s {
  store = (save_security fault true (disabled version) version s.store).0;
}
step (consumes fault now credential version totp_step recovery) s = record s {
  store = (consume_credential fault now credential version totp_step recovery s.store).0;
}
step invalidates s = record s { store = invalidate_password_credentials s.store }
step (elsewhere database_now c expires_at) s = record s {
  store = record (s.store) {
    consumptions =
        or_same s.store.consumptions
          (record_consumption database_now c expires_at s.store.consumptions);
  };
}

unfoldable pub run : List Event → System → System
run [] s = s
run (e ∷ es) s = run es (step e s)

-- A snapshot is the row, or the row has moved on to a later version.
abbrev pub IsCurrent : SecurityState → SecurityState → Type 0
IsCurrent row v = (v.version < row.version) ⊎ (v ≡ row)

abbrev pub AllCurrent : System → Type 0
AllCurrent s = All (IsCurrent s.store.row) s.snapshots

-- A row that stays, or gets a later version.
abbrev pub Advances : SecurityState → SecurityState → Type 0
Advances row row' = (row' ≡ row) ⊎ (row.version < row'.version)

-- A save that is refused changes nothing.
pub save_security-error :
    (fault verified : Bool) (v : SecurityState) (version : ℕ) (s : Store) {x : SecurityError}
    → (save_security fault verified v version s).1 ≡ some x
    → (save_security fault verified v version s).0 ≡ s
unfolding save_security
save_security-error fault verified v version s e = ground arith

-- A save that is accepted found the version, and wrote the state with the next one.
pub save_security-none :
    (fault verified : Bool) (v : SecurityState) (version : ℕ) (s : Store)
    → (save_security fault verified v version s).1 ≡ none
    → (s.row.version ≡ version)
      × ((save_security fault verified v version s).0
          ≡ record s { row = record v { version = s.row.version + 1 } })
unfolding save_security
save_security-none fault verified v version s e = (ground arith, ground arith)

save_security-Advances :
    (fault verified : Bool) (v : SecurityState) (version : ℕ) (s : Store)
    → Advances s.row (save_security fault verified v version s).0.row
save_security-Advances fault verified v version s =
    elim (Option-cases (save_security fault verified v version s).1) [
      | inl saved ↦ inr (rw ((save_security-none fault verified v version s saved).1) (omega arith))
      | inr (x, refused) ↦
          inl (ap (λ t. t.row) (save_security-error fault verified v version s refused))
    ]

pub consume_credential-error :
    (fault : Bool) (now : Clocks) (credential : Text) (version : ℕ) (totp_step : ℤ)
    (recovery : Text) (s : Store) {x : SecurityError}
    → (consume_credential fault now credential version totp_step recovery s).1 ≡ some x
    → (consume_credential fault now credential version totp_step recovery s).0 ≡ s
unfolding consume_credential
consume_credential-error fault now credential version totp_step recovery s e = ground arith

-- The parts of a consumption that is accepted.
pub consume_credential-none :
    (fault : Bool) (now : Clocks) (credential : Text) (version : ℕ) (totp_step : ℤ)
    (recovery : Text) (s : Store)
    → (consume_credential fault now credential version totp_step recovery s).1 ≡ none
    → (cs : List (Text × ℤ)) × (r : SecurityState) × (s.row.version ≡ version)
      × (insert_consumption credential now s.consumptions ≡ some cs)
      × (spend now.service totp_step recovery s.row ≡ some r)
      × ((consume_credential fault now credential version totp_step recovery s).0
          ≡ record { row = r; consumptions = cs })
unfolding consume_credential
consume_credential-none fault now credential version totp_step recovery s e =
    elim (Option-cases (insert_consumption credential now s.consumptions)) [
      | inl used ↦ absurd (ground arith)
      | inr (cs, fresh) ↦ elim (Option-cases (spend now.service totp_step recovery s.row)) [
        | inl bad_proof ↦ absurd (ground arith)
        | inr (r, proved) ↦ (cs, r, ground arith, fresh, proved, ground arith)
      ]
    ]

spend-version :
    (now totp_step : ℤ) (recovery : Text) (r r' : SecurityState)
    → spend now totp_step recovery r ≡ some r'
    → r'.version ≡ r.version + 1
unfolding spend
spend-version now totp_step [] r r' e = ground arith
spend-version now totp_step (c ∷ s) r r' e = ground arith

consume_credential-Advances :
    (fault : Bool) (now : Clocks) (credential : Text) (version : ℕ) (totp_step : ℤ)
    (recovery : Text) (s : Store)
    → Advances s.row (consume_credential fault now credential version totp_step recovery s).0.row
consume_credential-Advances fault now credential version totp_step recovery s =
    elim (Option-cases (consume_credential fault now credential version totp_step recovery s).1) [
      | inl done ↦
          let (cs, r, _, _, proved, e) =
            consume_credential-none fault now credential version totp_step recovery s done in
          inr (rw e (omega (arith, spend-version now.service totp_step recovery s.row r proved)))
      | inr (x, refused) ↦ inl (
          ap (λ t. t.row)
            (consume_credential-error fault now credential version totp_step recovery s refused))
    ]

save_snapshot-Advances :
    (fault verified : Bool) (e : Edit) (o : Option SecurityState) (s : Store)
    → Advances s.row (save_snapshot fault verified e o s).0.row
unfolding save_snapshot
save_snapshot-Advances fault verified e none s = inl refl
save_snapshot-Advances fault verified e (some v) s =
    save_security-Advances fault verified (apply_edit e v) v.version s

-- The row after an event.
step-Advances : (e : Event) (s : System) → Advances s.store.row (step e s).store.row
unfolding step invalidate_password_credentials
step-Advances reads s = inl refl
step-Advances (saves fault verified k e) s =
    save_snapshot-Advances fault verified e (nth k s.snapshots) s.store
step-Advances (disables fault version) s =
    save_security-Advances fault true (disabled version) version s.store
step-Advances (consumes fault now credential version totp_step recovery) s =
    consume_credential-Advances fault now credential version totp_step recovery s.store
step-Advances invalidates s = inr (omega arith)
step-Advances (elsewhere database_now c expires_at) s = inl refl

advance-IsCurrent :
    (row row' v : SecurityState) → Advances row row' → IsCurrent row v → IsCurrent row' v
advance-IsCurrent row row' v (inl same) c = subst (λ x. IsCurrent x v) (sym same) c
advance-IsCurrent row row' v (inr later) (inl older) = inl (omega arith)
advance-IsCurrent row row' v (inr later) (inr same) = inl (omega (arith, ap (λ x. x.version) same))

kept-AllCurrent :
    (e : Event) (s : System) → AllCurrent s → All (IsCurrent (step e s).store.row) s.snapshots
kept-AllCurrent e s h =
    All-imp (IsCurrent s.store.row) (IsCurrent (step e s).store.row) s.snapshots
      (λ v. advance-IsCurrent s.store.row (step e s).store.row v (step-Advances e s)) h

pub step-AllCurrent : (e : Event) (s : System) → AllCurrent s → AllCurrent (step e s)
unfolding step
step-AllCurrent reads s h = (inr refl, h)
step-AllCurrent (saves fault verified k e) s h = kept-AllCurrent (saves fault verified k e) s h
step-AllCurrent (disables fault version) s h = kept-AllCurrent (disables fault version) s h
step-AllCurrent (consumes fault now credential version totp_step recovery) s h =
    kept-AllCurrent (consumes fault now credential version totp_step recovery) s h
step-AllCurrent invalidates s h = kept-AllCurrent invalidates s h
step-AllCurrent (elsewhere database_now c expires_at) s h =
    kept-AllCurrent (elsewhere database_now c expires_at) s h

pub run-AllCurrent : (es : List Event) (s : System) → AllCurrent s → AllCurrent (run es s)
unfolding run
run-AllCurrent [] s h = h
run-AllCurrent (e ∷ es) s h = run-AllCurrent es (step e s) (step-AllCurrent e s h)

pub nth-IsCurrent :
    (row v : SecurityState) (k : ℕ) (vs : List SecurityState)
    → All (IsCurrent row) vs
    → nth k vs ≡ some v
    → IsCurrent row v
unfolding nth
nth-IsCurrent row v k [] h e = absurd (ground arith)
nth-IsCurrent row v zero (x ∷ vs) h e = subst (IsCurrent row) (ground arith) h.0
nth-IsCurrent row v (suc k) (x ∷ vs) h e = nth-IsCurrent row v k vs h.1 e

pub at_version : (row v : SecurityState) → IsCurrent row v → row.version ≡ v.version → v ≡ row
at_version row v (inl older) e = absurd (omega arith)
at_version row v (inr same) e = same

-- However the statements of any number of requests interleave, starting with no request: when
-- SaveSecurity accepts the edit of settings that a request has read at some time, then what it read
-- is still the user's row, and the new row is the edit of the row with the next version. No
-- concurrent change is lost.
pub save_security_unlost :
    (store : Store) (es : List Event) (fault verified : Bool) (k : ℕ) (e : Edit) (v : SecurityState)
    → nth k (run es (record { store = store; snapshots = [] })).snapshots ≡ some v
    → (save_security fault verified
        (apply_edit e v)
        v.version
        (run es (record { store = store; snapshots = [] })).store).1
      ≡ none
    → (v ≡ (run es (record { store = store; snapshots = [] })).store.row)
      × ((save_security fault verified
            (apply_edit e v)
            v.version
            (run es (record { store = store; snapshots = [] })).store).0.row
          ≡ record (apply_edit e (run es (record { store = store; snapshots = [] })).store.row) {
            version = (run es (record { store = store; snapshots = [] })).store.row.version + 1;
          })
save_security_unlost store es fault verified k e v held saved = (current, written)
  where
    s : System
    s = run es (record { store = store; snapshots = [] })

    done :
        (s.store.row.version ≡ v.version)
        × ((save_security fault verified (apply_edit e v) v.version s.store).0 ≡ record s.store {
          row = record (apply_edit e v) { version = s.store.row.version + 1 };
        })
    done = save_security-none fault verified (apply_edit e v) v.version s.store saved

    current : v ≡ s.store.row
    current =
        at_version s.store.row v
          (nth-IsCurrent s.store.row v k s.snapshots
            (run-AllCurrent es (record { store = store; snapshots = [] }) tt) held)
          done.0

    written :
        (save_security fault verified (apply_edit e v) v.version s.store).0.row
        ≡ record (apply_edit e s.store.row) { version = s.store.row.version + 1 }
    written =
        ap (λ t. t.row) done.1
        ∙ ap (λ w. record (apply_edit e w) { version = s.store.row.version + 1 }) current
