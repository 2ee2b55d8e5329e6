-- ===== src/Iam/Security/Once.antt =====
-- What was proved once is not accepted again: TOTP steps, and the challenges of logins.
use backend_infrastructure_g.Base.{
  ℕ, ◌≡◌, ◌≢◌, refl, inl, inr, Bool, true, false, none, some, List, [], ◌∷◌, Text, ℤ, leb_ℤ, All,
  arith, Option-cases,
}
use backend_infrastructure_g.Iam.Security.{
  SecurityState, Store, Clocks, spend, save_security, consume_credential,
  invalidate_password_credentials,
}
use backend_infrastructure_g.Iam.Security.Edits.{Edit, puts_mode, enrols, confirms, apply_edit}
use backend_infrastructure_g.Iam.Security.Snapshots.{
  System, Event, reads, saves, disables, consumes, invalidates, elsewhere, nth, save_snapshot, step,
  run, AllCurrent, save_security-error, save_security-none, consume_credential-error,
  consume_credential-none, nth-IsCurrent, at_version, step-AllCurrent, run-AllCurrent,
}

-- The events that neither replace the factor nor remove it.
unfoldable pub keeps_factor : Event → Bool
keeps_factor (saves fault verified k (confirms t hashes expires_at)) = false
keeps_factor (disables fault version) = false
keeps_factor _ = true

-- The events whose NOW() of the database is not after `limit`, if they read it.
unfoldable pub is_until : ℤ → Event → Bool
is_until limit (consumes fault now credential version totp_step recovery) = leb_ℤ now.database limit
is_until limit (elsewhere database_now c expires_at) = leb_ℤ database_now limit
is_until limit _ = true

abbrev pub KeepsFactor : Event → Type 0
KeepsFactor e = keeps_factor e ≡ true

abbrev pub IsUntil : ℤ → Event → Type 0
IsUntil limit e = is_until limit e ≡ true

edit-last_step :
    (e : Edit) (v : SecurityState)
    → (fault verified : Bool) (k : ℕ) → keeps_factor (saves fault verified k e) ≡ true
    → (apply_edit e v).last_totp_step ≡ v.last_totp_step
unfolding apply_edit keeps_factor
edit-last_step (puts_mode mode) v fault verified k h = refl
edit-last_step (enrols encrypted now) v fault verified k h = refl
edit-last_step (confirms t hashes expires_at) v fault verified k h = cc

-- The step of an accepted consumption, and that the last step never falls.
spend-last_step :
    (now t : ℤ) (recovery : Text) (r r' : SecurityState)
    → spend now t recovery r ≡ some r'
    → leb_ℤ r.last_totp_step r'.last_totp_step ≡ true
unfolding spend
spend-last_step now t [] r r' e = ground arith
spend-last_step now t (c ∷ s) r r' e = ground arith

leb_trans : (a b c : ℤ) → leb_ℤ a b ≡ true → leb_ℤ b c ≡ true → leb_ℤ a c ≡ true
leb_trans a b c h k = ground arith

consume-last_step :
    (fault : Bool) (now : Clocks) (credential : Text) (version : ℕ) (t : ℤ) (recovery : Text)
    (s : Store)
    → leb_ℤ s.row.last_totp_step
        (consume_credential fault now credential version t recovery s).0.row.last_totp_step
      ≡ true
consume-last_step fault now credential version t recovery s =
    elim (Option-cases (consume_credential fault now credential version t recovery s).1) [
      | inl done ↦
          let (cs, r, _, _, proved, e) =
            consume_credential-none fault now credential version t recovery s done in
          rw e (spend-last_step now.service t recovery s.row r proved)
      | inr (x, refused) ↦
          rw (consume_credential-error fault now credential version t recovery s refused)
            (ground arith)
    ]

save_snapshot-last_step :
    (fault verified : Bool) (k : ℕ) (e : Edit) (s : System)
    → AllCurrent s
    → KeepsFactor (saves fault verified k e)
    → leb_ℤ s.store.row.last_totp_step
        (save_snapshot fault verified e (nth k s.snapshots) s.store).0.row.last_totp_step
      ≡ true
unfolding save_snapshot
save_snapshot-last_step fault verified k e s h keeps = elim (Option-cases (nth k s.snapshots)) [
  | inl nothing ↦ rw nothing (ground arith)
  | inr (v, held) ↦ rw held (saved v held)
]
  where
    saved :
        (v : SecurityState)
        → nth k s.snapshots ≡ some v
        → leb_ℤ s.store.row.last_totp_step
            (save_security fault verified (apply_edit e v) v.version s.store).0.row.last_totp_step
          ≡ true
    saved v held =
        elim (Option-cases (save_security fault verified (apply_edit e v) v.version s.store).1) [
          | inl done ↦
              let (same, written) =
                save_security-none fault verified (apply_edit e v) v.version s.store done in
              let current =
                at_version s.store.row v (nth-IsCurrent s.store.row v k s.snapshots h held) same in
              rw written
                (rw (edit-last_step e v fault verified k keeps) (rw current (ground arith)))
          | inr (x, refused) ↦
              rw (save_security-error fault verified (apply_edit e v) v.version s.store refused)
                (ground arith)
        ]

step-last_step :
    (e : Event) (s : System)
    → AllCurrent s
    → KeepsFactor e
    → leb_ℤ s.store.row.last_totp_step (step e s).store.row.last_totp_step ≡ true
unfolding step keeps_factor invalidate_password_credentials
step-last_step reads s h keeps = ground arith
step-last_step (saves fault verified k e) s h keeps =
    save_snapshot-last_step fault verified k e s h keeps
step-last_step (disables fault version) s h keeps = cc
step-last_step (consumes fault now credential version t recovery) s h keeps =
    consume-last_step fault now credential version t recovery s.store
step-last_step invalidates s h keeps = ground arith
step-last_step (elsewhere database_now c expires_at) s h keeps = ground arith

run-last_step :
    (es : List Event) (s : System)
    → AllCurrent s
    → All KeepsFactor es
    → leb_ℤ s.store.row.last_totp_step (run es s).store.row.last_totp_step ≡ true
unfolding run
run-last_step [] s h keeps = ground arith
run-last_step (e ∷ es) s h keeps =
    leb_trans s.store.row.last_totp_step (step e s).store.row.last_totp_step
      (run es (step e s)).store.row.last_totp_step (step-last_step e s h keeps.0)
      (run-last_step es (step e s) (step-AllCurrent e s h) keeps.1)

-- A step of a TOTP proof that is accepted is after the last one, and is the last one then.
spend-totp :
    (now t : ℤ) (r r' : SecurityState)
    → spend now t [] r ≡ some r'
    → (leb_ℤ t r.last_totp_step ≡ false) × (r'.last_totp_step ≡ t)
unfolding spend
spend-totp now t r r' e = (ground arith, ground arith)

consume-totp :
    (fault : Bool) (now : Clocks) (credential : Text) (version : ℕ) (t : ℤ) (s : Store)
    → (consume_credential fault now credential version t [] s).1 ≡ none
    → (leb_ℤ t s.row.last_totp_step ≡ false)
      × ((consume_credential fault now credential version t [] s).0.row.last_totp_step ≡ t)
consume-totp fault now credential version t s done =
    let (cs, r, _, _, proved, e) =
      consume_credential-none fault now credential version t [] s done in
    let (later, last) = spend-totp now.service t s.row r proved in (later, rw e last)

-- However requests interleave, starting with none: once ConsumeCredential has accepted a TOTP step, it
-- accepts neither that step nor an earlier one, with any credential, version and clocks, after any
-- requests that do not confirm a new factor or remove it, also those that hold settings read before.
pub totp_once :
    (store : Store) (before es : List Event) (fault fault' : Bool) (now now' : Clocks)
    (credential credential' : Text) (version version' : ℕ) (t t' : ℤ)
    → (consume_credential fault now credential version t []
        (run before (record { store = store; snapshots = [] })).store).1
      ≡ none
    → All KeepsFactor es
    → leb_ℤ t' t ≡ true
    → (consume_credential fault' now' credential' version' t' []
        (run es (
          step
            (consumes fault now credential version t [])
            (run before (record { store = store; snapshots = [] })))).store).1
      ≢ none
unfolding step
totp_once store before es fault fault' now now' credential credential' version version' t t' done
      keeps earlier =
    λ again.
      let (later, _) = consume-totp fault' now' credential' version' t' (run es s1).store again in
      let (_, last) = consume-totp fault now credential version t s0.store done in
      let kept =
        run-last_step es s1
          (step-AllCurrent (consumes fault now credential version t []) s0
            (run-AllCurrent before (record { store = store; snapshots = [] }) tt))
          keeps in
      ground arith
  where
    s0 : System
    s0 = run before (record { store = store; snapshots = [] })

    s1 : System
    s1 = step (consumes fault now credential version t []) s0
