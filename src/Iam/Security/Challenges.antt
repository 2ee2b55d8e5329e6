-- ===== src/Iam/Security/Challenges.antt =====
-- The challenge of a login, which is spent with the proof: authentication_consumptions.
use backend_infrastructure_g.Base.{
  ℕ, ◌≡◌, ◌≢◌, refl, subst, inl, inr, Bool, true, Option, none, some, List, [], ◌∷◌, Text,
  text_eq_refl, ℤ, ◌+ℤ◌, ltb_ℤ, leb_ℤ, All, IsIn, first, later, arith, Bool-cases, Option-cases,
}
use backend_infrastructure_g.Iam.Security.{
  SecurityState, Store, Clocks, record_consumption, prune, is_consumed, consumption_life,
  insert_consumption, save_security, consume_credential, invalidate_password_credentials,
}
use backend_infrastructure_g.Iam.Security.Edits.{Edit, apply_edit, disabled}
use backend_infrastructure_g.Iam.Security.Snapshots.{
  System, Event, reads, saves, disables, consumes, invalidates, elsewhere, or_same, nth,
  save_snapshot, step, run, consume_credential-error, consume_credential-none,
}
use backend_infrastructure_g.Iam.Security.Once.{is_until, IsUntil}

pub prune-IsIn :
    (now t : ℤ) (c : Text) (cs : List (Text × ℤ))
    → leb_ℤ now t ≡ true
    → IsIn (c, t) cs
    → IsIn (c, t) (prune now cs)
unfolding prune
prune-IsIn now t c [] h m = elim m [ ]
prune-IsIn now t c ((_, _) ∷ cs) h first = elim (Bool-cases (ltb_ℤ t now)) [
  | inl dead ↦ absurd (ground arith)
  | inr live ↦ rw live first
]
prune-IsIn now t c ((d, u) ∷ cs) h (later m) = elim (Bool-cases (ltb_ℤ u now)) [
  | inl dead ↦ rw dead (prune-IsIn now t c cs h m)
  | inr live ↦ rw live (later (prune-IsIn now t c cs h m))
]

pub consumed_of_IsIn :
    (t : ℤ) (c : Text) (cs : List (Text × ℤ)) → IsIn (c, t) cs → is_consumed c cs ≡ true
unfolding is_consumed
consumed_of_IsIn t c [] m = elim m [ ]
consumed_of_IsIn t c ((_, _) ∷ cs) first = ground (arith, text_eq_refl c)
consumed_of_IsIn t c ((d, u) ∷ cs) (later m) = ground (arith, consumed_of_IsIn t c cs m)

-- What was there stays, what is there is refused, and what was recorded is there.
pub record-IsIn :
    (now : ℤ) (d c : Text) (u t : ℤ) (cs cs' : List (Text × ℤ))
    → leb_ℤ now t ≡ true
    → record_consumption now d u cs ≡ some cs'
    → IsIn (c, t) cs
    → IsIn (c, t) cs'
unfolding record_consumption
record-IsIn now d c u t cs cs' h e m = elim (Bool-cases (is_consumed d (prune now cs))) [
  | inl used ↦ absurd (ground arith)
  | inr fresh ↦ subst (IsIn (c, t)) (ground arith) (later {y = (d, u)} (prune-IsIn now t c cs h m))
]

pub record_used :
    (now : ℤ) (c : Text) (u t : ℤ) (cs cs' : List (Text × ℤ))
    → leb_ℤ now t ≡ true
    → IsIn (c, t) cs
    → record_consumption now c u cs ≢ some cs'
unfolding record_consumption
record_used now c u t cs cs' h m =
    λ e. let used = consumed_of_IsIn t c (prune now cs) (prune-IsIn now t c cs h m) in ground arith

pub record_fresh :
    (now : ℤ) (c : Text) (u : ℤ) (cs cs' : List (Text × ℤ))
    → record_consumption now c u cs ≡ some cs'
    → IsIn (c, u) cs'
unfolding record_consumption
record_fresh now c u cs cs' e = elim (Bool-cases (is_consumed c (prune now cs))) [
  | inl used ↦ absurd (ground arith)
  | inr fresh ↦ subst (IsIn (c, u)) (ground arith) (first {rest = prune now cs})
]

insert-IsIn :
    (credential c : Text) (now : Clocks) (t : ℤ) (cs cs' : List (Text × ℤ))
    → leb_ℤ now.database t ≡ true
    → insert_consumption credential now cs ≡ some cs'
    → IsIn (c, t) cs
    → IsIn (c, t) cs'
unfolding insert_consumption
insert-IsIn [] c now t cs cs' h e m = subst (IsIn (c, t)) (ground arith) m
insert-IsIn (d ∷ s) c now t cs cs' h e m =
    record-IsIn now.database (d ∷ s) c (now.service +ℤ consumption_life) t cs cs' h e m

insert_used :
    (credential : Text) (now : Clocks) (t : ℤ) (cs cs' : List (Text × ℤ))
    → credential ≢ []
    → leb_ℤ now.database t ≡ true
    → IsIn (credential, t) cs
    → insert_consumption credential now cs ≢ some cs'
unfolding insert_consumption
insert_used [] now t cs cs' named h m = absurd (named refl)
insert_used (c ∷ s) now t cs cs' named h m =
    record_used now.database (c ∷ s) (now.service +ℤ consumption_life) t cs cs' h m

insert_fresh :
    (credential : Text) (now : Clocks) (cs cs' : List (Text × ℤ))
    → credential ≢ []
    → insert_consumption credential now cs ≡ some cs'
    → IsIn (credential, now.service +ℤ consumption_life) cs'
unfolding insert_consumption
insert_fresh [] now cs cs' named e = absurd (named refl)
insert_fresh (c ∷ s) now cs cs' named e =
    record_fresh now.database (c ∷ s) (now.service +ℤ consumption_life) cs cs' e

pub elsewhere-IsIn :
    (now : ℤ) (d c : Text) (u t : ℤ) (cs : List (Text × ℤ))
    → leb_ℤ now t ≡ true
    → IsIn (c, t) cs
    → IsIn (c, t) (or_same cs (record_consumption now d u cs))
elsewhere-IsIn now d c u t cs h m = elim (Option-cases (record_consumption now d u cs)) [
  | inl refused ↦ rw refused m
  | inr (cs', done) ↦ rw done (record-IsIn now d c u t cs cs' h done m)
]

save-consumptions :
    (fault verified : Bool) (v : SecurityState) (version : ℕ) (s : Store)
    → (save_security fault verified v version s).0.consumptions ≡ s.consumptions
unfolding save_security
save-consumptions fault verified v version s = ground arith

save_snapshot-consumptions :
    (fault verified : Bool) (e : Edit) (o : Option SecurityState) (s : Store)
    → (save_snapshot fault verified e o s).0.consumptions ≡ s.consumptions
unfolding save_snapshot
save_snapshot-consumptions fault verified e none s = refl
save_snapshot-consumptions fault verified e (some v) s =
    save-consumptions fault verified (apply_edit e v) v.version s

consume-IsIn :
    (fault : Bool) (now : Clocks) (limit : ℤ) (credential c : Text) (version : ℕ) (t : ℤ)
    (recovery : Text) (s : Store)
    → leb_ℤ now.database limit ≡ true
    → IsIn (c, limit) s.consumptions
    → IsIn (c, limit) (consume_credential fault now credential version t recovery s).0.consumptions
consume-IsIn fault now limit credential c version t recovery s h m =
    elim (Option-cases (consume_credential fault now credential version t recovery s).1) [
      | inl done ↦
          let (cs, r, _, inserted, _, e) =
            consume_credential-none fault now credential version t recovery s done in
          rw e (insert-IsIn credential c now limit s.consumptions cs h inserted m)
      | inr (x, refused) ↦
          rw (consume_credential-error fault now credential version t recovery s refused) m
    ]

step-IsIn :
    (c : Text) (limit : ℤ) (e : Event) (s : System)
    → IsUntil limit e
    → IsIn (c, limit) s.store.consumptions
    → IsIn (c, limit) (step e s).store.consumptions
unfolding step is_until invalidate_password_credentials
step-IsIn c limit reads s h m = m
step-IsIn c limit (saves fault verified k e) s h m =
    rw (save_snapshot-consumptions fault verified e (nth k s.snapshots) s.store) m
step-IsIn c limit (disables fault version) s h m =
    rw (save-consumptions fault true (disabled version) version s.store) m
step-IsIn c limit (consumes fault now credential version t recovery) s h m =
    consume-IsIn fault now limit credential c version t recovery s.store h m
step-IsIn c limit invalidates s h m = m
step-IsIn c limit (elsewhere database_now d expires_at) s h m =
    elsewhere-IsIn database_now d c expires_at limit s.store.consumptions h m

run-IsIn :
    (c : Text) (limit : ℤ) (es : List Event) (s : System)
    → All (IsUntil limit) es
    → IsIn (c, limit) s.store.consumptions
    → IsIn (c, limit) (run es s).store.consumptions
unfolding run
run-IsIn c limit [] s h m = m
run-IsIn c limit (e ∷ es) s h m = run-IsIn c limit es (step e s) h.1 (step-IsIn c limit e s h.0 m)

-- A challenge that ConsumeCredential has accepted with a proof is not accepted again, with any proof
-- and any version, until the database's clock has passed the instant ten minutes after the service's
-- clock at the acceptance, whatever requests of this or other users come between. A challenge lives
-- five minutes.
pub challenge_once :
    (s : System) (es : List Event) (fault fault' : Bool) (now now' : Clocks) (credential : Text)
    (version version' : ℕ) (t t' : ℤ) (recovery recovery' : Text)
    → credential ≢ []
    → (consume_credential fault now credential version t recovery s.store).1 ≡ none
    → All (IsUntil (now.service +ℤ consumption_life)) es
    → leb_ℤ now'.database (now.service +ℤ consumption_life) ≡ true
    → (consume_credential fault' now' credential version' t' recovery'
        (run es (step (consumes fault now credential version t recovery) s)).store).1
      ≢ none
unfolding step
challenge_once s es fault fault' now now' credential version version' t t' recovery recovery' named
      done early soon =
    λ again.
      let (cs', _, _, inserted, _, _) =
        consume_credential-none fault' now' credential version' t' recovery' (run es s1).store
          again in
      insert_used credential now' (now.service +ℤ consumption_life) (run es s1).store.consumptions
        cs' named soon
        (run-IsIn credential (now.service +ℤ consumption_life) es s1 early spent_then) inserted
  where
    s1 : System
    s1 = step (consumes fault now credential version t recovery) s

    spent_then : IsIn (credential, now.service +ℤ consumption_life) s1.store.consumptions
    spent_then =
        let (cs, _, _, inserted, _, e) =
          consume_credential-none fault now credential version t recovery s.store done in
        rw e (insert_fresh credential now s.store.consumptions cs named inserted)
