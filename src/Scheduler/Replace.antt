-- ===== src/Scheduler/Replace.antt =====
-- The turns of the two loops of Replace.
use backend_infrastructure_g.Base.{
  ◌≡◌, refl, ap, ◌∙◌, inl, inr, Bool, true, false, Option, none, some, List, ◌∷◌, Text, text_eq,
  text_eq_refl, text_eq_sound, arith, if◌then◌else◌, Bool-cases,
}
use backend_infrastructure_g.Scheduler.Entries.{lookup, insert, erase, lookup-erase_other}
use backend_infrastructure_g.Scheduler.{
  Schedule, Entry, registers, schedule_spec, State, Step, Outside, after, is_desired, log, swap,
  registered, renew, compare_entry, fingerprinted, unless_ended, if_enabled, place, drop_stale,
}

pub after-none :
    (p : Step) (f : State → Step) → (after p f).1 ≡ none → (p.1 ≡ none) × (after p f ≡ f p.0)
unfolding after
after-none (s, none) f h = (refl, refl)
after-none (s, some e) f h = absurd (ground arith)

-- The schedule's entry carries its fingerprint.
abbrev pub HasEntry : Text → Text → List (Text × Entry) → Type 0
HasEntry id fp m = (e : Entry) × (lookup id m ≡ some e) × (e.fingerprint ≡ fp)

-- What a turn that succeeds does to the entries of the other schedules, and to `desired`.
abbrev IsTurn : Text → Text → State → State → Type 0
IsTurn id fp s s' =
    HasEntry id fp s'.entries
    × ((k : Text) → text_eq id k ≡ false → lookup k s'.entries ≡ lookup k s.entries)
    × (s'.desired ≡ s.desired)

module _ (o : Outside) where
  inserted :
      (id fp new : Text) (s s' : State)
      → s'.entries ≡ insert id record { entry_id = new; fingerprint = fp } s.entries
      → s'.desired ≡ s.desired
      → IsTurn id fp s s'
  unfolding lookup
  inserted id fp new s s' e d = (
    (
      record { entry_id = new; fingerprint = fp },
      ap (lookup id) e ∙ ground (arith, text_eq_refl id),
      refl,
    ),
    (λ k h. ap (lookup k) e ∙ (ground arith ∙ lookup-erase_other k id s.entries h)),
    d,
  )

  swap-none :
      (x : Schedule) (fp new : Text) (current : Option Entry) (s : State)
      → (swap o x fp new current s).1 ≡ none
      → ((swap o x fp new current s).0.entries
          ≡ insert x.id record { entry_id = new; fingerprint = fp } s.entries)
        × ((swap o x fp new current s).0.desired ≡ s.desired)
  unfolding swap log
  swap-none x fp new none s h = (refl, refl)
  swap-none x fp new (some e) s h = (ground arith, ground arith)

  registered-IsTurn :
      (x : Schedule) (fp : Text) (current : Option Entry) (answer : Option Text) (s : State)
      → (registered o x fp current answer s).1 ≡ none
      → IsTurn x.id fp s (registered o x fp current answer s).0
  unfolding registered log
  registered-IsTurn x fp current none s h = absurd (ground arith)
  registered-IsTurn x fp current (some new) s h =
      let t = log (registers (schedule_spec x.content) new) s in
      let (entries, desired) = swap-none x fp new current t h in
      inserted x.id fp new s (swap o x fp new current t).0 entries desired

  renew-IsTurn :
      (x : Schedule) (fp : Text) (current : Option Entry) (s : State)
      → (renew o x fp current s).1 ≡ none
      → IsTurn x.id fp s (renew o x fp current s).0
  unfolding renew
  renew-IsTurn x fp current s h = elim (Bool-cases (o.builds x)) [
    | inl built ↦ rw built (registered-IsTurn x fp current (o.register x) s (rw built at h))
    | inr unbuilt ↦ absurd (ground arith)
  ]

  compare_entry-IsTurn :
      (x : Schedule) (fp : Text) (current : Option Entry) (s : State)
      → lookup x.id s.entries ≡ current
      → (compare_entry o x fp current s).1 ≡ none
      → IsTurn x.id fp s (compare_entry o x fp current s).0
  unfolding compare_entry
  compare_entry-IsTurn x fp none s there h = renew-IsTurn x fp none s h
  compare_entry-IsTurn x fp (some e) s there h = elim (Bool-cases (text_eq e.fingerprint fp)) [
    | inl same ↦ rw same ((e, there, text_eq_sound e.fingerprint fp same), (λ k other. refl), refl)
    | inr changed ↦ rw changed (renew-IsTurn x fp (some e) s (rw changed at h))
  ]

  -- The schedule is enabled: it has an entry with its fingerprint, the other entries stay.
  fingerprinted-IsTurn :
      (x : Schedule) (answer : Option Text) (s : State)
      → (fingerprinted o x answer s).1 ≡ none
      → (fp : Text) × (answer ≡ some fp) × IsTurn x.id fp s (fingerprinted o x answer s).0
  unfolding fingerprinted
  fingerprinted-IsTurn x none s h = absurd (ground arith)
  fingerprinted-IsTurn x (some fp) s h =
      (fp, refl, compare_entry-IsTurn x fp (lookup x.id s.entries) s refl h)

  abbrev started : Schedule → State → State
  started x s = record s { desired = x.id ∷ s.desired }

  unless_ended-IsTurn :
      (ended : Bool) (x : Schedule) (s : State)
      → (unless_ended o ended x s).1 ≡ none
      → (fp : Text) × (o.fingerprint x.content ≡ some fp)
        × IsTurn x.id fp (started x s) (unless_ended o ended x s).0
  unfolding unless_ended
  unless_ended-IsTurn true x s h = absurd (ground arith)
  unless_ended-IsTurn false x s h = fingerprinted-IsTurn x (o.fingerprint x.content) (started x s) h

  if_enabled-IsTurn :
      (enabled : Bool) (x : Schedule) (s : State)
      → enabled ≡ true
      → (if_enabled o enabled x s).1 ≡ none
      → (fp : Text) × (o.fingerprint x.content ≡ some fp)
        × IsTurn x.id fp (started x s) (if_enabled o enabled x s).0
  unfolding if_enabled
  if_enabled-IsTurn true x s on h = unless_ended-IsTurn (o.ended x.id) x s h
  if_enabled-IsTurn false x s on h = absurd (ground arith)

  pub place-enabled :
      (x : Schedule) (s : State)
      → x.enabled ≡ true
      → (place o x s).1 ≡ none
      → (fp : Text) × (o.fingerprint x.content ≡ some fp)
        × IsTurn x.id fp (started x s) (place o x s).0
  unfolding place
  place-enabled x s on h = if_enabled-IsTurn x.enabled x s on h

  if_enabled-false :
      (enabled : Bool) (x : Schedule) (s : State)
      → enabled ≡ false
      → if_enabled o enabled x s ≡ (s, none)
  unfolding if_enabled
  if_enabled-false true x s off = absurd (ground arith)
  if_enabled-false false x s off = refl

  pub place-disabled : (x : Schedule) (s : State) → x.enabled ≡ false → place o x s ≡ (s, none)
  unfolding place
  place-disabled x s off = if_enabled-false x.enabled x s off

  pub place-other :
      (x : Schedule) (k : Text) (s : State)
      → text_eq x.id k ≡ false
      → (place o x s).1 ≡ none
      → lookup k (place o x s).0.entries ≡ lookup k s.entries
  place-other x k s other h = elim (Bool-cases x.enabled) [
    | inl on ↦ let (_, _, (_, others, _)) = place-enabled x s on h in others k other
    | inr off ↦ ap (λ p. lookup k p.0.entries) (place-disabled x s off)
  ]

  pub place-desired :
      (x : Schedule) (s : State)
      → (place o x s).1 ≡ none
      → (place o x s).0.desired ≡ (if x.enabled then x.id ∷ s.desired else s.desired)
  place-desired x s h = elim (Bool-cases x.enabled) [
    | inl on ↦ let (_, _, (_, _, same)) = place-enabled x s on h in same ∙ rw on refl
    | inr off ↦ ap (λ p. p.0.desired) (place-disabled x s off) ∙ rw off refl
  ]

  pub drop_stale-none :
      (id : Text) (e : Entry) (s : State)
      → (drop_stale o id e s).1 ≡ none
      → ((drop_stale o id e s).0.desired ≡ s.desired)
        × ((drop_stale o id e s).0.entries
            ≡ (if is_desired id s.desired then s.entries else erase id s.entries))
  unfolding drop_stale log
  drop_stale-none id e s h = (ground arith, ground arith)
