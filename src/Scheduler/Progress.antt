-- ===== src/Scheduler/Progress.antt =====
-- Replace when everything outside works.
use backend_infrastructure_g.Base.{
  ◌≡◌, refl, Bool, true, false, Option, none, some, List, [], ◌∷◌, Text, arith, IsIn,
}
use backend_infrastructure_g.Scheduler.Entries.{lookup}
use backend_infrastructure_g.Scheduler.{
  Content, Schedule, Entry, State, Step, Outside, start, after, swap, registered, renew,
  compare_entry, fingerprinted, unless_ended, if_enabled, place, place_all, drop_stale, drop_all,
  replace,
}
use backend_infrastructure_g.Scheduler.Outcome.{IsDistinct, IsPlaced, replace-IsPlaced}

-- The context goes on, and no call outside fails.
pub record IsUp (o : Outside) : Type 0 where
  pub runs : (id : Text) → o.ended id ≡ false
  pub encodes : (c : Content) → (fp : Text) × (o.fingerprint c ≡ some fp)
  pub builds : (x : Schedule) → o.builds x ≡ true
  pub registers : (x : Schedule) → (id : Text) × (o.register x ≡ some id)
  pub unregisters : (id : Text) → o.unregister id ≡ true

after_both :
    (p : Step) (f : State → Step)
    → p.1 ≡ none
    → ((s : State) → (f s).1 ≡ none)
    → (after p f).1 ≡ none
unfolding after
after_both (s, none) f h k = k s
after_both (s, some e) f h k = absurd (ground arith)

module _ (o : Outside) (up : IsUp o) where
  swap_up :
      (x : Schedule) (fp new : Text) (current : Option Entry) (s : State)
      → (swap o x fp new current s).1 ≡ none
  unfolding swap
  swap_up x fp new none s = refl
  swap_up x fp new (some e) s = rw (up.unregisters e.entry_id) refl

  registered_up :
      (x : Schedule) (fp : Text) (current : Option Entry) (answer : Option Text) (s : State)
      → (id : Text) × (answer ≡ some id)
      → (registered o x fp current answer s).1 ≡ none
  unfolding registered
  registered_up x fp current none s (id, e) = absurd (ground arith)
  registered_up x fp current (some new) s (id, e) = swap_up x fp new current _

  renew_up :
      (x : Schedule) (fp : Text) (current : Option Entry) (s : State)
      → (renew o x fp current s).1 ≡ none
  unfolding renew
  renew_up x fp current s =
      let done = registered_up x fp current (o.register x) s (up.registers x) in
      let built = up.builds x in ground arith

  compare_up :
      (x : Schedule) (fp : Text) (current : Option Entry) (s : State)
      → (compare_entry o x fp current s).1 ≡ none
  unfolding compare_entry
  compare_up x fp none s = renew_up x fp none s
  compare_up x fp (some e) s = let renews = renew_up x fp (some e) s in ground arith

  fingerprinted_up :
      (x : Schedule) (answer : Option Text) (s : State)
      → (fp : Text) × (answer ≡ some fp)
      → (fingerprinted o x answer s).1 ≡ none
  unfolding fingerprinted
  fingerprinted_up x none s (fp, e) = absurd (ground arith)
  fingerprinted_up x (some fp) s known = compare_up x fp (lookup x.id s.entries) s

  unless_ended_up :
      (ended : Bool) (x : Schedule) (s : State)
      → ended ≡ false
      → (unless_ended o ended x s).1 ≡ none
  unfolding unless_ended
  unless_ended_up true x s off = absurd (ground arith)
  unless_ended_up false x s off =
      fingerprinted_up x (o.fingerprint x.content) _ (up.encodes x.content)

  if_enabled_up : (enabled : Bool) (x : Schedule) (s : State) → (if_enabled o enabled x s).1 ≡ none
  unfolding if_enabled
  if_enabled_up false x s = refl
  if_enabled_up true x s = unless_ended_up (o.ended x.id) x s (up.runs x.id)

  place_all_up : (xs : List Schedule) (s : State) → (place_all o xs s).1 ≡ none
  unfolding place_all place
  place_all_up [] s = refl
  place_all_up (x ∷ xs) s =
      after_both (place o x s) (place_all o xs) (if_enabled_up x.enabled x s) (place_all_up xs)

  drop_stale_up : (id : Text) (e : Entry) (s : State) → (drop_stale o id e s).1 ≡ none
  unfolding drop_stale
  drop_stale_up id e s =
      let going = up.runs id in let gone = up.unregisters e.entry_id in ground arith

  drop_all_up : (es : List (Text × Entry)) (s : State) → (drop_all o es s).1 ≡ none
  unfolding drop_all
  drop_all_up [] s = refl
  drop_all_up ((id, e) ∷ es) s =
      after_both (drop_stale o id e s) (drop_all o es) (drop_stale_up id e s) (drop_all_up es)

  -- When the context goes on and no call of Replace fails, Replace returns nil, whatever entries the
  -- registrar had, and then every enabled schedule has an entry with its fingerprint. No two schedules
  -- have the same id.
  pub replace_up :
      (xs : List Schedule) (entries : List (Text × Entry)) (x : Schedule)
      → IsDistinct xs
      → IsIn x xs
      → x.enabled ≡ true
      → ((replace o xs entries).1 ≡ none) × IsPlaced o x (replace o xs entries).0.entries
  unfolding replace
  replace_up xs entries x distinct m on =
      let done =
        after_both (place_all o xs (start entries)) (λ s. drop_all o s.entries s)
          (place_all_up xs (start entries)) (λ s. drop_all_up s.entries s) in
      (done, replace-IsPlaced o xs entries x distinct done m on)
