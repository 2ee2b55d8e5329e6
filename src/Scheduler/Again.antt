-- ===== src/Scheduler/Again.antt =====
-- Replace with the same schedules a second time.
use backend_infrastructure_g.Base.{
  ◌≡◌, ◌≢◌, refl, sym, ap, ◌∙◌, inl, inr, Bool, true, false, Option, none, some, List, [], ◌∷◌,
  Text, text_eq, text_eq_refl, arith, All, IsIn, first, later, if◌then◌else◌, Bool-cases,
}
use backend_infrastructure_g.Scheduler.Entries.{lookup}
use backend_infrastructure_g.Scheduler.{
  Schedule, Entry, State, Step, Outside, start, after, is_desired, compare_entry, fingerprinted,
  unless_ended, if_enabled, place, place_all, drop_stale, drop_all, replace,
}
use backend_infrastructure_g.Scheduler.Replace.{place-disabled}
use backend_infrastructure_g.Scheduler.Outcome.{
  IsDistinct, collect, IsPlaced, replace-IsPlaced, replace-stale,
}

lookup-IsIn : (k : Text) (v : Entry) (m : List (Text × Entry)) → IsIn (k, v) m → lookup k m ≢ none
unfolding lookup
lookup-IsIn k v [] m = elim m [ ]
lookup-IsIn k v ((_, _) ∷ m) first = λ e. ground (arith, text_eq_refl k)
lookup-IsIn k v ((j, u) ∷ m) (later i) = λ e. lookup-IsIn k v m i (ground arith)

All-IsIn :
    (P : Text × Entry → Type 0) (m : List (Text × Entry))
    → ((p : Text × Entry) → IsIn p m → P p)
    → All P m
All-IsIn P [] f = tt
All-IsIn P (p ∷ m) f = (f p first, All-IsIn P m (λ q i. f q (later i)))

after_done : (p : Step) (s : State) (f : State → Step) → p ≡ (s, none) → after p f ≡ f s
unfolding after
after_done p s f e = ap (λ q. after q f) e

abbrev with_desired : List Text → State → State
with_desired ids s = record s { desired = ids }

module _ (o : Outside) (runs : (id : Text) → o.ended id ≡ false) where
  compare_again :
      (x : Schedule) (fp : Text) (c : Option Entry) (e : Entry) (s : State)
      → c ≡ some e
      → e.fingerprint ≡ fp
      → compare_entry o x fp c s ≡ (s, none)
  unfolding compare_entry
  compare_again x fp none e s there same = absurd (ground arith)
  compare_again x fp (some d) e s there same =
      let is_e : d ≡ e = ground arith in
      let matches : text_eq d.fingerprint fp ≡ true =
        ap (λ y. text_eq y.fingerprint fp) is_e ∙ (ap (λ f. text_eq f fp) same ∙ text_eq_refl fp) in
      ground arith

  fingerprinted_again :
      (x : Schedule) (answer : Option Text) (e : Entry) (s : State)
      → lookup x.id s.entries ≡ some e
      → answer ≡ some e.fingerprint
      → fingerprinted o x answer s ≡ (s, none)
  unfolding fingerprinted
  fingerprinted_again x none e s there known = absurd (ground arith)
  fingerprinted_again x (some fp) e s there known =
      compare_again x fp (lookup x.id s.entries) e s there (ground arith)

  unless_ended_again :
      (ended : Bool) (x : Schedule) (s : State)
      → ended ≡ false
      → IsPlaced o x s.entries
      → unless_ended o ended x s ≡ (with_desired (x.id ∷ s.desired) s, none)
  unfolding unless_ended
  unless_ended_again true x s off placed = absurd (ground arith)
  unless_ended_again false x s off (e, there, known) =
      fingerprinted_again x (o.fingerprint x.content) e (with_desired (x.id ∷ s.desired) s) there
        known

  if_enabled_again :
      (enabled : Bool) (x : Schedule) (s : State)
      → enabled ≡ true
      → IsPlaced o x s.entries
      → if_enabled o enabled x s ≡ (with_desired (x.id ∷ s.desired) s, none)
  unfolding if_enabled
  if_enabled_again true x s on placed = unless_ended_again (o.ended x.id) x s (runs x.id) placed
  if_enabled_again false x s on placed = absurd (ground arith)

  place_again :
      (x : Schedule) (s : State)
      → (x.enabled ≡ true → IsPlaced o x s.entries)
      → place o x s ≡ (with_desired (if x.enabled then x.id ∷ s.desired else s.desired) s, none)
  unfolding place
  place_again x s placed = elim (Bool-cases x.enabled) [
    | inl on ↦
        if_enabled_again x.enabled x s on (placed on)
        ∙ ap (λ b. (with_desired (if b then x.id ∷ s.desired else s.desired) s, none)) (sym on)
    | inr off ↦
        place-disabled o x s off
        ∙ ap (λ b. (with_desired (if b then x.id ∷ s.desired else s.desired) s, none)) (sym off)
  ]

  place_all_again :
      (xs : List Schedule) (s : State)
      → ((x : Schedule) → IsIn x xs → x.enabled ≡ true → IsPlaced o x s.entries)
      → place_all o xs s ≡ (with_desired (collect xs s.desired) s, none)
  unfolding place_all collect
  place_all_again [] s placed = refl
  place_all_again (x ∷ xs) s placed =
      let s1 = with_desired (if x.enabled then x.id ∷ s.desired else s.desired) s in
      after_done (place o x s) s1 (place_all o xs) (place_again x s (placed x first))
      ∙ place_all_again xs s1 (λ y i on. placed y (later i) on)

  drop_stale_again :
      (id : Text) (e : Entry) (s : State)
      → is_desired id s.desired ≡ true
      → drop_stale o id e s ≡ (s, none)
  unfolding drop_stale
  drop_stale_again id e s wanted = ground arith

  drop_all_again :
      (es : List (Text × Entry)) (s : State)
      → All (λ p. is_desired p.0 s.desired ≡ true) es
      → drop_all o es s ≡ (s, none)
  unfolding drop_all
  drop_all_again [] s wanted = refl
  drop_all_again ((id, e) ∷ es) s wanted =
      after_done (drop_stale o id e s) s (drop_all o es) (drop_stale_again id e s wanted.0)
      ∙ drop_all_again es s wanted.1

  -- After Replace has returned nil, Replace with the same schedules returns nil, keeps the entries and
  -- asks nothing of asynq's scheduler, if the context does not end. No two schedules have the same id.
  pub replace_again :
      (xs : List Schedule) (entries : List (Text × Entry))
      → IsDistinct xs
      → (replace o xs entries).1 ≡ none
      → replace o xs (replace o xs entries).0.entries ≡ (
        record { entries = (replace o xs entries).0.entries; calls = []; desired = collect xs [] },
        none,
      )
  unfolding replace
  replace_again xs entries distinct h =
      let kept = (replace o xs entries).0.entries in
      let s1 = with_desired (collect xs []) (start kept) in
      after_done (place_all o xs (start kept)) s1 (λ s. drop_all o s.entries s)
        (place_all_again xs (start kept)
          (λ x i on. replace-IsPlaced o xs entries x distinct h i on))
      ∙ drop_all_again kept s1 (All-IsIn (λ p. is_desired p.0 (collect xs []) ≡ true) kept wanted)
    where
      wanted :
          (p : Text × Entry)
          → IsIn p (replace o xs entries).0.entries
          → is_desired p.0 (collect xs []) ≡ true
      wanted (id, e) i = elim (Bool-cases (is_desired id (collect xs []))) [
        | inl it_is ↦ it_is
        | inr it_is_not ↦ absurd (
            lookup-IsIn id e (replace o xs entries).0.entries i
              (replace-stale o xs entries id h it_is_not))
      ]
