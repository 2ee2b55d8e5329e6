-- ===== src/Scheduler/Outcome.antt =====
-- The entries after Replace.
use backend_infrastructure_g.Base.{
  ◌≡◌, refl, sym, ap, subst, ◌∙◌, ◌⊎◌, inl, inr, Bool, true, false, none, some, List, [], ◌∷◌, Text,
  text_eq, text_eq_refl, text_eq_sound, arith, All, IsIn, first, later, if◌then◌else◌, Bool-cases,
  Option-cases,
}
use backend_infrastructure_g.Scheduler.Entries.{lookup, erase, lookup-erase, lookup-erase_other}
use backend_infrastructure_g.Scheduler.{
  Schedule, Entry, State, Outside, start, is_desired, place, place_all, drop_stale, drop_all,
  replace,
}
use backend_infrastructure_g.Scheduler.Replace.{
  after-none, place-enabled, place-other, place-desired, drop_stale-none,
}

-- No two schedules have the same id.
abbrev pub IsDistinct : List Schedule → Type 0
IsDistinct [] = Unit
IsDistinct (x ∷ xs) = All (λ y. text_eq y.id x.id ≡ false) xs × IsDistinct xs

-- The ids of the enabled schedules, in the order in which the loop meets them.
unfoldable pub collect : List Schedule → List Text → List Text
collect [] ids = ids
collect (x ∷ xs) ids = collect xs (if x.enabled then x.id ∷ ids else ids)

collect-grows :
    (k : Text) (xs : List Schedule) (ids : List Text)
    → is_desired k ids ≡ true
    → is_desired k (collect xs ids) ≡ true
unfolding collect is_desired
collect-grows k [] ids h = h
collect-grows k (x ∷ xs) ids h =
    collect-grows k xs (if x.enabled then x.id ∷ ids else ids) (ground (arith, h))

collect-IsIn :
    (x : Schedule) (xs : List Schedule) (ids : List Text)
    → IsIn x xs
    → x.enabled ≡ true
    → is_desired x.id (collect xs ids) ≡ true
unfolding collect is_desired
collect-IsIn x [] ids m on = elim m [ ]
collect-IsIn x (_ ∷ xs) ids first on =
    collect-grows x.id xs (if x.enabled then x.id ∷ ids else ids)
      (ground (arith, text_eq_refl x.id))
collect-IsIn x (y ∷ xs) ids (later m) on =
    collect-IsIn x xs (if y.enabled then y.id ∷ ids else ids) m on

module _ (o : Outside) where
  place_all-desired :
      (xs : List Schedule) (s : State)
      → (place_all o xs s).1 ≡ none
      → (place_all o xs s).0.desired ≡ collect xs s.desired
  unfolding place_all collect
  place_all-desired [] s h = refl
  place_all-desired (x ∷ xs) s h =
      let (done, same) = after-none (place o x s) (place_all o xs) h in
      ap (λ p. p.0.desired) same
      ∙ (place_all-desired xs (place o x s).0 (ap (λ p. p.1) (sym same) ∙ h)
          ∙ ap (collect xs) (place-desired o x s done))

  place_all-other :
      (k : Text) (xs : List Schedule) (s : State)
      → All (λ y. text_eq y.id k ≡ false) xs
      → (place_all o xs s).1 ≡ none
      → lookup k (place_all o xs s).0.entries ≡ lookup k s.entries
  unfolding place_all
  place_all-other k [] s others h = refl
  place_all-other k (x ∷ xs) s others h =
      let (done, same) = after-none (place o x s) (place_all o xs) h in
      ap (λ p. lookup k p.0.entries) same
      ∙ (place_all-other k xs (place o x s).0 others.1 (ap (λ p. p.1) (sym same) ∙ h)
          ∙ place-other o x k s others.0 done)

  -- The schedule has an entry with its fingerprint.
  abbrev pub IsPlaced : Schedule → List (Text × Entry) → Type 0
  IsPlaced x m =
      (e : Entry) × (lookup x.id m ≡ some e) × (o.fingerprint x.content ≡ some e.fingerprint)

  place_all-IsPlaced :
      (x : Schedule) (xs : List Schedule) (s : State)
      → IsDistinct xs
      → IsIn x xs
      → x.enabled ≡ true
      → (place_all o xs s).1 ≡ none
      → IsPlaced x (place_all o xs s).0.entries
  unfolding place_all
  place_all-IsPlaced x [] s distinct m on h = elim m [ ]
  place_all-IsPlaced x (_ ∷ xs) s distinct first on h =
      let (done, same) = after-none (place o x s) (place_all o xs) h in
      let (fp, known, ((e, there, is_fp), _, _)) = place-enabled o x s on done in
      (
        e,
        ap (λ p. lookup x.id p.0.entries) same
            ∙ (place_all-other x.id xs (place o x s).0 distinct.0 (ap (λ p. p.1) (sym same) ∙ h)
                ∙ there),
        known ∙ ap some (sym is_fp),
      )
  place_all-IsPlaced x (y ∷ xs) s distinct (later m) on h =
      let (done, same) = after-none (place o y s) (place_all o xs) h in
      subst (λ p. IsPlaced x p.0.entries) (sym same)
        (place_all-IsPlaced x xs (place o y s).0 distinct.1 m on (ap (λ p. p.1) (sym same) ∙ h))

  turn_other :
      (k id : Text) (b : Bool) (m : List (Text × Entry))
      → text_eq id k ≡ false
      → lookup k (if b then m else erase id m) ≡ lookup k m
  turn_other k id true m other = refl
  turn_other k id false m other = lookup-erase_other k id m other

  turn_same :
      (k id : Text) (b : Bool) (m : List (Text × Entry))
      → id ≡ k
      → b ≡ false
      → lookup k (if b then m else erase id m) ≡ none
  turn_same k id true m same off = absurd (ground arith)
  turn_same k id false m same off = ap (λ j. lookup k (erase j m)) same ∙ lookup-erase k m

  -- The second loop leaves the entries of the desired schedules,
  drop_all-desired :
      (k : Text) (es : List (Text × Entry)) (s : State)
      → is_desired k s.desired ≡ true
      → (drop_all o es s).1 ≡ none
      → lookup k (drop_all o es s).0.entries ≡ lookup k s.entries
  unfolding drop_all
  drop_all-desired k [] s wanted h = refl
  drop_all-desired k ((id, e) ∷ es) s wanted h =
      let (done, same) = after-none (drop_stale o id e s) (drop_all o es) h in
      let (desired, entries) = drop_stale-none o id e s done in
      ap (λ p. lookup k p.0.entries) same
      ∙ (drop_all-desired k es (drop_stale o id e s).0 (ap (is_desired k) desired ∙ wanted)
            (ap (λ p. p.1) (sym same) ∙ h)
          ∙ (ap (lookup k) entries ∙ kept))
    where
      kept :
          lookup k (if is_desired id s.desired then s.entries else erase id s.entries)
          ≡ lookup k s.entries
      kept = elim (Bool-cases (text_eq id k)) [
        | inl same_id ↦
            let it_is : is_desired id s.desired ≡ true =
              ap (λ z. is_desired z s.desired) (text_eq_sound id k same_id) ∙ wanted in
            rw it_is refl
        | inr other ↦ turn_other k id (is_desired id s.desired) s.entries other
      ]

  -- and no others.
  drop_all-stale :
      (k : Text) (es : List (Text × Entry)) (s : State)
      → is_desired k s.desired ≡ false
      → (lookup k s.entries ≡ none) ⊎ ((e : Entry) × (lookup k es ≡ some e))
      → (drop_all o es s).1 ≡ none
      → lookup k (drop_all o es s).0.entries ≡ none
  unfolding drop_all lookup
  drop_all-stale k [] s unwanted (inl gone) h = gone
  drop_all-stale k [] s unwanted (inr (e, there)) h = absurd (ground arith)
  drop_all-stale k ((id, e) ∷ es) s unwanted m h =
      let (done, same) = after-none (drop_stale o id e s) (drop_all o es) h in
      let (desired, entries) = drop_stale-none o id e s done in
      ap (λ p. lookup k p.0.entries) same
      ∙ drop_all-stale k es (drop_stale o id e s).0 (ap (is_desired k) desired ∙ unwanted)
          (rest m (drop_stale o id e s).0.entries entries) (ap (λ p. p.1) (sym same) ∙ h)
    where
      rest :
          (lookup k s.entries ≡ none) ⊎ ((x : Entry) × (lookup k ((id, e) ∷ es) ≡ some x))
          → (m' : List (Text × Entry))
          → m' ≡ (if is_desired id s.desired then s.entries else erase id s.entries)
          → (lookup k m' ≡ none) ⊎ ((x : Entry) × (lookup k es ≡ some x))
      rest m m' entries = elim (Bool-cases (text_eq id k)) [
        | inl same_id ↦
            let is_k = text_eq_sound id k same_id in
            inl (
              ap (lookup k) entries
              ∙ turn_same k id (is_desired id s.desired) s.entries is_k
                  (ap (λ z. is_desired z s.desired) is_k ∙ unwanted))
        | inr other ↦ elim m [
          | inl gone ↦ inl (
              ap (lookup k) entries
              ∙ (turn_other k id (is_desired id s.desired) s.entries other ∙ gone))
          | inr (x, there) ↦ inr (x, ground arith)
        ]
      ]

  -- If Replace returns nil, then every schedule that is enabled has an entry with the schedule's
  -- fingerprint. No two schedules have the same id.
  pub replace-IsPlaced :
      (xs : List Schedule) (entries : List (Text × Entry)) (x : Schedule)
      → IsDistinct xs
      → (replace o xs entries).1 ≡ none
      → IsIn x xs
      → x.enabled ≡ true
      → IsPlaced x (replace o xs entries).0.entries
  unfolding replace
  replace-IsPlaced xs entries x distinct h m on =
      let (done, same) =
        after-none (place_all o xs (start entries)) (λ s. drop_all o s.entries s) h in
      let placed = place_all-IsPlaced x xs (start entries) distinct m on done in
      let s1 = (place_all o xs (start entries)).0 in
      let wanted : is_desired x.id s1.desired ≡ true =
        ap (is_desired x.id) (place_all-desired xs (start entries) done)
        ∙ collect-IsIn x xs [] m on in
      (
        placed.0,
        ap (λ p. lookup x.id p.0.entries) same
            ∙ (drop_all-desired x.id s1.entries s1 wanted (ap (λ p. p.1) (sym same) ∙ h)
                ∙ placed.1),
        placed.2,
      )

  -- If Replace returns nil, then an id that no enabled schedule has has no entry.
  pub replace-stale :
      (xs : List Schedule) (entries : List (Text × Entry)) (k : Text)
      → (replace o xs entries).1 ≡ none
      → is_desired k (collect xs []) ≡ false
      → lookup k (replace o xs entries).0.entries ≡ none
  unfolding replace
  replace-stale xs entries k h unwanted =
      let (done, same) =
        after-none (place_all o xs (start entries)) (λ s. drop_all o s.entries s) h in
      let s1 = (place_all o xs (start entries)).0 in
      ap (λ p. lookup k p.0.entries) same
      ∙ drop_all-stale k s1.entries s1
          (ap (is_desired k) (place_all-desired xs (start entries) done) ∙ unwanted)
          (Option-cases (lookup k s1.entries)) (ap (λ p. p.1) (sym same) ∙ h)
