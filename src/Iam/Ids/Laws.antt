-- ===== src/Iam/Ids/Laws.antt =====
-- What `normalizedIDs` (service.go) makes of a list of ids.
use backend_infrastructure_g.Base.{
  ◌≡◌, ◌≢◌, refl, sym, ap, ◌∙◌, subst, ◌↔◌, inl, inr, false, ◌||◌, Option, none, some, List, [],
  ◌∷◌, ◌++◌, map, Text, text_eq, text_eq_sound, text_eq_refl, trim_space, arith, Bool-cases, IsIn,
  first, later,
}
use backend_infrastructure_g.Iam.Ids.{seen, with_value, normalize_from, normalized_ids}

-- No member stands twice.
abbrev pub IsDistinct : List Text → Type 0
IsDistinct [] = Unit
IsDistinct (x ∷ xs) = (seen x xs ≡ false) × IsDistinct xs

seen-append : (w v : Text) (xs : List Text) → seen w (xs ++ v ∷ []) ≡ (seen w xs || text_eq v w)
unfolding seen
seen-append w v [] = ground arith
seen-append w v (x ∷ xs) = ground (arith, seen-append w v xs)

append-IsDistinct :
    (v : Text) (xs : List Text) → IsDistinct xs → seen v xs ≡ false → IsDistinct (xs ++ v ∷ [])
unfolding seen
append-IsDistinct v [] d h = (refl, tt)
append-IsDistinct v (x ∷ xs) d h = (
  ground (arith, seen-append x v xs, d.0, text_eq_sound v x, text_eq_refl x),
  append-IsDistinct v xs d.1 (ground arith),
)

with_value-IsDistinct : (v : Text) (xs : List Text) → IsDistinct xs → IsDistinct (with_value v xs)
with_value-IsDistinct v xs d = elim (Bool-cases (seen v xs)) [
  | inl old ↦ rw old d
  | inr new ↦ rw new (append-IsDistinct v xs d new)
]

seen-with_value :
    (w v : Text) (xs : List Text) → seen w (with_value v xs) ≡ (seen w xs || text_eq v w)
seen-with_value w v xs = elim (Bool-cases (seen v xs)) [
  | inl old ↦ rw old (ground (arith, text_eq_sound v w, ap (λ x. seen x xs) (text_eq_sound v w _)))
  | inr new ↦ rw new (seen-append w v xs)
]

-- The rest of the loop once the value is trimmed.
abbrev continue : Text → List Text → List Text → Option (List Text)
continue [] values result = none
continue (c ∷ s) values result = normalize_from values (with_value (c ∷ s) result)

normalize_from_cons :
    (value : Text) (values result : List Text)
    → normalize_from (value ∷ values) result ≡ continue (trim_space value) values result
unfolding normalize_from
normalize_from_cons value values result = cases (trim_space value)
  where
    cases :
        (t : Text)
        → (elim t as (λ x. Option (List Text)) [
          | [] ↦ none
          | c ∷ s ↦ normalize_from values (with_value (c ∷ s) result)
        ])
          ≡ continue t values result
    cases [] = refl
    cases (c ∷ s) = refl

-- What the loop has made of the values, from what it had collected.
abbrev Collects : List Text → Text → List Text → List Text → Type 0
Collects values w r result =
    IsDistinct r × (seen w r ≡ (seen w result || seen w (map trim_space values)))

continue_lem :
    (t : Text) (values result r : List Text) (w : Text)
    → ((result' : List Text)
        → normalize_from values result' ≡ some r
        → IsDistinct result'
        → Collects values w r result')
    → continue t values result ≡ some r
    → IsDistinct result
    → IsDistinct r × (seen w r ≡ (seen w result || (text_eq t w || seen w (map trim_space values))))
continue_lem [] values result r w ih e d = cc
continue_lem (c ∷ s) values result r w ih e d =
    let (d', members) = ih (with_value (c ∷ s) result) e (with_value-IsDistinct (c ∷ s) result d) in
    (d', ground (arith, members, seen-with_value w (c ∷ s) result))

normalize_from_lem :
    (values result r : List Text) (w : Text)
    → normalize_from values result ≡ some r
    → IsDistinct result
    → Collects values w r result
unfolding normalize_from seen
normalize_from_lem [] result r w e d =
    let same : result ≡ r = cc e in (subst IsDistinct same d, ground (arith, ap (seen w) same))
normalize_from_lem (value ∷ values) result r w e d =
    continue_lem (trim_space value) values result r w
      (λ result'. normalize_from_lem values result' r w)
      (sym (normalize_from_cons value values result) ∙ e) d

-- A list of ids that is accepted has no id twice, and its ids are exactly the given ones, trimmed.
pub normalized_ids_lem :
    (values r : List Text) (w : Text)
    → normalized_ids values ≡ some r
    → IsDistinct r × (seen w r ≡ seen w (map trim_space values))
unfolding normalized_ids seen
normalized_ids_lem values r w e = normalize_from_lem values [] r w e tt

-- Some value is blank.
abbrev pub HasBlank : List Text → Type 0
HasBlank values = (v : Text) × IsIn v values × (trim_space v ≡ [])

HasBlank-later :
    (value : Text) (values : List Text)
    → trim_space value ≢ []
    → HasBlank (value ∷ values)
    → HasBlank values
HasBlank-later value values full (v, first, blank) = absurd (full blank)
HasBlank-later value values full (v, later there, blank) = (v, there, blank)

continue-HasBlank :
    (t value : Text) (values result : List Text)
    → ((result' : List Text) → (normalize_from values result' ≡ none) ↔ HasBlank values)
    → trim_space value ≡ t
    → (continue t values result ≡ none) ↔ HasBlank (value ∷ values)
continue-HasBlank [] value values result ih e = ((λ _. (value, first, e)), λ _. refl)
continue-HasBlank (c ∷ s) value values result ih e =
    let rest = ih (with_value (c ∷ s) result) in
    (
      (λ h. let (v, there, blank) = rest.0 h in (v, later there, blank)),
      (λ h. rest.1 (HasBlank-later value values (λ x. cc (x, e)) h)),
    )

normalize_from-HasBlank :
    (values result : List Text) → (normalize_from values result ≡ none) ↔ HasBlank values
unfolding normalize_from
normalize_from-HasBlank [] result = ((λ e. cc), λ h. elim (h.1) [ ])
normalize_from-HasBlank (value ∷ values) result =
    rw (normalize_from_cons value values result) (
      continue-HasBlank (trim_space value) value values result (normalize_from-HasBlank values)
        refl)

-- A list of ids is refused exactly if one of them is blank.
pub normalized_ids-none_iff :
    (values : List Text)
    → (normalized_ids values ≡ none) ↔ ((v : Text) × IsIn v values × (trim_space v ≡ []))
unfolding normalized_ids
normalized_ids-none_iff values = normalize_from-HasBlank values []
