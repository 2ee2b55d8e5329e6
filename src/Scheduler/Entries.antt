-- ===== src/Scheduler/Entries.antt =====
-- Maps by text, as association lists.
use backend_infrastructure_g.Base.{
  ◌≡◌, refl, ap, ◌∙◌, inl, inr, false, Option, none, some, List, [], ◌∷◌, Text, text_eq,
  text_eq_sound, arith, if◌then◌else◌, Bool-cases,
}

module _ {A : Type 0} where
  unfoldable pub lookup : Text → List (Text × A) → Option A
  lookup k [] = none
  lookup k ((j, v) ∷ m) = let rest = lookup k m in if text_eq j k then some v else rest

  unfoldable pub erase : Text → List (Text × A) → List (Text × A)
  erase k [] = []
  erase k ((j, v) ∷ m) = let rest = erase k m in if text_eq j k then rest else (j, v) ∷ rest

  abbrev pub insert : Text → A → List (Text × A) → List (Text × A)
  insert k v m = (k, v) ∷ erase k m

  pub lookup-erase : (k : Text) (m : List (Text × A)) → lookup k (erase k m) ≡ none
  unfolding lookup erase
  lookup-erase k [] = refl
  lookup-erase k ((j, v) ∷ m) = ground (arith, lookup-erase k m)

  pub lookup-erase_other :
      (k j : Text) (m : List (Text × A)) → text_eq j k ≡ false → lookup k (erase j m) ≡ lookup k m
  unfolding lookup erase
  lookup-erase_other k j [] h = refl
  lookup-erase_other k j ((i, v) ∷ m) h = elim (Bool-cases (text_eq i j)) [
    | inl same ↦
        let e : i ≡ j = text_eq_sound i j same in
        let i_other : text_eq i k ≡ false = ap (λ x. text_eq x k) e ∙ h in
        ground (arith, lookup-erase_other k j m h)
    | inr other ↦ ground (arith, lookup-erase_other k j m h)
  ]
