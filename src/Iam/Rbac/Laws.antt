-- ===== src/Iam/Rbac/Laws.antt =====
-- What `HasPermission` (rbac.go) decides.
use backend_infrastructure_g.Base.{
  ◌≡◌, ◌≢◌, refl, sym, ap, ◌∙◌, ◌↔◌, ◌⊎◌, inl, inr, Bool, true, false, ◌&&◌, List, [], ◌∷◌, ◌++◌,
  Text, codes, text_eq, text_eq_sound, text_eq_complete, ◌==◌, arith, Bool-cases, IsIn, first,
  later,
}
use backend_infrastructure_g.Iam.Rbac.{cut, any_grants, has_permission}

-- No colon occurs.
abbrev pub NoColon : Text → Type 0
NoColon [] = Unit
NoColon (c ∷ s) = ((c == b':') ≡ false) × NoColon s

-- The permission's module: what comes before its first colon.
pub record HasModule (module_name permission : Text) : Type 0 where
  pub action : Text
  pub split : permission ≡ module_name ++ b':' ∷ action
  pub plain : NoColon module_name

-- A granted permission covers a required one: it is `*`, or the same, or `module:*` for the module
-- of the required one.
abbrev pub Covers : Text → Text → Type 0
Covers p required =
    (p ≡ codes "*") ⊎ ((p ≡ required) ⊎ ((m : Text) × HasModule m required × (p ≡ m ++ codes ":*")))

cut-HasModule : (s : Text) → (cut s).1 ≡ true → HasModule (cut s).0 s
unfolding cut
cut-HasModule [] e = cc
cut-HasModule (c ∷ s) e = elim (Bool-cases (c == b':')) [
  | inl colon ↦ rw colon record { action = s; split = ground arith; plain = tt }
  | inr other ↦
      let h = cut-HasModule s (rw other at e) in
      rw other record { action = h.action; split = ap (◌∷◌ c) h.split; plain = (other, h.plain) }
]

cut_module : (m action : Text) → NoColon m → cut (m ++ b':' ∷ action) ≡ (m, true)
unfolding cut
cut_module [] action h = refl
cut_module (c ∷ m) action h = rw (h.0, cut_module m action h.1) refl

module _ (required : Text) (has_action : Bool) (whole : Text) where
  -- What one round of the loop accepts.
  abbrev Accepts : Text → Type 0
  Accepts p = (p ≡ codes "*") ⊎ ((p ≡ required) ⊎ ((has_action ≡ true) × (p ≡ whole)))

  any_grants_sound :
      (granted : List Text)
      → any_grants required has_action whole granted ≡ true
      → (p : Text) × IsIn p granted × Accepts p
  unfolding any_grants
  any_grants_sound [] e = cc
  any_grants_sound (p ∷ granted) e = elim (Bool-cases (text_eq p (codes "*"))) [
    | inl star ↦ (p, first, inl (text_eq_sound p _ star))
    | inr not_star ↦ elim (Bool-cases (text_eq p required)) [
      | inl same ↦ (p, first, inr (inl (text_eq_sound p required same)))
      | inr not_same ↦ elim (Bool-cases (has_action && text_eq p whole)) [
        | inl all_of ↦ (p, first, inr (inr (ground arith, text_eq_sound p whole (ground arith))))
        | inr not_all ↦
            let (q, there, covers) = any_grants_sound granted (ground arith) in
            (q, later there, covers)
      ]
    ]
  ]

  any_grants_complete :
      (p : Text) (granted : List Text)
      → IsIn p granted
      → Accepts p
      → any_grants required has_action whole granted ≡ true
  unfolding any_grants
  any_grants_complete p [] there covers = elim there [ ]
  any_grants_complete p (q ∷ granted) first (inl star) =
      ground (arith, text_eq_complete p (codes "*") star)
  any_grants_complete p (q ∷ granted) first (inr (inl same)) =
      ground (arith, text_eq_complete p required same)
  any_grants_complete p (q ∷ granted) first (inr (inr (acts, all_of))) =
      ground (arith, text_eq_complete p whole all_of)
  any_grants_complete p (q ∷ granted) (later there) covers =
      ground (arith, any_grants_complete p granted there covers)

-- A permission that is required is granted exactly if it is not empty and some granted permission
-- covers it: `*`, the permission itself, or `module:*` for what comes before its first colon.
pub has_permission_iff :
    (granted : List Text) (required : Text)
    → (has_permission granted required ≡ true)
      ↔ ((required ≢ []) × ((p : Text) × IsIn p granted × Covers p required))
unfolding has_permission
has_permission_iff granted [] = ((λ e. cc), λ h. absurd (h.0 refl))
has_permission_iff granted (c ∷ s) =
    let whole = (cut (c ∷ s)).0 ++ codes ":*" in
    (
      (λ e.
          let (p, there, accepts) = any_grants_sound (c ∷ s) (cut (c ∷ s)).1 whole granted e in
          ((λ x. cc), (p, there, to_covers p accepts))),
      (λ h.
          let (p, there, covers) = h.1 in
          any_grants_complete (c ∷ s) (cut (c ∷ s)).1 whole p granted there (of_covers p covers)),
    )
  where
    to_covers :
        (p : Text)
        → Accepts (c ∷ s) (cut (c ∷ s)).1 ((cut (c ∷ s)).0 ++ codes ":*") p
        → Covers p (c ∷ s)
    to_covers p (inl star) = inl star
    to_covers p (inr (inl same)) = inr (inl same)
    to_covers p (inr (inr (acts, all_of))) =
        inr (inr ((cut (c ∷ s)).0, cut-HasModule (c ∷ s) acts, all_of))

    of_covers :
        (p : Text)
        → Covers p (c ∷ s)
        → Accepts (c ∷ s) (cut (c ∷ s)).1 ((cut (c ∷ s)).0 ++ codes ":*") p
    of_covers p (inl star) = inl star
    of_covers p (inr (inl same)) = inr (inl same)
    of_covers p (inr (inr (m, h, all_of))) =
        let e : cut (c ∷ s) ≡ (m, true) = ap cut h.split ∙ cut_module m h.action h.plain in
        inr (inr (ap (λ x. x.1) e, all_of ∙ ap (λ x. x.0 ++ codes ":*") (sym e)))
