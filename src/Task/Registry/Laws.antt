-- ===== src/Task/Registry/Laws.antt =====
-- What the registry and the catalog keep.
use backend_infrastructure_g.Base.{
  ◌≡◌, ◌↔◌, inl, inr, true, false, Option, none, some, List, [], ◌∷◌, Text, text_eq, text_eq_sound,
  text_eq_refl, arith, Option-cases,
}
use backend_infrastructure_g.Task.Registry.{lookup, register, resolve, register_handlers}

module _ {ℓ} {H : Type ℓ} where
  -- A handler that is registered stays the one that its type resolves to, whatever is registered
  -- later, under the same type or another one.
  pub resolve-register_handlers :
      (more : List (Text × H)) (m : List (Text × H)) (k : Text) (h : H)
      → resolve k m ≡ some h
      → resolve k (register_handlers more m).0 ≡ some h
  unfolding register_handlers register resolve lookup
  resolve-register_handlers [] m k h e = e
  resolve-register_handlers ((k', h') ∷ more) m k h e = elim (Option-cases (lookup k' m)) [
    | inr (x, there) ↦ ground arith
    | inl new ↦
        ground (arith, resolve-register_handlers more ((k', h') ∷ m) k h, text_eq_sound k' k)
  ]

  -- What a type resolves to once a handler was offered for it: the one it had, or this one.
  abbrev pub or_new : H → Option H → H
  or_new h none = h
  or_new h (some x) = x

  -- `Register` succeeds exactly if no handler is registered for the type. Then the type resolves to
  -- the new handler, and otherwise to the one it had, while every other type resolves as before.
  pub register_lem :
      (m : List (Text × H)) (k j : Text) (h : H)
      → text_eq k j ≡ false
      → (((register k h m).1 ≡ true) ↔ (resolve k m ≡ none))
        × (resolve k (register k h m).0 ≡ some (or_new h (resolve k m)))
        × (resolve j (register k h m).0 ≡ resolve j m)
  unfolding register resolve lookup
  register_lem m k j h other = elim (Option-cases (lookup k m)) [
    | inr (x, there) ↦ ground arith
    | inl new ↦ ground (arith, text_eq_refl k)
  ]
