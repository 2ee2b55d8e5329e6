-- ===== src/Task/Registry.antt =====
-- pkg/modules/task/registry.go and runtime_catalog.go: handlers by task type. The Go map is an
-- association list in which a key occurs once; a handler is a value of any type, and a nil Handler
-- in a catalog is `none`. Each method holds the registry's lock throughout.
pub mod Laws
mod Tests
use backend_infrastructure_g.Base.{
  ℕ, Bool, true, false, Option, none, some, List, [], ◌∷◌, ◌++◌, Text, text_eq, trim_space,
  if◌then◌else◌,
}

module _ {ℓ} {H : Type ℓ} where
  -- `registry.handlers[taskType]`.
  unfoldable pub lookup : Text → List (Text × H) → Option H
  lookup task_type [] = none
  lookup task_type ((k, h) ∷ m) =
      let rest = lookup task_type m in if text_eq k task_type then some h else rest

  -- `Register`: false stands for ErrHandlerRegistered.
  unfoldable pub register : Text → H → List (Text × H) → List (Text × H) × Bool
  register task_type handler m = elim (lookup task_type m) [
    | some h ↦ (m, false)
    | none ↦ ((task_type, handler) ∷ m, true)
  ]

  -- `Resolve`: `none` stands for ErrHandlerNotFound.
  unfoldable pub resolve : Text → List (Text × H) → Option H
  resolve = lookup

  -- One registration of `NewTaskCatalog` on the catalog built so far.
  unfoldable pub add_registration : Text → Option H → List (Text × H) → Option (List (Text × H))
  add_registration task_type none catalog = none
  add_registration [] (some h) catalog = none
  add_registration (c ∷ s) (some h) catalog = elim (lookup (c ∷ s) catalog) [
    | some x ↦ none
    | none ↦ some (catalog ++ (c ∷ s, h) ∷ [])
  ]

  add_all : List (Text × Option H) → Option (List (Text × H)) → Option (List (Text × H))
  add_all rest none = none
  add_all [] (some catalog) = some catalog
  add_all ((task_type, h) ∷ rest) (some catalog) =
      add_all rest (add_registration (trim_space task_type) h catalog)

  -- `NewTaskCatalog`: `none` stands for ErrInvalidTaskCatalog.
  unfoldable pub new_task_catalog : List (Text × Option H) → Option (List (Text × H))
  unfolding add_all
  new_task_catalog registrations = add_all registrations (some [])

  -- `Contains`.
  unfoldable pub contains : Text → List (Text × H) → Bool
  contains task_type catalog = elim (lookup task_type catalog) [ none ↦ false | some h ↦ true ]

  -- `RegisterHandlers`: registers in order, up to the first refusal.
  unfoldable pub register_handlers : List (Text × H) → List (Text × H) → List (Text × H) × Bool
  register_handlers [] registry = (registry, true)
  register_handlers ((task_type, h) ∷ rest) registry =
      let (registry', done) = register task_type h registry in
      let more = register_handlers rest registry' in if done then more else (registry', false)
