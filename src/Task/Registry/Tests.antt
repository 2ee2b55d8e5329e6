-- ===== src/Task/Registry/Tests.antt =====
-- Handlers that are numbers.
use backend_infrastructure_g.Base.{
  ℕ, ◌≡◌, refl, some, List, [], ◌∷◌, Text, codes, text_eq, trim_space,
}
use backend_infrastructure_g.Task.Registry.{
  lookup, resolve, add_registration, add_all, new_task_catalog,
}

abbrev one : List (Text × ℕ)
one = (codes "mail", 1) ∷ []

abbrev two : List (Text × ℕ)
two = (codes "mail", 2) ∷ (codes "gc", 3) ∷ []

found : resolve (codes "mail") one ≡ some 1
unfolding resolve lookup text_eq
found = refl

trimmed_catalog :
    new_task_catalog {H = ℕ} ((codes " mail ", some 1) ∷ (codes "gc", some 2) ∷ [])
    ≡ some ((codes "mail", 1) ∷ (codes "gc", 2) ∷ [])
unfolding new_task_catalog add_all add_registration lookup trim_space text_eq
trimmed_catalog = refl
