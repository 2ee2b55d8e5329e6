-- ===== src/Iam/Rbac.antt =====
-- pkg/modules/iam/rbac.go: which permission a list of granted ones covers.
pub mod Laws
mod Tests
use backend_infrastructure_g.Base.{
  ℕ, Bool, true, false, ◌&&◌, ◌||◌, List, [], ◌∷◌, ◌++◌, Text, codes, text_eq, ◌==◌, if◌then◌else◌,
}

-- `strings.Cut(s, ":")`: what stands before the first colon, and whether there is one. What stands
-- after it is not used.
unfoldable pub cut : Text → Text × Bool
cut [] = ([], false)
cut (c ∷ s) = let (before, found) = cut s in if c == b':' then ([], true) else (c ∷ before, found)

-- The loop over the granted permissions.
unfoldable pub any_grants : Text → Bool → Text → List Text → Bool
any_grants required has_action module_all [] = false
any_grants required has_action module_all (permission ∷ granted) =
    let rest = any_grants required has_action module_all granted in
    if text_eq permission (codes "*") || text_eq permission required
    then true
    else (if has_action && text_eq permission module_all then true else rest)

unfoldable pub has_permission : List Text → Text → Bool
unfolding any_grants cut
has_permission granted [] = false
has_permission granted (c ∷ s) =
    let (before, has_action) = cut (c ∷ s) in
    any_grants (c ∷ s) has_action (before ++ codes ":*") granted
