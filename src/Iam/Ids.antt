-- ===== src/Iam/Ids.antt =====
-- pkg/modules/iam/service.go: `normalizedIDs` and `normalizeRoleInput`.
pub mod Laws
mod Tests
use backend_infrastructure_g.Base.{
  ℕ, Bool, true, false, ◌||◌, Option, none, some, List, [], ◌∷◌, ◌++◌, Text, text_eq, trim_space,
  if◌then◌else◌,
}

-- The set `seen` holds what the result holds.
unfoldable pub seen : Text → List Text → Bool
seen value [] = false
seen value (v ∷ result) = text_eq v value || seen value result

abbrev pub with_value : Text → List Text → List Text
with_value value result = if seen value result then result else result ++ value ∷ []

-- The loop; `none` stands for ErrInvalidUserInput.
unfoldable pub normalize_from : List Text → List Text → Option (List Text)
unfolding seen
normalize_from [] result = some result
normalize_from (value ∷ values) result = elim (trim_space value) [
  | [] ↦ none
  | c ∷ s ↦ normalize_from values (with_value (c ∷ s) result)
]

unfoldable pub normalized_ids : List Text → Option (List Text)
unfolding normalize_from
normalized_ids values = normalize_from values []

pub record RoleInput : Type 0 where
  pub name : Text
  pub description : Text

unfoldable pub normalize_role_input : RoleInput → Option RoleInput
normalize_role_input input = elim (trim_space input.name) [
  | [] ↦ none
  | c ∷ s ↦ some record { name = c ∷ s; description = trim_space input.description }
]
