-- ===== src/Iam/Ids/Tests.antt =====
-- Ids with blanks around them.
use backend_infrastructure_g.Base.{◌≡◌, refl, some, List, [], ◌∷◌, Text, codes, text_eq, trim_space}
use backend_infrastructure_g.Iam.Ids.{seen, normalize_from, normalized_ids}

abbrev given : List Text
given = codes " a" ∷ codes "b" ∷ codes "a " ∷ []

normalizes : normalized_ids given ≡ some (codes "a" ∷ codes "b" ∷ [])
unfolding normalized_ids normalize_from seen trim_space text_eq
normalizes = refl
