-- ===== src/Iam/Rbac/Tests.antt =====
-- Permissions of an editor.
use backend_infrastructure_g.Base.{
  ◌≡◌, ◌≢◌, refl, ◌↔◌, true, List, [], ◌∷◌, Text, codes, text_eq, IsIn,
}
use backend_infrastructure_g.Iam.Rbac.{cut, any_grants, has_permission}
use backend_infrastructure_g.Iam.Rbac.Laws.{Covers, has_permission_iff}

abbrev editor : List Text
editor = codes "user:read" ∷ codes "task:*" ∷ []

runs_tasks : has_permission editor (codes "task:run") ≡ true
unfolding has_permission any_grants cut text_eq
runs_tasks = refl

has_permission_iff_example :
    (has_permission editor (codes "task:run") ≡ true)
    ↔ ((codes "task:run" ≢ []) × ((p : Text) × IsIn p editor × Covers p (codes "task:run")))
has_permission_iff_example = has_permission_iff editor (codes "task:run")
