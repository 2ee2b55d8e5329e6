-- ===== src/Task/Model/Tests.antt =====
-- Statuses on concrete inputs.
use backend_infrastructure_g.Base.{◌≡◌, refl, none, codes, text_eq}
use backend_infrastructure_g.Task.Model.{parse_status}

unknown_status : parse_status (codes "done") ≡ none
unfolding parse_status text_eq
unknown_status = refl
