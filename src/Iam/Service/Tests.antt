-- ===== src/Iam/Service/Tests.antt =====
-- A service with one user, whose password is "pw".
use backend_infrastructure_g.Base.{
  ◌≡◌, refl, ◌↔◌, ◌⊎◌, true, false, none, some, List, [], ◌∷◌, Text, codes, text_eq, trim_space,
  if◌then◌else◌,
}
use backend_infrastructure_g.Iam.Rbac.{has_permission}
use backend_infrastructure_g.Iam.Refresh.{issue}
use backend_infrastructure_g.Iam.Refresh.Session.{no_keys}
use backend_infrastructure_g.Iam.Service.{
  User, found, missing, TokenPair, opened, Backend, login, checked, hash_of, issue_pair, authorize,
}
use backend_infrastructure_g.Iam.Service.Laws.{IsActiveUser, authorize-none_iff}

abbrev same : Text → Text
same s = s

abbrev ann : User
ann = record {
  id = codes "u1";
  email = codes "ann";
  email_verified = true;
  password_hash = codes "h";
  active = true;
}

abbrev backend : Backend
backend = record {
  find_by_email = λ e. if text_eq e (codes "ann") then found ann else missing;
  find_by_id = λ i. found ann;
  permissions_for_user = λ i. some (codes "task:*" ∷ []);
  initialized = some (some true);
  verify = λ p h. some (text_eq p (codes "pw"));
  issue_access = λ i. some (codes "access");
  lower = λ s. s;
  new_token = some (codes "t1");
  cache_fault = false;
}

abbrev pair : TokenPair
pair = record { access_token = codes "access"; refresh_token = codes "t1" }

logs_in : (login same backend (codes " ann") (codes "pw") (no_keys same)).1 ≡ opened pair
unfolding login checked hash_of issue_pair issue text_eq trim_space
logs_in = refl

authorize-none_iff_example : (authorize same backend (codes "u1") (codes "task:run") ≡ none) ↔ (
    ((backend.initialized ≡ none) ⊎ IsActiveUser same backend (codes "u1"))
    × ((p : List Text) × (backend.permissions_for_user (codes "u1") ≡ some p)
        × (has_permission p (codes "task:run") ≡ true)))
authorize-none_iff_example = authorize-none_iff same backend (codes "u1") (codes "task:run")
