-- ===== src/Iam/Refresh/Tests.antt =====
-- Texts as their own hashes.
use backend_infrastructure_g.Base.{◌≡◌, refl, true, some, List, [], ◌∷◌, Text, codes, text_eq}
use backend_infrastructure_g.Iam.Refresh.{Keys, replace_script, rotate_script}
use backend_infrastructure_g.Iam.Refresh.Session.{
  Event, replaces, rotates, apply, apply_all, no_keys, one_session,
}

abbrev same : Text → Text
same s = s

abbrev events : List Event
events =
    replaces (codes "t1") (codes "u")
    ∷ replaces (codes "t2") (codes "u")
    ∷ rotates (codes "t2") (codes "t3") (codes "u")
    ∷ []

last_token : (apply_all same events (no_keys same)).tokens (codes "t3") ≡ some (codes "u")
unfolding apply_all apply replace_script rotate_script text_eq
last_token = refl

one_session_example : codes "t3" ≡ codes "t3"
one_session_example =
    one_session same events (codes "t3") (codes "t3") (codes "u") last_token last_token

abbrev before : Keys
before = replace_script (codes "t1") (codes "u") (codes "u") (no_keys same)

abbrev after : Keys
after = (rotate_script (codes "t1") (codes "t2") (codes "u") (codes "u") before).0

rotates_once :
    rotate_script (codes "t1") (codes "t2") (codes "u") (codes "u") before ≡ (after, true)
unfolding rotate_script replace_script text_eq
rotates_once = refl
