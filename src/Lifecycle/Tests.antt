-- ===== src/Lifecycle/Tests.antt =====
-- Closers and components that are numbers.
use mathlib.Core.List.{reverse}
use backend_infrastructure_g.Base.{
  ℕ, ◌≡◌, Bool, false, none, some, List, [], ◌∷◌, ◌==◌, if◌then◌else◌,
}
use backend_infrastructure_g.Lifecycle.{new_stack, Ending, returned, timed_out, shut_down_all}
use backend_infrastructure_g.Lifecycle.Release.{
  Call, adds, closes, released, released_lem, IsShutDown, shut_down_all-IsShutDown,
}

abbrev calls : List (Call ℕ)
calls = adds (some 1) ∷ adds none ∷ adds (some 2) ∷ closes ∷ adds (some 3) ∷ closes ∷ []

released_lem_example : released calls new_stack ≡ 2 ∷ 1 ∷ []
released_lem_example = released_lem calls

abbrev ends : ℕ → Ending ℕ
ends c = if c == 2 then timed_out else returned (some c)

abbrev canceled : ℕ → Bool
canceled e = false

shut_down_all-IsShutDown_example :
    IsShutDown canceled ends
      (reverse (1 ∷ 2 ∷ 3 ∷ []))
      (shut_down_all canceled ends (1 ∷ 2 ∷ 3 ∷ []))
shut_down_all-IsShutDown_example = shut_down_all-IsShutDown canceled ends (1 ∷ 2 ∷ 3 ∷ [])
