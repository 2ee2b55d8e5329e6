-- ===== src/Http/RateLimit/Tests.antt =====
-- A limit of two calls in ten nanoseconds.
use backend_infrastructure_g.Base.{
  ◌≡◌, refl, ◌≤◌, Option, none, List, [], ◌∷◌, Text, codes, text_eq, ℤ, pos, ◌-ℤ◌, arith,
}
use backend_infrastructure_g.Http.RateLimit.{
  RateLimitDecision, attempts_of, put, active, decide, allow,
}
use backend_infrastructure_g.Http.RateLimit.Window.{
  in_window, is_allowed, granted, granted-in_window,
}

abbrev calls : List (Text × ℤ)
calls =
    (codes "a", pos 1)
    ∷ (codes "b", pos 2)
    ∷ (codes "a", pos 3)
    ∷ (codes "a", pos 4)
    ∷ (codes "a", pos 11)
    ∷ []

grants : granted (codes "a") (pos 2) (pos 10) calls [] ≡ pos 1 ∷ pos 3 ∷ pos 11 ∷ []
unfolding granted allow decide active attempts_of put is_allowed text_eq ◌-ℤ◌
grants = refl

granted-in_window_example :
    in_window (pos 10) (pos 0) (granted (codes "a") (pos 2) (pos 10) calls []) ≤ 2
granted-in_window_example =
    granted-in_window 2 10 (omega arith) (omega arith) (codes "a") (pos 0) calls
      (omega arith, (omega arith, (omega arith, (omega arith, (omega arith, tt))))) (pos 0)

abbrev no_decision : Option RateLimitDecision
no_decision = none
