-- ===== src/Http/RateLimit/Middleware.antt =====
-- What the middleware RateLimit replies.
use backend_infrastructure_g.Base.{
  ℕ, ◌+◌, ◌*◌, ◌≡◌, refl, ◌/◌, leb, ◌≤◌, ◌<◌, ◌↔◌, ◌⊎◌, inl, inr, Bool, true, false, Option, none,
  some, ℤ, pos, pos_part, ◌≤ℤ◌, arith, Bool-cases,
}
use backend_infrastructure_g.Http.RateLimit.{
  RateLimitDecision, unavailable, second, retry_seconds, rate_limit, reply_to,
}

-- Retry-After is the least number of seconds that is positive and not shorter than the delay.
pub retry_seconds_lem :
    (d : ℤ)
    → (n : ℕ) × (retry_seconds d ≡ pos n)
      × (1 ≤ n)
      × (d ≤ℤ pos (n * second))
      × ((n ≡ 1) ⊎ (n * second < pos_part d + second))
unfolding retry_seconds
retry_seconds_lem d = elim (Bool-cases (leb ((pos_part d + 999999999) / 1000000000) 0)) [
  | inl none_ ↦ (1, ground arith, ground arith, ground arith, inl refl)
  | inr some_ ↦ (
    (pos_part d + 999999999) / 1000000000,
    ground arith,
    ground arith,
    ground arith,
    inr (ground arith),
  )
]

-- A critical route is answered 503 exactly if the limiter is missing, has a bound that is not
-- positive or returns an error; no other route ever is.
pub rate_limit-unavailable_iff :
    (has_limiter : Bool) (critical : Bool) (limit window : ℤ) (answer : Option RateLimitDecision)
    → (rate_limit has_limiter limit window critical answer ≡ unavailable) ↔ (
        (critical ≡ true)
        × ((has_limiter ≡ false) ⊎ ((limit ≤ℤ pos 0) ⊎ ((window ≤ℤ pos 0) ⊎ (answer ≡ none)))))
unfolding rate_limit reply_to
rate_limit-unavailable_iff has_limiter true limit window none = ground arith
rate_limit-unavailable_iff has_limiter false limit window none = ground arith
rate_limit-unavailable_iff has_limiter true limit window (some d) = ground arith
rate_limit-unavailable_iff has_limiter false limit window (some d) = ground arith
