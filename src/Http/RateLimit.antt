-- ===== src/Http/RateLimit.antt =====
-- pkg/httpkit/middleware.go: MemoryRateLimiter and the middleware RateLimit. The limiter holds its
-- mutex throughout `Allow`, so its calls come one after another. Instants and durations are
-- integers in nanoseconds; `attempts` is an association list, with no attempts for a key that is
-- not in it.
pub mod Window
pub mod Middleware
mod Tests
use backend_infrastructure_g.Base.{
  ℕ, ◌+◌, ◌-◌, ◌/◌, Bool, true, false, not, ◌||◌, Option, none, some, List, [], ◌∷◌, ◌++◌, Text,
  text_eq, ℤ, pos, ◌+ℤ◌, ◌-ℤ◌, pos_part, ltb_ℤ, leb_ℤ, length, if◌then◌else◌,
}
use backend_infrastructure_g.Resilience.Breaker.{sub_time}

abbrev pub Attempts : Type 0
Attempts = List (Text × List ℤ)

-- `limiter.attempts[key]`.
unfoldable pub attempts_of : Text → Attempts → List ℤ
attempts_of key [] = []
attempts_of key ((k, times) ∷ m) =
    let rest = attempts_of key m in if text_eq k key then times else rest

-- `limiter.attempts[key] = times`.
unfoldable pub put : Text → List ℤ → Attempts → Attempts
put key times [] = (key, times) ∷ []
put key times ((k, old) ∷ m) =
    let rest = put key times m in if text_eq k key then (k, times) ∷ m else (k, old) ∷ rest

pub record RateLimitDecision : Type 0 where
  pub allowed : Bool
  pub remaining : ℤ
  pub retry_after : ℤ

pub data LimiterError : Type 0 where
  limit_not_positive window_not_positive : LimiterError

-- `Allow` returns a decision or an error.
pub data Answer : Type 0 where
  decided : RateLimitDecision → Answer
  no_answer : LimiterError → Answer

-- The loop over firstActive: drops the attempts up to the first one after the cutoff.
unfoldable pub active : ℤ → List ℤ → List ℤ
active cutoff [] = []
active cutoff (t ∷ times) =
    let rest = active cutoff times in if ltb_ℤ cutoff t then t ∷ times else rest

-- `attempts[0].Add(window).Sub(now)`; there is an attempt, since the limit is positive.
abbrev retry_delay : ℤ → ℤ → List ℤ → ℤ
retry_delay window now [] = pos 0
retry_delay window now (t ∷ times) = sub_time (t +ℤ window) now

-- The decision on the attempts that are active, and the attempts after it.
unfoldable pub decide : ℤ → ℤ → ℤ → List ℤ → List ℤ × RateLimitDecision
decide limit window now times =
    if leb_ℤ limit (pos (length times))
    then (
      times,
      record { allowed = false; remaining = pos 0; retry_after = retry_delay window now times },
    )
    else (
      times ++ now ∷ [],
      record {
        allowed = true;
        remaining = limit -ℤ pos (length (times ++ now ∷ []));
        retry_after = pos 0;
      },
    )

-- `Allow`; the clock's reading is an argument.
unfoldable pub allow : Text → ℤ → ℤ → ℤ → Attempts → Attempts × Answer
unfolding decide active
allow key limit window now m =
    if leb_ℤ limit (pos 0)
    then (m, no_answer limit_not_positive)
    else (if leb_ℤ window (pos 0)
        then (m, no_answer window_not_positive)
        else (let (times, decision) =
              decide limit window now (active (now -ℤ window) (attempts_of key m)) in
            (put key times m, decided decision)))

-- What one request meets in the middleware: the backend's answer (none: an error), whether the
-- configuration has a limiter and positive bounds, and whether the route is critical.
pub data Reply : Type 0 where
  -- The next handler runs without rate limit headers.
  unlimited : Reply
  -- The next handler runs, with X-RateLimit-Limit and X-RateLimit-Remaining.
  passed : ℤ → ℤ → Reply
  -- 429, with the two headers and Retry-After.
  too_many : ℤ → ℤ → ℤ → Reply
  -- 503.
  unavailable : Reply

abbrev pub second : ℕ
second = 1000000000

-- `int(math.Ceil(d.Seconds()))`, at least 1. The seconds of a float64 are taken to be exact, which
-- rounding up can rely on below 2 ^ 22 s.
unfoldable pub retry_seconds : ℤ → ℤ
retry_seconds d =
    let whole = (pos_part d + (second - 1)) / second in
    if leb_ℤ (pos whole) (pos 0) then pos 1 else pos whole

abbrev on_failure : Bool → Reply
on_failure critical = if critical then unavailable else unlimited

unfoldable pub reply_to : ℤ → RateLimitDecision → Reply
unfolding retry_seconds
reply_to limit decision =
    if decision.allowed
    then passed limit decision.remaining
    else too_many limit decision.remaining (retry_seconds decision.retry_after)

unfoldable pub rate_limit : Bool → ℤ → ℤ → Bool → Option RateLimitDecision → Reply
unfolding reply_to
rate_limit has_limiter limit window critical answer =
    if not has_limiter || (leb_ℤ limit (pos 0) || leb_ℤ window (pos 0))
    then on_failure critical
    else elim answer [ none ↦ on_failure critical | some decision ↦ reply_to limit decision ]
