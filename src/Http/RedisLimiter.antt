-- ===== src/Http/RedisLimiter.antt =====
-- pkg/platform/httpserver/redis_rate_limiter.go: RedisRateLimiter. A key's sorted set is the list of
-- its scores, the instants of the calls in milliseconds; the members are unique by the limiter's nonce
-- and sequence. Redis has a clock of its own, on which a key expires. Lua's numbers are integers here,
-- as they are below 2 ^ 53.
pub mod Memory
mod Tests
use backend_infrastructure_g.Base.{
  ℕ, ◌/◌, Bool, true, false, not, ◌||◌, Option, none, some, List, [], ◌∷◌, Text, text_eq, set, del,
  ℤ, pos, pos_part, ◌+ℤ◌, ◌-ℤ◌, ◌*ℤ◌, ltb_ℤ, leb_ℤ, length, if◌then◌else◌,
}
use backend_infrastructure_g.Http.RateLimit.{RateLimitDecision}

pub record SortedSet : Type 0 where
  pub scores : List ℤ
  pub expires_at : ℤ

abbrev pub Table : Type 0
Table = Text → Option SortedSet

-- What is there at Redis' time `clock`.
unfoldable pub live_scores : ℤ → Option SortedSet → List ℤ
live_scores clock none = []
live_scores clock (some z) = if ltb_ℤ clock z.expires_at then z.scores else []

-- ZREMRANGEBYSCORE from -inf to the cutoff.
unfoldable pub remove_to : ℤ → List ℤ → List ℤ
remove_to cutoff [] = []
remove_to cutoff (t ∷ times) =
    let rest = remove_to cutoff times in if ltb_ℤ cutoff t then t ∷ rest else rest

-- ZADD keeps the scores in order.
unfoldable pub add_score : ℤ → List ℤ → List ℤ
add_score now [] = now ∷ []
add_score now (t ∷ times) =
    let rest = add_score now times in if ltb_ℤ now t then now ∷ t ∷ times else t ∷ rest

abbrev pub max_ℤ : ℤ → ℤ → ℤ
max_ℤ a b = if ltb_ℤ a b then b else a

-- `retry_after`, from the oldest call if there is one.
abbrev retry_after_of : ℤ → ℤ → List ℤ → ℤ
retry_after_of window now [] = window
retry_after_of window now (oldest ∷ times) = max_ℤ (pos 1) (window -ℤ (now -ℤ oldest))

-- The script on the calls that are in the window.
unfoldable pub count_call : ℤ → ℤ → ℤ → List ℤ → List ℤ × RateLimitDecision
unfolding add_score
count_call limit window now times =
    if leb_ℤ limit (pos (length times))
    then (
      times,
      record { allowed = false; remaining = pos 0; retry_after = retry_after_of window now times },
    )
    else (
      add_score now times,
      record {
        allowed = true;
        remaining = limit -ℤ pos (length times) -ℤ pos 1;
        retry_after = pos 0;
      },
    )

-- PEXPIRE; a time that is not positive deletes the key.
abbrev expire : ℤ → ℤ → Text → List ℤ → Table → Table
expire clock window key times db =
    if leb_ℤ window (pos 0)
    then del key db
    else set key record { scores = times; expires_at = clock +ℤ window } db

-- `slidingWindowScript`
unfoldable pub sliding_window : ℤ → Text → ℤ → ℤ → ℤ → Table → Table × RateLimitDecision
unfolding live_scores remove_to count_call
sliding_window clock key now window limit db =
    let counted =
      count_call limit window now (remove_to (now -ℤ window) (live_scores clock (db key))) in
    (expire clock window key counted.0 db, counted.1)

pub data RedisLimiterError : Type 0 where
  not_positive script_failed : RedisLimiterError

pub data RedisAnswer : Type 0 where
  decided : RateLimitDecision → RedisAnswer
  no_answer : RedisLimiterError → RedisAnswer

-- `time.Duration.Milliseconds` of a duration that is not negative.
abbrev milliseconds : ℤ → ℤ
milliseconds d = pos (pos_part d / 1000000)

-- `Allow`; the limiter has a client, and `now` is its clock in milliseconds. `fault` is an error of
-- the script.
unfoldable pub allow_redis : Bool → ℤ → Text → ℤ → ℤ → ℤ → Table → Table × RedisAnswer
unfolding sliding_window
allow_redis fault clock key limit window now db =
    if leb_ℤ limit (pos 0) || leb_ℤ window (pos 0)
    then (db, no_answer not_positive)
    else (if fault
        then (db, no_answer script_failed)
        else (let ran = sliding_window clock key now (milliseconds window) limit db in
            (ran.0, decided record (ran.1) { retry_after = ran.1.retry_after *ℤ pos 1000000 })))
