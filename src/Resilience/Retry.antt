-- ===== src/Resilience/Retry.antt =====
-- pkg/platform/resilience/retry.go. A duration is a number of nanoseconds, an int64. The operation,
-- the context and the timer act on a state that the model does not look into: `ctx_err` is
-- `ctx.Err()`, `sleep` is the `select` on the timer and `ctx.Done()` (true: the timer fired), with
-- `stopTimer`. An error is `some`, nil is `none`.
pub mod Backoff
pub mod Attempts
mod Tests
use backend_infrastructure_g.Base.{
  ℕ, zero, suc, ◌+◌, Bool, true, false, not, ◌&&◌, ◌||◌, Option, none, some, ℤ, pos, negsuc, ◌+ℤ◌,
  ltb_ℤ, leb_ℤ, wrap64, ◌==◌, if◌then◌else◌, pos_part,
}

-- What `Retry` returns: the policy was refused, or an error or nil.
pub data RetryResult (E : Type 0) : Type 0 where
  invalid_policy : RetryResult E
  returned : Option E → RetryResult E

-- `RetryIf` may be nil.
pub record RetryPolicy (E : Type 0) : Type 0 where
  pub max_attempts : ℤ
  pub initial_backoff : ℤ
  pub max_backoff : ℤ
  pub retry_if : Option (E → Bool)

abbrev eq_ℤ : ℤ → ℤ → Bool
eq_ℤ a b = leb_ℤ a b && leb_ℤ b a

-- `current * 2` wraps around.
unfoldable pub next_backoff : ℤ → ℤ → ℤ
unfolding wrap64 ◌+ℤ◌
next_backoff current maximum =
    let next = wrap64 (current +ℤ current) in
    if eq_ℤ current (pos 0)
    then pos 0
    else (if ltb_ℤ (pos 0) maximum && leb_ℤ maximum current
        then maximum
        else (if ltb_ℤ next current || (ltb_ℤ (pos 0) maximum && ltb_ℤ maximum next)
            then maximum
            else next))

module _ {S E : Type 0} (ctx_err : S → Option E) (operation : S → S × Option E)
    (sleep : ℤ → S → S × Bool) (policy : RetryPolicy E) where
  -- `policy.RetryIf != nil && !policy.RetryIf(err)`.
  refuses : Option (E → Bool) → E → Bool
  refuses none err = false
  refuses (some retry_if) err = not (retry_if err)

  -- `if delay > 0 { … }`; false when the context ended the wait.
  wait : ℤ → S → S × Bool
  wait delay s = if ltb_ℤ (pos 0) delay then sleep delay s else (s, true)

  -- The loop body after an error, with the next round as an argument.
  after_error : ℕ → ℤ → E → (S → S × Option E) → S → S × Option E
  unfolding refuses wait
  after_error attempt delay err next s =
      if eq_ℤ (pos attempt) policy.max_attempts || refuses policy.retry_if err
      then (s, some err)
      else (let (s', fired) = wait delay s in if fired then next s' else (s', ctx_err s'))

  -- `left` rounds remain, `attempt` is the number of the next one.
  unfoldable pub loop : ℕ → ℕ → ℤ → S → S × Option E
  unfolding after_error
  loop zero attempt delay s = (s, none)
  loop (suc left) attempt delay s = elim (ctx_err s) [
    | some err ↦ (s, some err)
    | none ↦
        let (s', result) = operation s in
        elim result [
          | none ↦ (s', none)
          | some err ↦
              after_error attempt delay err
                (loop left (attempt + 1) (next_backoff delay policy.max_backoff)) s'
        ]
  ]

  unfoldable pub retry : S → S × RetryResult E
  retry s =
      if leb_ℤ policy.max_attempts (pos 0)
        || ltb_ℤ policy.initial_backoff (pos 0)
        || ltb_ℤ policy.max_backoff (pos 0)
      then (s, invalid_policy)
      else (let (s', err) = loop (pos_part policy.max_attempts) 1 policy.initial_backoff s in
          (s', returned err))
