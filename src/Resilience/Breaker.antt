-- ===== src/Resilience/Breaker.antt =====
-- pkg/platform/resilience/breaker.go. A method that mutates the breaker returns the new record;
-- each method holds the mutex throughout, so it is one atomic step. An instant is a number of
-- nanoseconds; the clock's reading is an argument. The type of errors and `errors.Is` are
-- parameters; a nil error is `none`.
pub mod Threshold
pub mod Probe
pub mod Recovery
mod Tests
use backend_infrastructure_g.Base.{
  ℕ, ◌+◌, ◌%◌, ◌^◌, Bool, true, false, not, ◌&&◌, Option, none, some, List, [], ◌∷◌, ℤ, pos, negsuc,
  ◌-ℤ◌, ltb_ℤ, leb_ℤ, max_int64, leb, ◌==◌, if◌then◌else◌,
}

pub data BreakerState : Type 0 where
  closed open_state half_open : BreakerState

abbrev pub is_open : BreakerState → Bool
is_open open_state = true
is_open _ = false

abbrev pub is_half_open : BreakerState → Bool
is_half_open half_open = true
is_half_open _ = false

pub record CircuitBreaker : Type 0 where
  pub failure_threshold : ℕ  -- uint32
  pub open_timeout : ℤ
  pub state : BreakerState
  pub generation : ℕ  -- uint64
  pub failures : ℕ  -- uint32
  pub opened_at : ℤ
  pub probe_in_flight : Bool

abbrev pub u32 : ℕ → ℕ
u32 n = n % 2 ^ 32

abbrev pub u64 : ℕ → ℕ
u64 n = n % 2 ^ 64

-- `time.Time.Sub` saturates at the largest and the smallest Duration.
unfoldable pub sub_time : ℤ → ℤ → ℤ
unfolding ◌-ℤ◌
sub_time t u =
    let d = t -ℤ u in
    if ltb_ℤ (pos max_int64) d
    then pos max_int64
    else (if ltb_ℤ d (negsuc max_int64) then negsuc max_int64 else d)

pub data BreakerError : Type 0 where
  bad_threshold bad_timeout no_clock : BreakerError

abbrev pub Clock : Type 0
Clock = ℕ → ℤ

-- What `NewCircuitBreaker` returns: the breaker with the clock that its methods read.
pub data NewResult : Type 0 where
  created : CircuitBreaker → Clock → NewResult
  refused : BreakerError → NewResult

-- Each `WithClock(now)` overwrites the clock, with nil too.
unfoldable pub apply_options : Option Clock → List (Option Clock) → Option Clock
apply_options now [] = now
apply_options now (option ∷ options) = apply_options option options

unfoldable pub new_circuit_breaker : ℕ → ℤ → Clock → List (Option Clock) → NewResult
unfolding apply_options
new_circuit_breaker failure_threshold open_timeout time_now options =
    if failure_threshold == 0
    then refused bad_threshold
    else (if leb_ℤ open_timeout (pos 0)
        then refused bad_timeout
        else elim (apply_options (some time_now) options) [
          | none ↦ refused no_clock
          | some now ↦
              created
                (record {
                  failure_threshold = failure_threshold;
                  open_timeout = open_timeout;
                  state = closed;
                  generation = 0;
                  failures = 0;
                  opened_at = pos 0;
                  probe_in_flight = false;
                })
                now
        ])

unfoldable pub advance_state : ℤ → CircuitBreaker → CircuitBreaker
advance_state now b =
    if is_open b.state && leb_ℤ b.open_timeout (sub_time now b.opened_at)
    then record b {
      state = half_open;
      generation = u64 (b.generation + 1);
      probe_in_flight = false;
    }
    else b

unfoldable pub open_breaker : ℤ → CircuitBreaker → CircuitBreaker
open_breaker now b = record b {
  state = open_state;
  generation = u64 (b.generation + 1);
  failures = 0;
  opened_at = now;
  probe_in_flight = false;
}

-- `State()`.
unfoldable pub read_state : ℤ → CircuitBreaker → CircuitBreaker × BreakerState
read_state now b = let b' = advance_state now b in (b', b'.state)

-- What `acquire` decides once the state is up to date: `none` stands for ErrCircuitOpen.
unfoldable pub admit : CircuitBreaker → CircuitBreaker × Option ℕ
admit b =
    if is_open b.state
    then (b, none)
    else (if is_half_open b.state
        then (if b.probe_in_flight
            then (b, none)
            else (record b { probe_in_flight = true }, some b.generation))
        else (b, some b.generation))

unfoldable pub acquire : ℤ → CircuitBreaker → CircuitBreaker × Option ℕ
unfolding admit advance_state
acquire now b = admit (advance_state now b)

-- How an operation ended, as `record` tells it apart: nil, an error that is the caller's own
-- cancellation, or any other error.
pub data Verdict : Type 0 where
  success cancelled failure : Verdict

-- `record` with its error classified.
unfoldable pub settle : ℤ → ℕ → Verdict → CircuitBreaker → CircuitBreaker
settle now generation verdict b =
    if not (generation == b.generation)
    then b
    else (if is_half_open b.state
        then elim verdict [
          | cancelled ↦ record b { probe_in_flight = false }
          | success ↦ record b {
            probe_in_flight = false;
            state = closed;
            generation = u64 (b.generation + 1);
            failures = 0;
          }
          | failure ↦ open_breaker now (record b { probe_in_flight = false })
        ]
        else elim verdict [
          | success ↦ record b { failures = 0 }
          | cancelled ↦ b
          | failure ↦
              let counted = record b { failures = u32 (b.failures + 1) } in
              if leb b.failure_threshold counted.failures then open_breaker now counted else counted
        ])

-- An operation returns an error (nil is `none`) or panics.
pub data Outcome (E : Type 0) : Type 0 where
  returned : Option E → Outcome E
  panics : Outcome E

-- What happened while the operation ran: the breaker that other callers left behind, how the
-- operation ended, and then the clock's reading and `ctx.Err()`.
pub record Finish (E : Type 0) : Type 0 where
  pub breaker : CircuitBreaker
  pub outcome : Outcome E
  pub clock : ℤ
  pub ctx_err : Option E

-- How a call of `Execute` ends: it never ran the operation, or the operation's own ending.
pub data Executed (E : Type 0) : Type 0 where
  rejected : E → Executed E
  circuit_open : Executed E
  ran : Outcome E → Executed E

-- `panicked` is the error that stands for a panic.
module _ {E : Type 0} (errors_is : E → E → Bool) (panicked : E) where
  -- `callerCancelled`, and whether the error is nil. `errors.Is(nil, e)` is false.
  unfoldable pub classify : Option E → Option E → Verdict
  classify ctx_err none = success
  classify none (some e) = failure
  classify (some c) (some e) = if errors_is e c then cancelled else failure

  unfoldable pub record_outcome : ℤ → Option E → ℕ → Option E → CircuitBreaker → CircuitBreaker
  unfolding classify
  record_outcome now ctx_err generation err b = settle now generation (classify ctx_err err) b

  -- The error that the deferred function records.
  outcome_error : Outcome E → Option E
  outcome_error panics = some panicked
  outcome_error (returned err) = err

  -- The deferred function; a panic is raised again.
  unfoldable pub after_operation : ℕ → Finish E → CircuitBreaker × Executed E
  unfolding record_outcome outcome_error
  after_operation generation f = (
    record_outcome f.clock f.ctx_err generation (outcome_error f.outcome) f.breaker,
    ran f.outcome,
  )

  after_acquire :
      (CircuitBreaker → Finish E) → CircuitBreaker × Option ℕ → CircuitBreaker × Executed E
  after_acquire operation (b, none) = (b, circuit_open)
  after_acquire operation (b, some generation) = after_operation generation (operation b)

  unfoldable pub execute :
      ℤ → Option E → (CircuitBreaker → Finish E) → CircuitBreaker → CircuitBreaker × Executed E
  unfolding after_acquire after_operation
  execute now (some e) operation b = (b, rejected e)
  execute now none operation b = after_acquire operation (acquire now b)
