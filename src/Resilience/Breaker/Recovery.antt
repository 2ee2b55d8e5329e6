-- ===== src/Resilience/Breaker/Recovery.antt =====
-- How an open breaker recovers (breaker.go: `advanceState`, `acquire`, `record`, `Execute`).
use backend_infrastructure_g.Base.{
  ◌+◌, ◌%◌, ◌^◌, ◌≡◌, refl, sym, subst, ◌↔◌, ◌⊎◌, Bool, true, false, Option, none, some, ℤ, ◌≤ℤ◌,
  arith, if◌then◌else◌,
}
use backend_infrastructure_g.Resilience.Breaker.{
  BreakerState, closed, open_state, half_open, CircuitBreaker, failure, success, cancelled, Finish,
  circuit_open, Outcome, returned, panics, ran, sub_time, open_breaker, settle, admit,
  advance_state, acquire, execute, record_outcome, outcome_error, after_acquire, u64,
}

-- The rest of the open interval has gone by at `now`.
abbrev pub HasElapsed : ℤ → CircuitBreaker → Type 0
HasElapsed now b = b.open_timeout ≤ℤ sub_time now b.opened_at

-- `acquire` refuses exactly while the breaker is open and its timeout has not gone by, and while
-- it is half open with a probe under way; whenever it refuses it leaves the breaker as it was.
pub acquire-none_iff :
    (now : ℤ) (b : CircuitBreaker)
    → (((acquire now b).1 ≡ none) ↔ (acquire now b ≡ (b, none)))
      × (((acquire now b).1 ≡ none) ↔ (
          ((b.state ≡ open_state) × (¬ HasElapsed now b))
          ⊎ ((b.state ≡ half_open) × (b.probe_in_flight ≡ true))))
unfolding acquire admit advance_state
acquire-none_iff now b = (ground arith, ground arith)

-- Once the timeout of an open breaker has gone by, one call is admitted as the probe, in a new
-- generation, and every other call is refused while it runs, whenever it comes. Its success closes
-- the breaker with no failures counted, its failure opens it again from then on, and its
-- cancellation makes room for another probe.
pub probe_cycle :
    (now later : ℤ) (b : CircuitBreaker)
    → b.state ≡ open_state
    → HasElapsed now b
    → let (probing, permit) = acquire now b in
      let g = probing.generation in
      (permit ≡ some g)
      × (g ≡ (b.generation + 1) % 2 ^ 64)
      × (probing.state ≡ half_open)
      × (acquire later probing ≡ (probing, none))
      × ((settle later g success probing).state ≡ closed)
      × ((settle later g success probing).failures ≡ 0)
      × ((settle later g failure probing).state ≡ open_state)
      × ((settle later g failure probing).opened_at ≡ later)
      × ((acquire later (settle later g cancelled probing)).1 ≡ some g)
unfolding acquire admit advance_state settle open_breaker
probe_cycle now later b o e = ground arith

-- The state in which a probe leaves the breaker, by how it ended and by the caller's context.
unfoldable pub probe_state : {E : Type 0} → (E → E → Bool) → Option E → Outcome E → BreakerState
probe_state errors_is ctx_err panics = open_state
probe_state errors_is ctx_err (returned none) = closed
probe_state errors_is none (returned (some e)) = open_state
probe_state errors_is (some c) (returned (some e)) = if errors_is e c then half_open else open_state

-- The breaker in which the probe runs.
abbrev probing : CircuitBreaker → CircuitBreaker
probing b = record b {
  state = half_open;
  generation = u64 (b.generation + 1);
  probe_in_flight = true;
}

acquire_probe :
    (now : ℤ) (b : CircuitBreaker)
    → b.state ≡ open_state
    → HasElapsed now b
    → acquire now b ≡ (probing b, some (u64 (b.generation + 1)))
unfolding acquire admit advance_state
acquire_probe now b o e = ground arith

module _ {E : Type 0} (errors_is : E → E → Bool) (panicked : E) where
  probe_ends :
      (later : ℤ) (p : CircuitBreaker) (c : Option E) (o : Outcome E)
      → ((c : E) → errors_is panicked c ≡ false)
      → p.state ≡ half_open
      → let b' =
          record_outcome errors_is panicked later c p.generation
            (outcome_error errors_is panicked o)
            p in
        (b'.probe_in_flight ≡ false) × (b'.state ≡ probe_state errors_is c o)
  unfolding record_outcome outcome_error settle open_breaker probe_state
  probe_ends later p none panics h s = ground arith
  probe_ends later p (some c) panics h s = ground (arith, h c)
  probe_ends later p c (returned none) h s = ground arith
  probe_ends later p none (returned (some e)) h s = ground arith
  probe_ends later p (some c) (returned (some e)) h s = ground arith

  -- `Execute` on an open breaker whose timeout has gone by, while no other call touches it: the
  -- operation runs, its own ending is passed on, and whether it returned or panicked, the probe is
  -- over, the breaker is closed, open or half open by the operation's ending, and a panic opens
  -- it. The error made for a panic is taken to be no context's error.
  pub execute_probe :
      (now : ℤ) (b : CircuitBreaker) (end : Finish E)
      → ((c : E) → errors_is panicked c ≡ false)
      → b.state ≡ open_state
      → HasElapsed now b
      → let (b', result) =
          execute errors_is panicked now none (λ probing. record end { breaker = probing }) b in
        (result ≡ ran end.outcome)
        × (b'.probe_in_flight ≡ false)
        × (b'.state ≡ probe_state errors_is end.ctx_err end.outcome)
  unfolding execute
  execute_probe now b end h o e =
      subst
        (λ r.
          let (b', result) =
            after_acquire errors_is panicked (λ probing. record end { breaker = probing }) r in
          (result ≡ ran end.outcome)
          × (b'.probe_in_flight ≡ false)
          × (b'.state ≡ probe_state errors_is end.ctx_err end.outcome))
        (sym (acquire_probe now b o e)) (refl, ended.0, ended.1)
    where
      ended :
          let b' =
            record_outcome errors_is panicked end.clock end.ctx_err
              (probing b).generation
              (outcome_error errors_is panicked end.outcome)
              (probing b) in
          (b'.probe_in_flight ≡ false) × (b'.state ≡ probe_state errors_is end.ctx_err end.outcome)
      ended = probe_ends end.clock (probing b) end.ctx_err end.outcome h refl

  -- While the breaker refuses calls the operation is not run: the outcome is ErrCircuitOpen and the
  -- breaker is unchanged, whatever the operation would have done.
  pub execute_refused :
      (now : ℤ) (b : CircuitBreaker) (operation : CircuitBreaker → Finish E)
      → b.state ≡ open_state
      → ¬ HasElapsed now b
      → execute errors_is panicked now none operation b ≡ (b, circuit_open)
  unfolding execute acquire admit advance_state
  execute_refused now b operation o e = ground arith
