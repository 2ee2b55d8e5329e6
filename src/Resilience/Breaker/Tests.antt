-- ===== src/Resilience/Breaker/Tests.antt =====
-- A breaker with threshold 2 and a timeout of 10 ns, run on concrete inputs.
use backend_infrastructure_g.Base.{
  ◌≡◌, refl, Bool, true, false, none, some, List, [], ◌∷◌, ◌++◌, ℤ, pos, ◌-ℤ◌, arith,
}
use backend_infrastructure_g.Resilience.Breaker.{
  CircuitBreaker, closed, open_state, success, cancelled, failure, Verdict, Clock, created,
  new_circuit_breaker, panics, Finish, acquire, sub_time, settle, open_breaker,
}
use backend_infrastructure_g.Resilience.Breaker.Threshold.{
  settle_all, settle_all-trips_at, trips_at, HasTripped,
}
use backend_infrastructure_g.Resilience.Breaker.Recovery.{HasElapsed, probe_cycle}
use backend_infrastructure_g.Resilience.Breaker.Probe.{
  Event, starts, ends, run, step, start, probes, single_probe, open_ignores_results,
}

abbrev fresh : CircuitBreaker
fresh = record {
  failure_threshold = 2;
  open_timeout = pos 10;
  state = closed;
  generation = 0;
  failures = 0;
  opened_at = pos 0;
  probe_in_flight = false;
}

abbrev clock : Clock
clock n = pos n

fresh_is_new : new_circuit_breaker 2 (pos 10) clock [] ≡ created fresh clock
unfolding new_circuit_breaker
fresh_is_new = refl

abbrev tripped : CircuitBreaker
tripped = record fresh { state = open_state; generation = 1; opened_at = pos 4 }

abbrev results : List (ℤ × Verdict)
results =
    (pos 1, failure)
    ∷ (pos 2, success)
    ∷ (pos 3, failure)
    ∷ (pos 3, cancelled)
    ∷ (pos 4, failure)
    ∷ (pos 5, success)
    ∷ []

trips : settle_all 0 results fresh ≡ tripped
unfolding settle_all settle open_breaker
trips = refl

settle_all-trips_at_example : HasTripped 0 (pos 4) (settle_all 0 results fresh)
unfolding trips_at
settle_all-trips_at_example = settle_all-trips_at 0 results fresh (ground arith)

elapsed : HasElapsed (pos 14) tripped
unfolding sub_time ◌-ℤ◌
elapsed = omega arith

not_elapsed : ¬ HasElapsed (pos 13) tripped
unfolding sub_time ◌-ℤ◌
not_elapsed h = omega arith

probe_cycle_example :
    (acquire (pos 14) (acquire (pos 14) tripped).0) ≡ ((acquire (pos 14) tripped).0, none)
probe_cycle_example = (probe_cycle (pos 14) (pos 14) tripped refl elapsed).3

abbrev ending : Finish Bool
ending = record { breaker = fresh; outcome = panics; clock = pos 20; ctx_err = some true }

abbrev storm : List Event
storm =
    starts (pos 0)
    ∷ starts (pos 0)
    ∷ starts (pos 1)
    ∷ ends 0 (pos 2) failure
    ∷ ends 0 (pos 4) failure
    ∷ []

abbrev recovery : List Event
recovery = storm ++ (starts (pos 14) ∷ starts (pos 15) ∷ [])

single_probe_example : probes (run (start fresh) recovery) ≡ 1
unfolding run step start acquire sub_time ◌-ℤ◌ settle open_breaker
single_probe_example =
    single_probe 2 (pos 10) clock clock [] fresh fresh_is_new recovery (omega arith) refl

open_ignores_results_example :
    (step (run (start fresh) storm) (ends 0 (pos 5) failure)).breaker
    ≡ (run (start fresh) storm).breaker
unfolding run step start acquire settle open_breaker
open_ignores_results_example =
    open_ignores_results 2 (pos 10) clock clock [] fresh fresh_is_new storm (omega arith) 0 (pos 5)
      failure refl
