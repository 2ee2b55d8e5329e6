-- ===== src/Resilience/Breaker/Probe.antt =====
-- Callers that run at the same time. Each method of the breaker is one atomic step, so what
-- concurrent callers do is a sequence of events over the breaker and the permits of the calls
-- that are under way: the interleavings of breaker.go's `acquire`, `record` and `State`.
use Prim.Native.Nat.{max}
use backend_infrastructure_g.Base.{
  ℕ, zero, suc, ◌+◌, ◌^◌, ◌≤◌, ◌<◌, ◌≡◌, refl, subst, inl, inr, Option, none, some, List, [], ◌∷◌,
  ℤ, arith, length, ◌==◌, if◌then◌else◌, Option-cases,
}
use backend_infrastructure_g.Resilience.Breaker.{
  open_state, half_open, CircuitBreaker, Verdict, open_breaker, settle, admit, advance_state,
  acquire, read_state, Clock, created, new_circuit_breaker,
}

pub record System : Type 0 where
  pub breaker : CircuitBreaker
  pub in_flight : List ℕ

-- The k-th call that is under way ends with a verdict.
pub data Event : Type 0 where
  starts : ℤ → Event
  ends : ℕ → ℤ → Verdict → Event
  looks : ℤ → Event

unfoldable pub nth : ℕ → List ℕ → Option ℕ
nth k [] = none
nth zero (g ∷ gs) = some g
nth (suc k) (g ∷ gs) = nth k gs

unfoldable pub without : ℕ → List ℕ → List ℕ
without k [] = []
without zero (g ∷ gs) = gs
without (suc k) (g ∷ gs) = g ∷ without k gs

unfoldable pub granted : CircuitBreaker × Option ℕ → List ℕ → System
granted (b, none) gs = record { breaker = b; in_flight = gs }
granted (b, some g) gs = record { breaker = b; in_flight = g ∷ gs }

unfoldable pub finished : Option ℕ → ℕ → ℤ → Verdict → System → System
finished none k now v s = s
finished (some g) k now v s = record {
  breaker = settle now g v s.breaker;
  in_flight = without k s.in_flight;
}

unfoldable pub step : System → Event → System
unfolding granted finished nth without
step s (starts now) = granted (acquire now s.breaker) s.in_flight
step s (ends k now v) = finished (nth k s.in_flight) k now v s
step s (looks now) = record s { breaker = (read_state now s.breaker).0 }

unfoldable pub run : System → List Event → System
run s [] = s
run s (e ∷ es) = run (step s e) es

-- How many calls of the breaker's own generation are under way.
abbrev pub count : ℕ → List ℕ → ℕ
count g [] = 0
count g (x ∷ xs) = let rest = count g xs in if x == g then suc rest else rest

abbrev pub probes : System → ℕ
probes s = count s.breaker.generation s.in_flight

-- The latest generation of the calls under way.
abbrev top : List ℕ → ℕ
top [] = 0
top (x ∷ xs) = max x (top xs)

count-fresh : (g : ℕ) (xs : List ℕ) → top xs ≤ g → count (suc g) xs ≡ 0
count-fresh g [] h = refl
count-fresh g (x ∷ xs) h = ground (arith, count-fresh g xs)

top-without : (k : ℕ) (xs : List ℕ) → top (without k xs) ≤ top xs
unfolding without
top-without k [] = omega arith
top-without zero (x ∷ xs) = omega arith
top-without (suc k) (x ∷ xs) = omega (arith, top-without k xs)

count-without :
    (g k h : ℕ) (xs : List ℕ)
    → nth k xs ≡ some h
    → count g xs ≡ count g (without k xs) + (if h == g then 1 else 0)
unfolding without nth
count-without g k h [] e = cc
count-without g zero h (x ∷ xs) e = ground arith
count-without g (suc k) h (x ∷ xs) e = ground (arith, count-without g k h xs e)

-- What holds after at most n events.
pub record Inv (n : ℕ) (s : System) : Type 0 where
  pub generations : s.breaker.generation ≤ n
  pub bounded : top s.in_flight ≤ s.breaker.generation
  pub open_idle : s.breaker.state ≡ open_state → probes s ≡ 0
  pub one_probe :
      s.breaker.state ≡ half_open → probes s ≡ (if s.breaker.probe_in_flight then 1 else 0)

advance-Inv :
    (n : ℕ) (now : ℤ) (s : System)
    → Inv n s
    → n + 2 < 2 ^ 64
    → Inv (suc n) (record s { breaker = advance_state now s.breaker })
unfolding advance_state
advance-Inv n now s v h = ground (arith, count-fresh s.breaker.generation s.in_flight v.bounded)

admit-Inv : (n : ℕ) (s : System) → Inv n s → Inv n (granted (admit s.breaker) s.in_flight)
unfolding admit granted
admit-Inv n s v = ground arith

settle-Inv :
    (n k g : ℕ) (now : ℤ) (v : Verdict) (s : System)
    → nth k s.in_flight ≡ some g
    → Inv n s
    → n + 2 < 2 ^ 64
    → Inv (suc n) (finished (some g) k now v s)
unfolding finished settle open_breaker
settle-Inv n k g now v s e i h = ground (
  arith,
  count-fresh s.breaker.generation (without k s.in_flight),
  top-without k s.in_flight,
  count-without s.breaker.generation k g s.in_flight e,
)

step-Inv : (n : ℕ) (s : System) (e : Event) → Inv n s → n + 2 < 2 ^ 64 → Inv (suc n) (step s e)
unfolding step acquire read_state
step-Inv n s (starts now) i h = admit-Inv (suc n) _ (advance-Inv n now s i h)
step-Inv n s (looks now) i h = advance-Inv n now s i h
step-Inv n s (ends k now v) i h = elim (Option-cases (nth k s.in_flight)) [
  | inl e ↦ rw (e, finished) (ground arith)
  | inr (g, e) ↦ rw (e, finished) (settle-Inv n k g now v s e i h)
]

run-Inv :
    (n : ℕ) (s : System) (es : List Event)
    → Inv n s
    → n + length es + 1 < 2 ^ 64
    → Inv (n + length es) (run s es)
unfolding run
run-Inv n s [] i h = ground arith
run-Inv n s (e ∷ es) i h =
    subst (λ k. Inv k (run (step s e) es)) (omega arith)
      (run-Inv (suc n) (step s e) es (step-Inv n s e i (omega arith)) (omega arith))

unfoldable pub start : CircuitBreaker → System
start b = record { breaker = b; in_flight = [] }

new-Inv :
    (threshold : ℕ) (timeout : ℤ) (now now' : Clock) (options : List (Option Clock))
    (b : CircuitBreaker)
    → new_circuit_breaker threshold timeout now options ≡ created b now'
    → Inv 0 (start b)
unfolding start new_circuit_breaker
new-Inv threshold timeout now now' options b e = ground arith

module _ (threshold : ℕ) (timeout : ℤ) (now now' : Clock) (options : List (Option Clock))
    (b : CircuitBreaker) (new : new_circuit_breaker threshold timeout now options ≡ created b now')
    (es : List Event) (few : length es + 1 < 2 ^ 64) where
  reached : Inv (length es) (run (start b) es)
  reached =
      subst (λ k. Inv k (run (start b) es)) (omega arith)
        (run-Inv 0 (start b) es (new-Inv threshold timeout now now' options b new) (omega arith))

  -- From a new breaker, whatever any number of concurrent callers do, in any order and at any
  -- readings of the clock, up to 2 ^ 64 - 2 events: while the breaker is half open exactly one call
  -- of its generation is under way if a probe is marked, and none if not.
  pub single_probe :
      (run (start b) es).breaker.state ≡ half_open
      → probes (run (start b) es) ≡ (if (run (start b) es).breaker.probe_in_flight then 1 else 0)
  single_probe h = reached.one_probe h

  -- From a new breaker, after any such events: while it is open, no call that is still under way can
  -- change it by its result. Results of calls admitted before it opened are dropped, whichever call
  -- ends and however.
  pub open_ignores_results :
      (k : ℕ) (later : ℤ) (v : Verdict)
      → (run (start b) es).breaker.state ≡ open_state
      → (step (run (start b) es) (ends k later v)).breaker ≡ (run (start b) es).breaker
  unfolding step finished settle
  open_ignores_results k later v o =
      let s = run (start b) es in
      elim (Option-cases (nth k s.in_flight)) [
        | inl e ↦ rw (e, finished) refl
        | inr (g, e) ↦
            rw (e, finished)
              (ground (arith, reached, count-without s.breaker.generation k g s.in_flight e))
      ]
