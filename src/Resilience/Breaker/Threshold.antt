-- ===== src/Resilience/Breaker/Threshold.antt =====
-- When a closed breaker opens (breaker.go, `record`): the results of the calls that were admitted
-- in one generation, in the order in which they are recorded.
use backend_infrastructure_g.Base.{
  ℕ, ◌+◌, ◌^◌, ◌<◌, ◌≡◌, refl, Option, none, some, List, [], ◌∷◌, ℤ, arith, leb, if◌then◌else◌, ◌⊎◌,
  inl, inr, true, false, subst₂,
}
use backend_infrastructure_g.Resilience.Breaker.{
  closed, open_state, CircuitBreaker, Verdict, failure, success, cancelled, open_breaker, settle,
}

-- The results, each with the instant at which it is recorded.
unfoldable pub settle_all : ℕ → List (ℤ × Verdict) → CircuitBreaker → CircuitBreaker
settle_all generation [] b = b
settle_all generation ((now, v) ∷ rest) b = settle_all generation rest (settle now generation v b)

-- The instant at which a run of failures, not broken by a success, first reaches the threshold;
-- cancellations count neither way.
unfoldable pub trips_at : ℕ → ℕ → List (ℤ × Verdict) → Option ℤ
trips_at threshold streak [] = none
trips_at threshold streak ((now, success) ∷ rest) = trips_at threshold 0 rest
trips_at threshold streak ((now, cancelled) ∷ rest) = trips_at threshold streak rest
trips_at threshold streak ((now, failure) ∷ rest) =
    let later = trips_at threshold (streak + 1) rest in
    if leb threshold (streak + 1) then some now else later

pub record IsCounting (g : ℕ) (b : CircuitBreaker) : Type 0 where
  pub is_closed : b.state ≡ closed
  pub below : b.failures < b.failure_threshold
  pub fits : b.failure_threshold < 2 ^ 32
  pub current : b.generation ≡ g
  pub no_wrap : g + 1 < 2 ^ 64

pub record HasTripped (g : ℕ) (now : ℤ) (b : CircuitBreaker) : Type 0 where
  pub is_open : b.state ≡ open_state
  pub since : b.opened_at ≡ now
  pub advanced : b.generation ≡ g + 1
  pub reset : b.failures ≡ 0

-- What the specification says of the breaker that is left.
abbrev pub Agrees : ℕ → Option ℤ → CircuitBreaker → Type 0
Agrees g none b = b.state ≡ closed
Agrees g (some now) b = HasTripped g now b

settle_stale :
    (g : ℕ) (rest : List (ℤ × Verdict)) (b : CircuitBreaker)
    → b.generation ≡ g + 1
    → settle_all g rest b ≡ b
unfolding settle_all settle
settle_stale g [] b h = refl
settle_stale g ((now, v) ∷ rest) b h = ground (arith, settle_stale g rest b h)

success-IsCounting :
    (g : ℕ) (now : ℤ) (b : CircuitBreaker)
    → IsCounting g b
    → IsCounting g (settle now g success b)
      × ((settle now g success b).failures ≡ 0)
      × ((settle now g success b).failure_threshold ≡ b.failure_threshold)
unfolding settle
success-IsCounting g now b c = ground arith

cancelled-IsCounting :
    (g : ℕ) (now : ℤ) (b : CircuitBreaker) → IsCounting g b → settle now g cancelled b ≡ b
unfolding settle
cancelled-IsCounting g now b c = ground arith

-- A failure counts, or trips the breaker.
failure-IsCounting :
    (g : ℕ) (now : ℤ) (b : CircuitBreaker)
    → IsCounting g b
    → ((leb b.failure_threshold (b.failures + 1) ≡ true)
        × HasTripped g now (settle now g failure b))
      ⊎ ((leb b.failure_threshold (b.failures + 1) ≡ false)
          × IsCounting g (settle now g failure b)
          × ((settle now g failure b).failures ≡ b.failures + 1)
          × ((settle now g failure b).failure_threshold ≡ b.failure_threshold))
unfolding settle open_breaker
failure-IsCounting g now b c = ground arith

-- From a closed breaker, recording the results of calls of its generation leaves it closed if no
-- run of failures reaches the threshold; else it is open since the instant at which the first one
-- did, one generation later and with its counter reset, whatever results came after that.
pub settle_all-trips_at :
    (g : ℕ) (results : List (ℤ × Verdict)) (b : CircuitBreaker)
    → IsCounting g b
    → Agrees g (trips_at b.failure_threshold b.failures results) (settle_all g results b)
unfolding settle_all trips_at
settle_all-trips_at g [] b c = c.is_closed
settle_all-trips_at g ((now, success) ∷ rest) b c =
    let b' = settle now g success b in
    let (c', f, t) = success-IsCounting g now b c in
    subst₂ (λ k n. Agrees g (trips_at k n rest) (settle_all g rest b')) t f
      (settle_all-trips_at g rest b' c')
settle_all-trips_at g ((now, cancelled) ∷ rest) b c =
    rw (cancelled-IsCounting g now b c) (settle_all-trips_at g rest b c)
settle_all-trips_at g ((now, failure) ∷ rest) b c =
    let b' = settle now g failure b in
    elim (failure-IsCounting g now b c) [
      | inl (over, tripped) ↦ rw (over, settle_stale g rest b' tripped.advanced) tripped
      | inr (under, c', f, t) ↦ rw under (
          subst₂ (λ k n. Agrees g (trips_at k n rest) (settle_all g rest b')) t f
            (settle_all-trips_at g rest b' c'))
    ]
