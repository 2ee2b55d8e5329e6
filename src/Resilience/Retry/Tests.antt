-- ===== src/Resilience/Retry/Tests.antt =====
-- Retry on an operation that counts its runs.
use backend_infrastructure_g.Base.{
  ℕ, ◌+◌, ◌≡◌, refl, Bool, true, Option, none, some, ℤ, pos, leb, arith, if◌then◌else◌,
}
use backend_infrastructure_g.Resilience.Retry.{RetryPolicy, returned, retry}
use backend_infrastructure_g.Resilience.Retry.Attempts.{retry_exhausts}

abbrev policy : RetryPolicy ℕ
policy = record {
  max_attempts = pos 3;
  initial_backoff = pos 100;
  max_backoff = pos 250;
  retry_if = none;
}

abbrev alive : ℕ → Option ℕ
alive s = none

abbrev fires : ℤ → ℕ → ℕ × Bool
fires d s = (s, true)

-- Fails with the number of its run.
abbrev failing : ℕ → ℕ × Option ℕ
failing s = (s + 1, some s)

-- Succeeds from its second run on.
abbrev recovering : ℕ → ℕ × Option ℕ
recovering s = (s + 1, if leb 1 s then none else some s)

retry_exhausts_example :
    let (s', r) = retry alive failing fires policy 5 in
    (s' ≡ 8) × ((t : ℕ) × (failing t ≡ (s', some t)) × (r ≡ returned (some t)))
retry_exhausts_example =
    retry_exhausts alive failing fires policy (λ s. s) (λ s. refl) (λ d s. refl) (λ s. s)
      (λ s. refl) (λ s. refl) (λ d s. refl) refl 5 (omega arith)
