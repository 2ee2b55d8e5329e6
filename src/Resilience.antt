-- ===== src/Resilience.antt =====
-- pkg/platform/resilience: the circuit breaker (breaker.go) and the retry loop (retry.go).
pub mod Breaker
pub mod Retry
