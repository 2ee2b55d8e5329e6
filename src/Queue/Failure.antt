-- ===== src/Queue/Failure.antt =====
-- When a failed task's execution is failed (asynq.go: FailureHandler).
use backend_infrastructure_g.Base.{
  ◌≡◌, refl, ◌↔◌, Bool, false, Option, none, some, Text, ℤ, pos, ◌+ℤ◌, ◌≤ℤ◌, arith,
}
use backend_infrastructure_g.Task.Processor.{Message}
use backend_infrastructure_g.Queue.{QueuedTask, decode_message, handle_exhausted, handle_error}

module _ {E : Type 0} (decode : Text → Option Message) (is_final : E → Bool)
    (task : QueuedTask) where
  -- `HandleError` has the execution failed exactly if the error is no cancellation, deadline or
  -- revocation, the context has both counts, no retry is left, and the task decodes. It passes the
  -- error on with the number of the attempt that failed.
  pub handle_error_iff :
      (r : Option ℤ) (x : Option ℤ) (err e : E) (m : Message) (attempt : ℤ)
      → (handle_error decode is_final r x task err ≡ some (m, attempt, e)) ↔ (
          (is_final err ≡ false)
          × ((n : ℤ) × (k : ℤ) × (r ≡ some n)
              × (x ≡ some k)
              × (k ≤ℤ n)
              × (decode_message decode task ≡ some m)
              × (attempt ≡ n +ℤ pos 1)
              × (e ≡ err)))
  unfolding handle_error handle_exhausted
  handle_error_iff none x err e m attempt = ground arith
  handle_error_iff (some n) none err e m attempt = ground arith
  handle_error_iff (some n) (some k) err e m attempt = (
    (λ h.
        (ground arith, (n, k, refl, refl, ground arith, ground arith, ground arith, ground arith))),
    (λ h. let (a, (n', k', at_n, at_k, le, m', t, e')) = h in ground arith),
  )
