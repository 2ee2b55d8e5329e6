-- ===== src/Task/Submission/Validation.antt =====
-- Which submissions `ValidateSubmission` (service.go) accepts.
use backend_infrastructure_g.Base.{◌≡◌, ◌↔◌, none, ◌*◌, pos, ◌≤ℤ◌, ◌<ℤ◌, arith}
use backend_infrastructure_g.Task.Submission.{Submission, validate_submission, second}

-- A submission is accepted exactly if it asks for 0 to 25 retries, a positive timeout of at most a
-- day, a unique window of 0 to 7 days and a delay of 0 to 30 days.
pub validate_submission-none_iff :
    (s : Submission)
    → (validate_submission s ≡ none) ↔ (
        (pos 0 ≤ℤ s.max_retries)
        × (s.max_retries ≤ℤ pos 25)
        × (pos 0 <ℤ s.timeout)
        × (s.timeout ≤ℤ pos (86400 * second))
        × (pos 0 ≤ℤ s.unique_for)
        × (s.unique_for ≤ℤ pos (7 * 86400 * second))
        × (pos 0 ≤ℤ s.process_after)
        × (s.process_after ≤ℤ pos (30 * 86400 * second)))
unfolding validate_submission
validate_submission-none_iff s = ground arith
