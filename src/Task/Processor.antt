-- ===== src/Task/Processor.antt =====
-- The Processor of pkg/modules/task/service.go. Its calls of the store are separate atomic steps:
-- what other workers do to the table between them is an argument. The type of the handlers'
-- errors, `errors.Is` and `Error()` are parameters. A duration is a difference of instants.
pub mod Outcome
pub mod Failing
mod Tests
use backend_infrastructure_g.Base.{
  ℕ, Bool, true, false, not, Option, none, some, List, [], ◌∷◌, Text, ℤ, pos, ◌-ℤ◌, if◌then◌else◌,
}
use backend_infrastructure_g.Task.Model.{
  Status, queued, running, succeeded, failed, cancelled, validate_transition,
}
use backend_infrastructure_g.Task.Store.{
  Row, Table, StoreError, ExecutionUpdate, Found, found, missing, claim_execution, update_execution,
  get_execution,
}
use backend_infrastructure_g.Task.Registry.{resolve}

-- The updates that `Process` and `Fail` send.
abbrev pub cancelled_update : Text → ℤ → ℤ → Text → ExecutionUpdate
cancelled_update id attempt finished_at summary = record {
  id = id;
  status = cancelled;
  started_at = none;
  finished_at = some finished_at;
  error_summary = summary;
  processed_rows = pos 0;
  attempt = attempt;
  expected_status = running;
  expected_attempt = attempt;
}

abbrev pub succeeded_update : Text → ℤ → ℤ → ℤ → ℤ → ExecutionUpdate
succeeded_update id attempt started_at finished_at rows = record {
  id = id;
  status = succeeded;
  started_at = some started_at;
  finished_at = some finished_at;
  error_summary = [];
  processed_rows = rows;
  attempt = attempt;
  expected_status = running;
  expected_attempt = attempt;
}

abbrev pub failed_update : Text → ℤ → ℤ → Text → ExecutionUpdate
failed_update id attempt finished_at summary = record {
  id = id;
  status = failed;
  started_at = none;
  finished_at = some finished_at;
  error_summary = summary;
  processed_rows = pos 0;
  attempt = attempt;
  expected_status = running;
  expected_attempt = attempt;
}

pub record Message : Type 0 where
  pub execution_id : Text
  pub task_type : Text
  pub payload : Text

-- `Handler.Handle`: the processed rows, or an error.
pub data Handled (E : Type 0) : Type 0 where
  handled : ℤ → Handled E
  handler_error : E → Handled E

-- What `Process` and `Fail` return when it is not nil; `joined` is errors.Join of the handler's
-- error and the failed update's.
pub data ProcessError (E : Type 0) : Type 0 where
  get_failed claim_failed update_failed : StoreError → ProcessError E
  invalid_transition handler_not_found : ProcessError E
  handler_failed : E → ProcessError E
  joined : E → StoreError → ProcessError E

-- The table, the error (nil is `none`), and what the observer was told.
pub record Processed (E : Type 0) : Type 0 where
  pub table : Table
  pub error : Option (ProcessError E)
  pub observed : List (Status × ℤ)

-- The surroundings of one call: which statements the database refuses, the service's clock in two
-- readings, the database's NOW() in the claim and the last statement, `ctx.Err()` once the handler
-- has returned, and what other workers do to the table between the first statement and the claim,
-- and between the claim and the last statement.
pub record Surroundings (E : Type 0) : Type 0 where
  pub get_fault : Bool
  pub claim_fault : Bool
  pub update_fault : Bool
  pub started_at : ℤ
  pub finished_at : ℤ
  pub claimed_now : ℤ
  pub updated_now : ℤ
  pub ctx_err : Option E
  pub before_claim : Table → Table
  pub while_handling : Table → Table

module _ {E : Type 0} (errors_is : E → E → Bool) (summary : E → Text) where
  -- `ctx.Err() != nil && errors.Is(err, ctx.Err())`.
  abbrev was_cancelled : Option E → E → Bool
  was_cancelled none err = false
  was_cancelled (some c) err = errors_is err c

  -- After the cancelling update.
  cancelled_with : Surroundings E → E → Table × Option StoreError → Processed E
  cancelled_with s err (t, some e) = record {
    table = t;
    error = some (joined err e);
    observed = (running, pos 0) ∷ [];
  }
  cancelled_with s err (t, none) = record {
    table = t;
    error = some (handler_failed err);
    observed = (running, pos 0) ∷ (cancelled, s.finished_at -ℤ s.started_at) ∷ [];
  }

  -- After the update of a success.
  succeeded_with : Surroundings E → Table × Option StoreError → Processed E
  succeeded_with s (t, some e) = record {
    table = t;
    error = some (update_failed e);
    observed = (running, pos 0) ∷ [];
  }
  succeeded_with s (t, none) = record {
    table = t;
    error = none;
    observed = (running, pos 0) ∷ (succeeded, s.finished_at -ℤ s.started_at) ∷ [];
  }

  -- From the handler's return to the end of `Process`.
  after_handler : Surroundings E → Message → ℤ → Table → Handled E → Processed E
  unfolding cancelled_with succeeded_with
  after_handler s m attempt t (handler_error err) =
      if was_cancelled s.ctx_err err
      then cancelled_with s err (
          update_execution s.update_fault s.updated_now
            (cancelled_update m.execution_id attempt s.finished_at (summary err)) t)
      else record { table = t; error = some (handler_failed err); observed = (running, pos 0) ∷ [] }
  after_handler s m attempt t (handled rows) = succeeded_with s (
      update_execution s.update_fault s.updated_now
        (succeeded_update m.execution_id attempt s.started_at s.finished_at rows) t)

  -- What follows `Resolve`.
  with_handler : Surroundings E → Message → ℤ → Table → Option (Text → Handled E) → Processed E
  unfolding after_handler
  with_handler s m attempt t none = record {
    table = t;
    error = some handler_not_found;
    observed = (running, pos 0) ∷ [];
  }
  with_handler s m attempt t (some handler) =
      after_handler s m attempt (s.while_handling t) (handler m.payload)

  -- From the claim on.
  after_claim :
      Surroundings E
      → List (Text × (Text → Handled E))
      → Message
      → ℤ
      → Table × Option StoreError
      → Processed E
  unfolding with_handler
  after_claim s registry m attempt (t, some e) = record {
    table = t;
    error = some (claim_failed e);
    observed = [];
  }
  after_claim s registry m attempt (t, none) =
      with_handler s m attempt t (resolve m.task_type registry)

  after_get :
      Surroundings E → List (Text × (Text → Handled E)) → Message → ℤ → Table → Found → Processed E
  unfolding after_claim
  after_get s registry m attempt t (missing e) = record {
    table = t;
    error = some (get_failed e);
    observed = [];
  }
  after_get s registry m attempt t (found row) =
      if validate_transition row.status running
      then after_claim s registry m attempt (
          claim_execution s.claim_fault s.claimed_now m.execution_id attempt s.started_at
            (s.before_claim t))
      else record { table = t; error = some invalid_transition; observed = [] }

  unfoldable pub process :
      Surroundings E → List (Text × (Text → Handled E)) → Message → ℤ → Table → Processed E
  unfolding after_get
  process s registry m attempt t =
      after_get s registry m attempt t (get_execution s.get_fault m.execution_id t)

  -- The duration that `Fail` reports.
  abbrev since : ℤ → Option ℤ → ℤ
  since finished_at none = pos 0
  since finished_at (some started_at) = finished_at -ℤ started_at

  failed_with : Surroundings E → Row → Table × Option StoreError → Processed E
  failed_with s row (t, some e) = record {
    table = t;
    error = some (update_failed e);
    observed = [];
  }
  failed_with s row (t, none) = record {
    table = t;
    error = none;
    observed = (failed, since s.finished_at row.started_at) ∷ [];
  }

  fail_found : Surroundings E → Message → ℤ → E → Table → Found → Processed E
  unfolding failed_with
  fail_found s m attempt cause t (missing e) = record {
    table = t;
    error = some (get_failed e);
    observed = [];
  }
  fail_found s m attempt cause t (found row) =
      if validate_transition row.status failed
      then failed_with s row (
          update_execution s.update_fault s.updated_now
            (failed_update m.execution_id attempt s.finished_at (summary cause)) (s.before_claim t))
      else record { table = t; error = some invalid_transition; observed = [] }

  -- `Fail`; other workers act between its two statements.
  unfoldable pub fail : Surroundings E → Message → ℤ → E → Table → Processed E
  unfolding fail_found
  fail s m attempt cause t =
      fail_found s m attempt cause t (get_execution s.get_fault m.execution_id t)
