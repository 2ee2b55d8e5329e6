-- ===== src/Task/Workers.antt =====
-- Any number of workers, schedulers and submitters on one table: the statements that they run on
-- existing executions (pkg/modules/task/service.go: `Process`, `Fail`, `Submit`), in any order.
-- Each statement is atomic, so an interleaving is a list of them.
pub mod Lifecycle
pub mod Fencing
pub mod Tests
use backend_infrastructure_g.Base.{
  ℕ, Bool, true, false, Option, none, some, List, [], ◌∷◌, Text, ℤ, if◌then◌else◌,
}
use backend_infrastructure_g.Task.Model.{failed, validate_transition}
use backend_infrastructure_g.Task.Store.{Table, StoreError, claim_execution, update_execution}
use backend_infrastructure_g.Task.Processor.{cancelled_update, succeeded_update, failed_update}
use backend_infrastructure_g.Task.Submission.{NewExecution, new_row, submit_failed_update}

-- The first argument of each says whether the database refuses the statement, the second is its
-- NOW(); `gives_up` also has that of the INSERT.
pub data Op : Type 0 where
  claims : Bool → ℤ → Text → ℤ → ℤ → Op
  succeeds : Bool → ℤ → Text → ℤ → ℤ → ℤ → ℤ → Op
  cancels : Bool → ℤ → Text → ℤ → ℤ → Text → Op
  fails : Bool → ℤ → Text → ℤ → ℤ → Text → Op
  gives_up : Bool → ℤ → ℤ → List ℕ → Option (List ℕ) → NewExecution → ℤ → Text → Op

-- `Submit` gives the execution up that it has just created, if `ValidateTransition` allows it.
unfoldable pub apply : Op → Table → Table × Option StoreError
apply (claims fault at id attempt now) t = claim_execution fault at id attempt now t
apply (succeeds fault at id attempt started finished rows) t =
    update_execution fault at (succeeded_update id attempt started finished rows) t
apply (cancels fault at id attempt finished summary) t =
    update_execution fault at (cancelled_update id attempt finished summary) t
apply (fails fault at id attempt finished summary) t =
    update_execution fault at (failed_update id attempt finished summary) t
apply (gives_up fault at inserted id definition n finished summary) t =
    if validate_transition (new_row inserted id definition n).status failed
    then update_execution fault at
        (submit_failed_update (new_row inserted id definition n) finished summary) t
    else (t, none)

unfoldable pub apply_all : List Op → Table → Table
apply_all [] t = t
apply_all (op ∷ ops) t = apply_all ops (apply op t).0
