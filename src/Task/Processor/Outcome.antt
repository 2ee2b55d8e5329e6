-- ===== src/Task/Processor/Outcome.antt =====
-- What `Process` and `Fail` have done when they return (service.go).
use backend_infrastructure_g.Base.{
  ℕ, ◌≡◌, refl, sym, subst, inl, inr, Bool, true, false, Option, none, some, List, Text, ℤ, wrap32,
  arith, Bool-cases,
}
use backend_infrastructure_g.Task.Uuid.{parse_uuid}
use backend_infrastructure_g.Task.Model.{running, succeeded, validate_transition}
use backend_infrastructure_g.Task.Store.{
  Row, Table, StoreError, Found, found, missing, find_row, update_row, on_row, claim_execution,
  update_execution, get_execution,
}
use backend_infrastructure_g.Task.Store.Rows.{update_row-KeepsId, on_row-ok, on_row_fault}
use backend_infrastructure_g.Task.Registry.{resolve}
use backend_infrastructure_g.Task.Processor.{
  Message, Handled, handled, handler_error, Surroundings, succeeded_update, cancelled_update,
  process, after_get, after_claim, with_handler, after_handler, succeeded_with, cancelled_with,
  was_cancelled,
}

-- The row that a success leaves.
pub record HasSucceeded (m : Message) (attempt finished rows : ℤ) (t : Table) : Type 0 where
  pub key : List ℕ
  pub row : Row
  pub parsed : parse_uuid m.execution_id ≡ some key
  pub there : find_row key t ≡ some row
  pub is_succeeded : row.status ≡ succeeded
  pub by_attempt : row.attempt ≡ wrap32 attempt
  pub counted : row.processed_rows ≡ rows
  pub ended : row.finished_at ≡ some finished

succeeded_row :
    (m : Message) (attempt at started finished rows : ℤ) (fault : Bool) (t : Table)
    → (update_execution fault at
        (succeeded_update m.execution_id attempt started finished rows)
        t).1
      ≡ none
    → HasSucceeded m attempt finished rows
        (update_execution fault at
          (succeeded_update m.execution_id attempt started finished rows)
          t).0
unfolding update_execution update_row on_row
succeeded_row m attempt at started finished rows true t e =
    absurd (on_row_fault (parse_uuid m.execution_id) _ t e)
succeeded_row m attempt at started finished rows false t e =
    let u = succeeded_update m.execution_id attempt started finished rows in
    let (key, r, r', k, was, hit, there) =
      on_row-ok (parse_uuid m.execution_id) (update_row at u) (update_row-KeepsId at u) t e in
    record {
      key = key;
      row = r';
      parsed = k;
      there = there;
      is_succeeded = ground arith;
      by_attempt = ground arith;
      counted = ground arith;
      ended = ground arith;
    }

module _ {E : Type 0} (errors_is : E → E → Bool) (summary : E → Text) (s : Surroundings E) where
  -- The work behind a return of nil.
  pub record IsDone (registry : List (Text × (Text → Handled E))) (m : Message) (attempt : ℤ)
      (t : Table) : Type 0 where
    pub handler : Text → Handled E
    pub rows : ℤ
    pub resolved : resolve m.task_type registry ≡ some handler
    pub result : handler m.payload ≡ handled rows
    pub success : HasSucceeded m attempt s.finished_at rows t

  module _ (registry : List (Text × (Text → Handled E))) (m : Message) (attempt : ℤ) where
    succeeded_with-nil :
        (r : Table × Option StoreError)
        → (succeeded_with errors_is summary s r).error ≡ none
        → (r.1 ≡ none) × ((succeeded_with errors_is summary s r).table ≡ r.0)
    unfolding succeeded_with
    succeeded_with-nil (t, none) e = (refl, refl)
    succeeded_with-nil (t, some x) e = cc

    cancelled_with-error :
        (err : E) (r : Table × Option StoreError)
        → ¬ ((cancelled_with errors_is summary s err r).error ≡ none)
    unfolding cancelled_with
    cancelled_with-error err (t, none) e = cc
    cancelled_with-error err (t, some x) e = cc

    after_handler-nil :
        (t : Table) (h : Handled E)
        → (after_handler errors_is summary s m attempt t h).error ≡ none
        → (rows : ℤ) × (h ≡ handled rows)
          × HasSucceeded m attempt s.finished_at rows
              (after_handler errors_is summary s m attempt t h).table
    unfolding after_handler
    after_handler-nil t (handled rows) e =
        let r =
          update_execution s.update_fault s.updated_now
            (succeeded_update m.execution_id attempt s.started_at s.finished_at rows) t in
        let (fine, same) = succeeded_with-nil r e in
        (
          rows,
          refl,
          subst (HasSucceeded m attempt s.finished_at rows) (sym same) (
              succeeded_row m attempt s.updated_now s.started_at s.finished_at rows s.update_fault t
                fine),
        )
    after_handler-nil t (handler_error err) e =
        let u = cancelled_update m.execution_id attempt s.finished_at (summary err) in
        elim (Bool-cases (was_cancelled errors_is summary s.ctx_err err)) [
          | inl yes_ ↦ absurd (
              cancelled_with-error err (update_execution s.update_fault s.updated_now u t)
                (ground arith))
          | inr no_ ↦ absurd (ground arith)
        ]

    with_handler-nil :
        (t : Table) (o : Option (Text → Handled E))
        → resolve m.task_type registry ≡ o
        → (with_handler errors_is summary s m attempt t o).error ≡ none
        → IsDone registry m attempt (with_handler errors_is summary s m attempt t o).table
    unfolding with_handler
    with_handler-nil t none k e = cc
    with_handler-nil t (some handler) k e =
        let (rows, result, success) =
          after_handler-nil (s.while_handling t) (handler m.payload) e in
        record { handler = handler; rows = rows; resolved = k; result = result; success = success }

    after_claim-nil :
        (c : Table × Option StoreError)
        → (after_claim errors_is summary s registry m attempt c).error ≡ none
        → IsDone registry m attempt (after_claim errors_is summary s registry m attempt c).table
    unfolding after_claim
    after_claim-nil (t, some x) e = cc
    after_claim-nil (t, none) e = with_handler-nil t (resolve m.task_type registry) refl e

    after_get-nil :
        (t : Table) (f : Found)
        → (after_get errors_is summary s registry m attempt t f).error ≡ none
        → IsDone registry m attempt (after_get errors_is summary s registry m attempt t f).table
    unfolding after_get
    after_get-nil t (missing x) e = cc
    after_get-nil t (found row) e = elim (Bool-cases (validate_transition row.status running)) [
      | inl valid ↦ rw valid (
          after_claim-nil
            (claim_execution s.claim_fault s.claimed_now m.execution_id attempt s.started_at
              (s.before_claim t))
            (rw valid at e))
      | inr not_valid ↦ absurd (ground arith)
    ]

    -- If `Process` returns nil, a handler is registered for the message's type and has handled its
    -- payload, and the execution is in the table it leaves as succeeded, by this attempt, with the
    -- handler's number of rows and the time at which it finished, whatever other workers did in
    -- between.
    pub process-nil :
        (t : Table)
        → (process errors_is summary s registry m attempt t).error ≡ none
        → IsDone registry m attempt (process errors_is summary s registry m attempt t).table
    unfolding process
    process-nil t e = after_get-nil t (get_execution s.get_fault m.execution_id t) e
