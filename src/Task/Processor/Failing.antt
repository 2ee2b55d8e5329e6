-- ===== src/Task/Processor/Failing.antt =====
-- When `Fail` (service.go) marks an execution as failed.
use backend_infrastructure_g.Base.{
  ℕ, ◌≡◌, refl, ap, ◌∙◌, ◌↔◌, inl, inr, Bool, true, false, Option, none, some, List, Text, ℤ, pos,
  wrap32, arith, Bool-cases,
}
use backend_infrastructure_g.Task.Uuid.{parse_uuid}
use backend_infrastructure_g.Task.Model.{queued, running, failed, validate_transition}
use backend_infrastructure_g.Task.Store.{
  Row, Table, StoreError, execution_conflict, found, find_row, found_row, update_row,
  update_execution, get_execution, nullable_text,
}
use backend_infrastructure_g.Task.Store.Rows.{update_row-KeepsId, on_row_self, on_row-conflict}
use backend_infrastructure_g.Task.Processor.{
  Message, update_failed, Surroundings, failed_update, fail, fail_found, failed_with,
}

get_execution-found :
    (id : Text) (t : Table) (key : List ℕ) (row : Row)
    → parse_uuid id ≡ some key
    → find_row key t ≡ some row
    → get_execution false id t ≡ found row
unfolding get_execution found_row
get_execution-found id t key row p h = ground arith

module _ {E : Type 0} (errors_is : E → E → Bool) (summary : E → Text) (s : Surroundings E) where
  failed_with-nil :
      (row : Row) (r : Table × Option StoreError)
      → ((failed_with errors_is summary s row r).error ≡ none) ↔ (r.1 ≡ none)
  unfolding failed_with
  failed_with-nil row (t, none) = (λ _. refl, λ _. refl)
  failed_with-nil row (t, some x) = ((λ e. cc), λ e. cc)

  failed_with-table :
      (row : Row) (r : Table × Option StoreError)
      → (failed_with errors_is summary s row r).table ≡ r.0
  unfolding failed_with
  failed_with-table row (t, none) = refl
  failed_with-table row (t, some x) = refl

  failed_with-error :
      (row : Row) (t : Table) (x : StoreError)
      → ((failed_with errors_is summary s row (t, some x)).error ≡ some (update_failed x))
        × ((failed_with errors_is summary s row (t, some x)).table ≡ t)
  unfolding failed_with
  failed_with-error row t x = (refl, refl)

  module _ (m : Message) (attempt : ℤ) (cause : E) (t : Table) (key : List ℕ) (row : Row)
      (parsed : parse_uuid m.execution_id ≡ some key) (there : find_row key t ≡ some row)
      (get_works : s.get_fault ≡ false) (update_works : s.update_fault ≡ false)
      (alone : s.before_claim t ≡ t) where
    fail-found :
        fail errors_is summary s m attempt cause t
        ≡ fail_found errors_is summary s m attempt cause t (found row)
    unfolding fail
    fail-found = ap (fail_found errors_is summary s m attempt cause t) (
        ap (λ x. get_execution x m.execution_id t) get_works
        ∙ get_execution-found m.execution_id t key row parsed there)

    update : Table × Option StoreError
    update =
        update_execution s.update_fault s.updated_now
          (failed_update m.execution_id attempt s.finished_at (summary cause)) (s.before_claim t)

    fail-valid :
        validate_transition row.status failed ≡ true
        → fail_found errors_is summary s m attempt cause t (found row)
          ≡ failed_with errors_is summary s row update
    unfolding fail_found update
    fail-valid v = rw v refl

    fail-invalid :
        validate_transition row.status failed ≡ false
        → ¬ ((fail_found errors_is summary s m attempt cause t (found row)).error ≡ none)
    unfolding fail_found
    fail-invalid v = rw v (λ e. cc)

    update-fail : (update.1 ≡ none) ↔ ((row.status ≡ running) × (row.attempt ≡ wrap32 attempt))
    unfolding update update_execution update_row
    update-fail =
        let u = failed_update m.execution_id attempt s.finished_at (summary cause) in
        rw (update_works, alone, parsed)
          (
            (λ e. ground (
              arith,
              on_row_self key (update_row s.updated_now u) (update_row-KeepsId s.updated_now u) t,
            )),
            (λ e. ground (
              arith,
              on_row_self key (update_row s.updated_now u) (update_row-KeepsId s.updated_now u) t,
            )),
          )

    -- The row as `Fail` should leave it.
    abbrev failed_row : Row
    failed_row = record row {
      status = failed;
      finished_at = some s.finished_at;
      error_summary = nullable_text (summary cause);
      processed_rows = pos 0;
      updated_at = s.updated_now;
    }

    fail-running :
        row.status ≡ running
        → row.attempt ≡ wrap32 attempt
        → (fail errors_is summary s m attempt cause t).table ≡ update.0
    unfolding validate_transition
    fail-running r a =
        let valid : validate_transition row.status failed ≡ true = ground arith in
        ap (λ p. p.table) (fail-found ∙ fail-valid valid) ∙ failed_with-table row update

    update-row :
        row.status ≡ running
        → row.attempt ≡ wrap32 attempt
        → find_row key update.0 ≡ some failed_row
    unfolding update update_execution update_row
    update-row r a =
        let u = failed_update m.execution_id attempt s.finished_at (summary cause) in
        rw (update_works, alone, parsed)
          (ground (
            arith,
            on_row_self key (update_row s.updated_now u) (update_row-KeepsId s.updated_now u) t,
          ))

    fail-nil :
        ((fail errors_is summary s m attempt cause t).error ≡ none)
        ↔ ((row.status ≡ running) × (row.attempt ≡ wrap32 attempt))
    unfolding validate_transition
    fail-nil = elim (Bool-cases (validate_transition row.status failed)) [
      | inl valid ↦
          rw (fail-found, fail-valid valid)
            (
              (λ e. update-fail.0 ((failed_with-nil row update).0 e)),
              (λ e. (failed_with-nil row update).1 (update-fail.1 e)),
            )
      | inr not_valid ↦
          rw fail-found ((λ e. absurd (fail-invalid not_valid e)), (λ e. absurd (ground arith)))
    ]

    -- `Fail` returns nil exactly if the execution is running and was claimed by this attempt, and
    -- then its row has the status failed, the time of the call, the summary of the cause, no
    -- processed rows and the database's time of the update, and is otherwise as before. The
    -- execution is in the table, the database refuses no statement, and nobody else writes in
    -- between.
    pub fail-nil_iff :
        (((fail errors_is summary s m attempt cause t).error ≡ none)
          ↔ ((row.status ≡ running) × (row.attempt ≡ wrap32 attempt)))
        × ((fail errors_is summary s m attempt cause t).error ≡ none
            → find_row key (fail errors_is summary s m attempt cause t).table ≡ some failed_row)
    fail-nil_iff =
        let (there, back) = fail-nil in
        (
          (there, back),
          (λ e. let (r, a) = there e in ap (find_row key) (fail-running r a) ∙ update-row r a),
        )

    -- An execution that is still queued is not marked as failed: though `ValidateTransition` accepts
    -- the step from queued to failed, the update expects a running execution, so `Fail` returns a
    -- conflict and the table stays as it is. The execution is in the table, the database refuses no
    -- statement, and nobody else writes in between.
    pub fail-queued :
        row.status ≡ queued
        → (validate_transition row.status failed ≡ true)
          × ((fail errors_is summary s m attempt cause t).error
              ≡ some (update_failed execution_conflict))
          × ((fail errors_is summary s m attempt cause t).table ≡ t)
    unfolding validate_transition update update_execution update_row
    fail-queued q =
        let u = failed_update m.execution_id attempt s.finished_at (summary cause) in
        let refused : update ≡ (t, some execution_conflict) =
          rw (update_works, alone, parsed)
            (on_row-conflict key (update_row s.updated_now u) (update_row-KeepsId s.updated_now u) t
              row there (ground arith)) in
        let (e, same) = failed_with-error row t execution_conflict in
        let stays : fail errors_is summary s m attempt cause t
            ≡ failed_with errors_is summary s row (t, some execution_conflict) =
          fail-found
          ∙ (fail-valid (ground arith) ∙ ap (failed_with errors_is summary s row) refused) in
        (ground arith, ap (λ p. p.error) stays ∙ e, ap (λ p. p.table) stays ∙ same)
