-- ===== src/Task/Store.antt =====
-- The table of executions and the statements on it: db/queries/tasks.sql with the methods of
-- pkg/platform/database/taskstore/postgres.go. A row's id is the primary key, so a statement with
-- `WHERE id = …` reaches one row at most. Each statement is atomic. `fault` says that the database
-- returned an error and did nothing, `database_now` is its NOW(). Times are nanoseconds, NULL and
-- nil are `none`.
pub mod Rows
use backend_infrastructure_g.Base.{
  ℕ, ◌+◌, Bool, true, false, ◌&&◌, ◌||◌, Option, none, some, List, [], ◌∷◌, Text, text_eq, ℤ, pos,
  ltb_ℤ, leb_ℤ, wrap32, ◌==◌, if◌then◌else◌,
}
use backend_infrastructure_g.Task.Uuid.{parse_uuid}
use backend_infrastructure_g.Task.Model.{Status, queued, running, same_status}

pub record Row : Type 0 where
  pub id : List ℕ
  pub definition_id : Option (List ℕ)
  pub task_type : Text
  pub queue_id : Option Text
  pub idempotency_key : Option Text
  pub payload : Text
  pub status : Status
  pub attempt : ℤ  -- int32
  pub processed_rows : ℤ  -- int64
  pub error_summary : Option Text
  pub started_at : Option ℤ
  pub finished_at : Option ℤ
  pub queued_at : ℤ
  pub created_at : ℤ
  pub updated_at : ℤ

abbrev pub Table : Type 0
Table = List Row

-- ErrExecutionNotFound, ErrExecutionConflict, the error of `parseUUID`, an error of the database.
pub data StoreError : Type 0 where
  execution_not_found execution_conflict invalid_uuid database_error : StoreError

unfoldable pub find_row : List ℕ → Table → Option Row
find_row id [] = none
find_row id (r ∷ t) = if text_eq r.id id then some r else find_row id t

-- The row that an UPDATE leaves and the number of rows that it affected.
abbrev replaced : Row → Table → Option Row → Table × ℕ
replaced r t none = (r ∷ t, 0)
replaced r t (some r') = (r' ∷ t, 1)

unfoldable pub modify : List ℕ → (Row → Option Row) → Table → Table × ℕ
modify id g [] = ([], 0)
modify id g (r ∷ t) =
    let (t', n) = modify id g t in if text_eq r.id id then replaced r t (g r) else (r ∷ t', n)

abbrev pub coalesce : Option ℤ → Option ℤ → Option ℤ
coalesce (some x) y = some x
coalesce none y = y

-- ClaimTaskExecution, on the row with the id.
unfoldable pub claim_row : ℤ → ℤ → Option ℤ → Row → Option Row
claim_row database_now attempt started_at r =
    if (same_status r.status queued || same_status r.status running) && ltb_ℤ r.attempt attempt
    then some (record r {
      status = running;
      started_at = coalesce r.started_at started_at;
      attempt = attempt;
      updated_at = database_now;
    })
    else none

pub record ExecutionUpdate : Type 0 where
  pub id : Text
  pub status : Status
  pub started_at : Option ℤ
  pub finished_at : Option ℤ
  pub error_summary : Text
  pub processed_rows : ℤ
  pub attempt : ℤ
  pub expected_status : Status
  pub expected_attempt : ℤ

-- `nullableText`.
abbrev pub nullable_text : Text → Option Text
nullable_text [] = none
nullable_text (c ∷ s) = some (c ∷ s)

abbrev pub eq_ℤ : ℤ → ℤ → Bool
eq_ℤ a b = leb_ℤ a b && leb_ℤ b a

-- UpdateTaskExecutionStatus, on the row with the id.
unfoldable pub update_row : ℤ → ExecutionUpdate → Row → Option Row
update_row database_now u r =
    if same_status r.status u.expected_status && eq_ℤ r.attempt (wrap32 u.expected_attempt)
    then some (record r {
      status = u.status;
      started_at = coalesce u.started_at r.started_at;
      finished_at = coalesce u.finished_at r.finished_at;
      error_summary = nullable_text u.error_summary;
      processed_rows = u.processed_rows;
      attempt = wrap32 u.attempt;
      updated_at = database_now;
    })
    else none

-- The error of an UPDATE that must affect a row.
unfoldable pub affected : Table × ℕ → Table × Option StoreError
affected (t, n) = if n == 0 then (t, some execution_conflict) else (t, none)

-- Runs an UPDATE on the row that an id names.
unfoldable pub on_row :
    Bool → Option (List ℕ) → (Row → Option Row) → Table → Table × Option StoreError
unfolding affected
on_row fault none g t = (t, some invalid_uuid)
on_row true (some id) g t = (t, some database_error)
on_row false (some id) g t = affected (modify id g t)

unfoldable pub claim_execution : Bool → ℤ → Text → ℤ → ℤ → Table → Table × Option StoreError
claim_execution fault database_now id attempt started_at t =
    on_row fault (parse_uuid id) (claim_row database_now (wrap32 attempt) (some started_at)) t

unfoldable pub update_execution : Bool → ℤ → ExecutionUpdate → Table → Table × Option StoreError
update_execution fault database_now u t =
    on_row fault (parse_uuid u.id) (update_row database_now u) t

pub data Found : Type 0 where
  found : Row → Found
  missing : StoreError → Found

unfoldable pub found_row : Option Row → Found
found_row none = missing execution_not_found
found_row (some r) = found r

-- `GetExecution`: an id that is no UUID is not found either.
unfoldable pub get_execution : Bool → Text → Table → Found
unfolding found_row
get_execution fault id t = elim (parse_uuid id) [
  | none ↦ missing execution_not_found
  | some key ↦ if fault then missing database_error else found_row (find_row key t)
]
