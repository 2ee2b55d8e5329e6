-- ===== src/Task/Submission.antt =====
-- Submissions: pkg/modules/task/service.go (`ValidateSubmission`, `Submit`) with the statements
-- CreateTaskExecution and CreateTaskExecutionWithPendingPublish of db/queries/tasks.sql and their
-- methods in pkg/platform/database/taskstore/postgres.go. A duration is an int64 of nanoseconds.
pub mod Validation
pub mod Delivery
mod Tests
use backend_infrastructure_g.Base.{
  ℕ, ◌+◌, ◌*◌, ◌/◌, ◌%◌, Bool, true, false, not, ◌&&◌, ◌||◌, Option, none, some, List, [], ◌∷◌,
  ◌++◌, Text, text_eq, ℤ, pos, negsuc, ◌*ℤ◌, ◌-ℤ◌, pos_part, neg_part, ltb_ℤ, leb_ℤ, wrap32, wrap64,
  ◌==◌, if◌then◌else◌,
}
use backend_infrastructure_g.Task.Uuid.{parse_uuid, format_uuid}
use backend_infrastructure_g.Task.Model.{Status, queued, failed, validate_transition, same_status}
use backend_infrastructure_g.Task.Store.{
  Row, Table, StoreError, ExecutionUpdate, nullable_text, update_execution,
}
use backend_infrastructure_g.Task.Processor.{Message}

abbrev pub second : ℕ
second = 1000000000

abbrev pub max_submission_retries : ℤ
max_submission_retries = pos 25

abbrev pub max_submission_timeout : ℤ
max_submission_timeout = pos (24 * 3600 * second)

abbrev pub max_submission_unique_for : ℤ
max_submission_unique_for = pos (7 * 24 * 3600 * second)

abbrev pub max_submission_process_after : ℤ
max_submission_process_after = pos (30 * 24 * 3600 * second)

pub record Submission : Type 0 where
  pub definition_id : Text
  pub task_type : Text
  pub payload : Text
  pub idempotency_key : Text
  pub max_retries : ℤ
  pub timeout : ℤ
  pub unique_for : ℤ
  pub process_after : ℤ

-- The reasons for ErrInvalidSubmission.
pub data Invalid : Type 0 where
  retries_negative retries_exceed timeout_not_positive timeout_exceeds unique_negative : Invalid
  unique_exceeds process_after_negative process_after_exceeds : Invalid

unfoldable pub validate_submission : Submission → Option Invalid
validate_submission s =
    if ltb_ℤ s.max_retries (pos 0)
    then some retries_negative
    else (if ltb_ℤ max_submission_retries s.max_retries
        then some retries_exceed
        else (if leb_ℤ s.timeout (pos 0)
            then some timeout_not_positive
            else (if ltb_ℤ max_submission_timeout s.timeout
                then some timeout_exceeds
                else (if ltb_ℤ s.unique_for (pos 0)
                    then some unique_negative
                    else (if ltb_ℤ max_submission_unique_for s.unique_for
                        then some unique_exceeds
                        else (if ltb_ℤ s.process_after (pos 0)
                            then some process_after_negative
                            else (if ltb_ℤ max_submission_process_after s.process_after
                                then some process_after_exceeds
                                else none)))))))

pub record NewExecution : Type 0 where
  pub definition_id : Text
  pub task_type : Text
  pub queue_id : Text
  pub idempotency_key : Text
  pub payload : Text

pub record PublishOptions : Type 0 where
  pub queue_id : Text
  pub max_retries : ℤ
  pub timeout : ℤ
  pub unique_for : ℤ
  pub process_after : ℤ

-- A row of task_outbox_messages; `published` says that published_at is not NULL.
pub record OutboxRow : Type 0 where
  pub execution_id : List ℕ
  pub queue_id : Text
  pub task_type : Text
  pub payload : Text
  pub max_retries : ℤ
  pub timeout_seconds : ℤ
  pub unique_for_seconds : ℤ
  pub process_after_seconds : ℤ
  pub published : Bool

-- The tables, with the ids of the task definitions.
pub record Db : Type 0 where
  pub executions : Table
  pub outbox : List OutboxRow
  pub definitions : List (List ℕ)

-- ErrDuplicateSubmission, ErrDefinitionNotFound, an id that is no UUID, an error of the database.
pub data CreateError : Type 0 where
  duplicate_submission definition_not_found bad_definition_id create_failed : CreateError

pub data Created : Type 0 where
  created : Row → Created
  refused : CreateError → Created

-- `nullableUUID`: the empty text is NULL.
pub data Key : Type 0 where
  null bad : Key
  key : List ℕ → Key

abbrev key_of : Option (List ℕ) → Key
key_of none = bad
key_of (some id) = key id

unfoldable pub nullable_uuid : Text → Key
nullable_uuid [] = null
nullable_uuid (c ∷ s) = key_of (parse_uuid (c ∷ s))

unfoldable pub is_defined : List ℕ → List (List ℕ) → Bool
is_defined id [] = false
is_defined id (d ∷ ds) = text_eq d id || is_defined id ds

abbrev same_key : Option Text → Option Text → Bool
same_key (some a) (some b) = text_eq a b
same_key _ _ = false

-- A row breaks the constraint UNIQUE (task_type, idempotency_key); a NULL key breaks nothing.
unfoldable pub is_taken : Text → Option Text → Table → Bool
is_taken task_type k [] = false
is_taken task_type k (r ∷ t) =
    (text_eq r.task_type task_type && same_key r.idempotency_key k) || is_taken task_type k t

-- The row that INSERT makes of the parameters and the columns' defaults.
abbrev pub new_row : ℤ → List ℕ → Option (List ℕ) → NewExecution → Row
new_row database_now id definition n = record {
  id = id;
  definition_id = definition;
  task_type = n.task_type;
  queue_id = nullable_text n.queue_id;
  idempotency_key = nullable_text n.idempotency_key;
  payload = n.payload;
  status = queued;
  attempt = pos 0;
  processed_rows = pos 0;
  error_summary = none;
  started_at = none;
  finished_at = none;
  queued_at = database_now;
  created_at = database_now;
  updated_at = database_now;
}

abbrev pub unknown : Option (List ℕ) → Db → Bool
unknown none db = false
unknown (some d) db = not (is_defined d db.definitions)

-- The primary key.
unfoldable pub is_used : List ℕ → Table → Bool
is_used id [] = false
is_used id (r ∷ t) = text_eq r.id id || is_used id t

-- `btrim(task_type) = ''`: the text has nothing but spaces.
unfoldable pub is_blank : Text → Bool
is_blank [] = true
is_blank (c ∷ s) = (c == 32) && is_blank s

-- The INSERT, with the constraints that its parameters can break: the check on the type, the keys
-- and the foreign key.
unfoldable pub insert_execution :
    Bool → ℤ → List ℕ → Option (List ℕ) → NewExecution → Db → Db × Created
insert_execution fault database_now id definition n db =
    if fault || is_blank n.task_type
    then (db, refused create_failed)
    else (if is_used id db.executions
          || is_taken n.task_type (nullable_text n.idempotency_key) db.executions
        then (db, refused duplicate_submission)
        else (if unknown definition db then (db, refused definition_not_found) else (
          record db { executions = db.executions ++ new_row database_now id definition n ∷ [] },
          created (new_row database_now id definition n),
        )))

-- `CreateExecution`; `id` is the value of gen_random_uuid().
unfoldable pub create_execution : Bool → ℤ → List ℕ → NewExecution → Db → Db × Created
unfolding insert_execution
create_execution fault database_now id n db = elim (nullable_uuid n.definition_id) [
  | bad ↦ (db, refused bad_definition_id)
  | null ↦ insert_execution fault database_now id none n db
  | key d ↦ insert_execution fault database_now id (some d) n db
]

-- `int32(d / time.Second)`; Go's quotient is cut towards zero.
unfoldable pub seconds_of : ℤ → ℤ
unfolding wrap32
seconds_of d = wrap32 (pos (pos_part d / second) -ℤ pos (neg_part d / second))

-- `time.Duration(row.…Seconds) * time.Second`.
unfoldable pub duration_of : ℤ → ℤ
unfolding wrap64
duration_of seconds = wrap64 (seconds *ℤ pos second)

unfoldable pub outbox_row : List ℕ → NewExecution → PublishOptions → OutboxRow
outbox_row id n o = record {
  execution_id = id;
  queue_id = o.queue_id;
  task_type = n.task_type;
  payload = n.payload;
  max_retries = wrap32 o.max_retries;
  timeout_seconds = seconds_of o.timeout;
  unique_for_seconds = seconds_of o.unique_for;
  process_after_seconds = seconds_of o.process_after;
  published = false;
}

-- The primary key of the outbox.
unfoldable pub has_message : Text → List OutboxRow → Bool
has_message queue_id [] = false
has_message queue_id (m ∷ ms) = text_eq m.queue_id queue_id || has_message queue_id ms

-- The second INSERT of CreateTaskExecutionWithPendingPublish: it selects from the first. If it is
-- refused, then the statement leaves the tables as they were before it.
abbrev pub with_outbox : NewExecution → PublishOptions → Db → Db × Created → Db × Created
with_outbox n o before (db, refused e) = (before, refused e)
with_outbox n o before (db, created r) =
    if has_message o.queue_id before.outbox
    then (before, refused duplicate_submission)
    else (record db { outbox = db.outbox ++ outbox_row r.id n o ∷ [] }, created r)

-- `CreateExecutionWithPendingPublish`: one statement, so both rows or none. The queue id comes from
-- the options.
unfoldable pub create_execution_with_pending_publish :
    Bool → ℤ → List ℕ → NewExecution → PublishOptions → Db → Db × Created
unfolding create_execution outbox_row has_message
create_execution_with_pending_publish fault database_now id n o db =
    with_outbox n o db
      (create_execution fault database_now id (record n { queue_id = o.queue_id }) db)

-- MarkTaskOutboxMessagePublished.
unfoldable pub mark_published : Text → List OutboxRow → List OutboxRow
mark_published queue_id [] = []
mark_published queue_id (m ∷ ms) =
    (if text_eq m.queue_id queue_id then record m { published = true } else m)
    ∷ mark_published queue_id ms

-- `MarkPublishSucceeded`: true where it returns nil.
unfoldable pub mark_publish_succeeded : Bool → Text → Db → Db × Bool
unfolding mark_published
mark_publish_succeeded fault queue_id db =
    if fault then (db, false) else (record db { outbox = mark_published queue_id db.outbox }, true)

-- The update that `Submit` sends when a message cannot be published.
abbrev pub submit_failed_update : Row → ℤ → Text → ExecutionUpdate
submit_failed_update r finished_at summary = record {
  id = format_uuid (some r.id);
  status = failed;
  started_at = none;
  finished_at = some finished_at;
  error_summary = summary;
  processed_rows = pos 0;
  attempt = pos 0;
  expected_status = r.status;
  expected_attempt = r.attempt;
}

-- What `Submit` returns, or that it panics on a nil publisher. A publisher's error is of any type.
pub data Submitted (E : Type 0) : Type 0 where
  accepted : Row → Submitted E
  invalid : Invalid → Submitted E
  not_created : CreateError → Submitted E
  publish_failed : E → Submitted E
  publish_not_allowed : E → Submitted E
  publish_not_recorded : E → StoreError → Submitted E
  nil_publisher : Submitted E

-- The surroundings of one call: the value of `newID`, the id that the database makes, which
-- statements the database refuses and its NOW() in them, the service's clock, and the publisher,
-- which returns an error or nil (none: the publisher is nil).
pub record Surroundings (E : Type 0) : Type 0 where
  pub queue_id : Text
  pub new_uuid : List ℕ
  pub create_fault : Bool
  pub update_fault : Bool
  pub created_now : ℤ
  pub updated_now : ℤ
  pub now : ℤ
  pub publisher : Option (Message → PublishOptions → Option E)

unfoldable pub new_execution : Text → Submission → NewExecution
new_execution queue_id s = record {
  definition_id = s.definition_id;
  task_type = s.task_type;
  queue_id = queue_id;
  idempotency_key = s.idempotency_key;
  payload = s.payload;
}

unfoldable pub publish_options : Text → Submission → PublishOptions
publish_options queue_id s = record {
  queue_id = queue_id;
  max_retries = s.max_retries;
  timeout = s.timeout;
  unique_for = s.unique_for;
  process_after = s.process_after;
}

unfoldable pub message_of : Submission → Row → Message
message_of s r = record {
  execution_id = format_uuid (some r.id);
  task_type = s.task_type;
  payload = s.payload;
}

module _ {E : Type 0} (summary : E → Text) where
  -- What the publisher, if there is one, returns.
  abbrev pub answer :
      Option (Message → PublishOptions → Option E) → Message → PublishOptions → Option (Option E)
  answer none m o = none
  answer (some p) m o = some (p m o)

  -- A message that was published is marked; Submit ignores the error of marking.
  unfoldable pub after_publish : Surroundings E → Option (Option E) → Db → Db
  after_publish w none db = db
  after_publish w (some (some err)) db = db
  after_publish w (some none) db = (mark_publish_succeeded w.update_fault w.queue_id db).0

  -- The path of a store with an outbox, after its statement.
  unfoldable pub with_pending : Surroundings E → Submission → Db × Created → Db × Submitted E
  unfolding after_publish
  with_pending w s (db, refused e) = (db, not_created e)
  with_pending w s (db, created r) = (
    after_publish w (answer w.publisher (message_of s r) (publish_options w.queue_id s)) db,
    accepted r,
  )

  -- The path of a store without an outbox: what happens to the execution that was not published.
  not_recorded : Db → E → Table × Option StoreError → Db × Submitted E
  not_recorded db err (t, none) = (record db { executions = t }, publish_failed err)
  not_recorded db err (t, some e) = (record db { executions = t }, publish_not_recorded err e)

  without_outbox : Surroundings E → Submission → Db × Created → Db × Submitted E
  unfolding not_recorded
  without_outbox w s (db, refused e) = (db, not_created e)
  without_outbox w s (db, created r) = elim w.publisher [
    | none ↦ (db, nil_publisher)
    | some p ↦ elim (p (message_of s r) (publish_options w.queue_id s)) [
      | none ↦ (db, accepted r)
      | some err ↦
          if validate_transition r.status failed
          then not_recorded db err (
              update_execution w.update_fault w.updated_now
                (submit_failed_update r w.now (summary err)) db.executions)
          else (db, publish_not_allowed err)
    ]
  ]

  unfoldable pub after_validation :
      Bool → Surroundings E → Submission → Db → Option Invalid → Db × Submitted E
  unfolding with_pending without_outbox
  after_validation outbox w s db (some reason) = (db, invalid reason)
  after_validation outbox w s db none =
      if outbox
      then with_pending w s (
          create_execution_with_pending_publish w.create_fault w.created_now w.new_uuid
            (new_execution w.queue_id s) (publish_options w.queue_id s) db)
      else without_outbox w s
          (create_execution w.create_fault w.created_now w.new_uuid (new_execution w.queue_id s) db)

  -- `Submit`; the first argument says whether the store is an OutboxStore.
  unfoldable pub submit : Bool → Surroundings E → Submission → Db → Db × Submitted E
  unfolding after_validation
  submit outbox w s db = after_validation outbox w s db (validate_submission s)
