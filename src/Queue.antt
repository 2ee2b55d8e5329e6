-- ===== src/Queue.antt =====
-- pkg/platform/queue/asynq.go: the worker's and the outbox's side of the queue. The decoding of a
-- payload, asynq's client and what `errors.Is` says of an error are parameters.
pub mod Dispatch
pub mod Failure
mod Tests
use backend_infrastructure_g.Base.{
  ℕ, ◌+◌, Bool, true, false, not, ◌&&◌, ◌||◌, Option, none, some, List, [], ◌∷◌, Text, ℤ, pos,
  negsuc, wrap32, ◌+ℤ◌, ltb_ℤ, take, if◌then◌else◌,
}
use backend_infrastructure_g.Task.Uuid.{format_uuid}
use backend_infrastructure_g.Task.Model.{Status, queued, same_status}
use backend_infrastructure_g.Task.Store.{Row, Table, find_row}
use backend_infrastructure_g.Task.Processor.{Message}
use backend_infrastructure_g.Task.Submission.{
  Db, OutboxRow, PublishOptions, duration_of, mark_publish_succeeded,
}

-- A task of asynq: its type and its payload.
pub record QueuedTask : Type 0 where
  pub task_type : Text
  pub payload : Text

-- What asynq is asked to do with a task that failed: SkipRetry, RevokeTask, or its own retries.
pub data Disposition : Type 0 where
  skip_retry revoke_task retry_task : Disposition

-- `decodeMessage`; a message without a type gets the task's.
abbrev with_type : Text → Message → Message
with_type task_type m = elim m.task_type [ [] ↦ record m { task_type = task_type } | c ∷ s ↦ m ]

unfoldable pub decode_message : (Text → Option Message) → QueuedTask → Option Message
decode_message decode task = elim (decode task.payload) [
  | none ↦ none
  | some m ↦ some (with_type task.task_type m)
]

module _ {E : Type 0} (decode : Text → Option Message) where
  module _ (is_stopped : E → Bool) (is_conflict : E → Bool)
      (process_message : Message → ℤ → Option E) where
    -- `is_stopped` is errors.Is(err, context.Canceled) or context.DeadlineExceeded.
    abbrev disposition : Option E → Option Disposition
    disposition none = none
    disposition (some err) =
        if is_stopped err
        then some revoke_task
        else (if is_conflict err then some revoke_task else some retry_task)

    -- `ProcessTask`; `none` is nil. The attempt is one more than the retries so far.
    unfoldable pub process_task : ℤ → QueuedTask → Option Disposition
    unfolding decode_message
    process_task retry_count task = elim (decode_message decode task) [
      | none ↦ some skip_retry
      | some m ↦ disposition (process_message m (retry_count +ℤ pos 1))
    ]

  -- The call of `Fail` that `HandleExhausted` makes, if any.
  unfoldable pub handle_exhausted : QueuedTask → E → ℤ → ℤ → Option (Message × ℤ × E)
  unfolding decode_message
  handle_exhausted task err retry_count max_retry =
      if ltb_ℤ retry_count max_retry then none else elim (decode_message decode task) [
        | none ↦ none
        | some m ↦ some (m, retry_count +ℤ pos 1, err)
      ]

  -- The two counts, where the context has both.
  abbrev exhausted : Option ℤ → Option ℤ → QueuedTask → E → Option (Message × ℤ × E)
  exhausted (some retry_count) (some max_retry) task err =
      if ltb_ℤ retry_count max_retry then none else handle_exhausted task err retry_count max_retry
  exhausted _ _ task err = none

  -- `HandleError`; `is_final` is errors.Is of the two context errors or of RevokeTask.
  unfoldable pub handle_error :
      (E → Bool) → Option ℤ → Option ℤ → QueuedTask → E → Option (Message × ℤ × E)
  unfolding handle_exhausted
  handle_error is_final retry_count max_retry task err =
      if is_final err then none else exhausted retry_count max_retry task err

-- `PendingPublish`: a row of ListPendingTaskOutboxMessages.
pub record PendingPublish : Type 0 where
  pub message : Message
  pub options : PublishOptions
  pub execution_status : Status

pending_of : OutboxRow → Row → PendingPublish
pending_of m r = record {
  message = record {
    execution_id = format_uuid (some m.execution_id);
    task_type = m.task_type;
    payload = m.payload;
  };
  options = record {
    queue_id = m.queue_id;
    max_retries = m.max_retries;
    timeout = duration_of m.timeout_seconds;
    unique_for = duration_of m.unique_for_seconds;
    process_after = duration_of m.process_after_seconds;
  };
  execution_status = r.status;
}

-- The join with the executions, for a row that is not published.
joined : OutboxRow → Option Row → List PendingPublish → List PendingPublish
unfolding pending_of
joined m none rest = rest
joined m (some r) rest = if m.published then rest else pending_of m r ∷ rest

unfoldable pub pending_rows : Table → List OutboxRow → List PendingPublish
unfolding joined
pending_rows executions [] = []
pending_rows executions (m ∷ ms) =
    joined m (find_row m.execution_id executions) (pending_rows executions ms)

-- The answer to a query with a LIMIT; the database refuses a negative one.
abbrev limited : ℤ → List PendingPublish → Option (List PendingPublish)
limited (pos n) rows = some (take n rows)
limited (negsuc n) rows = none

-- `ListPendingPublishes`, `none` where it returns an error; the limit is converted to an int32. The
-- outbox stands in the order of created_at.
unfoldable pub list_pending_publishes : Bool → ℤ → Db → Option (List PendingPublish)
unfolding pending_rows
list_pending_publishes fault limit db =
    if fault then none else limited (wrap32 limit) (pending_rows db.executions db.outbox)

-- What `DispatchPending` leaves: the tables, the publisher's state, and its error.
pub data DispatchError (E : Type 0) : Type 0 where
  not_listed : DispatchError E
  not_published : Text → E → DispatchError E
  not_marked : Text → DispatchError E

pub record Dispatched (Q E : Type 0) : Type 0 where
  pub db : Db
  pub queue : Q
  pub error : Option (DispatchError E)

-- `publisher.Publish` is an action on the publisher's state.
module _ {Q E : Type 0} (publish : Message → PublishOptions → Q → Q × Option E)
    (mark_fault : Text → Bool) where
  -- An execution that is no longer queued is marked without being published.
  abbrev publish_if_queued : PendingPublish → Q → Q × Option E
  publish_if_queued p q =
      if same_status p.execution_status queued then publish p.message p.options q else (q, none)

  after_mark : PendingPublish → (Db → Q → Dispatched Q E) → Q → Db × Bool → Dispatched Q E
  after_mark p next q (db, true) = next db q
  after_mark p next q (db, false) = record {
    db = db;
    queue = q;
    error = some (not_marked p.options.queue_id);
  }

  one_publish : PendingPublish → (Db → Q → Dispatched Q E) → Db → Q × Option E → Dispatched Q E
  unfolding after_mark
  one_publish p next db (q, some err) = record {
    db = db;
    queue = q;
    error = some (not_published p.options.queue_id err);
  }
  one_publish p next db (q, none) =
      after_mark p next q
        (mark_publish_succeeded (mark_fault p.options.queue_id) p.options.queue_id db)

  -- The loop.
  unfoldable pub dispatch : List PendingPublish → Db → Q → Dispatched Q E
  unfolding one_publish
  dispatch [] db q = record { db = db; queue = q; error = none }
  dispatch (p ∷ pending) db q = one_publish p (dispatch pending) db (publish_if_queued p q)

  unfoldable pub dispatch_pending : Bool → ℤ → Db → Q → Dispatched Q E
  dispatch_pending list_fault limit db q = elim (list_pending_publishes list_fault limit db) [
    | none ↦ record { db = db; queue = q; error = some not_listed }
    | some pending ↦ dispatch pending db q
  ]
