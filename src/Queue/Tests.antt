-- ===== src/Queue/Tests.antt =====
-- An outbox with one message.
use backend_infrastructure_g.Base.{
  ℕ, ◌≡◌, ◌↔◌, Bool, false, Option, none, some, List, [], ◌∷◌, Text, codes, ℤ, pos, ◌+ℤ◌, ◌≤ℤ◌,
}
use backend_infrastructure_g.Task.Uuid.{format_uuid}
use backend_infrastructure_g.Task.Model.{queued}
use backend_infrastructure_g.Task.Processor.{Message}
use backend_infrastructure_g.Task.Submission.{Db, PublishOptions, OutboxRow}
use backend_infrastructure_g.Task.Workers.Tests.{id_bytes, waiting}
use backend_infrastructure_g.Queue.{QueuedTask, PendingPublish, decode_message, handle_error}
use backend_infrastructure_g.Queue.Failure.{handle_error_iff}

-- A publisher that remembers what it took.
abbrev takes : Message → PublishOptions → List Text → List Text × Option ℕ
takes m o q = (m.payload ∷ q, none)

abbrev never : Text → Bool
never id = false

abbrev row : OutboxRow
row = record {
  execution_id = id_bytes;
  queue_id = codes "q";
  task_type = codes "mail";
  payload = codes "{}";
  max_retries = pos 3;
  timeout_seconds = pos 5;
  unique_for_seconds = pos 0;
  process_after_seconds = pos 0;
  published = false;
}

abbrev tables : Db
tables = record { executions = waiting ∷ []; outbox = row ∷ []; definitions = [] }

abbrev listed : List PendingPublish
listed =
    record {
      message = record {
        execution_id = format_uuid (some id_bytes);
        task_type = codes "mail";
        payload = codes "{}";
      };
      options = record {
        queue_id = codes "q";
        max_retries = pos 3;
        timeout = pos 5000000000;
        unique_for = pos 0;
        process_after = pos 0;
      };
      execution_status = queued;
    }
    ∷ []

abbrev decodes : Text → Option Message
decodes s = some record { execution_id = s; task_type = []; payload = s }

abbrev task : QueuedTask
task = record { task_type = codes "mail"; payload = codes "x" }

abbrev mail : Message
mail = record { execution_id = codes "x"; task_type = codes "mail"; payload = codes "x" }

abbrev seven : ℕ
seven = 7

abbrev final : ℕ → Bool
final e = false

handle_error_iff_example :
    (handle_error decodes final (some (pos 3)) (some (pos 3)) task seven
      ≡ some (mail, pos 4, seven))
    ↔ ((final seven ≡ false)
        × ((n : ℤ) × (k : ℤ) × (some (pos 3) ≡ some n)
            × (some (pos 3) ≡ some k)
            × (k ≤ℤ n)
            × (decode_message decodes task ≡ some mail)
            × (pos 4 ≡ n +ℤ pos 1)
            × (seven ≡ seven)))
handle_error_iff_example =
    handle_error_iff decodes final task (some (pos 3)) (some (pos 3)) seven seven mail (pos 4)
