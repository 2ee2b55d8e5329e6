-- ===== src/Task/Processor/Tests.antt =====
-- One worker and one execution.
use backend_infrastructure_g.Base.{
  ℕ, ◌≡◌, refl, ◌↔◌, Bool, true, false, none, some, List, [], ◌∷◌, Text, codes, pos, wrap32,
  text_eq,
}
use backend_infrastructure_g.Task.Uuid.{parse_uuid}
use backend_infrastructure_g.Task.Model.{queued, running, failed, validate_transition}
use backend_infrastructure_g.Task.Store.{
  execution_conflict, find_row, found_row, claim_row, update_row, modify, affected, on_row,
  claim_execution, update_execution, get_execution,
}
use backend_infrastructure_g.Task.Registry.{lookup, resolve}
use backend_infrastructure_g.Task.Processor.{
  Message, Handled, handled, Surroundings, update_failed, process, fail, after_get, after_claim,
  with_handler, after_handler, succeeded_with,
}
use backend_infrastructure_g.Task.Processor.Outcome.{IsDone, process-nil}
use backend_infrastructure_g.Task.Processor.Failing.{fail-nil_iff, fail-queued}
use backend_infrastructure_g.Task.Workers.Tests.{id_text, id_bytes, id_parses, waiting, claimed_row}

abbrev same : ℕ → ℕ → Bool
same _ _ = true

abbrev text_of : ℕ → Text
text_of c = c ∷ []

abbrev calm : Surroundings ℕ
calm = record {
  get_fault = false;
  claim_fault = false;
  update_fault = false;
  started_at = pos 5;
  finished_at = pos 9;
  claimed_now = pos 6;
  updated_now = pos 10;
  ctx_err = none;
  before_claim = λ t. t;
  while_handling = λ t. t;
}

abbrev registry : List (Text × (Text → Handled ℕ))
registry = (codes "mail", λ payload. handled (pos 3)) ∷ []

abbrev message : Message
message = record { execution_id = id_text; task_type = codes "mail"; payload = codes "{}" }

runs : (process same text_of calm registry message (pos 1) (waiting ∷ [])).error ≡ none
unfolding process get_execution found_row find_row after_get after_claim with_handler after_handler
    succeeded_with claim_execution update_execution on_row modify affected claim_row update_row
    parse_uuid wrap32 text_eq resolve lookup validate_transition
runs = refl

process-nil_example :
    IsDone same text_of calm registry message
      (pos 1)
      (process same text_of calm registry message (pos 1) (waiting ∷ [])).table
process-nil_example = process-nil same text_of calm registry message (pos 1) (waiting ∷ []) runs

fail-nil_iff_example :
    (((fail same text_of calm message (pos 1) 7 (claimed_row (pos 6) (pos 1) (pos 5) ∷ [])).error
        ≡ none)
      ↔ ((running ≡ running) × (pos 1 ≡ wrap32 (pos 1))))
    × ((fail same text_of calm message (pos 1) 7 (claimed_row (pos 6) (pos 1) (pos 5) ∷ [])).error
          ≡ none
        → find_row id_bytes
            (fail same text_of calm message
              (pos 1)
              7
              (claimed_row (pos 6) (pos 1) (pos 5) ∷ [])).table
          ≡ some (record (claimed_row (pos 6) (pos 1) (pos 5)) {
            status = failed;
            finished_at = some (pos 9);
            error_summary = some (text_of 7);
            processed_rows = pos 0;
            updated_at = pos 10;
          }))
unfolding find_row text_eq
fail-nil_iff_example =
    fail-nil_iff same text_of calm message (pos 1) 7 (claimed_row (pos 6) (pos 1) (pos 5) ∷ [])
      id_bytes (claimed_row (pos 6) (pos 1) (pos 5)) id_parses refl refl refl refl

fail-queued_example :
    (validate_transition queued failed ≡ true)
    × ((fail same text_of calm message (pos 1) 7 (waiting ∷ [])).error
        ≡ some (update_failed execution_conflict))
    × ((fail same text_of calm message (pos 1) 7 (waiting ∷ [])).table ≡ waiting ∷ [])
unfolding find_row text_eq
fail-queued_example =
    fail-queued same text_of calm message (pos 1) 7 (waiting ∷ []) id_bytes waiting id_parses refl
      refl refl refl refl
