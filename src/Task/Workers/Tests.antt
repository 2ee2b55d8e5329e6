-- ===== src/Task/Workers/Tests.antt =====
-- Two workers on a table with one execution.
use backend_infrastructure_g.Base.{
  ℕ, ◌≡◌, refl, false, none, some, List, [], ◌∷◌, Text, codes, ℤ, pos, ◌≤ℤ◌, wrap32, arith, text_eq,
}
use backend_infrastructure_g.Task.Uuid.{parse_uuid}
use backend_infrastructure_g.Task.Model.{queued, running, cancelled}
use backend_infrastructure_g.Task.Model.Transitions.{History}
use backend_infrastructure_g.Task.Store.{
  Row, execution_conflict, find_row, claim_row, update_row, modify, affected, on_row,
  claim_execution, update_execution,
}
use backend_infrastructure_g.Task.Processor.{succeeded_update}
use backend_infrastructure_g.Task.Workers.{claims, cancels, apply, apply_all}
use backend_infrastructure_g.Task.Workers.Lifecycle.{apply_all-History, terminal_frozen}
use backend_infrastructure_g.Task.Workers.Fencing.{claim_once, stale_worker_fenced}

abbrev pub id_text : Text
id_text = codes "00000000-0000-4000-8000-0000000000Af"

abbrev pub id_bytes : List ℕ
id_bytes = 0 ∷ 0 ∷ 0 ∷ 0 ∷ 0 ∷ 0 ∷ 64 ∷ 0 ∷ 128 ∷ 0 ∷ 0 ∷ 0 ∷ 0 ∷ 0 ∷ 0 ∷ 175 ∷ []

pub id_parses : parse_uuid id_text ≡ some id_bytes
unfolding parse_uuid
id_parses = refl

abbrev pub waiting : Row
waiting = record {
  id = id_bytes;
  definition_id = none;
  task_type = codes "mail";
  queue_id = none;
  idempotency_key = none;
  payload = codes "{}";
  status = queued;
  attempt = pos 0;
  processed_rows = pos 0;
  error_summary = none;
  started_at = none;
  finished_at = none;
  queued_at = pos 2;
  created_at = pos 2;
  updated_at = pos 2;
}

abbrev pub claimed_row : ℤ → ℤ → ℤ → Row
claimed_row now attempt at = record waiting {
  status = running;
  attempt = attempt;
  started_at = some at;
  updated_at = now;
}

abbrev cancelled_row : Row
cancelled_row = record (claimed_row (pos 6) (pos 1) (pos 5)) {
  status = cancelled;
  finished_at = some (pos 9);
  error_summary = some (codes "stop");
  updated_at = pos 10;
}

apply_all-History_example :
    (r' : Row) × (find_row id_bytes (
        apply_all
          (claims false (pos 6) id_text (pos 1) (pos 5)
            ∷ cancels false (pos 10) id_text (pos 1) (pos 9) (codes "stop")
            ∷ [])
          (waiting ∷ []))
      ≡ some r')
    × History queued r'.status
    × (pos 0 ≤ℤ r'.attempt)
unfolding find_row text_eq
apply_all-History_example =
    apply_all-History
      (claims false (pos 6) id_text (pos 1) (pos 5)
        ∷ cancels false (pos 10) id_text (pos 1) (pos 9) (codes "stop")
        ∷ [])
      (waiting ∷ []) id_bytes waiting refl

cancels_it :
    apply_all
      (claims false (pos 6) id_text (pos 1) (pos 5)
        ∷ cancels false (pos 10) id_text (pos 1) (pos 9) (codes "stop")
        ∷ [])
      (waiting ∷ [])
    ≡ cancelled_row ∷ []
unfolding apply_all apply claim_execution update_execution on_row modify affected claim_row
    update_row parse_uuid wrap32 text_eq
cancels_it = refl

terminal_frozen_example :
    find_row id_bytes
      (apply_all (claims false (pos 13) id_text (pos 2) (pos 12) ∷ []) (cancelled_row ∷ []))
    ≡ some cancelled_row
unfolding find_row text_eq
terminal_frozen_example =
    terminal_frozen (claims false (pos 13) id_text (pos 2) (pos 12) ∷ []) (cancelled_row ∷ [])
      id_bytes cancelled_row refl (ground arith)

first_claim :
    claim_execution false (pos 6) id_text (pos 1) (pos 5) (waiting ∷ [])
    ≡ (claimed_row (pos 6) (pos 1) (pos 5) ∷ [], none)
unfolding claim_execution on_row modify affected claim_row parse_uuid wrap32 text_eq
first_claim = refl

second_claim :
    claim_execution false
      (pos 13)
      id_text
      (pos 2)
      (pos 12)
      (apply_all [] (claimed_row (pos 6) (pos 1) (pos 5) ∷ []))
    ≡ (claimed_row (pos 13) (pos 2) (pos 5) ∷ [], none)
unfolding apply_all claim_execution on_row modify affected claim_row parse_uuid wrap32 text_eq
second_claim = refl

claim_once_example :
    claim_execution false
      (pos 13)
      id_text
      (pos 1)
      (pos 12)
      (apply_all [] (claimed_row (pos 6) (pos 1) (pos 5) ∷ []))
    ≡ (apply_all [] (claimed_row (pos 6) (pos 1) (pos 5) ∷ []), some execution_conflict)
unfolding wrap32
claim_once_example =
    claim_once id_text (pos 6) (pos 1) (pos 13) (pos 1) (pos 5) (pos 12) (waiting ∷ [])
      (claimed_row (pos 6) (pos 1) (pos 5) ∷ []) [] first_claim (omega arith)

stale_worker_fenced_example :
    update_execution false
      (pos 21)
      (succeeded_update id_text (pos 1) (pos 5) (pos 20) (pos 3))
      (apply_all [] (claimed_row (pos 13) (pos 2) (pos 5) ∷ []))
    ≡ (apply_all [] (claimed_row (pos 13) (pos 2) (pos 5) ∷ []), some execution_conflict)
stale_worker_fenced_example =
    stale_worker_fenced id_text (pos 6) (pos 1) (pos 13) (pos 2) (pos 5) (pos 12) (waiting ∷ [])
      (claimed_row (pos 6) (pos 1) (pos 5) ∷ []) (claimed_row (pos 13) (pos 2) (pos 5) ∷ []) [] []
      first_claim second_claim (pos 21) (succeeded_update id_text (pos 1) (pos 5) (pos 20) (pos 3))
      refl refl
