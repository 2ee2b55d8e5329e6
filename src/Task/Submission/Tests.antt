-- ===== src/Task/Submission/Tests.antt =====
-- One submission of a mail task.
use backend_infrastructure_g.Base.{
  ℕ, ◌≡◌, refl, true, false, none, some, List, [], ◌∷◌, Text, codes, pos,
}
use backend_infrastructure_g.Task.Submission.{
  Submission, Surroundings, Db, accepted, new_execution, publish_options, outbox_row, new_row,
  insert_execution, create_execution, create_execution_with_pending_publish, nullable_uuid,
  with_pending, after_validation, submit, validate_submission, is_taken, is_used, is_blank,
  has_message, second, NewExecution,
}
use backend_infrastructure_g.Task.Submission.Delivery.{Outcome, submit-Outcome, submit_unpublished}

abbrev mail : Submission
mail = record {
  definition_id = [];
  task_type = codes "mail";
  payload = codes "{}";
  idempotency_key = codes "k";
  max_retries = pos 3;
  timeout = pos second;
  unique_for = pos 0;
  process_after = pos 0;
}

abbrev id : List ℕ
id = 1 ∷ 2 ∷ []

-- A publisher that always returns the error 5.
abbrev broken : Surroundings ℕ
broken = record {
  queue_id = codes "q";
  new_uuid = id;
  create_fault = false;
  update_fault = false;
  created_now = pos 3;
  updated_now = pos 6;
  now = pos 4;
  publisher = some (λ m o. some 5);
}

abbrev text_of : ℕ → Text
text_of c = c ∷ []

abbrev empty : Db
empty = record { executions = []; outbox = []; definitions = [] }

abbrev asked : NewExecution
asked = record {
  definition_id = [];
  task_type = codes "mail";
  queue_id = codes "q";
  idempotency_key = codes "k";
  payload = codes "{}";
}

submit-Outcome_example : Outcome (codes "q") mail empty (submit text_of true broken mail empty)
submit-Outcome_example = submit-Outcome text_of broken mail empty

accepts : (submit text_of true broken mail empty).1 ≡ accepted (new_row (pos 3) id none asked)
unfolding submit after_validation validate_submission create_execution_with_pending_publish
    create_execution nullable_uuid insert_execution is_taken is_used is_blank has_message
    with_pending new_execution publish_options
accepts = refl

submit_unpublished_example :
    (submit text_of true broken mail empty).0.outbox
    ≡ outbox_row id (new_execution (codes "q") mail) (publish_options (codes "q") mail) ∷ []
submit_unpublished_example =
    submit_unpublished text_of broken mail empty (new_row (pos 3) id none asked) accepts (λ e. cc)
