-- ===== src/Task/Submission/Delivery.antt =====
-- What a submission to a store with an outbox leaves in the two tables.
use backend_infrastructure_g.Base.{
  ℕ, ◌≡◌, ◌≢◌, refl, ap, ◌∙◌, subst, ◌⊎◌, inl, inr, Bool, true, false, ◌||◌, Option, none, some,
  List, [], ◌∷◌, ◌++◌, map, Text, ℤ, arith, Bool-cases,
}
use backend_infrastructure_g.Task.Model.{queued}
use backend_infrastructure_g.Task.Store.{Row, nullable_text}
use backend_infrastructure_g.Task.Submission.{
  Submission, Surroundings, Db, OutboxRow, Created, created, refused, Submitted, accepted,
  NewExecution, new_execution, publish_options, outbox_row, new_row, insert_execution,
  create_execution, create_execution_with_pending_publish, nullable_uuid, null, bad, key, Key,
  CreateError, create_failed, duplicate_submission, definition_not_found, bad_definition_id,
  is_taken, is_used, is_blank, has_message, unknown, mark_published, mark_publish_succeeded,
  with_pending, submit, validate_submission, message_of, after_publish, with_outbox, answer,
  after_validation, Invalid,
}

-- A message without its mark.
abbrev pub unmarked : OutboxRow → OutboxRow
unmarked m = record m { published = false }

-- The tables hold the new execution and its message.
pub record IsRecorded (queue_id : Text) (s : Submission) (row : Row) (db db' : Db) : Type 0 where
  pub waits : row.status ≡ queued
  pub executions : db'.executions ≡ db.executions ++ row ∷ []
  pub message :
      map unmarked db'.outbox
      ≡ map unmarked db.outbox
        ++ outbox_row row.id (new_execution queue_id s) (publish_options queue_id s) ∷ []

map-append : (xs ys : List OutboxRow) → map unmarked (xs ++ ys) ≡ map unmarked xs ++ map unmarked ys
map-append [] ys = refl
map-append (x ∷ xs) ys = ap (◌∷◌ (unmarked x)) (map-append xs ys)

-- Marking changes the marks only.
unmarked-mark_published :
    (queue_id : Text) (ms : List OutboxRow)
    → map unmarked (mark_published queue_id ms) ≡ map unmarked ms
unfolding mark_published
unmarked-mark_published queue_id [] = refl
unmarked-mark_published queue_id (m ∷ ms) = ground (arith, unmarked-mark_published queue_id ms)

-- The INSERT is refused, or adds a row that is queued.
abbrev Inserted : ℤ → List ℕ → NewExecution → Db → Db × Created → Type 0
Inserted at id n db r =
    ((e : CreateError) × (r ≡ (db, refused e)))
    ⊎ ((d : Option (List ℕ)) × (r ≡ (
      record db { executions = db.executions ++ new_row at id d n ∷ [] },
      created (new_row at id d n),
    )))

insert_execution-Inserted :
    (fault : Bool) (at : ℤ) (id : List ℕ) (d : Option (List ℕ)) (n : NewExecution) (db : Db)
    → Inserted at id n db (insert_execution fault at id d n db)
unfolding insert_execution
insert_execution-Inserted fault at id d n db = elim (Bool-cases (fault || is_blank n.task_type)) [
  | inl refuses ↦ inl (create_failed, rw (refuses, insert_execution) refl)
  | inr valid ↦
      elim (Bool-cases (
        is_used id db.executions
        || is_taken n.task_type (nullable_text n.idempotency_key) db.executions)) [
          | inl taken ↦ inl (duplicate_submission, rw (valid, taken, insert_execution) refl)
          | inr free ↦ elim (Bool-cases (unknown d db)) [
            | inl missing ↦
                inl (definition_not_found, rw (valid, free, missing, insert_execution) refl)
            | inr known ↦ inr (d, rw (valid, free, known, insert_execution) refl)
          ]
        ]
]

create_execution-Inserted :
    (fault : Bool) (at : ℤ) (id : List ℕ) (n : NewExecution) (db : Db)
    → Inserted at id n db (create_execution fault at id n db)
unfolding create_execution
create_execution-Inserted fault at id n db = with_key (nullable_uuid n.definition_id)
  where
    with_key :
        (k : Key)
        → Inserted at id n db (elim k as (λ _. Db × Created) [
          | bad ↦ (db, refused bad_definition_id)
          | null ↦ insert_execution fault at id none n db
          | key d ↦ insert_execution fault at id (some d) n db
        ])
    with_key bad = inl (bad_definition_id, refl)
    with_key null = insert_execution-Inserted fault at id none n db
    with_key (key d) = insert_execution-Inserted fault at id (some d) n db

-- What `Submit` returns when it does not accept, with the tables as they were; or that it accepted.
abbrev pub Outcome : {E : Type 0} → Text → Submission → Db → Db × Submitted E → Type 0
Outcome queue_id s db r =
    ((r.0 ≡ db) × ((row : Row) → r.1 ≢ accepted row))
    ⊎ ((row : Row) × (r.1 ≡ accepted row) × IsRecorded queue_id s row db r.0)

module _ {E : Type 0} (summary : E → Text) (w : Surroundings E) (s : Submission) where
  -- The tables after both INSERTs.
  abbrev stored : List ℕ → Option (List ℕ) → Db → Db
  stored id d db =
      let n = record (new_execution w.queue_id s) { queue_id = w.queue_id } in
      record db {
        executions = db.executions ++ new_row w.created_now id d n ∷ [];
        outbox =
            db.outbox
            ++ outbox_row id (new_execution w.queue_id s) (publish_options w.queue_id s) ∷ [];
      }

  after_publish-IsRecorded :
      (o : Option (Option E)) (id : List ℕ) (d : Option (List ℕ)) (db : Db)
      → IsRecorded w.queue_id s
          (new_row w.created_now id d
            (record (new_execution w.queue_id s) { queue_id = w.queue_id }))
          db
          (after_publish summary w o (stored id d db))
  unfolding after_publish mark_publish_succeeded outbox_row
  after_publish-IsRecorded none id d db = record {
    waits = refl;
    executions = refl;
    message = map-append db.outbox _;
  }
  after_publish-IsRecorded (some (some err)) id d db = record {
    waits = refl;
    executions = refl;
    message = map-append db.outbox _;
  }
  after_publish-IsRecorded (some none) id d db = elim (Bool-cases w.update_fault) [
    | inl fault ↦
        rw fault record { waits = refl; executions = refl; message = map-append db.outbox _ }
    | inr works ↦ rw works record {
      waits = refl;
      executions = refl;
      message = unmarked-mark_published w.queue_id _ ∙ map-append db.outbox _;
    }
  ]

  -- The execution that `Submit` asks the store for.
  abbrev asked : NewExecution
  asked = record (new_execution w.queue_id s) { queue_id = w.queue_id }

  -- The statement is refused, or adds both rows.
  abbrev Stored : List ℕ → Db → Db × Created → Type 0
  Stored id db r =
      ((x : CreateError) × (r ≡ (db, refused x)))
      ⊎ ((d : Option (List ℕ)) × (r ≡ (stored id d db, created (new_row w.created_now id d asked))))

  with_outbox-Stored :
      (id : List ℕ) (db : Db) (r : Db × Created)
      → Inserted w.created_now id asked db r
      → Stored id db (with_outbox (new_execution w.queue_id s) (publish_options w.queue_id s) db r)
  with_outbox-Stored id db r (inl (x, not_made)) = rw not_made (inl (x, refl))
  with_outbox-Stored id db r (inr (d, made)) =
      rw made (elim (Bool-cases (has_message (publish_options w.queue_id s).queue_id db.outbox)) [
        | inl clash ↦ inl (duplicate_submission, rw clash refl)
        | inr fresh ↦ inr (d, rw fresh refl)
      ])

  pending-Outcome :
      (id : List ℕ) (db : Db) (r : Db × Created)
      → Stored id db r
      → Outcome w.queue_id s db (with_pending summary w s r)
  unfolding with_pending
  pending-Outcome id db r (inl (x, not_made)) = rw not_made (inl (refl, λ row y. cc))
  pending-Outcome id db r (inr (d, made)) =
      rw made (inr (_, refl, after_publish-IsRecorded _ id d db))

  validated-Outcome :
      (db : Db) (o : Option Invalid)
      → Outcome w.queue_id s db (after_validation summary true w s db o)
  unfolding after_validation create_execution_with_pending_publish publish_options
  validated-Outcome db (some reason) = inl (refl, λ row y. cc)
  validated-Outcome db none = pending-Outcome w.new_uuid db _ (
      with_outbox-Stored w.new_uuid db _
        (create_execution-Inserted w.create_fault w.created_now w.new_uuid asked db))

  -- `Submit` to a store with an outbox is all or nothing: it accepts the submission, and then the
  -- execution is in the table as queued together with its message in the outbox, whether or not the
  -- publisher works; or it does not accept it and leaves both tables as they were.
  pub submit-Outcome : (db : Db) → Outcome w.queue_id s db (submit summary true w s db)
  unfolding submit
  submit-Outcome db = validated-Outcome db (validate_submission s)

  after_publish_unpublished :
      (o : Option (Option E)) (db : Db) → o ≢ some none → after_publish summary w o db ≡ db
  unfolding after_publish
  after_publish_unpublished none db h = refl
  after_publish_unpublished (some (some err)) db h = refl
  after_publish_unpublished (some none) db h = absurd (h refl)

  abbrev IsPending : Db → Row → Db → Type 0
  IsPending db row db' =
      db'.outbox
      ≡ db.outbox
        ++ outbox_row row.id (new_execution w.queue_id s) (publish_options w.queue_id s) ∷ []

  abbrev Unpublished : Row → Type 0
  Unpublished row =
      answer summary w.publisher (message_of s row) (publish_options w.queue_id s) ≢ some none

  IsPending-Unpublished :
      (id : List ℕ) (db : Db) (r : Db × Created) (row : Row)
      → Stored id db r
      → Unpublished row
      → (with_pending summary w s r).1 ≡ accepted row
      → IsPending db row (with_pending summary w s r).0
  unfolding with_pending
  IsPending-Unpublished id db r row (inl (x, not_made)) h = rw not_made (λ e. cc)
  IsPending-Unpublished id db r row (inr (d, made)) h = rw made (λ e.
      let same : new_row w.created_now id d asked ≡ row = cc e in
      subst
        (λ x.
          Unpublished x
          → IsPending db x
              (with_pending summary w s
                (stored id d db, created (new_row w.created_now id d asked))).0)
        same (λ h'. ap (λ y. y.outbox) (after_publish_unpublished _ (stored id d db) h')) h)

  validated-Unpublished :
      (db : Db) (row : Row) (o : Option Invalid)
      → Unpublished row
      → (after_validation summary true w s db o).1 ≡ accepted row
      → IsPending db row (after_validation summary true w s db o).0
  unfolding after_validation create_execution_with_pending_publish publish_options
  validated-Unpublished db row (some reason) h e = cc
  validated-Unpublished db row none h e =
      IsPending-Unpublished w.new_uuid db _ row
        (with_outbox-Stored w.new_uuid db _
          (create_execution-Inserted w.create_fault w.created_now w.new_uuid asked db))
        h e

  -- If the publisher is missing or returns an error, the accepted submission's message is at the end
  -- of the outbox, not marked as published, for the dispatcher to find.
  pub submit_unpublished :
      (db : Db) (row : Row)
      → (submit summary true w s db).1 ≡ accepted row
      → answer summary w.publisher (message_of s row) (publish_options w.queue_id s) ≢ some none
      → (submit summary true w s db).0.outbox
        ≡ db.outbox
          ++ outbox_row row.id (new_execution w.queue_id s) (publish_options w.queue_id s) ∷ []
  unfolding submit
  submit_unpublished db row e unpublished =
      validated-Unpublished db row (validate_submission s) unpublished e
