-- ===== src/Queue/Dispatch.antt =====
-- What `DispatchPending` (asynq.go) has done when it returns.
use backend_infrastructure_g.Base.{
  ◌≡◌, ◌⊎◌, Bool, true, Option, none, some, List, [], ◌∷◌, ◌++◌, Text,
}
use backend_infrastructure_g.Task.Model.{queued}
use backend_infrastructure_g.Task.Processor.{Message}
use backend_infrastructure_g.Task.Submission.{Db, OutboxRow, PublishOptions, mark_published}
use backend_infrastructure_g.Queue.{
  PendingPublish, DispatchError, not_published, not_marked, Dispatched,
}

-- The outbox with the messages marked.
abbrev pub mark_all : List PendingPublish → List OutboxRow → List OutboxRow
mark_all [] outbox = outbox
mark_all (p ∷ ps) outbox = mark_all ps (mark_published p.options.queue_id outbox)

module _ {Q E : Type 0} (publish : Message → PublishOptions → Q → Q × Option E)
    (mark_fault : Text → Bool) where
  -- The publisher took the messages whose executions are queued, in their order, and no others; its
  -- states before and after.
  pub data Publishes : List PendingPublish → Q → Q → Type 0 where
    nothing : {q : Q} → Publishes [] q q
    passed :
        {p : PendingPublish} {ps : List PendingPublish} {q q' : Q}
        → ¬ (p.execution_status ≡ queued)
        → Publishes ps q q'
        → Publishes (p ∷ ps) q q'
    taken :
        {p : PendingPublish} {ps : List PendingPublish} {q q' q'' : Q}
        → p.execution_status ≡ queued
        → publish p.message p.options q ≡ (q', none)
        → Publishes ps q' q''
        → Publishes (p ∷ ps) q q''

  -- Why the loop stopped at a message: the publisher refused it, or it was dealt with but could not
  -- be marked.
  abbrev pub StoppedAt : PendingPublish → Q → Q → Option (DispatchError E) → Type 0
  StoppedAt p q q' error =
      ((err : E) × (p.execution_status ≡ queued)
        × (publish p.message p.options q ≡ (q', some err))
        × (error ≡ some (not_published p.options.queue_id err)))
      ⊎ ((mark_fault p.options.queue_id ≡ true)
          × Publishes (p ∷ []) q q'
          × (error ≡ some (not_marked p.options.queue_id)))

  -- The messages `done` were published, as far as their executions are queued, and marked; then the
  -- loop ended or stopped at the next message.
  pub record HasDispatched (pending : List PendingPublish) (db : Db) (q : Q) (d : Dispatched Q E)
      : Type 0 where
    pub done : List PendingPublish
    pub rest : List PendingPublish
    pub queue_then : Q
    pub split : pending ≡ done ++ rest
    pub marked : d.db ≡ record db { outbox = mark_all done db.outbox }
    pub published : Publishes done q queue_then
    pub ended :
        ((rest ≡ []) × (d.queue ≡ queue_then) × (d.error ≡ none))
        ⊎ ((p : PendingPublish) × (ps : List PendingPublish) × (rest ≡ p ∷ ps)
            × StoppedAt p queue_then d.queue d.error)
