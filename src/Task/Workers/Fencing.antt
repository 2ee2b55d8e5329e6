-- ===== src/Task/Workers/Fencing.antt =====
-- Attempt numbers as fences between workers (`ClaimExecution`, `UpdateExecution`).
use backend_infrastructure_g.Base.{
  ℕ, ◌≡◌, sym, ap, ◌∙◌, subst, inl, inr, false, none, some, List, Text, ℤ, ◌≤ℤ◌, ◌<ℤ◌, wrap32,
  arith, Bool-cases, leb_ℤ,
}
use backend_infrastructure_g.Task.Uuid.{parse_uuid}
use backend_infrastructure_g.Task.Model.{running}
use backend_infrastructure_g.Task.Store.{
  Row, Table, execution_conflict, find_row, claim_row, update_row, ExecutionUpdate, on_row,
  claim_execution, update_execution,
}
use backend_infrastructure_g.Task.Store.Rows.{
  on_row-conflict, claim_row-KeepsId, update_row-KeepsId, on_row-ok,
}
use backend_infrastructure_g.Task.Workers.{Op, apply_all}
use backend_infrastructure_g.Task.Workers.Lifecycle.{apply_all-History}

-- What a successful claim leaves.
claimed :
    (id : Text) (at attempt now : ℤ) (t t₁ : Table)
    → claim_execution false at id attempt now t ≡ (t₁, none)
    → (key : List ℕ) × (r : Row) × (parse_uuid id ≡ some key)
      × (find_row key t₁ ≡ some r)
      × (r.status ≡ running)
      × (r.attempt ≡ wrap32 attempt)
unfolding claim_execution claim_row
claimed id at attempt now t t₁ e =
    let g = claim_row at (wrap32 attempt) (some now) in
    let (key, before, r, k, was, hit, there) =
      on_row-ok (parse_uuid id) g (claim_row-KeepsId at (wrap32 attempt) (some now)) t
        (ap (λ x. x.1) e) in
    (key, r, k, ground arith, ground arith, ground arith)

-- Once a worker has claimed an execution with an attempt number, no worker can claim it again with
-- that number or a lower one, whatever statements ran in between: it meets a conflict and the table
-- stays as it is. So the handler runs at most once for each attempt number.
pub claim_once :
    (id : Text) (at attempt at' again now later : ℤ) (t t₁ : Table) (ops : List Op)
    → claim_execution false at id attempt now t ≡ (t₁, none)
    → wrap32 again ≤ℤ wrap32 attempt
    → claim_execution false at' id again later (apply_all ops t₁)
      ≡ (apply_all ops t₁, some execution_conflict)
unfolding claim_execution claim_row
claim_once id at attempt at' again now later t t₁ ops e le =
    let (key, r, k, there, _, a) = claimed id at attempt now t t₁ e in
    let (r', there', _, grown) = apply_all-History ops t₁ key r there in
    rw k (
      on_row-conflict key (claim_row at' (wrap32 again) (some later))
        (claim_row-KeepsId at' (wrap32 again) (some later)) (apply_all ops t₁) r' there'
        (ground arith))

-- The row of an execution that two workers have claimed, the second after the first, has passed the
-- first one's number.
overtaken :
    (id : Text) (at old at' new now later : ℤ) (t t₁ t₂ : Table) (ops more : List Op)
    → claim_execution false at id old now t ≡ (t₁, none)
    → claim_execution false at' id new later (apply_all ops t₁) ≡ (t₂, none)
    → (key : List ℕ) × (r : Row) × (parse_uuid id ≡ some key)
      × (find_row key (apply_all more t₂) ≡ some r)
      × (wrap32 old <ℤ r.attempt)
overtaken id at old at' new now later t t₁ t₂ ops more e e' =
    let (key, r, k, there, _, a) = claimed id at' new later (apply_all ops t₁) t₂ e' in
    let (r', there', _, grown) = apply_all-History more t₂ key r there in
    elim (Bool-cases (leb_ℤ (wrap32 new) (wrap32 old))) [
      | inl le ↦ cc (e', claim_once id at old at' new now later t t₁ ops e (ground arith))
      | inr gt ↦ (key, r', k, there', ground arith)
    ]

-- A worker that was overtaken, because another one has claimed the execution after it, can no longer
-- finish it: its update for success, cancellation or failure meets a conflict and changes nothing.
pub stale_worker_fenced :
    (id : Text) (at old at' new now later : ℤ) (t t₁ t₂ : Table) (ops more : List Op)
    → claim_execution false at id old now t ≡ (t₁, none)
    → claim_execution false at' id new later (apply_all ops t₁) ≡ (t₂, none)
    → (at'' : ℤ) (u : ExecutionUpdate) → u.id ≡ id
    → u.expected_attempt ≡ old
    → update_execution false at'' u (apply_all more t₂)
      ≡ (apply_all more t₂, some execution_conflict)
unfolding update_execution update_row
stale_worker_fenced id at old at' new now later t t₁ t₂ ops more e e' at'' u i a =
    let (key, r, k, there, passed) = overtaken id at old at' new now later t t₁ t₂ ops more e e' in
    subst
      (λ x.
        on_row false x (update_row at'' u) (apply_all more t₂)
        ≡ (apply_all more t₂, some execution_conflict))
      (sym k ∙ ap parse_uuid (sym i))
      (on_row-conflict key (update_row at'' u) (update_row-KeepsId at'' u) (apply_all more t₂) r
        there (ground arith))
