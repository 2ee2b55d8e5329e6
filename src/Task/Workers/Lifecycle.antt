-- ===== src/Task/Workers/Lifecycle.antt =====
-- How an execution's status can change, whatever the workers do.
use backend_infrastructure_g.Base.{
  ℕ, ◌≡◌, refl, ◌⊎◌, inl, inr, Bool, true, Option, some, List, [], ◌∷◌, ℤ, ◌≤ℤ◌, wrap32, arith,
}
use backend_infrastructure_g.Task.Uuid.{parse_uuid}
use backend_infrastructure_g.Task.Model.{validate_transition}
use backend_infrastructure_g.Task.Model.Transitions.{
  IsTerminal, History, here, step, IsTerminal-iff,
}
use backend_infrastructure_g.Task.Store.{
  Row, Table, find_row, claim_row, update_row, ExecutionUpdate, on_row, claim_execution,
  update_execution,
}
use backend_infrastructure_g.Task.Store.Rows.{
  KeepsId, claim_row-KeepsId, update_row-KeepsId, on_row-rows,
}
use backend_infrastructure_g.Task.Workers.{
  Op, claims, succeeds, cancels, fails, gives_up, apply, apply_all,
}

-- What one statement may make of a row.
pub record Follows (r r' : Row) : Type 0 where
  pub valid : validate_transition r.status r'.status ≡ true
  pub grows : r.attempt ≤ℤ r'.attempt
  pub same_id : r'.id ≡ r.id

claim_row-Follows :
    (at attempt : ℤ) (now : Option ℤ) (r r' : Row)
    → claim_row at attempt now r ≡ some r'
    → Follows r r'
unfolding claim_row validate_transition
claim_row-Follows at attempt now r r' e = ground arith

update_row-Follows :
    (at : ℤ) (u : ExecutionUpdate)
    → validate_transition u.expected_status u.status ≡ true
    → wrap32 u.attempt ≡ wrap32 u.expected_attempt
    → (r r' : Row) → update_row at u r ≡ some r'
    → Follows r r'
unfolding update_row
update_row-Follows at u v a r r' e = ground arith

-- A row after a statement: as it was, or its follower.
abbrev Later : Row → Option Row → Type 0
Later r o = (o ≡ some r) ⊎ ((r' : Row) × Follows r r' × (o ≡ some r'))

statement :
    (fault : Bool) (key : Option (List ℕ)) (g : Row → Option Row)
    → KeepsId g
    → ((r r' : Row) → g r ≡ some r' → Follows r r')
    → (t : Table) (j : List ℕ) (r : Row) → find_row j t ≡ some r
    → Later r (find_row j (on_row fault key g t).0)
statement fault key g keeps follows t j r e = elim (on_row-rows fault key g keeps t j r e) [
  | inl same ↦ inl same
  | inr (r', hit, e') ↦ inr (r', follows r r' hit, e')
]

update :
    (fault : Bool) (at : ℤ) (u : ExecutionUpdate)
    → validate_transition u.expected_status u.status ≡ true
    → wrap32 u.attempt ≡ wrap32 u.expected_attempt
    → (t : Table) (j : List ℕ) (r : Row) → find_row j t ≡ some r
    → Later r (find_row j (update_execution fault at u t).0)
unfolding update_execution
update fault at u v a =
    statement fault (parse_uuid u.id) (update_row at u) (update_row-KeepsId at u)
      (update_row-Follows at u v a)

apply-Later :
    (op : Op) (t : Table) (j : List ℕ) (r : Row)
    → find_row j t ≡ some r
    → Later r (find_row j (apply op t).0)
unfolding apply claim_execution validate_transition
apply-Later (claims fault at id attempt now) =
    statement fault (parse_uuid id) (claim_row at (wrap32 attempt) (some now))
      (claim_row-KeepsId at (wrap32 attempt) (some now))
      (claim_row-Follows at (wrap32 attempt) (some now))
apply-Later (succeeds fault at id attempt started finished rows) = update fault at _ refl refl
apply-Later (cancels fault at id attempt finished summary) = update fault at _ refl refl
apply-Later (fails fault at id attempt finished summary) = update fault at _ refl refl
apply-Later (gives_up fault at inserted id definition n finished summary) =
    update fault at _ refl refl

-- Whatever statements the workers run, in any order and with any of them refused: an execution that
-- is in the table stays there, its status moves only along transitions that `ValidateTransition`
-- accepts, and its attempt number never falls.
pub apply_all-History :
    (ops : List Op) (t : Table) (j : List ℕ) (r : Row)
    → find_row j t ≡ some r
    → (r' : Row) × (find_row j (apply_all ops t) ≡ some r')
      × History r.status r'.status
      × (r.attempt ≤ℤ r'.attempt)
unfolding apply_all
apply_all-History [] t j r e = (r, e, here, omega arith)
apply_all-History (op ∷ ops) t j r e = elim (apply-Later op t j r e) [
  | inl same ↦ apply_all-History ops (apply op t).0 j r same
  | inr (r₁, f, e₁) ↦
      let (r', e', h, l) = apply_all-History ops (apply op t).0 j r₁ e₁ in
      (r', e', step f.valid h, omega arith)
]

-- An execution that has succeeded, failed or been cancelled never changes again, in any column.
pub terminal_frozen :
    (ops : List Op) (t : Table) (j : List ℕ) (r : Row)
    → find_row j t ≡ some r
    → IsTerminal r.status
    → find_row j (apply_all ops t) ≡ some r
unfolding apply_all
terminal_frozen [] t j r e h = e
terminal_frozen (op ∷ ops) t j r e h = elim (apply-Later op t j r e) [
  | inl same ↦ terminal_frozen ops (apply op t).0 j r same h
  | inr (r₁, f, e₁) ↦ cc (f.valid, (IsTerminal-iff r.status).0 h r₁.status)
]
