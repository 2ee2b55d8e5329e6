-- ===== src/Task/Store/Rows.antt =====
-- What an UPDATE of one row does to every row of the table.
use backend_infrastructure_g.Base.{
  ℕ, ◌≡◌, refl, ◌⊎◌, inl, inr, Bool, true, false, Option, none, some, List, [], ◌∷◌, text_eq,
  text_eq_sound, ◌==◌, arith, if◌then◌else◌, Option-cases, Bool-cases, ℤ,
}
use backend_infrastructure_g.Task.Store.{
  Row, Table, StoreError, execution_conflict, find_row, modify, affected, on_row, claim_row,
  update_row, ExecutionUpdate,
}

-- The row after the statement, if there was one.
abbrev pub updated : (Row → Option Row) → Option Row → Option Row
updated g none = none
updated g (some r) = elim (g r) [ none ↦ some r | some r' ↦ some r' ]

abbrev pub hits : (Row → Option Row) → Option Row → ℕ
hits g none = 0
hits g (some r) = elim (g r) [ none ↦ 0 | some r' ↦ 1 ]

abbrev pub KeepsId : (Row → Option Row) → Type 0
KeepsId g = (r r' : Row) → g r ≡ some r' → r'.id ≡ r.id

pub claim_row-KeepsId :
    (database_now attempt : ℤ) (now : Option ℤ) → KeepsId (claim_row database_now attempt now)
unfolding claim_row
claim_row-KeepsId database_now attempt now r r' e = ground arith

pub update_row-KeepsId :
    (database_now : ℤ) (u : ExecutionUpdate) → KeepsId (update_row database_now u)
unfolding update_row
update_row-KeepsId database_now u r r' e = ground arith

module _ (id : List ℕ) (g : Row → Option Row) where
  modify-hits : (t : Table) → (modify id g t).1 ≡ hits g (find_row id t)
  unfolding modify find_row
  modify-hits [] = refl
  modify-hits (r ∷ t) = ground (arith, modify-hits t)

  find_row-modify_self :
      KeepsId g → (t : Table) → find_row id (modify id g t).0 ≡ updated g (find_row id t)
  unfolding modify find_row
  find_row-modify_self keeps [] = refl
  find_row-modify_self keeps (r ∷ t) = elim (Bool-cases (text_eq r.id id)) [
    | inl hit ↦ elim (Option-cases (g r)) [
      | inl skip ↦ ground arith
      | inr (r', e) ↦ ground (arith, keeps r r' e)
    ]
    | inr miss ↦ ground (arith, find_row-modify_self keeps t)
  ]

  find_row-modify_other :
      KeepsId g
      → (j : List ℕ) (t : Table) → text_eq id j ≡ false
      → find_row j (modify id g t).0 ≡ find_row j t
  unfolding modify find_row
  find_row-modify_other keeps j [] h = refl
  find_row-modify_other keeps j (r ∷ t) h = elim (Bool-cases (text_eq r.id id)) [
    | inl hit ↦ elim (Option-cases (g r)) [
      | inl skip ↦ ground arith
      | inr (r', e) ↦ ground (arith, keeps r r' e, text_eq_sound r.id id hit)
    ]
    | inr miss ↦ ground (arith, find_row-modify_other keeps j t h)
  ]

modify_nothing :
    (id : List ℕ) (g : Row → Option Row) (t : Table) → (modify id g t).1 ≡ 0 → (modify id g t).0 ≡ t
unfolding modify
modify_nothing id g [] h = refl
modify_nothing id g (r ∷ t) h = elim (Bool-cases (text_eq r.id id)) [
  | inl hit ↦ elim (Option-cases (g r)) [ inl skip ↦ ground arith | inr (r', e) ↦ ground arith ]
  | inr miss ↦ ground (arith, modify_nothing id g t)
]

-- A statement on the row itself.
pub on_row_self :
    (id : List ℕ) (g : Row → Option Row)
    → KeepsId g
    → (t : Table)
    → (find_row id (on_row false (some id) g t).0 ≡ updated g (find_row id t))
      × ((on_row false (some id) g t).1
          ≡ (if hits g (find_row id t) == 0 then some execution_conflict else none))
unfolding on_row affected
on_row_self id g keeps t = ground (arith, find_row-modify_self id g keeps t, modify-hits id g t)

-- Every row is as before, or is the one row that the statement names and is what it made of it.
pub on_row-rows :
    (fault : Bool) (key : Option (List ℕ)) (g : Row → Option Row)
    → KeepsId g
    → (t : Table) (j : List ℕ) (r : Row) → find_row j t ≡ some r
    → (find_row j (on_row fault key g t).0 ≡ some r)
      ⊎ ((r' : Row) × (g r ≡ some r') × (find_row j (on_row fault key g t).0 ≡ some r'))
unfolding on_row affected
on_row-rows fault none g keeps t j r e = inl e
on_row-rows true (some id) g keeps t j r e = inl e
on_row-rows false (some id) g keeps t j r e = elim (Bool-cases (text_eq id j)) [
  | inr other ↦ inl (ground (arith, find_row-modify_other id g keeps j t other))
  | inl same ↦
      let here : find_row id t ≡ some r = rw (text_eq_sound id j same) e in
      let self = on_row_self id g keeps t in
      rw (← text_eq_sound id j same) (elim (Option-cases (g r)) [
        | inl skip ↦ inl (ground arith)
        | inr (r', hit) ↦ inr (r', hit, ground arith)
      ])
]

-- The statement succeeds exactly if it finds its row and its condition holds there.
pub on_row-ok :
    (key : Option (List ℕ)) (g : Row → Option Row)
    → KeepsId g
    → (t : Table) → (on_row false key g t).1 ≡ none
    → (id : List ℕ) × (r : Row) × (r' : Row) × (key ≡ some id)
      × (find_row id t ≡ some r)
      × (g r ≡ some r')
      × (find_row id (on_row false key g t).0 ≡ some r')
unfolding on_row affected
on_row-ok none g keeps t e = cc
on_row-ok (some id) g keeps t e = elim (Option-cases (find_row id t)) [
  | inl none_there ↦ ground (arith, on_row_self id g keeps t)
  | inr (r, there) ↦ elim (Option-cases (g r)) [
    | inl skip ↦ ground (arith, on_row_self id g keeps t)
    | inr (r', hit) ↦ (id, r, r', refl, there, hit, ground (arith, on_row_self id g keeps t))
  ]
]

-- A refused statement changes nothing.
pub on_row-error :
    (fault : Bool) (key : Option (List ℕ)) (g : Row → Option Row) (t : Table) {x : StoreError}
    → (on_row fault key g t).1 ≡ some x
    → (on_row fault key g t).0 ≡ t
unfolding on_row affected
on_row-error fault none g t e = refl
on_row-error true (some id) g t e = refl
on_row-error false (some id) g t e = ground (arith, modify_nothing id g t)

-- A statement that the database refuses does not succeed.
pub on_row_fault :
    (key : Option (List ℕ)) (g : Row → Option Row) (t : Table) → ¬ ((on_row true key g t).1 ≡ none)
unfolding on_row
on_row_fault none g t e = cc
on_row_fault (some id) g t e = cc

-- A statement whose condition fails on the row is a conflict and changes nothing.
pub on_row-conflict :
    (id : List ℕ) (g : Row → Option Row)
    → KeepsId g
    → (t : Table) (r : Row) → find_row id t ≡ some r
    → g r ≡ none
    → on_row false (some id) g t ≡ (t, some execution_conflict)
on_row-conflict id g keeps t r there skip =
    ground
      (arith, on_row_self id g keeps t, on_row-error false (some id) g t {x = execution_conflict})
