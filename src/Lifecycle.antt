-- ===== src/Lifecycle.antt =====
-- pkg/lifecycle/lifecycle.go: the stack of closers, and the shutdown of `Run`. A closer and a
-- component are values of any type; a nil interface is `none`. The stack's flag and list are changed
-- under its mutex. errors.Join is a list of the errors.
pub mod Release
mod Tests
use backend_infrastructure_g.Base.{
  ℕ, zero, suc, Bool, true, false, not, ◌&&◌, ◌||◌, Option, none, some, List, [], ◌∷◌, ◌++◌, ℤ, pos,
  leb_ℤ, length, if◌then◌else◌,
}
use mathlib.Core.List.{reverse}

pub record Stack (C : Type 0) : Type 0 where
  pub closers : List C
  pub closed : Bool

abbrev pub new_stack : {C : Type 0} → Stack C
new_stack = record { closers = []; closed = false }

unfoldable pub add : {C : Type 0} → Option C → Stack C → Stack C
add none s = s
add (some c) s = if s.closed then s else record s { closers = s.closers ++ c ∷ [] }

-- What `Close` makes of a stack, and the closers that it calls, in their order.
unfoldable pub close : {C : Type 0} → Stack C → Stack C × List C
close s = if s.closed then (s, []) else (record s { closed = true }, reverse s.closers)

-- The joined errors of the closers.
unfoldable pub close_errors : {C E : Type 0} → (C → Option E) → List C → List E
close_errors run [] = []
close_errors run (c ∷ cs) = elim (run c) [
  | none ↦ close_errors run cs
  | some e ↦ e ∷ close_errors run cs
]

-- What the select of `Run` receives: the parent's end, or a component's result, with whether the
-- run's context had ended by then.
pub data Event (E : Type 0) : Type 0 where
  parent_done : Event E
  component_done : Bool → Option E → Event E

-- How a component's `Shutdown` ends within the bound: a result, or the end of the bound.
pub data Ending (E : Type 0) : Type 0 where
  returned : Option E → Ending E
  timed_out : Ending E

-- What `Run` returns without running anything.
pub data Refusal : Type 0 where
  timeout_not_positive nil_component : Refusal

unfoldable pub any_nil : {C : Type 0} → List (Option C) → Bool
any_nil [] = false
any_nil (none ∷ cs) = true
any_nil (some c ∷ cs) = any_nil cs

unfoldable pub refusal : {C : Type 0} → ℤ → List (Option C) → Option Refusal
unfolding any_nil
refusal timeout components =
    if leb_ℤ timeout (pos 0)
    then some timeout_not_positive
    else (if any_nil components then some nil_component else none)

module _ {E : Type 0} (is_canceled : E → Bool) where
  -- The loop over `remaining`; a cancellation once the context has ended is no error. The events are
  -- those that the select receives; where none is left, the loop would still be waiting.
  unfoldable pub wait_for : ℕ → List (Event E) → Option E
  wait_for zero events = none
  wait_for (suc remaining) [] = none
  wait_for (suc remaining) (parent_done ∷ events) = none
  wait_for (suc remaining) (component_done ctx_ended none ∷ events) = wait_for remaining events
  wait_for (suc remaining) (component_done ctx_ended (some err) ∷ events) =
      let more = wait_for remaining events in
      if is_canceled err && ctx_ended then more else some err

module _ {C E : Type 0} (is_canceled : E → Bool) where
  -- One round, with what the later ones do.
  unfoldable pub after_ending : C → Ending E → List C × List E × Bool → List C × List E × Bool
  after_ending c timed_out later = (c ∷ [], [], true)
  after_ending c (returned none) (called, errors, late) = (c ∷ called, errors, late)
  after_ending c (returned (some err)) (called, errors, late) =
      (c ∷ called, if is_canceled err then errors else err ∷ errors, late)

  -- The components that are shut down, the errors that are joined, and whether the bound ended.
  unfoldable pub shut_down : (C → Ending E) → List C → List C × List E × Bool
  unfolding after_ending
  shut_down ends [] = ([], [], false)
  shut_down ends (c ∷ cs) = after_ending c (ends c) (shut_down ends cs)

  -- The shutdown of all components, the last one first.
  unfoldable pub shut_down_all : (C → Ending E) → List C → List C × List E × Bool
  unfolding shut_down
  shut_down_all ends components = shut_down ends (reverse components)
