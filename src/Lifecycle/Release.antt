-- ===== src/Lifecycle/Release.antt =====
-- What a stack of closers releases, whatever calls it gets.
use mathlib.Core.List.{reverse}
use backend_infrastructure_g.Base.{
  ◌≡◌, refl, ap, ◌∙◌, Bool, true, false, Option, none, some, List, [], ◌∷◌, ◌++◌, ◌⊎◌, inl, inr,
  if◌then◌else◌, All,
}
use backend_infrastructure_g.Lifecycle.{
  Stack, new_stack, add, close, Ending, returned, timed_out, after_ending, shut_down, shut_down_all,
}

-- A call of a method of the stack.
pub data Call (C : Type 0) : Type 0 where
  adds : Option C → Call C
  closes : Call C

-- The closers that the calls run, one after another.
unfoldable pub released : {C : Type 0} → List (Call C) → Stack C → List C
released [] s = []
released (adds c ∷ calls) s = released calls (add c s)
released (closes ∷ calls) s = let (s', run) = close s in run ++ released calls s'

-- The closers that are registered before the first Close, if there is one.
abbrev pub registered : {C : Type 0} → List C → List (Call C) → Option (List C)
registered cs [] = none
registered cs (adds none ∷ calls) = registered cs calls
registered cs (adds (some c) ∷ calls) = registered (cs ++ c ∷ []) calls
registered cs (closes ∷ calls) = some cs

abbrev pub reversed : {C : Type 0} → Option (List C) → List C
reversed none = []
reversed (some cs) = reverse cs

released_closed :
    {C : Type 0}
    → (calls : List (Call C)) (cs : List C)
    → released calls (record { closers = cs; closed = true }) ≡ []
unfolding released add close
released_closed [] cs = refl
released_closed (adds none ∷ calls) cs = released_closed calls cs
released_closed (adds (some c) ∷ calls) cs = released_closed calls cs
released_closed (closes ∷ calls) cs = released_closed calls cs

append_nil : {C : Type 0} → (xs : List C) → xs ++ [] ≡ xs
append_nil [] = refl
append_nil (x ∷ xs) = ap (◌∷◌ x) (append_nil xs)

released_from :
    {C : Type 0}
    → (calls : List (Call C)) (cs : List C)
    → released calls (record { closers = cs; closed = false }) ≡ reversed (registered cs calls)
unfolding released add close
released_from [] cs = refl
released_from (adds none ∷ calls) cs = released_from calls cs
released_from (adds (some c) ∷ calls) cs = released_from calls (cs ++ c ∷ [])
released_from (closes ∷ calls) cs =
    ap (λ x. reverse cs ++ x) (released_closed calls cs) ∙ append_nil (reverse cs)

-- Whatever calls a new stack gets, it runs the closers that were registered before the first Close,
-- each exactly once and the last one first. A closer that is registered later is never run, and a
-- further Close runs nothing.
pub released_lem :
    {C : Type 0}
    → (calls : List (Call C)) → released calls new_stack ≡ reversed (registered [] calls)
released_lem calls = released_from calls []

module _ {C E : Type 0} (is_canceled : E → Bool) (ends : C → Ending E) where
  -- The errors that components return, in their order, without cancellations.
  abbrev pub failures : List C → List E
  failures [] = []
  failures (c ∷ cs) = elim (ends c) [
    | timed_out ↦ failures cs
    | returned none ↦ failures cs
    | returned (some err) ↦ if is_canceled err then failures cs else err ∷ failures cs
  ]

  -- The components all of which returned within the bound.
  abbrev pub AllReturned : List C → Type 0
  AllReturned cs = All (λ c. (e : Option E) × (ends c ≡ returned e)) cs

  -- Why the components `called` were asked and `rest` were not: nobody is left out and all returned,
  -- or the bound ended while the last one was shutting down and all before it had returned.
  abbrev pub Complete : List C → List C → Bool → Type 0
  Complete called rest late =
      ((late ≡ false) × (rest ≡ []) × AllReturned called)
      ⊎ ((before : List C) × (c : C) × (late ≡ true)
          × (called ≡ before ++ c ∷ [])
          × (ends c ≡ timed_out)
          × AllReturned before)

  -- The components that were asked to shut down come first, in their order, and the errors are those
  -- that they returned, without cancellations.
  pub record IsShutDown (components : List C) (result : List C × List E × Bool) : Type 0 where
    pub rest : List C
    pub order : components ≡ result.0 ++ rest
    pub complete : Complete result.0 rest result.2
    pub errors : result.1 ≡ failures result.0

  -- One component that returned, before those that are complete.
  returned_first :
      (c : C) (o : Option E)
      → ends c ≡ returned o
      → (cs rest : List C) (late : Bool) → Complete cs rest late
      → Complete (c ∷ cs) rest late
  returned_first c o at cs rest late (inl (in_time, all_done, returned_all)) =
      inl (in_time, all_done, ((o, at), returned_all))
  returned_first c o at cs rest late (inr (before, last, ended, split, slow, returned_all)) =
      inr (c ∷ before, last, ended, ap (◌∷◌ c) split, slow, ((o, at), returned_all))

  after_ending-IsShutDown :
      (c : C) (e : Ending E) (cs : List C) (later : List C × List E × Bool)
      → ends c ≡ e
      → IsShutDown cs later
      → IsShutDown (c ∷ cs) (after_ending is_canceled c e later)
  unfolding after_ending
  after_ending-IsShutDown c timed_out cs later at h = record {
    rest = cs;
    order = refl;
    complete = inr ([], c, refl, refl, at, tt);
    errors = rw at refl;
  }
  after_ending-IsShutDown c (returned none) cs (called, errors, late) at h = record {
    rest = h.rest;
    order = ap (◌∷◌ c) h.order;
    complete = returned_first c none at called h.rest late h.complete;
    errors = rw at h.errors;
  }
  after_ending-IsShutDown c (returned (some err)) cs (called, errors, late) at h = record {
    rest = h.rest;
    order = ap (◌∷◌ c) h.order;
    complete = returned_first c (some err) at called h.rest late h.complete;
    errors = rw at (ap (λ x. if is_canceled err then x else err ∷ x) h.errors);
  }

  shut_down-IsShutDown : (cs : List C) → IsShutDown cs (shut_down is_canceled ends cs)
  unfolding shut_down
  shut_down-IsShutDown [] = record {
    rest = [];
    order = refl;
    complete = inl (refl, refl, tt);
    errors = refl;
  }
  shut_down-IsShutDown (c ∷ cs) =
      after_ending-IsShutDown c (ends c) cs (shut_down is_canceled ends cs) refl
        (shut_down-IsShutDown cs)

  -- `Run` asks the components to shut down one after another, the last one first. Either all of them
  -- are asked and all return, whatever they return, or the bound ends while one is shutting down:
  -- then all that were asked before it had returned and no further one is asked. `Run` joins exactly
  -- the errors that they returned and that are no cancellations, in that order.
  pub shut_down_all-IsShutDown :
      (components : List C)
      → IsShutDown (reverse components) (shut_down_all is_canceled ends components)
  unfolding shut_down_all
  shut_down_all-IsShutDown components = shut_down-IsShutDown (reverse components)
