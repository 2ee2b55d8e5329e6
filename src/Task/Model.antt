-- ===== src/Task/Model.antt =====
-- pkg/modules/task/model.go. A Status is one of the five that the source and the database's CHECK
-- constraint name.
pub mod Transitions
mod Tests
use backend_infrastructure_g.Base.{
  ℕ, Bool, true, false, ◌&&◌, Option, none, some, List, [], ◌∷◌, Text, codes, text_eq, ℤ,
  if◌then◌else◌,
}

pub data Status : Type 0 where
  queued running succeeded failed cancelled : Status

-- The strings that the constants stand for.
abbrev pub status_text : Status → Text
status_text queued = codes "queued"
status_text running = codes "running"
status_text succeeded = codes "succeeded"
status_text failed = codes "failed"
status_text cancelled = codes "cancelled"

abbrev pub same_status : Status → Status → Bool
same_status queued queued = true
same_status running running = true
same_status succeeded succeeded = true
same_status failed failed = true
same_status cancelled cancelled = true
same_status _ _ = false

-- The table `allowed[from][to]`.
allowed : Status → Status → Bool
allowed queued running = true
allowed queued failed = true
allowed queued cancelled = true
allowed running succeeded = true
allowed running failed = true
allowed running cancelled = true
allowed _ _ = false

-- True where `ValidateTransition` returns nil, false where it returns ErrInvalidTransition.
unfoldable pub validate_transition : Status → Status → Bool
unfolding allowed
validate_transition from to =
    if same_status from to && same_status from running then true else allowed from to

-- `slices.Contains` over the five constants, and the conversion of the text.
find_status : Text → List Status → Option Status
find_status value [] = none
find_status value (s ∷ rest) =
    let later = find_status value rest in if text_eq value (status_text s) then some s else later

unfoldable pub parse_status : Text → Option Status
unfolding find_status
parse_status value = find_status value (queued ∷ running ∷ succeeded ∷ failed ∷ cancelled ∷ [])
