-- ===== src/Scheduler.antt =====
-- pkg/platform/scheduler/asynq.go: AsynqRegistrar, whose Replace brings the periodic entries in line
-- with the schedules. The registrar holds its mutex throughout. asynq's scheduler, the factory of
-- tasks, the context, and the JSON text with its SHA-256 are parameters. Go visits a map in any order:
-- here it is the order of the list.
pub mod Entries
pub mod Replace
pub mod Outcome
pub mod Again
pub mod Progress
mod Tests
use backend_infrastructure_g.Base.{
  ℕ, Bool, true, false, not, Option, none, some, List, [], ◌∷◌, ◌++◌, ◌||◌, Text, codes, text_eq, ℤ,
  if◌then◌else◌,
}
use backend_infrastructure_g.Scheduler.Entries.{lookup, insert, erase}

-- What the fingerprint is made of.
pub record Content : Type 0 where
  pub definition_id : Text
  pub cron_expression : Text
  pub timezone : Text
  pub payload : Text
  pub task_type : Text
  pub max_retries : ℤ
  pub timeout : ℤ

pub record Schedule : Type 0 where
  pub id : Text
  pub enabled : Bool
  pub content : Content

pub record Entry : Type 0 where
  pub entry_id : Text
  pub fingerprint : Text

-- What Replace asks of asynq's scheduler.
pub data Call : Type 0 where
  registers : Text → Text → Call
  unregisters : Text → Call

pub data ReplaceError : Type 0 where
  context_ended not_encoded not_built not_registered not_unregistered : ReplaceError

pub record State : Type 0 where
  pub entries : List (Text × Entry)
  pub calls : List Call
  pub desired : List Text

-- The world outside: whether the context has ended when a schedule's turn comes, the fingerprint, the
-- factory, and the answers of asynq's scheduler.
pub record Outside : Type 0 where
  pub ended : Text → Bool
  pub fingerprint : Content → Option Text
  pub builds : Schedule → Bool
  pub register : Schedule → Option Text
  pub unregister : Text → Bool

unfoldable pub schedule_spec : Content → Text
schedule_spec c = elim (c.timezone) [
  | [] ↦ c.cron_expression
  | z ∷ zone ↦ codes "CRON_TZ=" ++ (z ∷ zone) ++ codes " " ++ c.cron_expression
]

-- Nothing done yet.
abbrev pub start : List (Text × Entry) → State
start entries = record { entries = entries; calls = []; desired = [] }

unfoldable pub is_desired : Text → List Text → Bool
is_desired id [] = false
is_desired id (x ∷ xs) = text_eq x id || is_desired id xs

abbrev pub Step : Type 0
Step = State × Option ReplaceError

-- The rest of a loop, unless it has returned.
unfoldable pub after : Step → (State → Step) → Step
after (s, none) f = f s
after (s, some e) f = (s, some e)

log : Call → State → State
log c s = record s { calls = s.calls ++ c ∷ [] }

abbrev keep : Text → Text → Text → State → State
keep id entry_id fingerprint s = record s {
  entries = insert id record { entry_id = entry_id; fingerprint = fingerprint } s.entries;
}

module _ (o : Outside) where
  -- The new entry is there; the old one, if any, goes.
  swap : Schedule → Text → Text → Option Entry → State → Step
  unfolding log
  swap x fp new none s = (keep x.id new fp s, none)
  swap x fp new (some e) s =
      if o.unregister e.entry_id
      then (keep x.id new fp (log (unregisters e.entry_id) s), none)
      else (log (unregisters new) (log (unregisters e.entry_id) s), some not_unregistered)

  registered : Schedule → Text → Option Entry → Option Text → State → Step
  unfolding swap schedule_spec
  registered x fp current none s = (s, some not_registered)
  registered x fp current (some new) s =
      swap x fp new current (log (registers (schedule_spec x.content) new) s)

  renew : Schedule → Text → Option Entry → State → Step
  unfolding registered
  renew x fp current s =
      if o.builds x then registered x fp current (o.register x) s else (s, some not_built)

  compare_entry : Schedule → Text → Option Entry → State → Step
  unfolding renew
  compare_entry x fp none s = renew x fp none s
  compare_entry x fp (some e) s =
      if text_eq e.fingerprint fp then (s, none) else renew x fp (some e) s

  fingerprinted : Schedule → Option Text → State → Step
  unfolding compare_entry
  fingerprinted x none s = (s, some not_encoded)
  fingerprinted x (some fp) s = compare_entry x fp (lookup x.id s.entries) s

  unless_ended : Bool → Schedule → State → Step
  unfolding fingerprinted
  unless_ended true x s = (s, some context_ended)
  unless_ended false x s =
      fingerprinted x (o.fingerprint x.content) (record s { desired = x.id ∷ s.desired })

  if_enabled : Bool → Schedule → State → Step
  unfolding unless_ended
  if_enabled false x s = (s, none)
  if_enabled true x s = unless_ended (o.ended x.id) x s

  -- One turn of the first loop.
  unfoldable pub place : Schedule → State → Step
  unfolding if_enabled
  place x s = if_enabled x.enabled x s

  unfoldable pub place_all : List Schedule → State → Step
  unfolding after
  place_all [] s = (s, none)
  place_all (x ∷ xs) s = after (place x s) (place_all xs)

  -- One turn of the second loop.
  unfoldable pub drop_stale : Text → Entry → State → Step
  unfolding log
  drop_stale id e s =
      if is_desired id s.desired
      then (s, none)
      else (if o.ended id
          then (s, some context_ended)
          else (if o.unregister e.entry_id
              then (record (log (unregisters e.entry_id) s) { entries = erase id s.entries }, none)
              else (log (unregisters e.entry_id) s, some not_unregistered)))

  unfoldable pub drop_all : List (Text × Entry) → State → Step
  unfolding after
  drop_all [] s = (s, none)
  drop_all ((id, e) ∷ es) s = after (drop_stale id e s) (drop_all es)

  -- `Replace`; the errors of the scheduler end it.
  unfoldable pub replace : List Schedule → List (Text × Entry) → Step
  unfolding after
  replace xs entries = after (place_all xs (start entries)) (λ s. drop_all s.entries s)
