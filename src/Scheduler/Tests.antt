-- ===== src/Scheduler/Tests.antt =====
-- Two schedules, and a scheduler that always answers.
use backend_infrastructure_g.Base.{
  ◌≡◌, refl, true, false, none, some, List, [], ◌∷◌, Text, codes, text_eq, pos, first,
}
use backend_infrastructure_g.Scheduler.Entries.{lookup, erase}
use backend_infrastructure_g.Scheduler.{
  Content, Schedule, Entry, Outside, replace, place_all, place, drop_all, drop_stale, is_desired,
  after,
}
use backend_infrastructure_g.Scheduler.Outcome.{IsDistinct, IsPlaced, collect}
use backend_infrastructure_g.Scheduler.Again.{replace_again}
use backend_infrastructure_g.Scheduler.Progress.{IsUp, replace_up}

abbrev answers : Outside
answers = record {
  ended = λ id. false;
  fingerprint = λ c. some c.cron_expression;
  builds = λ x. true;
  register = λ x. some (codes "new");
  unregister = λ id. true;
}

up : IsUp answers
up = record {
  runs = λ id. refl;
  encodes = λ c. (c.cron_expression, refl);
  builds = λ x. refl;
  registers = λ x. (codes "new", refl);
  unregisters = λ id. refl;
}

abbrev hourly : Content
hourly = record {
  definition_id = codes "d";
  cron_expression = codes "0 * * * *";
  timezone = codes "UTC";
  payload = codes "{}";
  task_type = codes "mail";
  max_retries = pos 3;
  timeout = pos 60;
}

abbrev schedules : List Schedule
schedules =
    record { id = codes "a"; enabled = true; content = hourly }
    ∷ record { id = codes "b"; enabled = false; content = hourly }
    ∷ []

abbrev old : List (Text × Entry)
old =
    (codes "a", record { entry_id = codes "e1"; fingerprint = codes "changed" })
    ∷ (codes "b", record { entry_id = codes "e2"; fingerprint = codes "0 * * * *" })
    ∷ []

distinct : IsDistinct schedules
unfolding text_eq
distinct = ((refl, tt), (tt, tt))

replace_up_example :
    ((replace answers schedules old).1 ≡ none)
    × IsPlaced answers
        (record { id = codes "a"; enabled = true; content = hourly })
        (replace answers schedules old).0.entries
replace_up_example =
    replace_up answers up schedules old
      (record { id = codes "a"; enabled = true; content = hourly }) distinct first refl

replaces : (replace answers schedules old).1 ≡ none
unfolding replace place_all place drop_all drop_stale is_desired after lookup erase text_eq
replaces = refl

replace_again_example : replace answers schedules (replace answers schedules old).0.entries ≡ (
  record {
    entries = (replace answers schedules old).0.entries;
    calls = [];
    desired = collect schedules [];
  },
  none,
)
replace_again_example = replace_again answers (λ id. refl) schedules old distinct replaces

unwanted : is_desired (codes "b") (collect schedules []) ≡ false
unfolding is_desired collect text_eq
unwanted = refl
