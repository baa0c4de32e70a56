-- ===== src/Audit/Tests.antt =====
-- A log with three events, and the theorems at concrete inputs.
use step_ui_ng.Audit.Log.{
  LogEnv, Log, Event, Filter, event, record_event, record_denied, insert_event,
}
use step_ui_ng.Base.{List, false, [], ◌∷◌, some, ◌≡◌, ◌++◌, ◌+◌, length, All, refl}
use step_ui_ng.Audit.History.{
  run_entries, Entry, run_entry, records, denies, IsNumbered, IsEvent, run_entries-append,
}
use step_ui_ng.Base.Int.{pos}

abbrev calm : LogEnv
calm = record { fails = λ _. false; now = 5 }

abbrev empty : Log
empty = record { events = []; seq = 0 }

abbrev entries : List (LogEnv × Entry)
entries =
    (calm, records "root" "login" "" "")
    ∷ (calm, denies "" "login" "eve" "")
    ∷ (calm, records "" "logout" "" "")
    ∷ (calm, records "root" "logout" "" "")
    ∷ []

abbrev first : Event
first = event calm "root" "login" "" "" "ok" empty

abbrev second : Event
second = event calm "unknown" "login" "eve" "" "denied" (record { events = []; seq = 1 })

abbrev third : Event
third = event calm "root" "logout" "" "" "ok" (record { events = []; seq = 2 })

abbrev filled : Log
filled = record { events = first ∷ second ∷ third ∷ []; seq = 3 }

filled_run : run_entries entries (some empty) ≡ some filled
unfolding run_entries run_entry record_event record_denied insert_event
filled_run = refl

abbrev logins : Filter
logins = record {
  action = "login";
  who = "";
  from = pos 0;
  to = pos 9;
  limit = pos 1;
  offset = pos 0;
}

run_entries-append_example :
    (new : List Event) × (run_entries entries (some empty)
      ≡ some (record { events = empty.events ++ new; seq = empty.seq + length new }))
    × IsNumbered empty.seq new
    × All IsEvent new
run_entries-append_example = run_entries-append entries empty
