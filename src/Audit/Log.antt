-- ===== src/Audit/Log.antt =====
-- driver/audit/audit.go: the table `audit_events`, `Record`, `RecordDenied` and `List`. The events
-- stand in the order of their ids.
use step_ui_ng.Base.Int.{ℤ, pos, ltb_ℤ, leb_ℤ, pos_part}
use step_ui_ng.Base.{
  ℕ, List, Bool, String, Option, ◌++◌, Result, ◌==◌, if◌then◌else◌, ◌∷◌, ◌+◌, ok, ◌||◌, [], ◌&&◌,
  some, err, not, take, none, string_eq, drop, keep,
}

pub record Event : Type 0 where
  pub id : ℕ
  pub who : String
  pub action : String
  pub target : String
  pub details : String
  pub result : String
  pub created_at : ℕ

pub record Log : Type 0 where
  pub events : List Event
  pub seq : ℕ

pub data LogSite : Type 0 where
  exec_event query_events : LogSite

pub data LogError : Type 0 where
  no_actor : LogError
  driver : LogSite → LogError

-- Which driver calls fail during one call, and the clock.
pub record LogEnv : Type 0 where
  pub fails : LogSite → Bool
  pub now : ℕ

abbrev pub event : LogEnv → String → String → String → String → String → Log → Event
event env who action target details result log = record {
  id = log.seq + 1;
  who = who;
  action = action;
  target = target;
  details = details;
  result = result;
  created_at = env.now;
}

-- `INSERT INTO audit_events`
unfoldable pub insert_event : LogEnv → String → String → String → String → String → Log → Log
insert_event env who action target details result log = record {
  events = log.events ++ event env who action target details result log ∷ [];
  seq = log.seq + 1;
}

-- `Record`; a nil recorder, `none`, drops the event.
unfoldable pub record_event :
    LogEnv
    → String
    → String
    → String
    → String
    → Option Log
    → Result LogError (Unit {0}) × Option Log
record_event env who action target details none = (ok tt, none)
record_event env who action target details (some log) =
    if who == ""
    then (err no_actor, some log)
    else if env.fails exec_event
    then (err (driver exec_event), some log)
    else (ok tt, some (insert_event env who action target details "ok" log))

-- `RecordDenied`
unfoldable pub record_denied :
    LogEnv
    → String
    → String
    → String
    → String
    → Option Log
    → Result LogError (Unit {0}) × Option Log
record_denied env who action target details none = (ok tt, none)
record_denied env who action target details (some log) =
    if env.fails exec_event then (err (driver exec_event), some log) else (
      ok tt,
      some (
          insert_event env (if who == "" then "unknown" else who) action target details "denied"
            log),
    )

pub record Filter : Type 0 where
  pub action : String
  pub who : String
  pub from : ℤ
  pub to : ℤ
  pub limit : ℤ
  pub offset : ℤ

abbrev pub default_limit : ℤ
default_limit = pos 50

-- The conditions that `List` puts into its WHERE clause.
unfoldable pub matches : Filter → Event → Bool
matches f e =
    (f.action == "" || e.action == f.action)
    && (f.who == "" || e.who == f.who)
    && (not (ltb_ℤ (pos 0) f.from) || leb_ℤ f.from (pos e.created_at))
    && (not (ltb_ℤ (pos 0) f.to) || leb_ℤ (pos e.created_at) f.to)

-- `ORDER BY id DESC`
abbrev pub newest_first : List Event → List Event
newest_first [] = []
newest_first (e ∷ es) = newest_first es ++ e ∷ []

-- The limit of the query.
abbrev pub effective_limit : ℤ → ℤ
effective_limit limit = if leb_ℤ limit (pos 0) then default_limit else limit

-- `List`; SQLite reads a negative offset as 0.
unfoldable pub list_events : LogEnv → Filter → Option Log → Result LogError (List Event)
list_events env f none = ok []
list_events env f (some log) =
    if env.fails query_events
    then err (driver query_events)
    else ok (
        take (pos_part (effective_limit f.limit))
          (drop (pos_part f.offset) (keep (matches f) (newest_first log.events))))
