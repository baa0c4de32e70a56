-- ===== src/Audit/History.antt =====
-- What a sequence of events does to the log.
use step_ui_ng.Base.{
  String, List, ℕ, Option, ◌≢◌, ◌∷◌, ◌≡◌, some, [], ◌⊎◌, ◌+◌, ◌++◌, Bool-cases, length, ◌==◌, All,
  inl, inr, ◌∙◌, arith, eq_iff, string_eq, sym, refl, if◌then◌else◌,
}
use mathlib.Core.List.{append-nil, append_assoc}
use step_ui_ng.Audit.Log.{
  LogEnv, Event, record_event, Log, record_denied, insert_event, exec_event, event,
}

pub data Entry : Type 0 where
  records : String → String → String → String → Entry
  denies : String → String → String → String → Entry

unfoldable pub run_entry : LogEnv → Entry → Option Log → Option Log
run_entry env (records who action target details) log =
    (record_event env who action target details log).1
run_entry env (denies who action target details) log =
    (record_denied env who action target details log).1

unfoldable pub run_entries : List (LogEnv × Entry) → Option Log → Option Log
run_entries [] log = log
run_entries ((env, e) ∷ es) log = run_entries es (run_entry env e log)

-- An event has an actor, and says whether what it is about was done or denied.
pub record IsEvent (e : Event) : Type 0 where
  pub attributed : e.who ≢ ""
  pub outcome : (e.result ≡ "ok") ⊎ (e.result ≡ "denied")

-- The ids count up from the one after `lo`.
abbrev pub IsNumbered : ℕ → List Event → Type 0
IsNumbered lo [] = Unit
IsNumbered lo (e ∷ es) = (e.id ≡ lo + 1) × IsNumbered (lo + 1) es

run_entry_appends :
    (env : LogEnv) (x : Entry) (log : Log)
    → (run_entry env x (some log) ≡ some log)
      ⊎ ((e : Event) × (run_entry env x (some log)
            ≡ some (record { events = log.events ++ e ∷ []; seq = log.seq + 1 }))
          × (e.id ≡ log.seq + 1)
          × IsEvent e)
unfolding run_entry record_event record_denied insert_event
run_entry_appends env (records who action target details) log = elim (Bool-cases (who == "")) [
  | inl blank ↦ inl (ground arith)
  | inr named ↦ elim (Bool-cases (env.fails exec_event)) [
    | inl down ↦ inl (ground arith)
    | inr up ↦ inr (
      event env who action target details "ok" log,
      ground arith,
      refl,
      record { attributed = ground (arith, eq_iff who ""); outcome = inl refl },
    )
  ]
]
run_entry_appends env (denies who action target details) log =
    elim (Bool-cases (env.fails exec_event)) [
      | inl down ↦ inl (ground arith)
      | inr up ↦ inr (
        event env (if who == "" then "unknown" else who) action target details "denied" log,
        ground arith,
        refl,
        record {
          attributed = ground (arith, eq_iff who "", eq_iff "unknown" "");
          outcome = inr refl;
        },
      )
    ]

log_path :
    {es es' : List Event} {n n' : ℕ}
    → es ≡ es'
    → n ≡ n'
    → ◌≡◌ {A = Option Log}
        (some (record { events = es; seq = n }))
        (some (record { events = es'; seq = n' }))
log_path p q = λ i. some (record { events = p i; seq = q i })

-- Whatever events are recorded, with whatever failures of the driver: the events that were there
-- stay, unchanged and in front, and the new ones behind them are numbered from the next id on, are
-- attributed to somebody, and are "ok" or "denied".
pub run_entries-append :
    (es : List (LogEnv × Entry)) (log : Log)
    → (new : List Event) × (run_entries es (some log)
        ≡ some (record { events = log.events ++ new; seq = log.seq + length new }))
      × IsNumbered log.seq new
      × All IsEvent new
unfolding run_entries
run_entries-append [] log = ([], log_path (sym (append-nil log.events)) (omega arith), tt, tt)
run_entries-append ((env, x) ∷ es) log = elim (run_entry_appends env x log) [
  | inl same ↦
      let (new, whole, numbered, good) = run_entries-append es log in
      (new, rw same whole, numbered, good)
  | inr (e, added, id, ok_event) ↦
      let (new, whole, numbered, good) =
        run_entries-append es (record { events = log.events ++ e ∷ []; seq = log.seq + 1 }) in
      (
        e ∷ new,
        rw added (whole ∙ log_path (append_assoc log.events (e ∷ []) new) (omega arith)),
        (id, numbered),
        (ok_event, good),
      )
]
