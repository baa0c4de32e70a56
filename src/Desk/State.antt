-- ===== src/Desk/State.antt =====
-- What the handlers of internal/app/provisioners.go work on: the stored settings, the calls to the
-- CA, the audit log and the session of the client.
use step_ui_ng.Ca.Net.{CaWorld, Call}
use step_ui_ng.Settings.Store.{SettingsTable, SettingsEnv}
use step_ui_ng.Base.{String, Option, Result, List, ℕ, some, err, ok, none}
use step_ui_ng.App.State.{Response, redirect, Session}
use step_ui_ng.Audit.Log.{record_event, Log, LogEnv}
use step_ui_ng.Ca.Fingerprint.{CaError}

pub record Desk : Type 0 where
  pub settings : SettingsTable
  pub calls : List Call
  pub log : Option Log
  pub session : Session

-- What one request meets: the calls of the settings' repository, the CA with the number of pages that
-- are read of a list, the recorder, the key and the request that a minted credential starts from, and
-- the hint for a provisioner that was refused.
pub record DeskEnv : Type 0 where
  pub settings_env : SettingsEnv
  pub ca : CaWorld
  pub fuel : ℕ
  pub log_env : LogEnv
  pub ephemeral : Option (String × String)
  pub hint : String

-- The form and the path of a request, and the user who sends it.
pub record Form : Type 0 where
  pub actor : String
  pub path_name : String
  pub action : String
  pub name : String
  pub kind : String
  pub secret : String

-- An answer, unless the CA keeps the request busy for ever, and the state after it.
abbrev pub Answer : Type 0
Answer = Option Response × Desk

abbrev pub refuse : String → Desk → Answer
refuse text d = (
  some (redirect "/provisioners"),
  record d {
    session = record { user_id = d.session.user_id; flash = d.session.flash; error = text };
  },
)

abbrev pub confirm : String → Desk → Answer
confirm text d = (
  some (redirect "/provisioners"),
  record d {
    session = record { user_id = d.session.user_id; flash = text; error = d.session.error };
  },
)

-- `s.audit.Record` with its error dropped.
abbrev pub noted : DeskEnv → String → String → String → String → Desk → Desk
noted w who action target details d = record d {
  log = (record_event w.log_env who action target details d.log).1;
}

-- A call of internal/ca, and what is done with its result; `none` says that it has not ended.
abbrev pub settled {ℓ} :
    {A : Type ℓ} {R : Type 0}
    → Desk
    → Result CaError (Option A) × List Call
    → (CaError → Desk → Option R × Desk)
    → (A → Desk → Option R × Desk)
    → Option R × Desk
settled d (err e, l) fail next = fail e (record d { calls = l })
settled d (ok none, l) fail next = (none, record d { calls = l })
settled d (ok (some a), l) fail next = next a (record d { calls = l })

-- `s.sessions.Put` with a message of an error, or of success.
abbrev pub put_error_text : String → Desk → Desk
put_error_text text d = record d {
  session = record { user_id = d.session.user_id; flash = d.session.flash; error = text };
}

abbrev pub put_flash_text : String → Desk → Desk
put_flash_text text d = record d {
  session = record { user_id = d.session.user_id; flash = text; error = d.session.error };
}

-- The two `s.sessions.PopString` of a page.
abbrev pub pop_texts : Desk → Desk
pop_texts d = record d { session = record { user_id = d.session.user_id; flash = ""; error = "" } }
