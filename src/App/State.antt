-- ===== src/App/State.antt =====
-- What the handlers of internal/app work on: the accounts, the audit log and the session of the
-- client that sends the request. A session value that is missing reads as 0 or as the empty text.
use step_ui_ng.Base.{ℕ, String, Option, List, Bool}
use step_ui_ng.Users.Table.{Table, User}
use step_ui_ng.Users.Safety.{run_all, Call}
use step_ui_ng.Users.Repo.{Env}
use step_ui_ng.Audit.Log.{record_event, record_denied, Log, LogEnv}

pub record Session : Type 0 where
  pub user_id : ℕ
  pub flash : String
  pub error : String

pub record App : Type 0 where
  pub users : Table
  pub log : Option Log
  pub session : Session

-- The parts of a request that the account handlers read; `path_id` is the path value "id".
pub record Request : Type 0 where
  pub path : String
  pub path_id : String
  pub remote_addr : String
  pub username : String
  pub password : String
  pub password_confirm : String
  pub role : String
  pub action : String

-- A redirect, `http.Error` with its text, a page by its title, with its message of an error, or the
-- page that lists the users, with both messages.
pub data Response : Type 0 where
  redirect : String → Response
  http_error : ℕ → String → Response
  page : ℕ → String → String → Response
  users_page : String → String → List User → Response

-- What one request meets: what each call of the repository and of the recorder meets, which calls of
-- the session store fail, and `strconv.ParseInt` and `net.SplitHostPort`. Between two calls of the
-- repository other requests may run: `meanwhile` is what they call.
pub record AppEnv : Type 0 where
  pub repo : ℕ → Env
  pub log_env : LogEnv
  pub meanwhile : List (Env × Call)
  pub renew_fails : Bool
  pub destroy_fails : Bool
  pub parse_int : String → Option ℕ
  pub split_host : String → Option String

-- An answer that is a redirect or an error can stand for any kind of answer.
pub record Answers (R : Type 0) : Type 0 where
  pub of_response : Response → R

instance abbrev pub plain_answers : Answers Response
plain_answers = record { of_response = λ r. r }

-- A handler with answers of a kind.
abbrev pub Serves : Type 0 → Type 0
Serves R = App → R × App

abbrev pub Handler : Type 0
Handler = Serves Response

abbrev pub no_session : Session
no_session = record { user_id = 0; flash = ""; error = "" }

abbrev pub put_error : String → App → App
put_error text a = record a {
  session = record { user_id = a.session.user_id; flash = a.session.flash; error = text };
}

abbrev pub put_flash : String → App → App
put_flash text a = record a {
  session = record { user_id = a.session.user_id; flash = text; error = a.session.error };
}

abbrev pub put_user : ℕ → App → App
put_user id a = record a {
  session = record { user_id = id; flash = a.session.flash; error = a.session.error };
}

abbrev pub put_users : Table → App → App
put_users t a = record a { users = t }

-- `s.audit.Record` with its error dropped.
unfoldable pub note : AppEnv → String → String → String → String → App → App
note w who action target details a = record a {
  log = (record_event w.log_env who action target details a.log).1;
}

-- `s.audit.RecordDenied` with its error dropped.
unfoldable pub note_denied : AppEnv → String → String → String → String → App → App
note_denied w who action target details a = record a {
  log = (record_denied w.log_env who action target details a.log).1;
}

-- What other requests do to the accounts between two calls of this one.
unfoldable pub pass_time : AppEnv → App → App
pass_time w a = record a { users = run_all w.meanwhile a.users }
