-- ===== src/App/Accounts.antt =====
-- internal/app/handlers.go: setup, login, logout and the management of accounts.
use step_ui_ng.Users.Repo.{
  Error, username_taken, last_superadmin, user_disabled, authenticate, list_users, invalid_username,
  invalid_role, count_users, weak_password, user_not_found, create_first, get_by_id, create,
  setup_complete,
}
use step_ui_ng.Users.Safety.{Call, run, sets_role, report, sets_disabled, deletes}
use step_ui_ng.App.State.{
  AppEnv, Request, Handler, Response, App, page, http_error, redirect, note_denied, pass_time,
  put_user, note, users_page, put_users, no_session, put_flash, put_error,
}
use step_ui_ng.Base.{
  String, ℕ, Result, Option, if◌then◌else◌, some, err, none, not, ◌==◌, ok, ltb, ◌&&◌, ◌∷◌,
  string_eq, [], true, false,
}
use step_ui_ng.Users.Table.{Table, User}
use step_ui_ng.Users.Role.{valid, can_assign, can_manage}
use step_ui_ng.Base.Text.{concat}

-- `createErrorMessage`
unfoldable pub create_error_message : Error → String
create_error_message username_taken = "That username is already taken."
create_error_message invalid_username = "Username must be 3–64 characters."
create_error_message weak_password = "Password must be at least 12 characters."
create_error_message invalid_role = "Invalid role."
create_error_message e = "Could not create user."

-- `actionErrorMessage`
unfoldable pub action_error_message : Error → String
action_error_message last_superadmin = "At least one enabled superadmin must remain."
action_error_message invalid_role = "Invalid role."
action_error_message user_not_found = "User not found."
action_error_message e = "Action failed."

-- `loginErrorMessage`
unfoldable pub login_error_message : Error → String
login_error_message user_disabled = "This account is disabled."
login_error_message e = "Invalid username or password."

-- An action of `postUser`: its call of the repository, with the action and details of the event.
pub data Action : Type 0 where
  acts : Call → String → String → Action
  forbidden unknown_action : Action

module _ (w : AppEnv) (req : Request) where
  -- `setupDone`: the response, if it stops the caller.
  unfoldable pub setup_done : Table → Option Response
  setup_done t = elim (count_users (w.repo 2) t) [
    | err _ ↦ some (http_error 500 "internal error")
    | ok n ↦ if ltb 0 n then some (redirect "/login") else none
  ]

  -- `getSetup`
  unfoldable pub get_setup : Handler
  get_setup a = elim (setup_done a.users) [ some r ↦ (r, a) | none ↦ (page 200 "Setup" "", a) ]

  -- `login`: a failure to renew the token is the error.
  unfoldable pub login : ℕ → App → Option App
  login id a = if w.renew_fails then none else some (put_user id a)

  -- What `postSetup` does with the answer of `CreateFirst`.
  unfoldable pub setup_answered : Result Error User → Handler
  setup_answered (err e) a = elim e [
    | setup_complete ↦ (redirect "/login", a)
    | e' ↦ (page 400 "Setup" (create_error_message e'), a)
  ]
  setup_answered (ok u) a = elim (login u.id a) [
    | none ↦ (http_error 500 "internal error", a)
    | some a' ↦ (redirect "/users", a')
  ]

  -- `postSetup`
  unfoldable pub post_setup : Handler
  post_setup a = elim (setup_done a.users) [
    | some r ↦ (r, a)
    | none ↦
        if not (req.password == req.password_confirm)
        then (page 400 "Setup" "Passwords do not match.", a)
        else let a' = pass_time w a in
          let (r, t) = create_first (w.repo 3) req.username req.password a'.users in
          setup_answered r (put_users t a')
  ]

  -- `getLogin`
  unfoldable pub get_login : Option User → Handler
  get_login none a = (page 200 "Log in" "", a)
  get_login (some _) a = (redirect "/inventory", a)

  -- `clientIP`
  unfoldable pub client_ip : String
  client_ip = elim (w.split_host req.remote_addr) [ none ↦ req.remote_addr | some host ↦ host ]

  -- `postLogin`
  unfoldable pub post_login : Handler
  post_login a = elim (authenticate (w.repo 2) req.username req.password a.users).0 [
    | err e ↦ (
      page 401 "Log in" (login_error_message e),
      note_denied w req.username "login" (concat ("from " ∷ client_ip ∷ [])) "" a,
    )
    | ok u ↦ elim (login u.id a) [
      | none ↦ (http_error 500 "internal error", a)
      | some a' ↦ (redirect "/inventory", note w u.username "login" u.username "" a')
    ]
  ]

  -- `postLogout`
  unfoldable pub post_logout : Option User → Handler
  post_logout actor a =
      let a' : App = elim actor [
        | none ↦ a
        | some u ↦ note w u.username "logout" u.username "" a
      ] in
      if w.destroy_fails
      then (http_error 500 "internal error", a')
      else (redirect "/login", record a' { session = no_session })

  -- `getUsers`
  unfoldable pub get_users : User → Handler
  get_users actor a = elim (list_users (w.repo 2) a.users) [
    | err _ ↦ (http_error 500 "internal error", a)
    | ok list ↦ (users_page a.session.flash a.session.error list, put_flash "" (put_error "" a))
  ]

  -- `postUsers`
  unfoldable pub post_users : User → Handler
  post_users actor a =
      if valid req.role && not (can_assign actor.role req.role)
      then (http_error 403 "forbidden", a)
      else if not (req.password == req.password_confirm)
      then (redirect "/users", put_error "Passwords do not match." a)
      else let (r, t) = create (w.repo 2) req.username req.password req.role a.users in
        elim r [
          | err e ↦ (redirect "/users", put_error (create_error_message e) (put_users t a))
          | ok u ↦ (
            redirect "/users",
            note w actor.username "user.create" u.username (concat ("role=" ∷ u.role ∷ []))
                (put_flash "User created." (put_users t a)),
          )
        ]

  -- The `switch` of `postUser`.
  unfoldable pub action_of : User → ℕ → Action
  action_of actor id =
      if req.action == "set_role"
      then if valid req.role && not (can_assign actor.role req.role)
        then forbidden
        else acts (sets_role id req.role) "user.update"
            (concat ("action=set_role role=" ∷ req.role ∷ []))
      else if req.action == "disable"
      then acts (sets_disabled id true) "user.update" "action=disable"
      else if req.action == "enable"
      then acts (sets_disabled id false) "user.update" "action=enable"
      else if req.action == "delete"
      then acts (deletes id) "user.delete" ""
      else unknown_action

  -- What `postUser` does once the target is known and may be managed.
  unfoldable pub act_on : User → User → ℕ → Handler
  act_on actor target id a = elim (action_of actor id) [
    | forbidden ↦ (http_error 403 "forbidden", a)
    | unknown_action ↦ (http_error 400 "unknown action", a)
    | acts c action details ↦
        let a' = pass_time w a in
        let done = put_users (run (w.repo 3) c a'.users) a' in
        elim (report (w.repo 3) c a'.users) [
          | some e ↦ (redirect "/users", put_error (action_error_message e) done)
          | none ↦ (
            redirect "/users",
            note w actor.username action target.username details (put_flash "Done." done),
          )
        ]
  ]

  -- `postUser`
  unfoldable pub post_user : User → Handler
  post_user actor a = elim (w.parse_int req.path_id) [
    | none ↦ (http_error 400 "bad user id", a)
    | some id ↦ elim (get_by_id (w.repo 2) id a.users) [
      | err e ↦ (redirect "/users", put_error (action_error_message e) a)
      | ok target ↦
          if can_manage actor.role target.role
          then act_on actor target id a
          else (http_error 403 "forbidden", a)
    ]
  ]
