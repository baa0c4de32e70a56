-- ===== src/App/Tests.antt =====
-- Requests to the account pages, and the theorems at concrete inputs.
use step_ui_ng.Users.Repo.{Env, authenticate, get_by_id, count_users}
use step_ui_ng.App.State.{AppEnv, Request, App, no_session, note, http_error}
use step_ui_ng.Base.{
  ℕ, List, false, String, some, [], ◌∷◌, arith, ◌≡◌, ◌==◌, if◌then◌else◌, ◌≢◌, none, eq_iff, refl,
  string_eq, take, drop, ◌*◌, ltb, ◌+◌, length, ◌<◌, keep,
}
use step_ui_ng.Users.Table.{Table, by_username, by_id, Row}
use step_ui_ng.Users.Role.{
  valid, superadmin, Role, admin, can_manage_users, at_least, rank, can_manage,
}
use step_ui_ng.App.Server.{Web, serve, Route, posts_user, posts_login, posts_users, routed}
use step_ui_ng.Users.Ceiling.{superadmin_rows}
use step_ui_ng.App.Sessions.{IsOwner, serve-IsOwner}
use step_ui_ng.Base.Text.{trim_space, concat}
use step_ui_ng.Users.Invariant.{IsValid, IsRow}
use step_ui_ng.App.Gate.{load_user, first_run, is_exempt_from_first_run, require_auth, require_role}
use step_ui_ng.App.Privilege.{serve-superadmin_rows, serve-users}
use step_ui_ng.App.Accounts.{post_login, login, post_user}
use step_ui_ng.Audit.Log.{record_event, Log, newest_first}
use step_ui_ng.App.Inventory.{
  inventory_view, page_number, PageView, inventory_page_size, inventory_view_lem,
}
use step_ui_ng.Base.Number.{atoi, wrap_int, two_63}
use step_ui_ng.Base.Prefix.{has_prefix}
use step_ui_ng.App.AuditPage.{
  AuditQuery, audit_page_size, AuditView, get_audit, get_audit_lem, passes,
}

abbrev calm : Env
calm = record {
  fails = λ _. false;
  create_hash = λ p. some (concat ("#" ∷ p ∷ []));
  compare_hash = λ p h. some (concat ("#" ∷ p ∷ []) == h);
  dummy_hash = "#";
  now = 7;
}

abbrev pub world : AppEnv
world = record {
  repo = λ _. calm;
  log_env = record { fails = λ _. false; now = 8 };
  meanwhile = [];
  renew_fails = false;
  destroy_fails = false;
  parse_int = λ s. if s == "1" then some 1 else none;
  split_host = λ _. none;
}

abbrev account : ℕ → String → Role → Row
account id name role = record {
  id = id;
  username = name;
  password_hash = "#correct horse";
  role = role;
  disabled = false;
  created_at = 1;
  updated_at = 1;
}

abbrev pub staff : Table
staff = record { rows = account 1 "root" superadmin ∷ account 2 "anna" admin ∷ []; seq = 2 }

account-IsRow : (id : ℕ) → IsRow (account id "root" superadmin) × IsRow (account id "anna" admin)
unfolding valid trim_space
account-IsRow id = (
  record { known_role = refl; trimmed = refl; not_short = omega arith; not_long = omega arith },
  record { known_role = refl; trimmed = refl; not_short = omega arith; not_long = omega arith },
)

pub staff-IsValid : IsValid staff
unfolding by_username
staff-IsValid = (
  omega arith,
  omega arith,
  refl,
  (account-IsRow 1).0,
  (omega arith, omega arith, refl, (account-IsRow 2).1, tt),
)

-- An admin asks for the deletion of the superadmin.
abbrev pub coup : Request
coup = record {
  path = "/users/1";
  path_id = "1";
  remote_addr = "10.0.0.1";
  username = "anna";
  password = "correct horse";
  password_confirm = "";
  role = "";
  action = "delete";
}

abbrev pub anna_session : App
anna_session = record {
  users = staff;
  log = some (record { events = []; seq = 0 });
  session = record { user_id = 2; flash = ""; error = "" };
}

abbrev web : Web
web = record {
  users = staff;
  log = some (record { events = []; seq = 0 });
  sessions = λ _. anna_session.session;
}

coup_fails : (serve world coup posts_user anna_session).0 ≡ http_error 403 "forbidden"
unfolding serve load_user first_run is_exempt_from_first_run has_prefix routed require_auth
    require_role at_least rank post_user get_by_id by_id can_manage can_manage_users count_users
coup_fails = refl

login_works :
    (serve world
      (record coup { path = "/login" })
      posts_login
      (record anna_session { session = no_session })).1.session.user_id
    ≡ 2
unfolding serve load_user first_run is_exempt_from_first_run routed post_login login authenticate
    by_username trim_space note record_event
login_works = refl

abbrev requests : List (ℕ × AppEnv × Request × Route)
requests = (1, world, coup, posts_user) ∷ (2, world, coup, posts_users) ∷ []

anna_found : (r : Row) → by_id 2 staff.rows ≡ some r → r.disabled ≡ false → r.role ≢ superadmin
unfolding by_id
anna_found r e enabled =
    let stored : some (account 2 "anna" admin) ≡ some r = e in
    let same : account 2 "anna" admin ≡ r = ground (arith, stored) in
    rw (← same) (ground (arith, eq_iff admin superadmin))

superadmin_rows_example :
    superadmin_rows (serve world coup posts_user anna_session).1.users.rows
    ≡ superadmin_rows staff.rows
superadmin_rows_example =
    serve-superadmin_rows world coup posts_user anna_session staff-IsValid refl (ground arith)
      anna_found

nobody_found :
    (r : Row) → by_id 0 staff.rows ≡ some r → r.disabled ≡ false → can_manage_users r.role ≡ false
unfolding by_id
nobody_found r e enabled = absurd (ground arith)

serve-users_example :
    (serve world coup posts_user (record anna_session { session = no_session })).1.users ≡ staff
serve-users_example =
    serve-users world coup posts_user (record anna_session { session = no_session }) (ground arith)
      nobody_found

serve-IsOwner_example :
    IsOwner world coup posts_login staff 2
      (serve world coup posts_login anna_session).1.session.user_id
serve-IsOwner_example = serve-IsOwner world coup posts_login anna_session

-- A page so far behind that the offset wraps around to a negative number.
far_page : inventory_view {A = ℕ} "200000000000000000" (1 ∷ 2 ∷ []) ≡ none
unfolding inventory_view page_number atoi wrap_int
far_page = refl

second_page : page_number "1" ≡ 1
unfolding page_number atoi
second_page = refl

inventory_view_example :
    let n = page_number "1" in
    (v : PageView ℕ) × (inventory_view "1" (1 ∷ 2 ∷ []) ≡ some v)
    × (v.items ≡ take inventory_page_size (drop (n * inventory_page_size) (1 ∷ 2 ∷ [])))
    × (v.has_more ≡ ltb ((n + 1) * inventory_page_size) (length {A = ℕ} (1 ∷ 2 ∷ [])))
inventory_view_example = inventory_view_lem "1" (1 ∷ 2 ∷ []) (omega (arith, second_page))

abbrev pub login_query : AuditQuery
login_query = record { page_text = "1"; action = "login"; who = ""; from = ""; to = "2026-01-01" }

abbrev one_login : Log
one_login = record {
  events =
      record {
        id = 1;
        who = "ann";
        action = "login";
        target = "";
        details = "";
        result = "ok";
        created_at = 5;
      }
      ∷ [];
  seq = 1;
}

page_fits : (page_number login_query.page_text + 1) * audit_page_size < two_63
unfolding page_number atoi
page_fits = omega arith

get_audit_example :
    let n = page_number login_query.page_text in
    let all = keep (passes (λ s. none) login_query) (newest_first one_login.events) in
    (v : AuditView) × (get_audit
        (λ s. none)
        (record { fails = λ s. false; now = 3 })
        login_query
        (some one_login)
      ≡ some v)
    × (v.events ≡ take audit_page_size (drop (n * audit_page_size) all))
    × (v.has_more ≡ ltb ((n + 1) * audit_page_size) (length all))
get_audit_example =
    get_audit_lem (λ s. none) (record { fails = λ s. false; now = 3 }) login_query one_login refl
      page_fits
