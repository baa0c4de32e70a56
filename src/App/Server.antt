-- ===== src/App/Server.antt =====
-- internal/app/server.go: the routes of the account handlers with the guards around them.
use step_ui_ng.App.State.{plain_answers, AppEnv, Request, Handler, Session}
use step_ui_ng.Base.{Option, ℕ, List, ◌∷◌, [], if◌then◌else◌, ◌==◌, nat_eq}
use step_ui_ng.Users.Table.{User, Table}
use step_ui_ng.App.Gate.{load_user, first_run, require_auth, require_role}
use step_ui_ng.App.Accounts.{
  get_setup, post_setup, get_login, post_login, post_logout, get_users, post_users, post_user,
}
use step_ui_ng.Users.Role.{admin}
use step_ui_ng.Audit.Log.{Log}

pub data Route : Type 0 where
  gets_setup posts_setup gets_login posts_login posts_logout gets_users posts_users posts_user :
      Route

module _ (w : AppEnv) (req : Request) where
  -- The lines of `NewHandler` that register the account handlers.
  unfoldable pub routed : Route → Option User → Handler
  routed gets_setup u = get_setup w req
  routed posts_setup u = post_setup w req
  routed gets_login u = get_login w req u
  routed posts_login u = post_login w req
  routed posts_logout u = require_auth w req (post_logout w req) u
  routed gets_users u = require_auth w req (require_role w req admin (get_users w req)) u
  routed posts_users u = require_auth w req (require_role w req admin (post_users w req)) u
  routed posts_user u = require_auth w req (require_role w req admin (post_user w req)) u

  -- The inner stack of `NewHandler`: `loadUser` around `firstRun` around the route.
  unfoldable pub serve : Route → Handler
  serve route = load_user w req (λ u. first_run w req (routed route u))

-- The program with the sessions of all clients.
pub record Web : Type 0 where
  pub users : Table
  pub log : Option Log
  pub sessions : ℕ → Session

-- A request of one client: the session store hands out and takes back that client's session only.
unfoldable pub answer : ℕ → AppEnv → Request → Route → Web → Web
answer client w req route web =
    let after =
      (serve w req route
        (record { users = web.users; log = web.log; session = web.sessions client })).1 in
    record {
      users = after.users;
      log = after.log;
      sessions = λ k. if k == client then after.session else web.sessions k;
    }

unfoldable pub answer_all : List (ℕ × AppEnv × Request × Route) → Web → Web
answer_all [] web = web
answer_all ((client, w, req, route) ∷ rs) web = answer_all rs (answer client w req route web)
