-- ===== src/App/Sessions.antt =====
-- Whom a session names.
use step_ui_ng.App.State.{
  plain_answers, AppEnv, Request, note, note_denied, pass_time, App, put_user,
}
use step_ui_ng.App.Server.{
  Route, posts_login, posts_setup, routed, serve, posts_logout, gets_setup, gets_users, posts_users,
  gets_login, posts_user,
}
use step_ui_ng.App.Accounts.{
  post_login, post_setup, login, setup_answered, setup_done, act_on, post_user, post_users,
  post_logout, get_users, get_setup, get_login, action_of,
}
use step_ui_ng.Users.Table.{Table, User}
use step_ui_ng.Base.{
  ℕ, ◌≡◌, Result-cases, Option-cases, ok, inl, arith, inr, Bool-cases, ◌==◌, refl, string_eq,
  Option, ◌⊎◌, none, some,
}
use step_ui_ng.Users.Repo.{authenticate, create_first, get_by_id}
use step_ui_ng.Users.Safety.{run_all, report}
use step_ui_ng.App.Gate.{require_auth}
use step_ui_ng.App.Reach.{serve_holds, guarded_holds}
use step_ui_ng.Users.Role.{can_manage}
use step_ui_ng.App.Runs.{Action-cases}

module _ (w : AppEnv) (req : Request) where
  -- Where the user of a session can come from.
  pub data IsOwner (route : Route) (users : Table) (before after : ℕ) : Type 0 where
    kept : after ≡ before → IsOwner route users before after
    dropped : after ≡ 0 → IsOwner route users before after
    logged_in :
        route ≡ posts_login
        → (u : User) → (authenticate (w.repo 2) req.username req.password users).0 ≡ ok u
        → after ≡ u.id
        → IsOwner route users before after
    set_up :
        route ≡ posts_setup
        → (u : User)
        → (create_first (w.repo 3) req.username req.password (run_all w.meanwhile users)).0 ≡ ok u
        → after ≡ u.id
        → IsOwner route users before after

  post_login-IsOwner :
      (a : App)
      → IsOwner posts_login a.users a.session.user_id (post_login w req a).1.session.user_id
  unfolding post_login login note note_denied
  post_login-IsOwner a =
      elim (Result-cases (authenticate (w.repo 2) req.username req.password a.users).0) [
        | inl (e, x) ↦ kept (ground arith)
        | inr (u, x) ↦ elim (Bool-cases w.renew_fails) [
          | inl f ↦ kept (ground arith)
          | inr f ↦ logged_in refl u x (ground arith)
        ]
      ]

  post_setup-IsOwner :
      (a : App)
      → IsOwner posts_setup a.users a.session.user_id (post_setup w req a).1.session.user_id
  unfolding post_setup login setup_answered pass_time
  post_setup-IsOwner a = elim (Option-cases (setup_done w req a.users)) [
    | inr (r, e) ↦ kept (rw (e, post_setup))
    | inl e ↦ elim (Bool-cases (req.password == req.password_confirm)) [
      | inr f ↦ kept (rw (e, f, post_setup))
      | inl f ↦
          let made =
            create_first (w.repo 3) req.username req.password (run_all w.meanwhile a.users) in
          elim (Result-cases made.0) [
            | inl (x, g) ↦ kept (ground (arith, e, f, g))
            | inr (u, g) ↦ elim (Bool-cases w.renew_fails) [
              | inl h ↦ kept (ground (arith, e, f, g, h))
              | inr h ↦ set_up refl u g (ground (arith, e, f, g, h))
            ]
          ]
    ]
  ]

  act_on-user_id :
      (actor target : User) (id : ℕ) (a : App)
      → (act_on w req actor target id a).1.session.user_id ≡ a.session.user_id
  unfolding act_on note pass_time
  act_on-user_id actor target id a = elim (Action-cases (action_of w req actor id)) [
    | inl (inl e) ↦ rw (e, act_on)
    | inl (inr e) ↦ rw (e, act_on)
    | inr (c, action, details, e) ↦
        elim (Option-cases (report (w.repo 3) c (run_all w.meanwhile a.users))) [
          | inl f ↦ rw (e, f, act_on)
          | inr (x, f) ↦ rw (e, f, act_on)
        ]
  ]

  post_user-user_id :
      (actor : User) (a : App) → (post_user w req actor a).1.session.user_id ≡ a.session.user_id
  unfolding post_user
  post_user-user_id actor a = elim (Option-cases (w.parse_int req.path_id)) [
    | inl e ↦ rw (e, post_user)
    | inr (id, e) ↦ elim (Result-cases (get_by_id (w.repo 2) id a.users)) [
      | inl (x, f) ↦ rw (e, f, post_user)
      | inr (target, f) ↦ elim (Bool-cases (can_manage actor.role target.role)) [
        | inr g ↦ rw (e, f, g, post_user)
        | inl g ↦ rw (e, f, g, post_user) (act_on-user_id actor target id a)
      ]
    ]
  ]

  post_users-user_id :
      (actor : User) (a : App) → (post_users w req actor a).1.session.user_id ≡ a.session.user_id
  unfolding post_users note
  post_users-user_id actor a = ground arith

  post_logout-user_id :
      (u : Option User) (a : App)
      → ((post_logout w req u a).1.session.user_id ≡ a.session.user_id)
        ⊎ ((post_logout w req u a).1.session.user_id ≡ 0)
  unfolding post_logout note
  post_logout-user_id none a = ground arith
  post_logout-user_id (some u) a = ground arith

  logout_route-IsOwner :
      (u : Option User) (a : App)
      → IsOwner posts_logout a.users a.session.user_id
          (require_auth w req (post_logout w req) u a).1.session.user_id
  unfolding require_auth
  logout_route-IsOwner none a = kept refl
  logout_route-IsOwner (some u) a = elim (post_logout-user_id (some u) a) [
    | inl e ↦ kept e
    | inr e ↦ dropped e
  ]

  get_users-user_id :
      (actor : User) (a : App) → (get_users w req actor a).1.session.user_id ≡ a.session.user_id
  unfolding get_users
  get_users-user_id actor a = ground arith

  routed-IsOwner :
      (route : Route) (u : Option User) (a : App)
      → IsOwner route a.users a.session.user_id (routed w req route u a).1.session.user_id
  unfolding routed get_setup get_login
  routed-IsOwner gets_setup u a = kept (ground arith)
  routed-IsOwner gets_login none a = kept refl
  routed-IsOwner gets_login (some u) a = kept refl
  routed-IsOwner posts_setup u a = post_setup-IsOwner a
  routed-IsOwner posts_login u a = post_login-IsOwner a
  routed-IsOwner posts_logout u a = logout_route-IsOwner u a
  routed-IsOwner gets_users u a =
      guarded_holds w req (λ x. IsOwner gets_users a.users a.session.user_id x.1.session.user_id)
        (get_users w req) u a (λ r. kept refl) (λ actor _ _. kept (get_users-user_id actor a))
  routed-IsOwner posts_users u a =
      guarded_holds w req (λ x. IsOwner posts_users a.users a.session.user_id x.1.session.user_id)
        (post_users w req) u a (λ r. kept refl) (λ actor _ _. kept (post_users-user_id actor a))
  routed-IsOwner posts_user u a =
      guarded_holds w req (λ x. IsOwner posts_user a.users a.session.user_id x.1.session.user_id)
        (post_user w req) u a (λ r. kept refl) (λ actor _ _. kept (post_user-user_id actor a))

  anonymous-IsOwner :
      (route : Route) (a : App) (after : ℕ)
      → IsOwner route a.users 0 after
      → IsOwner route a.users a.session.user_id after
  anonymous-IsOwner route a after (kept e) = dropped e
  anonymous-IsOwner route a after (dropped e) = dropped e
  anonymous-IsOwner route a after (logged_in r u x e) = logged_in r u x e
  anonymous-IsOwner route a after (set_up r u x e) = set_up r u x e

  -- After a request the session names the same user as before, or nobody, or, at the login page, the
  -- user whose name and password the request gave and `Authenticate` accepted, or, at the setup page,
  -- the user that the request created as the first one.
  pub serve-IsOwner :
      (route : Route) (a : App)
      → IsOwner route a.users a.session.user_id (serve w req route a).1.session.user_id
  serve-IsOwner route a =
      serve_holds w req (λ x. IsOwner route a.users a.session.user_id x.1.session.user_id) route a
        (λ r. kept refl) (λ r. dropped refl) (routed-IsOwner route none a)
        (anonymous-IsOwner route a _ (routed-IsOwner route none (put_user 0 a)))
        (λ u _ _. routed-IsOwner route (some u) a)
