-- ===== src/App/Privilege.antt =====
-- Who can change which accounts by a request.
use step_ui_ng.Users.Repo.{get_by_id, Env, count_users}
use step_ui_ng.Users.Role.{
  valid, can_manage, can_assign, Role, at_least, rank, superadmin, admin, viewer, can_manage_users,
}
use step_ui_ng.App.State.{plain_answers, AppEnv, Request, App, put_user}
use step_ui_ng.Base.{
  ℕ, ◌≢◌, ◌≡◌, ◌&&◌, ok, not, true, [], false, arith, String, eq_iff, length-eq-zero, some, ◌⊎◌,
  inl, Option-cases, Bool, inr, Bool-cases, ◌==◌, string_eq, Option, none, refl,
}
use step_ui_ng.App.Accounts.{action_of, post_setup, setup_done, acts, post_users, post_user}
use step_ui_ng.Users.Table.{Table, User, Row, by_id, scan}
use step_ui_ng.Users.Invariant.{IsValid}
use step_ui_ng.Users.Safety.{Call, run, run_all, sets_role, sets_disabled, deletes}
use step_ui_ng.Users.Ceiling.{
  superadmin_rows, create-superadmin_rows, set_role-superadmin_rows, set_disabled-superadmin_rows,
  delete_user-superadmin_rows,
}
use step_ui_ng.App.Runs.{post_users-users, post_user-users, quiet_routes}
use step_ui_ng.App.Server.{
  routed, Route, serve, gets_setup, gets_login, posts_login, posts_logout, gets_users, posts_setup,
  posts_users, posts_user,
}
use step_ui_ng.App.Reach.{serve_holds, guarded_holds}

get_by_id-eq-ok :
    (env : Env) (k : ℕ) (t : Table) (u : User)
    → get_by_id env k t ≡ ok u
    → (r : Row) × (by_id k t.rows ≡ some r) × (u ≡ scan r)
unfolding get_by_id
get_by_id-eq-ok env k t u h = elim (Option-cases (by_id k t.rows)) [
  | inl missing ↦ absurd (ground arith)
  | inr (r, found) ↦ (r, found, ground arith)
]

low_assignment :
    (actor role : Role)
    → actor ≢ superadmin
    → (valid role && not (can_assign actor role)) ≡ false
    → role ≢ superadmin
unfolding valid can_assign at_least rank
low_assignment actor role low guard up = ground (
  arith,
  eq_iff role superadmin,
  eq_iff actor superadmin,
  eq_iff actor admin,
  eq_iff actor viewer,
)

low_target :
    (actor target : Role)
    → actor ≢ superadmin
    → can_manage actor target ≡ true
    → target ≢ superadmin
unfolding can_manage
low_target actor target low may up =
    ground (arith, eq_iff target superadmin, eq_iff actor superadmin)

module _ (w : AppEnv) (req : Request) where
  action_of-cases :
      (actor : User) (id : ℕ) (c : Call) (action details : String)
      → actor.role ≢ superadmin
      → action_of w req actor id ≡ acts c action details
      → ((c ≡ sets_role id req.role) × (req.role ≢ superadmin))
        ⊎ ((b : Bool) × (c ≡ sets_disabled id b))
        ⊎ (c ≡ deletes id)
  unfolding action_of
  action_of-cases actor id c action details low e = elim (Bool-cases (req.action == "set_role")) [
    | inl f ↦ elim (Bool-cases (valid req.role && not (can_assign actor.role req.role))) [
      | inl g ↦ absurd (ground arith)
      | inr g ↦ inl (ground arith, low_assignment actor.role req.role low g)
    ]
    | inr f ↦ elim (Bool-cases (req.action == "disable")) [
      | inl g ↦ inr (inl (true, ground arith))
      | inr g ↦ elim (Bool-cases (req.action == "enable")) [
        | inl h ↦ inr (inl (false, ground arith))
        | inr h ↦ elim (Bool-cases (req.action == "delete")) [
          | inl i ↦ inr (inr (ground arith))
          | inr i ↦ absurd (ground arith)
        ]
      ]
    ]
  ]

  post_setup-users : (a : App) → a.users.rows ≢ [] → (post_setup w req a).1.users ≡ a.users
  unfolding post_setup setup_done count_users
  post_setup-users a some_rows = ground (arith, length-eq-zero a.users.rows)

  module _ (a : App) (valid_users : IsValid a.users) (alone : w.meanwhile ≡ []) (actor : User)
      (low : actor.role ≢ superadmin) where
    post_users-superadmin_rows :
        superadmin_rows (post_users w req actor a).1.users.rows ≡ superadmin_rows a.users.rows
    post_users-superadmin_rows = elim (post_users-users w req actor a) [
      | inl e ↦ rw e
      | inr (guard, e) ↦ rw e (
          create-superadmin_rows (w.repo 2) a.users req.username req.password req.role
            (low_assignment actor.role req.role low guard))
    ]

    run-superadmin_rows :
        (id : ℕ) (target : Row) (c : Call)
        → by_id id a.users.rows ≡ some target
        → target.role ≢ superadmin
        → ((c ≡ sets_role id req.role) × (req.role ≢ superadmin))
          ⊎ ((b : Bool) × (c ≡ sets_disabled id b))
          ⊎ (c ≡ deletes id)
        → superadmin_rows (run (w.repo 3) c a.users).rows ≡ superadmin_rows a.users.rows
    unfolding run
    run-superadmin_rows id target c found other (inl (e, ne)) =
        rw e (
          set_role-superadmin_rows (w.repo 3) a.users valid_users id target found other req.role ne)
    run-superadmin_rows id target c found other (inr (inl (b, e))) =
        rw e (set_disabled-superadmin_rows (w.repo 3) a.users valid_users id target found other b)
    run-superadmin_rows id target c found other (inr (inr e)) =
        rw e (delete_user-superadmin_rows (w.repo 3) a.users valid_users id target found other)

    post_user-superadmin_rows :
        superadmin_rows (post_user w req actor a).1.users.rows ≡ superadmin_rows a.users.rows
    unfolding run_all
    post_user-superadmin_rows = elim (post_user-users w req actor a) [
      | inl e ↦ rw e
      | inr (id, target, c, action, details, found, may, acted, e) ↦
          let (row, stored, same) = get_by_id-eq-ok (w.repo 2) id a.users target found in
          let other : row.role ≢ superadmin = low_target actor.role row.role low (rw same at may) in
          rw (e, alone)
            (run-superadmin_rows id row c stored other
              (action_of-cases actor id c action details low acted))
    ]

  -- The routes, for a user who is logged in or not.
  routed-superadmin_rows :
      (route : Route) (u : Option User) (a : App)
      → IsValid a.users
      → w.meanwhile ≡ []
      → a.users.rows ≢ []
      → ((actor : User) → u ≡ some actor → actor.role ≢ superadmin)
      → superadmin_rows (routed w req route u a).1.users.rows ≡ superadmin_rows a.users.rows
  unfolding routed
  routed-superadmin_rows gets_setup u a v alone some_rows low = rw (quiet_routes w req u a).0
  routed-superadmin_rows gets_login u a v alone some_rows low = rw (quiet_routes w req u a).1
  routed-superadmin_rows posts_login u a v alone some_rows low = rw (quiet_routes w req u a).2
  routed-superadmin_rows posts_logout u a v alone some_rows low = rw (quiet_routes w req u a).3
  routed-superadmin_rows gets_users u a v alone some_rows low = rw (quiet_routes w req u a).4
  routed-superadmin_rows posts_setup u a v alone some_rows low = rw (post_setup-users a some_rows)
  routed-superadmin_rows posts_users u a v alone some_rows low =
      guarded_holds w req (λ x. superadmin_rows x.1.users.rows ≡ superadmin_rows a.users.rows)
        (post_users w req) u a (λ r. refl)
        (λ actor e _. post_users-superadmin_rows a v alone actor (low actor e))
  routed-superadmin_rows posts_user u a v alone some_rows low =
      guarded_holds w req (λ x. superadmin_rows x.1.users.rows ≡ superadmin_rows a.users.rows)
        (post_user w req) u a (λ r. refl)
        (λ actor e _. post_user-superadmin_rows a v alone actor (low actor e))

  -- Only a superadmin touches superadmins: where the accounts are valid and not empty, and no other
  -- request runs in between, a request whose session names no enabled superadmin leaves the accounts
  -- of superadmins exactly as they are, and makes no new one.
  pub serve-superadmin_rows :
      (route : Route) (a : App)
      → IsValid a.users
      → w.meanwhile ≡ []
      → a.users.rows ≢ []
      → ((r : Row)
          → by_id a.session.user_id a.users.rows ≡ some r
          → r.disabled ≡ false
          → r.role ≢ superadmin)
      → superadmin_rows (serve w req route a).1.users.rows ≡ superadmin_rows a.users.rows
  serve-superadmin_rows route a v alone some_rows low =
      serve_holds w req (λ x. superadmin_rows x.1.users.rows ≡ superadmin_rows a.users.rows) route a
        (λ r. refl) (λ r. refl)
        (routed-superadmin_rows route none a v alone some_rows (λ actor e. absurd (ground arith)))
        (routed-superadmin_rows route none (put_user 0 a) v alone some_rows
          (λ actor e. absurd (ground arith)))
        (λ u stored enabled.
          let (r, found, same) = get_by_id-eq-ok (w.repo 0) a.session.user_id a.users u stored in
          routed-superadmin_rows route (some u) a v alone some_rows (λ actor e.
            let mine : actor.role ≡ r.role = ground (arith, same, e) in
            rw mine (low r found (rw same at enabled))))

  routed-users :
      (route : Route) (u : Option User) (a : App)
      → a.users.rows ≢ []
      → ((actor : User) → u ≡ some actor → can_manage_users actor.role ≡ false)
      → (routed w req route u a).1.users ≡ a.users
  unfolding routed can_manage_users
  routed-users gets_setup u a some_rows low = (quiet_routes w req u a).0
  routed-users gets_login u a some_rows low = (quiet_routes w req u a).1
  routed-users posts_login u a some_rows low = (quiet_routes w req u a).2
  routed-users posts_logout u a some_rows low = (quiet_routes w req u a).3
  routed-users gets_users u a some_rows low = (quiet_routes w req u a).4
  routed-users posts_setup u a some_rows low = post_setup-users a some_rows
  routed-users posts_users u a some_rows low =
      guarded_holds w req (λ x. x.1.users ≡ a.users) (post_users w req) u a (λ r. refl)
        (λ actor e may. absurd (ground (arith, low actor e, may)))
  routed-users posts_user u a some_rows low =
      guarded_holds w req (λ x. x.1.users ≡ a.users) (post_user w req) u a (λ r. refl)
        (λ actor e may. absurd (ground (arith, low actor e, may)))

  -- Once there is an account, a request changes none unless its session names an enabled user who may
  -- manage users.
  pub serve-users :
      (route : Route) (a : App)
      → a.users.rows ≢ []
      → ((r : Row)
          → by_id a.session.user_id a.users.rows ≡ some r
          → r.disabled ≡ false
          → can_manage_users r.role ≡ false)
      → (serve w req route a).1.users ≡ a.users
  serve-users route a some_rows low =
      serve_holds w req (λ x. x.1.users ≡ a.users) route a (λ r. refl) (λ r. refl)
        (routed-users route none a some_rows (λ actor e. absurd (ground arith)))
        (routed-users route none (put_user 0 a) some_rows (λ actor e. absurd (ground arith)))
        (λ u stored enabled.
          let (r, found, same) = get_by_id-eq-ok (w.repo 0) a.session.user_id a.users u stored in
          routed-users route (some u) a some_rows (λ actor e.
            let mine : actor.role ≡ r.role = ground (arith, same, e) in
            rw mine (low r found (rw same at enabled))))
