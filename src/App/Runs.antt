-- ===== src/App/Runs.antt =====
-- How a request changes the accounts.
use step_ui_ng.Users.Table.{Table, User, superadmins}
use step_ui_ng.Users.Safety.{
  run_all, Call, run, creates_first, report, creates, run_all-IsValid, superadmins-run_all,
}
use step_ui_ng.App.State.{
  plain_answers, AppEnv, Request, note, pass_time, note_denied, App, put_user,
}
use step_ui_ng.Base.{
  List, [], ◌≡◌, ◌++◌, refl, ◌∷◌, Option-cases, arith, ◌⊎◌, ◌&&◌, inr, not, inl, Bool-cases, ◌==◌,
  false, ◌∙◌, string_eq, ℕ, String, ok, true, Result-cases, Option, ap, none, ◌<◌, some,
}
use step_ui_ng.Users.Repo.{Env, create, create_first, get_by_id}
use step_ui_ng.App.Accounts.{
  post_setup, post_login, post_users, setup_answered, login, setup_done, post_user, act_on,
  action_of, acts, Action, forbidden, unknown_action, get_setup, get_login, post_logout, get_users,
}
use step_ui_ng.Users.Role.{valid, can_assign, can_manage}
use step_ui_ng.App.Server.{
  routed, Route, answer_all, serve, answer, Web, gets_setup, gets_login, posts_login, posts_logout,
  gets_users, posts_setup, posts_users, posts_user,
}
use step_ui_ng.App.Reach.{guarded_holds, serve_holds}
use step_ui_ng.Users.Invariant.{IsValid}
use step_ui_ng.App.Gate.{require_auth, require_role}

abbrev pub IsRun : Table → Table → Type 0
IsRun t t' = (cs : List (Env × Call)) × (t' ≡ run_all cs t)

run_all-append :
    (cs cs' : List (Env × Call)) (t : Table) → run_all cs' (run_all cs t) ≡ run_all (cs ++ cs') t
unfolding run_all
run_all-append [] cs' t = refl
run_all-append ((env, c) ∷ cs) cs' t = run_all-append cs cs' (run env c t)

same_IsRun : (t : Table) → IsRun t t
unfolding run_all
same_IsRun t = ([], refl)

one_IsRun :
    (env : Env) (c : Call) (cs : List (Env × Call)) (t : Table) → IsRun t (run env c (run_all cs t))
unfolding run_all
one_IsRun env c cs t = (cs ++ (env, c) ∷ [], run_all-append cs ((env, c) ∷ []) t)

pub Action-cases :
    (x : Action)
    → ((x ≡ forbidden) ⊎ (x ≡ unknown_action))
      ⊎ ((c : Call) × (action : String) × (details : String) × (x ≡ acts c action details))
Action-cases (acts c action details) = inr (c, action, details, refl)
Action-cases forbidden = inl (inl refl)
Action-cases unknown_action = inl (inr refl)

module _ (w : AppEnv) (req : Request) where
  post_setup-IsRun : (a : App) → IsRun a.users (post_setup w req a).1.users
  unfolding post_setup setup_answered login pass_time
  post_setup-IsRun a = elim (Option-cases (setup_done w req a.users)) [
    | inr (r, e) ↦ rw (e, post_setup) (same_IsRun a.users)
    | inl e ↦ elim (Bool-cases (req.password == req.password_confirm)) [
      | inr f ↦ rw (e, f, post_setup) (same_IsRun a.users)
      | inl f ↦
          let cs = w.meanwhile ++ (w.repo 3, creates_first req.username req.password) ∷ [] in
          let ran : (post_setup w req a).1.users
              ≡ (create_first (w.repo 3) req.username req.password
                  (run_all w.meanwhile a.users)).1 =
            ground (arith, e, f) in
          let (cs, e') =
            one_IsRun (w.repo 3) (creates_first req.username req.password) w.meanwhile a.users in
          (cs, ran ∙ unfold run in e')
    ]
  ]

  pub post_login-users : (a : App) → (post_login w req a).1.users ≡ a.users
  unfolding post_login login note note_denied
  post_login-users a = ground arith

  pub post_users-users :
      (actor : User) (a : App)
      → ((post_users w req actor a).1.users ≡ a.users)
        ⊎ (((valid req.role && not (can_assign actor.role req.role)) ≡ false)
            × ((post_users w req actor a).1.users
                ≡ (create (w.repo 2) req.username req.password req.role a.users).1))
  unfolding post_users note
  post_users-users actor a = ground arith

  act_on-stopped :
      (actor target : User) (id : ℕ) (a : App)
      → (action_of w req actor id ≡ forbidden) ⊎ (action_of w req actor id ≡ unknown_action)
      → (act_on w req actor target id a).1.users ≡ a.users
  unfolding act_on
  act_on-stopped actor target id a (inl e) = rw (e, act_on)
  act_on-stopped actor target id a (inr e) = rw (e, act_on)

  act_on-users :
      (actor target : User) (id : ℕ) (a : App) (c : Call) (action details : String)
      → action_of w req actor id ≡ acts c action details
      → (act_on w req actor target id a).1.users ≡ run (w.repo 3) c (run_all w.meanwhile a.users)
  unfolding act_on pass_time note
  act_on-users actor target id a c action details e =
      elim (Option-cases (report (w.repo 3) c (run_all w.meanwhile a.users))) [
        | inl f ↦ rw (e, f, act_on)
        | inr (x, f) ↦ rw (e, f, act_on)
      ]

  -- What a request about one account does: nothing, or the call of the action.
  pub post_user-users :
      (actor : User) (a : App)
      → ((post_user w req actor a).1.users ≡ a.users)
        ⊎ ((id : ℕ) × (target : User) × (c : Call) × (action : String) × (details : String)
            × (get_by_id (w.repo 2) id a.users ≡ ok target)
            × (can_manage actor.role target.role ≡ true)
            × (action_of w req actor id ≡ acts c action details)
            × ((post_user w req actor a).1.users ≡ run (w.repo 3) c (run_all w.meanwhile a.users)))
  unfolding post_user act_on pass_time note
  post_user-users actor a = elim (Option-cases (w.parse_int req.path_id)) [
    | inl e ↦ inl (rw (e, post_user))
    | inr (id, e) ↦ elim (Result-cases (get_by_id (w.repo 2) id a.users)) [
      | inl (x, f) ↦ inl (rw (e, f, post_user))
      | inr (target, f) ↦ elim (Bool-cases (can_manage actor.role target.role)) [
        | inr g ↦ inl (rw (e, f, g, post_user))
        | inl g ↦ elim (Action-cases (action_of w req actor id)) [
          | inl stopped ↦ inl (rw (e, f, g, post_user) (act_on-stopped actor target id a stopped))
          | inr (c, action, details, h) ↦ inr (
            id,
            target,
            c,
            action,
            details,
            f,
            g,
            h,
            rw (e, f, g, post_user) (act_on-users actor target id a c action details h),
          )
        ]
      ]
    ]
  ]

  post_users-IsRun : (actor : User) (a : App) → IsRun a.users (post_users w req actor a).1.users
  post_users-IsRun actor a = elim (post_users-users actor a) [
    | inl e ↦ rw e (same_IsRun a.users)
    | inr (_, e) ↦ rw e (
        unfold run run_all in
        one_IsRun (w.repo 2) (creates req.username req.password req.role) [] a.users)
  ]

  post_user-IsRun : (actor : User) (a : App) → IsRun a.users (post_user w req actor a).1.users
  post_user-IsRun actor a = elim (post_user-users actor a) [
    | inl e ↦ rw e (same_IsRun a.users)
    | inr (_, _, c, _, _, _, _, _, e) ↦ rw e (one_IsRun (w.repo 3) c w.meanwhile a.users)
  ]

  -- The routes that leave the accounts alone.
  pub quiet_routes :
      (u : Option User) (a : App)
      → ((routed w req gets_setup u a).1.users ≡ a.users)
        × ((routed w req gets_login u a).1.users ≡ a.users)
        × ((routed w req posts_login u a).1.users ≡ a.users)
        × ((routed w req posts_logout u a).1.users ≡ a.users)
        × ((routed w req gets_users u a).1.users ≡ a.users)
  unfolding routed get_setup get_login require_auth require_role post_logout get_users note
  quiet_routes none a = (ground arith, refl, post_login-users a, refl, refl)
  quiet_routes (some u) a = (ground arith, refl, post_login-users a, ground arith, ground arith)

  pub routed-IsRun :
      (route : Route) (u : Option User) (a : App) → IsRun a.users (routed w req route u a).1.users
  unfolding routed
  routed-IsRun gets_setup u a = rw (quiet_routes u a).0 (same_IsRun a.users)
  routed-IsRun gets_login u a = rw (quiet_routes u a).1 (same_IsRun a.users)
  routed-IsRun posts_login u a = rw (quiet_routes u a).2 (same_IsRun a.users)
  routed-IsRun posts_logout u a = rw (quiet_routes u a).3 (same_IsRun a.users)
  routed-IsRun gets_users u a = rw (quiet_routes u a).4 (same_IsRun a.users)
  routed-IsRun posts_setup u a = post_setup-IsRun a
  routed-IsRun posts_users u a =
      guarded_holds w req (λ x. IsRun a.users x.1.users) (post_users w req) u a
        (λ r. same_IsRun a.users) (λ actor _ _. post_users-IsRun actor a)
  routed-IsRun posts_user u a =
      guarded_holds w req (λ x. IsRun a.users x.1.users) (post_user w req) u a
        (λ r. same_IsRun a.users) (λ actor _ _. post_user-IsRun actor a)

  serve-IsRun : (route : Route) (a : App) → IsRun a.users (serve w req route a).1.users
  serve-IsRun route a =
      serve_holds w req (λ x. IsRun a.users x.1.users) route a (λ r. same_IsRun a.users)
        (λ r. same_IsRun a.users) (routed-IsRun route none a)
        (routed-IsRun route none (put_user 0 a)) (λ u _ _. routed-IsRun route (some u) a)

answer_all-IsRun :
    (rs : List (ℕ × AppEnv × Request × Route)) (web : Web)
    → IsRun web.users (answer_all rs web).users
unfolding answer_all answer
answer_all-IsRun [] web = same_IsRun web.users
answer_all-IsRun ((client, w, req, route) ∷ rs) web =
    let (cs, e) =
      serve-IsRun w req route
        (record { users = web.users; log = web.log; session = web.sessions client }) in
    let (cs', e') = answer_all-IsRun rs (answer client w req route web) in
    (cs ++ cs', e' ∙ ap (run_all cs') e ∙ run_all-append cs cs' web.users)

-- Whatever requests the clients send to the account pages, with whatever failures of the driver and
-- whatever calls of the repository in between: the accounts change only by calls of the repository.
-- So a valid table stays valid, and where a superadmin could log in, one can afterwards.
pub answer_all-IsValid :
    (rs : List (ℕ × AppEnv × Request × Route)) (web : Web)
    → IsValid web.users
    → 0 < superadmins web.users.rows
    → ((cs : List (Env × Call)) × ((answer_all rs web).users ≡ run_all cs web.users))
      × IsValid (answer_all rs web).users
      × (0 < superadmins (answer_all rs web).users.rows)
answer_all-IsValid rs web h p =
    let (cs, e) = answer_all-IsRun rs web in
    ((cs, e), rw e (run_all-IsValid cs web.users h), rw e (superadmins-run_all cs web.users h p))
