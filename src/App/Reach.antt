-- ===== src/App/Reach.antt =====
-- What a request can reach: to show something of `serve`, it is enough to show it where the guards
-- stop the request and where the handler runs.
use step_ui_ng.App.State.{
  plain_answers, Answers, Serves, AppEnv, Request, Response, App, put_user, http_error, redirect,
}
use step_ui_ng.App.Gate.{first_run, require_auth, load_user, require_role, is_exempt_from_first_run}
use step_ui_ng.App.Server.{serve, Route, routed}
use step_ui_ng.Base.{
  Bool-cases, Option, ◌≡◌, inl, none, some, inr, Result-cases, ok, false, true, ◌==◌, refl, nat_eq,
  subst, if◌then◌else◌, sym,
}
use step_ui_ng.Users.Table.{User}
use step_ui_ng.Users.Repo.{get_by_id, count_users}
use step_ui_ng.Users.Role.{at_least, admin}

module _ {R : Type 0} ⦃k : Answers R⦄ (w : AppEnv) (req : Request) (P : R × App → Type 0) where
  first_run_holds :
      (next : Serves R) (a : App)
      → ((r : Response) → P (k.of_response r, a))
      → P (next a)
      → P (first_run w req next a)
  unfolding first_run
  first_run_holds next a stop go = elim (Bool-cases (is_exempt_from_first_run req.path)) [
    | inl e ↦ rw (e, first_run) go
    | inr e ↦ elim (Result-cases (count_users (w.repo 1) a.users)) [
      | inl (x, f) ↦ rw (e, f, first_run) (stop (http_error 500 "internal error"))
      | inr (n, f) ↦ elim (Bool-cases (n == 0)) [
        | inl g ↦ rw (e, f, g, first_run) (stop (redirect "/setup"))
        | inr g ↦ rw (e, f, g, first_run) go
      ]
    ]
  ]

  pub loaded_holds :
      (next : Option User → Serves R) (a : App)
      → ((r : Response) → P (k.of_response r, a))
      → ((r : Response) → P (k.of_response r, put_user 0 a))
      → P (next none a)
      → P (next none (put_user 0 a))
      → ((u : User)
          → get_by_id (w.repo 0) a.session.user_id a.users ≡ ok u
          → u.disabled ≡ false
          → P (next (some u) a))
      → P (load_user w req (λ u. first_run w req (next u)) a)
  unfolding load_user
  loaded_holds next a stop stop' anonymous anonymous' known =
      elim (Bool-cases (a.session.user_id == 0)) [
        | inl e ↦ rw (e, load_user) (first_run_holds (next none) a stop anonymous)
        | inr e ↦ elim (Result-cases (get_by_id (w.repo 0) a.session.user_id a.users)) [
          | inl (x, f) ↦
              rw (e, f, load_user) (first_run_holds (next none) (put_user 0 a) stop' anonymous')
          | inr (u, f) ↦ elim (Bool-cases u.disabled) [
            | inl g ↦
                rw (e, f, g, load_user)
                  (first_run_holds (next none) (put_user 0 a) stop' anonymous')
            | inr g ↦
                rw (e, f, load_user)
                  (subst
                    (λ b. P (
                      if b
                      then first_run w req (next none) (put_user 0 a)
                      else first_run w req (next (some u)) a))
                    (sym g) (first_run_holds (next (some u)) a stop (known u f g)))
          ]
        ]
      ]

  -- Behind `requireAuth` and `requireRole`.
  pub guarded_holds :
      (h : User → Serves R) (u : Option User) (a : App)
      → ((r : Response) → P (k.of_response r, a))
      → ((actor : User) → u ≡ some actor → at_least actor.role admin ≡ true → P (h actor a))
      → P (require_auth w req (require_role w req admin h) u a)
  unfolding require_auth require_role
  guarded_holds h none a stop go = stop (redirect "/login")
  guarded_holds h (some u) a stop go = elim (Bool-cases (at_least u.role admin)) [
    | inl e ↦ rw (e, require_role) (go u refl e)
    | inr e ↦ rw (e, require_role) (stop (http_error 403 "forbidden"))
  ]

module _ (w : AppEnv) (req : Request) (P : Response × App → Type 0) where
  pub serve_holds :
      (route : Route) (a : App)
      → ((r : Response) → P (r, a))
      → ((r : Response) → P (r, put_user 0 a))
      → P (routed w req route none a)
      → P (routed w req route none (put_user 0 a))
      → ((u : User)
          → get_by_id (w.repo 0) a.session.user_id a.users ≡ ok u
          → u.disabled ≡ false
          → P (routed w req route (some u) a))
      → P (serve w req route a)
  unfolding serve
  serve_holds route = loaded_holds w req P (routed w req route)
