-- ===== src/App/Gate.antt =====
-- internal/app/middleware.go: who a request comes from and how far it gets.
use step_ui_ng.Base.{
  String, List, Bool, ◌∷◌, [], false, ◌||◌, Option, ◌==◌, if◌then◌else◌, none, string_eq, err, some,
  nat_eq, ok,
}
use step_ui_ng.App.State.{AppEnv, Request, redirect, http_error, put_user, Answers, Serves}
use step_ui_ng.Users.Role.{Role, at_least}
use step_ui_ng.Users.Table.{User}
use step_ui_ng.Users.Repo.{count_users, get_by_id}
use step_ui_ng.Base.Prefix.{has_prefix}

abbrev pub exempt_exact_from_first_run : List String
exempt_exact_from_first_run = "/setup" ∷ "/login" ∷ "/healthz" ∷ []

abbrev pub exempt_prefix_from_first_run : List String
exempt_prefix_from_first_run = "/static/" ∷ []

abbrev any_equal : String → List String → Bool
any_equal path [] = false
any_equal path (p ∷ ps) = path == p || any_equal path ps

abbrev any_prefix : String → List String → Bool
any_prefix path [] = false
any_prefix path (p ∷ ps) = has_prefix path p || any_prefix path ps

-- `isExemptFromFirstRun`
unfoldable pub is_exempt_from_first_run : String → Bool
is_exempt_from_first_run path =
    any_equal path exempt_exact_from_first_run || any_prefix path exempt_prefix_from_first_run

module _ {R : Type 0} ⦃k : Answers R⦄ (w : AppEnv) (req : Request) where
  -- `loadUser`
  unfoldable pub load_user : (Option User → Serves R) → Serves R
  load_user next a =
      if a.session.user_id == 0
      then next none a
      else elim (get_by_id (w.repo 0) a.session.user_id a.users) [
        | err _ ↦ next none (put_user 0 a)
        | ok u ↦ if u.disabled then next none (put_user 0 a) else next (some u) a
      ]

  -- `firstRun`
  unfoldable pub first_run : Serves R → Serves R
  first_run next a =
      if is_exempt_from_first_run req.path then next a else elim (count_users (w.repo 1) a.users) [
        | err _ ↦ (k.of_response (http_error 500 "internal error"), a)
        | ok n ↦ if n == 0 then (k.of_response (redirect "/setup"), a) else next a
      ]

  -- `requireAuth`
  unfoldable pub require_auth : (Option User → Serves R) → Option User → Serves R
  require_auth next none a = (k.of_response (redirect "/login"), a)
  require_auth next (some u) a = next (some u) a

  -- `requireRole`; the handler behind it finds a user in the context.
  unfoldable pub require_role : Role → (User → Serves R) → Option User → Serves R
  require_role min_role next none a = (k.of_response (http_error 403 "forbidden"), a)
  require_role min_role next (some u) a =
      if at_least u.role min_role then next u a else (k.of_response (http_error 403 "forbidden"), a)
