-- ===== src/Users/Setup.antt =====
-- First-run setup.
use step_ui_ng.Users.Repo.{create_first, Env, first_insert, built_user, prepare_create}
use step_ui_ng.Base.{
  String, ◌≡◌, ok, [], some, Result-cases, List, inl, arith, length-eq-zero, inr, ◌≢◌, ap, ◌∙◌,
  ◌++◌, ◌∷◌,
}
use step_ui_ng.Users.Table.{Table, User, superadmins, scan}
use step_ui_ng.Users.Insertion.{
  appended, new_row, exec_insert-eq-ok, prepare_create-eq-ok, normalize_username-eq-ok,
}
use step_ui_ng.Base.Text.{trim_space}
use step_ui_ng.Users.Role.{superadmin}
use step_ui_ng.Users.Transaction.{first_insert-eq-ok, in_tx-eq-ok}
use step_ui_ng.Users.Safety.{Call, run_all, create_first-IsSafe, run_all-IsSafe}
use step_ui_ng.Users.Invariant.{IsValid}

first_insert_writes :
    (env : Env) (name hash : String) (t : Table) (u : User) (t' : Table)
    → first_insert env name hash t ≡ ok (u, t')
    → (t.rows ≡ [])
      × (t' ≡ appended env name hash superadmin t)
      × (u ≡ scan (new_row env name hash superadmin t))
unfolding first_insert built_user
first_insert_writes env name hash t u t' h =
    let (id, x, empty) = first_insert-eq-ok env name hash t u t' h in
    let (_, same_id, whole) = exec_insert-eq-ok env name hash superadmin t id t' x in
    (length-eq-zero t.rows empty, whole, ground arith)

-- A first creation that goes through found no user, and leaves exactly one: an enabled superadmin
-- with the trimmed username and the hash of the password.
pub create_first-eq-ok :
    (env : Env) (username password : String) (t : Table) (u : User)
    → (create_first env username password t).0 ≡ ok u
    → (t.rows ≡ [])
      × (hash : String) × (env.create_hash password ≡ some hash)
      × ((create_first env username password t).1
          ≡ appended env (trim_space username) hash superadmin t)
      × (u ≡ scan (new_row env (trim_space username) hash superadmin t))
unfolding create_first
create_first-eq-ok env username password t u h =
    elim (Result-cases (prepare_create env username password superadmin)) [
      | inl (e, x) ↦ absurd (ground arith)
      | inr ((name, hash, r), x) ↦
          let (norm, _, _, hashed, _) =
            prepare_create-eq-ok env username password superadmin name hash r x in
          let (trim, _, _) = normalize_username-eq-ok username name norm in
          let done = in_tx-eq-ok env (first_insert env name hash) t u (rw (x, create_first) at h) in
          let (empty, whole, who) = first_insert_writes env name hash t u _ done in
          (empty, hash, hashed, rw (x, create_first, ← trim) whole, rw (← trim) who)
    ]

-- Once a first creation on a valid table has gone through, no other one goes through, whatever
-- writing calls run in between and whatever the driver does: the loser of a race cannot make a
-- second superadmin.
pub create_first_once :
    (env env' : Env) (username password username' password' : String) (t : Table) (u v : User)
    (cs : List (Env × Call))
    → IsValid t
    → (create_first env username password t).0 ≡ ok u
    → (create_first env' username' password'
        (run_all cs (create_first env username password t).1)).0
      ≢ ok v
unfolding superadmins
create_first_once env env' username password username' password' t u v cs safe h again =
    let first = create_first-IsSafe env t safe username password in
    let rest = run_all-IsSafe cs (create_first env username password t).1 first.is_valid in
    let (before, hash, _, whole, _) = create_first-eq-ok env username password t u h in
    let (empty, _, _, _, _) = create_first-eq-ok env' username' password' _ v again in
    let new = new_row env (trim_space username) hash superadmin t in
    let one : superadmins (create_first env username password t).1.rows ≡ 1 =
      ap (λ (x : Table). superadmins x.rows) whole
      ∙ ap (λ rs. superadmins (rs ++ new ∷ [])) before in
    let alive = rest.kept (omega (arith, one)) in omega (arith, alive, ap superadmins empty)
