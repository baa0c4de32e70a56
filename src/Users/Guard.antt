-- ===== src/Users/Guard.antt =====
-- What the guarded operations do to an existing user when the driver fails nowhere.
use mathlib.Core.Option
use step_ui_ng.Users.Table.{by_id, affected, Table, update_where, delete_where, Row, count_others}
use step_ui_ng.Users.Repo.{
  Env, Site, guarded_mutate, set_role, set_disabled, delete_user, in_tx, change_role,
  change_disabled, remove, load_then, guard_last_superadmin, update_tx, rows_affected_check, Error,
  begin_tx, last_superadmin, load_role, count_superadmins, commit, update, delete, rows_affected,
}
use step_ui_ng.Base.{
  ℕ, List, ◌≡◌, some, false, if◌then◌else◌, ◌<◌, ◌==◌, Bool, arith, none, Result, true, ◌&&◌, not,
  ok, err, ◌∷◌, string_eq, nat_eq, [],
}
use step_ui_ng.Users.Role.{Role, valid, superadmin}
use step_ui_ng.Users.Transaction.{with_role, with_disabled}

affected-of-found : (k : ℕ) (rs : List Row) (r : Row) → by_id k rs ≡ some r → 0 < affected k rs
unfolding by_id affected
affected-of-found k [] r e = cc
affected-of-found k (x ∷ rs) r e = ground (arith, affected-of-found k rs r)

module _ (env : Env) (t : Table) (up : (s : Site) → env.fails s ≡ false) (k : ℕ) (r : Row)
    (found : by_id k t.rows ≡ some r) where
  run_guarded :
      (fn : Table → Role → Result Error Table)
      → guarded_mutate env k fn t ≡ elim (fn t r.role) [ ok t' ↦ (ok tt, t') | err e ↦ (err e, t) ]
  unfolding guarded_mutate in_tx load_then
  run_guarded fn = ground (arith, up begin_tx, up load_role, up commit)

  set_role_result :
      (role : Role)
      → valid role ≡ true
      → set_role env k role t ≡ (
          if r.role == superadmin && not (role == superadmin) && count_others k t.rows == 0
          then (err last_superadmin, t)
          else (ok tt, record t { rows = update_where k (with_role env role) t.rows }))
  unfolding set_role change_role guard_last_superadmin update_tx rows_affected_check
  set_role_result role known =
      rw (known, set_role, run_guarded)
        (ground (
          arith,
          up count_superadmins,
          up update,
          up rows_affected,
          affected-of-found k t.rows r found,
        ))

  set_disabled_result :
      (b : Bool)
      → set_disabled env k b t ≡ (
          if b && r.role == superadmin && count_others k t.rows == 0
          then (err last_superadmin, t)
          else (ok tt, record t { rows = update_where k (with_disabled env b) t.rows }))
  unfolding set_disabled change_disabled guard_last_superadmin update_tx rows_affected_check
  set_disabled_result b =
      rw (set_disabled, run_guarded)
        (ground (
          arith,
          up count_superadmins,
          up update,
          up rows_affected,
          affected-of-found k t.rows r found,
        ))

  delete_user_result : delete_user env k t ≡ (
      if r.role == superadmin && count_others k t.rows == 0
      then (err last_superadmin, t)
      else (ok tt, record t { rows = delete_where k t.rows }))
  unfolding delete_user remove guard_last_superadmin rows_affected_check
  delete_user_result =
      rw (delete_user, run_guarded)
        (ground (
          arith,
          up count_superadmins,
          up delete,
          up rows_affected,
          affected-of-found k t.rows r found,
        ))

  -- On an existing user, while the driver works: a change to a known role, a disabling or enabling
  -- and a deletion are refused, with nothing changed, exactly where they would take the superadmin
  -- role, or the login, from a superadmin beside whom no other one can log in; otherwise they go
  -- through and write exactly the rows with that id.
  pub guarded_results :
      (role : Role) (b : Bool)
      → valid role ≡ true
      → (set_role env k role t ≡ (
          if r.role == superadmin && not (role == superadmin) && count_others k t.rows == 0
          then (err last_superadmin, t)
          else (ok tt, record t { rows = update_where k (with_role env role) t.rows })))
        × (set_disabled env k b t ≡ (
            if b && r.role == superadmin && count_others k t.rows == 0
            then (err last_superadmin, t)
            else (ok tt, record t { rows = update_where k (with_disabled env b) t.rows })))
        × (delete_user env k t ≡ (
            if r.role == superadmin && count_others k t.rows == 0
            then (err last_superadmin, t)
            else (ok tt, record t { rows = delete_where k t.rows })))
  guarded_results role b known =
      (set_role_result role known, set_disabled_result b, delete_user_result)

-- Reading a row back after an update and after a deletion: the row with that id is changed, or is
-- gone, and every other one is as it was.
pub by_id-update :
    (k j : ℕ) (f : Row → Row) (rs : List Row)
    → ((r : Row) → (f r).id ≡ r.id)
    → by_id j (update_where k f rs) ≡ (if k == j then Option.map f (by_id j rs) else by_id j rs)
unfolding by_id update_where
by_id-update k j f [] same = ground arith
by_id-update k j f (x ∷ rs) same = ground (arith, same x, by_id-update k j f rs same)

pub by_id-delete :
    (k j : ℕ) (rs : List Row) → by_id j (delete_where k rs) ≡ (if k == j then none else by_id j rs)
unfolding by_id delete_where
by_id-delete k j [] = ground arith
by_id-delete k j (x ∷ rs) = ground (arith, by_id-delete k j rs)
