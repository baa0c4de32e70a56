-- ===== src/Users/Transaction.antt =====
-- The transaction, and the bodies of the source's transactions when they complete.
use step_ui_ng.Base.{
  ℕ, String, ◌≡◌, ◌≢◌, Bool, true, some, arith, eq_iff, ◌<◌, inl, inr, Bool-cases, Option-cases,
  Result, ok, err, Result-cases, length,
}
use step_ui_ng.Users.Role.{Role, superadmin}
use step_ui_ng.Users.Table.{
  Row, User, Table, by_id, update_where, delete_where, affected, count_others,
}
use step_ui_ng.Users.Repo.{
  Env, Error, in_tx, first_insert, load_then, exec_insert, count_users, begin_tx, commit,
  change_role, change_disabled, remove, update_tx, guard_last_superadmin, rows_affected_check,
}

module _ (env : Env) where
  pub in_tx_holds {ℓ κ} :
      {A : Type ℓ} (P : Table → Type κ) (body : Table → Result Error (A × Table)) (t : Table)
      → P t
      → ((a : A) (t' : Table) → body t ≡ ok (a, t') → P t')
      → P (in_tx env body t).1
  unfolding in_tx
  in_tx_holds P body t before after = elim (Bool-cases (env.fails begin_tx)) [
    | inl e ↦ rw (e, in_tx) before
    | inr e ↦ elim (Result-cases (body t)) [
      | inl (_, f) ↦ rw (e, f, in_tx) before
      | inr ((a, t'), f) ↦ elim (Bool-cases (env.fails commit)) [
        | inl g ↦ rw (e, f, g, in_tx) before
        | inr g ↦ rw (e, f, g, in_tx) (after a t' f)
      ]
    ]
  ]

  -- A transaction that reports an error has left the table as it was.
  pub in_tx-err {ℓ} :
      {A : Type ℓ} (body : Table → Result Error (A × Table)) (t : Table) (e : Error)
      → (in_tx env body t).0 ≡ err e
      → (in_tx env body t).1 ≡ t
  unfolding in_tx
  in_tx-err body t e h = ground arith

  pub in_tx-eq-ok {ℓ} :
      {A : Type ℓ} (body : Table → Result Error (A × Table)) (t : Table) (a : A)
      → (in_tx env body t).0 ≡ ok a
      → body t ≡ ok (a, (in_tx env body t).1)
  unfolding in_tx
  in_tx-eq-ok body t a h = ground arith

  -- The first user is inserted into an empty table only.
  pub first_insert-eq-ok :
      (name hash : String) (t : Table) (u : User) (t' : Table)
      → first_insert env name hash t ≡ ok (u, t')
      → (id : ℕ) × (exec_insert env name hash superadmin t ≡ ok (id, t')) × (length t.rows ≡ 0)
  unfolding first_insert count_users
  first_insert-eq-ok name hash t u t' h =
      elim (Result-cases (exec_insert env name hash superadmin t)) [
        | inl (e, x) ↦ absurd (ground arith)
        | inr ((id, t''), x) ↦ (id, ground arith, ground arith)
      ]

  pub load_then-eq-ok :
      (k : ℕ) (fn : Table → Role → Result Error Table) (t t' : Table)
      → load_then env k fn t ≡ ok (tt, t')
      → (r : Row) × (by_id k t.rows ≡ some r) × (fn t r.role ≡ ok t')
  unfolding load_then
  load_then-eq-ok k fn t t' h = elim (Option-cases (by_id k t.rows)) [
    | inl missing ↦ absurd (ground arith)
    | inr (r, found) ↦ elim (Result-cases (fn t r.role)) [
      | inl (e, x) ↦ absurd (ground arith)
      | inr (t'', x) ↦ (r, found, ground arith)
    ]
  ]

  -- The one column that an operation writes, with the time.
  abbrev pub stamp : (Row → Row) → Row → Row
  stamp set r = record (set r) { updated_at = env.now }

  abbrev pub with_role : Role → Row → Row
  with_role role = stamp (λ r. record r { role = role })

  abbrev pub with_disabled : Bool → Row → Row
  with_disabled b = stamp (λ r. record r { disabled = b })

  -- A role change that goes through has written that row, and has left another superadmin where it
  -- took the role away.
  pub change_role-eq-ok :
      (k : ℕ) (role : Role) (t : Table) (current : Role) (t' : Table)
      → change_role env k role t current ≡ ok t'
      → (t' ≡ record t { rows = update_where k (with_role role) t.rows })
        × (0 < affected k t.rows)
        × (current ≡ superadmin → role ≢ superadmin → 0 < count_others k t.rows)
  unfolding change_role update_tx guard_last_superadmin rows_affected_check
  change_role-eq-ok k role t current t' h = (
    ground (arith, eq_iff current superadmin, eq_iff role superadmin),
    ground (arith, eq_iff current superadmin, eq_iff role superadmin),
    λ was now_other. ground (arith, eq_iff current superadmin, eq_iff role superadmin),
  )

  pub change_disabled-eq-ok :
      (k : ℕ) (b : Bool) (t : Table) (current : Role) (t' : Table)
      → change_disabled env k b t current ≡ ok t'
      → (t' ≡ record t { rows = update_where k (with_disabled b) t.rows })
        × (0 < affected k t.rows)
        × (current ≡ superadmin → b ≡ true → 0 < count_others k t.rows)
  unfolding change_disabled update_tx guard_last_superadmin rows_affected_check
  change_disabled-eq-ok k b t current t' h = (
    ground (arith, eq_iff current superadmin),
    ground (arith, eq_iff current superadmin),
    λ was off. ground (arith, eq_iff current superadmin),
  )

  pub remove-eq-ok :
      (k : ℕ) (t : Table) (current : Role) (t' : Table)
      → remove env k t current ≡ ok t'
      → (t' ≡ record t { rows = delete_where k t.rows })
        × (0 < affected k t.rows)
        × (current ≡ superadmin → 0 < count_others k t.rows)
  unfolding remove guard_last_superadmin rows_affected_check
  remove-eq-ok k t current t' h = (
    ground (arith, eq_iff current superadmin),
    ground (arith, eq_iff current superadmin),
    λ was. ground (arith, eq_iff current superadmin),
  )
