-- ===== src/Users/Repo.antt =====
-- internal/users/users.go: the repository's operations over the table. A statement that the driver
-- fails is a site at which the environment says so; the operations report it as `internal`.
use Prim.Native.String.{len}
use step_ui_ng.Base.{
  ℕ, String, Bool, true, false, not, ◌&&◌, ◌||◌, Option, none, some, List, [], ◌∷◌, map, ltb, ◌==◌,
  nat_eq, string_eq, if◌then◌else◌, length, Result, ok, err, ◌>>=◌, ◌>>◌, fail_if, only_if,
}
use step_ui_ng.Base.Text.{trim_space}
use step_ui_ng.Users.Role.{Role, superadmin, valid}
use step_ui_ng.Users.Table.{
  Row, User, scan, Table, by_id, by_username, update_where, delete_where, affected, count_others,
  SqlError, constraint_unique, constraint_primarykey, other, insert_row,
}

-- The calls of the driver and of argon2id that can fail.
pub data Site : Type 0 where
  begin_tx commit count insert last_insert_id lookup list get load_role count_superadmins update
        delete rows_affected hash_password compare :
      Site

pub data Error : Type 0 where
  invalid_credentials user_disabled weak_password invalid_role invalid_username username_taken
        last_superadmin user_not_found setup_complete :
      Error
  internal : Site → Error

-- What one call meets outside of the source: which driver calls fail, argon2id (with the salts of
-- this call) and the clock.
pub record Env : Type 0 where
  pub fails : Site → Bool
  pub create_hash : String → Option String
  pub compare_hash : String → String → Option Bool
  pub dummy_hash : String
  pub now : ℕ

abbrev pub min_password_len : ℕ
min_password_len = 12

abbrev pub min_username_len : ℕ
min_username_len = 3

abbrev pub max_username_len : ℕ
max_username_len = 64

abbrev or_fail {ℓ} : {A : Type ℓ} → Option A → Error → Result Error A
or_fail none e = err e
or_fail (some a) e = ok a

-- `normalizeUsername`
unfoldable pub normalize_username : String → Result Error String
normalize_username username =
    let name = trim_space username in
    if ltb (len name) min_username_len || ltb max_username_len (len name)
    then err invalid_username
    else ok name

-- `isUniqueViolation`
abbrev is_unique_violation : SqlError → Bool
is_unique_violation constraint_unique = true
is_unique_violation constraint_primarykey = true
is_unique_violation other = false

-- The transaction of `BeginTx`, `Commit` and the deferred `Rollback`.
abbrev settle {ℓ} : {A : Type ℓ} → Table → Result Error (A × Table) → Result Error A × Table
settle t (ok (a, t')) = (ok a, t')
settle t (err e) = (err e, t)

module _ (env : Env) where
  abbrev at : Site → Result Error (Unit {0})
  at s = fail_if (env.fails s) (internal s)

  -- `Count`
  unfoldable pub count_users : Table → Result Error ℕ
  count_users t = do at count; ok (length t.rows)

  -- `prepareCreate`
  unfoldable pub prepare_create : String → String → Role → Result Error (String × String × Role)
  prepare_create username password role = do
    name ← normalize_username username
    fail_if (not (valid role)) invalid_role
    fail_if (ltb (len password) min_password_len) weak_password
    hash ← or_fail (env.create_hash password) (internal hash_password)
    ok (name, hash, role)

  -- `builtUser`
  unfoldable pub built_user : ℕ → String → Role → ℕ → Result Error User
  built_user id name role ts = do
    at last_insert_id
    ok (record {
      id = id;
      username = name;
      role = role;
      disabled = false;
      created_at = ts;
      updated_at = ts;
    })

  -- `ExecContext` with the INSERT, and the mapping of its error.
  unfoldable pub exec_insert : String → String → Role → Table → Result Error (ℕ × Table)
  exec_insert name hash role t =
      elim (if env.fails insert then err other else insert_row name hash role env.now t) [
        | ok r ↦ ok r
        | err e ↦ err (if is_unique_violation e then username_taken else internal insert)
      ]

  -- `Create`: the row stays when only reading its id back fails.
  unfoldable pub create : String → String → Role → Table → Result Error User × Table
  create username password role t = elim (prepare_create username password role) [
    | err e ↦ (err e, t)
    | ok (name, hash, r) ↦ elim (exec_insert name hash r t) [
      | err e ↦ (err e, t)
      | ok (id, t') ↦ (built_user id name r env.now, t')
    ]
  ]

  unfoldable pub in_tx {ℓ} :
      {A : Type ℓ} → (Table → Result Error (A × Table)) → Table → Result Error A × Table
  in_tx body t = settle t (do at begin_tx; r ← body t; at commit; ok r)

  -- What `CreateFirst` does inside of its transaction.
  unfoldable pub first_insert : String → String → Table → Result Error (User × Table)
  first_insert name hash t = do
    n ← count_users t
    fail_if (ltb 0 n) setup_complete
    (id, t') ← exec_insert name hash superadmin t
    u ← built_user id name superadmin env.now
    ok (u, t')

  -- `CreateFirst`
  unfoldable pub create_first : String → String → Table → Result Error User × Table
  create_first username password t = elim (prepare_create username password superadmin) [
    | err e ↦ (err e, t)
    | ok (name, hash, _) ↦ in_tx (first_insert name hash) t
  ]

  -- `Authenticate`, with the hashes that the password was compared with.
  unfoldable pub authenticate : String → String → Table → Result Error User × List String
  authenticate username password t =
      if env.fails lookup
      then (err (internal lookup), [])
      else elim (by_username (trim_space username) t.rows) [
        | none ↦ (err invalid_credentials, env.dummy_hash ∷ [])
        | some r ↦ (
          do
            match ← or_fail (env.compare_hash password r.password_hash) (internal compare)
            fail_if (not match) invalid_credentials
            fail_if r.disabled user_disabled
            ok (scan r),
          r.password_hash ∷ [],
        )
      ]

  -- `List`
  unfoldable pub list_users : Table → Result Error (List User)
  list_users t = do at list; ok (map scan t.rows)

  -- `GetByID`
  unfoldable pub get_by_id : ℕ → Table → Result Error User
  get_by_id id t = do at get; r ← or_fail (by_id id t.rows) user_not_found; ok (scan r)

  -- `guardLastSuperadminTx`
  unfoldable pub guard_last_superadmin : ℕ → Table → Result Error (Unit {0})
  guard_last_superadmin id t = do
    at count_superadmins
    fail_if (count_others id t.rows == 0) last_superadmin

  -- `rowsAffected`
  unfoldable pub rows_affected_check : ℕ → Result Error (Unit {0})
  rows_affected_check n = do at rows_affected; fail_if (n == 0) user_not_found

  -- `updateTx`: `set` writes the one column.
  unfoldable pub update_tx : ℕ → (Row → Row) → Table → Result Error Table
  update_tx id set t = do
    at update
    rows_affected_check (affected id t.rows)
    ok (record t { rows = update_where id (λ r. record (set r) { updated_at = env.now }) t.rows })

  -- What `guardedMutate` runs inside of its transaction.
  unfoldable pub load_then :
      ℕ → (Table → Role → Result Error Table) → Table → Result Error (Unit {0} × Table)
  load_then id fn t = do
    at load_role
    r ← or_fail (by_id id t.rows) user_not_found
    t' ← fn t r.role
    ok (tt, t')

  -- `guardedMutate`
  unfoldable pub guarded_mutate :
      ℕ → (Table → Role → Result Error Table) → Table → Result Error (Unit {0}) × Table
  guarded_mutate id fn = in_tx (load_then id fn)

  -- The function that `SetRole` hands to `guardedMutate`.
  unfoldable pub change_role : ℕ → Role → Table → Role → Result Error Table
  change_role id role t current = do
    only_if (current == superadmin && not (role == superadmin)) (guard_last_superadmin id t)
    update_tx id (λ r. record r { role = role }) t

  -- `SetRole`
  unfoldable pub set_role : ℕ → Role → Table → Result Error (Unit {0}) × Table
  set_role id role t =
      if not (valid role) then (err invalid_role, t) else guarded_mutate id (change_role id role) t

  -- The function that `SetDisabled` hands to `guardedMutate`.
  unfoldable pub change_disabled : ℕ → Bool → Table → Role → Result Error Table
  change_disabled id disabled t current = do
    only_if (disabled && current == superadmin) (guard_last_superadmin id t)
    update_tx id (λ r. record r { disabled = disabled }) t

  -- `SetDisabled`
  unfoldable pub set_disabled : ℕ → Bool → Table → Result Error (Unit {0}) × Table
  set_disabled id disabled = guarded_mutate id (change_disabled id disabled)

  -- The function that `Delete` hands to `guardedMutate`.
  unfoldable pub remove : ℕ → Table → Role → Result Error Table
  remove id t current = do
    only_if (current == superadmin) (guard_last_superadmin id t)
    at delete
    rows_affected_check (affected id t.rows)
    ok (record t { rows = delete_where id t.rows })

  -- `Delete`
  unfoldable pub delete_user : ℕ → Table → Result Error (Unit {0}) × Table
  delete_user id = guarded_mutate id (remove id)
