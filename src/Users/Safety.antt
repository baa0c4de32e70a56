-- ===== src/Users/Safety.antt =====
-- The calls of the repository as a whole: whatever sequence of them runs, with whatever failures of
-- the driver, the table stays valid and a superadmin who can log in remains.
use step_ui_ng.Base.{
  ℕ, ◌<◌, String, ◌≡◌, refl, Bool, true, false, some, List, [], ◌∷◌, arith, eq_iff, inl, inr, ◌==◌,
  nat_eq, string_eq, Bool-cases, Result, ok, Result-cases, ◌⊎◌, Option, none, err,
}
use step_ui_ng.Users.Role.{Role, superadmin, valid}
use step_ui_ng.Users.Table.{
  Row, Table, by_id, update_where, superadmins, is_enabled_superadmin, count_others,
}
use step_ui_ng.Users.Repo.{
  Env, Error, create, create_first, set_role, set_disabled, delete_user, guarded_mutate,
  prepare_create, exec_insert, first_insert, load_then, change_role, change_disabled, remove,
}
use step_ui_ng.Users.Transaction.{
  in_tx_holds, first_insert-eq-ok, load_then-eq-ok, with_role, with_disabled, remove-eq-ok,
  change_role-eq-ok, change_disabled-eq-ok,
}
use step_ui_ng.Users.Invariant.{
  IsRow, IsValid, update-IsRows, delete-IsRows, count_others-le-update, count_others-le-delete,
  superadmins-le-update, superadmins-le-append, count_others-eq-superadmins,
}
use step_ui_ng.Users.Insertion.{prepare_create-eq-ok, exec_insert-eq-ok, inserted-IsValid, new_row}

-- The writing calls.
pub data Call : Type 0 where
  creates : String → String → Role → Call
  creates_first : String → String → Call
  sets_role : ℕ → Role → Call
  sets_disabled : ℕ → Bool → Call
  deletes : ℕ → Call

unfoldable pub run : Env → Call → Table → Table
run env (creates u p r) t = (create env u p r t).1
run env (creates_first u p) t = (create_first env u p t).1
run env (sets_role k r) t = (set_role env k r t).1
run env (sets_disabled k b) t = (set_disabled env k b t).1
run env (deletes k) t = (delete_user env k t).1

abbrev pub error_of {ℓ} : {A : Type ℓ} → Result Error A → Option Error
error_of (ok _) = none
error_of (err e) = some e

-- What the same call reports.
unfoldable pub report : Env → Call → Table → Option Error
report env (creates u p r) t = error_of (create env u p r t).0
report env (creates_first u p) t = error_of (create_first env u p t).0
report env (sets_role k r) t = error_of (set_role env k r t).0
report env (sets_disabled k b) t = error_of (set_disabled env k b t).0
report env (deletes k) t = error_of (delete_user env k t).0

-- Each call with what it meets.
unfoldable pub run_all : List (Env × Call) → Table → Table
run_all [] t = t
run_all ((env, c) ∷ cs) t = run_all cs (run env c t)

-- The table is valid, and no fewer than one superadmin remains if there was one.
pub record IsSafe (before after : Table) : Type 0 where
  pub is_valid : IsValid after
  pub kept : 0 < superadmins before.rows → 0 < superadmins after.rows

same_IsSafe : (t : Table) → IsValid t → IsSafe t t
same_IsSafe t h = record { is_valid = h; kept = λ p. p }

-- What a creation leaves behind: the table as it was, or the prepared row appended.
module _ (env : Env) (t : Table) (h : IsValid t) where
  inserted-IsSafe :
      (u p : String) (role : Role) (name hash : String) (r : Role) (id : ℕ) (t' : Table)
      → prepare_create env u p role ≡ ok (name, hash, r)
      → exec_insert env name hash r t ≡ ok (id, t')
      → IsSafe t t'
  inserted-IsSafe u p role name hash r id t' e x =
      let (_, _, whole) = exec_insert-eq-ok env name hash r t id t' x in
      record {
        is_valid = inserted-IsValid env u p role name hash r t id t' h e x;
        kept = λ some_admin.
            rw whole (omega (arith, superadmins-le-append t.rows (new_row env name hash r t)));
      }

  create-IsSafe : (u p : String) (r : Role) → IsSafe t (create env u p r t).1
  unfolding create
  create-IsSafe u p r = elim (Result-cases (prepare_create env u p r)) [
    | inl (_, e) ↦ rw (e, create) (same_IsSafe t h)
    | inr ((name, hash, r'), e) ↦ elim (Result-cases (exec_insert env name hash r' t)) [
      | inl (_, x) ↦ rw (e, create, x) (same_IsSafe t h)
      | inr ((id, t'), x) ↦ rw (e, create, x) (inserted-IsSafe u p r name hash r' id t' e x)
    ]
  ]

  pub create_first-IsSafe : (u p : String) → IsSafe t (create_first env u p t).1
  unfolding create_first
  create_first-IsSafe u p = elim (Result-cases (prepare_create env u p superadmin)) [
    | inl (_, e) ↦ rw (e, create_first) (same_IsSafe t h)
    | inr ((name, hash, r), e) ↦
        let (_, _, _, _, role) = prepare_create-eq-ok env u p superadmin name hash r e in
        rw (e, create_first)
          (in_tx_holds env (IsSafe t) (first_insert env name hash) t (same_IsSafe t h)
            (λ user t' done.
              let (id, x, _) = first_insert-eq-ok env name hash t user t' done in
              inserted-IsSafe u p superadmin name hash superadmin id t' (rw role at e) x))
  ]

  guarded-IsSafe :
      (k : ℕ) (fn : Table → Role → Result Error Table)
      → ((r : Row) (t' : Table) → by_id k t.rows ≡ some r → fn t r.role ≡ ok t' → IsSafe t t')
      → IsSafe t (guarded_mutate env k fn t).1
  unfolding guarded_mutate
  guarded-IsSafe k fn good =
      in_tx_holds env (IsSafe t) (load_then env k fn) t (same_IsSafe t h) (λ _ t' done.
        let (r, found, ran) = load_then-eq-ok env k fn t t' done in good r t' found ran)

  -- A write of one column keeps the invariant, and a superadmin if another one is there or if it
  -- turns no superadmin that can log in into something else.
  updated-IsSafe :
      (k : ℕ) (f : Row → Row)
      → ((r : Row) → (f r).username ≡ r.username)
      → ((r : Row) → (f r).id ≡ r.id)
      → ((r : Row) → IsRow r → IsRow (f r))
      → (0 < superadmins t.rows → 0 < count_others k t.rows)
        ⊎ ((r : Row) → is_enabled_superadmin r ≡ true → is_enabled_superadmin (f r) ≡ true)
      → IsSafe t (record t { rows = update_where k f t.rows })
  updated-IsSafe k f same same_id good (inl others) = record {
    is_valid = update-IsRows k f same same_id good 0 t.seq t.rows h;
    kept = λ p. omega (arith, others p, count_others-le-update k f t.rows);
  }
  updated-IsSafe k f same same_id good (inr keeps) = record {
    is_valid = update-IsRows k f same same_id good 0 t.seq t.rows h;
    kept = λ p. omega (arith, superadmins-le-update k f keeps t.rows);
  }

  -- Every other superadmin stays one where the row found is none.
  others_of_found :
      (k : ℕ) (r : Row)
      → by_id k t.rows ≡ some r
      → (r.role ≡ superadmin → 0 < count_others k t.rows)
      → 0 < superadmins t.rows
      → 0 < count_others k t.rows
  others_of_found k r found guard p = elim (Bool-cases (r.role == superadmin)) [
    | inl was ↦ guard ((eq_iff r.role superadmin).0 was)
    | inr other ↦
        let none_there : is_enabled_superadmin r ≡ false = rw other in
        rw (count_others-eq-superadmins k 0 t.seq t.rows h found none_there) p
  ]

  set_role-IsSafe : (k : ℕ) (role : Role) → IsSafe t (set_role env k role t).1
  unfolding set_role
  set_role-IsSafe k role = elim (Bool-cases (valid role)) [
    | inr bad ↦ rw (bad, set_role) (same_IsSafe t h)
    | inl known ↦
        rw (known, set_role)
          (guarded-IsSafe k (change_role env k role) (λ r t' found ran.
            let (whole, _, guard) = change_role-eq-ok env k role t r.role t' ran in
            rw whole (
              updated-IsSafe k (with_role env role) (λ _. refl) (λ _. refl) (with_role-IsRow known)
                (elim (Bool-cases (role == superadmin)) [
                  | inl up ↦ inr (with_role-keeps ((eq_iff role superadmin).0 up))
                  | inr down ↦ inl (
                      others_of_found k r found
                        (λ was. guard was (λ same. cc ((eq_iff role superadmin).1 same))))
                ]))))
  ]
    where
      with_role-IsRow : valid role ≡ true → (r : Row) → IsRow r → IsRow (with_role env role r)
      with_role-IsRow known r p = record {
        known_role = known;
        trimmed = p.trimmed;
        not_short = p.not_short;
        not_long = p.not_long;
      }

      with_role-keeps :
          role ≡ superadmin
          → (r : Row) → is_enabled_superadmin r ≡ true
          → is_enabled_superadmin (with_role env role r) ≡ true
      with_role-keeps up r e = ground (arith, eq_iff role superadmin)

  set_disabled-IsSafe : (k : ℕ) (b : Bool) → IsSafe t (set_disabled env k b t).1
  unfolding set_disabled
  set_disabled-IsSafe k b = guarded-IsSafe k (change_disabled env k b) (λ r t' found ran.
      let (whole, _, guard) = change_disabled-eq-ok env k b t r.role t' ran in
      rw whole (
        updated-IsSafe k (with_disabled env b) (λ _. refl) (λ _. refl) with_disabled-IsRow
          (elim (Bool-cases b) [
            | inl off ↦ inl (others_of_found k r found (λ was. guard was off))
            | inr on ↦ inr (with_disabled-keeps on)
          ])))
    where
      with_disabled-IsRow : (r : Row) → IsRow r → IsRow (with_disabled env b r)
      with_disabled-IsRow r p = record {
        known_role = p.known_role;
        trimmed = p.trimmed;
        not_short = p.not_short;
        not_long = p.not_long;
      }

      with_disabled-keeps :
          b ≡ false
          → (r : Row) → is_enabled_superadmin r ≡ true
          → is_enabled_superadmin (with_disabled env b r) ≡ true
      with_disabled-keeps on r e = ground arith

  delete_user-IsSafe : (k : ℕ) → IsSafe t (delete_user env k t).1
  unfolding delete_user
  delete_user-IsSafe k = guarded-IsSafe k (remove env k) (λ r t' found ran.
      let (whole, _, guard) = remove-eq-ok env k t r.role t' ran in
      rw whole (record {
        is_valid = delete-IsRows k 0 t.seq t.rows h;
        kept =
            λ p. omega (arith, others_of_found k r found guard p, count_others-le-delete k t.rows);
      }))

  run-IsSafe : (c : Call) → IsSafe t (run env c t)
  unfolding run
  run-IsSafe (creates u p r) = create-IsSafe u p r
  run-IsSafe (creates_first u p) = create_first-IsSafe u p
  run-IsSafe (sets_role k r) = set_role-IsSafe k r
  run-IsSafe (sets_disabled k b) = set_disabled-IsSafe k b
  run-IsSafe (deletes k) = delete_user-IsSafe k

pub run_all-IsSafe : (cs : List (Env × Call)) (t : Table) → IsValid t → IsSafe t (run_all cs t)
unfolding run_all
run_all-IsSafe [] t h = same_IsSafe t h
run_all-IsSafe ((env, c) ∷ cs) t h =
    let one = run-IsSafe env t h c in
    let rest = run_all-IsSafe cs (run env c t) one.is_valid in
    record { is_valid = rest.is_valid; kept = λ p. rest.kept (one.kept p) }

-- Whatever writing calls run on a valid table, in whatever order and with whatever failures of the
-- driver, the table is valid afterwards: the ids grow, no username occurs twice, every role is
-- known, and every username is trimmed and within its bounds.
pub run_all-IsValid : (cs : List (Env × Call)) (t : Table) → IsValid t → IsValid (run_all cs t)
run_all-IsValid cs t h = (run_all-IsSafe cs t h).is_valid

-- Whatever writing calls run on a valid table with a superadmin who can log in, in whatever order
-- and with whatever failures of the driver, a superadmin can log in afterwards.
pub superadmins-run_all :
    (cs : List (Env × Call)) (t : Table)
    → IsValid t
    → 0 < superadmins t.rows
    → 0 < superadmins (run_all cs t).rows
superadmins-run_all cs t h p = (run_all-IsSafe cs t h).kept p
