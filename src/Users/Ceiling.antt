-- ===== src/Users/Ceiling.antt =====
-- What the writing operations leave of the superadmins' accounts when neither the account that they
-- are about nor the role that they give is a superadmin's.
use step_ui_ng.Base.{
  List, ℕ, keep, ◌≢◌, ◌==◌, ◌≤◌, ◌≡◌, String, some, ◌∷◌, ◌++◌, arith, Bool-cases, Result-cases,
  string_eq, [], Result, Bool, inl, eq_iff, false, inr, refl, ok, nat_eq,
}
use step_ui_ng.Users.Table.{update_where, delete_where, Row, by_id, Table}
use step_ui_ng.Users.Repo.{
  Env, create, guarded_mutate, set_role, set_disabled, delete_user, prepare_create, remove, Error,
  change_disabled, exec_insert, change_role, load_then,
}
use step_ui_ng.Users.Invariant.{IsRows, IsValid}
use step_ui_ng.Users.Role.{superadmin, Role, valid}
use step_ui_ng.Users.Transaction.{
  remove-eq-ok, change_disabled-eq-ok, in_tx_holds, change_role-eq-ok, with_disabled, with_role,
  load_then-eq-ok,
}
use step_ui_ng.Users.Insertion.{prepare_create-eq-ok, exec_insert-eq-ok, new_row}

unfoldable pub superadmin_rows : List Row → List Row
superadmin_rows rs = keep (λ (r : Row). r.role == superadmin) rs

superadmin_rows-append :
    (rs : List Row) (r : Row)
    → r.role ≢ superadmin
    → superadmin_rows (rs ++ r ∷ []) ≡ superadmin_rows rs
unfolding superadmin_rows
superadmin_rows-append [] r ne = ground (arith, eq_iff r.role superadmin)
superadmin_rows-append (x ∷ rs) r ne = ground (arith, superadmin_rows-append rs r ne)

update-absent :
    (k : ℕ) (f : Row → Row) (lo hi : ℕ) (rs : List Row)
    → IsRows lo hi rs
    → k ≤ lo
    → update_where k f rs ≡ rs
unfolding update_where
update-absent k f lo hi [] h le = refl
update-absent k f lo hi (x ∷ rs) (l, u, n, p, h) le = ground (arith, update-absent k f x.id hi rs h)

delete-absent : (k lo hi : ℕ) (rs : List Row) → IsRows lo hi rs → k ≤ lo → delete_where k rs ≡ rs
unfolding delete_where
delete-absent k lo hi [] h le = refl
delete-absent k lo hi (x ∷ rs) (l, u, n, p, h) le = ground (arith, delete-absent k x.id hi rs h)

superadmin_rows-update :
    (k : ℕ) (f : Row → Row) (lo hi : ℕ) (rs : List Row) (r : Row)
    → IsRows lo hi rs
    → by_id k rs ≡ some r
    → r.role ≢ superadmin
    → (f r).role ≢ superadmin
    → superadmin_rows (update_where k f rs) ≡ superadmin_rows rs
unfolding superadmin_rows update_where by_id
superadmin_rows-update k f lo hi [] r h e ne ne' = refl
superadmin_rows-update k f lo hi (x ∷ rs) r (l, u, n, p, h) e ne ne' =
    elim (Bool-cases (x.id == k)) [
      | inl here ↦
          let same : x ≡ r = ground arith in
          let rest = update-absent k f x.id hi rs h (ground arith) in
          let old : (x.role == superadmin) ≡ false =
            rw same (ground (arith, eq_iff r.role superadmin)) in
          let new : ((f x).role == superadmin) ≡ false =
            rw same (ground (arith, eq_iff (f r).role superadmin)) in
          rw (here, old, new, rest)
      | inr later ↦
          let ih = superadmin_rows-update k f x.id hi rs r h (rw later at e) ne ne' in
          ground (arith, ih)
    ]

superadmin_rows-delete :
    (k lo hi : ℕ) (rs : List Row) (r : Row)
    → IsRows lo hi rs
    → by_id k rs ≡ some r
    → r.role ≢ superadmin
    → superadmin_rows (delete_where k rs) ≡ superadmin_rows rs
unfolding superadmin_rows delete_where by_id
superadmin_rows-delete k lo hi [] r h e ne = refl
superadmin_rows-delete k lo hi (x ∷ rs) r (l, u, n, p, h) e ne = elim (Bool-cases (x.id == k)) [
  | inl here ↦
      let same : x ≡ r = ground arith in
      let rest = delete-absent k x.id hi rs h (ground arith) in
      let old : (x.role == superadmin) ≡ false =
        rw same (ground (arith, eq_iff r.role superadmin)) in
      rw (here, old, rest)
  | inr later ↦
      let ih = superadmin_rows-delete k x.id hi rs r h (rw later at e) ne in ground (arith, ih)
]

module _ (env : Env) (t : Table) where
  pub create-superadmin_rows :
      (u p : String) (role : Role)
      → role ≢ superadmin
      → superadmin_rows (create env u p role t).1.rows ≡ superadmin_rows t.rows
  unfolding create
  create-superadmin_rows u p role ne = elim (Result-cases (prepare_create env u p role)) [
    | inl (_, e) ↦ rw (e, create)
    | inr ((name, hash, r'), e) ↦ elim (Result-cases (exec_insert env name hash r' t)) [
      | inl (_, x) ↦ rw (e, create, x)
      | inr ((id, t'), x) ↦
          let (_, _, _, _, same) = prepare_create-eq-ok env u p role name hash r' e in
          let (_, _, whole) = exec_insert-eq-ok env name hash r' t id t' x in
          rw (e, create, x, whole)
            (superadmin_rows-append t.rows (new_row env name hash r' t) (rw same ne))
    ]
  ]

  module _ (h : IsValid t) (k : ℕ) (r : Row) (found : by_id k t.rows ≡ some r)
      (low : r.role ≢ superadmin) where
    guarded-superadmin_rows :
        (fn : Table → Role → Result Error Table)
        → ((t' : Table) → fn t r.role ≡ ok t' → superadmin_rows t'.rows ≡ superadmin_rows t.rows)
        → superadmin_rows (guarded_mutate env k fn t).1.rows ≡ superadmin_rows t.rows
    unfolding guarded_mutate
    guarded-superadmin_rows fn good =
        in_tx_holds env (λ t'. superadmin_rows t'.rows ≡ superadmin_rows t.rows)
          (load_then env k fn) t refl
          (λ _ t' done.
            let (r', found', ran) = load_then-eq-ok env k fn t t' done in
            let same : r' ≡ r = ground (arith, found, found') in good t' (rw same at ran))

    pub set_role-superadmin_rows :
        (role : Role)
        → role ≢ superadmin
        → superadmin_rows (set_role env k role t).1.rows ≡ superadmin_rows t.rows
    unfolding set_role
    set_role-superadmin_rows role ne = elim (Bool-cases (valid role)) [
      | inr bad ↦ rw (bad, set_role)
      | inl known ↦
          rw (known, set_role)
            (guarded-superadmin_rows (change_role env k role) (λ t' ran.
              let (whole, _, _) = change_role-eq-ok env k role t r.role t' ran in
              rw whole
                (superadmin_rows-update k (with_role env role) 0 t.seq t.rows r h found low ne)))
    ]

    pub set_disabled-superadmin_rows :
        (b : Bool) → superadmin_rows (set_disabled env k b t).1.rows ≡ superadmin_rows t.rows
    unfolding set_disabled
    set_disabled-superadmin_rows b = guarded-superadmin_rows (change_disabled env k b) (λ t' ran.
        let (whole, _, _) = change_disabled-eq-ok env k b t r.role t' ran in
        rw whole (superadmin_rows-update k (with_disabled env b) 0 t.seq t.rows r h found low low))

    pub delete_user-superadmin_rows :
        superadmin_rows (delete_user env k t).1.rows ≡ superadmin_rows t.rows
    unfolding delete_user
    delete_user-superadmin_rows = guarded-superadmin_rows (remove env k) (λ t' ran.
        let (whole, _, _) = remove-eq-ok env k t r.role t' ran in
        rw whole (superadmin_rows-delete k 0 t.seq t.rows r h found low))
