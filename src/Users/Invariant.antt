-- ===== src/Users/Invariant.antt =====
-- The invariant of the table `users`, and what each statement does to it and to the number of
-- superadmins that can log in.
use Prim.Native.String.{len}
use step_ui_ng.Base.{
  ℕ, ◌+◌, ◌≤◌, ◌<◌, String, ◌≡◌, refl, true, false, none, some, List, [], ◌∷◌, ◌++◌, arith, eq_iff,
  inl, inr, ◌==◌, nat_eq, string_eq, ◌≢◌, Bool-cases,
}
use step_ui_ng.Base.Text.{trim_space}
use step_ui_ng.Users.Role.{valid, superadmin}
use step_ui_ng.Users.Table.{
  Row, Table, by_id, by_username, update_where, delete_where, affected, count_others, superadmins,
  is_enabled_superadmin,
}
use step_ui_ng.Users.Repo.{min_username_len, max_username_len}

-- What holds of each row: a known role, and a trimmed username within the bounds.
pub record IsRow (r : Row) : Type 0 where
  pub known_role : valid r.role ≡ true
  pub trimmed : trim_space r.username ≡ r.username
  pub not_short : min_username_len ≤ len r.username
  pub not_long : len r.username ≤ max_username_len

-- The ids grow and lie in (lo, hi], and no username occurs twice.
abbrev pub IsRows : ℕ → ℕ → List Row → Type 0
IsRows lo hi [] = Unit
IsRows lo hi (r ∷ rs) =
    (lo < r.id) × (r.id ≤ hi) × (by_username r.username rs ≡ none) × IsRow r × IsRows r.id hi rs

abbrev pub IsValid : Table → Type 0
IsValid t = IsRows 0 t.seq t.rows

by_username-append :
    (n : String) (rs : List Row) (r : Row)
    → by_username n rs ≡ none
    → r.username ≢ n
    → by_username n (rs ++ r ∷ []) ≡ none
unfolding by_username
by_username-append n [] r h ne = ground (arith, eq_iff r.username n)
by_username-append n (x ∷ rs) r h ne =
    ground (arith, eq_iff x.username n, by_username-append n rs r)

pub append-IsRows :
    (lo hi : ℕ) (rs : List Row) (r : Row)
    → IsRows lo hi rs
    → lo ≤ hi
    → by_username r.username rs ≡ none
    → r.id ≡ hi + 1
    → IsRow r
    → IsRows lo (hi + 1) (rs ++ r ∷ [])
unfolding by_username
append-IsRows lo hi [] r h le new e ok = (omega arith, omega arith, refl, ok, tt)
append-IsRows lo hi (x ∷ rs) r (l, u, n, k, h) le new e ok = (
  l,
  omega arith,
  by_username-append x.username rs r n (ground (arith, eq_iff x.username r.username)),
  k,
  append-IsRows x.id hi rs r h u (ground (arith, eq_iff x.username r.username)) e ok,
)

change_head :
    (lo hi : ℕ) (x y : Row) (rs : List Row)
    → y.id ≡ x.id
    → y.username ≡ x.username
    → IsRow y
    → IsRows lo hi (x ∷ rs)
    → IsRows lo hi (y ∷ rs)
change_head lo hi x y rs same_id same p (l, u, n, _, h) =
    (omega arith, omega arith, rw same n, p, rw same_id h)

module _ (k : ℕ) (f : Row → Row) where
  by_username-update :
      (same : (r : Row) → (f r).username ≡ r.username) (n : String) (rs : List Row)
      → by_username n rs ≡ none
      → by_username n (update_where k f rs) ≡ none
  unfolding by_username update_where
  by_username-update same n [] h = refl
  by_username-update same n (x ∷ rs) h = ground (arith, same x, by_username-update same n rs)

  pub update-IsRows :
      (same : (r : Row) → (f r).username ≡ r.username) (same_id : (r : Row) → (f r).id ≡ r.id)
      (known : (r : Row) → IsRow r → IsRow (f r)) (lo hi : ℕ) (rs : List Row)
      → IsRows lo hi rs
      → IsRows lo hi (update_where k f rs)
  unfolding update_where
  update-IsRows same same_id known lo hi [] h = tt
  update-IsRows same same_id known lo hi (x ∷ rs) (l, u, n, p, h) =
      let rest = update-IsRows same same_id known x.id hi rs h in
      let new = by_username-update same x.username rs n in
      elim (Bool-cases (x.id == k)) [
        | inl e ↦ rw e (
            change_head lo hi x (f x) (update_where k f rs) (same_id x) (same x) (known x p)
              (l, u, new, p, rest))
        | inr e ↦ rw e (l, u, new, p, rest)
      ]

  pub count_others-le-update :
      (rs : List Row) → count_others k rs ≤ superadmins (update_where k f rs)
  unfolding count_others superadmins update_where
  count_others-le-update [] = omega arith
  count_others-le-update (x ∷ rs) =
      ground (arith, count_others-le-update rs, eq_iff x.role superadmin)

  pub superadmins-le-update :
      (keeps : (r : Row) → is_enabled_superadmin r ≡ true → is_enabled_superadmin (f r) ≡ true)
      (rs : List Row)
      → superadmins rs ≤ superadmins (update_where k f rs)
  unfolding superadmins update_where
  superadmins-le-update keeps [] = omega arith
  superadmins-le-update keeps (x ∷ rs) = ground (arith, keeps x, superadmins-le-update keeps rs)

by_username-delete :
    (k : ℕ) (n : String) (rs : List Row)
    → by_username n rs ≡ none
    → by_username n (delete_where k rs) ≡ none
unfolding by_username delete_where
by_username-delete k n [] h = refl
by_username-delete k n (x ∷ rs) h = ground (arith, by_username-delete k n rs)

IsRows-lower : (lo lo' hi : ℕ) (rs : List Row) → lo' ≤ lo → IsRows lo hi rs → IsRows lo' hi rs
IsRows-lower lo lo' hi [] le h = tt
IsRows-lower lo lo' hi (x ∷ rs) le (l, u, n, p, h) = (omega arith, u, n, p, h)

pub delete-IsRows :
    (k lo hi : ℕ) (rs : List Row) → IsRows lo hi rs → IsRows lo hi (delete_where k rs)
unfolding delete_where
delete-IsRows k lo hi [] h = tt
delete-IsRows k lo hi (x ∷ rs) (l, u, n, p, h) =
    let rest = delete-IsRows k x.id hi rs h in
    elim (Bool-cases (x.id == k)) [
      | inl e ↦ rw e (IsRows-lower x.id lo hi (delete_where k rs) (omega arith) rest)
      | inr e ↦ rw e (l, u, by_username-delete k x.username rs n, p, rest)
    ]

pub count_others-le-delete :
    (k : ℕ) (rs : List Row) → count_others k rs ≤ superadmins (delete_where k rs)
unfolding count_others superadmins delete_where
count_others-le-delete k [] = omega arith
count_others-le-delete k (x ∷ rs) =
    ground (arith, count_others-le-delete k rs, eq_iff x.role superadmin)

pub superadmins-le-append : (rs : List Row) (r : Row) → superadmins rs ≤ superadmins (rs ++ r ∷ [])
unfolding superadmins
superadmins-le-append [] r = omega arith
superadmins-le-append (x ∷ rs) r = ground (arith, superadmins-le-append rs r)

-- Below the least id there is no row: none is found, and no statement touches one.
pub absent :
    (k lo hi : ℕ) (rs : List Row)
    → IsRows lo hi rs
    → k ≤ lo
    → (by_id k rs ≡ none) × (affected k rs ≡ 0) × (count_others k rs ≡ superadmins rs)
unfolding by_id affected count_others superadmins
absent k lo hi [] h le = (refl, refl, refl)
absent k lo hi (x ∷ rs) (l, u, n, p, h) le = ground (arith, absent k x.id hi rs h)

-- Without the row `r` with id k, as many superadmins remain as before, unless `r` is one of them.
pub count_others-eq-superadmins :
    (k lo hi : ℕ) (rs : List Row) {r : Row}
    → IsRows lo hi rs
    → by_id k rs ≡ some r
    → is_enabled_superadmin r ≡ false
    → count_others k rs ≡ superadmins rs
unfolding by_id count_others superadmins
count_others-eq-superadmins k lo hi [] h e no_admin = refl
count_others-eq-superadmins k lo hi (x ∷ rs) {r} (l, u, n, p, h) e no_admin =
    elim (Bool-cases (x.id == k)) [
      | inl here ↦
          let same : x ≡ r = ground arith in
          let (_, _, rest) = absent k x.id hi rs h (ground arith) in
          let quiet : is_enabled_superadmin x ≡ false = rw same no_admin in rw quiet rest
      | inr later ↦
          let ih = count_others-eq-superadmins k x.id hi rs h (rw later at e) no_admin in
          ground (arith, ih)
    ]
