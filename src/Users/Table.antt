-- ===== src/Users/Table.antt =====
-- The table `users` and the SQL statements of internal/users/users.go over it. Rows stand in the
-- order of their ids, since AUTOINCREMENT hands out growing ids. An int64 id is the number of its
-- 64-bit pattern; ids are only compared for equality.
use step_ui_ng.Base.{
  ℕ, suc, ◌+◌, String, Bool, false, not, ◌&&◌, Option, none, some, List, [], ◌∷◌, ◌++◌, ◌==◌,
  nat_eq, string_eq, if◌then◌else◌, Result, ok, err,
}
use step_ui_ng.Users.Role.{Role, superadmin}

-- A row, and with it the source's `User`, which has no password_hash.
pub record Row : Type 0 where
  pub id : ℕ
  pub username : String
  pub password_hash : String
  pub role : Role
  pub disabled : Bool
  pub created_at : ℕ
  pub updated_at : ℕ

pub record User : Type 0 where
  pub id : ℕ
  pub username : String
  pub role : Role
  pub disabled : Bool
  pub created_at : ℕ
  pub updated_at : ℕ

-- `Scan` into a `User`.
abbrev pub scan : Row → User
scan r = record {
  id = r.id;
  username = r.username;
  role = r.role;
  disabled = r.disabled;
  created_at = r.created_at;
  updated_at = r.updated_at;
}

-- `seq` is the largest id ever handed out.
pub record Table : Type 0 where
  pub rows : List Row
  pub seq : ℕ

-- `SELECT … WHERE id = ?`
unfoldable pub by_id : ℕ → List Row → Option Row
by_id k [] = none
by_id k (r ∷ rs) = if r.id == k then some r else by_id k rs

-- `SELECT … WHERE username = ?`
unfoldable pub by_username : String → List Row → Option Row
by_username n [] = none
by_username n (r ∷ rs) = if r.username == n then some r else by_username n rs

-- `UPDATE users SET … WHERE id = ?`
unfoldable pub update_where : ℕ → (Row → Row) → List Row → List Row
update_where k f [] = []
update_where k f (r ∷ rs) = (if r.id == k then f r else r) ∷ update_where k f rs

-- `DELETE FROM users WHERE id = ?`
unfoldable pub delete_where : ℕ → List Row → List Row
delete_where k [] = []
delete_where k (r ∷ rs) = if r.id == k then delete_where k rs else r ∷ delete_where k rs

-- The rows that such a statement affects.
unfoldable pub affected : ℕ → List Row → ℕ
affected k [] = 0
affected k (r ∷ rs) = if r.id == k then suc (affected k rs) else affected k rs

abbrev pub is_enabled_superadmin : Row → Bool
is_enabled_superadmin r = r.role == superadmin && not r.disabled

-- `SELECT COUNT(*) … WHERE role = 'superadmin' AND disabled = 0 AND id != ?`
unfoldable pub count_others : ℕ → List Row → ℕ
count_others k [] = 0
count_others k (r ∷ rs) =
    if is_enabled_superadmin r && not (r.id == k)
    then suc (count_others k rs)
    else count_others k rs

-- How many superadmins can log in.
unfoldable pub superadmins : List Row → ℕ
superadmins [] = 0
superadmins (r ∷ rs) = if is_enabled_superadmin r then suc (superadmins rs) else superadmins rs

pub data SqlError : Type 0 where
  constraint_unique constraint_primarykey other : SqlError

-- `INSERT INTO users`: the username is UNIQUE, and the new id is one above every earlier one.
unfoldable pub insert_row : String → String → Role → ℕ → Table → Result SqlError (ℕ × Table)
unfolding by_username
insert_row name hash role ts t = elim (by_username name t.rows) [
  | some _ ↦ err constraint_unique
  | none ↦ ok (
    t.seq + 1,
    record {
      rows =
          t.rows
          ++ record {
            id = t.seq + 1;
            username = name;
            password_hash = hash;
            role = role;
            disabled = false;
            created_at = ts;
            updated_at = ts;
          }
            ∷ [];
      seq = t.seq + 1;
    },
  )
]
