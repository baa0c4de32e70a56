-- ===== src/Users/Insertion.antt =====
-- What the creation of a user has checked and written when it goes through.
use Prim.Native.String.{len}
use step_ui_ng.Base.{
  ℕ, ◌+◌, ◌≤◌, String, ◌≡◌, refl, true, false, none, some, [], ◌∷◌, ◌++◌, arith, inl, inr, nat_eq,
  string_eq, ok, Result-cases,
}
use step_ui_ng.Base.Text.{trim_space, trim_space_idem}
use step_ui_ng.Users.Role.{Role, valid}
use step_ui_ng.Users.Table.{Row, User, Table, by_username, insert_row, scan}
use step_ui_ng.Users.Repo.{
  Env, min_username_len, max_username_len, min_password_len, normalize_username, prepare_create,
  exec_insert, built_user, create,
}
use step_ui_ng.Users.Invariant.{IsRow, IsValid, append-IsRows}

pub normalize_username-eq-ok :
    (username name : String)
    → normalize_username username ≡ ok name
    → (name ≡ trim_space username) × (min_username_len ≤ len name) × (len name ≤ max_username_len)
unfolding normalize_username
normalize_username-eq-ok username name e = (ground arith, ground arith, ground arith)

module _ (env : Env) where
  abbrev pub new_row : String → String → Role → Table → Row
  new_row name hash role t = record {
    id = t.seq + 1;
    username = name;
    password_hash = hash;
    role = role;
    disabled = false;
    created_at = env.now;
    updated_at = env.now;
  }

  abbrev pub appended : String → String → Role → Table → Table
  appended name hash role t = record {
    rows = t.rows ++ new_row name hash role t ∷ [];
    seq = t.seq + 1;
  }

  pub prepare_create-eq-ok :
      (username password : String) (role : Role) (name hash : String) (r : Role)
      → prepare_create env username password role ≡ ok (name, hash, r)
      → (normalize_username username ≡ ok name)
        × (valid role ≡ true)
        × (min_password_len ≤ len password)
        × (env.create_hash password ≡ some hash)
        × (r ≡ role)
  unfolding prepare_create
  prepare_create-eq-ok username password role name hash r e =
      (ground arith, ground arith, ground arith, ground arith, ground arith)

  pub exec_insert-eq-ok :
      (name hash : String) (role : Role) (t : Table) (id : ℕ) (t' : Table)
      → exec_insert env name hash role t ≡ ok (id, t')
      → (by_username name t.rows ≡ none) × (id ≡ t.seq + 1) × (t' ≡ appended name hash role t)
  unfolding exec_insert insert_row
  exec_insert-eq-ok name hash role t id t' e = (ground arith, ground arith, ground arith)

  built_user-eq-ok :
      (id : ℕ) (name : String) (r : Role) (t : Table) (u : User) (hash : String)
      → id ≡ t.seq + 1
      → built_user env id name r env.now ≡ ok u
      → u ≡ scan (new_row name hash r t)
  unfolding built_user
  built_user-eq-ok id name r t u hash e h = ground arith

  -- The insertion of prepared values keeps the invariant.
  pub inserted-IsValid :
      (username password : String) (role : Role) (name hash : String) (r : Role) (t : Table)
      (id : ℕ) (t' : Table)
      → IsValid t
      → prepare_create env username password role ≡ ok (name, hash, r)
      → exec_insert env name hash r t ≡ ok (id, t')
      → IsValid t'
  inserted-IsValid username password role name hash r t id t' h p e =
      let (norm, known, _, _, same) = prepare_create-eq-ok username password role name hash r p in
      let (new, _, whole) = exec_insert-eq-ok name hash r t id t' e in
      let (trim, short, long) = normalize_username-eq-ok username name norm in
      let good : IsRow (new_row name hash r t) = record {
        known_role = rw same known;
        trimmed = rw trim (trim_space_idem username);
        not_short = short;
        not_long = long;
      } in
      rw whole (append-IsRows 0 t.seq t.rows (new_row name hash r t) h (omega arith) new refl good)

  -- A creation that goes through has checked the role and the length of the password, and has
  -- appended one enabled row with the trimmed, unused username and the hash of the password.
  pub create-eq-ok :
      (username password : String) (role : Role) (t : Table) (u : User)
      → (create env username password role t).0 ≡ ok u
      → (hash : String) × (valid role ≡ true)
        × (min_password_len ≤ len password)
        × (env.create_hash password ≡ some hash)
        × (by_username (trim_space username) t.rows ≡ none)
        × ((create env username password role t).1 ≡ appended (trim_space username) hash role t)
        × (u ≡ scan (new_row (trim_space username) hash role t))
  unfolding create
  create-eq-ok username password role t u h =
      elim (Result-cases (prepare_create env username password role)) [
        | inl (e, x) ↦ absurd (ground arith)
        | inr ((name, hash, r), x) ↦ elim (Result-cases (exec_insert env name hash r t)) [
          | inl (e, y) ↦ absurd (ground arith)
          | inr ((id, t'), y) ↦
              let (norm, known, long, hashed, same) =
                prepare_create-eq-ok username password role name hash r x in
              let (trim, _, _) = normalize_username-eq-ok username name norm in
              let (new, same_id, whole) = exec_insert-eq-ok name hash r t id t' y in
              let who : u ≡ scan (new_row name hash r t) =
                built_user-eq-ok id name r t u hash same_id (rw (x, create, y) at h) in
              (
                hash,
                known,
                long,
                hashed,
                rw (← trim) new,
                rw (x, create, y, ← trim, ← same) whole,
                rw (← trim, ← same) who,
              )
        ]
      ]
