-- ===== src/Users/Tests.antt =====
-- Runs of the repository's operations, and the theorems at concrete inputs.
use step_ui_ng.Users.Repo.{
  Env, create_first, prepare_create, normalize_username, create, in_tx, exec_insert, first_insert,
  count_users, built_user, delete_user, set_role, set_disabled, guarded_mutate, load_then, remove,
  change_role, change_disabled, guard_last_superadmin, update_tx, rows_affected_check, Site,
  authenticate, commit, invalid_credentials, user_disabled,
}
use step_ui_ng.Users.Table.{
  Table, Row, by_username, superadmins, insert_row, count_others, affected, update_where,
  delete_where, by_id, User, scan,
}
use step_ui_ng.Users.Role.{valid, superadmin, viewer}
use step_ui_ng.Base.{
  List, false, [], ◌∷◌, arith, ◌<◌, some, ◌≡◌, String, true, ◌↔◌, ◌⊎◌, ◌≢◌, map, refl, ◌==◌,
  string_eq, ok, length, eq_iff, Bool, err, none, ap, nat_eq,
}
use step_ui_ng.Users.Safety.{
  run_all, Call, run, run_all-IsValid, creates, superadmins-run_all, deletes, sets_role,
  sets_disabled,
}
use step_ui_ng.Users.Invariant.{IsValid, IsRow}
use step_ui_ng.Users.Insertion.{new_row}
use step_ui_ng.Base.Text.{trim_space, concat}
use step_ui_ng.Users.Setup.{create_first_once}
use step_ui_ng.Users.Login.{authenticate-create, authenticate_reveals_nothing}

-- argon2id replaced by a visible mark.
abbrev calm : Env
calm = record {
  fails = λ _. false;
  create_hash = λ p. some (concat ("#" ∷ p ∷ []));
  compare_hash = λ p h. some (concat ("#" ∷ p ∷ []) == h);
  dummy_hash = "#";
  now = 7;
}

abbrev empty : Table
empty = record { rows = []; seq = 0 }

abbrev root_row : Row
root_row = new_row calm "root" "#correct horse" superadmin empty

abbrev rooted : Table
rooted = record { rows = root_row ∷ []; seq = 1 }

first_user : (create_first calm " root " "correct horse" empty).1 ≡ rooted
unfolding create_first prepare_create normalize_username valid trim_space in_tx first_insert
    count_users exec_insert insert_row by_username built_user
first_user = refl

root-IsRow : IsRow root_row
unfolding valid trim_space
root-IsRow = record {
  known_role = refl;
  trimmed = refl;
  not_short = omega arith;
  not_long = omega arith;
}

rooted-IsValid : IsValid rooted
unfolding by_username
rooted-IsValid = (omega arith, omega arith, refl, root-IsRow, tt)

abbrev history : List (Env × Call)
history =
    (calm, creates "eve" "hunter2hunter2" "viewer")
    ∷ (calm, deletes 1)
    ∷ (calm, sets_role 2 "superadmin")
    ∷ (calm, sets_disabled 1 true)
    ∷ (calm, deletes 2)
    ∷ []

-- The superadmin cannot be deleted while the viewer is no superadmin; later one of the two stays.
history_ids : map (λ (r : Row). r.id) (run_all history rooted).rows ≡ 1 ∷ 2 ∷ []
unfolding run_all run create prepare_create normalize_username valid trim_space exec_insert
    insert_row by_username built_user delete_user set_role set_disabled guarded_mutate in_tx
    load_then remove change_role change_disabled guard_last_superadmin count_others update_tx
    rows_affected_check affected update_where delete_where by_id
history_ids = refl

run_all-IsValid_example : IsValid (run_all history rooted)
run_all-IsValid_example = run_all-IsValid history rooted rooted-IsValid

superadmins-run_all_example : 0 < superadmins (run_all history rooted).rows
unfolding superadmins
superadmins-run_all_example = superadmins-run_all history rooted rooted-IsValid (omega arith)

abbrev root_user : User
root_user = scan root_row

abbrev eve_row : Row
eve_row = new_row calm "eve" "#hunter2hunter2" viewer rooted

abbrev both : Table
both = record { rows = root_row ∷ eve_row ∷ []; seq = 2 }

eve_created : create calm " eve" "hunter2hunter2" viewer rooted ≡ (ok (scan eve_row), both)
unfolding create prepare_create normalize_username valid trim_space exec_insert insert_row
    by_username built_user
eve_created = refl

abbrev is_commit : Site → Bool
is_commit commit = true
is_commit s = false

-- A driver that cannot commit.
abbrev failing : Env
failing = record calm { fails = is_commit }

first_ok : (create_first calm " root " "correct horse" empty).0 ≡ ok root_user
unfolding create_first prepare_create normalize_username valid trim_space in_tx first_insert
    count_users exec_insert insert_row by_username built_user
first_ok = refl

empty-IsValid : IsValid empty
empty-IsValid = omega arith

create_first_once_example :
    (create_first calm "eve" "hunter2hunter2"
      (run_all history (create_first calm " root " "correct horse" empty).1)).0
    ≢ ok root_user
create_first_once_example =
    create_first_once calm calm " root " "correct horse" "eve" "hunter2hunter2" empty root_user
      root_user history empty-IsValid first_ok

reveals_nothing_example :
    (length (authenticate calm "eve " "guess" both).1 ≡ 1)
    × (((authenticate calm "eve " "guess" both).0 ≡ err invalid_credentials) ↔ (
        (by_username (trim_space "eve ") both.rows ≡ none)
        ⊎ ((r : Row) × (by_username (trim_space "eve ") both.rows ≡ some r)
            × (calm.compare_hash "guess" r.password_hash ≡ some false))))
    × (((authenticate calm "eve " "guess" both).0 ≡ err user_disabled) ↔ (
        (r : Row) × (by_username (trim_space "eve ") both.rows ≡ some r)
        × (calm.compare_hash "guess" r.password_hash ≡ some true)
        × (r.disabled ≡ true)))
reveals_nothing_example = authenticate_reveals_nothing calm "eve " "guess" both refl

calm_accepts :
    (p hash : String) → calm.create_hash p ≡ some hash → calm.compare_hash p hash ≡ some true
calm_accepts p hash h = ground (arith, eq_iff (concat ("#" ∷ p ∷ [])) hash)

authenticate-create_example :
    (authenticate calm "eve  " "hunter2hunter2"
      (create calm " eve" "hunter2hunter2" viewer rooted).1).0
    ≡ ok (scan eve_row)
unfolding trim_space
authenticate-create_example =
    authenticate-create calm calm " eve" "eve  " "hunter2hunter2" viewer rooted (scan eve_row)
      (ap (λ r. r.0) eve_created) refl calm_accepts refl
