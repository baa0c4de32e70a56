-- ===== src/Users/Login.antt =====
-- `Authenticate`: who is let in, and what a failed attempt reveals.
use mathlib.Core.Path.{refl}
use step_ui_ng.Users.Repo.{Env, create, authenticate, lookup, invalid_credentials, user_disabled}
use step_ui_ng.Users.Table.{by_username, Table, Row, User, scan}
use step_ui_ng.Base.{
  String, List, ◌≡◌, ok, false, none, ◌↔◌, length, ◌++◌, some, err, ◌∷◌, true, [], arith,
  Option-cases, eq_iff, inl, inr, ◌⊎◌,
}
use step_ui_ng.Users.Role.{Role}
use step_ui_ng.Base.Text.{trim_space}
use step_ui_ng.Users.Insertion.{create-eq-ok, new_row}

module _ (env : Env) (username password : String) (t : Table) where
  -- A login goes through exactly for a stored, enabled user whose hash fits the password, and
  -- returns that user.
  pub authenticate-eq-ok_iff :
      (u : User)
      → ((authenticate env username password t).0 ≡ ok u) ↔ (
          (env.fails lookup ≡ false)
          × (r : Row) × (by_username (trim_space username) t.rows ≡ some r)
          × (env.compare_hash password r.password_hash ≡ some true)
          × (r.disabled ≡ false)
          × (u ≡ scan r))
  unfolding authenticate
  authenticate-eq-ok_iff u = (there, back)
    where
      there :
          (authenticate env username password t).0 ≡ ok u
          → (env.fails lookup ≡ false)
            × (r : Row) × (by_username (trim_space username) t.rows ≡ some r)
            × (env.compare_hash password r.password_hash ≡ some true)
            × (r.disabled ≡ false)
            × (u ≡ scan r)
      there h = elim (Option-cases (by_username (trim_space username) t.rows)) [
        | inl missing ↦ absurd (ground arith)
        | inr (r, found) ↦ (ground arith, r, found, ground arith, ground arith, ground arith)
      ]

      back :
          (env.fails lookup ≡ false)
            × (r : Row) × (by_username (trim_space username) t.rows ≡ some r)
            × (env.compare_hash password r.password_hash ≡ some true)
            × (r.disabled ≡ false)
            × (u ≡ scan r)
          → (authenticate env username password t).0 ≡ ok u
      back (up, r, found, fits, enabled, same) = ground arith

  -- An attempt that reaches the table compares the password with exactly one hash, also when there
  -- is no such user. Invalid credentials are reported exactly for an unknown username and for a
  -- wrong password; that an account is disabled is told exactly to who knows its password.
  pub authenticate_reveals_nothing :
      env.fails lookup ≡ false
      → (length (authenticate env username password t).1 ≡ 1)
        × (((authenticate env username password t).0 ≡ err invalid_credentials) ↔ (
            (by_username (trim_space username) t.rows ≡ none)
            ⊎ ((r : Row) × (by_username (trim_space username) t.rows ≡ some r)
                × (env.compare_hash password r.password_hash ≡ some false))))
        × (((authenticate env username password t).0 ≡ err user_disabled) ↔ (
            (r : Row) × (by_username (trim_space username) t.rows ≡ some r)
            × (env.compare_hash password r.password_hash ≡ some true)
            × (r.disabled ≡ true)))
  unfolding authenticate
  authenticate_reveals_nothing up = elim (Option-cases (by_username (trim_space username) t.rows)) [
    | inl missing ↦ (
      ground arith,
      (λ h. inl missing, λ h. ground arith),
      (λ h. absurd (ground arith), λ (r, found, _, _). absurd (ground arith)),
    )
    | inr (r, found) ↦ (
      ground arith,
      (λ h. inr (r, found, ground arith), λ h. ground arith),
      (λ h. (r, found, ground arith, ground arith), λ h. ground arith),
    )
  ]

by_username-append_new :
    (n : String) (rs : List Row) (r : Row)
    → by_username n rs ≡ none
    → r.username ≡ n
    → by_username n (rs ++ r ∷ []) ≡ some r
unfolding by_username
by_username-append_new n [] r h e = ground (arith, eq_iff r.username n)
by_username-append_new n (x ∷ rs) r h e = ground (arith, by_username-append_new n rs r)

-- Round trip: after a creation that goes through, the same username, however it is padded, and the
-- same password let that user in, if the driver can look the user up and argon2id accepts the
-- password for the hash that it made of it.
pub authenticate-create :
    (env env' : Env) (username padded password : String) (role : Role) (t : Table) (u : User)
    → (create env username password role t).0 ≡ ok u
    → trim_space padded ≡ trim_space username
    → ((p hash : String) → env.create_hash p ≡ some hash → env'.compare_hash p hash ≡ some true)
    → env'.fails lookup ≡ false
    → (authenticate env' padded password (create env username password role t).1).0 ≡ ok u
authenticate-create env env' username padded password role t u h pad accepts up =
    let (hash, _, _, hashed, new, whole, who) = create-eq-ok env username password role t u h in
    let row = new_row env (trim_space username) hash role t in
    (authenticate-eq-ok_iff env' padded password (create env username password role t).1 u).1 (
      up,
      row,
      rw (pad, whole) (by_username-append_new (trim_space username) t.rows row new refl),
      accepts password hash hashed,
      refl,
      who,
    )
