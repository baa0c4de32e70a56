-- ===== src/Settings/History.antt =====
-- Any sequence of operations on the settings, those that report an error among them.
use step_ui_ng.Settings.Store.{
  SettingsTable, SettingsEnv, SettingsSite, SettingsError, SettingsRow, set_none,
}
use step_ui_ng.Base.{
  [], ◌∷◌, List, Result, String, Option, Bool, ◌≡◌, All, ok, true, false, Bool-cases, if◌then◌else◌,
  err, inl, inr, subst, some, arith, sym, none,
}
use step_ui_ng.Settings.Spec.{
  perform, Command, State, IsSealer, Represents, apply, save_connection, select_name,
  upload_credential, set_jwk, clear_auth, took_effect,
}
use step_ui_ng.Settings.Repo.{
  save_settings, update_row, select_provisioner_op, save_admin_credential, save_admin_jwk,
  set_admin_auth_none,
}
use step_ui_ng.Settings.Refines.{perform-Refines}

-- The calls, one after the other.
unfoldable pub perform_all : List (SettingsEnv × Command) → SettingsTable → SettingsTable
perform_all [] t = t
perform_all ((env, command) ∷ l) t = perform_all l (perform env command t).1

abbrev pub succeeded : Result SettingsError (Unit {0}) → Bool
succeeded (ok x) = true
succeeded (err e) = false

-- The specification of the same calls, where one that has not taken effect does nothing.
unfoldable pub apply_all : List (SettingsEnv × Command) → SettingsTable → State → State
apply_all [] t s = s
apply_all ((env, command) ∷ l) t s =
    let o = perform env command t in
    apply_all l o.1 (if took_effect t o.0 then apply command s else s)

update_row-unchanged :
    (env : SettingsEnv) (site : SettingsSite) (f : SettingsRow → SettingsRow) (t : SettingsTable)
    → took_effect t (update_row env site f t).0 ≡ false
    → (update_row env site f t).1 ≡ t
update_row-unchanged env site f none h = elim (Bool-cases (env.fails site)) [
  | inl b ↦ rw b
  | inr b ↦ rw b
]
update_row-unchanged env site f (some r) h = ground arith

-- An operation that has not taken effect leaves the row as it was.
perform-unchanged :
    (env : SettingsEnv) (command : Command) (t : SettingsTable)
    → took_effect t (perform env command t).0 ≡ false
    → (perform env command t).1 ≡ t
unfolding perform save_settings select_provisioner_op save_admin_credential save_admin_jwk
    set_admin_auth_none
perform-unchanged env (save_connection input) t h = ground arith
perform-unchanged env (select_name name secret) t h = ground arith
perform-unchanged env (upload_credential cert key) t h = ground arith
perform-unchanged env (set_jwk subject provisioner password) t h = ground arith
perform-unchanged env clear_auth t h = update_row-unchanged env set_none _ t h

module _ (unseal : String → Option String) where
  pub perform-step :
      (env : SettingsEnv) (command : Command) (t : SettingsTable) (s : State)
      → IsSealer unseal env
      → Represents unseal t s
      → Represents unseal
          (perform env command t).1
          (if took_effect t (perform env command t).0 then apply command s else s)
  perform-step env command t s sealer h =
      elim (Bool-cases (took_effect t (perform env command t).0)) [
        | inr a ↦
            rw a (subst (λ x. Represents unseal x s) (sym (perform-unchanged env command t a)) h)
        | inl a ↦ rw a (perform-Refines unseal env sealer t s h command a)
      ]

  -- If the box of every call opens what it sealed, and the row stands for some settings: whatever
  -- sequence of operations is performed, and whichever of them fail, the row afterwards stands for the
  -- settings that the specification computes from those that took effect: those that report no error,
  -- and those that report that there are no settings although there is a row, since the changed rows
  -- could not be counted.
  pub perform_all-Refines :
      (calls : List (SettingsEnv × Command)) (t : SettingsTable) (s : State)
      → All (λ c. IsSealer unseal c.0) calls
      → Represents unseal t s
      → Represents unseal (perform_all calls t) (apply_all calls t s)
  unfolding perform_all apply_all
  perform_all-Refines [] t s sealers h = h
  perform_all-Refines ((env, command) ∷ l) t s sealers h =
      perform_all-Refines l (perform env command t).1 _ sealers.1
        (perform-step env command t s sealers.0 h)
