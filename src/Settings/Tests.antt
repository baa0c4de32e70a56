-- ===== src/Settings/Tests.antt =====
-- The settings at concrete values.
use text.Mathlib.TextLemmas.{cons≢nil}
use step_ui_ng.Settings.Store.{
  SettingsRow, SettingsEnv, Input, SettingsSite, rows_affected, get, save, seal_secret,
  select_provisioner, seal_key, save_credential, admin_credential, open_key, seal_password,
  save_jwk, set_none, jwk_password, open_password, selected_secret, open_secret,
}
use step_ui_ng.Base.{
  [], ◌∷◌, String, false, true, List, some, Option, ◌≡◌, none, ◌==◌, subst, refl, Bool-cases,
  string_eq, inl, eq_iff, inr, Bool,
}
use step_ui_ng.Settings.Spec.{
  State, Represents, Command, jwk, apply, save_connection, perform, select_name, upload_credential,
  clear_auth, set_jwk,
}
use step_ui_ng.Settings.History.{apply_all, perform_all, perform_all-Refines}
use step_ui_ng.Settings.Repo.{
  save_settings, select_provisioner_op, save_admin_credential, save_admin_jwk, set_admin_auth_none,
  validate_url, validate_fingerprint,
}
use step_ui_ng.Ca.Fingerprint.{valid_fingerprint, canonical, decodes_as_hex}
use step_ui_ng.Base.Prefix.{to_lower, remove_all, lower_char, has_prefix, trim_prefix}
use step_ui_ng.Base.Text.{trim_space}

-- A box that puts a character in front.
abbrev pub mark : String → Option String
mark s = some (String.◌∷◌ "#" s)

abbrev pub unmark : String → Option String
unmark String.[] = none
unmark (String.◌∷◌ c s) = some s

abbrev pub good_env : SettingsEnv
good_env = record { fails = λ _. false; now = 7; seal = mark; unseal = unmark }

-- The driver fails.
abbrev bad_env : SettingsEnv
bad_env = record { fails = λ _. true; now = 8; seal = mark; unseal = unmark }

not_empty : (s : String) → (String.◌∷◌ "#" s == "") ≡ false
not_empty s = elim (Bool-cases (String.◌∷◌ "#" s == "")) [
  | inl e ↦ absurd (cons≢nil ((eq_iff (String.◌∷◌ "#" s) "").0 e))
  | inr e ↦ e
]

pub marked : (s t : String) → mark s ≡ some t → (unmark t ≡ some s) × ((t == "") ≡ false)
marked s t h =
    subst (λ x. (unmark x ≡ some s) × ((x == "") ≡ false)) {x = String.◌∷◌ "#" s} {y = t} (cc h)
      (refl, not_empty s)

abbrev is_count : SettingsSite → Bool
is_count site = elim site [
  | rows_affected s ↦ true
  | get ↦ false
  | save ↦ false
  | seal_secret ↦ false
  | select_provisioner ↦ false
  | seal_key ↦ false
  | save_credential ↦ false
  | admin_credential ↦ false
  | open_key ↦ false
  | seal_password ↦ false
  | save_jwk ↦ false
  | set_none ↦ false
  | jwk_password ↦ false
  | open_password ↦ false
  | selected_secret ↦ false
  | open_secret ↦ false
]

-- The changed rows cannot be counted.
abbrev uncounted_env : SettingsEnv
uncounted_env = record good_env { fails = is_count }

abbrev connection : Input
connection = record {
  ca_url = " https://ca:9000 ";
  root_fingerprint = "AB:CDEF0123456789abcdef0123456789abcdef012345";
}

abbrev calls : List (SettingsEnv × Command)
calls =
    (good_env, save_connection connection)
    ∷ (good_env, select_name "admin" "secret")
    ∷ (good_env, upload_credential "chain" "key")
    ∷ (bad_env, clear_auth)
    ∷ (uncounted_env, select_name "admin" "secret")
    ∷ (good_env, select_name " admin" "")
    ∷ (good_env, set_jwk "me" "jwk" "pass")
    ∷ []

abbrev expected : State
expected = some record {
  url = "https://ca:9000";
  fingerprint = "AB:CDEF0123456789abcdef0123456789abcdef012345";
  selected = some ("admin", some "secret");
  auth = jwk "me" "jwk" (some "pass");
}

calls_test : apply_all calls none none ≡ expected
unfolding apply_all apply perform save_settings select_provisioner_op save_admin_credential
    save_admin_jwk set_admin_auth_none validate_url validate_fingerprint valid_fingerprint canonical
    to_lower remove_all lower_char trim_space has_prefix trim_prefix decodes_as_hex
calls_test = refl

perform_all-Refines_example : Represents unmark (perform_all calls none) (apply_all calls none none)
perform_all-Refines_example =
    perform_all-Refines unmark calls none none
      (marked, (marked, (marked, (marked, (marked, (marked, (marked, tt))))))) tt

abbrev stored : SettingsRow
stored = record {
  ca_url = "https://ca:9000";
  root_fingerprint = "ab";
  selected_provisioner = some "admin";
  selected_secret_sealed = some "#secret";
  admin_cert_pem = some "chain";
  admin_key_sealed = some "#key";
  admin_auth_method = "x5c";
  admin_jwk_subject = none;
  admin_jwk_provisioner = none;
  admin_jwk_password_sealed = none;
  created_at = 1;
  updated_at = 2;
}
