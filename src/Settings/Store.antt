-- ===== src/Settings/Store.antt =====
-- internal/settings/settings.go: the one row of the table `ca_settings`, and what an operation meets
-- outside of the source. A NULL is `none`; the driver reads it as the empty text.
use step_ui_ng.Base.{String, Option, Bool, ℕ, not, Result, some, ◌==◌, err, none, ok, string_eq}

pub record SettingsRow : Type 0 where
  pub ca_url : String
  pub root_fingerprint : String
  pub selected_provisioner : Option String
  pub selected_secret_sealed : Option String
  pub admin_cert_pem : Option String
  pub admin_key_sealed : Option String
  pub admin_auth_method : String
  pub admin_jwk_subject : Option String
  pub admin_jwk_provisioner : Option String
  pub admin_jwk_password_sealed : Option String
  pub created_at : ℕ
  pub updated_at : ℕ

-- The table: its primary key is constrained to 1.
abbrev pub SettingsTable : Type 0
SettingsTable = Option SettingsRow

-- The calls of the driver and of the sealing box that can fail; `rows_affected` counts the rows that a
-- statement has changed.
pub data SettingsSite : Type 0 where
  get save seal_secret select_provisioner seal_key save_credential admin_credential open_key
        seal_password save_jwk set_none jwk_password open_password selected_secret open_secret :
      SettingsSite
  rows_affected : SettingsSite → SettingsSite

pub data SettingsError : Type 0 where
  invalid_url invalid_fingerprint_text no_settings empty_name credential_required jwk_required :
      SettingsError
  failed : SettingsSite → SettingsError

-- The driver, the clock and the sealing box during one call.
pub record SettingsEnv : Type 0 where
  pub fails : SettingsSite → Bool
  pub now : ℕ
  pub seal : String → Option String
  pub unseal : String → Option String

-- `Input`
pub record Input : Type 0 where
  pub ca_url : String
  pub root_fingerprint : String

pub data AdminAuthMethod : Type 0 where
  auth_none auth_x5c auth_jwk : AdminAuthMethod

-- `View`
pub record View : Type 0 where
  pub ca_url : String
  pub root_fingerprint : String
  pub selected_provisioner : String
  pub has_selected_secret : Bool
  pub admin_cert_pem : String
  pub has_admin_key : Bool
  pub admin_auth_method : AdminAuthMethod
  pub admin_jwk_subject : String
  pub admin_jwk_provisioner : String
  pub has_admin_jwk : Bool
  pub created_at : ℕ
  pub updated_at : ℕ

-- `sql.NullString.String`
abbrev pub text_of : Option String → String
text_of none = String.[]
text_of (some s) = s

-- `s.Valid && s.String != ""`
abbrev pub is_present : Option String → Bool
is_present o = not (text_of o == "")

-- The environment's answer to a call, or its error.
abbrev pub or_failed : Option String → SettingsSite → Result SettingsError String
or_failed none site = err (failed site)
or_failed (some s) site = ok s
