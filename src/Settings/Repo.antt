-- ===== src/Settings/Repo.antt =====
-- internal/settings/settings.go: the operations of the repository. Each returns what the source
-- returns, and the table after it.
use step_ui_ng.Settings.Store.{
  SettingsRow, SettingsTable, SettingsEnv, SettingsError, failed, save, View, SettingsSite, Input,
  set_none, AdminAuthMethod, text_of, is_present, no_settings, get, admin_credential, jwk_password,
  selected_secret, invalid_fingerprint_text, auth_x5c, empty_name, open_key, open_password,
  open_secret, auth_jwk, or_failed, credential_required, jwk_required, invalid_url, auth_none,
  seal_secret, seal_key, seal_password, select_provisioner, save_credential, save_jwk,
  rows_affected,
}
use step_ui_ng.Base.{
  String, ℕ, Result, Option, Bool, if◌then◌else◌, none, some, err, not, ◌==◌, false, ok, ◌||◌,
  string_eq, ◌&&◌,
}
use step_ui_ng.Base.Text.{trim_space}
use step_ui_ng.Ca.Fingerprint.{valid_fingerprint}
use step_ui_ng.Base.Prefix.{has_prefix, trim_prefix}

-- `validateURL`
unfoldable pub validate_url : String → Result SettingsError String
validate_url raw =
    let u = trim_space raw in
    if not (has_prefix u "http://") && not (has_prefix u "https://")
    then err invalid_url
    else if trim_prefix (trim_prefix u "http://") "https://" == ""
    then err invalid_url
    else ok u

-- `validateFingerprint`
unfoldable pub validate_fingerprint : String → Result SettingsError String
validate_fingerprint raw =
    let fp = trim_space raw in if valid_fingerprint fp then ok fp else err invalid_fingerprint_text

-- The method that a stored text names.
unfoldable pub method_of : String → AdminAuthMethod
method_of s = if s == "x5c" then auth_x5c else if s == "jwk" then auth_jwk else auth_none

abbrev pub view_of : SettingsRow → View
view_of r = record {
  ca_url = r.ca_url;
  root_fingerprint = r.root_fingerprint;
  selected_provisioner = text_of r.selected_provisioner;
  has_selected_secret = is_present r.selected_secret_sealed;
  admin_cert_pem = text_of r.admin_cert_pem;
  has_admin_key = is_present r.admin_key_sealed;
  admin_auth_method = method_of r.admin_auth_method;
  admin_jwk_subject = text_of r.admin_jwk_subject;
  admin_jwk_provisioner = text_of r.admin_jwk_provisioner;
  has_admin_jwk = is_present r.admin_jwk_password_sealed;
  created_at = r.created_at;
  updated_at = r.updated_at;
}

abbrev pub upsert : ℕ → String → String → SettingsTable → SettingsRow
upsert ts url fp none = record {
  ca_url = url;
  root_fingerprint = fp;
  selected_provisioner = none;
  selected_secret_sealed = none;
  admin_cert_pem = none;
  admin_key_sealed = none;
  admin_auth_method = "none";
  admin_jwk_subject = none;
  admin_jwk_provisioner = none;
  admin_jwk_password_sealed = none;
  created_at = ts;
  updated_at = ts;
}
upsert ts url fp (some r) = record r { ca_url = url; root_fingerprint = fp; updated_at = ts }

abbrev pub Outcome : Type 0
Outcome = Result SettingsError (Unit {0}) × SettingsTable

-- `WHERE selected_provisioner = ?`: a NULL is equal to nothing.
abbrev pub names : Option String → String → Bool
names none name = false
names (some s) name = s == name

-- The key of a stored certificate chain, put together with it.
abbrev pub read_key :
    String → Result SettingsError (Option String) → Result SettingsError (Option (String × String))
read_key cert (err e) = err e
read_key cert (ok none) = ok none
read_key cert (ok (some key)) = ok (some (cert, key))

module _ (env : SettingsEnv) where
  -- `UPDATE ca_settings SET … WHERE id = 1`, and the error if there is no such row. The source
  -- discards the error of `RowsAffected`, and a count that fails is read as no row.
  abbrev pub update_row : SettingsSite → (SettingsRow → SettingsRow) → SettingsTable → Outcome
  update_row site f t = if env.fails site then (err (failed site), t) else elim t [
    | none ↦ (err no_settings, none)
    | some r ↦ (if env.fails (rows_affected site) then err no_settings else ok tt, some (f r))
  ]

  -- `Get`
  unfoldable pub get_settings : SettingsTable → Result SettingsError (Option View)
  get_settings t =
      if env.fails get
      then err (failed get)
      else elim t [ none ↦ ok none | some r ↦ ok (some (view_of r)) ]

  -- `Save`
  unfoldable pub save_settings : Input → SettingsTable → Outcome
  save_settings input t = elim (validate_url input.ca_url) [
    | err e ↦ (err e, t)
    | ok url ↦ elim (validate_fingerprint input.root_fingerprint) [
      | err e ↦ (err e, t)
      | ok fp ↦
          if env.fails save then (err (failed save), t) else (ok tt, some (upsert env.now url fp t))
    ]
  ]

  -- `SelectProvisioner`
  unfoldable pub select_provisioner_op : String → String → SettingsTable → Outcome
  select_provisioner_op raw secret t =
      let name = trim_space raw in
      if name == ""
      then (err empty_name, t)
      else if not (secret == "")
      then elim (or_failed (env.seal secret) seal_secret) [
        | err e ↦ (err e, t)
        | ok sealed ↦
            update_row select_provisioner
              (λ r. record r {
                selected_provisioner = some name;
                selected_secret_sealed = some sealed;
                updated_at = env.now;
              })
              t
      ]
      else update_row select_provisioner
          (λ r. record r {
            selected_secret_sealed =
                if names r.selected_provisioner name then r.selected_secret_sealed else none;
            selected_provisioner = some name;
            updated_at = env.now;
          })
          t

  -- `SaveAdminCredential`
  unfoldable pub save_admin_credential : String → String → SettingsTable → Outcome
  save_admin_credential cert_pem key_pem t =
      if trim_space cert_pem == "" || trim_space key_pem == ""
      then (err credential_required, t)
      else elim (or_failed (env.seal key_pem) seal_key) [
        | err e ↦ (err e, t)
        | ok sealed ↦
            update_row save_credential
              (λ r. record r {
                admin_auth_method = "x5c";
                admin_cert_pem = some cert_pem;
                admin_key_sealed = some sealed;
                admin_jwk_subject = none;
                admin_jwk_provisioner = none;
                admin_jwk_password_sealed = none;
                updated_at = env.now;
              })
              t
      ]

  -- `SaveAdminJWK`
  unfoldable pub save_admin_jwk : String → String → String → SettingsTable → Outcome
  save_admin_jwk raw_subject raw_provisioner password t =
      let subject = trim_space raw_subject in
      let provisioner = trim_space raw_provisioner in
      if subject == "" || provisioner == ""
      then (err jwk_required, t)
      else if not (password == "")
      then elim (or_failed (env.seal password) seal_password) [
        | err e ↦ (err e, t)
        | ok sealed ↦
            update_row save_jwk
              (λ r. record r {
                admin_auth_method = "jwk";
                admin_jwk_subject = some subject;
                admin_jwk_provisioner = some provisioner;
                admin_jwk_password_sealed = some sealed;
                admin_cert_pem = none;
                admin_key_sealed = none;
                updated_at = env.now;
              })
              t
      ]
      else update_row save_jwk
          (λ r. record r {
            admin_auth_method = "jwk";
            admin_jwk_subject = some subject;
            admin_jwk_provisioner = some provisioner;
            admin_cert_pem = none;
            admin_key_sealed = none;
            updated_at = env.now;
          })
          t

  -- `SetAdminAuthNone`
  unfoldable pub set_admin_auth_none : SettingsTable → Outcome
  set_admin_auth_none t =
      update_row set_none
        (λ r. record r {
          admin_auth_method = "none";
          admin_cert_pem = none;
          admin_key_sealed = none;
          admin_jwk_subject = none;
          admin_jwk_provisioner = none;
          admin_jwk_password_sealed = none;
          updated_at = env.now;
        })
        t

  -- A sealed column opened, or nothing if it holds no text.
  abbrev pub opened : Option String → SettingsSite → Result SettingsError (Option String)
  opened o site =
      if is_present o
      then elim (env.unseal (text_of o)) [ none ↦ err (failed site) | some s ↦ ok (some s) ]
      else ok none

  -- `AdminCredential`
  unfoldable pub read_admin_credential :
      SettingsTable → Result SettingsError (Option (String × String))
  read_admin_credential t =
      if env.fails admin_credential then err (failed admin_credential) else elim t [
        | none ↦ ok none
        | some r ↦
            if is_present r.admin_cert_pem
            then read_key (text_of r.admin_cert_pem) (opened r.admin_key_sealed open_key)
            else ok none
      ]

  -- `AdminJWKPassword`
  unfoldable pub read_jwk_password : SettingsTable → Result SettingsError (Option String)
  read_jwk_password t =
      if env.fails jwk_password
      then err (failed jwk_password)
      else elim t [ none ↦ ok none | some r ↦ opened r.admin_jwk_password_sealed open_password ]

  -- `SelectedSecret`
  unfoldable pub read_selected_secret : SettingsTable → Result SettingsError (Option String)
  read_selected_secret t =
      if env.fails selected_secret
      then err (failed selected_secret)
      else elim t [ none ↦ ok none | some r ↦ opened r.selected_secret_sealed open_secret ]
