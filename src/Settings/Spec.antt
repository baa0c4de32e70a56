-- ===== src/Settings/Spec.antt =====
-- What internal/settings promises, without columns and sealed texts: the connection, the selected
-- provisioner with its secret, and one method of admin authentication with the material of that
-- method only.
use step_ui_ng.Base.{
  String, Option, some, if◌then◌else◌, none, ◌≡◌, ◌==◌, not, false, string_eq, Result, Bool, true,
  ok, err,
}
use step_ui_ng.Settings.Store.{
  Input, SettingsEnv, SettingsTable, SettingsError, failed, invalid_url, invalid_fingerprint_text,
  no_settings, empty_name, credential_required, jwk_required,
}
use step_ui_ng.Base.Text.{trim_space}
use step_ui_ng.Settings.Repo.{
  Outcome, save_settings, select_provisioner_op, save_admin_credential, save_admin_jwk,
  set_admin_auth_none,
}

pub data AdminAuth : Type 0 where
  unset : AdminAuth
  x5c : String → String → AdminAuth
  jwk : String → String → Option String → AdminAuth

pub record Settings : Type 0 where
  pub url : String
  pub fingerprint : String
  pub selected : Option (String × Option String)
  pub auth : AdminAuth

abbrev pub State : Type 0
State = Option Settings

-- The operations that change the settings, with their arguments.
pub data Command : Type 0 where
  save_connection : Input → Command
  select_name : String → String → Command
  upload_credential : String → String → Command
  set_jwk : String → String → String → Command
  clear_auth : Command

abbrev pub connect : String → String → State → State
connect url fp none = some record { url = url; fingerprint = fp; selected = none; auth = unset }
connect url fp (some s) = some record s { url = url; fingerprint = fp }

-- The secret that a blank one leaves: that of the same provisioner.
abbrev pub kept_secret : String → Option (String × Option String) → Option String
kept_secret name none = none
kept_secret name (some (old, secret)) = if old == name then secret else none

abbrev pub kept_password : AdminAuth → Option String
kept_password unset = none
kept_password (x5c cert key) = none
kept_password (jwk subject provisioner password) = password

-- A given secret, or the one that a blank one leaves.
abbrev pub chosen : String → Option String → Option String
chosen secret kept = if not (secret == "") then some secret else kept

abbrev pub update : (Settings → Settings) → State → State
update f none = none
update f (some s) = some (f s)

-- What a command that takes effect does to the settings.
unfoldable pub apply : Command → State → State
apply (save_connection input) s =
    connect (trim_space input.ca_url) (trim_space input.root_fingerprint) s
apply (select_name name secret) s =
    update
      (λ c. record c {
        selected = some (trim_space name, chosen secret (kept_secret (trim_space name) c.selected));
      })
      s
apply (upload_credential cert key) s = update (λ c. record c { auth = x5c cert key }) s
apply (set_jwk subject provisioner password) s =
    update
      (λ c. record c {
        auth =
            jwk (trim_space subject) (trim_space provisioner)
              (chosen password (kept_password c.auth));
      })
      s
apply clear_auth s = update (λ c. record c { auth = unset }) s

abbrev pub is_no_settings : SettingsError → Bool
is_no_settings invalid_url = false
is_no_settings invalid_fingerprint_text = false
is_no_settings no_settings = true
is_no_settings empty_name = false
is_no_settings credential_required = false
is_no_settings jwk_required = false
is_no_settings (failed site) = false

-- A call has taken effect, by the table before it and by what it reports: it reports no error, or that
-- there are no settings although there were some, which says that the changed rows were not counted.
abbrev pub took_effect : SettingsTable → Result SettingsError (Unit {0}) → Bool
took_effect t (ok u) = true
took_effect none (err e) = false
took_effect (some r) (err e) = is_no_settings e

-- The operation of the repository that a command stands for.
unfoldable pub perform : SettingsEnv → Command → SettingsTable → Outcome
perform env (save_connection input) t = save_settings env input t
perform env (select_name name secret) t = select_provisioner_op env name secret t
perform env (upload_credential cert key) t = save_admin_credential env cert key t
perform env (set_jwk subject provisioner password) t =
    save_admin_jwk env subject provisioner password t
perform env clear_auth t = set_admin_auth_none env t

module _ (unseal : String → Option String) where
  -- A sealed column holds a secret.
  abbrev pub Holds : Option String → Option String → Type 0
  Holds none none = Unit
  Holds none (some s) = ⊥
  Holds (some t) none = ⊥
  Holds (some t) (some s) = (unseal t ≡ some s) × ((t == "") ≡ false)

  abbrev pub RepresentsSelected :
      Option String → Option String → Option (String × Option String) → Type 0
  RepresentsSelected column sealed none = (column ≡ none) × (sealed ≡ none)
  RepresentsSelected column sealed (some (name, secret)) =
      (column ≡ some name) × Holds sealed secret

  -- The columns of a method, in the order of the row.
  abbrev pub RepresentsAuth :
      String
      → Option String
      → Option String
      → Option String
      → Option String
      → Option String
      → AdminAuth
      → Type 0
  RepresentsAuth method cert key subject provisioner password unset =
      (method ≡ "none")
      × (cert ≡ none)
      × (key ≡ none)
      × (subject ≡ none)
      × (provisioner ≡ none)
      × (password ≡ none)
  RepresentsAuth method cert key subject provisioner password (x5c chain secret) =
      (method ≡ "x5c")
      × (cert ≡ some chain)
      × ((chain == "") ≡ false)
      × Holds key (some secret)
      × (subject ≡ none)
      × (provisioner ≡ none)
      × (password ≡ none)
  RepresentsAuth method cert key subject provisioner password (jwk admin name secret) =
      (method ≡ "jwk")
      × (cert ≡ none)
      × (key ≡ none)
      × (subject ≡ some admin)
      × (provisioner ≡ some name)
      × Holds password secret

  -- The table stands for the settings.
  abbrev pub Represents : SettingsTable → State → Type 0
  Represents none none = Unit
  Represents none (some s) = ⊥
  Represents (some r) none = ⊥
  Represents (some r) (some s) =
      (r.ca_url ≡ s.url)
      × (r.root_fingerprint ≡ s.fingerprint)
      × RepresentsSelected r.selected_provisioner r.selected_secret_sealed s.selected
      × RepresentsAuth r.admin_auth_method r.admin_cert_pem r.admin_key_sealed r.admin_jwk_subject
          r.admin_jwk_provisioner r.admin_jwk_password_sealed s.auth

  -- What a call seals is opened to the text it was sealed from, and no sealed text is empty.
  abbrev pub IsSealer : SettingsEnv → Type 0
  IsSealer env = (s t : String) → env.seal s ≡ some t → (unseal t ≡ some s) × ((t == "") ≡ false)
