-- ===== src/Settings/Readers.antt =====
-- What the reading operations of internal/settings return of the stored settings.
use step_ui_ng.Settings.Store.{
  SettingsTable, SettingsEnv, SettingsSite, AdminAuthMethod, auth_none, open_key, is_present,
  auth_x5c, auth_jwk, selected_secret, jwk_password, admin_credential, open_secret, open_password,
  text_of, SettingsRow, get, View,
}
use step_ui_ng.Settings.Spec.{
  AdminAuth, State, Holds, RepresentsSelected, kept_password, RepresentsAuth, x5c, Represents, jwk,
  unset, Settings,
}
use step_ui_ng.Base.{
  Option, String, ◌≡◌, none, Bool, false, some, true, if◌then◌else◌, refl, ok, sym, ◌∙◌, subst,
}
use step_ui_ng.Settings.Repo.{
  read_selected_secret, read_jwk_password, read_admin_credential, opened, read_key, method_of,
  get_settings, view_of,
}
use step_ui_ng.Settings.Refines.{password-Holds}

abbrev material : AdminAuth → Option (String × String)
material unset = none
material (x5c cert key) = some (cert, key)
material (jwk subject provisioner password) = none

-- The material of the x5c method.
unfoldable pub credential_of : State → Option (String × String)
credential_of none = none
credential_of (some s) = material s.auth

-- The password of the JWK method.
unfoldable pub password_of : State → Option String
password_of none = none
password_of (some s) = kept_password s.auth

abbrev secret_of_selected : Option (String × Option String) → Option String
secret_of_selected none = none
secret_of_selected (some (name, secret)) = secret

-- The secret of the selected provisioner.
unfoldable pub secret_of : State → Option String
secret_of none = none
secret_of (some s) = secret_of_selected s.selected

-- The method in force, and the name of the selected provisioner.
unfoldable pub method_in_force : AdminAuth → AdminAuthMethod
method_in_force unset = auth_none
method_in_force (x5c cert key) = auth_x5c
method_in_force (jwk subject provisioner password) = auth_jwk

abbrev selected_name : Option (String × Option String) → String
selected_name none = ""
selected_name (some (name, secret)) = name

abbrev is_some : Option String → Bool
is_some none = false
is_some (some s) = true

module _ (env : SettingsEnv) where
  opened-Holds :
      (column secret : Option String) (site : SettingsSite)
      → Holds env.unseal column secret
      → opened env column site ≡ ok secret
  opened-Holds none none site h = refl
  opened-Holds none (some s) site h = absurd h
  opened-Holds (some t) none site h = absurd h
  opened-Holds (some t) (some s) site h = rw (h.1, h.0)

  is_present-Holds :
      (column secret : Option String)
      → Holds env.unseal column secret
      → is_present column ≡ is_some secret
  is_present-Holds none none h = refl
  is_present-Holds none (some s) h = absurd h
  is_present-Holds (some t) none h = absurd h
  is_present-Holds (some t) (some s) h = rw h.1

  secret-Holds :
      (column sealed : Option String) (sel : Option (String × Option String))
      → RepresentsSelected env.unseal column sealed sel
      → Holds env.unseal sealed (secret_of_selected sel)
  secret-Holds column sealed none h = rw h.1 tt
  secret-Holds column sealed (some (name, secret)) h = h.1

  name_shown :
      (column sealed : Option String) (sel : Option (String × Option String))
      → RepresentsSelected env.unseal column sealed sel
      → text_of column ≡ selected_name sel
  name_shown column sealed none h = rw h.0
  name_shown column sealed (some (name, secret)) h = rw h.0

  method_shown :
      (method : String) (cert key subject provisioner password : Option String) (auth : AdminAuth)
      → RepresentsAuth env.unseal method cert key subject provisioner password auth
      → method_of method ≡ method_in_force auth
  unfolding method_of method_in_force
  method_shown method cert key subject provisioner password unset h = rw h.0
  method_shown method cert key subject provisioner password (x5c chain secret) h = rw h.0
  method_shown method cert key subject provisioner password (jwk admin name secret) h = rw h.0

  module _ (works : (site : SettingsSite) → env.fails site ≡ false) where
    read_secret :
        (t : SettingsTable) (s : State)
        → Represents env.unseal t s
        → read_selected_secret env t ≡ ok (secret_of s)
    unfolding read_selected_secret secret_of
    read_secret none none h = rw (works selected_secret)
    read_secret none (some s) h = absurd h
    read_secret (some r) none h = absurd h
    read_secret (some r) (some s) h = rw (works selected_secret) (
        opened-Holds r.selected_secret_sealed (secret_of_selected s.selected) open_secret
          (secret-Holds r.selected_provisioner r.selected_secret_sealed s.selected h.2))

    read_password :
        (t : SettingsTable) (s : State)
        → Represents env.unseal t s
        → read_jwk_password env t ≡ ok (password_of s)
    unfolding read_jwk_password password_of
    read_password none none h = rw (works jwk_password)
    read_password none (some s) h = absurd h
    read_password (some r) none h = absurd h
    read_password (some r) (some s) h = rw (works jwk_password) (
        opened-Holds r.admin_jwk_password_sealed (kept_password s.auth) open_password (
          password-Holds env.unseal env r.admin_auth_method r.admin_cert_pem r.admin_key_sealed
            r.admin_jwk_subject r.admin_jwk_provisioner r.admin_jwk_password_sealed s.auth h.3))

    -- The columns of the x5c method read back.
    material-read :
        (method : String) (cert key subject provisioner password : Option String) (auth : AdminAuth)
        → RepresentsAuth env.unseal method cert key subject provisioner password auth
        → (if is_present cert then read_key (text_of cert) (opened env key open_key) else ok none)
          ≡ ok (material auth)
    material-read method cert key subject provisioner password unset h = rw h.1
    material-read method cert key subject provisioner password (x5c chain secret) h =
        rw (h.1, h.2, opened-Holds key (some secret) open_key h.3)
    material-read method cert key subject provisioner password (jwk admin name secret) h = rw h.1

    read_credential :
        (t : SettingsTable) (s : State)
        → Represents env.unseal t s
        → read_admin_credential env t ≡ ok (credential_of s)
    unfolding read_admin_credential credential_of
    read_credential none none h = rw (works admin_credential)
    read_credential none (some s) h = absurd h
    read_credential (some r) none h = absurd h
    read_credential (some r) (some s) h = rw (works admin_credential) (
        material-read r.admin_auth_method r.admin_cert_pem r.admin_key_sealed r.admin_jwk_subject
          r.admin_jwk_provisioner r.admin_jwk_password_sealed s.auth h.3)

    viewed : (r : SettingsRow) → get_settings env (some r) ≡ ok (some (view_of r))
    unfolding get_settings
    viewed r = rw (works get)

    -- What a view tells of the settings, apart from the connection: the name of the selected
    -- provisioner, whether it has a secret, the method, and whether that has a password.
    pub view_lem :
        (r : SettingsRow) (s : Settings) (v : View)
        → Represents env.unseal (some r) (some s)
        → get_settings env (some r) ≡ ok (some v)
        → (v.selected_provisioner ≡ selected_name s.selected)
          × (v.has_selected_secret ≡ is_some (secret_of_selected s.selected))
          × (v.admin_auth_method ≡ method_in_force s.auth)
          × (v.has_admin_jwk ≡ is_some (kept_password s.auth))
    unfolding get_settings
    view_lem r s v h e =
        let same : view_of r ≡ v = cc (sym (viewed r) ∙ e) in
        subst
          (λ (x : View).
            (x.selected_provisioner ≡ selected_name s.selected)
            × (x.has_selected_secret ≡ is_some (secret_of_selected s.selected))
            × (x.admin_auth_method ≡ method_in_force s.auth)
            × (x.has_admin_jwk ≡ is_some (kept_password s.auth)))
          same
          (
            name_shown r.selected_provisioner r.selected_secret_sealed s.selected h.2,
            is_present-Holds r.selected_secret_sealed (secret_of_selected s.selected)
                (secret-Holds r.selected_provisioner r.selected_secret_sealed s.selected h.2),
            method_shown r.admin_auth_method r.admin_cert_pem r.admin_key_sealed r.admin_jwk_subject
                r.admin_jwk_provisioner r.admin_jwk_password_sealed s.auth h.3,
            is_present-Holds r.admin_jwk_password_sealed (kept_password s.auth) (
                password-Holds env.unseal env r.admin_auth_method r.admin_cert_pem
                  r.admin_key_sealed r.admin_jwk_subject r.admin_jwk_provisioner
                  r.admin_jwk_password_sealed s.auth h.3),
          )

    -- What the three reading operations return, while the driver works, of a row that stands for the
    -- settings `s`: the opened secret of the selected provisioner, the opened password of the JWK
    -- method, and certificate chain and opened key of the x5c method, each exactly if `s` has it.
    pub readers_lem :
        (t : SettingsTable) (s : State)
        → Represents env.unseal t s
        → (read_selected_secret env t ≡ ok (secret_of s))
          × (read_jwk_password env t ≡ ok (password_of s))
          × (read_admin_credential env t ≡ ok (credential_of s))
    readers_lem t s h = (read_secret t s h, read_password t s h, read_credential t s h)
