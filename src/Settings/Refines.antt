-- ===== src/Settings/Refines.antt =====
-- The operations of internal/settings against what the component promises.
use step_ui_ng.Settings.Store.{
  SettingsRow, SettingsTable, SettingsEnv, SettingsSite, SettingsError, empty_name, failed,
  seal_secret, select_provisioner, credential_required, jwk_required, set_none, seal_key,
  seal_password, save_credential, save_jwk, Input, save,
}
use step_ui_ng.Base.{
  String, Option, ◌≡◌, some, ◌==◌, ok, err, false, if◌then◌else◌, Bool-cases, string_eq, none, inl,
  inr, Option-cases, arith, refl, subst, eq_iff, ℕ, Result-cases, true, sym, ◌∙◌,
}
use step_ui_ng.Settings.Repo.{
  Outcome, select_provisioner_op, update_row, names, save_admin_credential, save_admin_jwk,
  set_admin_auth_none, validate_url, validate_fingerprint, save_settings, upsert,
}
use step_ui_ng.Settings.Spec.{
  IsSealer, State, Settings, Represents, Holds, apply, select_name, update, kept_secret,
  RepresentsSelected, AdminAuth, RepresentsAuth, upload_credential, set_jwk, clear_auth,
  kept_password, x5c, jwk, unset, perform, Command, connect, save_connection, is_no_settings,
  took_effect,
}
use step_ui_ng.Base.Text.{trim_space}

-- A text that is not blank is not empty.
filled : (s : String) → (trim_space s == "") ≡ false → (s == "") ≡ false
unfolding trim_space
filled s h = elim (Bool-cases (s == "")) [
  | inl e ↦ absurd (ground (arith, subst (λ x. (trim_space x == "") ≡ false) ((eq_iff s "").0 e) h))
  | inr e ↦ e
]

pub validate_url-eq-ok : (raw url : String) → validate_url raw ≡ ok url → url ≡ trim_space raw
unfolding validate_url
validate_url-eq-ok raw url h = ground arith

pub validate_fingerprint-eq-ok :
    (raw fp : String) → validate_fingerprint raw ≡ ok fp → fp ≡ trim_space raw
unfolding validate_fingerprint
validate_fingerprint-eq-ok raw fp h = ground arith

url_error : (raw : String) (e : SettingsError) → validate_url raw ≡ err e → is_no_settings e ≡ false
unfolding validate_url
url_error raw e h = ground arith

fingerprint_error :
    (raw : String) (e : SettingsError) → validate_fingerprint raw ≡ err e → is_no_settings e ≡ false
unfolding validate_fingerprint
fingerprint_error raw e h = ground arith

module _ (unseal : String → Option String) (env : SettingsEnv) where
  -- If the outcome of a call on the table has taken effect, it stands for the settings.
  Achieves : SettingsTable → Outcome → State → Type 0
  Achieves t o s = took_effect t o.0 ≡ true → Represents unseal o.1 s

  err-Achieves :
      (e : SettingsError)
      → is_no_settings e ≡ false
      → (t : SettingsTable) (s : State) → Achieves t (err e, t) s
  unfolding Achieves
  err-Achieves e other none s h = absurd (cc h)
  err-Achieves e other (some r) s h = absurd (cc (sym h ∙ other))

  update_row-Achieves :
      (site : SettingsSite) (f : SettingsRow → SettingsRow) (g : Settings → Settings)
      (t : SettingsTable) (s : State)
      → ((r : SettingsRow) (c : Settings)
          → Represents unseal (some r) (some c)
          → Represents unseal (some (f r)) (some (g c)))
      → Represents unseal t s
      → Achieves t (update_row env site f t) (update g s)
  unfolding Achieves
  update_row-Achieves site f g none none step h e = elim (Bool-cases (env.fails site)) [
    | inl b ↦ absurd (ground arith)
    | inr b ↦ rw b tt
  ]
  update_row-Achieves site f g none (some c) step h e = absurd h
  update_row-Achieves site f g (some r) none step h e = absurd h
  update_row-Achieves site f g (some r) (some c) step h e = elim (Bool-cases (env.fails site)) [
    | inl b ↦ absurd (ground arith)
    | inr b ↦ rw b (step r c h)
  ]

  upsert-Achieves :
      (now : ℕ) (url fp : String) {url' fp' : String}
      → url ≡ url'
      → fp ≡ fp'
      → (t : SettingsTable) (s : State) → Represents unseal t s
      → Achieves t (ok tt, some (upsert now url fp t)) (connect url' fp' s)
  unfolding Achieves
  upsert-Achieves now url fp e f none none h _ =
      (e, f, (refl, refl), (refl, refl, refl, refl, refl, refl))
  upsert-Achieves now url fp e f none (some c) h _ = absurd h
  upsert-Achieves now url fp e f (some r) none h _ = absurd h
  upsert-Achieves now url fp e f (some r) (some c) h _ = (e, f, h.2, h.3)

  -- The secret that stays with the provisioner that is selected again.
  kept-Holds :
      (name : String) (column sealed : Option String) (sel : Option (String × Option String))
      → RepresentsSelected unseal column sealed sel
      → Holds unseal (if names column name then sealed else none) (kept_secret name sel)
  kept-Holds name column sealed none h = rw h.0 tt
  kept-Holds name column sealed (some (old, secret)) h =
      rw h.0 (elim (Bool-cases (old == name)) [ inl b ↦ rw b h.1 | inr b ↦ rw b tt ])

  -- Before the JWK method is set again with a blank password.
  pub password-Holds :
      (method : String) (cert key subject provisioner password : Option String) (auth : AdminAuth)
      → RepresentsAuth unseal method cert key subject provisioner password auth
      → Holds unseal password (kept_password auth)
  password-Holds method cert key subject provisioner password unset h = rw h.5 tt
  password-Holds method cert key subject provisioner password (x5c chain secret) h = rw h.6 tt
  password-Holds method cert key subject provisioner password (jwk admin name secret) h = h.5

  module _ (sealer : IsSealer unseal env) (t : SettingsTable) (s : State)
      (h : Represents unseal t s) where
    select-Achieves :
        (name secret : String)
        → Achieves t (select_provisioner_op env name secret t) (apply (select_name name secret) s)
    unfolding select_provisioner_op apply
    select-Achieves name secret = elim (Bool-cases (trim_space name == "")) [
      | inl a ↦ rw a (err-Achieves empty_name refl t _)
      | inr a ↦ elim (Bool-cases (secret == "")) [
        | inr b ↦ elim (Option-cases (env.seal secret)) [
          | inl c ↦ rw (a, b, c) (err-Achieves (failed seal_secret) refl t _)
          | inr (sealed, c) ↦
              rw (a, b, c)
                (update_row-Achieves select_provisioner _ _ t s
                  (λ r d k. (k.0, k.1, (refl, sealer secret sealed c), k.3)) h)
        ]
        | inl b ↦
            rw (a, b)
              (update_row-Achieves select_provisioner _ _ t s
                (λ r d k. (
                  k.0,
                  k.1,
                  (
                    refl,
                    kept-Holds (trim_space name) r.selected_provisioner r.selected_secret_sealed
                        d.selected k.2,
                  ),
                  k.3,
                ))
                h)
      ]
    ]

    upload-Achieves :
        (cert key : String)
        → Achieves t (save_admin_credential env cert key t) (apply (upload_credential cert key) s)
    unfolding save_admin_credential apply
    upload-Achieves cert key = elim (Bool-cases (trim_space cert == "")) [
      | inl a ↦ rw a (err-Achieves credential_required refl t _)
      | inr a ↦ elim (Bool-cases (trim_space key == "")) [
        | inl b ↦ rw (a, b) (err-Achieves credential_required refl t _)
        | inr b ↦ elim (Option-cases (env.seal key)) [
          | inl c ↦ rw (a, b, c) (err-Achieves (failed seal_key) refl t _)
          | inr (sealed, c) ↦
              rw (a, b, c)
                (update_row-Achieves save_credential _ _ t s
                  (λ r d k. (
                    k.0,
                    k.1,
                    k.2,
                    (refl, refl, filled cert a, sealer key sealed c, refl, refl, refl),
                  ))
                  h)
        ]
      ]
    ]

    set_jwk-Achieves :
        (subject provisioner password : String)
        → Achieves t
            (save_admin_jwk env subject provisioner password t)
            (apply (set_jwk subject provisioner password) s)
    unfolding save_admin_jwk apply
    set_jwk-Achieves subject provisioner password = elim (Bool-cases (trim_space subject == "")) [
      | inl a ↦ rw a (err-Achieves jwk_required refl t _)
      | inr a ↦ elim (Bool-cases (trim_space provisioner == "")) [
        | inl b ↦ rw (a, b) (err-Achieves jwk_required refl t _)
        | inr b ↦ elim (Bool-cases (password == "")) [
          | inr d ↦ elim (Option-cases (env.seal password)) [
            | inl c ↦ rw (a, b, c, d) (err-Achieves (failed seal_password) refl t _)
            | inr (sealed, c) ↦
                rw (a, b, c, d)
                  (update_row-Achieves save_jwk _ _ t s
                    (λ r d k.
                      (k.0, k.1, k.2, (refl, refl, refl, refl, refl, sealer password sealed c)))
                    h)
          ]
          | inl c ↦
              rw (a, b, c)
                (update_row-Achieves save_jwk _ _ t s
                  (λ r d k. (
                    k.0,
                    k.1,
                    k.2,
                    (
                      refl,
                      refl,
                      refl,
                      refl,
                      refl,
                      password-Holds r.admin_auth_method r.admin_cert_pem r.admin_key_sealed
                          r.admin_jwk_subject r.admin_jwk_provisioner r.admin_jwk_password_sealed
                          d.auth k.3,
                    ),
                  ))
                  h)
        ]
      ]
    ]

    clear-Achieves : Achieves t (set_admin_auth_none env t) (apply clear_auth s)
    unfolding set_admin_auth_none apply
    clear-Achieves =
        update_row-Achieves set_none _ _ t s
          (λ r d k. (k.0, k.1, k.2, (refl, refl, refl, refl, refl, refl))) h

    save-Achieves :
        (input : Input) → Achieves t (save_settings env input t) (apply (save_connection input) s)
    unfolding save_settings apply
    save-Achieves input = elim (Result-cases (validate_url input.ca_url)) [
      | inl (e, a) ↦ rw (save_settings, a) (err-Achieves e (url_error _ e a) t _)
      | inr (url, a) ↦ elim (Result-cases (validate_fingerprint input.root_fingerprint)) [
        | inl (e, b) ↦ rw (save_settings, a, b) (err-Achieves e (fingerprint_error _ e b) t _)
        | inr (fp, b) ↦ elim (Bool-cases (env.fails save)) [
          | inl c ↦ rw (save_settings, a, b, c) (err-Achieves (failed save) refl t _)
          | inr c ↦
              rw (save_settings, a, b, c)
                (upsert-Achieves env.now url fp (validate_url-eq-ok input.ca_url url a)
                  (validate_fingerprint-eq-ok input.root_fingerprint fp b) t s h)
        ]
      ]
    ]

    -- A command that takes effect does to the stored row what the specification says.
    pub perform-Refines :
        (command : Command)
        → took_effect t (perform env command t).0 ≡ true
        → Represents unseal (perform env command t).1 (apply command s)
    unfolding perform Achieves
    perform-Refines (save_connection input) = save-Achieves input
    perform-Refines (select_name name secret) = select-Achieves name secret
    perform-Refines (upload_credential cert key) = upload-Achieves cert key
    perform-Refines (set_jwk subject provisioner password) =
        set_jwk-Achieves subject provisioner password
    perform-Refines clear_auth = clear-Achieves
