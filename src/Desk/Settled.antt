-- ===== src/Desk/Settled.antt =====
-- Which handlers of the pages for provisioners leave the settings alone.
use step_ui_ng.Base.{
  refl, ok, err, none, some, inl, inr, true, false, ◌≡◌, Result, Bool, not, Result-cases, Option,
  List, ◌==◌, if◌then◌else◌, string_eq,
}
use step_ui_ng.Desk.State.{Desk, DeskEnv, Form, Answer, pop_texts, settled}
use step_ui_ng.Desk.Provisioners.{
  with_credential, with_settings, post_provisioners, post_provisioner, admin_auth,
  credential_of_source, created, deleted, text_of_error,
}
use step_ui_ng.Desk.Listed.{get_provisioners, get_settings_page}
use step_ui_ng.Ca.Fingerprint.{CaError}
use step_ui_ng.Settings.Store.{View, SettingsTable}
use step_ui_ng.Ca.Token.{AdminCredential}
use step_ui_ng.Settings.Repo.{get_settings}
use step_ui_ng.Ca.Net.{Provisioner, Call}
use step_ui_ng.Ca.Provisioners.{list_provisioners}

-- A handler that leaves the settings alone.
abbrev pub KeepsSettings : {R : Type 0} → (Desk → R × Desk) → Type 0
KeepsSettings k = (d : Desk) → (k d).1.settings ≡ d.settings

pub settled-KeepsSettings {ℓ} :
    {A : Type ℓ} {R : Type 0} (d : Desk) (o : Result CaError (Option A) × List Call)
    (fail : CaError → Desk → Option R × Desk) (next : A → Desk → Option R × Desk)
    → ((e : CaError) → KeepsSettings (fail e))
    → ((a : A) → KeepsSettings (next a))
    → (settled d o fail next).1.settings ≡ d.settings
settled-KeepsSettings d (err e, l) fail next f n = f e (record d { calls = l })
settled-KeepsSettings d (ok none, l) fail next f n = refl
settled-KeepsSettings d (ok (some a), l) fail next f n = n a (record d { calls = l })

module _ (w : DeskEnv) where
  with_credential-KeepsSettings :
      (v : View) (next : AdminCredential → Desk → Answer)
      → ((cred : AdminCredential) → KeepsSettings (next cred))
      → KeepsSettings (with_credential w v next)
  unfolding with_credential
  with_credential-KeepsSettings v next n d = elim (Result-cases (admin_auth w v d.settings)) [
    | inl (e, x) ↦ rw (with_credential, x) refl
    | inr (none, x) ↦ rw (with_credential, x) refl
    | inr (some (err e), x) ↦ rw (with_credential, x) refl
    | inr (some (ok source), x) ↦
        rw (with_credential, x)
          (settled-KeepsSettings d (credential_of_source w source d.calls) (text_of_error w) next
            (λ e d'. refl) n)
  ]

  with_settings-KeepsSettings :
      (next : View → Desk → Answer)
      → ((v : View) → KeepsSettings (next v))
      → KeepsSettings (with_settings w next)
  unfolding with_settings
  with_settings-KeepsSettings next n d =
      elim (Result-cases (get_settings w.settings_env d.settings)) [
        | inl (e, x) ↦ rw (with_settings, x) refl
        | inr (none, x) ↦ rw (with_settings, x) refl
        | inr (some v, x) ↦ rw (with_settings, x) (n v d)
      ]

  created-settings :
      (f : Form) (d : Desk) (o : Result CaError Provisioner × List Call)
      → (created w f d o).1.settings ≡ d.settings
  created-settings f d (err e, l) = refl
  created-settings f d (ok p, l) = refl

  deleted-settings :
      (f : Form) (d : Desk) (o : Result CaError (Unit {0}) × List Call)
      → (deleted w f d o).1.settings ≡ d.settings
  deleted-settings f d (err e, l) = refl
  deleted-settings f d (ok u, l) = refl

  if-settings :
      (b : Bool) (x y : Answer) (t : SettingsTable)
      → x.1.settings ≡ t
      → y.1.settings ≡ t
      → (if b then x else y).1.settings ≡ t
  if-settings true x y t h g = h
  if-settings false x y t h g = g

  pub post_provisioners-KeepsSettings : (f : Form) → KeepsSettings (post_provisioners w f)
  unfolding post_provisioners
  post_provisioners-KeepsSettings f =
      with_settings-KeepsSettings _
        (λ v. with_credential-KeepsSettings v _ (λ cred d. created-settings f d _))

  pub post_provisioner-KeepsSettings : (f : Form) → KeepsSettings (post_provisioner w f)
  unfolding post_provisioner
  post_provisioner-KeepsSettings f d =
      if-settings (not (f.action == "delete")) _ _ d.settings refl (
        with_settings-KeepsSettings _
          (λ v e.
            if-settings (f.path_name == v.selected_provisioner) _ _ e.settings refl
              (with_credential-KeepsSettings v _ (λ cred e'. deleted-settings f e' _) e))
          d)

  pub get_provisioners-KeepsSettings : KeepsSettings (get_provisioners w)
  unfolding get_provisioners
  get_provisioners-KeepsSettings d = elim (Result-cases (get_settings w.settings_env d.settings)) [
    | inl (e, x) ↦ rw (get_provisioners, x) refl
    | inr (none, x) ↦ rw (get_provisioners, x) refl
    | inr (some v, x) ↦
        rw (get_provisioners, x)
          (settled-KeepsSettings (pop_texts d)
            (list_provisioners w.ca w.fuel v.ca_url v.root_fingerprint d.calls) _ _ (λ e d'. refl)
            (λ list d'. refl))
  ]

  pub get_settings_page-KeepsSettings : KeepsSettings (get_settings_page w)
  unfolding get_settings_page
  get_settings_page-KeepsSettings d = elim (Result-cases (get_settings w.settings_env d.settings)) [
    | inl (e, x) ↦ rw (get_settings_page, x) refl
    | inr (found, x) ↦ rw (get_settings_page, x) refl
  ]
