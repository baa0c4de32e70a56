-- ===== src/Acme/Settled.antt =====
-- The pages of internal/app/acme.go leave the settings alone.
use step_ui_ng.Base.{
  refl, ok, err, none, some, inl, inr, true, false, Bool, String, Result, ◌≡◌, if◌then◌else◌, List,
  Result-cases, Bool-cases, not, ◌==◌, ◌&&◌, string_eq, ◌∷◌, [],
}
use step_ui_ng.Acme.Handlers.{
  Answer, Report, current_acme_options, acme_admin_context, with_keys, get_acme, get_eab,
  post_acme_provisioners, post_acme_provisioner, post_eab, finished, after_creation,
}
use step_ui_ng.Desk.State.{DeskEnv, Desk, noted}
use step_ui_ng.Acme.Forms.{AcmeForm, eab_reference_suffix}
use step_ui_ng.Acme.Guarded.{
  respond, AcmeRequest, keys_page, create_one, edit_or_delete, key_action, list_page,
}
use step_ui_ng.Settings.Store.{View}
use step_ui_ng.Ca.Provisioners.{AcmeProvisioner, list_acme_provisioners}
use step_ui_ng.Ca.Token.{AdminCredential}
use step_ui_ng.Ca.Fingerprint.{CaError}
use step_ui_ng.Desk.Settled.{KeepsSettings, settled-KeepsSettings}
use step_ui_ng.Settings.Repo.{get_settings}
use step_ui_ng.Ca.Eab.{EabKey, list_eab_keys}
use step_ui_ng.Desk.Provisioners.{view_has_admin_auth, admin_auth, credential_of_source}
use step_ui_ng.Ca.Net.{Call}
use step_ui_ng.Base.Text.{concat}

module _ (w : DeskEnv) where
  finished-settings {ℓ} :
      {A : Type ℓ} (r : Report) (d : Desk) (o : Result CaError A × List Call)
      → (finished w r d o).1.settings ≡ d.settings
  finished-settings r d (err e, l) = refl
  finished-settings r d (ok a, l) = refl

  current-KeepsSettings :
      (v : View) (name : String) (next : AcmeProvisioner → Desk → Answer)
      → ((p : AcmeProvisioner) → KeepsSettings (next p))
      → KeepsSettings (current_acme_options w v name next)
  unfolding current_acme_options
  current-KeepsSettings v name next n d =
      settled-KeepsSettings d
        (list_acme_provisioners w.ca w.fuel v.ca_url v.root_fingerprint d.calls) _ _ (λ e. n _)
        (λ list. n _)

  context-KeepsSettings :
      (next : View → AdminCredential → Desk → Answer)
      → ((v : View) (cred : AdminCredential) → KeepsSettings (next v cred))
      → KeepsSettings (acme_admin_context w next)
  unfolding acme_admin_context
  context-KeepsSettings next n d = elim (Result-cases (get_settings w.settings_env d.settings)) [
    | inl (e, x) ↦ rw (acme_admin_context, x) refl
    | inr (none, x) ↦ rw (acme_admin_context, x) refl
    | inr (some v, x) ↦ elim (Result-cases (admin_auth w v d.settings)) [
      | inl (e, y) ↦ rw (acme_admin_context, x, y) refl
      | inr (none, y) ↦ rw (acme_admin_context, x, y) refl
      | inr (some (err e), y) ↦ rw (acme_admin_context, x, y) refl
      | inr (some (ok source), y) ↦
          rw (acme_admin_context, x, y)
            (settled-KeepsSettings d (credential_of_source w source d.calls) _ (next v)
              (λ e d'. refl) (n v))
    ]
  ]

  after_creation-settings :
      (f : AcmeForm) (v : View) (cred : AdminCredential) (d : Desk)
      (o : Result CaError EabKey × List Call)
      → (after_creation w f v cred d o).1.settings ≡ d.settings
  after_creation-settings f v cred d (err e, l) = refl
  after_creation-settings f v cred d (ok key, l) =
      let d' =
        noted w f.actor "acme.eab.create" f.path_name
          (concat ("keyID=" ∷ key.key_id ∷ eab_reference_suffix f.reference ∷ []))
          (record d { calls = l }) in
      settled-KeepsSettings d'
        (list_eab_keys w.ca w.fuel v.ca_url v.root_fingerprint cred f.path_name l) _ _
        (λ e d''. refl) (λ keys d''. refl)

  with_keys-KeepsSettings :
      (provisioner : String) (v : View) (p : AcmeProvisioner)
      → KeepsSettings (with_keys w provisioner v p)
  unfolding with_keys
  with_keys-KeepsSettings provisioner v p d = elim (Bool-cases (view_has_admin_auth v)) [
    | inr x ↦ rw x refl
    | inl x ↦ rw x (elim (Result-cases (admin_auth w v d.settings)) [
      | inl (e, y) ↦ rw y refl
      | inr (none, y) ↦ rw y refl
      | inr (some (err e), y) ↦ rw y refl
      | inr (some (ok source), y) ↦ rw y (
          settled-KeepsSettings d (credential_of_source w source d.calls) _ _ (λ e d'. refl)
            (λ cred d'.
              settled-KeepsSettings d'
                (list_eab_keys w.ca w.fuel v.ca_url v.root_fingerprint cred provisioner d'.calls) _
                _ (λ e e'. refl) (λ keys e'. refl)))
    ])
  ]

  if-KeepsSettings :
      (b : Bool) (x y : Answer) (d : Desk)
      → x.1.settings ≡ d.settings
      → y.1.settings ≡ d.settings
      → (if b then x else y).1.settings ≡ d.settings
  if-KeepsSettings true x y d g h = g
  if-KeepsSettings false x y d g h = h

  pub respond-KeepsSettings : (q : AcmeRequest) → KeepsSettings (respond w q)
  unfolding respond get_acme get_eab post_acme_provisioners post_acme_provisioner post_eab
  respond-KeepsSettings list_page d = elim (Result-cases (get_settings w.settings_env d.settings)) [
    | inl (e, x) ↦ rw (get_acme, x) refl
    | inr (none, x) ↦ rw (get_acme, x) refl
    | inr (some v, x) ↦
        rw (get_acme, x)
          (settled-KeepsSettings d
            (list_acme_provisioners w.ca w.fuel v.ca_url v.root_fingerprint d.calls) _ _
            (λ e d'. refl) (λ list d'. refl))
  ]
  respond-KeepsSettings (keys_page provisioner) d =
      elim (Result-cases (get_settings w.settings_env d.settings)) [
        | inl (e, x) ↦ rw (get_eab, x) refl
        | inr (none, x) ↦ rw (get_eab, x) refl
        | inr (some v, x) ↦
            rw (get_eab, x)
              (current-KeepsSettings v provisioner _ (with_keys-KeepsSettings provisioner v) d)
      ]
  respond-KeepsSettings (create_one f) d =
      context-KeepsSettings _ (λ v cred e. finished-settings _ e _) d
  respond-KeepsSettings (edit_or_delete f) d =
      if-KeepsSettings (not (f.action == "delete") && not (f.action == "edit")) _ _ d refl (
        context-KeepsSettings _
          (λ v cred e.
            if-KeepsSettings (f.action == "delete") _ _ e (finished-settings _ e _)
              (current-KeepsSettings v f.path_name _ (λ p e'. finished-settings _ e' _) e))
          d)
  respond-KeepsSettings (key_action f) d =
      context-KeepsSettings _
        (λ v cred e.
          if-KeepsSettings (f.action == "delete") _ _ e (finished-settings _ e _)
            (after_creation-settings f v cred e _))
        d
