-- ===== src/Desk/Provisioners.antt =====
-- internal/app/provisioners.go: to select, create and delete provisioners.
use step_ui_ng.Ca.Fingerprint.{
  invalid_provisioner, admin_unauthorized, invalid_admin_credential, provisioner_key,
  fingerprint_mismatch, unreachable, bad_tls, admin_request_failed, CaError,
}
use step_ui_ng.Settings.Store.{
  no_settings, auth_none, auth_x5c, auth_jwk, SettingsError, View, SettingsTable,
}
use step_ui_ng.Desk.State.{Desk, DeskEnv, Form, Answer, refuse, settled, confirm, noted}
use step_ui_ng.Base.{
  String, Result, List, Bool, Option, [], if◌then◌else◌, err, some, false, not, ok, ◌==◌, none,
  string_eq, ◌∷◌,
}
use step_ui_ng.Ca.Token.{AdminCredential, new_admin_credential}
use step_ui_ng.Ca.Spec.{NewProvisionerSpec}
use step_ui_ng.Certs.World.{SignRequest}
use step_ui_ng.Settings.Repo.{
  get_settings, select_provisioner_op, read_admin_credential, read_jwk_password, Outcome,
}
use step_ui_ng.Ca.Net.{Provisioner, Call}
use step_ui_ng.Ca.Provisioners.{create_provisioner, delete_provisioner}
use step_ui_ng.Base.Int.{pos}
use step_ui_ng.Ca.Revoke.{minted_credential}
use step_ui_ng.App.State.{http_error}
use step_ui_ng.Base.Text.{concat}

-- `provisionerSelectErrorMessage`
unfoldable pub select_error_message : SettingsError → String
select_error_message no_settings = "Configure the CA connection first."
select_error_message e = "Could not select the provisioner."

-- `provisionerCreateErrorMessage`; the hint stands for `provisionerValidationMessage`.
unfoldable pub provisioner_error_message : String → CaError → String
provisioner_error_message hint e = elim e [
  | invalid_provisioner ↦ hint
  | admin_unauthorized ↦
      "The CA rejected the admin credential (unauthorized). Check the admin certificate and key."
  | invalid_admin_credential ↦ "The stored admin credential is invalid."
  | provisioner_key ↦ "Could not decrypt the JWK provisioner key — check the admin password."
  | fingerprint_mismatch ↦ "The CA's root certificate does not match the configured fingerprint."
  | unreachable ↦ "Could not reach the CA at the configured URL."
  | bad_tls ↦ "TLS verification against the pinned root failed."
  | admin_request_failed ↦ "The CA could not complete the request."
  | _ ↦ "The provisioner operation failed."
]

-- `viewHasAdminAuth`
unfoldable pub view_has_admin_auth : View → Bool
view_has_admin_auth v = elim v.admin_auth_method [
  | auth_x5c ↦ v.has_admin_key
  | auth_jwk ↦ v.has_admin_jwk
  | auth_none ↦ false
]

-- `ca.AdminAuth`: a stored credential, or the parameters of a minted one with its subject.
pub data AdminSource : Type 0 where
  stored : AdminCredential → AdminSource
  minted : SignRequest → String → AdminSource

abbrev pub stored_of : Result CaError AdminCredential → Result CaError AdminSource
stored_of (err e) = err e
stored_of (ok cred) = ok (stored cred)

module _ (w : DeskEnv) where
  abbrev pub stored_source :
      Result SettingsError (Option (String × String))
      → Result SettingsError (Option (Result CaError AdminSource))
  stored_source (err e) = err e
  stored_source (ok none) = ok none
  stored_source (ok (some (cert, key))) = ok (some (stored_of (new_admin_credential w.ca cert key)))

  abbrev pub minted_source :
      View
      → Result SettingsError (Option String)
      → Result SettingsError (Option (Result CaError AdminSource))
  minted_source v (err e) = err e
  minted_source v (ok none) = ok none
  minted_source v (ok (some password)) = ok (
      some (
        ok (
          minted
            record {
              ca_url = v.ca_url;
              fingerprint = v.root_fingerprint;
              provisioner_name = v.admin_jwk_provisioner;
              password = password;
              csr_pem = "";
              validity_days = pos 0;
            }
            v.admin_jwk_subject)))

  -- `adminAuth`: an error of the settings, or of the stored credential, or a source, or none.
  unfoldable pub admin_auth :
      View → SettingsTable → Result SettingsError (Option (Result CaError AdminSource))
  admin_auth v t = elim v.admin_auth_method [
    | auth_x5c ↦ stored_source (read_admin_credential w.settings_env t)
    | auth_jwk ↦ minted_source v (read_jwk_password w.settings_env t)
    | auth_none ↦ ok none
  ]

  -- `AdminAuth.Credential`
  unfoldable pub credential_of_source :
      AdminSource → List Call → Result CaError (Option AdminCredential) × List Call
  credential_of_source (stored cred) l = (ok (some cred), l)
  credential_of_source (minted p subject) l = minted_credential w.ca w.fuel p w.ephemeral subject l

  abbrev pub text_of_error : CaError → Desk → Answer
  text_of_error e d = refuse (provisioner_error_message w.hint e) d

  -- What a handler does with the credential of the admin, if there is one.
  unfoldable pub with_credential : View → (AdminCredential → Desk → Answer) → Desk → Answer
  with_credential v next d = elim (admin_auth v d.settings) [
    | err e ↦ refuse "Could not load the admin credential." d
    | ok none ↦
        refuse
          "No admin authentication configured — configure it on the CA settings page (x5c or JWK), or use the Step CLI directly."
          d
    | ok (some (err e)) ↦ refuse "Could not load the admin credential." d
    | ok (some (ok source)) ↦ settled d (credential_of_source source d.calls) text_of_error next
  ]

  -- What a handler does with the settings, if there are any.
  unfoldable pub with_settings : (View → Desk → Answer) → Desk → Answer
  with_settings next d = elim (get_settings w.settings_env d.settings) [
    | err e ↦ (some (http_error 500 "internal error"), d)
    | ok none ↦ refuse "Configure the CA connection first." d
    | ok (some v) ↦ next v d
  ]

  abbrev pub selected : Form → Outcome → Desk → Answer
  selected f (err e, t) d = refuse (select_error_message e) (record d { settings = t })
  selected f (ok u, t) d =
      confirm "Active provisioner updated."
        (noted w f.actor "provisioner.select" f.name "" (record d { settings = t }))

  -- `postProvisionerSelect`
  unfoldable pub post_provisioner_select : Form → Desk → Answer
  post_provisioner_select f d =
      selected f (select_provisioner_op w.settings_env f.name f.secret d.settings) d

  abbrev pub spec_of : Form → NewProvisionerSpec
  spec_of f = record {
    name = f.name;
    kind = f.kind;
    jwk_secret = f.secret;
    acme_challenges = [];
    acme_require_eab = false;
  }

  abbrev pub created : Form → Desk → Result CaError Provisioner × List Call → Answer
  created f d (err e, l) = text_of_error e (record d { calls = l })
  created f d (ok p, l) = confirm "Provisioner created." (
      noted w f.actor "provisioner.create" f.name (concat ("type=" ∷ f.kind ∷ []))
        (record d { calls = l }))

  -- `postProvisioners`
  unfoldable pub post_provisioners : Form → Desk → Answer
  post_provisioners f = with_settings (λ v. with_credential v (λ cred d.
      created f d (create_provisioner w.ca v.ca_url v.root_fingerprint cred (spec_of f) d.calls)))

  abbrev pub deleted : Form → Desk → Result CaError (Unit {0}) × List Call → Answer
  deleted f d (err e, l) = text_of_error e (record d { calls = l })
  deleted f d (ok u, l) =
      confirm "Provisioner deleted."
        (noted w f.actor "provisioner.delete" f.path_name "" (record d { calls = l }))

  -- `postProvisioner`
  unfoldable pub post_provisioner : Form → Desk → Answer
  post_provisioner f d =
      if not (f.action == "delete")
      then (some (http_error 400 "unknown action"), d)
      else with_settings
          (λ v e.
            if f.path_name == v.selected_provisioner
            then refuse "Cannot delete the active provisioner — select a different one first." e
            else with_credential v
                (λ cred e'.
                  deleted f e'
                    (delete_provisioner w.ca v.ca_url v.root_fingerprint cred f.path_name e'.calls))
                e)
          d
