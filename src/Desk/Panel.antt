-- ===== src/Desk/Panel.antt =====
-- internal/app/settings.go: the handlers of the settings' page, and the page of the provisioners.
use step_ui_ng.Base.{
  ℕ, String, List, [], ◌∷◌, Bool, true, false, if◌then◌else◌, ◌==◌, string_eq, Option, none, some,
  Result, ok, err, ◌||◌, length,
}
use step_ui_ng.Base.Text.{concat, trim_space}
use step_ui_ng.App.State.{Response, redirect, http_error}
use step_ui_ng.Desk.State.{Desk, DeskEnv, noted, put_error_text, put_flash_text}
use step_ui_ng.Settings.Store.{
  SettingsError, no_settings, invalid_url, invalid_fingerprint_text, jwk_required,
}
use step_ui_ng.Settings.Repo.{get_settings, Outcome}
use step_ui_ng.Settings.Spec.{
  Command, perform, save_connection, upload_credential, set_jwk, clear_auth,
}
use step_ui_ng.Ca.Fingerprint.{
  CaError, fingerprint_mismatch, unreachable, bad_tls, malformed_response, invalid_fingerprint,
  invalid_admin_credential,
}
use step_ui_ng.Ca.Token.{new_admin_credential}
use step_ui_ng.Ca.Pinned.{test_connection}
use step_ui_ng.Ca.Net.{Call}

-- The first block of a PEM text: whether it is a CERTIFICATE, and the certificate in it, or the text of
-- the parser's error.
pub data Usage : Type 0 where
  any_usage client_auth other_usage : Usage

pub record LeafCert : Type 0 where
  pub common_name : String
  pub usages : List Usage

pub record Block : Type 0 where
  pub is_certificate : Bool
  pub parsed : Result String LeafCert

-- What a request to the settings' page meets besides: the PEM decoder with the X.509 parser, and the
-- detail that the error of a refused credential names.
pub record PanelEnv : Type 0 where
  pub desk_env : DeskEnv
  pub first_block : String → Option Block
  pub credential_detail : String

pub record PanelForm : Type 0 where
  pub actor : String
  pub ca_url : String
  pub root_fingerprint : String
  pub method : String
  pub subject : String
  pub provisioner : String
  pub password : String
  pub cert : String
  pub key : String

-- A redirect or an error, or the outcome of a test with the number of roots.
pub data PanelAnswer : Type 0 where
  plain : Response → PanelAnswer
  test_failed : ℕ → String → PanelAnswer
  test_succeeded : ℕ → PanelAnswer

abbrev pub Answer : Type 0
Answer = Option PanelAnswer × Desk

-- `adminAuthErrorMessage`; only the error of a blank subject or provisioner has their names in it.
unfoldable pub admin_auth_error_message : SettingsError → String
admin_auth_error_message e = elim e [
  | no_settings ↦ "Save the CA connection first, then configure admin authentication."
  | jwk_required ↦ "Both admin subject and provisioner name are required for JWK authentication."
  | _ ↦ "Could not save admin authentication settings."
]

-- `settingsErrorMessage`
unfoldable pub settings_error_message : SettingsError → String
settings_error_message e = elim e [
  | invalid_url ↦ "CA URL must start with http:// or https://."
  | invalid_fingerprint_text ↦ "Root fingerprint must be 40–64 hexadecimal characters."
  | _ ↦ "Could not save CA settings."
]

-- `testFailureMessage`
unfoldable pub test_failure_message : CaError → String
test_failure_message e = elim e [
  | fingerprint_mismatch ↦ "The CA's root certificate does not match the configured fingerprint."
  | unreachable ↦ "Could not reach the CA at the configured URL."
  | bad_tls ↦ "TLS verification against the pinned root failed."
  | malformed_response ↦ "The CA returned an unexpected response."
  | invalid_fingerprint ↦ "The configured fingerprint is not valid."
  | _ ↦ "Connection test failed."
]

-- `x5cCredentialErrorMessage`
unfoldable pub x5c_credential_error_message : String → CaError → String
x5c_credential_error_message detail e = elim e [
  | invalid_admin_credential ↦ concat ("Invalid admin credential: " ∷ detail ∷ [])
  | _ ↦ "Invalid admin credential."
]

abbrev pub permits_client : Usage → Bool
permits_client any_usage = true
permits_client client_auth = true
permits_client other_usage = false

abbrev pub some_permits_client : List Usage → Bool
some_permits_client [] = false
some_permits_client (u ∷ us) = permits_client u || some_permits_client us

abbrev pub leaf_allows : Result String LeafCert → Result String (Unit {0})
leaf_allows (err text) = err (concat ("invalid admin credential: parse leaf: " ∷ text ∷ []))
leaf_allows (ok leaf) =
    if some_permits_client leaf.usages
    then ok tt
    else err
        "invalid admin credential: leaf certificate must have the clientAuth (or any) extended key usage (required by Step-CA)"

-- `requireClientAuth`
unfoldable pub require_client_auth : Option Block → Result String (Unit {0})
require_client_auth none = err "invalid admin credential: cannot parse the certificate"
require_client_auth (some b) =
    if b.is_certificate
    then leaf_allows b.parsed
    else err "invalid admin credential: cannot parse the certificate"

abbrev pub name_of : Result String LeafCert → String
name_of (err text) = ""
name_of (ok leaf) = leaf.common_name

-- `parseLeafCN`
unfoldable pub parse_leaf_cn : Option Block → String
parse_leaf_cn none = ""
parse_leaf_cn (some b) = name_of b.parsed

abbrev pub redirected : Desk → Answer
redirected d = (some (plain (redirect "/settings")), d)

module _ (w : PanelEnv) where
  -- An operation of the settings that is confirmed and recorded, or whose error is told.
  abbrev pub saved :
      (SettingsError → String)
      → String
      → (actor event target details : String) → Outcome
      → Desk
      → Answer
  saved message text actor event target details (err e, t) d =
      redirected (put_error_text (message e) (record d { settings = t }))
  saved message text actor event target details (ok u, t) d = redirected (
      noted w.desk_env actor event target details (put_flash_text text (record d { settings = t })))

  -- `postSettings`
  unfoldable pub post_settings : PanelForm → Desk → Answer
  post_settings f d =
      saved settings_error_message "CA settings saved." f.actor "settings.update" "ca_settings"
        (concat ("ca_url=" ∷ f.ca_url ∷ []))
        (perform w.desk_env.settings_env
          (save_connection record { ca_url = f.ca_url; root_fingerprint = f.root_fingerprint })
          d.settings)
        d

  -- The credential of the form, if it may be stored, or the text that refuses it.
  unfoldable pub checked_credential : PanelForm → Result String (String × String)
  checked_credential f =
      let cert = trim_space f.cert in
      let key = trim_space f.key in
      if cert == "" || key == ""
      then err "Certificate and key are required for x5c authentication."
      else elim (new_admin_credential w.desk_env.ca cert key) [
        | err e ↦ err (x5c_credential_error_message w.credential_detail e)
        | ok cred ↦ elim (require_client_auth (w.first_block cert)) [
          | err text ↦ err text
          | ok u ↦ ok (cert, key)
        ]
      ]

  -- The operation that the form asks for, or the text that refuses it.
  unfoldable pub chosen_command : PanelForm → Result String Command
  chosen_command f =
      let method = trim_space f.method in
      if method == "jwk"
      then ok (set_jwk f.subject f.provisioner f.password)
      else if method == "none"
      then ok clear_auth
      else if method == "x5c"
      then elim (checked_credential f) [
        | err text ↦ err text
        | ok (cert, key) ↦ ok (upload_credential cert key)
      ]
      else err "Unknown admin authentication method."

  abbrev pub confirmation : PanelForm → String
  confirmation f =
      if trim_space f.method == "jwk"
      then "Admin authentication saved (JWK)."
      else if trim_space f.method == "none"
      then "Admin authentication cleared."
      else "Admin authentication saved (x5c)."

  abbrev pub details_of : PanelForm → String
  details_of f =
      if trim_space f.method == "jwk"
      then concat ("method=jwk subject=" ∷ f.subject ∷ " provisioner=" ∷ f.provisioner ∷ [])
      else if trim_space f.method == "none"
      then "method=none"
      else concat ("method=x5c subject=" ∷ parse_leaf_cn (w.first_block (trim_space f.cert)) ∷ [])

  -- `postAdminAuth`
  unfoldable pub post_admin_auth : PanelForm → Desk → Answer
  post_admin_auth f d = elim (chosen_command f) [
    | err text ↦ redirected (put_error_text text d)
    | ok command ↦
        saved admin_auth_error_message (confirmation f) f.actor "settings.admin_auth" "admin_auth"
          (details_of f) (perform w.desk_env.settings_env command d.settings) d
  ]

  abbrev pub tested : Desk → Result CaError (List String) × List Call → Answer
  tested d (err e, l) = (some (test_failed 200 (test_failure_message e)), record d { calls = l })
  tested d (ok roots, l) = (some (test_succeeded (length roots)), record d { calls = l })

  -- `postSettingsTest`
  unfoldable pub post_settings_test : Desk → Answer
  post_settings_test d = elim (get_settings w.desk_env.settings_env d.settings) [
    | err e ↦ (some (plain (http_error 500 "internal error")), d)
    | ok none ↦ (some (test_failed 400 "No CA settings saved yet — save the connection first."), d)
    | ok (some v) ↦ tested d (test_connection w.desk_env.ca v.ca_url v.root_fingerprint d.calls)
  ]
