-- ===== src/Pages/State.antt =====
-- internal/app/certs.go and revoke.go: what the handlers read of a request, what they answer, and the
-- texts of errors.
use step_ui_ng.Base.{
  String, Bool, Option, Result, ℕ, some, none, ok, err, if◌then◌else◌, ◌==◌, string_eq,
}
use step_ui_ng.Base.Int.{ℤ}
use step_ui_ng.Certs.World.{
  World, Certificate, CertError, invalid_input, invalid_csr, not_found, already_revoked,
  reason_required, ca,
}
use step_ui_ng.Ca.Fingerprint.{
  sign_rejected, provisioner_not_found, provisioner_key, fingerprint_mismatch, unreachable, bad_tls,
  ca_invalid_csr, revoke_failed, revoke_invalid,
}
use step_ui_ng.Certs.Inventory.{Reading}
use step_ui_ng.Settings.Store.{SettingsEnv, SettingsTable, View}
use step_ui_ng.Settings.Repo.{get_settings, read_selected_secret}
use step_ui_ng.Certs.Parsed.{ParsedLeaf}

-- What one request meets: the settings with the calls of their repository, the service with what its
-- reading of the inventory calls, the days that the configuration gives for a renewal, and the
-- decoder of PEM with the parser of X.509.
pub record PageEnv : Type 0 where
  pub settings_env : SettingsEnv
  pub settings : SettingsTable
  pub world : World
  pub reading : Reading
  pub renew_default_days : ℤ
  pub parse_leaf : String → Option ParsedLeaf

-- The form and the path of a request, and the user who sends it.
pub record CertForm : Type 0 where
  pub actor : String
  pub path_id : String
  pub cn : String
  pub sans : String
  pub validity : String
  pub format : String
  pub pfx_password : String
  pub csr : String
  pub confirm : String
  pub reason : String
  pub reason_code : String

-- An error, the form to issue or to sign, empty or with its message or its result and whether it may not be
-- stored by a cache, or the page of a certificate with its messages and the days for a renewal.
pub data CertAnswer : Type 0 where
  refused : ℕ → String → CertAnswer
  form_shown : (active_provisioner : String) → CertAnswer
  form_failed : (active_provisioner message : String) → CertAnswer
  form_done : (active_provisioner : String) → Certificate → Bool → CertAnswer
  detail : ℕ → Certificate → (flash message : String) → ℤ → CertAnswer

-- `issuanceConn`
pub record Conn : Type 0 where
  pub ca_url : String
  pub fingerprint : String
  pub provisioner : String
  pub password : String

-- `caSignErrorMessage`, of an error of the service.
unfoldable pub ca_sign_error_message : CertError → String
ca_sign_error_message e = elim e [
  | ca c ↦ elim c [
    | sign_rejected ↦
        "The CA rejected the request — the validity may exceed the provisioner's maximum, or the request violates a policy."
    | provisioner_not_found ↦
        "The active provisioner was not found on the CA. Re-check the selection."
    | provisioner_key ↦
        "Could not use the provisioner key — the stored provisioner secret is likely wrong."
    | fingerprint_mismatch ↦ "The CA's root certificate does not match the configured fingerprint."
    | unreachable ↦ "Could not reach the CA at the configured URL."
    | bad_tls ↦ "TLS verification against the pinned root failed."
    | ca_invalid_csr ↦ "The CSR was rejected as invalid."
    | _ ↦ "The certificate operation failed."
  ]
  | _ ↦ "The certificate operation failed."
]

-- `issueErrorMessage`
unfoldable pub issue_error_message : CertError → String
issue_error_message e = elim e [
  | invalid_input ↦
      "Check the inputs: a common name is required (and a PFX password for the PKCS#12 format)."
  | other ↦ ca_sign_error_message other
]

-- `signErrorMessage`
unfoldable pub sign_error_message : CertError → String
sign_error_message e = elim e [
  | invalid_csr ↦
      "The CSR could not be parsed or its signature did not verify. Paste a valid PEM CSR."
  | other ↦ ca_sign_error_message other
]

-- `revokeErrorMessage`
unfoldable pub revoke_error_message : CertError → String
revoke_error_message e = elim e [
  | already_revoked ↦ "This certificate is already revoked."
  | reason_required ↦ "A revocation reason is required."
  | not_found ↦ "The certificate was not found."
  | ca c ↦ elim c [
    | revoke_failed ↦
        "The CA rejected the revoke request — the certificate was NOT revoked. Local status is unchanged."
    | revoke_invalid ↦ "The revoke request was invalid (missing serial)."
    | other ↦ ca_sign_error_message (ca other)
  ]
  | other ↦ ca_sign_error_message other
]

-- `renewErrorMessage`
unfoldable pub renew_error_message : CertError → String
renew_error_message e = elim e [
  | not_found ↦ "The certificate was not found."
  | other ↦ ca_sign_error_message other
]

module _ (w : PageEnv) where
  abbrev pub active_of : Option View → String
  active_of none = ""
  active_of (some v) = v.selected_provisioner

  -- `loadActiveProvisioner`
  unfoldable pub load_active_provisioner : String
  load_active_provisioner = elim (get_settings w.settings_env w.settings) [
    | err e ↦ ""
    | ok found ↦ active_of found
  ]

  -- `resolveConn`: the connection, or the message that says what is missing.
  unfoldable pub resolve_conn : Result String Conn
  resolve_conn = elim (get_settings w.settings_env w.settings) [
    | err e ↦ err "Could not load the CA settings."
    | ok none ↦ err "Configure the CA connection first (CA settings)."
    | ok (some v) ↦
        if v.selected_provisioner == ""
        then err "Select an active provisioner first (Provisioners)."
        else elim (read_selected_secret w.settings_env w.settings) [
          | err e ↦ err "Could not load the provisioner secret."
          | ok none ↦
              err "The active provisioner has no stored secret — set it on the Provisioners page."
          | ok (some secret) ↦ ok record {
            ca_url = v.ca_url;
            fingerprint = v.root_fingerprint;
            provisioner = v.selected_provisioner;
            password = secret;
          }
        ]
  ]
