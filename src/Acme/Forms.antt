-- ===== src/Acme/Forms.antt =====
-- internal/app/acme.go: what its handlers read of a request, what they answer, and their texts.
use step_ui_ng.Base.{String, List, [], ◌∷◌, Bool, if◌then◌else◌, ◌==◌, string_eq, Option}
use step_ui_ng.Base.Text.{concat, trim_space}
use step_ui_ng.App.State.{Response}
use step_ui_ng.Certs.Service.{join_comma}
use step_ui_ng.Ca.Eab.{EabKey}
use step_ui_ng.Ca.Fingerprint.{
  CaError, fingerprint_mismatch, unreachable, bad_tls, malformed_response, admin_unauthorized,
  invalid_admin_credential, provisioner_key, admin_request_failed, invalid_provisioner,
}
use step_ui_ng.Acme.Snippets.{ClientSnippet}

-- The form and the path of a request, and the user who sends it; a form that carries no "challenge"
-- has none.
pub record AcmeForm : Type 0 where
  pub actor : String
  pub path_name : String
  pub action : String
  pub name : String
  pub challenges : Option (List String)
  pub require_eab : String
  pub require_eab_present : String
  pub key_id : String
  pub reference : String

-- `acmeProvRow`
pub record AcmeProvRow : Type 0 where
  pub name : String
  pub directory_url : String
  pub challenges : List String
  pub require_eab : Bool

-- `acmeView`, less the challenges that it offers, which are constant.
pub record AcmeView : Type 0 where
  pub provisioners : List AcmeProvRow
  pub has_admin_cred : Bool
  pub ca_settings : Bool
  pub list_error : String

-- `createdEAB`
pub record CreatedEab : Type 0 where
  pub key_id : String
  pub hmac : String

-- `eabView`
pub record EabView : Type 0 where
  pub provisioner : String
  pub directory_url : String
  pub keys : List EabKey
  pub has_admin_cred : Bool
  pub list_error : String
  pub snippets : List ClientSnippet
  pub require_eab : Bool
  pub created : Option CreatedEab

-- A redirect or an error, or a page with its messages, and whether it may not be stored by a cache.
pub data AcmeAnswer : Type 0 where
  plain : Response → AcmeAnswer
  acme_page_of : AcmeView → String → String → AcmeAnswer
  eab_page_of : EabView → String → String → Bool → AcmeAnswer

-- `eabReferenceSuffix`
abbrev pub eab_reference_suffix : String → String
eab_reference_suffix reference =
    if trim_space reference == "" then "" else concat (" reference=" ∷ trim_space reference ∷ [])

abbrev pub challenge_part : List String → List String
challenge_part [] = []
challenge_part (c ∷ cs) = concat ("challenges=" ∷ join_comma (c ∷ cs) ∷ []) ∷ []

-- `strings.Join` with a space
abbrev pub join_space : List String → String
join_space [] = ""
join_space (s ∷ []) = s
join_space (s ∷ t ∷ l) = concat (s ∷ " " ∷ join_space (t ∷ l) ∷ [])

abbrev pub eab_part : Bool → List String
eab_part require_eab = if require_eab then "requireEAB=true" ∷ [] else []

abbrev pub with_part : List String → List String → List String
with_part [] ps = ps
with_part (p ∷ l) ps = p ∷ ps

-- `acmeAuditDetails`
unfoldable pub acme_audit_details : List String → Bool → String
acme_audit_details challenges require_eab =
    join_space (with_part (challenge_part challenges) (eab_part require_eab))

-- `eabErrorMessage`
unfoldable pub eab_error_message : CaError → String
eab_error_message e = elim e [
  | admin_unauthorized ↦
      "The CA rejected the admin credential (unauthorized). Check the admin certificate and key."
  | invalid_admin_credential ↦ "The stored admin credential is invalid."
  | provisioner_key ↦ "Could not decrypt the JWK provisioner key — check the admin password."
  | fingerprint_mismatch ↦ "The CA's root certificate does not match the configured fingerprint."
  | unreachable ↦ "Could not reach the CA at the configured URL."
  | bad_tls ↦ "TLS verification against the pinned root failed."
  | malformed_response ↦
      "The CA returned an unexpected response (EAB may not be enabled on this CA)."
  | admin_request_failed ↦
      "The CA could not complete the EAB request (EAB may require Certificate Manager / remote management)."
  | invalid_provisioner ↦ "Invalid EAB request."
  | _ ↦ "The EAB operation failed."
]

-- `adminAuthMissingMessage`
abbrev pub admin_auth_missing_message : String
admin_auth_missing_message =
    "No admin authentication configured — configure it on the CA settings page (x5c or JWK), or use the Step CLI directly."

-- `provisionerListErrorMessage`
unfoldable pub provisioner_list_error_message : CaError → String
provisioner_list_error_message e = elim e [
  | fingerprint_mismatch ↦ "The CA's root certificate does not match the configured fingerprint."
  | unreachable ↦ "Could not reach the CA at the configured URL."
  | bad_tls ↦ "TLS verification against the pinned root failed."
  | malformed_response ↦ "The CA returned an unexpected response."
  | _ ↦ "Could not list provisioners."
]
