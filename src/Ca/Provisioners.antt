-- ===== src/Ca/Provisioners.antt =====
-- internal/ca/provisioners.go and acme.go: to list, create, change and delete provisioners.
use step_ui_ng.Ca.Net.{
  ◌>>=◌, ◌>>◌, Net, CaWorld, Trust, Page, AcmeWire, pure, Provisioner, fetch, lift, or_raise,
  raise_if, admin_request, no_body,
}
use step_ui_ng.Base.{
  true, String, List, ℕ, Bool, if◌then◌else◌, Option, ◌==◌, not, ◌∷◌, none, ◌++◌, some, [],
  string_eq, suc, zero, false,
}
use step_ui_ng.Ca.Spec.{NewProvisionerSpec, validate_spec, build_create_body}
use step_ui_ng.Ca.Token.{AdminCredential, generate_admin_token}
use step_ui_ng.Ca.Fingerprint.{base_url, malformed_response, invalid_provisioner}
use step_ui_ng.Ca.Pinned.{pinned_client_for}
use step_ui_ng.Base.Text.{concat}

-- `ACMEProvisioner`
pub record AcmeProvisioner : Type 0 where
  pub name : String
  pub challenges : List String
  pub require_eab : Bool

abbrev pub admin_url_path : String
admin_url_path = "/admin/provisioners"

abbrev pub admin_endpoint : String → String
admin_endpoint base = concat (base ∷ admin_url_path ∷ [])

abbrev pub admin_target : CaWorld → String → String → String
admin_target w base name = concat (admin_endpoint base ∷ "/" ∷ w.path_escape name ∷ [])

-- The loop over the pages of a list, that ends at an empty cursor. It is not bounded in the source;
-- `none` says that it has not ended after as many pages as the fuel allows.
unfoldable pub follow {ℓ} :
    {A : Type ℓ} → (String → Net (Page A)) → ℕ → String → List A → Net (Option (List A))
follow ask zero cursor out = pure none
follow ask (suc fuel) cursor out = do
  (entries, next) ← ask cursor
  elim (next == "") [
    | true ↦ pure (some (out ++ entries))
    | false ↦ follow ask fuel next (out ++ entries)
  ]

-- The entries of the type ACME, as the caller reads them.
unfoldable pub acme_only : List AcmeWire → List AcmeProvisioner
acme_only [] = []
acme_only (p ∷ ps) =
    let rest = acme_only ps in
    if not (p.kind == "ACME")
    then rest
    else record { name = p.name; challenges = p.challenges; require_eab = p.require_eab } ∷ rest

-- A field that the CA left out of its answer.
abbrev pub or_default : String → String → String
or_default s default = if s == "" then default else s

module _ (w : CaWorld) where
  -- The address of a page.
  unfoldable pub page_url : String → String → String
  page_url u cursor =
      if not (cursor == "") then concat (u ∷ "?cursor=" ∷ w.query_escape cursor ∷ []) else u

  unfoldable pub provisioners_page : Trust → String → String → Net (Page Provisioner)
  provisioners_page client base cursor = do
    body ← fetch w client (page_url (concat (base ∷ "/provisioners" ∷ [])) cursor)
    or_raise (w.provisioners_of_json body) malformed_response

  -- `ListProvisioners`
  unfoldable pub list_provisioners : ℕ → String → String → Net (Option (List Provisioner))
  list_provisioners fuel ca_url fingerprint = do
    base ← lift (base_url ca_url)
    client ← pinned_client_for w ca_url fingerprint
    follow (provisioners_page client base) fuel "" []

  unfoldable pub acme_page : Trust → String → String → Net (Page AcmeProvisioner)
  acme_page client base cursor = do
    body ← fetch w client (page_url (concat (base ∷ "/provisioners" ∷ [])) cursor)
    (entries, next) ← or_raise (w.acme_of_json body) malformed_response
    pure (acme_only entries, next)

  -- `ListACMEProvisioners`
  unfoldable pub list_acme_provisioners : ℕ → String → String → Net (Option (List AcmeProvisioner))
  list_acme_provisioners fuel ca_url fingerprint = do
    base ← lift (base_url ca_url)
    client ← pinned_client_for w ca_url fingerprint
    follow (acme_page client base) fuel "" []

  -- The provisioner that the CA echoes; the given one where it leaves a field out. An answer that
  -- cannot be read is `none`, or holds the fields that were read before the error.
  unfoldable pub echoed : NewProvisionerSpec → Option Provisioner → Provisioner
  echoed spec none = record { kind = spec.kind; name = spec.name }
  echoed spec (some p) = record {
    kind = or_default p.kind spec.kind;
    name = or_default p.name spec.name;
  }

  -- `CreateProvisioner`
  unfoldable pub create_provisioner :
      String → String → AdminCredential → NewProvisionerSpec → Net Provisioner
  create_provisioner ca_url fingerprint cred spec = do
    lift (validate_spec spec)
    base ← lift (base_url ca_url)
    body ← lift (build_create_body w spec)
    client ← pinned_client_for w ca_url fingerprint
    tok ← lift (generate_admin_token w cred (admin_endpoint base))
    answer ← admin_request w client "POST" (admin_endpoint base) tok body
    pure (echoed spec (w.provisioner_of_json answer))

  -- `DeleteProvisioner`
  unfoldable pub delete_provisioner : String → String → AdminCredential → String → Net (Unit {0})
  delete_provisioner ca_url fingerprint cred name = do
    base ← lift (base_url ca_url)
    raise_if (name == "") invalid_provisioner
    client ← pinned_client_for w ca_url fingerprint
    tok ← lift (generate_admin_token w cred (admin_endpoint base))
    _ ← admin_request w client "DELETE" (admin_target w base name) tok no_body
    pure tt

  -- `UpdateProvisioner`
  unfoldable pub update_provisioner :
      String → String → AdminCredential → NewProvisionerSpec → Net Provisioner
  update_provisioner ca_url fingerprint cred spec = do
    lift (validate_spec spec)
    base ← lift (base_url ca_url)
    body ← lift (build_create_body w spec)
    client ← pinned_client_for w ca_url fingerprint
    tok ← lift (generate_admin_token w cred (admin_endpoint base))
    _ ← admin_request w client "PUT" (admin_target w base spec.name) tok body
    pure (record { kind = spec.kind; name = spec.name })
