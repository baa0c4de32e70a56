-- ===== src/Ca/Token.antt =====
-- internal/ca/provisioners.go: the credential of the admin, and the token that it signs.
use step_ui_ng.Ca.Net.{CaWorld, AdminCert, AdminKey}
use step_ui_ng.Base.{
  none, List, String, Result, ◌∷◌, if◌then◌else◌, [], not, err, ◌==◌, ok, string_eq, some,
}
use step_ui_ng.Ca.Fingerprint.{CaError, invalid_admin_credential}

-- `AdminCredential`
pub record AdminCredential : Type 0 where
  pub chain : List AdminCert
  pub signer : AdminKey

abbrev pub admin_issuer : String
admin_issuer = "step-admin-client/1.0"

-- The checks of a leaf certificate against the key.
unfoldable pub checked_leaf : AdminCert → AdminKey → Result CaError (Unit {0})
checked_leaf leaf key =
    if not key.is_signer
    then err invalid_admin_credential
    else if not (key.public_key == leaf.public_key)
    then err invalid_admin_credential
    else if not leaf.has_digital_signature
    then err invalid_admin_credential
    else if leaf.common_name == ""
    then err invalid_admin_credential
    else ok tt

abbrev raws : List AdminCert → List String
raws [] = []
raws (c ∷ cs) = c.raw ∷ raws cs

module _ (w : CaWorld) where
  -- `NewAdminCredential`
  unfoldable pub new_admin_credential : String → String → Result CaError AdminCredential
  new_admin_credential cert_chain_pem key_pem = elim (w.admin_chain_of_pem cert_chain_pem) [
    | none ↦ err invalid_admin_credential
    | some [] ↦ err invalid_admin_credential
    | some (leaf ∷ rest) ↦ elim (w.key_of_pem key_pem) [
      | none ↦ err invalid_admin_credential
      | some key ↦ elim (checked_leaf leaf key) [
        | err e ↦ err e
        | ok x ↦ ok (record { chain = leaf ∷ rest; signer = key })
      ]
    ]
  ]

  -- `generateAdminToken`; a credential always has a key here.
  unfoldable pub generate_admin_token : AdminCredential → String → Result CaError String
  generate_admin_token cred endpoint = elim cred.chain [
    | [] ↦ err invalid_admin_credential
    | leaf ∷ rest ↦
        elim (w.sign_admin_token (raws cred.chain) cred.signer record {
          issuer = admin_issuer;
          subject = leaf.common_name;
          audience = endpoint;
          sans = [];
        }) [ none ↦ err invalid_admin_credential | some token ↦ ok token ]
  ]
