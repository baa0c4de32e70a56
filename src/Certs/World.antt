-- ===== src/Certs/World.antt =====
-- The values of internal/certs and what its service calls: the CA behind the interfaces `Signer` and
-- `Revoker`, the sealing box, the crypto library, JSON, the clock, and a driver that may fail. Keys,
-- PEM texts and PKCS#12 bundles are texts that the source hands on unread; ids are the 64-bit
-- patterns of Go's int64.
pub use step_ui_ng.Ca.Fingerprint.{
  CaError, invalid_fingerprint, unreachable, bad_tls, fingerprint_mismatch, malformed_response,
  provisioner_not_found, provisioner_key, ca_invalid_csr, sign_rejected, sign_failed,
  revoke_invalid, revoke_failed, other_error,
}
use step_ui_ng.Base.Int.{ℤ}
use step_ui_ng.Base.{String, Option, Bool, ℕ, List, Result}
use step_ui_ng.Audit.Log.{LogError, LogEnv}
use step_ui_ng.Certs.Sans.{Template, Url}

-- `ca.SignParams`
pub record SignRequest : Type 0 where
  pub ca_url : String
  pub fingerprint : String
  pub provisioner_name : String
  pub password : String
  pub csr_pem : String
  pub validity_days : ℤ

-- `ca.RevokeParams`
pub record RevokeRequest : Type 0 where
  pub ca_url : String
  pub fingerprint : String
  pub provisioner_name : String
  pub password : String
  pub serial : String
  pub reason : String
  pub reason_code : ℤ

-- What is read of an `x509.Certificate`; `der` stands for the whole.
pub record Leaf : Type 0 where
  pub common_name : String
  pub serial_number : String
  pub not_before : ℤ
  pub not_after : ℤ
  pub der : String

-- `ca.SignResult`
pub record SignResult : Type 0 where
  pub certificate : Option Leaf
  pub cert_pem : String
  pub chain_pem : String
  pub fullchain_pem : String

-- What is read of an `x509.CertificateRequest`.
pub record Csr : Type 0 where
  pub common_name : String
  pub names : Template
  pub signature : String

-- The calls of the driver and of libraries that can fail.
pub data CertSite : Type 0 where
  generate_key create_csr marshal_key seal_key unseal_key marshal_sans insert_cert cert_insert_id
        parse_chain encode_pfx load_revoke update_status load_renew list_certificates list_names
        get_cert load_bundle build_p12 write_zip close_zip :
      CertSite

pub data CertError : Type 0 where
  invalid_input invalid_csr not_found already_revoked reason_required no_certificate : CertError
  ca : CaError → CertError
  audit : LogError → CertError
  failed : CertSite → CertError

-- What one call of the service meets outside of the source.
pub record World : Type 0 where
  pub fails : CertSite → Bool
  pub now : ℕ
  pub log_env : String → LogEnv
  pub show_int : ℤ → String
  pub new_key : Option String
  pub request_pem : String → Template → String → Option String
  pub key_pem : String → Option String
  pub parse_request : String → Option Csr
  pub check_signature : Csr → Bool
  pub parse_ip : String → Option String
  pub parse_url : String → Option Url
  pub seal : String → Option String
  pub unseal : String → Option String
  pub json_of_names : List String → Option String
  pub names_of_json : String → List String
  pub chain_of_pem : String → Option (List String)
  pub pkcs12 : String → String → List String → String → Option String
  pub sign_csr : SignRequest → Result CaError SignResult
  pub revoke_cert : RevokeRequest → Option CaError

-- `Certificate`; an empty `pfx` is Go's nil slice.
pub record Certificate : Type 0 where
  pub id : ℕ
  pub cn : String
  pub sans : List String
  pub serial : String
  pub not_before : ℤ
  pub not_after : ℤ
  pub status : String
  pub key_strategy : String
  pub cert_pem : String
  pub chain_pem : String
  pub fullchain_pem : String
  pub private_key_pem : String
  pub pfx : String
