-- ===== src/Ca/Net.antt =====
-- internal/ca: the HTTP calls of the client. The state is the list of the calls made so far, the
-- latest first; what the CA answers to a call may depend on all of them. JSON, PEM, X.509, SHA-256
-- and the signing of tokens are parameters.
use step_ui_ng.Ca.Fingerprint.{
  CaError, bad_tls, unreachable, malformed_response, admin_unauthorized, admin_request_failed,
}
use step_ui_ng.Base.{
  ℕ, String, List, Result, ok, Option, Bool, if◌then◌else◌, err, leb, ◌∷◌, ◌&&◌, not, ◌==◌, some,
  true, ltb, ◌||◌, none, false, nat_eq,
}
use step_ui_ng.Base.Int.{ℤ}
use step_ui_ng.Certs.World.{Leaf, Csr}

-- Which chains a client's TLS accepts: any, or those anchored in one root certificate.
pub data Trust : Type 0 where
  any_chain : Trust
  anchored_in : String → Trust

-- The `details` of a provisioner; an empty list of challenges is left out of the document.
pub data Details : Type 0 where
  jwk_details : String → String → Details
  acme_details : Bool → List String → Details
  sshpop_details : Details

-- The JSON documents that are sent; for a time, how far it lies from now.
pub data Body : Type 0 where
  no_body : Body
  provisioner_body : String → String → Details → Body
  reference_body : String → Body
  sign_body : String → String → Option ℤ → Body
  revoke_body : String → String → ℤ → String → Body

pub record Call : Type 0 where
  pub trust : Trust
  pub method : String
  pub url : String
  pub authorization : String
  pub body : Body

-- What a call meets: an error of X.509 verification, any other error, or a status and a body that
-- may break off.
pub data Reply : Type 0 where
  untrusted : Reply
  undelivered : Reply
  replied : ℕ → String → Bool → Reply

-- The claims of a token; the nonce and the times belong to the signing.
pub record Claims : Type 0 where
  pub issuer : String
  pub subject : String
  pub audience : String
  pub sans : List String

-- `Provisioner`
pub record Provisioner : Type 0 where
  pub kind : String
  pub name : String

-- `acmeProvisionerWire`
pub record AcmeWire : Type 0 where
  pub kind : String
  pub name : String
  pub require_eab : Bool
  pub challenges : List String

-- `jwkProvisionerEntry`, less the public key that is not read.
pub record JwkEntry : Type 0 where
  pub kind : String
  pub name : String
  pub encrypted_key : String

-- `eabKeyWire`
pub record EabWire : Type 0 where
  pub id : String
  pub hmac_key : String
  pub provisioner : String
  pub reference : String
  pub account : String
  pub created_at : String
  pub bound_at : String

-- `signResponse`
pub record SignResponse : Type 0 where
  pub crt : String
  pub ca : String
  pub cert_chain : List String

-- A certificate of an admin chain, and a private key, as far as they are read.
pub record AdminCert : Type 0 where
  pub raw : String
  pub common_name : String
  pub public_key : String
  pub has_digital_signature : Bool

pub record AdminKey : Type 0 where
  pub secret : String
  pub is_signer : Bool
  pub public_key : String

-- A page of a list: its entries, and the cursor of the next page.
abbrev pub Page {ℓ} : Type ℓ → Type ℓ
Page A = List A × String

pub record CaWorld : Type 0 where
  pub answer : List Call → Call → Reply
  pub is_url : String → Bool
  pub query_escape : String → String
  pub path_escape : String → String
  pub roots_of_json : String → Option (List String)
  pub certs_of_pem : String → Option (List String)
  pub sha256_hex : String → String
  pub provisioners_of_json : String → Option (Page Provisioner)
  pub acme_of_json : String → Option (Page AcmeWire)
  pub jwks_of_json : String → Option (Page JwkEntry)
  pub provisioner_of_json : String → Option Provisioner
  pub eab_of_json : String → Option EabWire
  pub eabs_of_json : String → Option (Page EabWire)
  pub sign_of_json : String → Option SignResponse
  pub leaf_of_pem : String → Option Leaf
  pub request_of_pem : String → Option Csr
  pub check_signature : Csr → Bool
  pub decrypt_key : String → String → Option String
  pub new_jwk : String → Option (String × String)
  pub sign_token : String → Claims → Option String
  pub sign_admin_token : List String → AdminKey → Claims → Option String
  pub admin_chain_of_pem : String → Option (List AdminCert)
  pub key_of_pem : String → Option AdminKey

-- An operation of the client: the calls it has made stay, also when it returns an error.
abbrev pub Net {ℓ} : Type ℓ → Type ℓ
Net A = List Call → Result CaError A × List Call

-- What follows an operation, if it returns no error.
abbrev pub after {ℓ κ} :
    {A : Type ℓ} {B : Type κ}
    → (A → Net B)
    → Result CaError A × List Call
    → Result CaError B × List Call
after f (ok a, calls) = f a calls
after f (err e, calls) = (err e, calls)

infixl 5 ◌>>=◌ ◌>>◌
unfoldable pub ◌>>=◌ {ℓ κ} : {A : Type ℓ} {B : Type κ} → Net A → (A → Net B) → Net B
◌>>=◌ m f calls = after f (m calls)

unfoldable pub ◌>>◌ {ℓ} : {B : Type ℓ} → Net (Unit {0}) → Net B → Net B
m >> k = m >>= λ _. k

module _ {ℓ} {A : Type ℓ} where
  unfoldable pub lift : Result CaError A → Net A
  lift r calls = (r, calls)

  unfoldable pub pure : A → Net A
  pure a calls = (ok a, calls)

  unfoldable pub or_raise : Option A → CaError → Net A
  or_raise none e calls = (err e, calls)
  or_raise (some a) e calls = (ok a, calls)

unfoldable pub raise_if : Bool → CaError → Net (Unit {0})
raise_if true e calls = (err e, calls)
raise_if false e calls = (ok tt, calls)

abbrev pub is_success : ℕ → Bool
is_success status = leb 200 status && ltb status 300

-- `classifyDoError`
unfoldable pub classify_do_error : Reply → CaError
classify_do_error untrusted = bad_tls
classify_do_error undelivered = unreachable
classify_do_error (replied status body complete) = unreachable

module _ (w : CaWorld) where
  -- `http.NewRequestWithContext` and `client.Do`: a text that is no URL is not called. The client sets
  -- no `CheckRedirect`: redirects that net/http follows belong to the reply, and the requests that it
  -- makes for them are no calls of this list.
  unfoldable pub send : Call → Net Reply
  send call calls =
      if w.is_url call.url
      then (ok (w.answer calls call), call ∷ calls)
      else (err unreachable, calls)

  abbrev pub fetched : Reply → Result CaError String
  fetched untrusted = err (classify_do_error untrusted)
  fetched undelivered = err (classify_do_error undelivered)
  fetched (replied status body complete) =
      if not complete
      then err unreachable
      else if is_success status
      then ok body
      else err malformed_response

  -- `fetch`
  unfoldable pub fetch : Trust → String → Net String
  fetch trust url = do
    reply ←
        send record { trust = trust; method = "GET"; url = url; authorization = ""; body = no_body }
    lift (fetched reply)

  abbrev pub admin_answer : Reply → Result CaError String
  admin_answer untrusted = err (classify_do_error untrusted)
  admin_answer undelivered = err (classify_do_error undelivered)
  admin_answer (replied status body complete) =
      if is_success status
      then ok body
      else if status == 401 || status == 403
      then err admin_unauthorized
      else err admin_request_failed

  -- `adminRequest`, less the texts of its errors.
  unfoldable pub admin_request : Trust → String → String → String → Body → Net String
  admin_request trust method url token body = do
    reply ←
        send
          record { trust = trust; method = method; url = url; authorization = token; body = body }
    lift (admin_answer reply)
