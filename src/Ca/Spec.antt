-- ===== src/Ca/Spec.antt =====
-- internal/ca/provisioners.go and acme.go: which provisioner may be created, and the document that is
-- sent for it.
use Prim.Native.Char.{code}
use Prim.Native.String.{len}
use step_ui_ng.Ca.Net.{
  CaWorld, Details, acme_details, Body, provisioner_body, jwk_details, sshpop_details,
}
use step_ui_ng.Base.{
  String, ℕ, Option, List, Result, Bool, if◌then◌else◌, ◌∷◌, ◌==◌, false, leb, true, not, some,
  ◌&&◌, ◌||◌, err, none, [], nat_eq, string_eq, ltb, ok,
}
use step_ui_ng.Base.Prefix.{to_lower}
use step_ui_ng.Ca.Fingerprint.{CaError, invalid_provisioner}
use step_ui_ng.Base.Text.{trim_space}

-- `NewProvisionerSpec`
pub record NewProvisionerSpec : Type 0 where
  pub name : String
  pub kind : String
  pub jwk_secret : String
  pub acme_challenges : List String
  pub acme_require_eab : Bool

abbrev pub min_jwk_secret_len : ℕ
min_jwk_secret_len = 8

-- `acmeChallengeWire`
unfoldable pub acme_challenge_wire : String → Option String
acme_challenge_wire c =
    if c == "http-01"
    then some "HTTP_01"
    else if c == "dns-01"
    then some "DNS_01"
    else if c == "tls-alpn-01"
    then some "TLS_ALPN_01"
    else if c == "device-attest-01"
    then some "DEVICE_ATTEST_01"
    else none

unfoldable pub wire_of : String → Option String
wire_of c = acme_challenge_wire (to_lower (trim_space c))

abbrev pub is_known : Option String → Bool
is_known none = false
is_known (some s) = true

-- `validACMEChallenge`
unfoldable pub valid_acme_challenge : String → Bool
valid_acme_challenge c = is_known (wire_of c)

-- A character of the class in `nameRE`.
unfoldable pub is_name_char : ℕ → Bool
is_name_char c =
    leb b'a' c && leb c b'z'
    || leb b'A' c && leb c b'Z'
    || leb b'0' c && leb c b'9'
    || c == b'.'
    || c == b'_'
    || c == b'-'

all_name_chars : String → Bool
unfolding is_name_char
all_name_chars String.[] = true
all_name_chars (String.◌∷◌ c s) = is_name_char (code c) && all_name_chars s

-- `nameRE.MatchString`
unfoldable pub is_provisioner_name : String → Bool
unfolding all_name_chars
is_provisioner_name s = not (s == "") && all_name_chars s

-- `validTypes`
unfoldable pub is_valid_type : String → Bool
is_valid_type kind = kind == "JWK" || kind == "ACME" || kind == "SSHPOP"

unfoldable pub all_valid : List String → Bool
all_valid [] = true
all_valid (c ∷ cs) = valid_acme_challenge c && all_valid cs

-- `validateSpec`
unfoldable pub validate_spec : NewProvisionerSpec → Result CaError (Unit {0})
validate_spec spec =
    if not (is_provisioner_name spec.name)
    then err invalid_provisioner
    else if not (is_valid_type spec.kind)
    then err invalid_provisioner
    else if spec.kind == "JWK" && ltb (len spec.jwk_secret) min_jwk_secret_len
    then err invalid_provisioner
    else if spec.kind == "ACME" && not (all_valid spec.acme_challenges)
    then err invalid_provisioner
    else ok tt

unfoldable pub wires : List String → List String
wires [] = []
wires (c ∷ cs) = elim (wire_of c) [ none ↦ wires cs | some wire ↦ wire ∷ wires cs ]

-- `acmeDetails`
unfoldable pub acme_details_of : NewProvisionerSpec → Details
acme_details_of spec = acme_details spec.acme_require_eab (wires spec.acme_challenges)

-- `buildCreateBody`; the pair of `jwkProvisionerKeys` is the public and the encrypted private key.
unfoldable pub build_create_body : CaWorld → NewProvisionerSpec → Result CaError Body
build_create_body w spec =
    if spec.kind == "JWK"
    then elim (w.new_jwk spec.jwk_secret) [
      | none ↦ err invalid_provisioner
      | some (public, encrypted) ↦
          ok (provisioner_body spec.kind spec.name (jwk_details public encrypted))
    ]
    else if spec.kind == "ACME"
    then ok (provisioner_body spec.kind spec.name (acme_details_of spec))
    else if spec.kind == "SSHPOP"
    then ok (provisioner_body spec.kind spec.name sshpop_details)
    else err invalid_provisioner
