-- ===== src/Certs/Parsed.antt =====
-- internal/certs/parsed_cert.go: what the page of a certificate shows of its PEM text.
use step_ui_ng.Base.{
  none, some, [], ◌∷◌, ◌==◌, string_eq, nat_eq, ◌/◌, ◌%◌, String, List, ℕ, Option, ◌≡◌,
  if◌then◌else◌, Bool, refl, not,
}
use step_ui_ng.Base.Int.{ℤ}
use step_ui_ng.Base.Text.{concat}

-- The kinds of a `PublicKey` that the source tells apart: a curve's name, a modulus' length in bits, and
-- the name of any other type.
pub data PublicKey : Type 0 where
  ecdsa : String → PublicKey
  rsa : ℤ → PublicKey
  ed25519 : PublicKey
  other_key : String → PublicKey

-- What is read of an `x509.Certificate`: the hex digits of the SHA-256 of its bytes, the name of its
-- issuer and that name as a text, the key, the bits of its usage, and the numbers of its extended
-- usages.
pub record ParsedLeaf : Type 0 where
  pub sum_hex : String
  pub issuer_cn : String
  pub issuer_text : String
  pub public_key : PublicKey
  pub key_usage : ℕ
  pub ext_key_usage : List ℕ

-- `ParsedCert`
pub record ParsedCert : Type 0 where
  pub fingerprint : String
  pub issuer : String
  pub public_key_type : String
  pub key_usages : List String
  pub ext_key_usages : List String

-- `issuerName`
abbrev pub issuer_name : ParsedLeaf → String
issuer_name leaf = if not (leaf.issuer_cn == "") then leaf.issuer_cn else leaf.issuer_text

-- `pubKeyType`, with `%d` of an `int`
abbrev pub pub_key_type : (ℤ → String) → PublicKey → String
pub_key_type show (ecdsa curve) = concat ("ECDSA " ∷ curve ∷ [])
pub_key_type show (rsa bits) = concat ("RSA " ∷ show bits ∷ [])
pub_key_type show ed25519 = "Ed25519"
pub_key_type show (other_key type_name) = type_name

-- The masks of `x509.KeyUsage` with their names, in the order of the source.
abbrev pub usage_bits : List (ℕ × String)
usage_bits =
    (1, "digitalSignature")
    ∷ (2, "contentCommitment")
    ∷ (4, "keyEncipherment")
    ∷ (8, "dataEncipherment")
    ∷ (16, "keyAgreement")
    ∷ (32, "keyCertSign")
    ∷ (64, "cRLSign")
    ∷ (128, "encipherOnly")
    ∷ (256, "decipherOnly")
    ∷ []

-- `ku & mask != 0`, for a mask of one bit.
abbrev pub has_bit : ℕ → ℕ → Bool
has_bit ku mask = ku / mask % 2 == 1

unfoldable pub named_bits : List (ℕ × String) → ℕ → List String
named_bits [] ku = []
named_bits ((mask, name) ∷ bits) ku =
    if has_bit ku mask then name ∷ named_bits bits ku else named_bits bits ku

-- `keyUsageStrings`
abbrev pub key_usage_strings : ℕ → List String
key_usage_strings ku = named_bits usage_bits ku

-- The names of `x509.ExtKeyUsage` by its numbers.
abbrev pub usage_names : List (ℕ × String)
usage_names =
    (0, "any")
    ∷ (1, "serverAuth")
    ∷ (2, "clientAuth")
    ∷ (3, "codeSigning")
    ∷ (4, "emailProtection")
    ∷ (5, "ipsecEndSystem")
    ∷ (6, "ipsecTunnel")
    ∷ (7, "ipsecUser")
    ∷ (8, "timeStamping")
    ∷ (9, "OCSPSigning")
    ∷ (10, "msServerGatedCrypto")
    ∷ (11, "netscapeServerGatedCrypto")
    ∷ (12, "msCommercialCodeSigning")
    ∷ (13, "msKernelCodeSigning")
    ∷ []

unfoldable pub usage_name : ℕ → List (ℕ × String) → Option String
usage_name e [] = none
usage_name e ((k, name) ∷ names) =
    let rest = usage_name e names in if k == e then some name else rest

abbrev pub with_usage : Option String → List String → List String
with_usage none names = names
with_usage (some name) names = name ∷ names

-- `extKeyUsageStrings`
unfoldable pub ext_key_usage_strings : List ℕ → List String
ext_key_usage_strings [] = []
ext_key_usage_strings (e ∷ es) = with_usage (usage_name e usage_names) (ext_key_usage_strings es)

abbrev pub empty_parsed : ParsedCert
empty_parsed = record {
  fingerprint = "";
  issuer = "";
  public_key_type = "";
  key_usages = [];
  ext_key_usages = [];
}

-- `ParseLeafPEM`, whose error the caller drops: the decoder of PEM and the parser are given.
unfoldable pub parse_leaf_pem : (ℤ → String) → Option ParsedLeaf → ParsedCert
parse_leaf_pem show none = empty_parsed
parse_leaf_pem show (some leaf) = record {
  fingerprint = leaf.sum_hex;
  issuer = issuer_name leaf;
  public_key_type = pub_key_type show leaf.public_key;
  key_usages = key_usage_strings leaf.key_usage;
  ext_key_usages = ext_key_usage_strings leaf.ext_key_usage;
}

usage_tests :
    (key_usage_strings 5 ≡ "digitalSignature" ∷ "keyEncipherment" ∷ [])
    × (ext_key_usage_strings (2 ∷ 99 ∷ 1 ∷ []) ≡ "clientAuth" ∷ "serverAuth" ∷ [])
unfolding named_bits ext_key_usage_strings usage_name
usage_tests = (refl, refl)
