-- ===== src/Ca/Tests.antt =====
-- The client of the CA at concrete values.
use step_ui_ng.Ca.Net.{
  ◌>>=◌, ◌>>◌, CaWorld, Call, Reply, EabWire, Page, replied, Provisioner, JwkEntry, lift,
  anchored_in, pure, no_body, or_raise, any_chain, fetch, raise_if, send, admin_request,
}
use step_ui_ng.Base.{
  [], ◌∷◌, String, true, ◌≡◌, if◌then◌else◌, Option, some, ◌==◌, none, length, ok, refl, string_eq,
  List, ◌≤◌, false, arith, ◌*◌, ◌⊎◌, ◌<◌, ℕ,
}
use step_ui_ng.Certs.World.{Leaf, Csr, SignRequest, SignResult}
use step_ui_ng.Ca.Token.{AdminCredential, generate_admin_token}
use step_ui_ng.Ca.Spec.{
  NewProvisionerSpec, validate_spec, is_provisioner_name, build_create_body, is_valid_type,
  all_valid, valid_acme_challenge, wire_of, acme_challenge_wire,
}
use step_ui_ng.Settings.Repo.{validate_fingerprint}
use step_ui_ng.Ca.Trusted.{calls_of, create, calls_of-AreGuarded}
use step_ui_ng.Ca.Vouched.{AreGuarded}
use step_ui_ng.Base.Int.{pos, negsuc}
use step_ui_ng.Ca.Fingerprint.{
  valid_fingerprint, canonical, normalize_fingerprint, decodes_as_hex, base_url, roots_endpoint,
}
use step_ui_ng.Base.Text.{trim_space, concat}
use step_ui_ng.Ca.Provisioners.{
  create_provisioner, provisioners_page, list_provisioners, page_url, follow,
}
use step_ui_ng.Base.Prefix.{to_lower, remove_all, has_prefix, trim_right_slash}
use step_ui_ng.Ca.Agreement.{report, test_connection-report}
use step_ui_ng.Ca.Eab.{list_eab_keys, to_eab_key, eab_page, eab_endpoint, listed_keys}
use step_ui_ng.Ca.Sign.{
  sign_csr_at_ca, provisioner_signing_key, parse_sign_response, validity, search_key, jwk_page,
  find_entry, decrypt_signing_key, signed_with, build_sign_token, post_sign, chain_pem_of,
  ensure_trailing_newline,
}
use step_ui_ng.Ca.Paging.{list_provisioners-Pages, Pages, more, last}
use step_ui_ng.Ca.Pinned.{
  test_connection, pinned_client_for, parse_roots, match_fingerprint, verify,
}
use step_ui_ng.Ca.Signed.{sign_csr_at_ca-result, validity_lem, IsAnswered}
use step_ui_ng.Ca.Keyed.{IsToken}

abbrev sum : String
sum = "abcdef0123456789abcdef0123456789abcdef01"

abbrev typed : String
typed = "AB:CDEF0123456789abcdef0123456789abcdef01 "

abbrev base : String
base = "https://ca"

-- A CA whose list of provisioners has two pages.
abbrev reply_to : Call → Reply
reply_to call =
    if call.url == "https://ca/provisioners"
    then replied 200 "first" true
    else if call.url == "https://ca/provisioners?cursor=c2"
    then replied 200 "second" true
    else replied 200 "other" true

abbrev names_on : String → Option (Page Provisioner)
names_on body =
    if body == "first"
    then some (record { kind = "JWK"; name = "admin" } ∷ [], "c2")
    else some (record { kind = "ACME"; name = "acme" } ∷ [], "")

abbrev keys_on : String → Option (Page JwkEntry)
keys_on body =
    if body == "first"
    then some ([], "c2")
    else some (record { kind = "JWK"; name = "admin"; encrypted_key = "jwe" } ∷ [], "")

abbrev wire : EabWire
wire = record {
  id = "k1";
  hmac_key = "hush";
  provisioner = "acme";
  reference = "r";
  account = "";
  created_at = "";
  bound_at = "";
}

abbrev leaf : Leaf
leaf = record {
  common_name = "a";
  serial_number = "1";
  not_before = pos 1;
  not_after = pos 2;
  der = "d";
}

abbrev request : Csr
request = record {
  common_name = "a";
  names = record { dns_names = "a" ∷ []; ip_addresses = []; email_addresses = []; uris = [] };
  signature = "s";
}

abbrev pub ca_world : CaWorld
ca_world = record {
  answer = λ l call. reply_to call;
  is_url = λ u. true;
  query_escape = λ s. s;
  path_escape = λ s. s;
  roots_of_json = λ s. some ("pem" ∷ []);
  certs_of_pem = λ s. some ("root" ∷ []);
  sha256_hex = λ s. sum;
  provisioners_of_json = names_on;
  acme_of_json = λ s. some ([], "");
  jwks_of_json = keys_on;
  provisioner_of_json = λ s. none;
  eab_of_json = λ s. some wire;
  eabs_of_json = λ s. some (wire ∷ [], "");
  sign_of_json = λ s. some (record { crt = "crt"; ca = "ca"; cert_chain = [] });
  leaf_of_pem = λ s. some leaf;
  request_of_pem = λ s. some request;
  check_signature = λ c. true;
  decrypt_key = λ k p. some "jwk";
  new_jwk = λ s. some ("public", "sealed");
  sign_token = λ k c. some "ott";
  sign_admin_token = λ x k c. some "token";
  admin_chain_of_pem = λ s. none;
  key_of_pem = λ s. none;
}

abbrev admin : AdminCredential
admin = record {
  chain =
      record { raw = "x"; common_name = "me"; public_key = "p"; has_digital_signature = true } ∷ [];
  signer = record { secret = "s"; is_signer = true; public_key = "p" };
}

abbrev acme_spec : NewProvisionerSpec
acme_spec = record {
  name = "acme";
  kind = "ACME";
  jwk_secret = "";
  acme_challenges = "http-01" ∷ " DNS-01" ∷ [];
  acme_require_eab = true;
}

typed-accepted : validate_fingerprint typed ≡ ok "AB:CDEF0123456789abcdef0123456789abcdef01"
unfolding validate_fingerprint valid_fingerprint canonical to_lower remove_all trim_space
    decodes_as_hex
typed-accepted = refl

-- Two fetches of the roots, and the request with the token.
calls_of_test : length (calls_of ca_world 5 base typed (create admin acme_spec) []) ≡ 3
unfolding calls_of create_provisioner ◌>>=◌ ◌>>◌ lift pure or_raise raise_if base_url roots_endpoint
    has_prefix trim_right_slash trim_space pinned_client_for normalize_fingerprint valid_fingerprint
    canonical to_lower remove_all decodes_as_hex fetch send parse_roots match_fingerprint verify
    validate_spec is_provisioner_name is_valid_type all_valid valid_acme_challenge wire_of
    acme_challenge_wire build_create_body generate_admin_token admin_request
calls_of_test = refl

calls_of_example :
    AreGuarded ca_world
      (canonical typed)
      (calls_of ca_world 5 base typed (create admin acme_spec) [])
calls_of_example = calls_of-AreGuarded ca_world 5 base typed (create admin acme_spec) [] tt

-- The state after the connection is made, and the connection.
abbrev connected : List Call
connected =
    record {
      trust = anchored_in "root";
      method = "GET";
      url = "https://ca/roots";
      authorization = "";
      body = no_body;
    }
    ∷ record {
      trust = any_chain;
      method = "GET";
      url = "https://ca/roots";
      authorization = "";
      body = no_body;
    }
    ∷ []

pinned_test : pinned_client_for ca_world base typed [] ≡ (ok (anchored_in "root"), connected)
unfolding ◌>>=◌ ◌>>◌ lift pure or_raise raise_if base_url roots_endpoint has_prefix trim_right_slash
    trim_space pinned_client_for normalize_fingerprint valid_fingerprint canonical to_lower
    remove_all decodes_as_hex fetch send parse_roots match_fingerprint verify
pinned_test = refl

abbrev page_call : String → Call
page_call url = record {
  trust = anchored_in "root";
  method = "GET";
  url = url;
  authorization = "";
  body = no_body;
}

abbrev listed : List Provisioner
listed = record { kind = "JWK"; name = "admin" } ∷ record { kind = "ACME"; name = "acme" } ∷ []

two-Pages : Pages (provisioners_page ca_world (anchored_in "root") base) "" connected 2 listed (
    page_call "https://ca/provisioners?cursor=c2" ∷ page_call "https://ca/provisioners" ∷ connected)
unfolding provisioners_page page_url fetch send ◌>>=◌ lift or_raise
two-Pages =
    more "" "c2" connected (page_call "https://ca/provisioners" ∷ connected) _
      (record { kind = "JWK"; name = "admin" } ∷ []) (record { kind = "ACME"; name = "acme" } ∷ [])
      1 refl refl
      (last "c2" (page_call "https://ca/provisioners" ∷ connected) _
        (record { kind = "ACME"; name = "acme" } ∷ []) refl)

base_ok : base_url base ≡ ok base
unfolding base_url has_prefix trim_right_slash trim_space
base_ok = refl

list_provisioners_example : list_provisioners ca_world 2 base typed [] ≡ (
  ok (some listed),
  page_call "https://ca/provisioners?cursor=c2" ∷ page_call "https://ca/provisioners" ∷ connected,
)
list_provisioners_example =
    list_provisioners-Pages ca_world 2 2 base typed base (anchored_in "root") [] connected
      (page_call "https://ca/provisioners?cursor=c2"
        ∷ page_call "https://ca/provisioners"
        ∷ connected)
      listed base_ok pinned_test two-Pages (omega arith)

test_connection_example :
    report (test_connection ca_world base typed [])
    ≡ report (pinned_client_for ca_world base typed [])
test_connection_example = test_connection-report ca_world base typed []

keys_listed :
    (list_eab_keys ca_world 3 base typed admin "acme" []).0 ≡ ok (some (to_eab_key false wire ∷ []))
unfolding list_eab_keys eab_page follow page_url admin_request generate_admin_token eab_endpoint
    listed_keys to_eab_key ◌>>=◌ ◌>>◌ lift pure or_raise raise_if base_url roots_endpoint has_prefix
    trim_right_slash trim_space pinned_client_for normalize_fingerprint valid_fingerprint canonical
    to_lower remove_all decodes_as_hex fetch send parse_roots match_fingerprint verify
keys_listed = refl

acme_accepted : validate_spec acme_spec ≡ ok tt
unfolding validate_spec is_provisioner_name is_valid_type all_valid valid_acme_challenge wire_of
    acme_challenge_wire to_lower trim_space
acme_accepted = refl

abbrev to_sign : SignRequest
to_sign = record {
  ca_url = base;
  fingerprint = typed;
  provisioner_name = "admin";
  password = "pass";
  csr_pem = "csr";
  validity_days = pos 365;
}

abbrev signed : SignResult
signed = record {
  certificate = some leaf;
  cert_pem = "crt\n";
  chain_pem = "ca\n";
  fullchain_pem = "crt\nca\n";
}

sign_test : (sign_csr_at_ca ca_world 2 to_sign []).0 ≡ ok (some signed)
unfolding sign_csr_at_ca provisioner_signing_key search_key jwk_page find_entry decrypt_signing_key
    signed_with build_sign_token post_sign parse_sign_response chain_pem_of ensure_trailing_newline
    ◌>>=◌ ◌>>◌ lift pure or_raise raise_if base_url roots_endpoint has_prefix trim_right_slash
    trim_space pinned_client_for normalize_fingerprint valid_fingerprint canonical to_lower
    remove_all decodes_as_hex fetch send parse_roots match_fingerprint verify
sign_test = refl

sign_csr_example :
    ((csr : Csr) × (url ott : String) × (ca_world.request_of_pem to_sign.csr_pem ≡ some csr)
      × (ca_world.check_signature csr ≡ true)
      × (base_url to_sign.ca_url ≡ ok url)
      × IsToken ca_world url csr to_sign ott
      × IsAnswered ca_world url to_sign.csr_pem ott to_sign.validity_days
          (sign_csr_at_ca ca_world 2 to_sign []).1
          signed)
    × ((to_sign.provisioner_name == "") ≡ false)
    × (signed.fullchain_pem ≡ concat (signed.cert_pem ∷ signed.chain_pem ∷ []))
sign_csr_example = sign_csr_at_ca-result ca_world 2 to_sign [] signed sign_test

validity_example :
    (120000 ≤ 106751) × (validity (pos 120000) ≡ some (pos (120000 * 86400000000000)))
    ⊎ (106751 < 120000) × ((k : ℕ) × (validity (pos 120000) ≡ some (negsuc k)))
validity_example = validity_lem 120000 (omega arith) (omega arith)
