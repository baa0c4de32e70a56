-- ===== src/Certs/Tests.antt =====
-- Runs of the certificate service, and the theorems at concrete inputs.
use step_ui_ng.Certs.World.{Leaf, World, Certificate, CaError, ca, update_status, SignResult}
use step_ui_ng.Certs.Service.{
  IssueParams, RevokeParams, issue, revoke_cert, issue_checked, issue_answered, call_signer,
  join_comma, lift_ca, build_csr, persist, revoke_request, attach, build_pfx, audit_record,
  audit_details, issue_request, RenewParams,
}
use step_ui_ng.Audit.Log.{Log, insert_event, record_event}
use step_ui_ng.Certs.Store.{
  Db, CertRow, cert_by_id, or_raise, raise_if, modify, gets, pure, append_row,
}
use step_ui_ng.Base.{
  String, List, false, ◌∷◌, [], ◌≡◌, some, ◌≢◌, ok, ◌+◌, ◌⊎◌, refl, ℕ, none, ◌==◌, true, err, arith,
  if◌then◌else◌, eq_iff, string_eq,
}
use step_ui_ng.Base.Text.{trim_space, concat}
use step_ui_ng.Certs.Sans.{
  normalize_sans, contains, csr_sans, add_name, add_names, classify_sans, classify_san, parse_uri,
  has_at,
}
use step_ui_ng.Base.Int.{pos}
use step_ui_ng.Certs.Issuance.{IsIssued, HasOnePayload, issue_lem}
use step_ui_ng.Certs.Steps.{CertCall, run_certs, revokes, issues, revoke_row}
use step_ui_ng.Certs.Lifecycle.{cert_by_id-run_certs}
use step_ui_ng.Certs.Revocation.{IsAsked, revoke_cert_follows_ca}
use step_ui_ng.Certs.Monad.{branch, ◌>>=◌, ◌>>◌}
use step_ui_ng.Certs.Inventory.{Reading, bundle, build_readme}
use step_ui_ng.Certs.Download.{bundle_of_client_key, bundle-issue}

-- A CA and a driver that go along with everything, and visible marks for the libraries.
abbrev leaf : Leaf
leaf = record {
  common_name = "web";
  serial_number = "77";
  not_before = pos 1;
  not_after = pos 9;
  der = "DER";
}

abbrev pub calm : World
calm = record {
  fails = λ _. false;
  now = 5;
  log_env = λ _. record { fails = λ _. false; now = 6 };
  show_int = λ _. "1";
  new_key = some "key";
  request_pem = λ cn t key. some (concat ("csr " ∷ cn ∷ " " ∷ join_comma (csr_sans t) ∷ []));
  key_pem = λ key. some (concat ("pem " ∷ key ∷ []));
  parse_request = λ _. none;
  check_signature = λ _. true;
  parse_ip = λ _. none;
  parse_url = λ _. none;
  seal = λ s. some (concat ("sealed " ∷ s ∷ []));
  unseal = λ _. none;
  json_of_names = λ names. some (join_comma names);
  names_of_json = λ s. s ∷ [];
  chain_of_pem = λ s. some (s ∷ []);
  pkcs12 = λ key der chain password. some (concat ("p12 " ∷ password ∷ []));
  sign_csr = λ q. ok (record {
    certificate = some leaf;
    cert_pem = q.csr_pem;
    chain_pem = "chain";
    fullchain_pem = "full";
  });
  revoke_cert = λ _. none;
}

abbrev request : IssueParams
request = record {
  actor = "root";
  provisioner_name = "jwk";
  password = "pw";
  ca_url = "https://ca";
  fingerprint = "ab";
  cn = " web ";
  sans = "web" ∷ "www" ∷ "" ∷ [];
  validity_days = pos 30;
  format = "pfx";
  pfx_password = "secret";
}

abbrev old_log : Log
old_log = record { events = []; seq = 0 }

abbrev empty : Db
empty = record { certificates = record { rows = []; seq = 0 }; log = some old_log; calls = [] }

abbrev issued_row : CertRow
issued_row = record {
  id = 1;
  cn = "web";
  sans_json = "web,www";
  serial = "77";
  not_before = pos 1;
  not_after = pos 9;
  status = "valid";
  key_strategy = "server";
  cert_pem = "csr web web,www";
  chain_pem = "chain";
  fullchain_pem = "full";
  privkey_sealed = some "sealed pem key";
  created_by = "root";
  created_at = 5;
  updated_at = 5;
  provisioner = some "jwk";
}

abbrev handed : Certificate
handed = record {
  id = 1;
  cn = "web";
  sans = "web" ∷ "www" ∷ [];
  serial = "77";
  not_before = pos 1;
  not_after = pos 9;
  status = "valid";
  key_strategy = "server";
  cert_pem = "csr web web,www";
  chain_pem = "chain";
  fullchain_pem = "full";
  private_key_pem = "";
  pfx = "p12 secret";
}

abbrev pub stocked : Db
stocked = record {
  certificates = record { rows = issued_row ∷ []; seq = 1 };
  log = some old_log;
  calls = [];
}

abbrev revocation : RevokeParams
revocation = record {
  actor = "root";
  id = 1;
  provisioner_name = "jwk";
  password = "pw";
  ca_url = "https://ca";
  fingerprint = "ab";
  reason = " lost key ";
  reason_code = pos 1;
}

issue_run : (issue calm request empty).0 ≡ ok handed
unfolding issue issue_checked issue_answered call_signer lift_ca build_csr persist attach branch
    build_pfx audit_record audit_details record_event insert_event or_raise raise_if modify gets
    pure ◌>>=◌ ◌>>◌ trim_space normalize_sans add_name add_names contains classify_sans classify_san
    parse_uri has_at csr_sans join_comma append_row
issue_run = refl

issue_row : (issue calm request empty).1.certificates.rows ≡ issued_row ∷ []
unfolding issue issue_checked issue_answered call_signer lift_ca build_csr persist attach branch
    build_pfx audit_record audit_details record_event insert_event or_raise raise_if modify gets
    pure ◌>>=◌ ◌>>◌ trim_space normalize_sans add_name add_names contains classify_sans classify_san
    parse_uri has_at csr_sans join_comma append_row
issue_row = refl

issue_example :
    (key_text : String) × (leaf : Leaf) × (issued : IsIssued calm request empty
      (issue calm request empty).1
      key_text
      leaf)
    × (trim_space request.cn ≢ "")
    × (handed.sans ≡ normalize_sans (trim_space request.cn) request.sans)
    × (handed.id ≡ empty.certificates.seq + 1)
    × HasOnePayload calm request handed issued.key key_text leaf
issue_example = issue_lem calm request empty handed issue_run

abbrev history : List (World × CertCall)
history = (calm, revokes revocation) ∷ (calm, issues request) ∷ (calm, revokes revocation) ∷ []

stocked_row : cert_by_id 1 stocked.certificates.rows ≡ some issued_row
unfolding cert_by_id
stocked_row = refl

cert_by_id-run_certs_example :
    (r' : CertRow) × (cert_by_id 1 (run_certs history stocked).certificates.rows ≡ some r')
    × ((r' ≡ issued_row)
        ⊎ ((ts : ℕ) × (r' ≡ record issued_row { status = "revoked"; updated_at = ts })))
cert_by_id-run_certs_example = cert_by_id-run_certs history stocked 1 stocked_row

follows_example :
    let (res, after) = revoke_cert calm revocation stocked in
    ((after ≡ stocked) × (res ≢ ok tt))
    ⊎ ((r : CertRow) × (e : CaError) × IsAsked calm revocation stocked r after
        × (calm.revoke_cert (revoke_request revocation r.serial) ≡ some e)
        × (after.certificates ≡ stocked.certificates)
        × (after.log ≡ stocked.log)
        × (res ≡ err (ca e)))
    ⊎ ((r : CertRow) × IsAsked calm revocation stocked r after
        × (calm.revoke_cert (revoke_request revocation r.serial) ≡ none)
        × (after.certificates ≡ (
            if calm.fails update_status
            then stocked.certificates
            else (revoke_row revocation.id calm.now stocked).certificates)))
follows_example = revoke_cert_follows_ca calm revocation stocked

abbrev pub reading : Reading
reading = record {
  now_seconds = pos 5;
  days_until = λ _. pos 0;
  like = λ _ _. true;
  by_created_at = λ rows. rows;
  parse_key = λ s. some s;
  parse_cert = λ s. some s;
  parse_chain_certs = λ s. some (s ∷ []);
}

abbrev client_row : CertRow
client_row = record issued_row { key_strategy = "csr"; privkey_sealed = none }

abbrev client_stocked : Db
client_stocked = record stocked { certificates = record { rows = client_row ∷ []; seq = 1 } }

client_found : cert_by_id 1 client_stocked.certificates.rows ≡ some client_row
unfolding cert_by_id
client_found = refl

client_key_example :
    (bundle calm reading 1 "secret" client_stocked).0
    ≡ ok (
        ("cert.pem", client_row.cert_pem)
        ∷ ("chain.pem", client_row.chain_pem)
        ∷ ("fullchain.pem", client_row.fullchain_pem)
        ∷ (
          "README.txt",
          build_readme calm reading client_row.cn client_row.serial client_row.key_strategy false
              false,
        )
        ∷ [])
client_key_example =
    bundle_of_client_key calm reading client_stocked 1 "secret" client_row client_found
      (ground (arith, eq_iff "csr" "server")) refl refl refl

-- A box that adds nothing, so that it opens what it sealed.
abbrev plain : World
plain = record calm { seal = λ s. if s == "" then none else some s; unseal = λ s. some s }

abbrev pem_request : IssueParams
pem_request = record request { format = "pem"; pfx_password = "" }

abbrev pem_handed : Certificate
pem_handed = record handed { private_key_pem = "pem key"; pfx = "" }

pem_run : (issue plain pem_request empty).0 ≡ ok pem_handed
unfolding issue issue_checked issue_answered call_signer lift_ca build_csr persist attach branch
    build_pfx audit_record audit_details record_event insert_event or_raise raise_if modify gets
    pure ◌>>=◌ ◌>>◌ trim_space normalize_sans add_name add_names contains classify_sans classify_san
    parse_uri has_at csr_sans join_comma append_row
pem_run = refl

plain_opens :
    (s sealed : String)
    → plain.seal s ≡ some sealed
    → (plain.unseal sealed ≡ some s) × (sealed ≢ "")
plain_opens s sealed h =
    (ground (arith, eq_iff s ""), ground (arith, eq_iff s "", eq_iff sealed ""))

empty_unused : cert_by_id (empty.certificates.seq + 1) empty.certificates.rows ≡ none
unfolding cert_by_id
empty_unused = refl

bundle-issue_example :
    (csr_pem : String) × (res : SignResult) × (leaf : Leaf) × (plain.sign_csr
        (issue_request pem_request csr_pem)
      ≡ ok res)
    × ((bundle plain reading pem_handed.id "" (issue plain pem_request empty).1).0
        ≡ ok (
            ("cert.pem", res.cert_pem)
            ∷ ("chain.pem", res.chain_pem)
            ∷ ("fullchain.pem", res.fullchain_pem)
            ∷ ("privkey.pem", pem_handed.private_key_pem)
            ∷ (
              "README.txt",
              build_readme plain reading leaf.common_name leaf.serial_number "server" true false,
            )
            ∷ []))
bundle-issue_example =
    bundle-issue plain plain reading pem_request empty pem_handed pem_run
      (ground (arith, eq_iff "pem" "pfx")) (ground (arith, eq_iff "pem key" "")) empty_unused
      plain_opens refl refl refl

-- A JSON decoder that knows one text.
abbrev decoding : World
decoding = record calm { names_of_json = λ s. "web" ∷ "www" ∷ [] }

abbrev renewal : RenewParams
renewal = record {
  actor = "root";
  id = 1;
  provisioner_name = "jwk";
  password = "pw";
  ca_url = "https://ca";
  fingerprint = "ab";
  validity_days = pos 30;
}
