-- ===== src/Certs/Service.antt =====
-- internal/certs/certs.go and revoke.go: `Issue`, `Sign`, `Revoke`, `Renew` and what they call.
use step_ui_ng.Certs.Monad.{◌>>=◌, ◌>>◌, branch}
use step_ui_ng.Base.{
  String, List, Result, Option, ℕ, ◌∷◌, [], ok, if◌then◌else◌, ◌==◌, none, ◌++◌, some, err, ◌&&◌,
  string_eq, ◌+◌,
}
use step_ui_ng.Certs.World.{
  Certificate, World, Leaf, CaError, SignResult, SignRequest, RevokeRequest, no_certificate, failed,
  invalid_input, invalid_csr, reason_required, load_renew, ca, audit, parse_chain, marshal_sans,
  generate_key, load_revoke, encode_pfx, insert_cert, create_csr, marshal_key, not_found, seal_key,
  already_revoked, cert_insert_id, update_status,
}
use step_ui_ng.Base.Int.{ℤ, pos}
use step_ui_ng.Base.Text.{concat, trim_space}
use step_ui_ng.Certs.Store.{
  Op, CertRow, modify, or_raise, raise_if, pure, sign, revoke, gets, cert_by_id, append_row,
  mark_revoked,
}
use step_ui_ng.Certs.Sans.{classify_sans, normalize_sans, csr_sans}
use step_ui_ng.Audit.Log.{record_event}

abbrev pub format_pem : String
format_pem = "pem"

abbrev pub format_pfx : String
format_pfx = "pfx"

pub record IssueParams : Type 0 where
  pub actor : String
  pub provisioner_name : String
  pub password : String
  pub ca_url : String
  pub fingerprint : String
  pub cn : String
  pub sans : List String
  pub validity_days : ℤ
  pub format : String
  pub pfx_password : String

pub record SignParams : Type 0 where
  pub actor : String
  pub provisioner_name : String
  pub password : String
  pub ca_url : String
  pub fingerprint : String
  pub csr_pem : String
  pub validity_days : ℤ

pub record CsrInfo : Type 0 where
  pub cn : String
  pub sans : List String

pub record RevokeParams : Type 0 where
  pub actor : String
  pub id : ℕ
  pub provisioner_name : String
  pub password : String
  pub ca_url : String
  pub fingerprint : String
  pub reason : String
  pub reason_code : ℤ

pub record RenewParams : Type 0 where
  pub actor : String
  pub id : ℕ
  pub provisioner_name : String
  pub password : String
  pub ca_url : String
  pub fingerprint : String
  pub validity_days : ℤ

-- `strings.Join(names, ",")`
unfoldable pub join_comma : List String → String
join_comma [] = ""
join_comma (s ∷ []) = s
join_comma (s ∷ t ∷ l) = concat (s ∷ "," ∷ join_comma (t ∷ l) ∷ [])

-- `auditDetails`
unfoldable pub audit_details : Certificate → String
audit_details c =
    concat
      ("serial=" ∷ c.serial ∷ " strategy=" ∷ c.key_strategy ∷ " sans=" ∷ join_comma c.sans ∷ [])

-- The parsed CSR's texts, `ParseCSR`.
unfoldable pub parse_csr : World → String → Option CsrInfo
parse_csr w pem = elim (w.parse_request pem) [
  | none ↦ none
  | some csr ↦
      if w.check_signature csr
      then some (record { cn = csr.common_name; sans = csr_sans csr.names })
      else none
]

unfoldable pub lift_ca {ℓ} : {A : Type ℓ} → Result CaError A → Op A
lift_ca (ok a) db = (ok a, db)
lift_ca (err e) db = (err (ca e), db)

unfoldable pub lift_revoke : Option CaError → Op (Unit {0})
lift_revoke none db = (ok tt, db)
lift_revoke (some e) db = (err (ca e), db)

-- The row that `persist` inserts.
abbrev pub persisted_row :
    World → Leaf → SignResult → String → String → Option String → String → String → ℕ → CertRow
persisted_row w leaf res sans_json strategy sealed actor provisioner id = record {
  id = id;
  cn = leaf.common_name;
  sans_json = sans_json;
  serial = leaf.serial_number;
  not_before = leaf.not_before;
  not_after = leaf.not_after;
  status = "valid";
  key_strategy = strategy;
  cert_pem = res.cert_pem;
  chain_pem = res.chain_pem;
  fullchain_pem = res.fullchain_pem;
  privkey_sealed = sealed;
  created_by = actor;
  created_at = w.now;
  updated_at = w.now;
  provisioner = if provisioner == "" then none else some provisioner;
}

-- The certificate that `persist` returns.
abbrev pub persisted_certificate : Leaf → SignResult → List String → String → ℕ → Certificate
persisted_certificate leaf res sans strategy id = record {
  id = id;
  cn = leaf.common_name;
  sans = sans;
  serial = leaf.serial_number;
  not_before = leaf.not_before;
  not_after = leaf.not_after;
  status = "valid";
  key_strategy = strategy;
  cert_pem = res.cert_pem;
  chain_pem = res.chain_pem;
  fullchain_pem = res.fullchain_pem;
  private_key_pem = "";
  pfx = "";
}

abbrev pub issue_request : IssueParams → String → SignRequest
issue_request p csr_pem = record {
  ca_url = p.ca_url;
  fingerprint = p.fingerprint;
  provisioner_name = p.provisioner_name;
  password = p.password;
  csr_pem = csr_pem;
  validity_days = p.validity_days;
}

abbrev pub revoke_request : RevokeParams → String → RevokeRequest
revoke_request p serial = record {
  ca_url = p.ca_url;
  fingerprint = p.fingerprint;
  provisioner_name = p.provisioner_name;
  password = p.password;
  serial = serial;
  reason = trim_space p.reason;
  reason_code = p.reason_code;
}

module _ (w : World) where
  -- `s.audit.Record`
  unfoldable pub audit_record : String → String → String → String → Op (Unit {0})
  audit_record who action target details db =
      let (r, log') = record_event (w.log_env action) who action target details db.log in
      (elim r [ ok _ ↦ ok tt | err e ↦ err (audit e) ], record db { log = log' })

  -- `s.signer.SignCSR`
  unfoldable pub call_signer : SignRequest → Op SignResult
  call_signer q = do
    modify (λ db. record db { calls = db.calls ++ sign q ∷ [] })
    lift_ca (w.sign_csr q)

  -- `s.revoker.RevokeCert`
  unfoldable pub call_revoker : RevokeRequest → Op (Unit {0})
  call_revoker q = do
    modify (λ db. record db { calls = db.calls ++ revoke q ∷ [] })
    lift_revoke (w.revoke_cert q)

  -- `buildCSR`
  unfoldable pub build_csr : String → List String → String → Option String
  build_csr cn sans key =
      w.request_pem cn
        (classify_sans w.parse_ip w.parse_url
          (record { dns_names = []; ip_addresses = []; email_addresses = []; uris = [] }) sans)
        key

  -- `buildPFX`
  unfoldable pub build_pfx : String → Leaf → String → String → Op String
  build_pfx key leaf chain_pem password = do
    chain ←
        or_raise (if chain_pem == "" then some [] else w.chain_of_pem chain_pem)
          (failed parse_chain)
    or_raise (w.pkcs12 key leaf.der chain password) (failed encode_pfx)

  -- `persist`
  unfoldable pub persist :
      SignResult → List String → String → Option String → String → String → Op (Leaf × Certificate)
  persist res sans strategy sealed actor provisioner = do
    leaf ← or_raise res.certificate no_certificate
    sans_json ← or_raise (w.json_of_names sans) (failed marshal_sans)
    raise_if (w.fails insert_cert) (failed insert_cert)
    seq ← gets (λ db. db.certificates.seq)
    modify (λ db. record db {
      certificates =
          append_row
            (persisted_row w leaf res sans_json strategy sealed actor provisioner (seq + 1))
            db.certificates;
    })
    raise_if (w.fails cert_insert_id) (failed cert_insert_id)
    pure (leaf, persisted_certificate leaf res sans strategy (seq + 1))

  -- The one payload that `Issue` attaches, selected by the format.
  unfoldable pub attach :
      IssueParams → String → String → Leaf → String → Certificate → Op Certificate
  attach p key key_text leaf chain_pem cert =
      branch (p.format == format_pfx)
        (do pfx ← build_pfx key leaf chain_pem p.pfx_password; pure (record cert { pfx = pfx }))
        (pure (record cert { private_key_pem = key_text }))

  -- `Issue` after the CA's answer.
  unfoldable pub issue_answered :
      IssueParams → String → List String → String → SignResult → Op Certificate
  issue_answered p cn sans key res = do
    key_text ← or_raise (w.key_pem key) (failed marshal_key)
    sealed ← or_raise (w.seal key_text) (failed seal_key)
    stored ← persist res sans "server" (some sealed) p.actor p.provisioner_name
    cert ← attach p key key_text stored.0 res.chain_pem stored.1
    audit_record p.actor "issue" cn (audit_details cert)
    pure cert

  -- `Issue` after its checks of the input.
  unfoldable pub issue_checked : IssueParams → String → Op Certificate
  issue_checked p cn = do
    let sans = normalize_sans cn p.sans
    key ← or_raise w.new_key (failed generate_key)
    csr_pem ← or_raise (build_csr cn sans key) (failed create_csr)
    res ← call_signer (issue_request p csr_pem)
    issue_answered p cn sans key res

  -- `Issue`
  unfoldable pub issue : IssueParams → Op Certificate
  issue p = do
    let cn = trim_space p.cn
    raise_if (cn == "") invalid_input
    raise_if (p.format == format_pfx && p.pfx_password == "") invalid_input
    issue_checked p cn

  -- `Sign`
  unfoldable pub sign_csr : SignParams → Op Certificate
  sign_csr p = do
    info ← or_raise (parse_csr w p.csr_pem) invalid_csr
    res ← call_signer (record {
      ca_url = p.ca_url;
      fingerprint = p.fingerprint;
      provisioner_name = p.provisioner_name;
      password = p.password;
      csr_pem = p.csr_pem;
      validity_days = p.validity_days;
    })
    stored ← persist res info.sans "csr" none p.actor p.provisioner_name
    audit_record p.actor "sign" info.cn (audit_details stored.1)
    pure stored.1

  abbrev pub revoke_details : RevokeParams → String → String
  revoke_details p serial = concat (
      "serial="
      ∷ serial
      ∷ " reasonCode="
      ∷ w.show_int p.reason_code
      ∷ " reason="
      ∷ trim_space p.reason
      ∷ [])

  -- `Revoke`
  unfoldable pub revoke_cert : RevokeParams → Op (Unit {0})
  revoke_cert p = do
    raise_if (trim_space p.reason == "") reason_required
    raise_if (w.fails load_revoke) (failed load_revoke)
    found ← gets (λ db. cert_by_id p.id db.certificates.rows)
    row ← or_raise found not_found
    raise_if (row.status == "revoked") already_revoked
    call_revoker (revoke_request p row.serial)
    raise_if (w.fails update_status) (failed update_status)
    modify (λ db. record db {
      certificates = record {
        rows = mark_revoked p.id w.now db.certificates.rows;
        seq = db.certificates.seq;
      };
    })
    audit_record p.actor "revoke" row.serial (revoke_details p row.serial)

  abbrev pub renew_issue : RenewParams → CertRow → IssueParams
  renew_issue p row = record {
    actor = p.actor;
    provisioner_name = p.provisioner_name;
    password = p.password;
    ca_url = p.ca_url;
    fingerprint = p.fingerprint;
    cn = row.cn;
    sans = w.names_of_json row.sans_json;
    validity_days = p.validity_days;
    format = format_pem;
    pfx_password = "";
  }

  -- `Renew`; `decodeSANs` is `names_of_json`.
  unfoldable pub renew : RenewParams → Op Certificate
  renew p = do
    raise_if (w.fails load_renew) (failed load_renew)
    found ← gets (λ db. cert_by_id p.id db.certificates.rows)
    row ← or_raise found not_found
    cert ← issue (renew_issue p row)
    audit_record p.actor "renew" row.cn (
        concat (
          "from_id="
          ∷ w.show_int (pos p.id)
          ∷ " new_serial="
          ∷ cert.serial
          ∷ " validity_days="
          ∷ w.show_int p.validity_days
          ∷ []))
    pure cert
