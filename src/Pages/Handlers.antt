-- ===== src/Pages/Handlers.antt =====
-- internal/app/certs.go and revoke.go: the handlers.
use step_ui_ng.Base.{
  String, Bool, false, Result, ℕ, some, none, ok, err, if◌then◌else◌, ◌==◌, string_eq, not, ◌||◌,
}
use step_ui_ng.Base.Text.{trim_space}
use step_ui_ng.Base.Int.{ℤ, pos}
use step_ui_ng.Certs.World.{Certificate, CertError, not_found}
use step_ui_ng.Certs.Store.{Db}
use step_ui_ng.Certs.Service.{
  issue, sign_csr, revoke_cert, renew, IssueParams, SignParams, RevokeParams, RenewParams,
  format_pem, format_pfx,
}
use step_ui_ng.Certs.Inventory.{get_certificate}
use step_ui_ng.Pages.Fields.{
  parse_validity, parse_reason_code, parse_cert_id, reason_code_label, split_sans, is_positive,
}
use step_ui_ng.Pages.State.{
  PageEnv, CertForm, CertAnswer, refused, form_failed, form_shown, form_done, detail, Conn,
  issue_error_message, sign_error_message, revoke_error_message, renew_error_message,
  load_active_provisioner, resolve_conn,
}

abbrev pub Answer : Type 0
Answer = CertAnswer × Db

-- `hasKeyMaterial`
abbrev pub has_key_material : Certificate → Bool
has_key_material c = not (c.private_key_pem == "") || not (c.pfx == "")

-- `config.DefaultRenewDays`
abbrev pub default_renew_days : ℤ
default_renew_days = pos 90

abbrev pub unreadable : CertError → CertAnswer
unreadable not_found = refused 404 "certificate not found"
unreadable _ = refused 500 "internal error"

abbrev pub reason_or_label : String → ℤ → String
reason_or_label reason code = if reason == "" then reason_code_label code else reason

module _ (w : PageEnv) where
  -- `renewDefaultDays`
  abbrev pub renew_days : ℤ
  renew_days = if is_positive w.renew_default_days then w.renew_default_days else default_renew_days

  abbrev pub shown_detail : (flash message : String) → Result CertError Certificate × Db → Answer
  shown_detail flash message (err e, db) = (unreadable e, db)
  shown_detail flash message (ok cert, db) =
      (detail (if not (message == "") then 400 else 200) cert flash message renew_days, db)

  -- `renderDetailMsg`
  unfoldable pub render_detail_msg : ℕ → (flash message : String) → Db → Answer
  render_detail_msg id flash message db =
      shown_detail flash message (get_certificate w.world w.reading id db)

  abbrev pub shown_renewed : Result CertError Certificate × Db → Answer
  shown_renewed (err e, db) = (refused 500 "internal error", db)
  shown_renewed (ok cert, db) = (detail 200 cert "Certificate renewed." "" renew_days, db)

  -- `renderCertDetail`, after a renewal.
  unfoldable pub render_cert_detail : ℕ → Db → Answer
  render_cert_detail id db = shown_renewed (get_certificate w.world w.reading id db)

  abbrev pub form_error : String → Db → Answer
  form_error message db = (form_failed (load_active_provisioner w) message, db)

  -- `getIssue` and `getSignCSR`: a form, with its constant values.
  unfoldable pub get_issue : Db → Answer
  get_issue db = (form_shown (load_active_provisioner w), db)

  unfoldable pub get_sign_csr : Db → Answer
  get_sign_csr db = (form_shown (load_active_provisioner w), db)

  abbrev pub issue_params : CertForm → Conn → ℤ → IssueParams
  issue_params f conn validity = record {
    actor = f.actor;
    provisioner_name = conn.provisioner;
    password = conn.password;
    ca_url = conn.ca_url;
    fingerprint = conn.fingerprint;
    cn = trim_space f.cn;
    sans = split_sans f.sans;
    validity_days = validity;
    format = if f.format == format_pfx then format_pfx else format_pem;
    pfx_password = f.pfx_password;
  }

  abbrev pub issued : Result CertError Certificate × Db → Answer
  issued (err e, db) = form_error (issue_error_message e) db
  issued (ok cert, db) = (form_done (load_active_provisioner w) cert (has_key_material cert), db)

  -- `postIssue`
  unfoldable pub post_issue : CertForm → Db → Answer
  post_issue f db = elim (resolve_conn w) [
    | err message ↦ form_error message db
    | ok conn ↦ elim (parse_validity f.validity) [
      | none ↦ form_error "Validity must be a positive number of days." db
      | some days ↦ issued (issue w.world (issue_params f conn days) db)
    ]
  ]

  abbrev pub sign_params : CertForm → Conn → ℤ → SignParams
  sign_params f conn validity = record {
    actor = f.actor;
    provisioner_name = conn.provisioner;
    password = conn.password;
    ca_url = conn.ca_url;
    fingerprint = conn.fingerprint;
    csr_pem = f.csr;
    validity_days = validity;
  }

  abbrev pub signed : Result CertError Certificate × Db → Answer
  signed (err e, db) = form_error (sign_error_message e) db
  signed (ok cert, db) = (form_done (load_active_provisioner w) cert false, db)

  -- `postSignCSR`
  unfoldable pub post_sign_csr : CertForm → Db → Answer
  post_sign_csr f db = elim (resolve_conn w) [
    | err message ↦ form_error message db
    | ok conn ↦ elim (parse_validity f.validity) [
      | none ↦ form_error "Validity must be a positive number of days." db
      | some days ↦ signed (sign_csr w.world (sign_params f conn days) db)
    ]
  ]

  abbrev pub revoke_params : CertForm → ℕ → Conn → RevokeParams
  revoke_params f id conn =
      let code = parse_reason_code f.reason_code in
      record {
        actor = f.actor;
        id = id;
        provisioner_name = conn.provisioner;
        password = conn.password;
        ca_url = conn.ca_url;
        fingerprint = conn.fingerprint;
        reason = reason_or_label (trim_space f.reason) code;
        reason_code = code;
      }

  abbrev pub revoked : ℕ → Result CertError (Unit {0}) × Db → Answer
  revoked id (err e, db) = render_detail_msg id "" (revoke_error_message e) db
  revoked id (ok u, db) = render_detail_msg id "Certificate revoked at the CA." "" db

  -- `postCertRevoke` from its parsed id on
  unfoldable pub revoke_parsed : CertForm → ℕ → Db → Answer
  revoke_parsed f id db =
      if not (trim_space f.confirm == "REVOKE")
      then render_detail_msg id "" "Revocation not confirmed — type REVOKE to confirm." db
      else elim (resolve_conn w) [
        | err message ↦ render_detail_msg id "" message db
        | ok conn ↦ revoked id (revoke_cert w.world (revoke_params f id conn) db)
      ]

  -- `postCertRevoke`
  unfoldable pub post_cert_revoke : CertForm → Db → Answer
  post_cert_revoke f db = elim (parse_cert_id f.path_id) [
    | none ↦ (refused 400 "bad certificate id", db)
    | some id ↦ revoke_parsed f id db
  ]

  abbrev pub renew_params : CertForm → ℕ → Conn → ℤ → RenewParams
  renew_params f id conn validity = record {
    actor = f.actor;
    id = id;
    provisioner_name = conn.provisioner;
    password = conn.password;
    ca_url = conn.ca_url;
    fingerprint = conn.fingerprint;
    validity_days = validity;
  }

  abbrev pub renewed : ℕ → Result CertError Certificate × Db → Answer
  renewed id (err e, db) = render_detail_msg id "" (renew_error_message e) db
  renewed id (ok cert, db) = render_cert_detail cert.id db

  -- `postCertRenew`
  unfoldable pub post_cert_renew : CertForm → Db → Answer
  post_cert_renew f db = elim (parse_cert_id f.path_id) [
    | none ↦ (refused 400 "bad certificate id", db)
    | some id ↦ elim (parse_validity f.validity) [
      | none ↦ render_detail_msg id "" "Validity must be a positive number of days." db
      | some days ↦ elim (resolve_conn w) [
        | err message ↦ render_detail_msg id "" message db
        | ok conn ↦ renewed id (renew w.world (renew_params f id conn days) db)
      ]
    ]
  ]
