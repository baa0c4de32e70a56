-- ===== src/Pages/Keeps.antt =====
-- What the service of certificates keeps is kept by the pages for certificates.
use step_ui_ng.Base.{
  refl, ok, err, inl, inr, subst, sym, Result, ◌≡◌, Result-cases, Option-cases, Bool-cases, ◌==◌,
  ◌∙◌, string_eq,
}
use step_ui_ng.Certs.Service.{sign_csr, revoke_cert, issue, renew}
use step_ui_ng.Pages.State.{PageEnv, CertForm, resolve_conn}
use step_ui_ng.Certs.Store.{Db}
use step_ui_ng.Certs.Steps.{StepLaws, sign_csr_keeps, issue_keeps, revoke_cert_keeps, renew_keeps}
use step_ui_ng.Certs.World.{CertError, Certificate}
use step_ui_ng.Pages.Handlers.{
  post_issue, post_sign_csr, post_cert_revoke, post_cert_renew, issued, signed, revoke_parsed,
  sign_params, issue_params, revoke_params, renew_params,
}
use step_ui_ng.Pages.Inventory.{post_cert_download}
use step_ui_ng.Pages.Fields.{parse_cert_id, parse_validity}
use step_ui_ng.Base.Text.{trim_space}
use step_ui_ng.Pages.Reads.{render_detail_msg-db, bundled-db, revoked-db, renewed-db, bundle-db}
use step_ui_ng.Certs.Inventory.{bundle}

module _ (w : PageEnv) where
  issued-db : (o : Result CertError Certificate × Db) → (issued w o).1 ≡ o.1
  issued-db (err e, db) = refl
  issued-db (ok cert, db) = refl

  signed-db : (o : Result CertError Certificate × Db) → (signed w o).1 ≡ o.1
  signed-db (err e, db) = refl
  signed-db (ok cert, db) = refl

module _ (R : Db → Db → Type 0) (laws : StepLaws R) (w : PageEnv) (f : CertForm) (db : Db) where
  unchanged : (db' : Db) → db' ≡ db → R db db'
  unchanged db' e = subst (R db) (sym e) (laws.same db)

  moved : (db' db'' : Db) → db'' ≡ db' → R db db' → R db db''
  moved db' db'' e h = subst (R db) (sym e) h

  pub post_issue_keeps : R db (post_issue w f db).1
  unfolding post_issue
  post_issue_keeps = elim (Result-cases (resolve_conn w)) [
    | inl (m, x) ↦ rw (post_issue, x) (laws.same db)
    | inr (conn, x) ↦ elim (Option-cases (parse_validity f.validity)) [
      | inl y ↦ rw (post_issue, x, y) (laws.same db)
      | inr (days, y) ↦
          let o = issue w.world (issue_params w f conn days) db in
          rw (post_issue, x, y)
            (moved o.1 _ (issued-db w o)
              ((issue_keeps R laws w.world (issue_params w f conn days)).kept db))
    ]
  ]

  pub post_sign_csr_keeps : R db (post_sign_csr w f db).1
  unfolding post_sign_csr
  post_sign_csr_keeps = elim (Result-cases (resolve_conn w)) [
    | inl (m, x) ↦ rw (post_sign_csr, x) (laws.same db)
    | inr (conn, x) ↦ elim (Option-cases (parse_validity f.validity)) [
      | inl y ↦ rw (post_sign_csr, x, y) (laws.same db)
      | inr (days, y) ↦
          let o = sign_csr w.world (sign_params w f conn days) db in
          rw (post_sign_csr, x, y)
            (moved o.1 _ (signed-db w o)
              ((sign_csr_keeps R laws w.world (sign_params w f conn days)).kept db))
    ]
  ]

  pub post_cert_revoke_keeps : R db (post_cert_revoke w f db).1
  unfolding post_cert_revoke revoke_parsed
  post_cert_revoke_keeps = elim (Option-cases (parse_cert_id f.path_id)) [
    | inl x ↦ rw (post_cert_revoke, x) (laws.same db)
    | inr (id, x) ↦ elim (Bool-cases (trim_space f.confirm == "REVOKE")) [
      | inr y ↦
          rw (post_cert_revoke, revoke_parsed, x, y)
            (unchanged _ (render_detail_msg-db w id _ _ db))
      | inl y ↦ elim (Result-cases (resolve_conn w)) [
        | inl (m, z) ↦
            rw (post_cert_revoke, revoke_parsed, x, y, z)
              (unchanged _ (render_detail_msg-db w id _ _ db))
        | inr (conn, z) ↦
            let o = revoke_cert w.world (revoke_params w f id conn) db in
            rw (post_cert_revoke, revoke_parsed, x, y, z)
              (moved o.1 _ (revoked-db w id o)
                ((revoke_cert_keeps R laws w.world (revoke_params w f id conn)).kept db))
      ]
    ]
  ]

  pub post_cert_renew_keeps : R db (post_cert_renew w f db).1
  unfolding post_cert_renew
  post_cert_renew_keeps = elim (Option-cases (parse_cert_id f.path_id)) [
    | inl x ↦ rw (post_cert_renew, x) (laws.same db)
    | inr (id, x) ↦ elim (Option-cases (parse_validity f.validity)) [
      | inl y ↦ rw (post_cert_renew, x, y) (unchanged _ (render_detail_msg-db w id _ _ db))
      | inr (days, y) ↦ elim (Result-cases (resolve_conn w)) [
        | inl (m, z) ↦
            rw (post_cert_renew, x, y, z) (unchanged _ (render_detail_msg-db w id _ _ db))
        | inr (conn, z) ↦
            let o = renew w.world (renew_params w f id conn days) db in
            rw (post_cert_renew, x, y, z)
              (moved o.1 _ (renewed-db w id o)
                ((renew_keeps R laws w.world (renew_params w f id conn days)).kept db))
      ]
    ]
  ]

  pub post_cert_download_keeps : R db (post_cert_download w f db).1
  unfolding post_cert_download
  post_cert_download_keeps = elim (Option-cases (parse_cert_id f.path_id)) [
    | inl x ↦ rw (post_cert_download, x) (laws.same db)
    | inr (id, x) ↦
        rw (post_cert_download, x)
          (unchanged _ (
            bundled-db w id (bundle w.world w.reading id f.pfx_password db)
            ∙ bundle-db w.world w.reading id f.pfx_password db))
  ]
