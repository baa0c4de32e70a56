-- ===== src/Certs/Renewal.antt =====
-- `Renew`: a new certificate for the same names.
use step_ui_ng.Certs.Service.{
  renew, audit_record, RenewParams, build_csr, issue_request, renew_issue, issue,
}
use step_ui_ng.Certs.Store.{raise_if, gets, or_raise, pure, Db, CertRow, cert_by_id, sign}
use step_ui_ng.Certs.Monad.{◌>>=◌, ◌>>◌}
use step_ui_ng.Certs.World.{World, Certificate, SignResult}
use step_ui_ng.Base.{◌≡◌, ok, some, String, ◌+◌, ◌++◌, ◌∷◌, [], Result-cases, inl, arith, inr, ◌∙◌}
use step_ui_ng.Certs.Sans.{normalize_sans}
use step_ui_ng.Base.Text.{trim_space}
use step_ui_ng.Certs.Issuance.{issue_lem}

-- A renewal that goes through, of a stored row whose names are in the form that `normalizeSANs` leaves,
-- has asked the CA once, in a request for the row's common name and for exactly the row's names, and
-- the CA accepted it. The new certificate has these names and the next id.
pub renew_lem :
    (w : World) (p : RenewParams) (db : Db) (c : Certificate) (r : CertRow)
    → (renew w p db).0 ≡ ok c
    → cert_by_id p.id db.certificates.rows ≡ some r
    → normalize_sans (trim_space r.cn) (w.names_of_json r.sans_json) ≡ w.names_of_json r.sans_json
    → (key : String) × (csr_pem : String) × (res : SignResult) × (build_csr w
          (trim_space r.cn)
          (w.names_of_json r.sans_json)
          key
        ≡ some csr_pem)
      × (w.sign_csr (issue_request (renew_issue w p r) csr_pem) ≡ ok res)
      × (c.sans ≡ w.names_of_json r.sans_json)
      × (c.id ≡ db.certificates.seq + 1)
      × ((renew w p db).1.calls ≡ db.calls ++ sign (issue_request (renew_issue w p r) csr_pem) ∷ [])
unfolding renew raise_if gets or_raise pure ◌>>=◌ ◌>>◌ audit_record
renew_lem w p db c r h found normal = elim (Result-cases (issue w (renew_issue w p r) db).0) [
  | inl (e, x) ↦ absurd (ground (arith, found))
  | inr (c', x) ↦
      let same : c ≡ c' = ground (arith, found) in
      let kept : (renew w p db).1.calls ≡ (issue w (renew_issue w p r) db).1.calls =
        ground (arith, found, x) in
      let (key_text, leaf, issued, _, of_sans, of_id, _) =
        issue_lem w (renew_issue w p r) db c' x in
      (
        issued.key,
        issued.csr_pem,
        issued.res,
        rw normal at issued.requested,
        issued.signed,
        rw (same, of_sans) normal,
        rw same of_id,
        kept ∙ issued.called,
      )
]
