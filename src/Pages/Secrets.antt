-- ===== src/Pages/Secrets.antt =====
-- Which answers of the pages for certificates hold key material.
use step_ui_ng.Certs.Service.{sign_csr, issue, renew, revoke_cert}
use step_ui_ng.Base.{
  true, false, refl, ok, err, Bool, ◌≡◌, String, ℕ, Result, Result-cases, Option-cases, inl, inr,
  Bool-cases, ◌==◌, string_eq,
}
use step_ui_ng.Pages.State.{
  CertAnswer, PageEnv, refused, form_done, CertForm, form_shown, form_failed, resolve_conn, detail,
}
use step_ui_ng.Pages.Inventory.{InventoryAnswer, listing, of_cert, archive, panicked, cert_page}
use step_ui_ng.Certs.World.{
  Certificate, CertError, ca, audit, failed, invalid_input, invalid_csr, not_found, already_revoked,
  reason_required, no_certificate,
}
use step_ui_ng.Certs.Yields.{IsKeyless, get_certificate-Yields, sign_csr-Yields}
use step_ui_ng.Pages.Handlers.{
  render_detail_msg, render_cert_detail, post_issue, post_sign_csr, post_cert_revoke,
  post_cert_renew, has_key_material, unreadable, revoke_parsed, shown_detail, shown_renewed,
  renewed, revoked, issued, signed, issue_params, sign_params, renew_params, revoke_params,
}
use step_ui_ng.Certs.Store.{Db}
use step_ui_ng.Certs.Inventory.{get_certificate}
use step_ui_ng.Pages.Fields.{parse_cert_id, parse_validity}
use step_ui_ng.Base.Text.{trim_space}

-- Whether an answer may hold a private key, and whether it may not be stored by a cache.
abbrev pub has_secret : CertAnswer → Bool
has_secret (refused code text) = false
has_secret (form_shown active) = false
has_secret (form_failed active message) = false
has_secret (form_done active cert no_store) = has_key_material cert
has_secret (detail code cert flash message days) = has_key_material cert

abbrev pub has_no_store : CertAnswer → Bool
has_no_store (form_done active cert no_store) = no_store
has_no_store _ = false

abbrev pub listed_secret : InventoryAnswer → Bool
listed_secret (listing partial v) = false
listed_secret panicked = false
listed_secret (cert_page cert parsed days) = has_key_material cert
listed_secret (of_cert a) = has_secret a
listed_secret (archive filename files no_store) = true

abbrev pub listed_no_store : InventoryAnswer → Bool
listed_no_store (of_cert a) = has_no_store a
listed_no_store (archive filename files no_store) = no_store
listed_no_store _ = false

pub keyless_lem : (c : Certificate) → IsKeyless c → has_key_material c ≡ false
keyless_lem c (h, g) = rw (h, g) refl

-- An answer with key material is not stored.
abbrev pub IsKept : Bool → Bool → Type 0
IsKept secret no_store = secret ≡ true → no_store ≡ true

pub without-IsKept : (secret no_store : Bool) → secret ≡ false → IsKept secret no_store
without-IsKept secret no_store h g = absurd (cc (h, g))

pub unreadable-eq-false : (e : CertError) → has_secret (unreadable e) ≡ false
unreadable-eq-false invalid_input = refl
unreadable-eq-false invalid_csr = refl
unreadable-eq-false not_found = refl
unreadable-eq-false already_revoked = refl
unreadable-eq-false reason_required = refl
unreadable-eq-false no_certificate = refl
unreadable-eq-false (ca e) = refl
unreadable-eq-false (audit e) = refl
unreadable-eq-false (failed site) = refl

abbrev pub AnswersKept : CertAnswer → Type 0
AnswersKept a = IsKept (has_secret a) (has_no_store a)

module _ (w : PageEnv) where
  shown-eq-false :
      (flash message : String) (o : Result CertError Certificate × Db)
      → ((c : Certificate) → o.0 ≡ ok c → IsKeyless c)
      → has_secret (shown_detail w flash message o).0 ≡ false
  shown-eq-false flash message (err e, db) h = unreadable-eq-false e
  shown-eq-false flash message (ok c, db) h = keyless_lem c (h c refl)

  read-eq-false :
      (id : ℕ) (flash message : String) (db : Db)
      → has_secret (shown_detail w flash message (get_certificate w.world w.reading id db)).0
        ≡ false
  read-eq-false id flash message db =
      shown-eq-false flash message (get_certificate w.world w.reading id db)
        (λ c h. get_certificate-Yields w.world w.reading id c db h)

  message_kept :
      (id : ℕ) (flash message : String) (db : Db)
      → AnswersKept (render_detail_msg w id flash message db).0
  unfolding render_detail_msg
  message_kept id flash message db = without-IsKept _ _ (read-eq-false id flash message db)

  renewed_kept :
      (o : Result CertError Certificate × Db)
      → ((c : Certificate) → o.0 ≡ ok c → IsKeyless c)
      → AnswersKept (shown_renewed w o).0
  renewed_kept (err e, db) h = without-IsKept _ _ refl
  renewed_kept (ok c, db) h = without-IsKept _ _ (keyless_lem c (h c refl))

  renewal_kept : (id : ℕ) (o : Result CertError Certificate × Db) → AnswersKept (renewed w id o).0
  unfolding render_cert_detail
  renewal_kept id (err e, db) = message_kept id _ _ db
  renewal_kept id (ok cert, db) =
      renewed_kept (get_certificate w.world w.reading cert.id db)
        (λ c h. get_certificate-Yields w.world w.reading cert.id c db h)

  revocation_kept : (id : ℕ) (o : Result CertError (Unit {0}) × Db) → AnswersKept (revoked w id o).0
  revocation_kept id (err e, db) = message_kept id _ _ db
  revocation_kept id (ok u, db) = message_kept id _ _ db

  issued_kept : (o : Result CertError Certificate × Db) → AnswersKept (issued w o).0
  issued_kept (err e, db) = without-IsKept _ _ refl
  issued_kept (ok c, db) = λ h. h

  signed_kept :
      (o : Result CertError Certificate × Db)
      → ((c : Certificate) → o.0 ≡ ok c → IsKeyless c)
      → AnswersKept (signed w o).0
  signed_kept (err e, db) h = without-IsKept _ _ refl
  signed_kept (ok c, db) h = without-IsKept _ _ (keyless_lem c (h c refl))

  pub post_issue_kept : (f : CertForm) (db : Db) → AnswersKept (post_issue w f db).0
  unfolding post_issue
  post_issue_kept f db = elim (Result-cases (resolve_conn w)) [
    | inl (m, x) ↦ rw (post_issue, x) (without-IsKept _ _ refl)
    | inr (conn, x) ↦ elim (Option-cases (parse_validity f.validity)) [
      | inl y ↦ rw (post_issue, x, y) (without-IsKept _ _ refl)
      | inr (days, y) ↦
          rw (post_issue, x, y) (issued_kept (issue w.world (issue_params w f conn days) db))
    ]
  ]

  pub post_sign_csr_kept : (f : CertForm) (db : Db) → AnswersKept (post_sign_csr w f db).0
  unfolding post_sign_csr
  post_sign_csr_kept f db = elim (Result-cases (resolve_conn w)) [
    | inl (m, x) ↦ rw (post_sign_csr, x) (without-IsKept _ _ refl)
    | inr (conn, x) ↦ elim (Option-cases (parse_validity f.validity)) [
      | inl y ↦ rw (post_sign_csr, x, y) (without-IsKept _ _ refl)
      | inr (days, y) ↦
          rw (post_sign_csr, x, y)
            (signed_kept (sign_csr w.world (sign_params w f conn days) db)
              (λ c h. sign_csr-Yields w.world (sign_params w f conn days) c db h))
    ]
  ]

  pub post_cert_revoke_kept : (f : CertForm) (db : Db) → AnswersKept (post_cert_revoke w f db).0
  unfolding post_cert_revoke revoke_parsed
  post_cert_revoke_kept f db = elim (Option-cases (parse_cert_id f.path_id)) [
    | inl x ↦ rw (post_cert_revoke, x) (without-IsKept _ _ refl)
    | inr (id, x) ↦ elim (Bool-cases (trim_space f.confirm == "REVOKE")) [
      | inr y ↦ rw (post_cert_revoke, revoke_parsed, x, y) (message_kept id _ _ db)
      | inl y ↦ elim (Result-cases (resolve_conn w)) [
        | inl (m, z) ↦ rw (post_cert_revoke, revoke_parsed, x, y, z) (message_kept id _ _ db)
        | inr (conn, z) ↦
            rw (post_cert_revoke, revoke_parsed, x, y, z)
              (revocation_kept id (revoke_cert w.world (revoke_params w f id conn) db))
      ]
    ]
  ]

  pub post_cert_renew_kept : (f : CertForm) (db : Db) → AnswersKept (post_cert_renew w f db).0
  unfolding post_cert_renew
  post_cert_renew_kept f db = elim (Option-cases (parse_cert_id f.path_id)) [
    | inl x ↦ rw (post_cert_renew, x) (without-IsKept _ _ refl)
    | inr (id, x) ↦ elim (Option-cases (parse_validity f.validity)) [
      | inl y ↦ rw (post_cert_renew, x, y) (message_kept id _ _ db)
      | inr (days, y) ↦ elim (Result-cases (resolve_conn w)) [
        | inl (m, z) ↦ rw (post_cert_renew, x, y, z) (message_kept id _ _ db)
        | inr (conn, z) ↦
            rw (post_cert_renew, x, y, z)
              (renewal_kept id (renew w.world (renew_params w f id conn days) db))
      ]
    ]
  ]
