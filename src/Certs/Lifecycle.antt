-- ===== src/Certs/Lifecycle.antt =====
-- What stays of the certificates, whatever the service does.
use step_ui_ng.Certs.Steps.{StepLaws, CertCall, run_certs, run_certs_kept}
use step_ui_ng.Certs.Store.{CertRow, Db, cert_by_id, append_row, mark_revoked}
use step_ui_ng.Base.{
  List, ◌≡◌, ℕ, inl, ◌⊎◌, some, inr, ◌∙◌, ◌++◌, ◌∷◌, refl, [], arith, ap, Bool-cases, ◌==◌, nat_eq,
}
use step_ui_ng.Certs.Service.{audit_record}
use step_ui_ng.Certs.World.{World}

-- A later state of a row: nothing but the revocation and its time has changed.
abbrev pub IsLater : CertRow → CertRow → Type 0
IsLater r r' = (r' ≡ r) ⊎ ((ts : ℕ) × (r' ≡ record r { status = "revoked"; updated_at = ts }))

abbrev RowsStay : List CertRow → List CertRow → Type 0
RowsStay rs rs' =
    (k : ℕ) (r : CertRow)
    → cert_by_id k rs ≡ some r
    → (r' : CertRow) × (cert_by_id k rs' ≡ some r') × IsLater r r'

abbrev Stays : Db → Db → Type 0
Stays db db' = RowsStay db.certificates.rows db'.certificates.rows

IsLater-trans : (a b c : CertRow) → IsLater a b → IsLater b c → IsLater a c
IsLater-trans a b c p (inl e) = rw e p
IsLater-trans a b c (inl d) (inr (ts, e)) = inr (ts, rw (← d) e)
IsLater-trans a b c (inr (ts, d)) (inr (ts', e)) =
    inr (ts', e ∙ ap (λ (x : CertRow). record x { status = "revoked"; updated_at = ts' }) d)

cert_by_id-append :
    (k : ℕ) (rs : List CertRow) (x r : CertRow)
    → cert_by_id k rs ≡ some r
    → cert_by_id k (rs ++ x ∷ []) ≡ some r
unfolding cert_by_id
cert_by_id-append k [] x r e = cc
cert_by_id-append k (y ∷ rs) x r e = ground (arith, cert_by_id-append k rs x r)

cert_by_id-mark_revoked :
    (j ts k : ℕ) (rs : List CertRow) (r : CertRow)
    → cert_by_id k rs ≡ some r
    → (r' : CertRow) × (cert_by_id k (mark_revoked j ts rs) ≡ some r') × IsLater r r'
unfolding cert_by_id mark_revoked
cert_by_id-mark_revoked j ts k [] r e = cc
cert_by_id-mark_revoked j ts k (y ∷ rs) r e = elim (Bool-cases (y.id == k)) [
  | inl here ↦
      let same : y ≡ r = ground arith in
      elim (Bool-cases (y.id == j)) [
        | inl hit ↦ (
          record y { status = "revoked"; updated_at = ts },
          ground arith,
          inr (ts, ap (λ (x : CertRow). record x { status = "revoked"; updated_at = ts }) same),
        )
        | inr missed ↦ (y, ground arith, inl same)
      ]
  | inr later ↦
      let rest : cert_by_id k rs ≡ some r = ground arith in
      let (r', e', l) = cert_by_id-mark_revoked j ts k rs r rest in (r', ground (arith, e'), l)
]

Stays-laws : StepLaws Stays
unfolding append_row audit_record
Stays-laws = record {
  same = λ db k r e. (r, e, inl refl);
  both = λ a b c p q k r e.
      let (r', e', l) = p k r e in
      let (r'', e'', l') = q k r' e' in (r'', e'', IsLater-trans r r' r'' l l');
  calls = λ c db k r e. (r, e, inl refl);
  certs = λ x db good k r e. (r, cert_by_id-append k db.certificates.rows x r e, inl refl);
  revokes = λ j ts db k r e. cert_by_id-mark_revoked j ts k db.certificates.rows r e;
  logs = λ w who action target details db k r e. (r, e, inl refl);
}

-- No operation of the service takes a certificate away or changes anything in it but this: a row
-- may become revoked. So a revoked certificate stays revoked, and a stored key stays as it was
-- sealed, whatever operations run, whatever the CA answers and whatever the driver fails.
pub cert_by_id-run_certs :
    (cs : List (World × CertCall)) (db : Db) (k : ℕ) {r : CertRow}
    → cert_by_id k db.certificates.rows ≡ some r
    → (r' : CertRow) × (cert_by_id k (run_certs cs db).certificates.rows ≡ some r')
      × ((r' ≡ r) ⊎ ((ts : ℕ) × (r' ≡ record r { status = "revoked"; updated_at = ts })))
cert_by_id-run_certs cs db k {r} e = run_certs_kept Stays Stays-laws cs db k r e
