-- ===== src/Certs/Custody.antt =====
-- The stored keys, and the record that the service leaves of what it does.
use step_ui_ng.Certs.Store.{Db, CertRow, mark_revoked, append_row, CaCall}
use step_ui_ng.Base.{
  List, All, ℕ, ◌++◌, ◌∙◌, ◌≡◌, All-append, Option, ap, [], ◌∷◌, Bool-cases, sym, refl, ◌==◌, inl,
  inr, nat_eq,
}
use step_ui_ng.Audit.History.{run_entries, Entry, run_entry, records}
use step_ui_ng.Certs.Service.{audit_record}
use step_ui_ng.Certs.World.{World}
use step_ui_ng.Audit.Log.{LogEnv, Log}
use step_ui_ng.Certs.Steps.{
  IsCustody, StepLaws, CertCall, run_certs, server_key, run_certs_kept, client_key,
}
use mathlib.Core.List.{append_assoc, append-nil}

abbrev pub KeepsCustody : Db → Db → Type 0
KeepsCustody db db' = All IsCustody db.certificates.rows → All IsCustody db'.certificates.rows

revoked-IsCustody :
    (r : CertRow) (ts : ℕ)
    → IsCustody r
    → IsCustody (record r { status = "revoked"; updated_at = ts })
revoked-IsCustody r ts (server_key e s x) = server_key e s x
revoked-IsCustody r ts (client_key e x) = client_key e x

mark_revoked-All :
    (k ts : ℕ) (rs : List CertRow) → All IsCustody rs → All IsCustody (mark_revoked k ts rs)
unfolding mark_revoked
mark_revoked-All k ts [] h = tt
mark_revoked-All k ts (r ∷ rs) (p, h) = elim (Bool-cases (r.id == k)) [
  | inl e ↦ rw e (revoked-IsCustody r ts p, mark_revoked-All k ts rs h)
  | inr e ↦ rw e (p, mark_revoked-All k ts rs h)
]

pub KeepsCustody-laws : StepLaws KeepsCustody
unfolding append_row audit_record
KeepsCustody-laws = record {
  same = λ db h. h;
  both = λ a b c p q h. q (p h);
  calls = λ c db h. h;
  certs = λ r db good h. All-append IsCustody db.certificates.rows (r ∷ []) h (good, tt);
  revokes = λ k ts db h. mark_revoked-All k ts db.certificates.rows h;
  logs = λ w who action target details db h. h;
}

-- Whatever operations of the service run, whatever the CA answers and whatever the driver fails: if
-- exactly the certificates of the key strategy "server" had a sealed key, and those of "csr" none,
-- that is so afterwards.
pub run_certs-IsCustody :
    (cs : List (World × CertCall)) (db : Db)
    → All IsCustody db.certificates.rows
    → All IsCustody (run_certs cs db).certificates.rows
run_certs-IsCustody cs db h = run_certs_kept KeepsCustody KeepsCustody-laws cs db h

-- The log grows by events, and the list of calls by calls.
abbrev Records : Db → Db → Type 0
Records db db' =
    ((es : List (LogEnv × Entry)) × (db'.log ≡ run_entries es db.log))
    × ((cs : List CaCall) × (db'.calls ≡ db.calls ++ cs))

run_entries-append_entries :
    (es es' : List (LogEnv × Entry)) (log : Option Log)
    → run_entries es' (run_entries es log) ≡ run_entries (es ++ es') log
unfolding run_entries
run_entries-append_entries [] es' log = refl
run_entries-append_entries ((env, e) ∷ es) es' log =
    run_entries-append_entries es es' (run_entry env e log)

Records-both : (a b c : Db) → Records a b → Records b c → Records a c
Records-both a b c ((es, p), (cs, q)) ((es', p'), (cs', q')) = (
  (es ++ es', p' ∙ ap (run_entries es') p ∙ run_entries-append_entries es es' a.log),
  (cs ++ cs', q' ∙ ap (λ x. x ++ cs') q ∙ append_assoc a.calls cs cs'),
)

no_calls : (db : Db) → (cs : List CaCall) × (db.calls ≡ db.calls ++ cs)
no_calls db = ([], sym (append-nil db.calls))

no_entries : (db : Db) → (es : List (LogEnv × Entry)) × (db.log ≡ run_entries es db.log)
unfolding run_entries
no_entries db = ([], refl)

Records-laws : StepLaws Records
unfolding append_row audit_record run_entries run_entry
Records-laws = record {
  same = λ db. (no_entries db, no_calls db);
  both = Records-both;
  calls = λ c db. (no_entries db, (c ∷ [], refl));
  certs = λ r db good. (no_entries db, no_calls db);
  revokes = λ k ts db. (no_entries db, no_calls db);
  logs = λ w who action target details db.
      (((w.log_env action, records who action target details) ∷ [], refl), no_calls db);
}

-- Whatever operations of the service run, whatever the CA answers and whatever the driver fails, the
-- audit log changes only by recording events, and no call of the CA is taken back.
pub run_certs_records :
    (cs : List (World × CertCall)) (db : Db)
    → ((es : List (LogEnv × Entry)) × ((run_certs cs db).log ≡ run_entries es db.log))
      × ((calls : List CaCall) × ((run_certs cs db).calls ≡ db.calls ++ calls))
run_certs_records cs db = run_certs_kept Records Records-laws cs db
