-- ===== src/Certs/Steps.antt =====
-- A relation that the four writing steps of the service keep is kept by each of its operations.
use step_ui_ng.Certs.Store.{CertRow, CaCall, Db, append_row, mark_revoked, Op, modify, sign, revoke}
use step_ui_ng.Base.{ℕ, ◌≡◌, ◌++◌, String, ◌∷◌, some, [], none, List, Option, refl}
use step_ui_ng.Certs.World.{World, SignRequest, SignResult, Leaf, Certificate, RevokeRequest}
use step_ui_ng.Certs.Service.{
  call_signer, audit_record, persist, attach, issue_checked, issue, build_pfx, IssueParams,
  persisted_row, sign_csr, call_revoker, revoke_cert, renew, SignParams, RevokeParams, RenewParams,
  issue_answered,
}
use step_ui_ng.Certs.Keeps.{seq-Keeps, Keeps, lift_ca-Keeps, plain_keeps, lift_revoke-Keeps}

-- A sealed key is stored exactly for the key strategy "server".
pub data IsCustody (r : CertRow) : Type 0 where
  server_key : r.key_strategy ≡ "server" → (s : String) → r.privkey_sealed ≡ some s → IsCustody r
  client_key : r.key_strategy ≡ "csr" → r.privkey_sealed ≡ none → IsCustody r

abbrev pub add_call : CaCall → Db → Db
add_call c db = record db { calls = db.calls ++ c ∷ [] }

abbrev pub add_cert : CertRow → Db → Db
add_cert r db = record db { certificates = append_row r db.certificates }

abbrev pub revoke_row : ℕ → ℕ → Db → Db
revoke_row k ts db = record db {
  certificates = record {
    rows = mark_revoked k ts db.certificates.rows;
    seq = db.certificates.seq;
  };
}

-- What a relation must satisfy.
pub record StepLaws (R : Db → Db → Type 0) : Type 0 where
  pub same : (db : Db) → R db db
  pub both : (a b c : Db) → R a b → R b c → R a c
  pub calls : (c : CaCall) (db : Db) → R db (add_call c db)
  pub certs : (r : CertRow) (db : Db) → IsCustody r → R db (add_cert r db)
  pub revokes : (k ts : ℕ) (db : Db) → R db (revoke_row k ts db)
  pub logs :
      (w : World) (who action target details : String) (db : Db)
      → R db (audit_record w who action target details db).1

module _ (R : Db → Db → Type 0) (laws : StepLaws R) (w : World) where
  abbrev KeepsR {ℓ} : {A : Type ℓ} → Op A → Type 0
  KeepsR m = Keeps R laws.same laws.both m

  call_signer_keeps : (q : SignRequest) → KeepsR (call_signer w q)
  unfolding call_signer modify
  call_signer_keeps q =
      seq-Keeps R laws.same laws.both _ _ (record { kept = laws.calls (sign q) })
        (lift_ca-Keeps R laws.same laws.both (w.sign_csr q))

  audit_record_keeps :
      (who action target details : String) → KeepsR (audit_record w who action target details)
  audit_record_keeps who action target details = record {
    kept = laws.logs w who action target details;
  }

  add_cert_keeps : (r : CertRow) → IsCustody r → KeepsR (modify (add_cert r))
  unfolding modify
  add_cert_keeps r good = record { kept = λ db. laws.certs r db good }

  persist_keeps :
      (res : SignResult) (sans : List String) (strategy : String) (sealed : Option String)
      (actor provisioner : String)
      → ((leaf : Leaf) (json : String) (id : ℕ)
          → IsCustody (persisted_row w leaf res json strategy sealed actor provisioner id))
      → KeepsR (persist w res sans strategy sealed actor provisioner)
  unfolding persist
  persist_keeps res sans strategy sealed actor provisioner good =
      search (plain_keeps, add_cert_keeps, good) depth 12

  attach_keeps :
      (p : IssueParams) (key key_text : String) (leaf : Leaf) (chain : String) (c : Certificate)
      → KeepsR (attach w p key key_text leaf chain c)
  unfolding attach build_pfx
  attach_keeps p key key_text leaf chain c = search plain_keeps depth 12

  persist_server :
      (res : SignResult) (sans : List String) (sealed actor provisioner : String)
      → KeepsR (persist w res sans "server" (some sealed) actor provisioner)
  persist_server res sans sealed actor provisioner =
      persist_keeps res sans "server" (some sealed) actor provisioner
        (λ _ _ _. server_key refl sealed refl)

  persist_client :
      (res : SignResult) (sans : List String) (actor provisioner : String)
      → KeepsR (persist w res sans "csr" none actor provisioner)
  persist_client res sans actor provisioner =
      persist_keeps res sans "csr" none actor provisioner (λ _ _ _. client_key refl refl)

  issue_answered_keeps :
      (p : IssueParams) (cn : String) (sans : List String) (key : String) (res : SignResult)
      → KeepsR (issue_answered w p cn sans key res)
  unfolding issue_answered
  issue_answered_keeps p cn sans key res =
      search (plain_keeps, attach_keeps, audit_record_keeps, persist_server) depth 14

  issue_checked_keeps : (p : IssueParams) (cn : String) → KeepsR (issue_checked w p cn)
  unfolding issue_checked
  issue_checked_keeps p cn = search (plain_keeps, call_signer_keeps, issue_answered_keeps) depth 12

  pub issue_keeps : (p : IssueParams) → KeepsR (issue w p)
  unfolding issue
  issue_keeps p = search (plain_keeps, issue_checked_keeps) depth 8

  pub sign_csr_keeps : (p : SignParams) → KeepsR (sign_csr w p)
  unfolding sign_csr
  sign_csr_keeps p =
      search (plain_keeps, call_signer_keeps, audit_record_keeps, persist_client) depth 12

  call_revoker_keeps : (q : RevokeRequest) → KeepsR (call_revoker w q)
  unfolding call_revoker modify
  call_revoker_keeps q =
      seq-Keeps R laws.same laws.both _ _ (record { kept = laws.calls (revoke q) })
        (lift_revoke-Keeps R laws.same laws.both (w.revoke_cert q))

  revoke_row_keeps : (k ts : ℕ) → KeepsR (modify (revoke_row k ts))
  unfolding modify
  revoke_row_keeps k ts = record { kept = laws.revokes k ts }

  pub revoke_cert_keeps : (p : RevokeParams) → KeepsR (revoke_cert w p)
  unfolding revoke_cert
  revoke_cert_keeps p =
      search (plain_keeps, call_revoker_keeps, audit_record_keeps, revoke_row_keeps) depth 16

  pub renew_keeps : (p : RenewParams) → KeepsR (renew w p)
  unfolding renew
  renew_keeps p = search (plain_keeps, issue_keeps, audit_record_keeps) depth 12

-- The calls of the service that write.
pub data CertCall : Type 0 where
  issues : IssueParams → CertCall
  signs : SignParams → CertCall
  revokes : RevokeParams → CertCall
  renews : RenewParams → CertCall

unfoldable pub run_cert : World → CertCall → Db → Db
run_cert w (issues p) db = (issue w p db).1
run_cert w (signs p) db = (sign_csr w p db).1
run_cert w (revokes p) db = (revoke_cert w p db).1
run_cert w (renews p) db = (renew w p db).1

unfoldable pub run_certs : List (World × CertCall) → Db → Db
run_certs [] db = db
run_certs ((w, c) ∷ cs) db = run_certs cs (run_cert w c db)

pub run_certs_kept :
    (R : Db → Db → Type 0) (laws : StepLaws R) (cs : List (World × CertCall)) (db : Db)
    → R db (run_certs cs db)
unfolding run_certs run_cert
run_certs_kept R laws [] db = laws.same db
run_certs_kept R laws ((w, issues p) ∷ cs) db =
    laws.both _ _ _ ((issue_keeps R laws w p).kept db) (run_certs_kept R laws cs (issue w p db).1)
run_certs_kept R laws ((w, signs p) ∷ cs) db =
    laws.both _ _ _ ((sign_csr_keeps R laws w p).kept db)
      (run_certs_kept R laws cs (sign_csr w p db).1)
run_certs_kept R laws ((w, revokes p) ∷ cs) db =
    laws.both _ _ _ ((revoke_cert_keeps R laws w p).kept db)
      (run_certs_kept R laws cs (revoke_cert w p db).1)
run_certs_kept R laws ((w, renews p) ∷ cs) db =
    laws.both _ _ _ ((renew_keeps R laws w p).kept db) (run_certs_kept R laws cs (renew w p db).1)
