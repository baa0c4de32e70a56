-- ===== src/Certs/Revocation.antt =====
-- `Revoke`: the local row and the CA.
use step_ui_ng.Certs.Monad.{◌>>=◌, ◌>>◌}
use step_ui_ng.Certs.World.{World, CaError, ca, update_status, load_revoke}
use step_ui_ng.Certs.Service.{
  RevokeParams, revoke_cert, call_revoker, lift_revoke, audit_record, revoke_request,
  revoke_details,
}
use step_ui_ng.Certs.Store.{Db, CertRow, cert_by_id, raise_if, gets, or_raise, modify, revoke}
use step_ui_ng.Base.{
  ◌≡◌, some, ◌≢◌, ◌++◌, ok, ◌⊎◌, ◌∷◌, err, [], none, if◌then◌else◌, Bool-cases, ◌==◌, inl, arith,
  inr, Option-cases, string_eq, eq_iff, false,
}
use step_ui_ng.Certs.Steps.{revoke_row}
use step_ui_ng.Base.Text.{trim_space}
use step_ui_ng.Audit.Log.{record_event, Log, exec_event, insert_event}

module _ (w : World) (p : RevokeParams) (db : Db) where
  -- The row that a revocation is about, with the call that it makes.
  pub record IsAsked (r : CertRow) (after : Db) : Type 0 where
    pub found : cert_by_id p.id db.certificates.rows ≡ some r
    pub active : r.status ≢ "revoked"
    pub call : after.calls ≡ db.calls ++ revoke (revoke_request p r.serial) ∷ []

  -- The CA is called at most once, and only for a stored certificate that is not revoked, by its
  -- serial. Where it is not called, nothing changes and the revocation does not go through; where
  -- it does not accept, its error is returned, and the certificates and the audit log are as they
  -- were. Where it accepts, that row is marked as revoked, unless the driver fails at just this.
  pub revoke_cert_follows_ca :
      let (res, after) = revoke_cert w p db in
      ((after ≡ db) × (res ≢ ok tt))
      ⊎ ((r : CertRow) × (e : CaError) × IsAsked r after
          × (w.revoke_cert (revoke_request p r.serial) ≡ some e)
          × (after.certificates ≡ db.certificates)
          × (after.log ≡ db.log)
          × (res ≡ err (ca e)))
      ⊎ ((r : CertRow) × IsAsked r after
          × (w.revoke_cert (revoke_request p r.serial) ≡ none)
          × ((after.certificates ≡ (
              if w.fails update_status
              then db.certificates
              else (revoke_row p.id w.now db).certificates))))
  unfolding revoke_cert raise_if gets or_raise ◌>>=◌ ◌>>◌ call_revoker modify lift_revoke
      audit_record
  revoke_cert_follows_ca = elim (Bool-cases (trim_space p.reason == "")) [
    | inl blank ↦ inl (ground arith, ground arith)
    | inr text ↦ elim (Bool-cases (w.fails load_revoke)) [
      | inl down ↦ inl (ground arith, ground arith)
      | inr up ↦ elim (Option-cases (cert_by_id p.id db.certificates.rows)) [
        | inl missing ↦ inl (ground arith, ground arith)
        | inr (r, found) ↦ elim (Bool-cases (r.status == "revoked")) [
          | inl old ↦ inl (ground arith, ground arith)
          | inr active ↦ elim (Option-cases (w.revoke_cert (revoke_request p r.serial))) [
            | inr (e, refused) ↦ inr (
                inl (
                  r,
                  e,
                  record {
                    found = found;
                    active = ground (arith, eq_iff r.status "revoked");
                    call = ground arith;
                  },
                  refused,
                  ground arith,
                  ground arith,
                  ground arith,
                ))
            | inl accepted ↦ inr (
                inr (
                  r,
                  record {
                    found = found;
                    active = ground (arith, eq_iff r.status "revoked");
                    call = ground arith;
                  },
                  accepted,
                  ground arith,
                ))
          ]
        ]
      ]
    ]
  ]

  -- While the driver works, a revocation with a reason that is not blank, of a stored certificate that
  -- is not revoked, by a named actor, and which the CA accepts, goes through: the row is marked, one
  -- event names the actor and the serial, and the CA has got one call.
  pub revoke_cert_goes_through :
      (r : CertRow) (log : Log)
      → db.log ≡ some log
      → trim_space p.reason ≢ ""
      → w.fails load_revoke ≡ false
      → w.fails update_status ≡ false
      → (w.log_env "revoke").fails exec_event ≡ false
      → p.actor ≢ ""
      → cert_by_id p.id db.certificates.rows ≡ some r
      → r.status ≢ "revoked"
      → w.revoke_cert (revoke_request p r.serial) ≡ none
      → revoke_cert w p db ≡ (
        ok tt,
        record {
          certificates = (revoke_row p.id w.now db).certificates;
          log = some (
              insert_event
                (w.log_env "revoke")
                p.actor
                "revoke"
                r.serial
                (revoke_details w p r.serial)
                "ok"
                log);
          calls = db.calls ++ revoke (revoke_request p r.serial) ∷ [];
        },
      )
  unfolding revoke_cert raise_if gets or_raise ◌>>=◌ ◌>>◌ call_revoker modify lift_revoke
      audit_record record_event
  revoke_cert_goes_through r log l text up up' up'' named found active accepted =
      ground (arith, eq_iff (trim_space p.reason) "", eq_iff r.status "revoked", eq_iff p.actor "")
