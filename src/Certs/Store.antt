-- ===== src/Certs/Store.antt =====
-- The table `certificates` with the statements of internal/certs over it, and the state that the
-- service works on: that table, the audit log, and the calls that have gone to the CA.
use step_ui_ng.Base.Int.{ℤ}
use step_ui_ng.Base.{
  ℕ, List, Option, ◌++◌, Result, ok, Bool, String, none, ◌∷◌, err, if◌then◌else◌, [], some, true,
  ◌==◌, ◌+◌, false, nat_eq,
}
use step_ui_ng.Certs.World.{SignRequest, CertError, RevokeRequest}
use step_ui_ng.Audit.Log.{Log}

pub record CertRow : Type 0 where
  pub id : ℕ
  pub cn : String
  pub sans_json : String
  pub serial : String
  pub not_before : ℤ
  pub not_after : ℤ
  pub status : String
  pub key_strategy : String
  pub cert_pem : String
  pub chain_pem : String
  pub fullchain_pem : String
  pub privkey_sealed : Option String
  pub created_by : String
  pub created_at : ℕ
  pub updated_at : ℕ
  pub provisioner : Option String

pub record CertTable : Type 0 where
  pub rows : List CertRow
  pub seq : ℕ

pub data CaCall : Type 0 where
  sign : SignRequest → CaCall
  revoke : RevokeRequest → CaCall

pub record Db : Type 0 where
  pub certificates : CertTable
  pub log : Option Log
  pub calls : List CaCall

-- `SELECT … FROM certificates WHERE id = ?`
unfoldable pub cert_by_id : ℕ → List CertRow → Option CertRow
cert_by_id k [] = none
cert_by_id k (r ∷ rs) = if r.id == k then some r else cert_by_id k rs

-- `UPDATE certificates SET status = 'revoked', updated_at = ? WHERE id = ?`
unfoldable pub mark_revoked : ℕ → ℕ → List CertRow → List CertRow
mark_revoked k ts [] = []
mark_revoked k ts (r ∷ rs) =
    (if r.id == k then record r { status = "revoked"; updated_at = ts } else r)
    ∷ mark_revoked k ts rs

-- `INSERT INTO certificates`
unfoldable pub append_row : CertRow → CertTable → CertTable
append_row r t = record { rows = t.rows ++ r ∷ []; seq = t.seq + 1 }

-- An operation of the service: what it has changed stays, also when it returns an error.
abbrev pub Op {ℓ} : Type ℓ → Type ℓ
Op A = Db → Result CertError A × Db

module _ {ℓ} {A : Type ℓ} where
  unfoldable pub pure : A → Op A
  pure a db = (ok a, db)

  unfoldable pub raise : CertError → Op A
  raise e db = (err e, db)

  unfoldable pub or_raise : Option A → CertError → Op A
  or_raise none e db = (err e, db)
  or_raise (some a) e db = (ok a, db)

unfoldable pub raise_if : Bool → CertError → Op (Unit {0})
raise_if true e db = (err e, db)
raise_if false e db = (ok tt, db)

unfoldable pub gets {ℓ} : {A : Type ℓ} → (Db → A) → Op A
gets f db = (ok (f db), db)

unfoldable pub modify : (Db → Db) → Op (Unit {0})
modify f db = (ok tt, f db)
