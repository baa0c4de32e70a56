-- ===== src/Certs/Keeps.antt =====
-- A relation between the state before and after an operation, which every step of a `do` block
-- keeps, is kept by the block.
use step_ui_ng.Certs.Monad.{◌>>=◌, ◌>>◌, branch}
use step_ui_ng.Certs.Store.{Db, Op, pure, gets, or_raise, raise_if}
use step_ui_ng.Base.{Option, Bool, Result, true, some, ok, false, err, none, Result-cases, inl, inr}
use step_ui_ng.Certs.Service.{lift_ca, lift_revoke}
use step_ui_ng.Certs.World.{CertError, CaError}

module _ (R : Db → Db → Type 0) (same : (db : Db) → R db db)
    (both : (a b c : Db) → R a b → R b c → R a c) where
  pub record Keeps {ℓ} {A : Type ℓ} (m : Op A) : Type 0 where
    pub kept : (db : Db) → R db (m db).1

  pub bind-Keeps {ℓ κ} :
      {A : Type ℓ} {B : Type κ} (m : Op A) (f : A → Op B)
      → Keeps m
      → ((a : A) → Keeps (f a))
      → Keeps (m >>= f)
  unfolding ◌>>=◌
  bind-Keeps m f km kf = record {
    kept = λ db. elim (Result-cases (m db).0) [
      | inl (e, x) ↦ rw (x, ◌>>=◌) (km.kept db)
      | inr (a, x) ↦
          rw (x, ◌>>=◌) (both db (m db).1 (f a (m db).1).1 (km.kept db) ((kf a).kept (m db).1))
    ];
  }

  pub seq-Keeps {ℓ} :
      {B : Type ℓ} (m : Op (Unit {0})) (k : Op B) → Keeps m → Keeps k → Keeps (m >> k)
  unfolding ◌>>◌
  seq-Keeps m k km kk = bind-Keeps m (λ _. k) km (λ _. kk)

  pub pure-Keeps {ℓ} : {A : Type ℓ} (a : A) → Keeps (pure a)
  unfolding pure
  pure-Keeps a = record { kept = λ db. same db }

  pub gets-Keeps {ℓ} : {A : Type ℓ} (f : Db → A) → Keeps (gets f)
  unfolding gets
  gets-Keeps f = record { kept = λ db. same db }

  pub or_raise-Keeps {ℓ} : {A : Type ℓ} (o : Option A) (e : CertError) → Keeps (or_raise o e)
  unfolding or_raise
  or_raise-Keeps none e = record { kept = λ db. same db }
  or_raise-Keeps (some a) e = record { kept = λ db. same db }

  pub raise_if-Keeps : (b : Bool) (e : CertError) → Keeps (raise_if b e)
  unfolding raise_if
  raise_if-Keeps true e = record { kept = λ db. same db }
  raise_if-Keeps false e = record { kept = λ db. same db }

  pub branch-Keeps {ℓ} :
      {A : Type ℓ} (b : Bool) (m k : Op A) → Keeps m → Keeps k → Keeps (branch b m k)
  unfolding branch
  branch-Keeps true m k km kk = km
  branch-Keeps false m k km kk = kk

  pub lift_ca-Keeps {ℓ} : {A : Type ℓ} (r : Result CaError A) → Keeps (lift_ca r)
  unfolding lift_ca
  lift_ca-Keeps (ok a) = record { kept = λ db. same db }
  lift_ca-Keeps (err e) = record { kept = λ db. same db }

  pub lift_revoke-Keeps : (o : Option CaError) → Keeps (lift_revoke o)
  unfolding lift_revoke
  lift_revoke-Keeps none = record { kept = λ db. same db }
  lift_revoke-Keeps (some e) = record { kept = λ db. same db }

  pub ruleset plain_keeps = (
    bind-Keeps, seq-Keeps, pure-Keeps, gets-Keeps, or_raise-Keeps, raise_if-Keeps, branch-Keeps,
    lift_ca-Keeps, lift_revoke-Keeps,
  )
