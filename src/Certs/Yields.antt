-- ===== src/Certs/Yields.antt =====
-- What the certificate that an operation of the service returns is like.
use step_ui_ng.Certs.Monad.{◌>>=◌, ◌>>◌}
use step_ui_ng.Certs.Service.{sign_csr, SignParams, persist}
use step_ui_ng.Base.{ok, err, refl, subst, sym, Result, ◌≡◌, List, String, Option, ℕ, none}
use step_ui_ng.Certs.Store.{Op, Db, pure}
use step_ui_ng.Certs.World.{Certificate, World, SignResult, CertError}
use step_ui_ng.Certs.Inventory.{get_certificate, Reading}
use step_ui_ng.Certs.Issuance.{persist-eq-ok}

-- Every result of the operation is as said.
abbrev pub Yields {ℓ} : {A : Type ℓ} → (A → Type 0) → Op A → Type ℓ
Yields {A = A} Q m = (a : A) (db : Db) → (m db).0 ≡ ok a → Q a

continued-Yields {ℓ κ} :
    {A : Type ℓ} {B : Type κ} (P : A → Type 0) (Q : B → Type 0) (f : A → Op B)
    (o : Result CertError A × Db)
    → ((a : A) → P a → Yields Q (f a))
    → ((a : A) → o.0 ≡ ok a → P a)
    → (b : B)
    → (elim o.0 as (λ r. Result CertError B × Db) [ ok a ↦ f a o.1 | err e ↦ (err e, o.1) ]).0
      ≡ ok b
    → Q b
continued-Yields P Q f (ok a, db) next here b h = next a (here a refl) b db h
continued-Yields P Q f (err e, db) next here b h = absurd (cc h)

bind-Yields {ℓ κ} :
    {A : Type ℓ} {B : Type κ} (P : A → Type 0) (Q : B → Type 0) (m : Op A) (f : A → Op B)
    → Yields P m
    → ((a : A) → P a → Yields Q (f a))
    → Yields Q (m >>= f)
unfolding ◌>>=◌
bind-Yields P Q m f here next b db h = continued-Yields P Q f (m db) next (λ a. here a db) b h

skip-Yields {ℓ κ} :
    {A : Type ℓ} {B : Type κ} (Q : B → Type 0) (m : Op A) (f : A → Op B)
    → ((a : A) → Yields Q (f a))
    → Yields Q (m >>= f)
skip-Yields Q m f next = bind-Yields (λ a. Unit {0}) Q m f (λ a db h. tt) (λ a u. next a)

pure-Yields {ℓ} : {A : Type ℓ} (Q : A → Type 0) (a : A) → Q a → Yields Q (pure a)
unfolding pure
pure-Yields Q a q b db h = let e : a ≡ b = cc h in subst Q e q

abbrev pub IsKeyless : Certificate → Type 0
IsKeyless c = (c.private_key_pem ≡ "") × (c.pfx ≡ "")

module _ (w : World) where
  persist-Yields :
      (res : SignResult) (sans : List String) (strategy : String) (sealed : Option String)
      (actor provisioner : String)
      → Yields (λ stored. IsKeyless stored.1) (persist w res sans strategy sealed actor provisioner)
  persist-Yields res sans strategy sealed actor provisioner (leaf, c) db h =
      let (json, x, y, e, z) =
        persist-eq-ok w res sans strategy sealed actor provisioner db leaf c h in
      subst IsKeyless (sym e) (refl, refl)

  -- A signed request comes back without key material.
  pub sign_csr-Yields : (p : SignParams) → Yields IsKeyless (sign_csr w p)
  unfolding sign_csr ◌>>◌ pure
  sign_csr-Yields p = skip-Yields IsKeyless _ _ (λ info. skip-Yields IsKeyless _ _ (λ res.
      bind-Yields (λ stored. IsKeyless stored.1) IsKeyless
        (persist w res info.sans "csr" none p.actor p.provisioner_name) _
        (persist-Yields res info.sans "csr" none p.actor p.provisioner_name)
        (λ stored keyless. skip-Yields IsKeyless _ _ (λ u. pure-Yields IsKeyless _ keyless))))

  -- What is read of the inventory has no key material.
  pub get_certificate-Yields : (rd : Reading) (id : ℕ) → Yields IsKeyless (get_certificate w rd id)
  unfolding get_certificate ◌>>◌ pure
  get_certificate-Yields rd id = skip-Yields IsKeyless _ _ (λ u.
      skip-Yields IsKeyless _ _
        (λ found. skip-Yields IsKeyless _ _ (λ row. pure-Yields IsKeyless _ (refl, refl))))
