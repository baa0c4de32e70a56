-- ===== src/Ca/Keeps.antt =====
-- A relation between the calls before and after an operation of the client, which every step of a
-- `do` block keeps, is kept by the block.
use step_ui_ng.Ca.Net.{◌>>=◌, ◌>>◌, Net, CaWorld, Call, pure, lift, or_raise, raise_if, send, Page}
use step_ui_ng.Base.{
  List, Result-cases, Result, Option, Bool, String, ◌∷◌, inl, Bool-cases, inr, ℕ, some, true, none,
  false, suc, ◌==◌, ◌++◌, zero, string_eq,
}
use step_ui_ng.Ca.Provisioners.{follow}
use step_ui_ng.Ca.Fingerprint.{CaError}

module _ (R : List Call → List Call → Type 0) (same : (l : List Call) → R l l)
    (both : (a b c : List Call) → R a b → R b c → R a c) where
  pub record Keeps {ℓ} {A : Type ℓ} (m : Net A) : Type 0 where
    pub kept : (l : List Call) → R l (m l).1

  pub bind-Keeps {ℓ κ} :
      {A : Type ℓ} {B : Type κ} (m : Net A) (f : A → Net B)
      → Keeps m
      → ((a : A) → Keeps (f a))
      → Keeps (m >>= f)
  unfolding ◌>>=◌
  bind-Keeps m f km kf = record {
    kept = λ l. elim (Result-cases (m l).0) [
      | inl (e, x) ↦ rw (x, ◌>>=◌) (km.kept l)
      | inr (a, x) ↦
          rw (x, ◌>>=◌) (both l (m l).1 (f a (m l).1).1 (km.kept l) ((kf a).kept (m l).1))
    ];
  }

  pub seq-Keeps {ℓ} :
      {B : Type ℓ} (m : Net (Unit {0})) (k : Net B) → Keeps m → Keeps k → Keeps (m >> k)
  unfolding ◌>>◌
  seq-Keeps m k km kk = bind-Keeps m (λ _. k) km (λ _. kk)

  pub pure-Keeps {ℓ} : {A : Type ℓ} (a : A) → Keeps (pure a)
  unfolding pure
  pure-Keeps a = record { kept = same }

  pub lift-Keeps {ℓ} : {A : Type ℓ} (r : Result CaError A) → Keeps (lift r)
  unfolding lift
  lift-Keeps r = record { kept = same }

  pub or_raise-Keeps {ℓ} : {A : Type ℓ} (o : Option A) (e : CaError) → Keeps (or_raise o e)
  unfolding or_raise
  or_raise-Keeps none e = record { kept = same }
  or_raise-Keeps (some a) e = record { kept = same }

  pub raise_if-Keeps : (b : Bool) (e : CaError) → Keeps (raise_if b e)
  unfolding raise_if
  raise_if-Keeps true e = record { kept = same }
  raise_if-Keeps false e = record { kept = same }

  pub follow-Keeps {ℓ} :
      {A : Type ℓ} (ask : String → Net (Page A))
      → ((cursor : String) → Keeps (ask cursor))
      → (fuel : ℕ) (cursor : String) (out : List A) → Keeps (follow ask fuel cursor out)
  unfolding follow
  follow-Keeps ask k zero cursor out = pure-Keeps none
  follow-Keeps ask k (suc fuel) cursor out = bind-Keeps (ask cursor) _ (k cursor) (λ page.
      elim (Bool-cases (page.1 == "")) [
        | inl e ↦ rw e (pure-Keeps (some (out ++ page.0)))
        | inr e ↦ rw e (follow-Keeps ask k fuel page.1 (out ++ page.0))
      ])

  -- A call, if it keeps the relation whatever was called before.
  pub send-Keeps :
      (w : CaWorld) (call : Call) → ((l : List Call) → R l (call ∷ l)) → Keeps (send w call)
  unfolding send
  send-Keeps w call k = record {
    kept =
        λ l. elim (Bool-cases (w.is_url call.url)) [ inl e ↦ rw e (k l) | inr e ↦ rw e (same l) ];
  }

  pub ruleset net_keeps =
      (bind-Keeps, seq-Keeps, pure-Keeps, lift-Keeps, or_raise-Keeps, raise_if-Keeps, follow-Keeps)
