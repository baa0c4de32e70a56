-- ===== src/Ca/Steps.antt =====
-- What follows an operation of the client, by what it returned.
use step_ui_ng.Ca.Net.{Net, Call, ◌>>=◌, after}
use step_ui_ng.Base.{Result, List, ◌≡◌, ok, err, Result-cases, inl, sym, ap, ◌∙◌, inr}
use step_ui_ng.Ca.Fingerprint.{CaError}

pub after_ok {ℓ κ} :
    {A : Type ℓ} {B : Type κ} (f : A → Net B) (o : Result CaError A × List Call) (a : A)
    → o.0 ≡ ok a
    → after f o ≡ f a o.1
after_ok f (ok b, l) a h = cc h
after_ok f (err e, l) a h = absurd (cc h)

pub after_err {ℓ κ} :
    {A : Type ℓ} {B : Type κ} (f : A → Net B) (o : Result CaError A × List Call) (e : CaError)
    → o.0 ≡ err e
    → after f o ≡ (err e, o.1)
after_err f (ok b, l) e h = absurd (cc h)
after_err f (err d, l) e h = cc h

-- Only an operation that returns a value ends at its last step.
pub bind_ok {ℓ κ} :
    {A : Type ℓ} {B : Type κ} (m : Net A) (f : A → Net B) (l : List Call) (b : B)
    → ((m >>= f) l).0 ≡ ok b
    → (a : A) × ((m l).0 ≡ ok a) × ((f a (m l).1).0 ≡ ok b)
unfolding ◌>>=◌
bind_ok m f l b h = elim (Result-cases (m l).0) [
  | inl (e, x) ↦ absurd (cc (sym (ap (λ o. o.0) (after_err f (m l) e x)) ∙ h))
  | inr (a, x) ↦ (a, x, sym (ap (λ o. o.0) (after_ok f (m l) a x)) ∙ h)
]

-- The same with the calls: the operation goes on from what its first step left.
pub bind_step {ℓ κ} :
    {A : Type ℓ} {B : Type κ} (m : Net A) (f : A → Net B) (l : List Call) (b : B)
    → ((m >>= f) l).0 ≡ ok b
    → (a : A) × ((m l).0 ≡ ok a) × ((m >>= f) l ≡ f a (m l).1) × ((f a (m l).1).0 ≡ ok b)
unfolding ◌>>=◌
bind_step m f l b h = elim (Result-cases (m l).0) [
  | inl (e, x) ↦ absurd (cc (sym (ap (λ o. o.0) (after_err f (m l) e x)) ∙ h))
  | inr (a, x) ↦ (a, x, after_ok f (m l) a x, sym (ap (λ o. o.0) (after_ok f (m l) a x)) ∙ h)
]
