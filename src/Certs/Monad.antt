-- ===== src/Certs/Monad.antt =====
-- The sequencing of the service's operations.
use step_ui_ng.Certs.Store.{Op}
use step_ui_ng.Base.{Bool, ok, err, true, false}

infixl 5 ◌>>=◌ ◌>>◌
unfoldable pub ◌>>=◌ {ℓ κ} : {A : Type ℓ} {B : Type κ} → Op A → (A → Op B) → Op B
◌>>=◌ m f db = let (r, db') = m db in elim r [ ok a ↦ f a db' | err e ↦ (err e, db') ]

unfoldable pub ◌>>◌ {ℓ} : {B : Type ℓ} → Op (Unit {0}) → Op B → Op B
m >> k = m >>= λ _. k

-- `if test { return m() }`, then the rest.
unfoldable pub branch {ℓ} : {A : Type ℓ} → Bool → Op A → Op A → Op A
branch true m k = m
branch false m k = k
