-- ===== src/Ca/Agreement.antt =====
-- internal/ca/ca.go: TestConnection against the connection that the other operations use.
use step_ui_ng.Ca.Net.{◌>>=◌, ◌>>◌, Net, CaWorld, Call, after, pure}
use step_ui_ng.Base.{Result, List, ◌≡◌, ok, String, err, refl}
use step_ui_ng.Ca.Pinned.{test_connection, pinned_client_for}
use step_ui_ng.Ca.Fingerprint.{CaError}

-- What an operation reports, without the value it returns.
unfoldable pub report {ℓ} :
    {A : Type ℓ} → Result CaError A × List Call → Result CaError (Unit {0}) × List Call
report (ok a, l) = (ok tt, l)
report (err e, l) = (err e, l)

after-report {ℓ κ μ} :
    {A : Type ℓ} {B : Type κ} {C : Type μ} (o : Result CaError A × List Call) (f : A → Net B)
    (g : A → Net C)
    → ((a : A) (l : List Call) → report (f a l) ≡ report (g a l))
    → report (after f o) ≡ report (after g o)
unfolding report
after-report (ok a, l) f g h = h a l
after-report (err e, l) f g h = refl

bind-report {ℓ κ μ} :
    {A : Type ℓ} {B : Type κ} {C : Type μ} (m : Net A) (f : A → Net B) (g : A → Net C)
    → ((a : A) (l : List Call) → report (f a l) ≡ report (g a l))
    → (l : List Call) → report ((m >>= f) l) ≡ report ((m >>= g) l)
unfolding ◌>>=◌
bind-report m f g h l = after-report (m l) f g h

-- A test of the connection makes the same calls as the connection of the other operations, and
-- reports the same: success, or the same error.
pub test_connection-report :
    (w : CaWorld) (ca_url fingerprint : String) (l : List Call)
    → report (test_connection w ca_url fingerprint l)
      ≡ report (pinned_client_for w ca_url fingerprint l)
unfolding test_connection pinned_client_for ◌>>◌ pure report
test_connection-report w ca_url fingerprint = bind-report _ _ _ (λ want. bind-report _ _ _ (λ url.
    bind-report _ _ _ (λ body.
      bind-report _ _ _ (λ roots. bind-report _ _ _ (λ root. bind-report _ _ _ (λ u l. refl))))))
