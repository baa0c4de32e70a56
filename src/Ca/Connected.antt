-- ===== src/Ca/Connected.antt =====
-- Over a ready connection the operations of internal/ca keep it ready.
use step_ui_ng.Ca.Net.{◌>>=◌, Net, CaWorld, Call, Trust, send}
use step_ui_ng.Ca.Token.{AdminCredential}
use step_ui_ng.Base.{
  ℕ, String, ◌≡◌, ok, Result-cases, inl, inr, subst, suc, Option-cases, refl, Bool-cases, ◌==◌,
  zero, string_eq, Option, some, none,
}
use step_ui_ng.Ca.Fingerprint.{normalize_fingerprint}
use step_ui_ng.Ca.Provisioners.{provisioners_page, acme_page}
use step_ui_ng.Certs.World.{SignRequest, RevokeRequest, Csr}
use step_ui_ng.Ca.Pinned.{pinned_client_for}
use step_ui_ng.Ca.Ready.{
  KeepsReady, Sound, fetch-KeepsReady, pinned-Yields, admin_request-KeepsReady,
}
use step_ui_ng.Ca.Keeps.{net_keeps, bind-Keeps, send-Keeps}
use step_ui_ng.Ca.Eab.{eab_page}
use step_ui_ng.Ca.Sign.{
  jwk_page, search_key, provisioner_signing_key, post_sign, find_entry, signed_with,
}
use step_ui_ng.Ca.Revoke.{post_revoke, revoked_with}
use step_ui_ng.Base.Int.{ℤ}
use step_ui_ng.Ca.Vouched.{send-Stays}
use step_ui_ng.Ca.Steps.{after_err, after_ok}

module _ (w : CaWorld) (want : String) where
  -- What follows a connection may use it.
  pub with_connection {ℓ} :
      {A : Type ℓ} (url fp : String) (k : Trust → Net A)
      → ((a : String) → normalize_fingerprint fp ≡ ok a → a ≡ want)
      → ((c : Trust) → KeepsReady w want c (k c))
      → Sound w want (pinned_client_for w url fp >>= k)
  unfolding ◌>>=◌
  with_connection url fp k agrees keeps = record {
    kept = λ l g.
        let y = pinned-Yields w want url fp agrees l g in
        elim (Result-cases (pinned_client_for w url fp l).0) [
          | inl (e, x) ↦ rw (after_err k (pinned_client_for w url fp l) e x) y.0
          | inr (c, x) ↦
              rw (after_ok k (pinned_client_for w url fp l) c x)
                ((keeps c).kept (pinned_client_for w url fp l).1 (y.1 c x, y.0)).1
        ];
  }

  module _ (c : Trust) where
    pub provisioners_page-KeepsReady :
        (base cursor : String) → KeepsReady w want c (provisioners_page w c base cursor)
    unfolding provisioners_page
    provisioners_page-KeepsReady base cursor = search (net_keeps, fetch-KeepsReady)

    pub acme_page-KeepsReady :
        (base cursor : String) → KeepsReady w want c (acme_page w c base cursor)
    unfolding acme_page
    acme_page-KeepsReady base cursor = search (net_keeps, fetch-KeepsReady)

    pub eab_page-KeepsReady :
        (cred : AdminCredential) (endpoint cursor : String)
        → KeepsReady w want c (eab_page w c cred endpoint cursor)
    unfolding eab_page
    eab_page-KeepsReady cred endpoint cursor = search (net_keeps, admin_request-KeepsReady)

    pub jwk_page-KeepsReady :
        (base cursor : String) → KeepsReady w want c (jwk_page w c base cursor)
    unfolding jwk_page
    jwk_page-KeepsReady base cursor = search (net_keeps, fetch-KeepsReady)

    pub search_key-KeepsReady :
        (base name password : String) (fuel : ℕ) (cursor : String)
        → KeepsReady w want c (search_key w c base name password fuel cursor)
    unfolding search_key
    search_key-KeepsReady base name password zero cursor = search net_keeps
    search_key-KeepsReady base name password (suc fuel) cursor =
        bind-Keeps _ _ _ (jwk_page w c base cursor) _ (jwk_page-KeepsReady base cursor) (λ page.
          elim (Option-cases (find_entry name page.0)) [
            | inr (e, x) ↦ rw x (search net_keeps)
            | inl x ↦ elim (Bool-cases (page.1 == "")) [
              | inl y ↦ rw (x, y) (search net_keeps)
              | inr y ↦ rw (x, y) (search_key-KeepsReady base name password fuel page.1)
            ]
          ])

    pub signing_key-KeepsReady :
        (fuel : ℕ) (base name password : String)
        → KeepsReady w want c (provisioner_signing_key w fuel base c name password)
    unfolding provisioner_signing_key
    signing_key-KeepsReady fuel base name password = search (net_keeps, search_key-KeepsReady)

    pub post-KeepsReady : (call : Call) → call.trust ≡ c → KeepsReady w want c (send w call)
    post-KeepsReady call e =
        subst (λ x. KeepsReady w want x (send w call)) e
          (send-Keeps _ _ _ w call
            (send-Stays w want call.method call.url call.authorization call.body call.trust))

    pub post_sign-KeepsReady :
        (base csr_pem ott : String) (validity_days : ℤ)
        → KeepsReady w want c (post_sign w base c csr_pem ott validity_days)
    unfolding post_sign
    post_sign-KeepsReady base csr_pem ott validity_days =
        bind-Keeps _ _ _ (send w _) _ (post-KeepsReady _ refl) (λ r. search net_keeps)

    pub post_revoke-KeepsReady :
        (base serial ott reason : String) (reason_code : ℤ)
        → KeepsReady w want c (post_revoke w base c serial ott reason reason_code)
    unfolding post_revoke
    post_revoke-KeepsReady base serial ott reason reason_code =
        bind-Keeps _ _ _ (send w _) _ (post-KeepsReady _ refl) (λ r. search net_keeps)

    pub signed_with-KeepsReady :
        (base : String) (csr : Csr) (p : SignRequest) (found : Option String)
        → KeepsReady w want c (signed_with w c base csr p found)
    unfolding signed_with
    signed_with-KeepsReady base csr p none = search net_keeps
    signed_with-KeepsReady base csr p (some key) = search (net_keeps, post_sign-KeepsReady)

    pub revoked_with-KeepsReady :
        (base : String) (p : RevokeRequest) (found : Option String)
        → KeepsReady w want c (revoked_with w c base p found)
    unfolding revoked_with
    revoked_with-KeepsReady base p none = search net_keeps
    revoked_with-KeepsReady base p (some key) = search (net_keeps, post_revoke-KeepsReady)
