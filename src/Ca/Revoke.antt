-- ===== src/Ca/Revoke.antt =====
-- internal/ca/revoke.go and admin_auth.go: to have a certificate revoked, and the sources of the
-- admin's credential.
use step_ui_ng.Ca.Net.{
  ◌>>=◌, ◌>>◌, Net, CaWorld, Trust, Reply, send, raise_if, classify_do_error, replied, revoke_body,
  is_success, lift, untrusted, undelivered, pure, or_raise,
}
use step_ui_ng.Base.{
  none, String, ℕ, Result, Option, err, ◌∷◌, [], ◌==◌, if◌then◌else◌, ok, some, string_eq,
}
use step_ui_ng.Base.Int.{ℤ, pos}
use step_ui_ng.Certs.World.{RevokeRequest, CaError, revoke_invalid, SignRequest, SignResult}
use step_ui_ng.Base.Text.{concat, trim_space}
use step_ui_ng.Ca.Fingerprint.{base_url, revoke_failed, provisioner_key, invalid_admin_credential}
use step_ui_ng.Ca.Pinned.{pinned_client_for}
use step_ui_ng.Ca.Sign.{provisioner_signing_key, sign_csr_at_ca}
use step_ui_ng.Ca.Token.{AdminCredential, new_admin_credential}

module _ (w : CaWorld) where
  -- `buildRevokeToken`
  unfoldable pub build_revoke_token : String → String → String → String → Result CaError String
  build_revoke_token key provisioner_name base serial =
      elim (w.sign_token key record {
        issuer = provisioner_name;
        subject = serial;
        audience = concat (base ∷ "/1.0/revoke" ∷ []);
        sans = [];
      }) [ none ↦ err provisioner_key | some ott ↦ ok ott ]

  abbrev revoke_answer : Reply → Result CaError (Unit {0})
  revoke_answer untrusted = err (classify_do_error untrusted)
  revoke_answer undelivered = err (classify_do_error undelivered)
  revoke_answer (replied status body complete) =
      if is_success status then ok tt else err revoke_failed

  -- `postRevoke`
  unfoldable pub post_revoke : String → Trust → String → String → String → ℤ → Net (Unit {0})
  post_revoke base client serial ott reason reason_code = do
    reply ← send w record {
      trust = client;
      method = "POST";
      url = concat (base ∷ "/1.0/revoke" ∷ []);
      authorization = "";
      body = revoke_body serial ott reason_code reason;
    }
    lift (revoke_answer reply)

  -- What is done with the key, if the search for it has ended.
  unfoldable pub revoked_with :
      Trust → String → RevokeRequest → Option String → Net (Option (Unit {0}))
  revoked_with client base p none = pure none
  revoked_with client base p (some key) = do
    ott ← lift (build_revoke_token key p.provisioner_name base (trim_space p.serial))
    post_revoke base client (trim_space p.serial) ott p.reason p.reason_code
    pure (some tt)

  -- `RevokeCert`
  unfoldable pub revoke_at_ca : ℕ → RevokeRequest → Net (Option (Unit {0}))
  revoke_at_ca fuel p = do
    raise_if (trim_space p.serial == "") revoke_invalid
    base ← lift (base_url p.ca_url)
    client ← pinned_client_for w p.ca_url p.fingerprint
    found ← provisioner_signing_key w fuel base client p.provisioner_name p.password
    revoked_with client base p found

  -- The admin's credential of an answer to the request for it.
  unfoldable pub credential_with : String → Option SignResult → Net (Option AdminCredential)
  credential_with key_pem none = pure none
  credential_with key_pem (some result) = do
    cred ← lift (new_admin_credential w result.fullchain_pem key_pem)
    pure (some cred)

  -- The credential that `jwkMinted.Credential` makes of an ephemeral key and of the request for it,
  -- which another package creates.
  unfoldable pub minted_credential :
      ℕ → SignRequest → Option (String × String) → String → Net (Option AdminCredential)
  minted_credential fuel p ephemeral subject = do
    raise_if (subject == "") invalid_admin_credential
    (key_pem, csr_pem) ← or_raise ephemeral invalid_admin_credential
    found ← sign_csr_at_ca w fuel (record p { csr_pem = csr_pem; validity_days = pos 0 })
    credential_with key_pem found
