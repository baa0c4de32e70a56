-- ===== src/Ca/Trusted.antt =====
-- No operation of internal/ca sends a token or a document before the CA has proved that its chain is
-- anchored in the pinned root.
use step_ui_ng.Ca.Net.{CaWorld, Call, Trust, fetch}
use step_ui_ng.Ca.Token.{AdminCredential}
use step_ui_ng.Base.{
  ℕ, String, List, ◌≡◌, ok, subst, refl, string_eq, Result, sym, arith, err, Option, some, none,
}
use step_ui_ng.Ca.Spec.{NewProvisionerSpec}
use step_ui_ng.Ca.Fingerprint.{normalize_fingerprint, canonical, CaError}
use step_ui_ng.Ca.Provisioners.{
  list_provisioners, list_acme_provisioners, create_provisioner, update_provisioner,
  delete_provisioner,
}
use step_ui_ng.Certs.World.{SignRequest, RevokeRequest, SignResult}
use step_ui_ng.Ca.Pinned.{test_connection, verify, unverified}
use step_ui_ng.Ca.Ready.{Sound, admin_request-KeepsReady, fetch-Sound}
use step_ui_ng.Ca.Keeps.{net_keeps}
use step_ui_ng.Ca.Eab.{create_eab_key, delete_eab_key, list_eab_keys}
use step_ui_ng.Ca.Sign.{sign_csr_at_ca}
use step_ui_ng.Ca.Revoke.{revoke_at_ca, credential_with, minted_credential}
use step_ui_ng.Ca.Vouched.{AreGuarded}
use step_ui_ng.Ca.Connected.{
  with_connection, provisioners_page-KeepsReady, acme_page-KeepsReady, eab_page-KeepsReady,
  signing_key-KeepsReady, signed_with-KeepsReady, revoked_with-KeepsReady,
}

-- The operations of the client, with the arguments other than the CA's URL and fingerprint.
pub data CaOp : Type 0 where
  test list list_acme : CaOp
  create update_acme : AdminCredential → NewProvisionerSpec → CaOp
  delete : AdminCredential → String → CaOp
  create_key delete_key : AdminCredential → String → String → CaOp
  list_keys : AdminCredential → String → CaOp
  sign : SignRequest → CaOp
  revoke : RevokeRequest → CaOp

-- The calls made by an operation, after those made before.
unfoldable pub calls_of : CaWorld → ℕ → String → String → CaOp → List Call → List Call
calls_of w fuel url fp test l = (test_connection w url fp l).1
calls_of w fuel url fp list l = (list_provisioners w fuel url fp l).1
calls_of w fuel url fp list_acme l = (list_acme_provisioners w fuel url fp l).1
calls_of w fuel url fp (create cred spec) l = (create_provisioner w url fp cred spec l).1
calls_of w fuel url fp (update_acme cred spec) l = (update_provisioner w url fp cred spec l).1
calls_of w fuel url fp (delete cred name) l = (delete_provisioner w url fp cred name l).1
calls_of w fuel url fp (create_key cred name reference) l =
    (create_eab_key w url fp cred name reference l).1
calls_of w fuel url fp (delete_key cred name key_id) l =
    (delete_eab_key w url fp cred name key_id l).1
calls_of w fuel url fp (list_keys cred name) l = (list_eab_keys w fuel url fp cred name l).1
calls_of w fuel url fp (sign p) l =
    (sign_csr_at_ca w fuel (record p { ca_url = url; fingerprint = fp }) l).1
calls_of w fuel url fp (revoke p) l =
    (revoke_at_ca w fuel (record p { ca_url = url; fingerprint = fp }) l).1

module _ (w : CaWorld) (want : String) where
  module _ (url fp : String)
      (agrees : (a : String) → normalize_fingerprint fp ≡ ok a → a ≡ want) where
    pub list_provisioners-Sound : (fuel : ℕ) → Sound w want (list_provisioners w fuel url fp)
    unfolding list_provisioners
    list_provisioners-Sound fuel =
        search (net_keeps, with_connection, provisioners_page-KeepsReady) depth 14

    pub list_acme-Sound : (fuel : ℕ) → Sound w want (list_acme_provisioners w fuel url fp)
    unfolding list_acme_provisioners
    list_acme-Sound fuel = search (net_keeps, with_connection, acme_page-KeepsReady) depth 14

    pub create-Sound :
        (cred : AdminCredential) (spec : NewProvisionerSpec)
        → Sound w want (create_provisioner w url fp cred spec)
    unfolding create_provisioner
    create-Sound cred spec = search (net_keeps, with_connection, admin_request-KeepsReady) depth 14

    pub update-Sound :
        (cred : AdminCredential) (spec : NewProvisionerSpec)
        → Sound w want (update_provisioner w url fp cred spec)
    unfolding update_provisioner
    update-Sound cred spec = search (net_keeps, with_connection, admin_request-KeepsReady) depth 14

    pub delete-Sound :
        (cred : AdminCredential) (name : String)
        → Sound w want (delete_provisioner w url fp cred name)
    unfolding delete_provisioner
    delete-Sound cred name = search (net_keeps, with_connection, admin_request-KeepsReady) depth 14

    pub create_key-Sound :
        (cred : AdminCredential) (name reference : String)
        → Sound w want (create_eab_key w url fp cred name reference)
    unfolding create_eab_key
    create_key-Sound cred name reference =
        search (net_keeps, with_connection, admin_request-KeepsReady) depth 14

    pub delete_key-Sound :
        (cred : AdminCredential) (name key_id : String)
        → Sound w want (delete_eab_key w url fp cred name key_id)
    unfolding delete_eab_key
    delete_key-Sound cred name key_id =
        search (net_keeps, with_connection, admin_request-KeepsReady) depth 14

    pub list_keys-Sound :
        (fuel : ℕ) (cred : AdminCredential) (name : String)
        → Sound w want (list_eab_keys w fuel url fp cred name)
    unfolding list_eab_keys
    list_keys-Sound fuel cred name =
        search (net_keeps, with_connection, eab_page-KeepsReady) depth 14

    sign-Sound :
        (fuel : ℕ) (p : SignRequest)
        → Sound w want (sign_csr_at_ca w fuel (record p { ca_url = url; fingerprint = fp }))
    unfolding sign_csr_at_ca
    sign-Sound fuel p =
        search (net_keeps, with_connection, signing_key-KeepsReady, signed_with-KeepsReady) depth 14

    revoke-Sound :
        (fuel : ℕ) (p : RevokeRequest)
        → Sound w want (revoke_at_ca w fuel (record p { ca_url = url; fingerprint = fp }))
    unfolding revoke_at_ca
    revoke-Sound fuel p =
        search (net_keeps, with_connection, signing_key-KeepsReady, revoked_with-KeepsReady) depth
          14

  unverified-calls : (o : Result CaError String × List Call) → (unverified w o).1 ≡ o.1
  unverified-calls (ok body, l) = refl
  unverified-calls (err e, l) = refl

  verify-Sound : (c : Trust) (url : String) → Sound w want (verify w c url)
  unfolding verify
  verify-Sound c url = record {
    kept = λ l g.
        subst (AreGuarded w want) (sym (unverified-calls (fetch w c url l)))
          ((fetch-Sound w want c url).kept l g);
  }

  pub test-Sound : (url fp : String) → Sound w want (test_connection w url fp)
  unfolding test_connection
  test-Sound url fp = search (net_keeps, fetch-Sound, verify-Sound) depth 16

pub normalize-canonical : (fp sum : String) → normalize_fingerprint fp ≡ ok sum → sum ≡ canonical fp
unfolding normalize_fingerprint
normalize-canonical fp sum h = ground arith

-- Whatever the CA, or one who answers in its place, replies, and however many pages are read: if the
-- calls before an operation are guarded, then so are its own. A call is guarded if it is a GET without
-- a token or a document, or if it goes over a connection whose TLS accepts only chains anchored in a
-- root with the entered SHA-256 sum, after such a GET over that connection was answered with success.
pub calls_of-AreGuarded :
    (w : CaWorld) (fuel : ℕ) (url fp : String) (op : CaOp) (l : List Call)
    → AreGuarded w (canonical fp) l
    → AreGuarded w (canonical fp) (calls_of w fuel url fp op l)
unfolding calls_of
calls_of-AreGuarded w fuel url fp op =
    let want = canonical fp in
    let agrees = normalize-canonical fp in
    elim op
      as (λ o.
        (l : List Call) → AreGuarded w want l → AreGuarded w want (calls_of w fuel url fp o l)) [
          | test ↦ (test-Sound w want url fp).kept
          | list ↦ (list_provisioners-Sound w want url fp agrees fuel).kept
          | list_acme ↦ (list_acme-Sound w want url fp agrees fuel).kept
          | create cred spec ↦ (create-Sound w want url fp agrees cred spec).kept
          | update_acme cred spec ↦ (update-Sound w want url fp agrees cred spec).kept
          | delete cred name ↦ (delete-Sound w want url fp agrees cred name).kept
          | create_key cred name reference ↦
              (create_key-Sound w want url fp agrees cred name reference).kept
          | delete_key cred name key_id ↦
              (delete_key-Sound w want url fp agrees cred name key_id).kept
          | list_keys cred name ↦ (list_keys-Sound w want url fp agrees fuel cred name).kept
          | sign p ↦ (sign-Sound w want url fp agrees fuel p).kept
          | revoke p ↦ (revoke-Sound w want url fp agrees fuel p).kept
        ]

module _ (w : CaWorld) (want : String) where
  credential_with-Sound :
      (key_pem : String) (found : Option SignResult)
      → Sound w want (credential_with w key_pem found)
  unfolding credential_with
  credential_with-Sound key_pem none = search net_keeps
  credential_with-Sound key_pem (some result) = search net_keeps

  sign_at-Sound :
      (fuel : ℕ) (p : SignRequest)
      → ((a : String) → normalize_fingerprint p.fingerprint ≡ ok a → a ≡ want)
      → Sound w want (sign_csr_at_ca w fuel p)
  sign_at-Sound fuel p agrees = sign-Sound w want p.ca_url p.fingerprint agrees fuel p

  -- The request for a minted credential keeps the calls guarded.
  pub minted-Sound :
      (fuel : ℕ) (p : SignRequest) (ephemeral : Option (String × String)) (subject : String)
      → ((a : String) → normalize_fingerprint p.fingerprint ≡ ok a → a ≡ want)
      → Sound w want (minted_credential w fuel p ephemeral subject)
  unfolding minted_credential
  minted-Sound fuel p ephemeral subject agrees =
      search (net_keeps, sign_at-Sound, credential_with-Sound) depth 14
