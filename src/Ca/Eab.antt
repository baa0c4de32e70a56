-- ===== src/Ca/Eab.antt =====
-- internal/ca/acme.go: the keys of external account binding.
use step_ui_ng.Ca.Net.{
  ◌>>=◌, ◌>>◌, Net, CaWorld, Trust, EabWire, raise_if, Page, lift, admin_request, reference_body,
  no_body, or_raise, pure,
}
use step_ui_ng.Base.{
  String, Bool, List, Option, ℕ, if◌then◌else◌, ◌∷◌, Result, false, [], ◌==◌, err, ◌||◌, some, ok,
  true, string_eq, none,
}
use step_ui_ng.Ca.Token.{AdminCredential, generate_admin_token}
use step_ui_ng.Base.Text.{concat, trim_space}
use step_ui_ng.Base.Prefix.{trim_right_slash}
use step_ui_ng.Ca.Fingerprint.{CaError, invalid_provisioner, malformed_response, base_url}
use step_ui_ng.Ca.Pinned.{pinned_client_for}
use step_ui_ng.Ca.Provisioners.{page_url, follow}

-- `EABKey`
pub record EabKey : Type 0 where
  pub key_id : String
  pub hmac : String
  pub provisioner : String
  pub reference : String
  pub account : String
  pub created_at : String
  pub bound_at : String

-- `toEABKey`
unfoldable pub to_eab_key : Bool → EabWire → EabKey
to_eab_key with_hmac k = record {
  key_id = k.id;
  hmac = if with_hmac then k.hmac_key else "";
  provisioner = k.provisioner;
  reference = k.reference;
  account = k.account;
  created_at = k.created_at;
  bound_at = k.bound_at;
}

unfoldable pub listed_keys : List EabWire → List EabKey
listed_keys [] = []
listed_keys (k ∷ ks) = to_eab_key false k ∷ listed_keys ks

module _ (w : CaWorld) where
  -- `eabBasePath`
  unfoldable pub eab_endpoint : String → String → String
  eab_endpoint base provisioner =
      concat (base ∷ "/admin/acme/eab/" ∷ w.path_escape provisioner ∷ [])

  abbrev one_time : Option EabWire → Result CaError EabKey
  one_time none = err malformed_response
  one_time (some k) =
      if k.id == "" || k.hmac_key == "" then err malformed_response else ok (to_eab_key true k)

  -- `CreateEABKey`
  unfoldable pub create_eab_key : String → String → AdminCredential → String → String → Net EabKey
  create_eab_key ca_url fingerprint cred provisioner reference = do
    raise_if (trim_space provisioner == "") invalid_provisioner
    base ← lift (base_url ca_url)
    client ← pinned_client_for w ca_url fingerprint
    tok ← lift (generate_admin_token w cred (eab_endpoint base (trim_space provisioner)))
    answer ←
        admin_request w client "POST" (eab_endpoint base (trim_space provisioner)) tok
          (reference_body reference)
    lift (one_time (w.eab_of_json answer))

  -- A page of the keys, with a token for the address without the cursor.
  unfoldable pub eab_page : Trust → AdminCredential → String → String → Net (Page EabKey)
  eab_page client cred endpoint cursor = do
    tok ← lift (generate_admin_token w cred endpoint)
    answer ← admin_request w client "GET" (page_url w endpoint cursor) tok no_body
    (entries, next) ← or_raise (w.eabs_of_json answer) malformed_response
    pure (listed_keys entries, next)

  -- `ListEABKeys`
  unfoldable pub list_eab_keys :
      ℕ → String → String → AdminCredential → String → Net (Option (List EabKey))
  list_eab_keys fuel ca_url fingerprint cred provisioner = do
    raise_if (trim_space provisioner == "") invalid_provisioner
    base ← lift (base_url ca_url)
    client ← pinned_client_for w ca_url fingerprint
    follow (eab_page client cred (eab_endpoint base (trim_space provisioner))) fuel "" []

  -- `DeleteEABKey`
  unfoldable pub delete_eab_key :
      String → String → AdminCredential → String → String → Net (Unit {0})
  delete_eab_key ca_url fingerprint cred provisioner key_id = do
    raise_if (trim_space provisioner == "" || trim_space key_id == "") invalid_provisioner
    base ← lift (base_url ca_url)
    client ← pinned_client_for w ca_url fingerprint
    tok ← lift (generate_admin_token w cred (eab_endpoint base (trim_space provisioner)))
    _ ←
        admin_request w client "DELETE"
          (concat (
            eab_endpoint base (trim_space provisioner)
            ∷ "/"
            ∷ w.path_escape (trim_space key_id)
            ∷ []))
          tok no_body
    pure tt

  -- `DirectoryURL`
  unfoldable pub directory_url : String → String → String
  directory_url ca_url provisioner = concat (
      trim_right_slash (trim_space ca_url)
      ∷ "/acme/"
      ∷ w.path_escape (trim_space provisioner)
      ∷ "/directory"
      ∷ [])
