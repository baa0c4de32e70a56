-- ===== src/Certs/Inventory.antt =====
-- internal/certs/inventory.go: what is read of the stored certificates.
use step_ui_ng.Base.{
  ℕ, String, List, if◌then◌else◌, Bool, Option, ◌==◌, not, ◌∷◌, [], true, ◌&&◌, ◌||◌, some, ◌++◌,
  string_eq, nat_eq, keep, none, false,
}
use step_ui_ng.Base.Int.{ℤ, ltb_ℤ, pos}
use step_ui_ng.Certs.World.{
  World, Certificate, list_certificates, get_cert, load_bundle, failed, not_found, unseal_key,
  write_zip, build_p12, close_zip,
}
use step_ui_ng.Certs.Store.{CertRow, Op, raise_if, gets, pure, cert_by_id, or_raise}
use Prim.Native.Char.{code}
use step_ui_ng.Base.Text.{concat}
use step_ui_ng.Certs.Monad.{◌>>=◌, ◌>>◌}

abbrev pub expiring_threshold_days : ℕ
expiring_threshold_days = 30

pub record ListFilter : Type 0 where
  pub status : String
  pub search : String
  pub provisioner : String

pub record InventoryItem : Type 0 where
  pub id : ℕ
  pub cn : String
  pub sans : List String
  pub serial : String
  pub not_after : ℤ
  pub stored_status : String
  pub status : String
  pub days_left : ℤ
  pub key_strategy : String
  pub provisioner : String

-- `strings.ReplaceAll` of one character, given by its code, by itself with a backslash in front.
unfoldable pub escape_char : ℕ → String → String
escape_char k String.[] = String.[]
escape_char k (String.◌∷◌ c s) =
    if code c == k
    then String.◌∷◌ "\\" (String.◌∷◌ c (escape_char k s))
    else String.◌∷◌ c (escape_char k s)

-- The search term as `List` escapes it.
unfoldable pub escape_like : String → String
escape_like s = escape_char b'_' (escape_char b'%' (escape_char b'\\' s))

-- What reading the inventory meets beside the service's `World`: the whole seconds of the clock, the
-- days until a time (`Hours` of the difference by 24, cut to an integer), SQLite's `LIKE` with the
-- escape character `\`, its `ORDER BY created_at DESC`, which leaves equal times in an order of its
-- choice, and the parsers of a key, a certificate and a chain.
pub record Reading : Type 0 where
  pub now_seconds : ℤ
  pub days_until : ℤ → ℤ
  pub like : String → String → Bool
  pub by_created_at : List CertRow → List CertRow
  pub parse_key : String → Option String
  pub parse_cert : String → Option String
  pub parse_chain_certs : String → Option (List String)

module _ (w : World) (rd : Reading) where
  -- `DeriveStatus`; a whole second is after the clock's instant if it is after its whole seconds.
  unfoldable pub derive_status : String → ℤ → String × ℤ
  derive_status stored_status not_after =
      if stored_status == "revoked"
      then ("revoked", rd.days_until not_after)
      else if not (ltb_ℤ rd.now_seconds not_after)
      then ("expired", rd.days_until not_after)
      else ("active", rd.days_until not_after)

  -- The WHERE clause of `List`.
  unfoldable pub is_selected : ListFilter → CertRow → Bool
  is_selected f r =
      let pattern = concat ("%" ∷ escape_like f.search ∷ "%" ∷ []) in
      (f.search == "" || rd.like pattern r.cn || rd.like pattern r.sans_json)
      && (f.provisioner == "" || elim r.provisioner [ none ↦ false | some p ↦ p == f.provisioner ])

  -- `Scan` of a row into an item.
  abbrev pub item_of : CertRow → InventoryItem
  item_of r = record {
    id = r.id;
    cn = r.cn;
    sans = w.names_of_json r.sans_json;
    serial = r.serial;
    not_after = r.not_after;
    stored_status = r.status;
    status = (derive_status r.status r.not_after).0;
    days_left = (derive_status r.status r.not_after).1;
    key_strategy = r.key_strategy;
    provisioner = elim r.provisioner [ none ↦ "" | some p ↦ p ];
  }

  -- The status filter of `List`.
  unfoldable pub is_shown : String → InventoryItem → Bool
  is_shown status it =
      if status == ""
      then true
      else if status == "expiring"
      then it.status == "active" && not (ltb_ℤ (pos expiring_threshold_days) it.days_left)
      else it.status == status

  unfoldable pub shown : String → List CertRow → List InventoryItem
  shown status [] = []
  shown status (r ∷ rs) =
      if is_shown status (item_of r) then item_of r ∷ shown status rs else shown status rs

  -- `List`
  unfoldable pub list_certs : ListFilter → Op (List InventoryItem)
  list_certs f = do
    raise_if (w.fails list_certificates) (failed list_certificates)
    rows ← gets (λ db. db.certificates.rows)
    pure (shown f.status (rd.by_created_at (keep (is_selected f) rows)))

  -- `Get`
  unfoldable pub get_certificate : ℕ → Op Certificate
  get_certificate id = do
    raise_if (w.fails get_cert) (failed get_cert)
    found ← gets (λ db. cert_by_id id db.certificates.rows)
    row ← or_raise found not_found
    pure (record {
      id = row.id;
      cn = row.cn;
      sans = w.names_of_json row.sans_json;
      serial = row.serial;
      not_before = row.not_before;
      not_after = row.not_after;
      status = row.status;
      key_strategy = row.key_strategy;
      cert_pem = row.cert_pem;
      chain_pem = row.chain_pem;
      fullchain_pem = row.fullchain_pem;
      private_key_pem = "";
      pfx = "";
    })

  -- `buildBundlePFX`
  unfoldable pub build_bundle_pfx : String → String → String → String → Option String
  build_bundle_pfx key_pem cert_pem chain_pem password = elim (rd.parse_key key_pem) [
    | none ↦ none
    | some key ↦ elim (rd.parse_cert cert_pem) [
      | none ↦ none
      | some leaf ↦ elim (if chain_pem == "" then some [] else rd.parse_chain_certs chain_pem) [
        | none ↦ none
        | some chain ↦ w.pkcs12 key leaf chain password
      ]
    ]
  ]

  -- `buildReadme`
  unfoldable pub build_readme : String → String → String → Bool → Bool → String
  build_readme cn serial key_strategy has_key has_pfx = concat (
      "NextGen UI certificate bundle\n"
      ∷ "==============================\n\n"
      ∷ "Common name : "
      ∷ cn
      ∷ "\nSerial      : "
      ∷ serial
      ∷ "\nKey strategy: "
      ∷ key_strategy
      ∷ "\n\nFiles\n-----\n"
      ∷ "  cert.pem      — leaf certificate (PEM)\n"
      ∷ "  chain.pem     — issuer chain (PEM, may be empty for self-signed)\n"
      ∷ "  fullchain.pem — leaf + issuer chain concatenated (PEM)\n"
      ∷ (if has_key then "  privkey.pem   — private key (PKCS#8 PEM, unencrypted)\n" else "")
      ∷ (if has_pfx then "  cert.p12      — PKCS#12 bundle (password-protected)\n" else "")
      ∷ "\nSecurity notes\n--------------\n"
      ∷ "  Store this bundle in a secure location.\n"
      ∷ (if has_key then "  privkey.pem is unencrypted — restrict access (chmod 0600).\n" else "")
      ∷ [])

  -- The key that `Bundle` opens.
  unfoldable pub bundle_key : CertRow → Option String
  bundle_key r = elim r.privkey_sealed [
    | none ↦ some ""
    | some sealed ↦
        if r.key_strategy == "server" && not (sealed == "") then w.unseal sealed else some ""
  ]

  -- The optional archive of `Bundle`.
  unfoldable pub bundle_p12 : CertRow → String → String → Option String
  bundle_p12 r key_pem password =
      if not (password == "") && not (key_pem == "")
      then build_bundle_pfx key_pem r.cert_pem r.chain_pem password
      else some ""

  -- The files that `Bundle` writes, in their order.
  unfoldable pub bundle_files : CertRow → String → String → String → List (String × String)
  bundle_files r key_pem password p12 =
      ("cert.pem", r.cert_pem)
        ∷ ("chain.pem", r.chain_pem)
        ∷ ("fullchain.pem", r.fullchain_pem)
        ∷ (if key_pem == "" then [] else ("privkey.pem", key_pem) ∷ [])
      ++ (if not (password == "") && not (key_pem == "") then ("cert.p12", p12) ∷ [] else [])
      ++ (
        "README.txt",
        build_readme r.cn r.serial r.key_strategy (not (key_pem == ""))
            (not (password == "") && not (key_pem == "")),
      )
        ∷ []

  -- `Bundle`, up to the archive's bytes: the files in their order.
  unfoldable pub bundle : ℕ → String → Op (List (String × String))
  bundle id password = do
    raise_if (w.fails load_bundle) (failed load_bundle)
    found ← gets (λ db. cert_by_id id db.certificates.rows)
    row ← or_raise found not_found
    key_pem ← or_raise (bundle_key row) (failed unseal_key)
    raise_if (w.fails write_zip) (failed write_zip)
    p12 ← or_raise (bundle_p12 row key_pem password) (failed build_p12)
    raise_if (w.fails close_zip) (failed close_zip)
    pure (bundle_files row key_pem password p12)
