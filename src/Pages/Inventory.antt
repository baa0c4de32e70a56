-- ===== src/Pages/Inventory.antt =====
-- internal/app/inventory.go: the handlers.
use step_ui_ng.Base.{
  ◌==◌, string_eq, ◌&&◌, not, if◌then◌else◌, String, Bool, List, Result, ℕ, nat_eq, ◌∷◌, err, [],
  ok, true, ◌+◌, Option, none, some,
}
use Prim.Native.Char.{code}
use step_ui_ng.Certs.Inventory.{ListFilter, InventoryItem, list_certs, get_certificate, bundle}
use step_ui_ng.Certs.Store.{Db}
use step_ui_ng.Pages.State.{PageEnv, CertAnswer, CertForm, refused}
use step_ui_ng.App.Inventory.{PageView, inventory_view, page_number}
use step_ui_ng.Base.Text.{concat}
use step_ui_ng.Pages.Fields.{parse_cert_id}
use step_ui_ng.Base.Int.{ℤ}
use step_ui_ng.Pages.Names.{download_name}
use step_ui_ng.Certs.World.{CertError, Certificate}
use step_ui_ng.Pages.Handlers.{unreadable, renew_days}
use step_ui_ng.Certs.Names.{list_provisioner_names}
use step_ui_ng.Base.Number.{wrap_int}
use step_ui_ng.App.AuditPage.{page_before}
use step_ui_ng.Certs.Parsed.{ParsedCert, parse_leaf_pem}

-- What `getInventory` reads of a request; a header that is missing reads as the empty text.
pub record InventoryQuery : Type 0 where
  pub page_text : String
  pub filter : ListFilter
  pub hx_request : String
  pub hx_boosted : String

-- `inventoryView`
pub record InventoryView : Type 0 where
  pub filter : ListFilter
  pub page : PageView InventoryItem
  pub provisioners : List String
  pub next_page : ℤ
  pub prev_page : ℤ

-- A table alone or a whole page, a panic, the page of a certificate, an error, or an archive with its
-- name and whether it may not be stored by a cache.
pub data InventoryAnswer : Type 0 where
  listing : (partial : Bool) → InventoryView → InventoryAnswer
  panicked : InventoryAnswer
  cert_page : Certificate → ParsedCert → ℤ → InventoryAnswer
  of_cert : CertAnswer → InventoryAnswer
  archive : (filename : String) → List (String × String) → (no_store : Bool) → InventoryAnswer

abbrev pub InventoryReply : Type 0
InventoryReply = InventoryAnswer × Db

-- `strings.ReplaceAll` of quotes by underscores
unfoldable pub without_quotes : String → String
without_quotes String.[] = String.[]
without_quotes (String.◌∷◌ c s) = String.◌∷◌ (if code c == b'"' then "_" else c) (without_quotes s)

abbrev pub bundle_filename : String → String
bundle_filename cn = without_quotes (concat (download_name cn ∷ "-bundle.zip" ∷ []))

abbrev pub is_partial : InventoryQuery → Bool
is_partial q = q.hx_request == "true" && not (q.hx_boosted == "true")

abbrev pub listing_page :
    InventoryQuery → List String → Option (PageView InventoryItem) → InventoryAnswer
listing_page q names none = panicked
listing_page q names (some v) = listing (is_partial q) record {
  filter = q.filter;
  page = v;
  provisioners = names;
  next_page = wrap_int (page_number q.page_text + 1);
  prev_page = page_before (page_number q.page_text);
}

module _ (w : PageEnv) where
  abbrev pub with_names :
      InventoryQuery → List InventoryItem → Result CertError (List String) × Db → InventoryReply
  with_names q list (err e, db) = (of_cert (refused 500 "internal error"), db)
  with_names q list (ok names, db) = (listing_page q names (inventory_view q.page_text list), db)

  abbrev pub with_list :
      InventoryQuery → Result CertError (List InventoryItem) × Db → InventoryReply
  with_list q (err e, db) = (of_cert (refused 500 "internal error"), db)
  with_list q (ok list, db) = with_names q list (list_provisioner_names w.world db)

  -- `getInventory`
  unfoldable pub get_inventory : InventoryQuery → Db → InventoryReply
  get_inventory q db = with_list q (list_certs w.world w.reading q.filter db)

  abbrev pub detailed : Result CertError Certificate × Db → InventoryReply
  detailed (err e, db) = (of_cert (unreadable e), db)
  detailed (ok cert, db) = (
    cert_page cert (parse_leaf_pem w.world.show_int (w.parse_leaf cert.cert_pem)) (renew_days w),
    db,
  )

  -- `getCertDetail`
  unfoldable pub get_cert_detail : String → Db → InventoryReply
  get_cert_detail path_id db = elim (parse_cert_id path_id) [
    | none ↦ (of_cert (refused 400 "bad certificate id"), db)
    | some id ↦ detailed (get_certificate w.world w.reading id db)
  ]

  abbrev pub archived : List (String × String) → Result CertError Certificate × Db → InventoryReply
  archived files (err e, db) = (of_cert (refused 500 "internal error"), db)
  archived files (ok cert, db) = (archive (bundle_filename cert.cn) files true, db)

  abbrev pub bundled : ℕ → Result CertError (List (String × String)) × Db → InventoryReply
  bundled id (err e, db) = (of_cert (unreadable e), db)
  bundled id (ok files, db) = archived files (get_certificate w.world w.reading id db)

  -- `postCertDownload`
  unfoldable pub post_cert_download : CertForm → Db → InventoryReply
  post_cert_download f db = elim (parse_cert_id f.path_id) [
    | none ↦ (of_cert (refused 400 "bad certificate id"), db)
    | some id ↦ bundled id (bundle w.world w.reading id f.pfx_password db)
  ]
