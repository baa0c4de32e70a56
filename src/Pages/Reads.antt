-- ===== src/Pages/Reads.antt =====
-- What the handlers of internal/app/inventory.go change, and which of their answers hold key material.
use step_ui_ng.Certs.Store.{raise_if, pure, or_raise, cert_by_id, Db, gets}
use step_ui_ng.Certs.Keeps.{Keeps, plain_keeps}
use step_ui_ng.Certs.Monad.{◌>>=◌, ◌>>◌}
use step_ui_ng.Base.{
  refl, ok, err, ◌∙◌, inl, inr, false, List, ℕ, Result, String, ◌≡◌, Option-cases, Bool-cases,
  Option, some, none,
}
use step_ui_ng.Certs.Inventory.{
  list_certs, InventoryItem, Reading, ListFilter, bundle, get_certificate,
}
use step_ui_ng.Certs.Names.{list_provisioner_names}
use step_ui_ng.Pages.State.{PageEnv, CertForm}
use step_ui_ng.Pages.Inventory.{
  InventoryQuery, get_inventory, get_cert_detail, InventoryAnswer, post_cert_download,
  InventoryReply, with_names, with_list, bundled, archived, listing_page, detailed,
}
use step_ui_ng.Pages.Secrets.{
  IsKept, listed_secret, listed_no_store, without-IsKept, unreadable-eq-false, keyless_lem,
}
use step_ui_ng.Certs.World.{CertError, World, Certificate, list_names, list_certificates, get_cert}
use step_ui_ng.Pages.Fields.{parse_cert_id}
use step_ui_ng.App.Inventory.{inventory_view, PageView}
use step_ui_ng.Pages.Handlers.{
  shown_detail, render_detail_msg, revoked, shown_renewed, render_cert_detail, renewed,
}
use step_ui_ng.Certs.Yields.{IsKeyless, get_certificate-Yields}

list_certs-db :
    (w : World) (rd : Reading) (f : ListFilter) (db : Db) → (list_certs w rd f db).1 ≡ db
unfolding list_certs ◌>>=◌ ◌>>◌ raise_if gets pure
list_certs-db w rd f db = elim (Bool-cases (w.fails list_certificates)) [
  | inl x ↦ rw x refl
  | inr x ↦ rw x refl
]

list_provisioner_names-db : (w : World) (db : Db) → (list_provisioner_names w db).1 ≡ db
unfolding list_provisioner_names ◌>>=◌ ◌>>◌ raise_if gets pure
list_provisioner_names-db w db = elim (Bool-cases (w.fails list_names)) [
  | inl x ↦ rw x refl
  | inr x ↦ rw x refl
]

-- Reading a certificate changes nothing.
pub get_certificate-db :
    (w : World) (rd : Reading) (id : ℕ) (db : Db) → (get_certificate w rd id db).1 ≡ db
unfolding get_certificate ◌>>=◌ ◌>>◌ raise_if gets or_raise pure
get_certificate-db w rd id db = elim (Bool-cases (w.fails get_cert)) [
  | inl x ↦ rw x refl
  | inr x ↦ elim (Option-cases (cert_by_id id db.certificates.rows)) [
    | inl y ↦ rw (x, y) refl
    | inr (row, y) ↦ rw (x, y) refl
  ]
]

abbrev Same : Db → Db → Type 0
Same db db' = db' ≡ db

bundle-Keeps :
    (w : World) (rd : Reading) (id : ℕ) (password : String)
    → Keeps Same (λ db. refl) (λ a b c p q. q ∙ p) (bundle w rd id password)
unfolding bundle
bundle-Keeps w rd id password = search (plain_keeps) depth 20

pub bundle-db :
    (w : World) (rd : Reading) (id : ℕ) (password : String) (db : Db)
    → (bundle w rd id password db).1 ≡ db
bundle-db w rd id password db = (bundle-Keeps w rd id password).kept db

module _ (w : PageEnv) where
  pub shown_detail-db :
      (flash message : String) (o : Result CertError Certificate × Db)
      → (shown_detail w flash message o).1 ≡ o.1
  shown_detail-db flash message (err e, db) = refl
  shown_detail-db flash message (ok cert, db) = refl

  pub render_detail_msg-db :
      (id : ℕ) (flash message : String) (db : Db) → (render_detail_msg w id flash message db).1 ≡ db
  unfolding render_detail_msg
  render_detail_msg-db id flash message db =
      shown_detail-db flash message (get_certificate w.world w.reading id db)
      ∙ get_certificate-db w.world w.reading id db

  pub revoked-db : (id : ℕ) (o : Result CertError (Unit {0}) × Db) → (revoked w id o).1 ≡ o.1
  revoked-db id (err e, db) = render_detail_msg-db id _ _ db
  revoked-db id (ok u, db) = render_detail_msg-db id _ _ db

  shown_renewed-db : (o : Result CertError Certificate × Db) → (shown_renewed w o).1 ≡ o.1
  shown_renewed-db (err e, db) = refl
  shown_renewed-db (ok cert, db) = refl

  pub renewed-db : (id : ℕ) (o : Result CertError Certificate × Db) → (renewed w id o).1 ≡ o.1
  unfolding render_cert_detail
  renewed-db id (err e, db) = render_detail_msg-db id _ _ db
  renewed-db id (ok cert, db) =
      shown_renewed-db (get_certificate w.world w.reading cert.id db)
      ∙ get_certificate-db w.world w.reading cert.id db

  archived-db :
      (files : List (String × String)) (o : Result CertError Certificate × Db)
      → (archived w files o).1 ≡ o.1
  archived-db files (err e, db) = refl
  archived-db files (ok cert, db) = refl

  pub bundled-db :
      (id : ℕ) (o : Result CertError (List (String × String)) × Db) → (bundled w id o).1 ≡ o.1
  bundled-db id (err e, db) = refl
  bundled-db id (ok files, db) =
      archived-db files (get_certificate w.world w.reading id db)
      ∙ get_certificate-db w.world w.reading id db

  -- An answer that changes nothing and holds no key material.
  abbrev pub IsHarmless : Db → InventoryReply → Type 0
  IsHarmless db o = (o.1 ≡ db) × (listed_secret o.0 ≡ false)

  listing-eq-false :
      (q : InventoryQuery) (names : List String) (v : Option (PageView InventoryItem))
      → listed_secret (listing_page q names v) ≡ false
  listing-eq-false q names none = refl
  listing-eq-false q names (some v) = refl

  with_names-IsHarmless :
      (db : Db) (q : InventoryQuery) (list : List InventoryItem)
      (o : Result CertError (List String) × Db)
      → o.1 ≡ db
      → IsHarmless db (with_names w q list o)
  with_names-IsHarmless db q list (err e, db') h = (h, refl)
  with_names-IsHarmless db q list (ok names, db') h =
      (h, listing-eq-false q names (inventory_view q.page_text list))

  with_list-IsHarmless :
      (db : Db) (q : InventoryQuery) (o : Result CertError (List InventoryItem) × Db)
      → o.1 ≡ db
      → IsHarmless db (with_list w q o)
  with_list-IsHarmless db q (err e, db') h = (h, refl)
  with_list-IsHarmless db q (ok list, db') h =
      with_names-IsHarmless db q list (list_provisioner_names w.world db')
        (list_provisioner_names-db w.world db' ∙ h)

  pub get_inventory-IsHarmless :
      (q : InventoryQuery) (db : Db) → IsHarmless db (get_inventory w q db)
  unfolding get_inventory
  get_inventory-IsHarmless q db =
      with_list-IsHarmless db q (list_certs w.world w.reading q.filter db)
        (list_certs-db w.world w.reading q.filter db)

  detailed-IsHarmless :
      (db : Db) (o : Result CertError Certificate × Db)
      → o.1 ≡ db
      → ((c : Certificate) → o.0 ≡ ok c → IsKeyless c)
      → IsHarmless db (detailed w o)
  detailed-IsHarmless db (err e, db') h g = (h, unreadable-eq-false e)
  detailed-IsHarmless db (ok c, db') h g = (h, keyless_lem c (g c refl))

  pub get_cert_detail-IsHarmless :
      (path_id : String) (db : Db) → IsHarmless db (get_cert_detail w path_id db)
  unfolding get_cert_detail
  get_cert_detail-IsHarmless path_id db = elim (Option-cases (parse_cert_id path_id)) [
    | inl x ↦ rw (get_cert_detail, x) (refl, refl)
    | inr (id, x) ↦
        rw (get_cert_detail, x)
          (detailed-IsHarmless db (get_certificate w.world w.reading id db)
            (get_certificate-db w.world w.reading id db)
            (λ c h. get_certificate-Yields w.world w.reading id c db h))
  ]

  abbrev pub ListingKept : InventoryAnswer → Type 0
  ListingKept a = IsKept (listed_secret a) (listed_no_store a)

  archived_kept :
      (files : List (String × String)) (o : Result CertError Certificate × Db)
      → ListingKept (archived w files o).0
  archived_kept files (err e, db) = without-IsKept _ _ refl
  archived_kept files (ok cert, db) = λ h. refl

  bundled_kept :
      (id : ℕ) (o : Result CertError (List (String × String)) × Db) → ListingKept (bundled w id o).0
  bundled_kept id (err e, db) = without-IsKept _ _ (unreadable-eq-false e)
  bundled_kept id (ok files, db) = archived_kept files (get_certificate w.world w.reading id db)

  pub post_cert_download_kept : (f : CertForm) (db : Db) → ListingKept (post_cert_download w f db).0
  unfolding post_cert_download
  post_cert_download_kept f db = elim (Option-cases (parse_cert_id f.path_id)) [
    | inl x ↦ rw (post_cert_download, x) (without-IsKept _ _ refl)
    | inr (id, x) ↦
        rw (post_cert_download, x) (bundled_kept id (bundle w.world w.reading id f.pfx_password db))
  ]
