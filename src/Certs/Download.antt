-- ===== src/Certs/Download.antt =====
-- What the inventory shows and what a download holds.
use step_ui_ng.Certs.World.{World, load_bundle, write_zip, close_zip, Certificate, SignResult, Leaf}
use step_ui_ng.Certs.Store.{cert_by_id, CertRow, raise_if, gets, or_raise, pure, Db, append_row}
use step_ui_ng.Certs.Inventory.{
  bundle, Reading, bundle_key, shown, bundle_p12, is_shown, bundle_files, derive_status,
  build_readme,
}
use step_ui_ng.Base.{
  ℕ, List, ◌≡◌, length, none, ◌+◌, ◌++◌, ◌≤◌, ◌∷◌, arith, [], some, ◌==◌, String, inl, ◌≢◌, inr,
  false, refl, string_eq, ok, ◌⊎◌, eq_iff, ◌∙◌, true,
}
use step_ui_ng.Certs.Monad.{◌>>=◌, ◌>>◌}
use step_ui_ng.Certs.Service.{IssueParams, issue, format_pfx, issue_request, persisted_row}
use step_ui_ng.Certs.Issuance.{issue_lem}

module _ (w : World) (rd : Reading) where
  derive_status-cases :
      (r : CertRow)
      → ((derive_status w rd r.status r.not_after).0 ≡ "revoked")
        ⊎ ((derive_status w rd r.status r.not_after).0 ≡ "expired")
        ⊎ ((derive_status w rd r.status r.not_after).0 ≡ "active")
  unfolding derive_status
  derive_status-cases r = ground arith

  -- The views of the inventory by "active", "expired" and "revoked" are together as long as the
  -- view without a filter; the view "expiring" is no longer than "active".
  pub shown-length :
      (rs : List CertRow)
      → (length (shown w rd "" rs)
          ≡ length (shown w rd "active" rs)
            + length (shown w rd "expired" rs)
            + length (shown w rd "revoked" rs))
        × (length (shown w rd "expiring" rs) ≤ length (shown w rd "active" rs))
  unfolding shown is_shown
  shown-length [] = (refl, omega arith)
  shown-length (r ∷ rs) =
      let (ih, ih') = shown-length rs in
      elim (derive_status-cases r) [
        | inl e ↦ (rw (e, shown) (omega (arith, ih)), rw (e, shown) ih')
        | inr (inl e) ↦ (rw (e, shown) (omega (arith, ih)), rw (e, shown) ih')
        | inr (inr e) ↦ (rw (e, shown) (omega (arith, ih)), rw (e, shown) (ground (arith, ih')))
      ]

cert_by_id-append_new :
    (k : ℕ) (rs : List CertRow) (x : CertRow)
    → cert_by_id k rs ≡ none
    → x.id ≡ k
    → cert_by_id k (rs ++ x ∷ []) ≡ some x
unfolding cert_by_id
cert_by_id-append_new k [] x h e = ground arith
cert_by_id-append_new k (y ∷ rs) x h e = ground (arith, cert_by_id-append_new k rs x)

bundle_lem :
    (w : World) (rd : Reading) (db : Db) (id : ℕ) (password key p12 : String) (r : CertRow)
    → cert_by_id id db.certificates.rows ≡ some r
    → w.fails load_bundle ≡ false
    → w.fails write_zip ≡ false
    → w.fails close_zip ≡ false
    → bundle_key w rd r ≡ some key
    → bundle_p12 w rd r key password ≡ some p12
    → (bundle w rd id password db).0 ≡ ok (bundle_files w rd r key password p12)
unfolding bundle raise_if gets or_raise pure ◌>>=◌ ◌>>◌
bundle_lem w rd db id password key p12 r found up up' up'' opened packed = ground arith

-- While the driver and the archive work, the download of a stored certificate whose key stayed with
-- the client goes through and holds neither a key nor a bundle with one, whatever password is
-- given.
pub bundle_of_client_key :
    (w : World) (rd : Reading) (db : Db) (id : ℕ) (password : String) (r : CertRow)
    → cert_by_id id db.certificates.rows ≡ some r
    → r.key_strategy ≢ "server"
    → w.fails load_bundle ≡ false
    → w.fails write_zip ≡ false
    → w.fails close_zip ≡ false
    → (bundle w rd id password db).0
      ≡ ok (
          ("cert.pem", r.cert_pem)
          ∷ ("chain.pem", r.chain_pem)
          ∷ ("fullchain.pem", r.fullchain_pem)
          ∷ ("README.txt", build_readme w rd r.cn r.serial r.key_strategy false false)
          ∷ [])
unfolding bundle bundle_key bundle_p12 bundle_files raise_if gets or_raise pure ◌>>=◌ ◌>>◌
bundle_of_client_key w rd db id password r found client up up' up'' =
    let opened : bundle_key w rd r ≡ some "" = ground (arith, eq_iff r.key_strategy "server") in
    let packed : bundle_p12 w rd r "" password ≡ some "" = ground arith in
    bundle_lem w rd db id password "" "" r found up up' up'' opened packed ∙ ground arith

bundle_of_server_key :
    (w : World) (rd : Reading) (db : Db) (id : ℕ) (key sealed : String) (r : CertRow)
    → cert_by_id id db.certificates.rows ≡ some r
    → r.key_strategy ≡ "server"
    → r.privkey_sealed ≡ some sealed
    → sealed ≢ ""
    → w.unseal sealed ≡ some key
    → key ≢ ""
    → w.fails load_bundle ≡ false
    → w.fails write_zip ≡ false
    → w.fails close_zip ≡ false
    → (bundle w rd id "" db).0
      ≡ ok (
          ("cert.pem", r.cert_pem)
          ∷ ("chain.pem", r.chain_pem)
          ∷ ("fullchain.pem", r.fullchain_pem)
          ∷ ("privkey.pem", key)
          ∷ ("README.txt", build_readme w rd r.cn r.serial r.key_strategy true false)
          ∷ [])
unfolding bundle_key bundle_p12 bundle_files
bundle_of_server_key w rd db id key sealed r found server kept some_sealed unsealed some_key up up'
      up'' =
    let opened : bundle_key w rd r ≡ some key =
      ground (arith, eq_iff r.key_strategy "server", eq_iff sealed "") in
    let packed : bundle_p12 w rd r key "" ≡ some "" = ground (arith, eq_iff "" "") in
    let not_empty : (key == "") ≡ false = ground (arith, eq_iff key "") in
    bundle_lem w rd db id "" key "" r found up up' up'' opened packed ∙ rw not_empty

-- Round trip: after an issuance in the PEM format that goes through, the download of that
-- certificate without a password holds the texts that the CA returned and exactly the key that the
-- issuance handed out, if the driver and the archive work, the new id was unused, the sealing box
-- opens what it sealed, and neither the key nor what the box makes of it is the empty text.
pub bundle-issue :
    (w w' : World) (rd : Reading) (p : IssueParams) (db : Db) (c : Certificate)
    → (issue w p db).0 ≡ ok c
    → p.format ≢ format_pfx
    → c.private_key_pem ≢ ""
    → cert_by_id (db.certificates.seq + 1) db.certificates.rows ≡ none
    → ((s sealed : String) → w.seal s ≡ some sealed → (w'.unseal sealed ≡ some s) × (sealed ≢ ""))
    → w'.fails load_bundle ≡ false
    → w'.fails write_zip ≡ false
    → w'.fails close_zip ≡ false
    → (csr_pem : String) × (res : SignResult) × (leaf : Leaf) × (w.sign_csr
          (issue_request p csr_pem)
        ≡ ok res)
      × ((bundle w' rd c.id "" (issue w p db).1).0
          ≡ ok (
              ("cert.pem", res.cert_pem)
              ∷ ("chain.pem", res.chain_pem)
              ∷ ("fullchain.pem", res.fullchain_pem)
              ∷ ("privkey.pem", c.private_key_pem)
              ∷ (
                "README.txt",
                build_readme w' rd leaf.common_name leaf.serial_number "server" true false,
              )
              ∷ []))
unfolding append_row
bundle-issue w w' rd p db c done pem some_key fresh opens up up' up'' =
    let (key_text, leaf, issued, _, _, id, one) = issue_lem w p db c done in
    let row =
      persisted_row w leaf issued.res issued.json "server" (some issued.sealed) p.actor
        p.provisioner_name (db.certificates.seq + 1) in
    let found : cert_by_id c.id (issue w p db).1.certificates.rows ≡ some row =
      rw (id, issued.stored)
        (cert_by_id-append_new (db.certificates.seq + 1) db.certificates.rows row fresh refl) in
    let (unsealed, text) = opens key_text issued.sealed issued.sealed_of in
    let handed : c.private_key_pem ≡ key_text = elim one [
      | inl (_, e, _) ↦ e
      | inr (_, _, pfx, _, _, _) ↦ absurd (pem pfx)
    ] in
    (
      issued.csr_pem,
      issued.res,
      leaf,
      issued.signed,
      rw handed (
          bundle_of_server_key w' rd (issue w p db).1 c.id key_text issued.sealed row found refl
            refl text unsealed (rw handed at some_key) up up' up''),
    )
