-- ===== src/Acme/Shown.antt =====
-- What the pages of internal/app/acme.go show of a key for external account binding.
use step_ui_ng.Base.{
  String, List, [], Bool, true, false, if◌then◌else◌, ◌==◌, string_eq, Option, none, some, Result,
  ok, err, not, ◌&&◌, ◌≡◌, Result-cases, Bool-cases, inl, inr, refl, All, ◌⊎◌,
}
use step_ui_ng.Acme.Forms.{AcmeForm, AcmeAnswer, plain, acme_page_of, eab_page_of, EabView}
use step_ui_ng.Acme.Handlers.{
  Answer, acme_admin_context, current_acme_options, finished, post_acme_provisioners, Report,
  post_acme_provisioner, after_creation, post_eab, get_acme, with_keys, get_eab, created_view,
}
use step_ui_ng.Acme.Guarded.{
  AcmeRequest, respond, list_page, keys_page, create_one, edit_or_delete, key_action,
}
use step_ui_ng.Acme.Snippets.{build_snippets}
use step_ui_ng.Desk.State.{Desk, DeskEnv, settled}
use step_ui_ng.Desk.Provisioners.{admin_auth, credential_of_source, view_has_admin_auth}
use step_ui_ng.Settings.Store.{View}
use step_ui_ng.Settings.Repo.{get_settings}
use step_ui_ng.Ca.Token.{AdminCredential}
use step_ui_ng.Ca.Fingerprint.{CaError}
use step_ui_ng.Ca.Net.{Call}
use step_ui_ng.Ca.Provisioners.{AcmeProvisioner, list_acme_provisioners}
use step_ui_ng.Ca.Eab.{EabKey, list_eab_keys, create_eab_key}
use step_ui_ng.Ca.Payload.{HasNoHmac, list_eab_keys-HasNoHmac}

-- A page that shows no new key has placeholders in its snippets.
abbrev pub HasPlaceholders : EabView → Type 0
HasPlaceholders v =
    (v.snippets ≡ []) ⊎ (v.snippets ≡ build_snippets v.directory_url v.require_eab "" "")

-- The listed keys carry no HMAC, and a page that shows a new key is one that may, and it may not be
-- stored.
abbrev pub IsDiscreet : (EabView → Type 0) → Option AcmeAnswer → Type 0
IsDiscreet May none = Unit
IsDiscreet May (some (plain r)) = Unit
IsDiscreet May (some (acme_page_of v flash error)) = Unit
IsDiscreet May (some (eab_page_of v flash error no_store)) =
    All HasNoHmac v.keys × ((v.created ≡ none) × HasPlaceholders v ⊎ May v × (no_store ≡ true))

-- The page answers a form that creates a key: the CA that the stored row names has returned the key
-- that the page shows.
abbrev pub IsCreation : DeskEnv → Desk → AcmeRequest → EabView → Type 0
IsCreation w d list_page v = ⊥
IsCreation w d (keys_page provisioner) v = ⊥
IsCreation w d (create_one f) v = ⊥
IsCreation w d (edit_or_delete f) v = ⊥
IsCreation w d (key_action f) v =
    ((f.action == "delete") ≡ false)
    × (stored : View) × (cred : AdminCredential) × (calls : List Call) × (key : EabKey)
    × (get_settings w.settings_env d.settings ≡ ok (some stored))
    × ((create_eab_key w.ca stored.ca_url stored.root_fingerprint cred f.path_name f.reference
          calls).0
        ≡ ok key)
    × (v.created ≡ some (record { key_id = key.key_id; hmac = key.hmac }))

module _ (May : EabView → Type 0) where
  settled-IsDiscreet {ℓ} :
      {A : Type ℓ} (d : Desk) (o : Result CaError (Option A) × List Call)
      (fail : CaError → Desk → Answer) (next : A → Desk → Answer)
      → ((e : CaError) (d' : Desk) → IsDiscreet May (fail e d').0)
      → ((a : A) (d' : Desk) → o.0 ≡ ok (some a) → IsDiscreet May (next a d').0)
      → IsDiscreet May (settled d o fail next).0
  settled-IsDiscreet d (err e, l) fail next f n = f e _
  settled-IsDiscreet d (ok none, l) fail next f n = tt
  settled-IsDiscreet d (ok (some a), l) fail next f n = n a _ refl

  module _ (w : DeskEnv) where
    finished-IsDiscreet {ℓ} :
        {A : Type ℓ} (r : Report) (d : Desk) (o : Result CaError A × List Call)
        → IsDiscreet May (finished w r d o).0
    finished-IsDiscreet r d (err e, l) = tt
    finished-IsDiscreet r d (ok a, l) = tt

    current-IsDiscreet :
        (v : View) (name : String) (next : AcmeProvisioner → Desk → Answer) (d : Desk)
        → ((p : AcmeProvisioner) (e : Desk) → IsDiscreet May (next p e).0)
        → IsDiscreet May (current_acme_options w v name next d).0
    unfolding current_acme_options
    current-IsDiscreet v name next d n =
        settled-IsDiscreet d
          (list_acme_provisioners w.ca w.fuel v.ca_url v.root_fingerprint d.calls) _ _
          (λ e d'. n _ d') (λ list d' h. n _ d')

    context-IsDiscreet :
        (next : View → AdminCredential → Desk → Answer) (d : Desk)
        → ((v : View) (cred : AdminCredential) (e : Desk)
            → get_settings w.settings_env d.settings ≡ ok (some v)
            → IsDiscreet May (next v cred e).0)
        → IsDiscreet May (acme_admin_context w next d).0
    unfolding acme_admin_context
    context-IsDiscreet next d n = elim (Result-cases (get_settings w.settings_env d.settings)) [
      | inl (e, x) ↦ rw (acme_admin_context, x) tt
      | inr (none, x) ↦ rw (acme_admin_context, x) tt
      | inr (some v, x) ↦ elim (Result-cases (admin_auth w v d.settings)) [
        | inl (e, y) ↦ rw (acme_admin_context, x, y) tt
        | inr (none, y) ↦ rw (acme_admin_context, x, y) tt
        | inr (some (err e), y) ↦ rw (acme_admin_context, x, y) tt
        | inr (some (ok source), y) ↦
            rw (acme_admin_context, x, y)
              (settled-IsDiscreet d (credential_of_source w source d.calls) _ (next v) (λ e d'. tt)
                (λ cred d' h. n v cred d' x))
      ]
    ]

    listed_lem :
        (v : View) (cred : AdminCredential) (provisioner : String) (d : Desk)
        (fail : CaError → Desk → Answer) (next : List EabKey → Desk → Answer)
        → ((e : CaError) (d' : Desk) → IsDiscreet May (fail e d').0)
        → ((keys : List EabKey) (d' : Desk) → All HasNoHmac keys → IsDiscreet May (next keys d').0)
        → IsDiscreet May
            (settled d
              (list_eab_keys w.ca w.fuel v.ca_url v.root_fingerprint cred provisioner d.calls)
              fail
              next).0
    listed_lem v cred provisioner d fail next f n = settled-IsDiscreet d _ fail next f (λ keys d' h.
        n keys d' (
          list_eab_keys-HasNoHmac w.ca w.fuel v.ca_url v.root_fingerprint cred provisioner d.calls
            keys h))

    after_creation-IsDiscreet :
        (f : AcmeForm) (v : View) (cred : AdminCredential) (d : Desk)
        (o : Result CaError EabKey × List Call)
        → ((key : EabKey) (keys : List EabKey) → o.0 ≡ ok key → May (created_view w f v key keys))
        → IsDiscreet May (after_creation w f v cred d o).0
    after_creation-IsDiscreet f v cred d (err e, l) may = tt
    after_creation-IsDiscreet f v cred d (ok key, l) may =
        listed_lem v cred f.path_name _ _ _ (λ e d'. (tt, inr (may key [] refl, refl)))
          (λ keys d' h. (h, inr (may key keys refl, refl)))

    with_keys-IsDiscreet :
        (provisioner : String) (v : View) (p : AcmeProvisioner) (d : Desk)
        → IsDiscreet May (with_keys w provisioner v p d).0
    unfolding with_keys
    with_keys-IsDiscreet provisioner v p d = elim (Bool-cases (view_has_admin_auth v)) [
      | inr x ↦ rw x (tt, inl (refl, inr refl))
      | inl x ↦ rw x (elim (Result-cases (admin_auth w v d.settings)) [
        | inl (e, y) ↦ rw y (tt, inl (refl, inr refl))
        | inr (none, y) ↦ rw y (tt, inl (refl, inr refl))
        | inr (some (err e), y) ↦ rw y (tt, inl (refl, inr refl))
        | inr (some (ok source), y) ↦ rw y (
            settled-IsDiscreet d (credential_of_source w source d.calls) _ _
              (λ e d'. (tt, inl (refl, inr refl)))
              (λ cred d' z.
                listed_lem v cred provisioner d' _ _ (λ e d'. (tt, inl (refl, inr refl)))
                  (λ keys d' h. (h, inl (refl, inr refl)))))
      ])
    ]

    if-IsDiscreet :
        (b : Bool) (x y : Answer)
        → (b ≡ true → IsDiscreet May x.0)
        → (b ≡ false → IsDiscreet May y.0)
        → IsDiscreet May (if b then x else y).0
    if-IsDiscreet true x y g h = g refl
    if-IsDiscreet false x y g h = h refl

module _ (w : DeskEnv) where
  created_view-IsCreation :
      (f : AcmeForm) (d : Desk) (v : View) (cred : AdminCredential) (calls : List Call)
      → (f.action == "delete") ≡ false
      → get_settings w.settings_env d.settings ≡ ok (some v)
      → (key : EabKey) (keys : List EabKey)
      → (create_eab_key w.ca v.ca_url v.root_fingerprint cred f.path_name f.reference calls).0
        ≡ ok key
      → IsCreation w d (key_action f) (created_view w f v key keys)
  created_view-IsCreation f d v cred calls act x key keys h = (act, v, cred, calls, key, x, h, refl)

  -- Whatever is requested, and whatever the CA answers: a page that lists keys carries no HMAC of
  -- them. Either it shows no new key, and has no snippets or snippets with placeholders, or the request
  -- is a form that creates a key, the page shows the identifier and the HMAC that the client returned
  -- for a creation with the form's provisioner and reference at the stored CA, and it may not be stored
  -- by a cache.
  pub respond-IsDiscreet :
      (q : AcmeRequest) (d : Desk) → IsDiscreet (IsCreation w d q) (respond w q d).0
  unfolding respond get_acme get_eab post_acme_provisioners post_acme_provisioner post_eab
  respond-IsDiscreet list_page d = elim (Result-cases (get_settings w.settings_env d.settings)) [
    | inl (e, x) ↦ rw (get_acme, x) tt
    | inr (none, x) ↦ rw (get_acme, x) tt
    | inr (some v, x) ↦
        rw (get_acme, x)
          (settled-IsDiscreet (IsCreation w d list_page) d
            (list_acme_provisioners w.ca w.fuel v.ca_url v.root_fingerprint d.calls) _ _
            (λ e d'. tt) (λ list d' h. tt))
  ]
  respond-IsDiscreet (keys_page provisioner) d =
      elim (Result-cases (get_settings w.settings_env d.settings)) [
        | inl (e, x) ↦ rw (get_eab, x) tt
        | inr (none, x) ↦ rw (get_eab, x) (tt, inl (refl, inl refl))
        | inr (some v, x) ↦
            rw (get_eab, x)
              (current-IsDiscreet (IsCreation w d (keys_page provisioner)) w v provisioner _ d
                (with_keys-IsDiscreet (IsCreation w d (keys_page provisioner)) w provisioner v))
      ]
  respond-IsDiscreet (create_one f) d =
      let may = IsCreation w d (create_one f) in
      context-IsDiscreet may w _ d (λ v cred e x. finished-IsDiscreet may w _ e _)
  respond-IsDiscreet (edit_or_delete f) d =
      let may = IsCreation w d (edit_or_delete f) in
      if-IsDiscreet may w (not (f.action == "delete") && not (f.action == "edit")) _ _ (λ u. tt)
        (λ u. context-IsDiscreet may w _ d (λ v cred e x.
          if-IsDiscreet may w (f.action == "delete") _ _ (λ a. finished-IsDiscreet may w _ e _)
            (λ a.
              current-IsDiscreet may w v f.path_name _ e
                (λ p e'. finished-IsDiscreet may w _ e' _))))
  respond-IsDiscreet (key_action f) d =
      let may = IsCreation w d (key_action f) in
      context-IsDiscreet may w _ d (λ v cred e x.
        if-IsDiscreet may w (f.action == "delete") _ _ (λ a. finished-IsDiscreet may w _ e _)
          (λ a.
            after_creation-IsDiscreet may w f v cred e _
              (created_view-IsCreation f d v cred e.calls a x)))
