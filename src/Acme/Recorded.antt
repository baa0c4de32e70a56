-- ===== src/Acme/Recorded.antt =====
-- What internal/app/acme.go records of the keys for external account binding.
use step_ui_ng.Base.{
  String, List, [], ◌∷◌, Bool, true, false, if◌then◌else◌, ◌==◌, string_eq, Option, none, some,
  Result, ok, err, ◌≡◌, Result-cases, inl, inr, refl, ◌⊎◌,
}
use step_ui_ng.Base.Text.{concat}
use step_ui_ng.Acme.Forms.{AcmeForm, eab_reference_suffix}
use step_ui_ng.Acme.Handlers.{
  Answer, acme_admin_context, revoking, after_creation, post_eab, finished, revocation_report,
  show_created,
}
use step_ui_ng.Desk.State.{Desk, DeskEnv, settled, noted}
use step_ui_ng.Desk.Provisioners.{admin_auth, credential_of_source}
use step_ui_ng.Settings.Store.{View}
use step_ui_ng.Settings.Repo.{get_settings}
use step_ui_ng.Ca.Token.{AdminCredential}
use step_ui_ng.Ca.Fingerprint.{CaError}
use step_ui_ng.Ca.Net.{Call}
use step_ui_ng.Ca.Eab.{EabKey, create_eab_key, delete_eab_key}
use step_ui_ng.Audit.Log.{record_event, Log}

module _ (w : DeskEnv) (f : AcmeForm) (d : Desk) where
  -- The log with one more event of this request.
  abbrev pub logged : String → String → Option Log
  logged event details = (record_event w.log_env f.actor event f.path_name details d.log).1

  -- The CA has made a key, and the event names it and the reference.
  abbrev pub HasCreated : Option Log → Type 0
  HasCreated log =
      ((f.action == "delete") ≡ false)
      × (v : View) × (cred : AdminCredential) × (l : List Call) × (key : EabKey) × ((create_eab_key
            w.ca v.ca_url v.root_fingerprint cred f.path_name f.reference l).0
          ≡ ok key)
      × (get_settings w.settings_env d.settings ≡ ok (some v))
      × (log
          ≡ logged "acme.eab.create"
              (concat ("keyID=" ∷ key.key_id ∷ eab_reference_suffix f.reference ∷ [])))

  -- The CA has revoked the key of the form, and the event names it.
  abbrev pub HasRevoked : Option Log → Type 0
  HasRevoked log =
      ((f.action == "delete") ≡ true)
      × (v : View) × (cred : AdminCredential) × (l : List Call) × ((delete_eab_key w.ca v.ca_url
            v.root_fingerprint cred f.path_name f.key_id l).0
          ≡ ok tt)
      × (get_settings w.settings_env d.settings ≡ ok (some v))
      × (log ≡ logged "acme.eab.revoke" (concat ("keyID=" ∷ f.key_id ∷ [])))

  IsRecorded : Answer → Type 0
  IsRecorded o = (o.1.log ≡ d.log) ⊎ HasCreated o.1.log ⊎ HasRevoked o.1.log

  shown-log :
      (v : View) (key : EabKey) (e : Desk) (o : Result CaError (Option (List EabKey)) × List Call)
      → (settled e o (λ x. show_created w f v key []) (show_created w f v key)).1.log ≡ e.log
  shown-log v key e (err x, l) = refl
  shown-log v key e (ok none, l) = refl
  shown-log v key e (ok (some keys), l) = refl

  created_lem :
      ((f.action == "delete") ≡ false)
      → (v : View) → get_settings w.settings_env d.settings ≡ ok (some v)
      → (cred : AdminCredential) (l : List Call) (o : Result CaError EabKey × List Call)
      → (create_eab_key w.ca v.ca_url v.root_fingerprint cred f.path_name f.reference l).0 ≡ o.0
      → IsRecorded (after_creation w f v cred (record d { calls = l }) o)
  unfolding IsRecorded
  created_lem act v x cred l (err e, l') h = inl refl
  created_lem act v x cred l (ok key, l') h = inr (
      inl (
        act,
        v,
        cred,
        l,
        key,
        h,
        x,
        shown-log v key
            (noted w f.actor "acme.eab.create" f.path_name
              (concat ("keyID=" ∷ key.key_id ∷ eab_reference_suffix f.reference ∷ []))
              (record d { calls = l' }))
            _,
      ))

  revoked_lem :
      ((f.action == "delete") ≡ true)
      → (v : View) → get_settings w.settings_env d.settings ≡ ok (some v)
      → (cred : AdminCredential) (l : List Call) (o : Result CaError (Unit {0}) × List Call)
      → (delete_eab_key w.ca v.ca_url v.root_fingerprint cred f.path_name f.key_id l).0 ≡ o.0
      → IsRecorded (finished w (revocation_report f) (record d { calls = l }) o)
  unfolding IsRecorded
  revoked_lem act v x cred l (err e, l') h = inl refl
  revoked_lem act v x cred l (ok u, l') h = inr (inr (act, v, cred, l, h, x, refl))

  branch_lem :
      (v : View)
      → get_settings w.settings_env d.settings ≡ ok (some v)
      → (cred : AdminCredential) (l : List Call) (b : Bool) → (f.action == "delete") ≡ b
      → IsRecorded (
          if b
          then revoking w f v cred (record d { calls = l })
          else after_creation w f v cred
              (record d { calls = l })
              (create_eab_key w.ca v.ca_url v.root_fingerprint cred f.path_name f.reference l))
  branch_lem v x cred l true act = revoked_lem act v x cred l _ refl
  branch_lem v x cred l false act = created_lem act v x cred l _ refl

  with_source_lem :
      (v : View) (o : Result CaError (Option AdminCredential) × List Call)
      (fail : CaError → Desk → Answer) (next : AdminCredential → Desk → Answer)
      → ((e : CaError) (l : List Call) → (fail e (record d { calls = l })).1.log ≡ d.log)
      → ((cred : AdminCredential) (l : List Call) → IsRecorded (next cred (record d { calls = l })))
      → IsRecorded (settled d o fail next)
  unfolding IsRecorded
  with_source_lem v (err e, l) fail next h n = inl (h e l)
  with_source_lem v (ok none, l) fail next h n = inl refl
  with_source_lem v (ok (some cred), l) fail next h n = n cred l

  same-IsRecorded : (o : Answer) → o.1.log ≡ d.log → IsRecorded o
  unfolding IsRecorded
  same-IsRecorded o e = inl e

  post_eab-IsRecorded : IsRecorded (post_eab w f d)
  unfolding post_eab acme_admin_context
  post_eab-IsRecorded = elim (Result-cases (get_settings w.settings_env d.settings)) [
    | inl (e, x) ↦ rw (post_eab, acme_admin_context, x) (same-IsRecorded _ refl)
    | inr (none, x) ↦ rw (post_eab, acme_admin_context, x) (same-IsRecorded _ refl)
    | inr (some v, x) ↦ elim (Result-cases (admin_auth w v d.settings)) [
      | inl (e, y) ↦ rw (post_eab, acme_admin_context, x, y) (same-IsRecorded _ refl)
      | inr (none, y) ↦ rw (post_eab, acme_admin_context, x, y) (same-IsRecorded _ refl)
      | inr (some (err e), y) ↦ rw (post_eab, acme_admin_context, x, y) (same-IsRecorded _ refl)
      | inr (some (ok source), y) ↦
          rw (post_eab, acme_admin_context, x, y)
            (with_source_lem v (credential_of_source w source d.calls) _ _ (λ e l. refl)
              (λ cred l. branch_lem v x cred l (f.action == "delete") refl))
    ]
  ]

  -- A request for the keys of a provisioner leaves the audit log as it was, or adds one event, which
  -- is that of a key that the stored CA has just made, with its identifier and the reference of the form but
  -- not its HMAC, or that of a key that the stored CA has just revoked.
  pub post_eab_log :
      ((post_eab w f d).1.log ≡ d.log)
      ⊎ HasCreated (post_eab w f d).1.log
      ⊎ HasRevoked (post_eab w f d).1.log
  unfolding IsRecorded
  post_eab_log = post_eab-IsRecorded
