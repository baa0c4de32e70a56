-- ===== src/Acme/Guarded.antt =====
-- The handlers of internal/app/acme.go, the settings and the client of the CA together.
use step_ui_ng.Base.{
  String, List, string_eq, none, some, Result, ok, err, ◌≡◌, Result-cases, Bool-cases, inl, inr,
  ◌∙◌, not, ◌==◌, ◌&&◌, refl, Bool, if◌then◌else◌, true, false,
}
use step_ui_ng.Acme.Forms.{AcmeForm}
use step_ui_ng.Acme.Handlers.{
  Answer, acme_admin_context, current_acme_options, finished, post_acme_provisioners,
  post_acme_provisioner, deleting, updating, revoking, after_creation, post_eab, get_acme,
  with_keys, get_eab, edited_spec, Report, deletion_report, update_report, revocation_report,
  creation_report, created_spec,
}
use step_ui_ng.Desk.State.{Desk, DeskEnv, settled}
use step_ui_ng.Desk.Keeps.{KeepsCalls, settled-KeepsCalls, source-calls, admin_auth-Agrees}
use step_ui_ng.Desk.Guarded.{agrees-view}
use step_ui_ng.Desk.Provisioners.{admin_auth, credential_of_source, view_has_admin_auth}
use step_ui_ng.Settings.Store.{View, SettingsRow}
use step_ui_ng.Settings.Repo.{get_settings}
use step_ui_ng.Ca.Token.{AdminCredential}
use step_ui_ng.Ca.Fingerprint.{CaError, normalize_fingerprint, canonical}
use step_ui_ng.Ca.Net.{Call}
use step_ui_ng.Ca.Provisioners.{AcmeProvisioner, list_acme_provisioners}
use step_ui_ng.Ca.Eab.{EabKey, list_eab_keys}
use step_ui_ng.Ca.Vouched.{AreGuarded}
use step_ui_ng.Ca.Trusted.{
  list_acme-Sound, update-Sound, delete-Sound, delete_key-Sound, list_keys-Sound, create-Sound,
  create_key-Sound,
}

-- The requests for the pages of ACME.
pub data AcmeRequest : Type 0 where
  list_page : AcmeRequest
  keys_page : String → AcmeRequest
  create_one edit_or_delete key_action : AcmeForm → AcmeRequest

unfoldable pub respond : DeskEnv → AcmeRequest → Desk → Answer
respond w list_page = get_acme w
respond w (keys_page provisioner) = get_eab w provisioner
respond w (create_one f) = post_acme_provisioners w f
respond w (edit_or_delete f) = post_acme_provisioner w f
respond w (key_action f) = post_eab w f

module _ (w : DeskEnv) (want : String) where
  finished-calls {ℓ} :
      {A : Type ℓ} (r : Report) (d : Desk) (o : Result CaError A × List Call)
      → AreGuarded w.ca want o.1
      → AreGuarded w.ca want (finished w r d o).1.calls
  finished-calls r d (err e, l) g = g
  finished-calls r d (ok a, l) g = g

  if-calls :
      (b : Bool) (x y : Answer)
      → AreGuarded w.ca want x.1.calls
      → AreGuarded w.ca want y.1.calls
      → AreGuarded w.ca want (if b then x else y).1.calls
  if-calls true x y g h = g
  if-calls false x y g h = h

  module _ (v : View)
      (agrees : (a : String) → normalize_fingerprint v.root_fingerprint ≡ ok a → a ≡ want) where
    current-KeepsCalls :
        (name : String) (next : AcmeProvisioner → Desk → Answer)
        → ((p : AcmeProvisioner) → KeepsCalls w want (next p))
        → KeepsCalls w want (current_acme_options w v name next)
    unfolding current_acme_options KeepsCalls
    current-KeepsCalls name next keeps d g =
        settled-KeepsCalls w want d
          (list_acme_provisioners w.ca w.fuel v.ca_url v.root_fingerprint d.calls) _ _
          ((list_acme-Sound w.ca want v.ca_url v.root_fingerprint agrees w.fuel).kept d.calls g)
          (λ e. keeps _) (λ list. keeps _)

    deleting-KeepsCalls :
        (f : AcmeForm) (cred : AdminCredential) → KeepsCalls w want (deleting w f v cred)
    unfolding KeepsCalls
    deleting-KeepsCalls f cred d g = finished-calls (deletion_report w.hint f) d _ (
        (delete-Sound w.ca want v.ca_url v.root_fingerprint agrees cred f.path_name).kept d.calls g)

    updating-KeepsCalls :
        (f : AcmeForm) (cred : AdminCredential) (p : AcmeProvisioner)
        → KeepsCalls w want (updating w f v cred p)
    unfolding KeepsCalls
    updating-KeepsCalls f cred p d g =
        finished-calls (update_report w.hint f (edited_spec f p)) d _ (
          (update-Sound w.ca want v.ca_url v.root_fingerprint agrees cred (edited_spec f p)).kept
            d.calls g)

    revoking-KeepsCalls :
        (f : AcmeForm) (cred : AdminCredential) → KeepsCalls w want (revoking w f v cred)
    unfolding KeepsCalls
    revoking-KeepsCalls f cred d g = finished-calls (revocation_report f) d _ (
        (delete_key-Sound w.ca want v.ca_url v.root_fingerprint agrees cred f.path_name
            f.key_id).kept
          d.calls g)

    keys-calls :
        (cred : AdminCredential) (provisioner : String) (d : Desk) (fail : CaError → Desk → Answer)
        (next : List EabKey → Desk → Answer)
        → AreGuarded w.ca want d.calls
        → ((e : CaError) → KeepsCalls w want (fail e))
        → ((keys : List EabKey) → KeepsCalls w want (next keys))
        → AreGuarded w.ca want
            (settled d
              (list_eab_keys w.ca w.fuel v.ca_url v.root_fingerprint cred provisioner d.calls)
              fail
              next).1.calls
    keys-calls cred provisioner d fail next g f n =
        settled-KeepsCalls w want d _ fail next
          ((list_keys-Sound w.ca want v.ca_url v.root_fingerprint agrees w.fuel cred
              provisioner).kept
            d.calls g)
          f n

    after_creation-calls :
        (f : AcmeForm) (cred : AdminCredential) (d : Desk) (o : Result CaError EabKey × List Call)
        → AreGuarded w.ca want o.1
        → AreGuarded w.ca want (after_creation w f v cred d o).1.calls
    unfolding KeepsCalls
    after_creation-calls f cred d (err e, l) g = g
    after_creation-calls f cred d (ok key, l) g =
        keys-calls cred f.path_name _ _ _ g (λ e d' h. h) (λ keys d' h. h)

    with_keys-KeepsCalls :
        (provisioner : String) (p : AcmeProvisioner)
        → KeepsCalls w want (with_keys w provisioner v p)
    unfolding with_keys KeepsCalls
    with_keys-KeepsCalls provisioner p d g = elim (Bool-cases (view_has_admin_auth v)) [
      | inr x ↦ rw x g
      | inl x ↦ rw x (elim (Result-cases (admin_auth w v d.settings)) [
        | inl (e, y) ↦ rw y g
        | inr (none, y) ↦ rw y g
        | inr (some (err e), y) ↦ rw y g
        | inr (some (ok source), y) ↦ rw y (
            settled-KeepsCalls w want d (credential_of_source w source d.calls) _ _
              (source-calls w want source d.calls g
                (admin_auth-Agrees w want v d.settings source agrees y))
              (λ e d' h. h)
              (λ cred d' h. keys-calls cred provisioner d' _ _ h (λ e e' k. k) (λ keys e' k. k)))
      ])
    ]

  -- The context of the admin, for settings that are saved.
  context-calls :
      (d : Desk) (r : SettingsRow)
      → d.settings ≡ some r
      → canonical r.root_fingerprint ≡ want
      → (next : View → AdminCredential → Desk → Answer)
      → ((v : View)
          → ((a : String) → normalize_fingerprint v.root_fingerprint ≡ ok a → a ≡ want)
          → (cred : AdminCredential) → KeepsCalls w want (next v cred))
      → AreGuarded w.ca want d.calls
      → AreGuarded w.ca want (acme_admin_context w next d).1.calls
  unfolding acme_admin_context KeepsCalls
  context-calls d r saved same next keeps g =
      elim (Result-cases (get_settings w.settings_env d.settings)) [
        | inl (e, x) ↦ rw (acme_admin_context, x) g
        | inr (none, x) ↦ rw (acme_admin_context, x) g
        | inr (some v, x) ↦
            let agrees : (a : String) → normalize_fingerprint v.root_fingerprint ≡ ok a → a ≡ want =
              λ a n. agrees-view w d r saved v x a n ∙ same in
            elim (Result-cases (admin_auth w v d.settings)) [
              | inl (e, y) ↦ rw (acme_admin_context, x, y) g
              | inr (none, y) ↦ rw (acme_admin_context, x, y) g
              | inr (some (err e), y) ↦ rw (acme_admin_context, x, y) g
              | inr (some (ok source), y) ↦
                  rw (acme_admin_context, x, y)
                    (settled-KeepsCalls w want d (credential_of_source w source d.calls) _ (next v)
                      (source-calls w want source d.calls g
                        (admin_auth-Agrees w want v d.settings source agrees y))
                      (λ e d' h. h) (keeps v agrees))
            ]
      ]

module _ (w : DeskEnv) (d : Desk) (r : SettingsRow) (saved : d.settings ≡ some r) where
  abbrev Guards : Answer → Type 0
  Guards o = AreGuarded w.ca (canonical r.root_fingerprint) o.1.calls

  list-Guards : AreGuarded w.ca (canonical r.root_fingerprint) d.calls → Guards (get_acme w d)
  unfolding get_acme KeepsCalls
  list-Guards g = elim (Result-cases (get_settings w.settings_env d.settings)) [
    | inl (e, x) ↦ rw (get_acme, x) g
    | inr (none, x) ↦ rw (get_acme, x) g
    | inr (some v, x) ↦
        rw (get_acme, x)
          (settled-KeepsCalls w (canonical r.root_fingerprint) d _ _ _
            ((list_acme-Sound w.ca (canonical r.root_fingerprint) v.ca_url v.root_fingerprint
                (agrees-view w d r saved v x) w.fuel).kept
              d.calls g)
            (λ e d' h. h) (λ list d' h. h))
  ]

  keys-Guards :
      (provisioner : String)
      → AreGuarded w.ca (canonical r.root_fingerprint) d.calls
      → Guards (get_eab w provisioner d)
  unfolding get_eab KeepsCalls
  keys-Guards provisioner g = elim (Result-cases (get_settings w.settings_env d.settings)) [
    | inl (e, x) ↦ rw (get_eab, x) g
    | inr (none, x) ↦ rw (get_eab, x) g
    | inr (some v, x) ↦
        rw (get_eab, x)
          (current-KeepsCalls w (canonical r.root_fingerprint) v (agrees-view w d r saved v x)
            provisioner _
            (with_keys-KeepsCalls w (canonical r.root_fingerprint) v (agrees-view w d r saved v x)
              provisioner)
            d g)
  ]

  -- With a stored connection, and if the calls made before are guarded, every request for the pages of
  -- ACME keeps them guarded: no token and no document goes out before the CA has proved that its chain
  -- is anchored in a root with the stored sum.
  pub respond-AreGuarded :
      (q : AcmeRequest)
      → AreGuarded w.ca (canonical r.root_fingerprint) d.calls
      → AreGuarded w.ca (canonical r.root_fingerprint) (respond w q d).1.calls
  unfolding respond post_acme_provisioners post_acme_provisioner post_eab KeepsCalls
  respond-AreGuarded list_page g = list-Guards g
  respond-AreGuarded (keys_page provisioner) g = keys-Guards provisioner g
  respond-AreGuarded (create_one f) g =
      let want = canonical r.root_fingerprint in
      context-calls w want d r saved refl _
        (λ v agrees cred e h. finished-calls w want (creation_report w.hint f) e _ (
          (create-Sound w.ca want v.ca_url v.root_fingerprint agrees cred (created_spec f)).kept
            e.calls h))
        g
  respond-AreGuarded (edit_or_delete f) g =
      let want = canonical r.root_fingerprint in
      elim (Bool-cases (not (f.action == "delete") && not (f.action == "edit"))) [
        | inl x ↦ rw (post_acme_provisioner, x) g
        | inr x ↦
            rw (post_acme_provisioner, x)
              (context-calls w want d r saved refl _
                (λ v agrees cred e h.
                  if-calls w want (f.action == "delete") _ _
                    (deleting-KeepsCalls w want v agrees f cred e h)
                    (current-KeepsCalls w want v agrees f.path_name _
                      (updating-KeepsCalls w want v agrees f cred) e h))
                g)
      ]
  respond-AreGuarded (key_action f) g =
      let want = canonical r.root_fingerprint in
      context-calls w want d r saved refl _
        (λ v agrees cred e h.
          if-calls w want (f.action == "delete") _ _
            (revoking-KeepsCalls w want v agrees f cred e h)
            (after_creation-calls w want v agrees f cred e _ (
              (create_key-Sound w.ca want v.ca_url v.root_fingerprint agrees cred f.path_name
                  f.reference).kept
                e.calls h)))
        g
