-- ===== src/Desk/Guarded.antt =====
-- The handlers of the provisioners' page, the settings and the client of the CA together.
use step_ui_ng.Desk.State.{Desk, DeskEnv, Form}
use step_ui_ng.Base.{
  String, ◌≡◌, ok, err, some, inl, inr, subst, sym, ap, Bool-cases, if◌then◌else◌, ◌==◌, ◌∙◌,
  string_eq,
}
use step_ui_ng.Ca.Vouched.{AreGuarded}
use step_ui_ng.Desk.Provisioners.{post_provisioners, post_provisioner, spec_of}
use step_ui_ng.Ca.Fingerprint.{normalize_fingerprint, canonical}
use step_ui_ng.Settings.Store.{failed, View, SettingsTable, SettingsEnv, SettingsRow, get}
use step_ui_ng.Ca.Trusted.{normalize-canonical, create-Sound, delete-Sound}
use step_ui_ng.Settings.Repo.{get_settings, view_of}
use step_ui_ng.Ca.Provisioners.{create_provisioner, delete_provisioner}
use step_ui_ng.Desk.Keeps.{
  KeepsCalls, with_settings-KeepsCalls, with_credential-KeepsCalls, created-calls, deleted-calls,
}

pub view_same :
    (env : SettingsEnv) (t : SettingsTable) (r : SettingsRow) (v : View)
    → t ≡ some r
    → get_settings env t ≡ ok (some v)
    → view_of r ≡ v
unfolding get_settings
view_same env t r v e h = elim (Bool-cases (env.fails get)) [
  | inl x ↦ absurd (
      cc (
        subst (λ b. (if b then err (failed get) else ok (some (view_of r))) ≡ ok (some v)) x
          (subst (λ s. get_settings env s ≡ ok (some v)) e h)))
  | inr x ↦ cc (
      subst (λ b. (if b then err (failed get) else ok (some (view_of r))) ≡ ok (some v)) x
        (subst (λ s. get_settings env s ≡ ok (some v)) e h))
]

module _ (w : DeskEnv) (d : Desk) (r : SettingsRow) (saved : d.settings ≡ some r) where
  pub agrees-view :
      (v : View)
      → get_settings w.settings_env d.settings ≡ ok (some v)
      → (a : String) → normalize_fingerprint v.root_fingerprint ≡ ok a
      → a ≡ canonical r.root_fingerprint
  agrees-view v h a n =
      normalize-canonical v.root_fingerprint a n
      ∙ ap canonical (
          sym (
            ap (λ (x : View). x.root_fingerprint)
              (view_same w.settings_env d.settings r v saved h)))

module _ (w : DeskEnv) (f : Form) (d : Desk) (r : SettingsRow) (saved : d.settings ≡ some r) where
  guarded_creation :
      AreGuarded w.ca (canonical r.root_fingerprint) d.calls
      → AreGuarded w.ca (canonical r.root_fingerprint) (post_provisioners w f d).1.calls
  unfolding post_provisioners KeepsCalls
  guarded_creation g =
      let want = canonical r.root_fingerprint in
      with_settings-KeepsCalls w want _ d g (λ v h.
        with_credential-KeepsCalls w want v _ (agrees-view w d r saved v h)
          (λ cred d' g'.
            created-calls w want f d'
              (create_provisioner w.ca v.ca_url v.root_fingerprint cred (spec_of w f) d'.calls)
              ((create-Sound w.ca want v.ca_url v.root_fingerprint (agrees-view w d r saved v h)
                  cred (spec_of w f)).kept
                d'.calls g'))
          d g)

  guarded_deletion :
      AreGuarded w.ca (canonical r.root_fingerprint) d.calls
      → AreGuarded w.ca (canonical r.root_fingerprint) (post_provisioner w f d).1.calls
  unfolding post_provisioner KeepsCalls
  guarded_deletion g =
      let want = canonical r.root_fingerprint in
      elim (Bool-cases (f.action == "delete")) [
        | inr x ↦ rw (post_provisioner, x) g
        | inl x ↦
            rw (post_provisioner, x)
              (with_settings-KeepsCalls w want _ d g (λ v h.
                elim (Bool-cases (f.path_name == v.selected_provisioner)) [
                  | inl y ↦ rw y g
                  | inr y ↦ rw y (
                      with_credential-KeepsCalls w want v _ (agrees-view w d r saved v h)
                        (λ cred d' g'.
                          deleted-calls w want f d'
                            (delete_provisioner w.ca v.ca_url v.root_fingerprint cred f.path_name
                              d'.calls)
                            ((delete-Sound w.ca want v.ca_url v.root_fingerprint
                                (agrees-view w d r saved v h) cred f.path_name).kept
                              d'.calls g'))
                        d g)
                ]))
      ]

  -- With a stored connection, and if the calls made before are guarded, to create and to delete a
  -- provisioner keeps them guarded: no token and no document goes out, for the operation itself or for
  -- a minted credential, before the CA has proved that its chain is anchored in a root with the stored
  -- sum.
  pub provisioners-AreGuarded :
      AreGuarded w.ca (canonical r.root_fingerprint) d.calls
      → AreGuarded w.ca (canonical r.root_fingerprint) (post_provisioners w f d).1.calls
        × AreGuarded w.ca (canonical r.root_fingerprint) (post_provisioner w f d).1.calls
  provisioners-AreGuarded g = (guarded_creation g, guarded_deletion g)
