-- ===== src/Site/Guarded.antt =====
-- What the whole program sends to the CA.
use step_ui_ng.Site.Server.{
  posts_acme_provisioner, posts_provisioner_select, admin_handler, site_routed, site_serve,
  SiteRoute, AdminRoute, account, restricted, panel_form, rest_only, desk_form, gets_health,
  gets_root, gets_inventory, gets_certificate, acme_form, gets_settings, posts_settings,
  posts_settings_test, posts_admin_auth, gets_provisioners, posts_provisioners, posts_provisioner,
  gets_issue, posts_issue, gets_sign_csr, posts_sign_csr, posts_download, posts_revoke, posts_renew,
  gets_acme, posts_acme_provisioners, gets_eab, posts_eab, gets_audit,
}
use step_ui_ng.Desk.Provisioners.{selected, post_provisioner_select}
use step_ui_ng.Settings.Store.{SettingsError, SettingsRow}
use step_ui_ng.Settings.Repo.{Outcome, get_settings}
use step_ui_ng.Base.{
  refl, ok, err, none, some, inl, inr, subst, sym, Result, String, ◌≡◌, Result-cases, List, Option,
}
use step_ui_ng.Site.State.{rest_answers, SiteEnv, SiteRequest, SiteState, Rest, put_app, desk_of}
use step_ui_ng.App.State.{plain_answers, App, put_user}
use step_ui_ng.Ca.Net.{Call}
use step_ui_ng.Desk.Panel.{
  PanelEnv, post_admin_auth, PanelForm, saved, chosen_command, tested, post_settings_test,
  post_settings,
}
use step_ui_ng.Desk.State.{DeskEnv, Desk, Form, pop_texts}
use step_ui_ng.Desk.Listed.{get_settings_page, get_provisioners}
use step_ui_ng.Ca.Fingerprint.{CaError, canonical}
use step_ui_ng.Settings.Spec.{perform}
use step_ui_ng.Ca.Vouched.{AreGuarded}
use step_ui_ng.Acme.Guarded.{
  respond, respond-AreGuarded, list_page, create_one, edit_or_delete, keys_page, key_action,
}
use step_ui_ng.App.Gate.{require_auth}
use step_ui_ng.App.Reach.{loaded_holds, guarded_holds}
use step_ui_ng.Ca.Pinned.{test_connection}
use step_ui_ng.Desk.Keeps.{KeepsCalls, settled-KeepsCalls}
use step_ui_ng.Users.Table.{User}
use step_ui_ng.Ca.Trusted.{test-Sound, list_provisioners-Sound}
use step_ui_ng.Desk.Guarded.{agrees-view, provisioners-AreGuarded}

module _ (w : PanelEnv) where
  tested-calls :
      (d : Desk) (o : Result CaError (List String) × List Call) → (tested w d o).1.calls ≡ o.1
  tested-calls d (err e, l) = refl
  tested-calls d (ok roots, l) = refl

  saved-calls :
      (message : SettingsError → String) (text actor event target details : String) (o : Outcome)
      (d : Desk)
      → (saved w message text actor event target details o d).1.calls ≡ d.calls
  saved-calls message text actor event target details (err e, t) d = refl
  saved-calls message text actor event target details (ok u, t) d = refl

  auth-calls : (f : PanelForm) (d : Desk) → (post_admin_auth w f d).1.calls ≡ d.calls
  unfolding post_admin_auth
  auth-calls f d = elim (Result-cases (chosen_command w f)) [
    | inl (text, x) ↦ rw (post_admin_auth, x) refl
    | inr (command, x) ↦
        rw (post_admin_auth, x)
          (saved-calls _ _ _ _ _ _ (perform w.desk_env.settings_env command d.settings) d)
  ]

selected-calls :
    (w : DeskEnv) (f : Form) (o : Outcome) (d : Desk) → (selected w f o d).1.calls ≡ d.calls
selected-calls w f (err e, t) d = refl
selected-calls w f (ok u, t) d = refl

settings_page-calls : (w : DeskEnv) (d : Desk) → (get_settings_page w d).1.calls ≡ d.calls
unfolding get_settings_page
settings_page-calls w d = elim (Result-cases (get_settings w.settings_env d.settings)) [
  | inl (e, x) ↦ rw (get_settings_page, x) refl
  | inr (found, x) ↦ rw (get_settings_page, x) refl
]

module _ (w : PanelEnv) (d : Desk) (r : SettingsRow) (saved_settings : d.settings ≡ some r)
    (g : AreGuarded w.desk_env.ca (canonical r.root_fingerprint) d.calls) where
  abbrev want : String
  want = canonical r.root_fingerprint

  abbrev StayGuarded : List Call → Type 0
  StayGuarded l = AreGuarded w.desk_env.ca want l

  same-StayGuarded : (l : List Call) → l ≡ d.calls → StayGuarded l
  same-StayGuarded l e = subst StayGuarded (sym e) g

  test-StayGuarded : StayGuarded (post_settings_test w d).1.calls
  unfolding post_settings_test
  test-StayGuarded = elim (Result-cases (get_settings w.desk_env.settings_env d.settings)) [
    | inl (e, x) ↦ rw (post_settings_test, x) g
    | inr (none, x) ↦ rw (post_settings_test, x) g
    | inr (some v, x) ↦
        let o = test_connection w.desk_env.ca v.ca_url v.root_fingerprint d.calls in
        rw (post_settings_test, x)
          (subst StayGuarded (sym (tested-calls w d o))
            ((test-Sound w.desk_env.ca want v.ca_url v.root_fingerprint).kept d.calls g))
  ]

  provisioners-StayGuarded : StayGuarded (get_provisioners w.desk_env d).1.calls
  unfolding get_provisioners KeepsCalls
  provisioners-StayGuarded = elim (Result-cases (get_settings w.desk_env.settings_env d.settings)) [
    | inl (e, x) ↦ rw (get_provisioners, x) g
    | inr (none, x) ↦ rw (get_provisioners, x) g
    | inr (some v, x) ↦
        rw (get_provisioners, x)
          (settled-KeepsCalls w.desk_env want (pop_texts d) _ _ _
            ((list_provisioners-Sound w.desk_env.ca want v.ca_url v.root_fingerprint
                (agrees-view w.desk_env d r saved_settings v x) w.desk_env.fuel).kept
              d.calls g)
            (λ e d' h. h) (λ list d' h. h))
  ]

-- A token or a document goes only to a CA that has proved the stored sum.
abbrev pub CallsGuarded : SiteEnv → SettingsRow → SiteState → Type 0
CallsGuarded w r s = AreGuarded w.panel.desk_env.ca (canonical r.root_fingerprint) s.admin_calls

module _ (w : SiteEnv) (req : SiteRequest) (s : SiteState) (r : SettingsRow)
    (saved_settings : s.settings ≡ some r) where
  handler-CallsGuarded :
      (route : AdminRoute) (u : User) (a : App)
      → CallsGuarded w r s
      → CallsGuarded w r (admin_handler w req route u (put_app a s)).1
  unfolding admin_handler respond post_settings post_provisioner_select
  handler-CallsGuarded gets_settings u a g =
      let d = desk_of (put_app a s) in
      same-StayGuarded w.panel d r saved_settings g _ (settings_page-calls w.panel.desk_env d)
  handler-CallsGuarded posts_settings u a g =
      let d = desk_of (put_app a s) in
      same-StayGuarded w.panel d r saved_settings g _ (saved-calls w.panel _ _ _ _ _ _ _ d)
  handler-CallsGuarded posts_settings_test u a g =
      test-StayGuarded w.panel (desk_of (put_app a s)) r saved_settings g
  handler-CallsGuarded posts_admin_auth u a g =
      let d = desk_of (put_app a s) in
      same-StayGuarded w.panel d r saved_settings g _ (auth-calls w.panel (panel_form w req u) d)
  handler-CallsGuarded gets_provisioners u a g =
      provisioners-StayGuarded w.panel (desk_of (put_app a s)) r saved_settings g
  handler-CallsGuarded posts_provisioners u a g =
      (provisioners-AreGuarded w.panel.desk_env (desk_form w req u) (desk_of (put_app a s)) r
        saved_settings g).0
  handler-CallsGuarded posts_provisioner_select u a g =
      let d = desk_of (put_app a s) in
      same-StayGuarded w.panel d r saved_settings g _
        (selected-calls w.panel.desk_env (desk_form w req u) _ d)
  handler-CallsGuarded posts_provisioner u a g =
      (provisioners-AreGuarded w.panel.desk_env (desk_form w req u) (desk_of (put_app a s)) r
        saved_settings g).1
  handler-CallsGuarded gets_issue u a g = g
  handler-CallsGuarded posts_issue u a g = g
  handler-CallsGuarded gets_sign_csr u a g = g
  handler-CallsGuarded posts_sign_csr u a g = g
  handler-CallsGuarded posts_download u a g = g
  handler-CallsGuarded posts_revoke u a g = g
  handler-CallsGuarded posts_renew u a g = g
  handler-CallsGuarded gets_acme u a g =
      respond-AreGuarded w.panel.desk_env (desk_of (put_app a s)) r saved_settings list_page g
  handler-CallsGuarded posts_acme_provisioners u a g =
      respond-AreGuarded w.panel.desk_env (desk_of (put_app a s)) r saved_settings
        (create_one (acme_form w req u)) g
  handler-CallsGuarded posts_acme_provisioner u a g =
      respond-AreGuarded w.panel.desk_env (desk_of (put_app a s)) r saved_settings
        (edit_or_delete (acme_form w req u)) g
  handler-CallsGuarded gets_eab u a g =
      respond-AreGuarded w.panel.desk_env (desk_of (put_app a s)) r saved_settings
        (keys_page req.acme.path_name) g
  handler-CallsGuarded posts_eab u a g =
      respond-AreGuarded w.panel.desk_env (desk_of (put_app a s)) r saved_settings
        (key_action (acme_form w req u)) g
  handler-CallsGuarded gets_audit u a g = g

  abbrev Sends : Rest × App → Type 0
  Sends (rest, a) = CallsGuarded w r (rest (put_app a s)).1

  routed-Sends :
      (route : SiteRoute) (u : Option User) (a : App)
      → CallsGuarded w r s
      → Sends (site_routed w req route u a)
  unfolding site_routed require_auth
  routed-Sends (account route) u a g = g
  routed-Sends (restricted route) u a g =
      guarded_holds w.app req.account Sends
        (λ actor. rest_only w req (admin_handler w req route actor)) u a (λ r'. g)
        (λ actor e h. handler-CallsGuarded route actor a g)
  routed-Sends gets_health u a g = g
  routed-Sends gets_root u a g = g
  routed-Sends gets_inventory none a g = g
  routed-Sends gets_inventory (some u) a g = g
  routed-Sends gets_certificate none a g = g
  routed-Sends gets_certificate (some u) a g = g

  -- With a stored connection, and if the HTTP calls made before are guarded, every request to the
  -- program keeps them guarded: no token and no document goes out before the CA has proved that its
  -- chain is anchored in a root with the stored sum. The requests to sign and to revoke, which the
  -- service of certificates hands to its interfaces, are not among these calls.
  pub site_serve-CallsGuarded :
      (route : SiteRoute) → CallsGuarded w r s → CallsGuarded w r (site_serve w req route s).1
  unfolding site_serve
  site_serve-CallsGuarded route g =
      loaded_holds w.app req.account Sends (site_routed w req route) s.app (λ r'. g) (λ r'. g)
        (routed-Sends route none s.app g) (routed-Sends route none (put_user 0 s.app) g)
        (λ u found enabled. routed-Sends route (some u) s.app g)
