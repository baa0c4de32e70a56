-- ===== src/Site/Server.antt =====
-- `NewHandler` and `registerInventoryRoutes`: every route with its guards and its handler.
use step_ui_ng.App.Server.{Route, routed}
use step_ui_ng.Site.State.{
  rest_answers, SiteEnv, SiteRequest, Rest, on_desk, of_account, of_list, put_app, of_panel, on_db,
  of_inventory, pages_of, of_desk, of_page, of_acme, of_audit, health_ok,
}
use step_ui_ng.Users.Table.{User}
use step_ui_ng.App.State.{plain_answers, Handler, Serves, redirect}
use step_ui_ng.Base.{Option}
use step_ui_ng.Pages.State.{CertForm}
use step_ui_ng.Desk.State.{Form}
use step_ui_ng.Desk.Panel.{PanelForm, post_settings, post_settings_test, post_admin_auth}
use step_ui_ng.Acme.Forms.{AcmeForm}
use step_ui_ng.App.Gate.{load_user, require_auth, first_run, require_role}
use step_ui_ng.Desk.Listed.{get_settings_page, get_provisioners}
use step_ui_ng.Users.Role.{admin}
use step_ui_ng.Pages.Inventory.{get_inventory, get_cert_detail, post_cert_download}
use step_ui_ng.Desk.Provisioners.{post_provisioners, post_provisioner_select, post_provisioner}
use step_ui_ng.Pages.Handlers.{
  get_issue, post_issue, get_sign_csr, post_sign_csr, post_cert_revoke, post_cert_renew,
}
use step_ui_ng.Acme.Handlers.{
  get_acme, post_acme_provisioners, post_acme_provisioner, get_eab, post_eab,
}
use step_ui_ng.App.AuditPage.{get_audit}

-- The routes that only an admin or a superadmin may use, those of the accounts apart.
pub data AdminRoute : Type 0 where
  gets_settings posts_settings posts_settings_test posts_admin_auth gets_provisioners
        posts_provisioners posts_provisioner_select posts_provisioner gets_issue posts_issue
        gets_sign_csr posts_sign_csr posts_download posts_revoke posts_renew gets_acme
        posts_acme_provisioners posts_acme_provisioner gets_eab posts_eab gets_audit :
      AdminRoute

pub data SiteRoute : Type 0 where
  account : Route → SiteRoute
  restricted : AdminRoute → SiteRoute
  gets_health gets_root gets_inventory gets_certificate : SiteRoute

module _ (w : SiteEnv) (req : SiteRequest) where
  abbrev pub cert_form : User → CertForm
  cert_form u = record req.cert { actor = u.username }

  abbrev pub desk_form : User → Form
  desk_form u = record req.desk { actor = u.username }

  abbrev pub panel_form : User → PanelForm
  panel_form u = record req.panel { actor = u.username }

  abbrev pub acme_form : User → AcmeForm
  acme_form u = record req.acme { actor = u.username }

  -- The handler of an account leaves the rest of the site alone.
  abbrev pub on_account : Handler → Serves Rest
  on_account h a = let (r, a') = h a in ((λ s. (of_account r, s)), a')

  abbrev pub rest_only : Rest → Serves Rest
  rest_only h a = (h, a)

  -- `s.requireAuth(s.requireRole(users.RoleAdmin, h))`
  abbrev pub for_admins : (User → Rest) → Option User → Serves Rest
  for_admins h =
      require_auth w.app req.account (require_role w.app req.account admin (λ u. rest_only (h u)))

  -- `s.requireAuth(h)`
  abbrev pub for_users : Rest → Option User → Serves Rest
  for_users h = require_auth w.app req.account (λ u. rest_only h)

  abbrev pub health : Rest
  health s = (health_ok w.version, s)

  -- The handlers behind both guards.
  unfoldable pub admin_handler : AdminRoute → User → Rest
  admin_handler gets_settings u = on_desk of_list (get_settings_page w.panel.desk_env)
  admin_handler posts_settings u = on_desk of_panel (post_settings w.panel (panel_form u))
  admin_handler posts_settings_test u = on_desk of_panel (post_settings_test w.panel)
  admin_handler posts_admin_auth u = on_desk of_panel (post_admin_auth w.panel (panel_form u))
  admin_handler gets_provisioners u = on_desk of_list (get_provisioners w.panel.desk_env)
  admin_handler posts_provisioners u =
      on_desk of_desk (post_provisioners w.panel.desk_env (desk_form u))
  admin_handler posts_provisioner_select u =
      on_desk of_desk (post_provisioner_select w.panel.desk_env (desk_form u))
  admin_handler posts_provisioner u =
      on_desk of_desk (post_provisioner w.panel.desk_env (desk_form u))
  admin_handler gets_issue u = λ s. on_db of_page (get_issue (pages_of w s)) s
  admin_handler posts_issue u = λ s. on_db of_page (post_issue (pages_of w s) (cert_form u)) s
  admin_handler gets_sign_csr u = λ s. on_db of_page (get_sign_csr (pages_of w s)) s
  admin_handler posts_sign_csr u = λ s. on_db of_page (post_sign_csr (pages_of w s) (cert_form u)) s
  admin_handler posts_download u =
      λ s. on_db of_inventory (post_cert_download (pages_of w s) (cert_form u)) s
  admin_handler posts_revoke u =
      λ s. on_db of_page (post_cert_revoke (pages_of w s) (cert_form u)) s
  admin_handler posts_renew u = λ s. on_db of_page (post_cert_renew (pages_of w s) (cert_form u)) s
  admin_handler gets_acme u = on_desk of_acme (get_acme w.panel.desk_env)
  admin_handler posts_acme_provisioners u =
      on_desk of_acme (post_acme_provisioners w.panel.desk_env (acme_form u))
  admin_handler posts_acme_provisioner u =
      on_desk of_acme (post_acme_provisioner w.panel.desk_env (acme_form u))
  admin_handler gets_eab u = on_desk of_acme (get_eab w.panel.desk_env req.acme.path_name)
  admin_handler posts_eab u = on_desk of_acme (post_eab w.panel.desk_env (acme_form u))
  admin_handler gets_audit u =
      λ s. (of_audit (get_audit w.parse_date w.audit req.audit s.app.log), s)

  -- The lines of `NewHandler` and `registerInventoryRoutes` that register the handlers.
  unfoldable pub site_routed : SiteRoute → Option User → Serves Rest
  site_routed (account route) u = on_account (routed w.app req.account route u)
  site_routed (restricted route) u = for_admins (admin_handler route) u
  site_routed gets_health u = rest_only health
  site_routed gets_root u = rest_only (λ s. (of_account (redirect "/inventory"), s))
  site_routed gets_inventory u =
      for_users (λ s. on_db of_inventory (get_inventory (pages_of w s) req.inventory) s) u
  site_routed gets_certificate u =
      for_users (λ s. on_db of_inventory (get_cert_detail (pages_of w s) req.cert.path_id) s) u

  -- The inner stack of `NewHandler`, at work on the site.
  unfoldable pub site_serve : SiteRoute → Rest
  site_serve route s =
      let (rest, a) =
        load_user w.app req.account (λ u. first_run w.app req.account (site_routed route u))
          s.app in
      rest (put_app a s)
