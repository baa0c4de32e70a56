-- ===== src/Site/Discreet.antt =====
-- Which answers of the whole program may be stored by a cache.
use step_ui_ng.Base.{refl, none, some, inl, inr, Option}
use step_ui_ng.Site.State.{
  rest_answers, Reply, SiteEnv, SiteRequest, SiteState, Rest, put_app, pages_of, db_of, desk_of,
}
use step_ui_ng.App.State.{plain_answers, App, Response, put_user}
use step_ui_ng.Pages.Secrets.{
  IsKept, without-IsKept, post_issue_kept, post_sign_csr_kept, post_cert_revoke_kept,
  post_cert_renew_kept,
}
use step_ui_ng.Acme.Forms.{AcmeAnswer, plain, acme_page_of, eab_page_of, EabView}
use step_ui_ng.Site.Access.{carries_secret, has_no_store_header, acme_secret, acme_no_store}
use step_ui_ng.Acme.Shown.{IsDiscreet, respond-IsDiscreet}
use step_ui_ng.Site.Server.{
  posts_acme_provisioner, admin_handler, site_routed, site_serve, SiteRoute, AdminRoute, account,
  restricted, cert_form, rest_only, gets_health, gets_root, gets_inventory, gets_certificate,
  acme_form, gets_settings, posts_settings, posts_settings_test, posts_admin_auth,
  gets_provisioners, posts_provisioners, posts_provisioner_select, posts_provisioner, gets_issue,
  posts_issue, gets_sign_csr, posts_sign_csr, posts_download, posts_revoke, posts_renew, gets_acme,
  posts_acme_provisioners, gets_eab, posts_eab, gets_audit,
}
use step_ui_ng.Acme.Guarded.{respond, list_page, create_one, edit_or_delete, keys_page, key_action}
use step_ui_ng.Pages.Handlers.{get_issue, get_sign_csr}
use step_ui_ng.App.Gate.{require_auth}
use step_ui_ng.Users.Table.{User}
use step_ui_ng.App.Reach.{loaded_holds, guarded_holds}
use step_ui_ng.Pages.Reads.{
  get_inventory-IsHarmless, get_cert_detail-IsHarmless, post_cert_download_kept,
}

-- An answer with a private key, an archive or an HMAC is not stored.
abbrev pub ReplyKept : Reply → Type 0
ReplyKept r = IsKept (carries_secret r) (has_no_store_header r)

acme-IsKept :
    (May : EabView → Type 0) (a : Option AcmeAnswer)
    → IsDiscreet May a
    → IsKept (acme_secret a) (acme_no_store a)
acme-IsKept May none h = without-IsKept _ _ refl
acme-IsKept May (some (plain r)) h = without-IsKept _ _ refl
acme-IsKept May (some (acme_page_of v flash error)) h = without-IsKept _ _ refl
acme-IsKept May (some (eab_page_of v flash error no_store)) (keys, inl (e, p)) =
    without-IsKept _ _ (rw e refl)
acme-IsKept May (some (eab_page_of v flash error no_store)) (keys, inr (may, h)) = λ g. h

module _ (w : SiteEnv) (req : SiteRequest) where
  handler_kept :
      (route : AdminRoute) (u : User) (s : SiteState) → ReplyKept (admin_handler w req route u s).0
  unfolding admin_handler respond get_issue get_sign_csr
  handler_kept gets_settings u s = without-IsKept _ _ refl
  handler_kept posts_settings u s = without-IsKept _ _ refl
  handler_kept posts_settings_test u s = without-IsKept _ _ refl
  handler_kept posts_admin_auth u s = without-IsKept _ _ refl
  handler_kept gets_provisioners u s = without-IsKept _ _ refl
  handler_kept posts_provisioners u s = without-IsKept _ _ refl
  handler_kept posts_provisioner_select u s = without-IsKept _ _ refl
  handler_kept posts_provisioner u s = without-IsKept _ _ refl
  handler_kept gets_issue u s = without-IsKept _ _ refl
  handler_kept posts_issue u s = post_issue_kept (pages_of w s) (cert_form w req u) (db_of s)
  handler_kept gets_sign_csr u s = without-IsKept _ _ refl
  handler_kept posts_sign_csr u s = post_sign_csr_kept (pages_of w s) (cert_form w req u) (db_of s)
  handler_kept posts_download u s =
      post_cert_download_kept (pages_of w s) (cert_form w req u) (db_of s)
  handler_kept posts_revoke u s = post_cert_revoke_kept (pages_of w s) (cert_form w req u) (db_of s)
  handler_kept posts_renew u s = post_cert_renew_kept (pages_of w s) (cert_form w req u) (db_of s)
  handler_kept gets_acme u s =
      acme-IsKept _ _ (respond-IsDiscreet w.panel.desk_env list_page (desk_of s))
  handler_kept posts_acme_provisioners u s =
      acme-IsKept _ _
        (respond-IsDiscreet w.panel.desk_env (create_one (acme_form w req u)) (desk_of s))
  handler_kept posts_acme_provisioner u s =
      acme-IsKept _ _
        (respond-IsDiscreet w.panel.desk_env (edit_or_delete (acme_form w req u)) (desk_of s))
  handler_kept gets_eab u s =
      acme-IsKept _ _
        (respond-IsDiscreet w.panel.desk_env (keys_page req.acme.path_name) (desk_of s))
  handler_kept posts_eab u s =
      acme-IsKept _ _
        (respond-IsDiscreet w.panel.desk_env (key_action (acme_form w req u)) (desk_of s))
  handler_kept gets_audit u s = without-IsKept _ _ refl

  module _ (s : SiteState) where
    abbrev Kept : Rest × App → Type 0
    Kept (rest, a) = ReplyKept (rest (put_app a s)).0

    stopped-Kept : (a : App) (r : Response) → Kept (rest_answers.of_response r, a)
    stopped-Kept a r = without-IsKept _ _ refl

    routed-Kept :
        (route : SiteRoute) (u : Option User) (a : App) → Kept (site_routed w req route u a)
    unfolding site_routed require_auth
    routed-Kept (account route) u a = without-IsKept _ _ refl
    routed-Kept (restricted route) u a =
        guarded_holds w.app req.account Kept
          (λ actor. rest_only w req (admin_handler w req route actor)) u a (stopped-Kept a)
          (λ actor e h. handler_kept route actor (put_app a s))
    routed-Kept gets_health u a = without-IsKept _ _ refl
    routed-Kept gets_root u a = without-IsKept _ _ refl
    routed-Kept gets_inventory none a = without-IsKept _ _ refl
    routed-Kept gets_inventory (some u) a =
        let s' = put_app a s in
        without-IsKept _ _ (get_inventory-IsHarmless (pages_of w s') req.inventory (db_of s')).1
    routed-Kept gets_certificate none a = without-IsKept _ _ refl
    routed-Kept gets_certificate (some u) a =
        let s' = put_app a s in
        without-IsKept _ _
          (get_cert_detail-IsHarmless (pages_of w s') req.cert.path_id (db_of s')).1

    -- Whatever is requested, and whatever the CA answers: an answer that holds a private key, an
    -- archive or the HMAC of an EAB key tells caches not to store it.
    pub site_serve_kept : (route : SiteRoute) → ReplyKept (site_serve w req route s).0
    unfolding site_serve
    site_serve_kept route =
        loaded_holds w.app req.account Kept (site_routed w req route) s.app (stopped-Kept s.app)
          (stopped-Kept (put_user 0 s.app)) (routed-Kept route none s.app)
          (routed-Kept route none (put_user 0 s.app))
          (λ u found enabled. routed-Kept route (some u) s.app)
