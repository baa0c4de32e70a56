-- ===== src/Site/Access.antt =====
-- Who reaches what of the whole program, and which answers may be stored by a cache.
use step_ui_ng.Base.{refl, ok, none, some, inl, inr, true, false, Option, Bool, ◌≡◌, ◌⊎◌, subst, ap}
use step_ui_ng.Site.State.{
  rest_answers, Reply, SiteEnv, SiteRequest, SiteState, of_acme, Rest, of_page, put_app, db_of,
  of_inventory, put_db, pages_of,
}
use step_ui_ng.App.State.{plain_answers, App, Response, put_user, redirect}
use step_ui_ng.Acme.Forms.{AcmeAnswer, eab_page_of}
use step_ui_ng.Users.Table.{User}
use step_ui_ng.Site.Server.{
  site_routed, site_serve, SiteRoute, account, restricted, rest_only, admin_handler, gets_health,
  gets_root, gets_inventory, gets_certificate,
}
use step_ui_ng.Pages.Secrets.{has_secret, has_no_store, listed_secret, listed_no_store}
use step_ui_ng.Users.Repo.{get_by_id}
use step_ui_ng.Pages.Inventory.{InventoryReply, get_inventory, get_cert_detail}
use step_ui_ng.App.Gate.{require_auth}
use step_ui_ng.Users.Role.{at_least, admin}
use step_ui_ng.App.Reach.{loaded_holds, guarded_holds}
use step_ui_ng.Pages.Reads.{get_inventory-IsHarmless, get_cert_detail-IsHarmless}

abbrev pub acme_secret : Option AcmeAnswer → Bool
acme_secret (some (eab_page_of v flash error no_store)) = elim v.created [
  | none ↦ false
  | some k ↦ true
]
acme_secret _ = false

abbrev pub acme_no_store : Option AcmeAnswer → Bool
acme_no_store (some (eab_page_of v flash error no_store)) = no_store
acme_no_store _ = false

-- Whether an answer may hold a private key or the HMAC of an EAB key.
abbrev pub carries_secret : Reply → Bool
carries_secret (of_acme a) = acme_secret a
carries_secret (of_page a) = has_secret a
carries_secret (of_inventory a) = listed_secret a
carries_secret _ = false

-- Whether a cache is told not to store it.
abbrev pub has_no_store_header : Reply → Bool
has_no_store_header (of_acme a) = acme_no_store a
has_no_store_header (of_page a) = has_no_store a
has_no_store_header (of_inventory a) = listed_no_store a
has_no_store_header _ = false

module _ (w : SiteEnv) (req : SiteRequest) (s : SiteState) where
  -- The session names an enabled account that is an admin's at least.
  abbrev pub IsAdminSession : Type 0
  IsAdminSession =
      (u : User) × (get_by_id (w.app.repo 0) s.app.session.user_id s.app.users ≡ ok u)
      × (u.disabled ≡ false)
      × (at_least u.role admin ≡ true)

  -- The settings and the certificates stay, no call goes to the CA, and the answer holds no secret.
  abbrev pub IsUntouched : Reply × SiteState → Type 0
  IsUntouched (r, s') =
      (s'.settings ≡ s.settings)
      × (s'.certificates ≡ s.certificates)
      × (s'.admin_calls ≡ s.admin_calls)
      × (s'.cert_calls ≡ s.cert_calls)
      × (carries_secret r ≡ false)

  same_user : (x y : User) → ◌≡◌ {A = Option User} (some y) (some x) → x ≡ y
  same_user x y e = cc e

  abbrev Reached : Rest × App → Type 0
  Reached (rest, a) = IsAdminSession ⊎ IsUntouched (rest (put_app a s))

  stopped : (a : App) (r : Response) → Reached (rest_answers.of_response r, a)
  stopped a r = inr (refl, refl, refl, refl, refl)

  read_lem :
      (a : App) (o : InventoryReply)
      → (o.1 ≡ db_of (put_app a s)) × (listed_secret o.0 ≡ false)
      → IsUntouched (of_inventory o.0, put_db (put_app a s) o.1)
  read_lem a (r, db) (h, g) = (refl, ap (λ d. d.certificates) h, refl, ap (λ d. d.calls) h, g)

  routed_lem :
      (route : SiteRoute) (u : Option User) (a : App)
      → ((actor : User) → u ≡ some actor → at_least actor.role admin ≡ true → IsAdminSession)
      → Reached (site_routed w req route u a)
  unfolding site_routed require_auth
  routed_lem (account route) u a known = inr (refl, refl, refl, refl, refl)
  routed_lem (restricted route) u a known =
      guarded_holds w.app req.account Reached
        (λ actor. rest_only w req (admin_handler w req route actor)) u a (stopped a)
        (λ actor e h. inl (known actor e h))
  routed_lem gets_health u a known = inr (refl, refl, refl, refl, refl)
  routed_lem gets_root u a known = inr (refl, refl, refl, refl, refl)
  routed_lem gets_inventory none a known = stopped a (redirect "/login")
  routed_lem gets_inventory (some u) a known =
      let s' = put_app a s in
      inr (
        read_lem a (get_inventory (pages_of w s') req.inventory (db_of s'))
          (get_inventory-IsHarmless (pages_of w s') req.inventory (db_of s')))
  routed_lem gets_certificate none a known = stopped a (redirect "/login")
  routed_lem gets_certificate (some u) a known =
      let s' = put_app a s in
      inr (
        read_lem a (get_cert_detail (pages_of w s') req.cert.path_id (db_of s'))
          (get_cert_detail-IsHarmless (pages_of w s') req.cert.path_id (db_of s')))

  -- Whatever is requested: the session names an enabled admin or superadmin, or the settings and the
  -- certificates stay as they are, no call goes to the CA, and the answer holds no private key, no
  -- archive and no HMAC.
  pub site_serve_admins :
      (route : SiteRoute) → IsAdminSession ⊎ IsUntouched (site_serve w req route s)
  unfolding site_serve
  site_serve_admins route =
      loaded_holds w.app req.account Reached (site_routed w req route) s.app (stopped s.app)
        (stopped (put_user 0 s.app)) (routed_lem route none s.app (λ actor e h. absurd (cc e)))
        (routed_lem route none (put_user 0 s.app) (λ actor e h. absurd (cc e)))
        (λ u found enabled. routed_lem route (some u) s.app (λ actor e h. (
          u,
          found,
          enabled,
          subst (λ (x : User). at_least x.role admin ≡ true) (same_user actor u e) h,
        )))
