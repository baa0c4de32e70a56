-- ===== src/Site/Tests.antt =====
-- The whole program at concrete values.
use step_ui_ng.Certs.Tests.{stocked}
use step_ui_ng.Acme.Tests.{form}
use step_ui_ng.App.Tests.{world, anna_session, coup, login_query}
use step_ui_ng.Settings.Spec.{State, x5c}
use step_ui_ng.Base.{refl, List, ◌∷◌, some, none, false, ◌⊎◌, []}
use step_ui_ng.Site.State.{SiteEnv, SiteRequest, SiteState}
use step_ui_ng.Site.Access.{IsAdminSession, IsUntouched, site_serve_admins}
use step_ui_ng.Site.Discreet.{ReplyKept, site_serve_kept}
use step_ui_ng.Desk.Tests.{panel_env, saved_row, removal, panel_form}
use step_ui_ng.Site.Server.{
  site_serve, restricted, posts_issue, SiteRoute, posts_settings, posts_settings_test,
}
use step_ui_ng.Pages.Tests.{page_env, revoke_form}
use step_ui_ng.App.State.{Session}
use step_ui_ng.Site.Guarded.{CallsGuarded, site_serve-CallsGuarded}

abbrev site_env : SiteEnv
site_env = record {
  app = world;
  panel = panel_env;
  pages = page_env;
  audit = record { fails = λ s. false; now = 3 };
  parse_date = λ s. none;
  version = "0.1.1";
}

-- An admin issues a certificate, with the plain key.
abbrev issuance : SiteRequest
issuance = record {
  account = record coup { path = "/issue" };
  desk = removal;
  panel = panel_form;
  acme = form;
  cert = record revoke_form { cn = "host"; validity = "30"; format = "pem" };
  inventory = record {
    page_text = "";
    filter = record { status = ""; search = ""; provisioner = "" };
    hx_request = "";
    hx_boosted = "";
  };
  audit = login_query;
}

abbrev site : SiteState
site = record {
  app = anna_session;
  settings = some saved_row;
  certificates = stocked.certificates;
  admin_calls = [];
  cert_calls = [];
}

site_serve_admins_example :
    IsAdminSession site_env issuance site
    ⊎ IsUntouched site_env issuance site
        (site_serve site_env issuance (restricted posts_issue) site)
site_serve_admins_example = site_serve_admins site_env issuance site (restricted posts_issue)

site_serve_kept_example : ReplyKept (site_serve site_env issuance (restricted posts_issue) site).0
site_serve_kept_example = site_serve_kept site_env issuance site (restricted posts_issue)

abbrev saved_settings : State
saved_settings = some record {
  url = "https://ca";
  fingerprint = "abcdef0123456789abcdef0123456789abcdef01";
  selected = some ("admin", some "secret");
  auth = x5c "chain" "key";
}

-- The admin issues a certificate, and saves the connection again.
abbrev visits : List (Session × SiteEnv × SiteRequest × SiteRoute)
visits =
    (anna_session.session, site_env, issuance, restricted posts_issue)
    ∷ (anna_session.session, site_env, issuance, restricted posts_settings)
    ∷ []

site_serve-CallsGuarded_example :
    CallsGuarded site_env saved_row
      (site_serve site_env issuance (restricted posts_settings_test) site).1
site_serve-CallsGuarded_example =
    site_serve-CallsGuarded site_env issuance site saved_row refl (restricted posts_settings_test)
      tt
