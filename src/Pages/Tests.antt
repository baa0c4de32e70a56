-- ===== src/Pages/Tests.antt =====
-- The pages for certificates at concrete values.
use step_ui_ng.Base.{◌≡◌, ◌⊎◌, refl, some, none}
use step_ui_ng.Pages.Names.{IsFileName, download_name, download_name-IsFileName}
use step_ui_ng.Pages.State.{PageEnv, CertForm}
use step_ui_ng.Pages.Handlers.{post_cert_revoke}
use step_ui_ng.Certs.Tests.{stocked, calm, reading}
use step_ui_ng.Pages.Confirmed.{HasAsked, post_cert_revoke_asks}
use step_ui_ng.Desk.Tests.{saved_row, desk_env}
use step_ui_ng.Base.Int.{pos}

download_name_example : IsFileName (download_name "*.example.com")
download_name_example = download_name-IsFileName "*.example.com"

abbrev pub page_env : PageEnv
page_env = record {
  settings_env = desk_env.settings_env;
  settings = some saved_row;
  world = calm;
  reading = reading;
  renew_default_days = pos 30;
  parse_leaf = λ s. none;
}

abbrev pub revoke_form : CertForm
revoke_form = record {
  actor = "ann";
  path_id = "1";
  cn = "";
  sans = "";
  validity = "";
  format = "";
  pfx_password = "";
  csr = "";
  confirm = " REVOKE";
  reason = " ";
  reason_code = "1";
}

post_cert_revoke_asks_example :
    ((post_cert_revoke page_env revoke_form stocked).1 ≡ stocked)
    ⊎ HasAsked page_env revoke_form stocked saved_row
        (post_cert_revoke page_env revoke_form stocked).1
post_cert_revoke_asks_example = post_cert_revoke_asks page_env revoke_form stocked saved_row refl
