-- ===== src/Acme/Tests.antt =====
-- The pages of ACME at concrete values.
use step_ui_ng.Base.{none, [], ◌∷◌, ◌≡◌, refl, ◌⊎◌, true, some, ok, false}
use step_ui_ng.Acme.Forms.{AcmeForm, acme_audit_details}
use step_ui_ng.Acme.Guarded.{respond, key_action}
use step_ui_ng.Acme.Shown.{respond-IsDiscreet, IsDiscreet, IsCreation}
use step_ui_ng.Ca.Net.{◌>>=◌, ◌>>◌, lift, pure, or_raise, raise_if, fetch, send}
use step_ui_ng.Acme.Recorded.{post_eab_log, HasCreated, HasRevoked}
use step_ui_ng.Acme.Handlers.{post_eab, post_acme_provisioner}
use step_ui_ng.Desk.Tests.{desk, desk_env, saved_row}
use step_ui_ng.Ca.Fingerprint.{
  canonical, base_url, roots_endpoint, normalize_fingerprint, valid_fingerprint, decodes_as_hex,
}
use step_ui_ng.Certs.Service.{join_comma}
use step_ui_ng.Desk.State.{DeskEnv}
use step_ui_ng.Ca.Token.{AdminCredential, new_admin_credential, checked_leaf}
use step_ui_ng.Settings.Repo.{get_settings, read_admin_credential, view_of, method_of}
use step_ui_ng.Desk.Provisioners.{admin_auth, credential_of_source, stored}
use step_ui_ng.Ca.Provisioners.{list_acme_provisioners, acme_page, follow, acme_only, page_url}
use step_ui_ng.Acme.Merge.{sends, post_acme_provisioner_edit, listed}
use step_ui_ng.Base.Prefix.{has_prefix, trim_right_slash, to_lower, remove_all}
use step_ui_ng.Base.Text.{trim_space}
use step_ui_ng.Ca.Pinned.{pinned_client_for, parse_roots, match_fingerprint, verify}

abbrev pub form : AcmeForm
form = record {
  actor = "root";
  path_name = "acme";
  action = "edit";
  name = "acme";
  challenges = none;
  require_eab = "";
  require_eab_present = "";
  key_id = "k";
  reference = " laptop ";
}

details_test :
    acme_audit_details ("http-01" ∷ "dns-01" ∷ []) true
    ≡ "challenges=http-01,dns-01 requireEAB=true"
unfolding acme_audit_details join_comma
details_test = refl

respond-IsDiscreet_example :
    IsDiscreet
      (IsCreation desk_env desk (key_action form))
      (respond desk_env (key_action form) desk).0
respond-IsDiscreet_example = respond-IsDiscreet desk_env (key_action form) desk

post_eab_log_example :
    ((post_eab desk_env form desk).1.log ≡ desk.log)
    ⊎ HasCreated desk_env form desk (post_eab desk_env form desk).1.log
    ⊎ HasRevoked desk_env form desk (post_eab desk_env form desk).1.log
post_eab_log_example = post_eab_log desk_env form desk

abbrev acme_env : DeskEnv
acme_env = record desk_env {
  ca = record desk_env.ca {
    acme_of_json = λ s. some (
      record { kind = "JWK"; name = "acme"; require_eab = false; challenges = [] }
          ∷ record { kind = "ACME"; name = "acme"; require_eab = true; challenges = "dns-01" ∷ [] }
          ∷ [],
      "",
    );
  };
}

abbrev admin : AdminCredential
admin = record {
  chain =
      record { raw = "x"; common_name = "me"; public_key = "p"; has_digital_signature = true } ∷ [];
  signer = record { secret = "#key"; is_signer = true; public_key = "p" };
}

settings_there : get_settings acme_env.settings_env desk.settings ≡ ok (some (view_of saved_row))
unfolding get_settings
settings_there = refl

admin_there : admin_auth acme_env (view_of saved_row) desk.settings ≡ ok (some (ok (stored admin)))
unfolding admin_auth read_admin_credential new_admin_credential checked_leaf method_of
admin_there = refl

listed_there :
    (list_acme_provisioners acme_env.ca 5 "https://ca" saved_row.root_fingerprint []).0
    ≡ ok (some (record { name = "acme"; challenges = "dns-01" ∷ []; require_eab = true } ∷ []))
unfolding list_acme_provisioners acme_page follow acme_only page_url ◌>>=◌ ◌>>◌ lift pure or_raise
    raise_if base_url roots_endpoint has_prefix trim_right_slash trim_space pinned_client_for
    normalize_fingerprint valid_fingerprint canonical to_lower remove_all decodes_as_hex fetch send
    parse_roots match_fingerprint verify
listed_there = refl

edit_example :
    post_acme_provisioner acme_env form desk
    ≡ sends acme_env form desk (view_of saved_row) (stored admin) admin [] ("dns-01" ∷ []) true
unfolding credential_of_source
edit_example =
    post_acme_provisioner_edit acme_env form desk (view_of saved_row) (stored admin) admin [] refl
      refl refl settings_there admin_there refl ("dns-01" ∷ []) true
      (listed [] [] (record { name = "acme"; challenges = "dns-01" ∷ []; require_eab = true })
        listed_there tt refl refl refl)
