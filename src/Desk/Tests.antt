-- ===== src/Desk/Tests.antt =====
-- The provisioners' page at concrete values.
use step_ui_ng.Ca.Net.{◌>>=◌, ◌>>◌, lift, pure, or_raise, raise_if, fetch, send, admin_request}
use step_ui_ng.Desk.State.{Desk, DeskEnv, Form}
use step_ui_ng.Settings.Store.{SettingsRow, SettingsEnv}
use step_ui_ng.Base.{
  some, false, none, [], ◌≡◌, ◌⊎◌, refl, true, ◌∷◌, length, List, ok, subst, All, sym,
}
use step_ui_ng.Desk.Provisioners.{
  post_provisioner, with_settings, with_credential, admin_auth, credential_of_source,
}
use step_ui_ng.Ca.Fingerprint.{
  canonical, base_url, roots_endpoint, normalize_fingerprint, valid_fingerprint, decodes_as_hex,
}
use step_ui_ng.App.State.{no_session}
use step_ui_ng.Desk.Deleted.{HasDeleted, post_provisioner-IsHonest}
use step_ui_ng.Ca.Tests.{ca_world}
use step_ui_ng.Settings.Repo.{get_settings, read_admin_credential, method_of}
use step_ui_ng.Ca.Token.{new_admin_credential, checked_leaf, generate_admin_token}
use step_ui_ng.Ca.Provisioners.{delete_provisioner}
use step_ui_ng.Base.Prefix.{has_prefix, trim_right_slash, to_lower, remove_all}
use step_ui_ng.Base.Text.{trim_space}
use step_ui_ng.Ca.Pinned.{pinned_client_for, parse_roots, match_fingerprint, verify}
use step_ui_ng.Desk.Panel.{
  PanelEnv, PanelForm, other_usage, chosen_command, client_auth, checked_credential,
  require_client_auth,
}
use step_ui_ng.Desk.Asked.{
  asked_all, PanelRequest, asked, auth_form, save_form, test_form, AreAsked,
}
use step_ui_ng.Desk.Requests.{
  after_request, HasSucceeded, after_request_log, after_all, after_all-Refines,
}
use step_ui_ng.Settings.Spec.{
  Command, save_connection, upload_credential, set_jwk, Represents, IsSealer,
}
use step_ui_ng.Settings.Tests.{good_env, unmark, marked}
use step_ui_ng.Settings.History.{apply_all}

abbrev pub saved_row : SettingsRow
saved_row = record {
  ca_url = "https://ca";
  root_fingerprint = "abcdef0123456789abcdef0123456789abcdef01";
  selected_provisioner = some "admin";
  selected_secret_sealed = some "#secret";
  admin_cert_pem = some "chain";
  admin_key_sealed = some "#key";
  admin_auth_method = "x5c";
  admin_jwk_subject = none;
  admin_jwk_provisioner = none;
  admin_jwk_password_sealed = none;
  created_at = 1;
  updated_at = 2;
}

abbrev pub desk : Desk
desk = record { settings = some saved_row; calls = []; log = none; session = no_session }

-- The CA of the client's tests, with an admin's chain and key that belong together.
abbrev pub desk_env : DeskEnv
desk_env = record {
  settings_env = record { fails = λ s. false; now = 3; seal = λ s. some s; unseal = λ s. some s };
  ca = record ca_world {
    admin_chain_of_pem = λ s. some (
        record { raw = "x"; common_name = "me"; public_key = "p"; has_digital_signature = true }
        ∷ []);
    key_of_pem = λ s. some (record { secret = s; is_signer = true; public_key = "p" });
  };
  fuel = 5;
  log_env = record { fails = λ s. false; now = 3 };
  ephemeral = none;
  hint = "Invalid name";
}

abbrev pub removal : Form
removal = record {
  actor = "root";
  path_name = "acme";
  action = "delete";
  name = "acme";
  kind = "ACME";
  secret = "";
}

post_provisioner_example :
    ((post_provisioner desk_env removal desk).1.log ≡ desk.log)
    ⊎ HasDeleted desk_env removal desk saved_row
post_provisioner_example = post_provisioner-IsHonest desk_env removal desk saved_row refl

-- Two fetches of the roots and the deletion, confirmed to the client.
removal_test :
    (length (post_provisioner desk_env removal desk).1.calls ≡ 3)
    × ((post_provisioner desk_env removal desk).1.session.flash ≡ "Provisioner deleted.")
unfolding post_provisioner with_settings with_credential get_settings admin_auth
    read_admin_credential credential_of_source new_admin_credential checked_leaf delete_provisioner
    ◌>>=◌ ◌>>◌ lift pure or_raise raise_if base_url roots_endpoint has_prefix trim_right_slash
    trim_space pinned_client_for normalize_fingerprint valid_fingerprint canonical to_lower
    remove_all decodes_as_hex fetch send parse_roots match_fingerprint verify generate_admin_token
    admin_request method_of
removal_test = (refl, refl)

abbrev pub panel_env : PanelEnv
panel_env = record {
  desk_env = record desk_env { settings_env = good_env };
  first_block = λ s. some (record {
    is_certificate = true;
    parsed = ok (record { common_name = "me"; usages = other_usage ∷ client_auth ∷ [] });
  });
  credential_detail = "";
}

abbrev pub panel_form : PanelForm
panel_form = record {
  actor = "root";
  ca_url = " https://ca ";
  root_fingerprint = "abcdef0123456789abcdef0123456789abcdef01";
  method = " x5c ";
  subject = "";
  provisioner = "";
  password = "";
  cert = "chain\n";
  key = "key";
}

abbrev bare_desk : Desk
bare_desk = record desk { settings = none }

-- A connection, then an uploaded credential, a blank JWK that is refused, and a method that is not
-- known.
abbrev requests : List (PanelEnv × PanelRequest)
requests =
    (panel_env, save_form panel_form)
    ∷ (panel_env, auth_form panel_form)
    ∷ (panel_env, auth_form (record panel_form { method = "jwk" }))
    ∷ (panel_env, auth_form (record panel_form { method = "other" }))
    ∷ (panel_env, test_form)
    ∷ []

abbrev asked_commands : List (SettingsEnv × Command)
asked_commands =
    (
      good_env,
      save_connection (record {
        ca_url = " https://ca ";
        root_fingerprint = "abcdef0123456789abcdef0123456789abcdef01";
      }),
    )
    ∷ (good_env, upload_credential "chain" "key")
    ∷ (good_env, set_jwk "" "" "")
    ∷ []

requests_test : asked_all requests ≡ asked_commands
unfolding asked_all asked chosen_command checked_credential require_client_auth trim_space
    new_admin_credential checked_leaf
requests_test = refl

after_request_log_example :
    ((after_request (panel_env, auth_form panel_form) desk).log ≡ desk.log)
    ⊎ HasSucceeded panel_env (auth_form panel_form) desk
after_request_log_example = after_request_log panel_env (auth_form panel_form) desk

after_all-Refines_example :
    AreAsked requests (asked_all requests)
    × Represents unmark
        (after_all requests bare_desk).settings
        (apply_all (asked_all requests) none none)
after_all-Refines_example =
    after_all-Refines unmark requests bare_desk none
      (subst (All (λ (c : SettingsEnv × Command). IsSealer unmark c.0)) (sym requests_test)
        (marked, (marked, (marked, tt))))
      tt
