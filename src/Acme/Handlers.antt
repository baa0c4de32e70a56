-- ===== src/Acme/Handlers.antt =====
-- internal/app/acme.go: the handlers.
use step_ui_ng.Base.{
  String, List, [], ◌∷◌, Bool, true, false, if◌then◌else◌, ◌==◌, string_eq, Option, none, some,
  Result, ok, err, not, ◌&&◌,
}
use step_ui_ng.Base.Text.{concat}
use step_ui_ng.App.State.{redirect, http_error}
use step_ui_ng.Acme.Forms.{
  AcmeForm, AcmeProvRow, EabView, AcmeAnswer, plain, acme_page_of, eab_page_of,
  eab_reference_suffix, acme_audit_details, eab_error_message, admin_auth_missing_message,
  provisioner_list_error_message,
}
use step_ui_ng.Acme.Snippets.{build_snippets}
use step_ui_ng.Desk.State.{Desk, DeskEnv, noted, settled, put_error_text, put_flash_text, pop_texts}
use step_ui_ng.Desk.Provisioners.{
  admin_auth, credential_of_source, provisioner_error_message, view_has_admin_auth,
}
use step_ui_ng.Settings.Store.{View}
use step_ui_ng.Settings.Repo.{get_settings}
use step_ui_ng.Ca.Token.{AdminCredential}
use step_ui_ng.Ca.Fingerprint.{CaError}
use step_ui_ng.Ca.Spec.{NewProvisionerSpec}
use step_ui_ng.Ca.Net.{Call}
use step_ui_ng.Ca.Provisioners.{
  AcmeProvisioner, create_provisioner, delete_provisioner, update_provisioner,
  list_acme_provisioners,
}
use step_ui_ng.Ca.Eab.{EabKey, create_eab_key, delete_eab_key, list_eab_keys, directory_url}

abbrev pub Answer : Type 0
Answer = Option AcmeAnswer × Desk

abbrev pub back_to : String → Desk → Answer
back_to path d = (some (plain (redirect path)), d)

abbrev pub refuse_to : String → String → Desk → Answer
refuse_to path text d = back_to path (put_error_text text d)

abbrev pub rows_of : String → (String → String → String) → List AcmeProvisioner → List AcmeProvRow
rows_of url directory [] = []
rows_of url directory (p ∷ ps) =
    record {
      name = p.name;
      directory_url = directory url p.name;
      challenges = p.challenges;
      require_eab = p.require_eab;
    }
    ∷ rows_of url directory ps

-- The entry of a name, or the zero value with that name.
abbrev pub options_named : String → List AcmeProvisioner → AcmeProvisioner
options_named name [] = record { name = name; challenges = []; require_eab = false }
options_named name (p ∷ ps) = let rest = options_named name ps in if p.name == name then p else rest

abbrev pub eab_path : String → String
eab_path provisioner = concat ("/acme/eab/" ∷ provisioner ∷ [])

-- What the form carries instead of the current options.
unfoldable pub edited_spec : AcmeForm → AcmeProvisioner → NewProvisionerSpec
edited_spec f current = record {
  name = f.path_name;
  kind = "ACME";
  jwk_secret = "";
  acme_challenges = elim f.challenges [ none ↦ current.challenges | some cs ↦ cs ];
  acme_require_eab =
      if not (f.require_eab_present == "") then f.require_eab == "on" else current.require_eab;
}

abbrev pub listed_or_none : Option (List String) → List String
listed_or_none none = []
listed_or_none (some cs) = cs

unfoldable pub created_spec : AcmeForm → NewProvisionerSpec
created_spec f = record {
  name = f.name;
  kind = "ACME";
  jwk_secret = "";
  acme_challenges = listed_or_none f.challenges;
  acme_require_eab = f.require_eab == "on";
}

-- What a handler says and records at its end.
pub record Report : Type 0 where
  pub path : String
  pub message : CaError → String
  pub text : String
  pub actor : String
  pub event : String
  pub target : String
  pub details : String

abbrev pub creation_report : String → AcmeForm → Report
creation_report hint f = record {
  path = "/acme";
  message = provisioner_error_message hint;
  text = "ACME provisioner created.";
  actor = f.actor;
  event = "acme.provisioner.create";
  target = f.name;
  details = acme_audit_details (listed_or_none f.challenges) (f.require_eab == "on");
}

abbrev pub deletion_report : String → AcmeForm → Report
deletion_report hint f = record {
  path = "/acme";
  message = provisioner_error_message hint;
  text = "ACME provisioner deleted.";
  actor = f.actor;
  event = "acme.provisioner.delete";
  target = f.path_name;
  details = "";
}

abbrev pub update_report : String → AcmeForm → NewProvisionerSpec → Report
update_report hint f spec = record {
  path = "/acme";
  message = provisioner_error_message hint;
  text = "ACME provisioner updated.";
  actor = f.actor;
  event = "acme.provisioner.update";
  target = f.path_name;
  details = acme_audit_details spec.acme_challenges spec.acme_require_eab;
}

abbrev pub revocation_report : AcmeForm → Report
revocation_report f = record {
  path = eab_path f.path_name;
  message = eab_error_message;
  text = "EAB key revoked.";
  actor = f.actor;
  event = "acme.eab.revoke";
  target = f.path_name;
  details = concat ("keyID=" ∷ f.key_id ∷ []);
}

module _ (w : DeskEnv) where
  -- `acmeAdminContext`, and what a handler does with the settings and the credential.
  unfoldable pub acme_admin_context : (View → AdminCredential → Desk → Answer) → Desk → Answer
  acme_admin_context next d = elim (get_settings w.settings_env d.settings) [
    | err e ↦ (some (plain (http_error 500 "internal error")), d)
    | ok none ↦ refuse_to "/acme" "Configure the CA connection first." d
    | ok (some v) ↦ elim (admin_auth w v d.settings) [
      | err e ↦ refuse_to "/acme" "Could not load the admin credential." d
      | ok none ↦ refuse_to "/acme" admin_auth_missing_message d
      | ok (some (err e)) ↦ refuse_to "/acme" "Could not load the admin credential." d
      | ok (some (ok source)) ↦
          settled d (credential_of_source w source d.calls)
            (λ e. refuse_to "/acme" (eab_error_message e)) (next v)
    ]
  ]

  -- `currentACMEOptions`, and what a handler does with them.
  unfoldable pub current_acme_options :
      View → String → (AcmeProvisioner → Desk → Answer) → Desk → Answer
  current_acme_options v name next d =
      settled d (list_acme_provisioners w.ca w.fuel v.ca_url v.root_fingerprint d.calls)
        (λ e. next (options_named name [])) (λ list. next (options_named name list))

  -- A success with its message and its event, or the message of a failure, and then the redirect.
  abbrev pub finished {ℓ} : {A : Type ℓ} → Report → Desk → Result CaError A × List Call → Answer
  finished r d (err e, l) = refuse_to r.path (r.message e) (record d { calls = l })
  finished r d (ok a, l) =
      back_to r.path (
        noted w r.actor r.event r.target r.details (put_flash_text r.text (record d { calls = l })))

  -- `postACMEProvisioners`
  unfoldable pub post_acme_provisioners : AcmeForm → Desk → Answer
  post_acme_provisioners f = acme_admin_context (λ v cred d.
      finished (creation_report w.hint f) d
        (create_provisioner w.ca v.ca_url v.root_fingerprint cred (created_spec f) d.calls))

  abbrev pub deleting : AcmeForm → View → AdminCredential → Desk → Answer
  deleting f v cred d =
      finished (deletion_report w.hint f) d
        (delete_provisioner w.ca v.ca_url v.root_fingerprint cred f.path_name d.calls)

  abbrev pub updating : AcmeForm → View → AdminCredential → AcmeProvisioner → Desk → Answer
  updating f v cred current d =
      finished (update_report w.hint f (edited_spec f current)) d
        (update_provisioner w.ca v.ca_url v.root_fingerprint cred (edited_spec f current) d.calls)

  -- `postACMEProvisioner`
  unfoldable pub post_acme_provisioner : AcmeForm → Desk → Answer
  post_acme_provisioner f d =
      if not (f.action == "delete") && not (f.action == "edit")
      then (some (plain (http_error 400 "unknown action")), d)
      else acme_admin_context
          (λ v cred e.
            if f.action == "delete"
            then deleting f v cred e
            else current_acme_options v f.path_name (updating f v cred) e)
          d

  abbrev pub revoking : AcmeForm → View → AdminCredential → Desk → Answer
  revoking f v cred d =
      finished (revocation_report f) d
        (delete_eab_key w.ca v.ca_url v.root_fingerprint cred f.path_name f.key_id d.calls)

  -- The page that shows a new key once; an error of the list leaves it out.
  abbrev pub created_view : AcmeForm → View → EabKey → List EabKey → EabView
  created_view f v key keys =
      let url = directory_url w.ca v.ca_url f.path_name in
      record {
        provisioner = f.path_name;
        directory_url = url;
        keys = keys;
        has_admin_cred = true;
        list_error = "";
        snippets = build_snippets url true key.key_id key.hmac;
        require_eab = true;
        created = some (record { key_id = key.key_id; hmac = key.hmac });
      }

  abbrev pub show_created : AcmeForm → View → EabKey → List EabKey → Desk → Answer
  show_created f v key keys d = (some (eab_page_of (created_view f v key keys) "" "" true), d)

  abbrev pub after_creation :
      AcmeForm → View → AdminCredential → Desk → Result CaError EabKey × List Call → Answer
  after_creation f v cred d (err e, l) =
      refuse_to (eab_path f.path_name) (eab_error_message e) (record d { calls = l })
  after_creation f v cred d (ok key, l) =
      let d' =
        noted w f.actor "acme.eab.create" f.path_name
          (concat ("keyID=" ∷ key.key_id ∷ eab_reference_suffix f.reference ∷ []))
          (record d { calls = l }) in
      settled d' (list_eab_keys w.ca w.fuel v.ca_url v.root_fingerprint cred f.path_name d'.calls)
        (λ e. show_created f v key []) (show_created f v key)

  -- `postEAB`
  unfoldable pub post_eab : AcmeForm → Desk → Answer
  post_eab f = acme_admin_context (λ v cred d.
      if f.action == "delete"
      then revoking f v cred d
      else after_creation f v cred d
          (create_eab_key w.ca v.ca_url v.root_fingerprint cred f.path_name f.reference d.calls))

  abbrev pub show_acme : View → String → List AcmeProvisioner → Desk → Answer
  show_acme v list_error list d = (
    some (
        acme_page_of
          record {
            provisioners = rows_of v.ca_url (directory_url w.ca) list;
            has_admin_cred = view_has_admin_auth v;
            ca_settings = true;
            list_error = list_error;
          }
          d.session.flash d.session.error),
    pop_texts d,
  )

  -- `getACME`
  unfoldable pub get_acme : Desk → Answer
  get_acme d = elim (get_settings w.settings_env d.settings) [
    | err e ↦ (some (plain (http_error 500 "internal error")), d)
    | ok none ↦ (
      some (
          acme_page_of
            record {
              provisioners = [];
              has_admin_cred = false;
              ca_settings = false;
              list_error = "Configure the CA connection first (CA settings).";
            }
            d.session.flash d.session.error),
      pop_texts d,
    )
    | ok (some v) ↦
        settled d (list_acme_provisioners w.ca w.fuel v.ca_url v.root_fingerprint d.calls)
          (λ e. show_acme v (provisioner_list_error_message e) []) (show_acme v "")
  ]

  abbrev pub eab_view_of : String → View → Bool → String → List EabKey → EabView
  eab_view_of provisioner v require_eab list_error keys =
      let url = directory_url w.ca v.ca_url provisioner in
      record {
        provisioner = provisioner;
        directory_url = url;
        keys = keys;
        has_admin_cred = view_has_admin_auth v;
        list_error = list_error;
        snippets = build_snippets url require_eab "" "";
        require_eab = require_eab;
        created = none;
      }

  abbrev pub show_eab : String → View → Bool → String → List EabKey → Desk → Answer
  show_eab provisioner v require_eab list_error keys d = (
    some (
        eab_page_of (eab_view_of provisioner v require_eab list_error keys) d.session.flash
          d.session.error false),
    pop_texts d,
  )

  -- The keys of a provisioner, with the credential of the admin.
  unfoldable pub with_keys : String → View → AcmeProvisioner → Desk → Answer
  with_keys provisioner v current d =
      let show = show_eab provisioner v current.require_eab in
      if not (view_has_admin_auth v) then show "" [] d else elim (admin_auth w v d.settings) [
        | err e ↦ show admin_auth_missing_message [] d
        | ok none ↦ show admin_auth_missing_message [] d
        | ok (some (err e)) ↦ show admin_auth_missing_message [] d
        | ok (some (ok source)) ↦
            settled d (credential_of_source w source d.calls) (λ e. show (eab_error_message e) [])
              (λ cred d'.
                settled d'
                  (list_eab_keys w.ca w.fuel v.ca_url v.root_fingerprint cred provisioner d'.calls)
                  (λ e. show (eab_error_message e) []) (λ keys. show "" keys))
      ]

  -- `getEAB`
  unfoldable pub get_eab : String → Desk → Answer
  get_eab provisioner d = elim (get_settings w.settings_env d.settings) [
    | err e ↦ (some (plain (http_error 500 "internal error")), d)
    | ok none ↦ (
      some (
          eab_page_of
            record {
              provisioner = provisioner;
              directory_url = "";
              keys = [];
              has_admin_cred = false;
              list_error = "Configure the CA connection first (CA settings).";
              snippets = [];
              require_eab = false;
              created = none;
            }
            d.session.flash d.session.error false),
      pop_texts d,
    )
    | ok (some v) ↦ current_acme_options v provisioner (with_keys provisioner v) d
  ]
