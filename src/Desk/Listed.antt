-- ===== src/Desk/Listed.antt =====
-- The pages of the provisioners and of the settings: `getProvisioners` and `getSettings`.
use step_ui_ng.Base.{
  ◌==◌, string_eq, String, List, Bool, Option, ◌∷◌, true, err, [], some, ok, false, none,
}
use step_ui_ng.App.State.{Response, http_error}
use step_ui_ng.Desk.State.{DeskEnv, Desk, pop_texts, settled}
use step_ui_ng.Ca.Net.{Provisioner}
use step_ui_ng.Settings.Store.{View}
use step_ui_ng.Desk.Provisioners.{view_has_admin_auth}
use step_ui_ng.Settings.Repo.{get_settings}
use step_ui_ng.Ca.Provisioners.{list_provisioners}
use step_ui_ng.Acme.Forms.{provisioner_list_error_message}

-- `provisionerRow`
pub record ProvisionerRow : Type 0 where
  pub name : String
  pub kind : String
  pub active : Bool

-- `provisionersView`
pub record ProvisionersView : Type 0 where
  pub provisioners : List ProvisionerRow
  pub selected : String
  pub has_selected_secret : Bool
  pub has_admin_cred : Bool
  pub ca_settings : Bool
  pub list_error : String

-- An error, or a page with its messages; the page of the settings has none before they are saved.
pub data ListAnswer : Type 0 where
  failed_with : Response → ListAnswer
  provisioners_listed : ProvisionersView → String → String → ListAnswer
  settings_page : Option View → String → String → ListAnswer

abbrev pub provisioner_rows : String → List Provisioner → List ProvisionerRow
provisioner_rows selected [] = []
provisioner_rows selected (p ∷ ps) =
    record { name = p.name; kind = p.kind; active = p.name == selected }
    ∷ provisioner_rows selected ps

module _ (w : DeskEnv) where
  abbrev pub view_of_list : View → String → List Provisioner → ProvisionersView
  view_of_list v list_error list = record {
    provisioners = provisioner_rows v.selected_provisioner list;
    selected = v.selected_provisioner;
    has_selected_secret = v.has_selected_secret;
    has_admin_cred = view_has_admin_auth v;
    ca_settings = true;
    list_error = list_error;
  }

  -- The page with the messages that the session had before.
  abbrev pub show_provisioners :
      Desk → View → String → List Provisioner → Desk → Option ListAnswer × Desk
  show_provisioners d v list_error list e = (
    some (provisioners_listed (view_of_list v list_error list) d.session.flash d.session.error),
    e,
  )

  -- `getProvisioners`
  unfoldable pub get_provisioners : Desk → Option ListAnswer × Desk
  get_provisioners d = elim (get_settings w.settings_env d.settings) [
    | err e ↦ (some (failed_with (http_error 500 "internal error")), d)
    | ok none ↦ (
      some (
          provisioners_listed
            record {
              provisioners = [];
              selected = "";
              has_selected_secret = false;
              has_admin_cred = false;
              ca_settings = false;
              list_error = "Configure the CA connection first (CA settings).";
            }
            d.session.flash d.session.error),
      pop_texts d,
    )
    | ok (some v) ↦
        settled (pop_texts d) (list_provisioners w.ca w.fuel v.ca_url v.root_fingerprint d.calls)
          (λ e. show_provisioners d v (provisioner_list_error_message e) [])
          (show_provisioners d v "")
  ]

  -- `getSettings`
  unfoldable pub get_settings_page : Desk → Option ListAnswer × Desk
  get_settings_page d = elim (get_settings w.settings_env d.settings) [
    | err e ↦ (some (failed_with (http_error 500 "internal error")), d)
    | ok found ↦ (some (settings_page found d.session.flash d.session.error), pop_texts d)
  ]
