-- ===== src/Site/State.antt =====
-- What the routes of internal/app/server.go work on, and what they answer.
use step_ui_ng.Base.{Option, List, String}
use step_ui_ng.App.State.{App, AppEnv, Request, Response, Answers}
use step_ui_ng.Desk.State.{Desk, Form}
use step_ui_ng.Certs.Store.{Db, CertTable, CaCall}
use step_ui_ng.Pages.State.{PageEnv, CertForm, CertAnswer}
use step_ui_ng.Settings.Store.{SettingsTable}
use step_ui_ng.Desk.Panel.{PanelEnv, PanelForm, PanelAnswer}
use step_ui_ng.Audit.Log.{LogEnv}
use step_ui_ng.Acme.Forms.{AcmeForm, AcmeAnswer}
use step_ui_ng.Desk.Listed.{ListAnswer}
use step_ui_ng.Base.Int.{ℤ}
use step_ui_ng.Ca.Net.{Call}
use step_ui_ng.Pages.Inventory.{InventoryQuery, InventoryAnswer}
use step_ui_ng.App.AuditPage.{AuditQuery, AuditView}

-- The accounts, the log and the session; the settings; the certificates; and the calls to the CA by its
-- client and by the service of certificates.
pub record SiteState : Type 0 where
  pub app : App
  pub settings : SettingsTable
  pub certificates : CertTable
  pub admin_calls : List Call
  pub cert_calls : List CaCall

-- What one request meets. The settings in `pages` are not used: a request finds those of the site.
pub record SiteEnv : Type 0 where
  pub app : AppEnv
  pub panel : PanelEnv
  pub pages : PageEnv
  pub audit : LogEnv
  pub parse_date : String → Option ℤ
  pub version : String

-- What the handlers read of a request, by the page.
pub record SiteRequest : Type 0 where
  pub account : Request
  pub desk : Form
  pub panel : PanelForm
  pub acme : AcmeForm
  pub cert : CertForm
  pub inventory : InventoryQuery
  pub audit : AuditQuery

-- An answer of one of the pages, or of the health check; `none` says that the CA keeps the request busy for ever.
pub data Reply : Type 0 where
  of_account : Response → Reply
  of_desk : Option Response → Reply
  of_panel : Option PanelAnswer → Reply
  of_list : Option ListAnswer → Reply
  of_acme : Option AcmeAnswer → Reply
  of_page : CertAnswer → Reply
  of_inventory : InventoryAnswer → Reply
  of_audit : Option AuditView → Reply
  health_ok : (version : String) → Reply

-- What a handler does once the guards have let the request through.
abbrev pub Rest : Type 0
Rest = SiteState → Reply × SiteState

instance abbrev pub rest_answers : Answers Rest
rest_answers = record { of_response = λ r s. (of_account r, s) }

abbrev pub put_app : App → SiteState → SiteState
put_app a s = record s { app = a }

abbrev pub desk_of : SiteState → Desk
desk_of s = record {
  settings = s.settings;
  calls = s.admin_calls;
  log = s.app.log;
  session = s.app.session;
}

abbrev pub put_desk : SiteState → Desk → SiteState
put_desk s d = record s {
  app = record s.app { log = d.log; session = d.session };
  settings = d.settings;
  admin_calls = d.calls;
}

abbrev pub db_of : SiteState → Db
db_of s = record { certificates = s.certificates; log = s.app.log; calls = s.cert_calls }

abbrev pub put_db : SiteState → Db → SiteState
put_db s db = record s {
  app = record s.app { log = db.log };
  certificates = db.certificates;
  cert_calls = db.calls;
}

-- The pages for certificates find the settings of the site.
abbrev pub pages_of : SiteEnv → SiteState → PageEnv
pages_of w s = record w.pages { settings = s.settings }

-- A handler of one part, at work on the site.
abbrev pub on_desk : {A : Type 0} → (A → Reply) → (Desk → A × Desk) → Rest
on_desk reply h s = let (a, d) = h (desk_of s) in (reply a, put_desk s d)

abbrev pub on_db : {A : Type 0} → (A → Reply) → (Db → A × Db) → Rest
on_db reply h s = let (a, db) = h (db_of s) in (reply a, put_db s db)
