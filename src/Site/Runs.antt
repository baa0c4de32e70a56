-- ===== src/Site/Runs.antt =====
-- What holds of the whole program whatever requests it gets.
use step_ui_ng.Site.Server.{SiteRoute, site_serve}
use step_ui_ng.Base.{[], ◌∷◌, List, String, Option, ◌<◌, All}
use step_ui_ng.Site.State.{rest_answers, SiteEnv, SiteState, SiteRequest, put_app, Rest}
use step_ui_ng.App.State.{plain_answers, Session, App}
use step_ui_ng.Settings.Spec.{State, Represents, IsSealer}
use step_ui_ng.Users.Invariant.{IsValid}
use step_ui_ng.Desk.State.{Desk}
use step_ui_ng.Users.Table.{superadmins}
use step_ui_ng.Certs.Steps.{IsCustody}

-- Requests, each with the session of the client that sends it.
unfoldable pub serve_all :
    List (Session × SiteEnv × SiteRequest × SiteRoute) → SiteState → SiteState
serve_all [] s = s
serve_all ((session, w, req, route) ∷ rs) s =
    serve_all rs (site_serve w req route (record s { app = record s.app { session = session } })).1

module _ (unseal : String → Option String) where
  -- The accounts are valid and a superadmin can log in, exactly the certificates with a key of the
  -- server have a sealed key, and the row of the settings stands for some settings.
  abbrev pub IsWell : SiteState → Type 0
  IsWell s =
      IsValid s.app.users
      × (0 < superadmins s.app.users.rows)
      × All IsCustody s.certificates.rows
      × ((st : State) × Represents unseal s.settings st)

  module _ (w : SiteEnv) (req : SiteRequest)
      (sealer : IsSealer unseal w.panel.desk_env.settings_env) where
    module _ (s : SiteState) (well : IsWell s) where
      abbrev StaysWell : Rest × App → Type 0
      StaysWell (rest, a) = IsWell (rest (put_app a s)).1
