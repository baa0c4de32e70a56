-- ===== src/Desk/Requests.antt =====
-- The pages of the settings and of the active provisioner, and what internal/settings promises.
use step_ui_ng.Base.{
  String, List, [], ◌∷◌, true, Option, none, some, Result, ok, err, ◌≡◌, refl, All, sym, subst,
  Result-cases, inl, inr, ◌⊎◌, ap, ◌∙◌,
}
use step_ui_ng.Desk.State.{Desk, Form, DeskEnv}
use step_ui_ng.Desk.Provisioners.{post_provisioner_select, selected}
use step_ui_ng.Desk.Panel.{
  PanelEnv, PanelForm, post_settings, post_admin_auth, post_settings_test, chosen_command, saved,
  admin_auth_error_message, confirmation, details_of, settings_error_message, tested,
}
use step_ui_ng.Desk.Asked.{
  PanelRequest, save_form, auth_form, test_form, select_form, asked, asked_all, ok_or_none,
  AreAsked, asked_all-AreAsked,
}
use step_ui_ng.Settings.Store.{SettingsEnv, SettingsError, SettingsTable}
use step_ui_ng.Settings.Repo.{get_settings, Outcome}
use step_ui_ng.Settings.Spec.{Command, State, IsSealer, Represents, perform}
use step_ui_ng.Settings.History.{perform_all, apply_all, perform_all-Refines, succeeded}
use step_ui_ng.Ca.Pinned.{test_connection}
use step_ui_ng.Ca.Fingerprint.{CaError}
use step_ui_ng.Ca.Net.{Call}
use step_ui_ng.Base.Text.{concat}

-- The state after a request.
unfoldable pub after_request : PanelEnv × PanelRequest → Desk → Desk
after_request (w, save_form f) d = (post_settings w f d).1
after_request (w, auth_form f) d = (post_admin_auth w f d).1
after_request (w, test_form) d = (post_settings_test w d).1
after_request (w, select_form f) d = (post_provisioner_select w.desk_env f d).1

abbrev pub performed : SettingsEnv → Option Command → SettingsTable → SettingsTable
performed env none t = t
performed env (some command) t = (perform env command t).1

unfoldable pub after_all : List (PanelEnv × PanelRequest) → Desk → Desk
after_all [] d = d
after_all (q ∷ qs) d = after_all qs (after_request q d)

saved-settings :
    (w : PanelEnv) (message : SettingsError → String) (text actor event target details : String)
    (o : Outcome) (d : Desk)
    → (saved w message text actor event target details o d).1.settings ≡ o.1
saved-settings w message text actor event target details (err e, t) d = refl
saved-settings w message text actor event target details (ok u, t) d = refl

auth-settings :
    (w : PanelEnv) (f : PanelForm) (d : Desk) (r : Result String Command)
    → chosen_command w f ≡ r
    → (post_admin_auth w f d).1.settings
      ≡ performed w.desk_env.settings_env (ok_or_none r) d.settings
unfolding post_admin_auth
auth-settings w f d (err text) h = rw (post_admin_auth, h) refl
auth-settings w f d (ok command) h =
    rw (post_admin_auth, h)
      (saved-settings w _ _ _ _ _ _ (perform w.desk_env.settings_env command d.settings) d)

-- A test changes neither the settings nor the log.
tested-same :
    (w : PanelEnv) (d : Desk) (o : Result CaError (List String) × List Call)
    → ((tested w d o).1.settings ≡ d.settings) × ((tested w d o).1.log ≡ d.log)
tested-same w d (err e, l) = (refl, refl)
tested-same w d (ok roots, l) = (refl, refl)

test-same :
    (w : PanelEnv) (d : Desk)
    → ((post_settings_test w d).1.settings ≡ d.settings) × ((post_settings_test w d).1.log ≡ d.log)
unfolding post_settings_test
test-same w d = elim (Result-cases (get_settings w.desk_env.settings_env d.settings)) [
  | inl (e, x) ↦ rw (post_settings_test, x) (refl, refl)
  | inr (none, x) ↦ rw (post_settings_test, x) (refl, refl)
  | inr (some v, x) ↦
      rw (post_settings_test, x)
        (tested-same w d (test_connection w.desk_env.ca v.ca_url v.root_fingerprint d.calls))
]

selected-settings :
    (w : DeskEnv) (f : Form) (o : Outcome) (d : Desk) → (selected w f o d).1.settings ≡ o.1
selected-settings w f (err e, t) d = refl
selected-settings w f (ok u, t) d = refl

selected-log :
    (w : DeskEnv) (f : Form) (o : Outcome) (d : Desk)
    → ((selected w f o d).1.log ≡ d.log) ⊎ (succeeded o.0 ≡ true)
selected-log w f (err e, t) d = inl refl
selected-log w f (ok u, t) d = inr refl

pub after_request-settings :
    (w : PanelEnv) (q : PanelRequest) (d : Desk)
    → (after_request (w, q) d).settings ≡ performed w.desk_env.settings_env (asked w q) d.settings
unfolding after_request asked post_settings post_provisioner_select perform
after_request-settings w (save_form f) d = saved-settings w _ _ _ _ _ _ _ d
after_request-settings w (auth_form f) d = auth-settings w f d (chosen_command w f) refl
after_request-settings w test_form d = (test-same w d).0
after_request-settings w (select_form f) d = selected-settings w.desk_env f _ d

perform_all-asked :
    (w : PanelEnv) (q : PanelRequest) (qs : List (PanelEnv × PanelRequest)) (t : SettingsTable)
    (o : Option Command)
    → asked w q ≡ o
    → perform_all (asked_all ((w, q) ∷ qs)) t
      ≡ perform_all (asked_all qs) (performed w.desk_env.settings_env o t)
unfolding asked_all perform_all
perform_all-asked w q qs t none h = rw (asked_all, h) refl
perform_all-asked w q qs t (some command) h = rw (asked_all, h) refl

after_all-settings :
    (qs : List (PanelEnv × PanelRequest)) (d : Desk)
    → (after_all qs d).settings ≡ perform_all (asked_all qs) d.settings
unfolding after_all asked_all perform_all
after_all-settings [] d = refl
after_all-settings ((w, q) ∷ qs) d =
    after_all-settings qs (after_request (w, q) d)
    ∙ ap (perform_all (asked_all qs)) (after_request-settings w q d)
    ∙ sym (perform_all-asked w q qs d.settings (asked w q) refl)

-- If the box of every request that leads to an operation opens what it sealed, and the stored row
-- stands for some settings: whatever requests the pages of the settings and of the active provisioner
-- send, the operations that they lead to are, in their order, those that the forms ask for, which for
-- the admin authentication are given by the method without blanks around it and by whether the
-- certificate and the key are usable. Whichever of them fail, the row afterwards stands for the
-- settings that the specification computes from these operations.
pub after_all-Refines :
    (unseal : String → Option String) (qs : List (PanelEnv × PanelRequest)) (d : Desk) (s : State)
    → All (λ c. IsSealer unseal c.0) (asked_all qs)
    → Represents unseal d.settings s
    → AreAsked qs (asked_all qs)
      × Represents unseal (after_all qs d).settings (apply_all (asked_all qs) d.settings s)
after_all-Refines unseal qs d s sealers h = (
  asked_all-AreAsked qs,
  subst (λ t. Represents unseal t (apply_all (asked_all qs) d.settings s))
      (sym (after_all-settings qs d))
      (perform_all-Refines unseal (asked_all qs) d.settings s sealers h),
)

-- The operation that a request asks for has succeeded.
abbrev pub HasSucceeded : PanelEnv → PanelRequest → Desk → Type 0
HasSucceeded w q d =
    (command : Command) × (asked w q ≡ some command)
    × (succeeded (perform w.desk_env.settings_env command d.settings).0 ≡ true)

saved-log :
    (w : PanelEnv) (message : SettingsError → String) (text actor event target details : String)
    (o : Outcome) (d : Desk)
    → ((saved w message text actor event target details o d).1.log ≡ d.log) ⊎ (succeeded o.0 ≡ true)
saved-log w message text actor event target details (err e, t) d = inl refl
saved-log w message text actor event target details (ok u, t) d = inr refl

auth-log :
    (w : PanelEnv) (f : PanelForm) (d : Desk) (r : Result String Command)
    → chosen_command w f ≡ r
    → ((post_admin_auth w f d).1.log ≡ d.log) ⊎ HasSucceeded w (auth_form f) d
unfolding post_admin_auth asked
auth-log w f d (err text) h = rw (post_admin_auth, h) (inl refl)
auth-log w f d (ok command) h =
    let o = perform w.desk_env.settings_env command d.settings in
    elim (saved-log w admin_auth_error_message (confirmation w f) f.actor "settings.admin_auth"
      "admin_auth" (details_of w f) o d) [
        | inl e ↦ inl (rw (post_admin_auth, h) e)
        | inr e ↦ inr (command, ap ok_or_none h, e)
      ]

map_right {ℓ κ μ} : {A : Type ℓ} {B : Type κ} {C : Type μ} → (B → C) → A ⊎ B → A ⊎ C
map_right f (inl a) = inl a
map_right f (inr b) = inr (f b)

-- A request to the pages of the settings and of the active provisioner leaves the audit log as it
-- was, unless it asks for an operation that is not refused and that succeeds.
pub after_request_log :
    (w : PanelEnv) (q : PanelRequest) (d : Desk)
    → ((after_request (w, q) d).log ≡ d.log) ⊎ HasSucceeded w q d
unfolding after_request post_settings post_settings_test asked post_provisioner_select perform
after_request_log w (save_form f) d =
    map_right (λ e. (_, refl, e))
      (saved-log w settings_error_message "CA settings saved." f.actor "settings.update"
        "ca_settings" (concat ("ca_url=" ∷ f.ca_url ∷ [])) _ d)
after_request_log w (auth_form f) d = auth-log w f d (chosen_command w f) refl
after_request_log w test_form d = inl (test-same w d).1
after_request_log w (select_form f) d =
    map_right (λ e. (_, refl, e)) (selected-log w.desk_env f _ d)
