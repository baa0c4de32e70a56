-- ===== src/Desk/Asked.antt =====
-- Which operation of internal/settings a request to the pages of internal/app/settings.go asks for, as
-- the handlers choose it and as the forms say.
use step_ui_ng.Desk.State.{Form}
use step_ui_ng.Desk.Panel.{
  PanelEnv, PanelForm, chosen_command, checked_credential, require_client_auth,
  x5c_credential_error_message,
}
use step_ui_ng.Settings.Store.{SettingsEnv}
use step_ui_ng.Settings.Spec.{
  Command, save_connection, select_name, set_jwk, clear_auth, upload_credential,
}
use step_ui_ng.Base.Text.{trim_space}
use step_ui_ng.Ca.Token.{AdminCredential, new_admin_credential}
use step_ui_ng.Base.{
  String, List, [], ◌∷◌, Option, none, some, Result, ok, err, ◌≡◌, ◌≢◌, ◌⊎◌, inl, inr, refl,
  Result-cases, Bool-cases, ◌==◌, string_eq, eq_iff, sym, ◌∙◌, arith, ◌||◌, true, false,
}

-- The requests that these pages send.
pub data PanelRequest : Type 0 where
  save_form auth_form : PanelForm → PanelRequest
  test_form : PanelRequest
  select_form : Form → PanelRequest

abbrev pub ok_or_none : Result String Command → Option Command
ok_or_none (err text) = none
ok_or_none (ok command) = some command

-- The operation of the settings that the handler of a request performs, if it is not refused.
unfoldable pub asked : PanelEnv → PanelRequest → Option Command
asked w (save_form f) =
    some (save_connection record { ca_url = f.ca_url; root_fingerprint = f.root_fingerprint })
asked w (auth_form f) = ok_or_none (chosen_command w f)
asked w test_form = none
asked w (select_form f) = some (select_name f.name f.secret)

abbrev pub prepend :
    SettingsEnv → Option Command → List (SettingsEnv × Command) → List (SettingsEnv × Command)
prepend env none l = l
prepend env (some command) l = (env, command) ∷ l

-- The operations that the requests lead to.
unfoldable pub asked_all : List (PanelEnv × PanelRequest) → List (SettingsEnv × Command)
asked_all [] = []
asked_all ((w, q) ∷ qs) = prepend w.desk_env.settings_env (asked w q) (asked_all qs)

-- The certificate and the key of a form are a credential that a client may use.
abbrev pub IsUsable : PanelEnv → PanelForm → Type 0
IsUsable w f =
    (trim_space f.cert ≢ "")
    × (trim_space f.key ≢ "")
    × ((cred : AdminCredential) × (new_admin_credential w.desk_env.ca (trim_space f.cert)
            (trim_space f.key)
          ≡ ok cred))
    × (require_client_auth (w.first_block (trim_space f.cert)) ≡ ok tt)

-- What the form for the admin authentication says: the method without blanks around it, and the
-- fields that belong to it.
abbrev pub AuthAsks : PanelEnv → PanelForm → Option Command → Type 0
AuthAsks w f o =
    ((trim_space f.method ≡ "jwk") × (o ≡ some (set_jwk f.subject f.provisioner f.password)))
    ⊎ ((trim_space f.method ≡ "none") × (o ≡ some clear_auth))
    ⊎ ((trim_space f.method ≡ "x5c")
        × (IsUsable w f × (o ≡ some (upload_credential (trim_space f.cert) (trim_space f.key)))
            ⊎ (IsUsable w f → ⊥) × (o ≡ none)))
    ⊎ ((trim_space f.method ≢ "jwk")
        × (trim_space f.method ≢ "none")
        × (trim_space f.method ≢ "x5c")
        × (o ≡ none))

abbrev pub Asks : PanelEnv → PanelRequest → Option Command → Type 0
Asks w (save_form f) o =
    o ≡ some (save_connection record { ca_url = f.ca_url; root_fingerprint = f.root_fingerprint })
Asks w (auth_form f) o = AuthAsks w f o
Asks w test_form o = o ≡ none
Asks w (select_form f) o = o ≡ some (select_name f.name f.secret)

-- The list has the operations that the requests ask for, in their order, each in the environment of
-- its request.
unfoldable pub AreAsked : List (PanelEnv × PanelRequest) → List (SettingsEnv × Command) → Type 0
AreAsked [] l = l ≡ []
AreAsked ((w, q) ∷ qs) l =
    (o : Option Command) × (rest : List (SettingsEnv × Command)) × Asks w q o
    × (l ≡ prepend w.desk_env.settings_env o rest)
    × AreAsked qs rest

eq_of : {s t : String} → (s == t) ≡ true → s ≡ t
eq_of {s} {t} h = ground (arith, eq_iff s t)

ne_of : {s t : String} → (s == t) ≡ false → s ≢ t
ne_of {s} {t} h = ground (arith, eq_iff s t)

-- The credential is accepted exactly if it is usable, and then it is stored without blanks around it.
checked_lem :
    (w : PanelEnv) (f : PanelForm)
    → (IsUsable w f × (checked_credential w f ≡ ok (trim_space f.cert, trim_space f.key)))
      ⊎ (IsUsable w f → ⊥) × ((text : String) × (checked_credential w f ≡ err text))
unfolding checked_credential
checked_lem w f =
    let cert = trim_space f.cert in
    let key = trim_space f.key in
    elim (Bool-cases (cert == "" || key == "")) [
      | inl x ↦ inr (
        (λ u. ground (arith, x, u.0, u.1, eq_iff cert "", eq_iff key "")),
        (
          "Certificate and key are required for x5c authentication.",
          rw (checked_credential, x) refl,
        ),
      )
      | inr x ↦ elim (Result-cases (new_admin_credential w.desk_env.ca cert key)) [
        | inl (e, y) ↦ inr (
          (λ (_, _, (cred, z), _). cc (sym y ∙ z)),
          (x5c_credential_error_message w.credential_detail e, rw (checked_credential, x, y) refl),
        )
        | inr (cred, y) ↦ elim (Result-cases (require_client_auth (w.first_block cert))) [
          | inl (text, z) ↦
              inr ((λ (_, _, _, v). cc (sym z ∙ v)), (text, rw (checked_credential, x, y, z) refl))
          | inr (u, z) ↦ inl (
            (ground (arith, eq_iff cert ""), ground (arith, eq_iff key ""), (cred, y), z),
            rw (checked_credential, x, y, z) refl,
          )
        ]
      ]
    ]

auth-Asks : (w : PanelEnv) (f : PanelForm) → AuthAsks w f (ok_or_none (chosen_command w f))
unfolding chosen_command
auth-Asks w f =
    let method = trim_space f.method in
    elim (Bool-cases (method == "jwk")) [
      | inl x ↦ inl (eq_of x, rw (chosen_command, x) refl)
      | inr x ↦ elim (Bool-cases (method == "none")) [
        | inl y ↦ inr (inl (eq_of y, rw (chosen_command, x, y) refl))
        | inr y ↦ elim (Bool-cases (method == "x5c")) [
          | inr z ↦ inr (inr (inr (ne_of x, ne_of y, ne_of z, rw (chosen_command, x, y, z) refl)))
          | inl z ↦ inr (
              inr (
                inl (
                  eq_of z,
                  elim (checked_lem w f) [
                    | inl (u, e) ↦ inl (u, rw (chosen_command, x, y, z, e) refl)
                    | inr (u, (text, e)) ↦ inr (u, rw (chosen_command, x, y, z, e) refl)
                  ],
                )))
        ]
      ]
    ]

pub asked-Asks : (w : PanelEnv) (q : PanelRequest) → Asks w q (asked w q)
unfolding asked
asked-Asks w (save_form f) = refl
asked-Asks w (auth_form f) = auth-Asks w f
asked-Asks w test_form = refl
asked-Asks w (select_form f) = refl

pub asked_all-AreAsked : (qs : List (PanelEnv × PanelRequest)) → AreAsked qs (asked_all qs)
unfolding asked_all AreAsked
asked_all-AreAsked [] = refl
asked_all-AreAsked ((w, q) ∷ qs) =
    (asked w q, asked_all qs, asked-Asks w q, refl, asked_all-AreAsked qs)
