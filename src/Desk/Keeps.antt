-- ===== src/Desk/Keeps.antt =====
-- The parts of a handler keep the calls to the CA guarded.
use step_ui_ng.Desk.State.{Desk, DeskEnv, Form, Answer, settled}
use step_ui_ng.Base.{
  String, Result, List, Option, ◌≡◌, ok, err, some, Result-cases, inl, none, inr, subst, sym, ◌⊎◌,
  ◌≢◌, ap, refl, string_eq,
}
use step_ui_ng.Ca.Vouched.{AreGuarded}
use step_ui_ng.Desk.Provisioners.{
  AdminSource, credential_of_source, admin_auth, with_credential, stored, minted, text_of_error,
  stored_source, minted_source, stored_of, with_settings, deleted, created,
}
use step_ui_ng.Ca.Fingerprint.{CaError, normalize_fingerprint}
use step_ui_ng.Settings.Store.{
  View, SettingsTable, AdminAuthMethod, SettingsError, auth_x5c, auth_jwk, auth_none,
}
use step_ui_ng.Ca.Token.{AdminCredential, new_admin_credential}
use step_ui_ng.Ca.Net.{Call, Provisioner}
use step_ui_ng.Ca.Trusted.{minted-Sound}
use step_ui_ng.Certs.World.{SignRequest}
use step_ui_ng.Settings.Repo.{read_admin_credential, read_jwk_password, get_settings}

stored_of_lem :
    (r : Result CaError AdminCredential) (p : SignRequest) (subject : String)
    → stored_of r ≢ ok (minted p subject)
stored_of_lem (err e) p subject h = cc h
stored_of_lem (ok cred) p subject h = cc h

method_cases : (m : AdminAuthMethod) → (m ≡ auth_x5c) ⊎ (m ≡ auth_jwk) ⊎ (m ≡ auth_none)
method_cases auth_x5c = inl refl
method_cases auth_jwk = inr (inl refl)
method_cases auth_none = inr (inr refl)

module _ (w : DeskEnv) (want : String) where
  -- A handler keeps the calls to the CA guarded.
  unfoldable pub KeepsCalls : {R : Type 0} → (Desk → Option R × Desk) → Type 0
  KeepsCalls k = (d : Desk) → AreGuarded w.ca want d.calls → AreGuarded w.ca want (k d).1.calls

  pub settled-KeepsCalls {ℓ} :
      {A : Type ℓ} {R : Type 0} (d : Desk) (o : Result CaError (Option A) × List Call)
      (fail : CaError → Desk → Option R × Desk) (next : A → Desk → Option R × Desk)
      → AreGuarded w.ca want o.1
      → ((e : CaError) → KeepsCalls (fail e))
      → ((a : A) → KeepsCalls (next a))
      → AreGuarded w.ca want (settled d o fail next).1.calls
  unfolding KeepsCalls
  settled-KeepsCalls d (err e, l) fail next g f n = f e (record d { calls = l }) g
  settled-KeepsCalls d (ok none, l) fail next g f n = g
  settled-KeepsCalls d (ok (some a), l) fail next g f n = n a (record d { calls = l }) g

  -- A minted credential is asked for over a connection with the wanted sum.
  pub Agrees : AdminSource → Type 0
  Agrees (stored cred) = Unit
  Agrees (minted p subject) = (a : String) → normalize_fingerprint p.fingerprint ≡ ok a → a ≡ want

  pub source-calls :
      (source : AdminSource) (l : List Call)
      → AreGuarded w.ca want l
      → Agrees source
      → AreGuarded w.ca want (credential_of_source w source l).1
  unfolding credential_of_source Agrees
  source-calls (stored cred) l g a = g
  source-calls (minted p subject) l g a =
      (minted-Sound w.ca want w.fuel p w.ephemeral subject a).kept l g

  stored_source_lem :
      (r : Result SettingsError (Option (String × String))) (p : SignRequest) (subject : String)
      → stored_source w r ≢ ok (some (ok (minted p subject)))
  stored_source_lem (err e) p subject h = cc h
  stored_source_lem (ok none) p subject h = cc h
  stored_source_lem (ok (some (cert, key))) p subject h =
      stored_of_lem (new_admin_credential w.ca cert key) p subject (cc h)

  minted_source-fingerprint :
      (v : View) (r : Result SettingsError (Option String)) (p : SignRequest) (subject : String)
      → minted_source w v r ≡ ok (some (ok (minted p subject)))
      → p.fingerprint ≡ v.root_fingerprint
  minted_source-fingerprint v (err e) p subject h = absurd (cc h)
  minted_source-fingerprint v (ok none) p subject h = absurd (cc h)
  minted_source-fingerprint v (ok (some password)) p subject h = ap (λ q. q) (cc h)

  source-fingerprint :
      (v : View) (t : SettingsTable) (p : SignRequest) (subject : String)
      → admin_auth w v t ≡ ok (some (ok (minted p subject)))
      → p.fingerprint ≡ v.root_fingerprint
  unfolding admin_auth
  source-fingerprint v t p subject h = elim (method_cases v.admin_auth_method) [
    | inl x ↦ absurd (
        stored_source_lem (read_admin_credential w.settings_env t) p subject (
          subst
            (λ m.
              elim m [
                | auth_x5c ↦ stored_source w (read_admin_credential w.settings_env t)
                | auth_jwk ↦ minted_source w v (read_jwk_password w.settings_env t)
                | auth_none ↦ ok none
              ]
              ≡ ok (some (ok (minted p subject))))
            x h))
    | inr (inl x) ↦ minted_source-fingerprint v (read_jwk_password w.settings_env t) p subject (
        subst
          (λ m.
            elim m [
              | auth_x5c ↦ stored_source w (read_admin_credential w.settings_env t)
              | auth_jwk ↦ minted_source w v (read_jwk_password w.settings_env t)
              | auth_none ↦ ok none
            ]
            ≡ ok (some (ok (minted p subject))))
          x h)
    | inr (inr x) ↦ absurd (
        cc (
          subst
            (λ m.
              elim m [
                | auth_x5c ↦ stored_source w (read_admin_credential w.settings_env t)
                | auth_jwk ↦ minted_source w v (read_jwk_password w.settings_env t)
                | auth_none ↦ ok none
              ]
              ≡ ok (some (ok (minted p subject))))
            x h))
  ]

  -- The sources that the settings give.
  pub admin_auth-Agrees :
      (v : View) (t : SettingsTable) (source : AdminSource)
      → ((a : String) → normalize_fingerprint v.root_fingerprint ≡ ok a → a ≡ want)
      → admin_auth w v t ≡ ok (some (ok source))
      → Agrees source
  unfolding admin_auth Agrees
  admin_auth-Agrees v t (stored cred) agrees h = tt
  admin_auth-Agrees v t (minted p subject) agrees h =
      subst (λ f. (a : String) → normalize_fingerprint f ≡ ok a → a ≡ want)
        (sym (source-fingerprint v t p subject h)) agrees

  pub with_credential-KeepsCalls :
      (v : View) (next : AdminCredential → Desk → Answer)
      → ((a : String) → normalize_fingerprint v.root_fingerprint ≡ ok a → a ≡ want)
      → ((cred : AdminCredential) → KeepsCalls (next cred))
      → KeepsCalls (with_credential w v next)
  unfolding with_credential KeepsCalls
  with_credential-KeepsCalls v next agrees keeps d g =
      elim (Result-cases (admin_auth w v d.settings)) [
        | inl (e, x) ↦ rw (with_credential, x) g
        | inr (none, x) ↦ rw (with_credential, x) g
        | inr (some (err e), x) ↦ rw (with_credential, x) g
        | inr (some (ok source), x) ↦
            rw (with_credential, x)
              (settled-KeepsCalls d (credential_of_source w source d.calls) (text_of_error w) next
                (source-calls source d.calls g (admin_auth-Agrees v d.settings source agrees x))
                (λ e d' g'. g') keeps)
      ]

  -- A handler that has read the settings.
  pub with_settings-KeepsCalls :
      (next : View → Desk → Answer)
      → (d : Desk) → AreGuarded w.ca want d.calls
      → ((v : View)
          → get_settings w.settings_env d.settings ≡ ok (some v)
          → AreGuarded w.ca want (next v d).1.calls)
      → AreGuarded w.ca want (with_settings w next d).1.calls
  unfolding with_settings
  with_settings-KeepsCalls next d g k =
      elim (Result-cases (get_settings w.settings_env d.settings)) [
        | inl (e, x) ↦ rw (with_settings, x) g
        | inr (none, x) ↦ rw (with_settings, x) g
        | inr (some v, x) ↦ rw (with_settings, x) (k v x)
      ]

  pub created-calls :
      (f : Form) (d : Desk) (o : Result CaError Provisioner × List Call)
      → AreGuarded w.ca want o.1
      → AreGuarded w.ca want (created w f d o).1.calls
  created-calls f d (err e, l) g = g
  created-calls f d (ok p, l) g = g

  pub deleted-calls :
      (f : Form) (d : Desk) (o : Result CaError (Unit {0}) × List Call)
      → AreGuarded w.ca want o.1
      → AreGuarded w.ca want (deleted w f d o).1.calls
  deleted-calls f d (err e, l) g = g
  deleted-calls f d (ok u, l) g = g
