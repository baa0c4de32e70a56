-- ===== src/Acme/Merge.antt =====
-- What an edit in internal/app/acme.go sends to the CA.
use step_ui_ng.Base.{
  String, List, [], ◌∷◌, ◌++◌, Bool, true, false, ◌==◌, string_eq, Option, none, some, Result, ok,
  err, ◌≡◌, ap, refl, sym, All, ◌∙◌,
}
use step_ui_ng.Acme.Forms.{AcmeForm, eab_error_message}
use step_ui_ng.Acme.Handlers.{
  Answer, acme_admin_context, current_acme_options, finished, update_report, post_acme_provisioner,
  updating, edited_spec, options_named, refuse_to,
}
use step_ui_ng.Desk.State.{Desk, DeskEnv, settled}
use step_ui_ng.Desk.Provisioners.{admin_auth, credential_of_source, AdminSource}
use step_ui_ng.Settings.Store.{View}
use step_ui_ng.Settings.Repo.{get_settings}
use step_ui_ng.Ca.Token.{AdminCredential}
use step_ui_ng.Ca.Fingerprint.{CaError}
use step_ui_ng.Ca.Net.{Call}
use step_ui_ng.Ca.Spec.{NewProvisionerSpec}
use step_ui_ng.Ca.Provisioners.{AcmeProvisioner, list_acme_provisioners, update_provisioner}

-- No entry has the name.
abbrev pub AreOthers : String → List AcmeProvisioner → Type 0
AreOthers name = All (λ (q : AcmeProvisioner). (q.name == name) ≡ false)

-- What the CA says the options of a provisioner are: those of the first entry with its name, and none
-- if there is no such entry or the list cannot be read.
pub data Offers (name : String) (o : Result CaError (Option (List AcmeProvisioner)))
    (challenges : List String) (require_eab : Bool) : Type 0 where
  listed :
      (before after : List AcmeProvisioner) (p : AcmeProvisioner)
      → o ≡ ok (some (before ++ p ∷ after))
      → AreOthers name before
      → (p.name == name) ≡ true
      → challenges ≡ p.challenges
      → require_eab ≡ p.require_eab
      → Offers name o challenges require_eab
  unlisted :
      (list : List AcmeProvisioner)
      → o ≡ ok (some list)
      → AreOthers name list
      → challenges ≡ []
      → require_eab ≡ false
      → Offers name o challenges require_eab
  unread :
      (e : CaError)
      → o ≡ err e
      → challenges ≡ []
      → require_eab ≡ false
      → Offers name o challenges require_eab

options_named-others :
    (name : String) (list : List AcmeProvisioner)
    → AreOthers name list
    → options_named name list ≡ record { name = name; challenges = []; require_eab = false }
options_named-others name [] h = refl
options_named-others name (q ∷ qs) h = rw h.0 (options_named-others name qs h.1)

options_named-listed :
    (name : String) (before after : List AcmeProvisioner) (p : AcmeProvisioner)
    → AreOthers name before
    → (p.name == name) ≡ true
    → options_named name (before ++ p ∷ after) ≡ p
options_named-listed name [] after p h e = rw e refl
options_named-listed name (q ∷ qs) after p h e = rw h.0 (options_named-listed name qs after p h.1 e)

-- The specification that leaves the options as they are.
abbrev pub kept_spec : String → List String → Bool → NewProvisionerSpec
kept_spec name challenges require_eab = record {
  name = name;
  kind = "ACME";
  jwk_secret = "";
  acme_challenges = challenges;
  acme_require_eab = require_eab;
}

settled_ok {ℓ} :
    {A : Type ℓ} {R : Type 0} (d : Desk) (o : Result CaError (Option A) × List Call)
    (fail : CaError → Desk → Option R × Desk) (next : A → Desk → Option R × Desk) (a : A)
    → o.0 ≡ ok (some a)
    → settled d o fail next ≡ next a (record d { calls = o.1 })
settled_ok d (err e, l) fail next a h = absurd (cc h)
settled_ok d (ok none, l) fail next a h = absurd (cc h)
settled_ok d (ok (some b), l) fail next a h = ap (λ x. next x (record d { calls = l })) (cc h)

settled_err {ℓ} :
    {A : Type ℓ} {R : Type 0} (d : Desk) (o : Result CaError (Option A) × List Call)
    (fail : CaError → Desk → Option R × Desk) (next : A → Desk → Option R × Desk) (e : CaError)
    → o.0 ≡ err e
    → settled d o fail next ≡ fail e (record d { calls = o.1 })
settled_err d (err e', l) fail next e h = ap (λ x. fail x (record d { calls = l })) (cc h)
settled_err d (ok none, l) fail next e h = absurd (cc h)
settled_err d (ok (some b), l) fail next e h = absurd (cc h)

module _ (w : DeskEnv) (f : AcmeForm) (d : Desk) (v : View) (source : AdminSource)
    (cred : AdminCredential) (l : List Call) where
  -- The answer of an edit that sends a specification, or these options, after the list was read.
  abbrev pub sends_spec : List Call → NewProvisionerSpec → Answer
  sends_spec l' spec =
      finished w (update_report w.hint f spec) (record d { calls = l' })
        (update_provisioner w.ca v.ca_url v.root_fingerprint cred spec l')

  abbrev pub sends : List String → Bool → Answer
  sends challenges require_eab =
      sends_spec (list_acme_provisioners w.ca w.fuel v.ca_url v.root_fingerprint l).1
        (kept_spec f.path_name challenges require_eab)

  edited_spec-kept :
      f.challenges ≡ none
      → (f.require_eab_present == "") ≡ true
      → (p : AcmeProvisioner) → edited_spec f p ≡ kept_spec f.path_name p.challenges p.require_eab
  unfolding edited_spec
  edited_spec-kept bare unmarked p = rw (bare, unmarked) refl

  -- The list is read, and the options of the name are sent.
  options_lem :
      (cs : List String) (eab : Bool)
      (o : Result CaError (Option (List AcmeProvisioner)) × List Call)
      (next : AcmeProvisioner → Desk → Answer)
      → Offers f.path_name o.0 cs eab
      → (p : AcmeProvisioner) × (p.challenges ≡ cs)
        × (p.require_eab ≡ eab)
        × (settled
              (record d { calls = l })
              o
              (λ e. next (options_named f.path_name []))
              (λ list. next (options_named f.path_name list))
            ≡ next p (record d { calls = o.1 }))
  options_lem cs eab o next (listed before after p h others e c r) = (
    p,
    sym c,
    sym r,
    settled_ok (record d { calls = l }) o _ (λ list. next (options_named f.path_name list)) _ h
        ∙ ap (λ q. next q (record d { calls = o.1 }))
            (options_named-listed f.path_name before after p others e),
  )
  options_lem cs eab o next (unlisted list h others c r) = (
    record { name = f.path_name; challenges = []; require_eab = false },
    sym c,
    sym r,
    settled_ok (record d { calls = l }) o _ (λ list. next (options_named f.path_name list)) _ h
        ∙ ap (λ q. next q (record d { calls = o.1 }))
            (options_named-others f.path_name list others),
  )
  options_lem cs eab o next (unread e h c r) = (
    record { name = f.path_name; challenges = []; require_eab = false },
    sym c,
    sym r,
    settled_err (record d { calls = l }) o (λ e. next (options_named f.path_name [])) _ e h,
  )

  context_lem :
      get_settings w.settings_env d.settings ≡ ok (some v)
      → admin_auth w v d.settings ≡ ok (some (ok source))
      → credential_of_source w source d.calls ≡ (ok (some cred), l)
      → (next : View → AdminCredential → Desk → Answer)
      → acme_admin_context w next d ≡ next v cred (record d { calls = l })
  unfolding acme_admin_context
  context_lem have_settings have_auth have_cred next =
      rw (acme_admin_context, have_settings, have_auth)
        (ap (λ o. settled d o (λ e. refuse_to "/acme" (eab_error_message e)) (next v)) have_cred)

  -- If the settings are there and give a credential of the admin: an edit whose form carries neither
  -- challenges nor the marker of the requirement sends the options that the list of the CA has for
  -- the name. If the list has no such entry, or cannot be read, it sends no challenges and no
  -- requirement of external account binding.
  pub post_acme_provisioner_edit :
      f.action ≡ "edit"
      → f.challenges ≡ none
      → (f.require_eab_present == "") ≡ true
      → get_settings w.settings_env d.settings ≡ ok (some v)
      → admin_auth w v d.settings ≡ ok (some (ok source))
      → credential_of_source w source d.calls ≡ (ok (some cred), l)
      → (challenges : List String) (require_eab : Bool)
      → Offers f.path_name
          (list_acme_provisioners w.ca w.fuel v.ca_url v.root_fingerprint l).0
          challenges
          require_eab
      → post_acme_provisioner w f d ≡ sends challenges require_eab
  unfolding post_acme_provisioner current_acme_options
  post_acme_provisioner_edit act bare unmarked have_settings have_auth have_cred cs eab offers =
      let o = list_acme_provisioners w.ca w.fuel v.ca_url v.root_fingerprint l in
      let (p, c, r, e) = options_lem cs eab o (updating w f v cred) offers in
      let other : (f.action == "delete") ≡ false = ap (λ a. a == "delete") act in
      let edit : (f.action == "edit") ≡ true = ap (λ a. a == "edit") act in
      rw (post_acme_provisioner, other, edit)
        (context_lem have_settings have_auth have_cred
            (λ v' cred' e'. current_acme_options w v' f.path_name (updating w f v' cred') e')
          ∙ e
          ∙ ap (sends_spec o.1) (edited_spec-kept bare unmarked p)
          ∙ ap (λ c. sends c p.require_eab) c
          ∙ ap (sends cs) r)
