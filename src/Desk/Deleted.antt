-- ===== src/Desk/Deleted.antt =====
-- What internal/app/provisioners.go records of a deletion, and when it deletes.
use step_ui_ng.Desk.State.{Desk, DeskEnv, Form, Answer, refuse, settled}
use step_ui_ng.Settings.Store.{SettingsRow, text_of, View}
use step_ui_ng.Base.{
  ◌==◌, ◌≡◌, Result, ◌⊎◌, some, false, Option, List, if◌then◌else◌, Bool-cases, inr, Result-cases,
  inl, ok, subst, err, ap, none, string_eq, refl, Bool, true,
}
use step_ui_ng.Desk.Provisioners.{
  with_credential, post_provisioner, with_settings, deleted, admin_auth, credential_of_source,
  text_of_error,
}
use step_ui_ng.Ca.Fingerprint.{CaError}
use step_ui_ng.Ca.Token.{AdminCredential}
use step_ui_ng.Settings.Repo.{view_of, get_settings}
use step_ui_ng.Ca.Net.{Call}
use step_ui_ng.Ca.Provisioners.{delete_provisioner}
use step_ui_ng.Desk.Guarded.{view_same}

module _ (w : DeskEnv) (f : Form) (d : Desk) (r : SettingsRow) where
  -- The CA has deleted the provisioner of the path, which is not the active one.
  abbrev pub HasDeleted : Type 0
  HasDeleted =
      ((f.path_name == text_of r.selected_provisioner) ≡ false)
      × (cred : AdminCredential) × (l : List Call) × ((delete_provisioner w.ca r.ca_url
            r.root_fingerprint cred f.path_name l).0
          ≡ ok tt)

  -- The log of an answer is as it was, or the deletion has succeeded.
  IsHonest : Answer → Type 0
  IsHonest o = (o.1.log ≡ d.log) ⊎ HasDeleted

  settled-IsHonest {ℓ} :
      {A : Type ℓ} (o : Result CaError (Option A) × List Call) (fail : CaError → Desk → Answer)
      (next : A → Desk → Answer)
      → ((e : CaError) (l : List Call) → IsHonest (fail e (record d { calls = l })))
      → ((a : A) (l : List Call) → IsHonest (next a (record d { calls = l })))
      → IsHonest (settled d o fail next)
  unfolding IsHonest
  settled-IsHonest (err e, l) fail next h k = h e l
  settled-IsHonest (ok none, l) fail next h k = inl refl
  settled-IsHonest (ok (some a), l) fail next h k = k a l

  with_credential-IsHonest :
      (v : View) (next : AdminCredential → Desk → Answer)
      → ((cred : AdminCredential) (l : List Call) → IsHonest (next cred (record d { calls = l })))
      → IsHonest (with_credential w v next d)
  unfolding with_credential IsHonest
  with_credential-IsHonest v next k = elim (Result-cases (admin_auth w v d.settings)) [
    | inl (e, x) ↦ rw (with_credential, x) (inl refl)
    | inr (none, x) ↦ rw (with_credential, x) (inl refl)
    | inr (some (err e), x) ↦ rw (with_credential, x) (inl refl)
    | inr (some (ok source), x) ↦
        rw (with_credential, x)
          (settled-IsHonest (credential_of_source w source d.calls) (text_of_error w) next
            (λ e l. inl refl) k)
  ]

  deleted-IsHonest :
      ((f.path_name == text_of r.selected_provisioner) ≡ false)
      → (cred : AdminCredential) (l : List Call) → (o : Result CaError (Unit {0}) × List Call)
      → delete_provisioner w.ca r.ca_url r.root_fingerprint cred f.path_name l ≡ o
      → IsHonest (deleted w f (record d { calls = l }) o)
  unfolding IsHonest
  deleted-IsHonest other cred l (err e, l') x = inl refl
  deleted-IsHonest other cred l (ok u, l') x = inr (other, cred, l, ap (λ o. o.0) x)

  abbrev deleting : View → AdminCredential → Desk → Answer
  deleting v cred e =
      deleted w f e (delete_provisioner w.ca v.ca_url v.root_fingerprint cred f.path_name e.calls)

  chosen-IsHonest :
      (b : Bool)
      → (f.path_name == text_of r.selected_provisioner) ≡ b
      → IsHonest (
          if b
          then refuse "Cannot delete the active provisioner — select a different one first." d
          else with_credential w (view_of r) (deleting (view_of r)) d)
  unfolding IsHonest
  chosen-IsHonest true x = inl refl
  chosen-IsHonest false x = with_credential-IsHonest (view_of r) (deleting (view_of r)) (λ cred l.
      deleted-IsHonest x cred l
        (delete_provisioner w.ca r.ca_url r.root_fingerprint cred f.path_name l) refl)

  module _ (saved : d.settings ≡ some r) where
    deletion-IsHonest :
        (v : View)
        → view_of r ≡ v
        → IsHonest (
            if f.path_name == v.selected_provisioner
            then refuse "Cannot delete the active provisioner — select a different one first." d
            else with_credential w v (deleting v) d)
    deletion-IsHonest v e =
        subst
          (λ (x : View). IsHonest (
            if f.path_name == x.selected_provisioner
            then refuse "Cannot delete the active provisioner — select a different one first." d
            else with_credential w x (deleting x) d))
          e (chosen-IsHonest (f.path_name == text_of r.selected_provisioner) refl)

    -- With a stored connection, a request to delete a provisioner leaves the audit log as it was, unless
    -- the provisioner of its path is not the active one and the client of the CA has deleted it with
    -- success.
    pub post_provisioner-IsHonest : ((post_provisioner w f d).1.log ≡ d.log) ⊎ HasDeleted
    unfolding post_provisioner with_settings IsHonest
    post_provisioner-IsHonest = elim (Bool-cases (f.action == "delete")) [
      | inr x ↦ rw (post_provisioner, x) (inl refl)
      | inl x ↦ elim (Result-cases (get_settings w.settings_env d.settings)) [
        | inl (e, y) ↦ rw (post_provisioner, x, with_settings, y) (inl refl)
        | inr (none, y) ↦ rw (post_provisioner, x, with_settings, y) (inl refl)
        | inr (some v, y) ↦
            rw (post_provisioner, x, with_settings, y)
              (deletion-IsHonest v (view_same w.settings_env d.settings r v saved y))
      ]
    ]
