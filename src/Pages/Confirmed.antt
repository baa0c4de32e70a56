-- ===== src/Pages/Confirmed.antt =====
-- When internal/app/revoke.go asks for a revocation.
use step_ui_ng.Base.{
  String, Bool, true, false, Result, ℕ, some, none, ok, if◌then◌else◌, ◌==◌, string_eq, nat_eq, ◌≡◌,
  ◌⊎◌, inl, inr, refl, Bool-cases, Result-cases, Option-cases, sym, subst, eq_iff,
}
use step_ui_ng.Base.Text.{trim_space, trim_space_idem}
use step_ui_ng.Base.Int.{ℤ, pos, negsuc}
use step_ui_ng.Certs.Store.{Db}
use step_ui_ng.Certs.Service.{revoke_cert}
use step_ui_ng.Pages.Fields.{parse_cert_id, reason_code_label, parse_reason_code}
use step_ui_ng.Pages.State.{PageEnv, CertForm, Conn, resolve_conn}
use step_ui_ng.Pages.Handlers.{revoke_params, revoke_parsed, post_cert_revoke, reason_or_label}
use step_ui_ng.Settings.Store.{SettingsRow, View, text_of}
use step_ui_ng.Settings.Repo.{get_settings, read_selected_secret, view_of}
use step_ui_ng.Desk.Guarded.{view_same}
use step_ui_ng.Pages.Reads.{render_detail_msg-db, revoked-db}

abbrev IsText : String → Type 0
IsText s = (trim_space s == "") ≡ false

if-IsText : (b : Bool) (x y : String) → IsText x → IsText y → IsText (if b then x else y)
if-IsText true x y h g = h
if-IsText false x y h g = g

label-IsText : (code : ℤ) → IsText (reason_code_label code)
unfolding reason_code_label trim_space
label-IsText (negsuc n) = refl
label-IsText (pos n) = if-IsText (n == 1) _ _ refl (
    if-IsText (n == 2) _ _ refl (
      if-IsText (n == 3) _ _ refl (
        if-IsText (n == 4) _ _ refl (
          if-IsText (n == 5) _ _ refl (
            if-IsText (n == 6) _ _ refl (
              if-IsText (n == 8) _ _ refl
                (if-IsText (n == 9) _ _ refl (if-IsText (n == 10) _ _ refl refl))))))))

reason-IsText : (raw : String) (code : ℤ) → IsText (reason_or_label (trim_space raw) code)
reason-IsText raw code = elim (Bool-cases (trim_space raw == "")) [
  | inl e ↦ rw e (label-IsText code)
  | inr e ↦ rw e (subst (λ s. (s == "") ≡ false) (sym (trim_space_idem raw)) e)
]

module _ (w : PageEnv) (f : CertForm) (db : Db) where
  -- The stored connection with the active provisioner and its secret.
  abbrev pub IsStored : SettingsRow → Conn → Type 0
  IsStored r conn =
      (conn.ca_url ≡ r.ca_url)
      × (conn.fingerprint ≡ r.root_fingerprint)
      × (conn.provisioner ≡ text_of r.selected_provisioner)
      × (read_selected_secret w.settings_env (some r) ≡ ok (some conn.password))

  -- A confirmed request, whose revocation is that of the service.
  abbrev pub HasAsked : SettingsRow → Db → Type 0
  HasAsked r after =
      (id : ℕ) × (conn : Conn) × (parse_cert_id f.path_id ≡ some id)
      × (trim_space f.confirm ≡ "REVOKE")
      × IsStored r conn
      × ((trim_space (revoke_params w f id conn).reason == "") ≡ false)
      × (after ≡ (revoke_cert w.world (revoke_params w f id conn) db).1)

  module _ (r : SettingsRow) (saved : w.settings ≡ some r) where
    abbrev conn_of : View → String → Conn
    conn_of v secret = record {
      ca_url = v.ca_url;
      fingerprint = v.root_fingerprint;
      provisioner = v.selected_provisioner;
      password = secret;
    }

    same_conn : (a b : Conn) → ◌≡◌ {A = Result String Conn} (ok a) (ok b) → a ≡ b
    same_conn a b e = cc

    conn_of-IsStored :
        (v : View) (secret : String)
        → view_of r ≡ v
        → read_selected_secret w.settings_env (some r) ≡ ok (some secret)
        → IsStored r (conn_of v secret)
    conn_of-IsStored v secret e h =
        subst (λ x. IsStored r (conn_of x secret)) e (refl, refl, refl, h)

    resolved-IsStored : (conn : Conn) → resolve_conn w ≡ ok conn → IsStored r conn
    unfolding resolve_conn
    resolved-IsStored conn h = elim (Result-cases (get_settings w.settings_env w.settings)) [
      | inl (e, x) ↦ absurd (cc (rw (resolve_conn, x) at h))
      | inr (none, x) ↦ absurd (cc (rw (resolve_conn, x) at h))
      | inr (some v, x) ↦ elim (Bool-cases (v.selected_provisioner == "")) [
        | inl y ↦ absurd (cc (rw (resolve_conn, x, y) at h))
        | inr y ↦ elim (Result-cases (read_selected_secret w.settings_env w.settings)) [
          | inl (e, z) ↦ absurd (cc (rw (resolve_conn, x, y, z) at h))
          | inr (none, z) ↦ absurd (cc (rw (resolve_conn, x, y, z) at h))
          | inr (some secret, z) ↦
              subst (IsStored r)
                (same_conn (conn_of v secret) conn (rw (resolve_conn, x, y, z) at h))
                (conn_of-IsStored v secret (view_same w.settings_env w.settings r v saved x)
                  (subst (λ t. read_selected_secret w.settings_env t ≡ ok (some secret)) saved z))
        ]
      ]
    ]

    parsed_lem :
        (id : ℕ)
        → parse_cert_id f.path_id ≡ some id
        → ((revoke_parsed w f id db).1 ≡ db) ⊎ HasAsked r (revoke_parsed w f id db).1
    unfolding revoke_parsed
    parsed_lem id e = elim (Bool-cases (trim_space f.confirm == "REVOKE")) [
      | inr x ↦ inl (rw (revoke_parsed, x) (render_detail_msg-db w id _ _ db))
      | inl x ↦ elim (Result-cases (resolve_conn w)) [
        | inl (m, y) ↦ inl (rw (revoke_parsed, x, y) (render_detail_msg-db w id _ _ db))
        | inr (conn, y) ↦ inr (
          id,
          conn,
          e,
          (eq_iff (trim_space f.confirm) "REVOKE").0 x,
          resolved-IsStored conn y,
          reason-IsText f.reason (parse_reason_code f.reason_code),
          rw (revoke_parsed, x, y)
              (revoked-db w id (revoke_cert w.world (revoke_params w f id conn) db)),
        )
      ]
    ]

    -- With stored settings, a request to revoke a certificate changes nothing, unless its form says
    -- REVOKE: then it does what the service's revocation does with the id of the path, the stored
    -- connection, the active provisioner with its secret, and a reason that is not blank.
    pub post_cert_revoke_asks :
        ((post_cert_revoke w f db).1 ≡ db) ⊎ HasAsked r (post_cert_revoke w f db).1
    unfolding post_cert_revoke
    post_cert_revoke_asks = elim (Option-cases (parse_cert_id f.path_id)) [
      | inl e ↦ inl (rw (post_cert_revoke, e) refl)
      | inr (id, e) ↦
          let moved : revoke_parsed w f id db ≡ post_cert_revoke w f db =
            rw (post_cert_revoke, e) refl in
          subst (λ o. (o.1 ≡ db) ⊎ HasAsked r o.1) moved (parsed_lem id e)
    ]
