-- ===== src/Ca/Keyed.antt =====
-- internal/ca/sign.go: the key that a token is signed with.
use step_ui_ng.Ca.Net.{CaWorld, Call, lift, pure, ◌>>◌, Trust, JwkEntry}
use step_ui_ng.Certs.World.{Csr, SignRequest}
use step_ui_ng.Ca.Sign.{
  provisioner_signing_key, token_sans, build_sign_token, decrypt_signing_key, search_key, usable,
  find_entry,
}
use step_ui_ng.Base.{
  ◌≡◌, String, ok, ℕ, ◌∷◌, List, [], some, ◌∙◌, ◌==◌, string_eq, suc, zero, not, Bool-cases, inl,
  inr, Option-cases, ◌||◌,
}
use step_ui_ng.Base.Text.{concat}
use step_ui_ng.Ca.Steps.{bind_ok}

-- A key that the password has decrypted.
abbrev pub IsDecrypted : CaWorld → String → String → Type 0
IsDecrypted w password key = (encrypted : String) × (w.decrypt_key encrypted password ≡ some key)

decrypted_lem :
    (w : CaWorld) (encrypted password key : String)
    → decrypt_signing_key w encrypted password ≡ ok key
    → IsDecrypted w password key
unfolding decrypt_signing_key
decrypted_lem w encrypted password key h = elim (Option-cases (w.decrypt_key encrypted password)) [
  | inl x ↦ absurd (cc (rw (decrypt_signing_key, x) at h))
  | inr (k, x) ↦ (encrypted, x ∙ cc (rw (decrypt_signing_key, x) at h))
]

usable-IsDecrypted :
    (w : CaWorld) (e : JwkEntry) (password key : String)
    → usable w e password ≡ ok key
    → IsDecrypted w password key
usable-IsDecrypted w e password key h =
    elim (Bool-cases (not (e.kind == "JWK") || e.encrypted_key == "")) [
      | inl x ↦ absurd (cc (rw x at h))
      | inr x ↦ decrypted_lem w e.encrypted_key password key (rw x at h)
    ]

-- A search that finds a key has decrypted it.
search_key-IsDecrypted :
    (w : CaWorld) (c : Trust) (base name password : String) (fuel : ℕ) (cursor : String)
    (l : List Call) (key : String)
    → (search_key w c base name password fuel cursor l).0 ≡ ok (some key)
    → IsDecrypted w password key
unfolding search_key pure lift
search_key-IsDecrypted w c base name password zero cursor l key h = absurd (cc h)
search_key-IsDecrypted w c base name password (suc fuel) cursor l key h =
    let ((entries, next), _, h₁) = bind_ok _ _ l (some key) h in
    elim (Option-cases (find_entry name entries)) [
      | inr (e, x) ↦
          let (k, found, h₂) = bind_ok _ _ _ (some key) (rw x at h₁) in
          usable-IsDecrypted w e password key (found ∙ cc h₂)
      | inl x ↦ elim (Bool-cases (next == "")) [
        | inl y ↦ absurd (cc (rw (x, y) at h₁))
        | inr y ↦ search_key-IsDecrypted w c base name password fuel next _ key (rw (x, y) at h₁)
      ]
    ]

pub signing_key-IsDecrypted :
    (w : CaWorld) (fuel : ℕ) (base : String) (c : Trust) (name password : String) (l : List Call)
    (key : String)
    → (provisioner_signing_key w fuel base c name password l).0 ≡ ok (some key)
    → IsDecrypted w password key
unfolding provisioner_signing_key ◌>>◌
signing_key-IsDecrypted w fuel base c name password l key h =
    let (u, _, h₁) = bind_ok _ _ l (some key) h in
    search_key-IsDecrypted w c base name password fuel "" _ key h₁

-- The token of a request: signed for the provisioner and the names of the request, with a key that
-- the password of the request decrypts.
abbrev pub IsToken : CaWorld → String → Csr → SignRequest → String → Type 0
IsToken w base csr p ott =
    (encrypted key : String) × (w.decrypt_key encrypted p.password ≡ some key)
    × (w.sign_token key record {
      issuer = p.provisioner_name;
      subject = csr.common_name;
      audience = concat (base ∷ "/1.0/sign" ∷ []);
      sans = token_sans csr;
    }
        ≡ some ott)

pub built-IsToken :
    (w : CaWorld) (key base : String) (csr : Csr) (p : SignRequest) (ott : String)
    → IsDecrypted w p.password key
    → build_sign_token w key p.provisioner_name base csr ≡ ok ott
    → IsToken w base csr p ott
unfolding build_sign_token
built-IsToken w key base csr p ott (encrypted, opens) h =
    elim (Option-cases (
      w.sign_token key record {
        issuer = p.provisioner_name;
        subject = csr.common_name;
        audience = concat (base ∷ "/1.0/sign" ∷ []);
        sans = token_sans csr;
      })) [
        | inl x ↦ absurd (cc (rw (build_sign_token, x) at h))
        | inr (token, x) ↦ (encrypted, key, opens, x ∙ cc (rw (build_sign_token, x) at h))
      ]
