-- ===== src/Ca/Payload.antt =====
-- What internal/ca sends for an ACME provisioner, and what it returns of the keys of external account
-- binding.
use Prim.Native.String.{len}
use step_ui_ng.Ca.Net.{
  CaWorld, Call, pure, ◌>>◌, EabWire, Trust, Page, provisioner_body, jwk_details, acme_details,
  sshpop_details,
}
use step_ui_ng.Ca.Eab.{EabKey, listed_keys, eab_page, list_eab_keys, to_eab_key, eab_endpoint}
use step_ui_ng.Base.{
  List, ◌≡◌, ok, ℕ, All, String, some, inl, ◌∷◌, [], ap, refl, inr, subst, true, length,
  Option-cases, ◌≤◌, arith, ◌⊎◌, suc, Bool-cases, ◌==◌, eq_iff, string_eq, ◌&&◌,
}
use step_ui_ng.Ca.Token.{AdminCredential}
use step_ui_ng.Ca.Paging.{follow-All}
use step_ui_ng.Base.Text.{trim_space}
use step_ui_ng.Ca.Steps.{bind_ok}
use step_ui_ng.Ca.Spec.{
  all_valid, validate_spec, valid_acme_challenge, build_create_body, wires, acme_details_of,
  is_valid_type, NewProvisionerSpec, wire_of, is_known,
}

abbrev pub HasNoHmac : EabKey → Type 0
HasNoHmac k = k.hmac ≡ ""

listed_keys-HasNoHmac : (ks : List EabWire) → All HasNoHmac (listed_keys ks)
unfolding listed_keys to_eab_key
listed_keys-HasNoHmac [] = tt
listed_keys-HasNoHmac (k ∷ ks) = (refl, listed_keys-HasNoHmac ks)

eab_page-HasNoHmac :
    (w : CaWorld) (c : Trust) (cred : AdminCredential) (endpoint cursor : String) (l : List Call)
    (page : Page EabKey)
    → (eab_page w c cred endpoint cursor l).0 ≡ ok page
    → All HasNoHmac page.0
unfolding eab_page pure
eab_page-HasNoHmac w c cred endpoint cursor l page h =
    let (tok, _, h₁) = bind_ok _ _ l page h in
    let (answer, _, h₂) = bind_ok _ _ _ page h₁ in
    let (wire, _, h₃) = bind_ok _ _ _ page h₂ in
    subst (λ (p : Page EabKey). All HasNoHmac p.0) {x = (listed_keys wire.0, wire.1)} {y = page}
      (cc h₃) (listed_keys-HasNoHmac wire.0)

-- No key of a list carries the HMAC, whatever the CA answers.
pub list_eab_keys-HasNoHmac :
    (w : CaWorld) (fuel : ℕ) (ca_url fingerprint : String) (cred : AdminCredential)
    (provisioner : String) (l : List Call) (ks : List EabKey)
    → (list_eab_keys w fuel ca_url fingerprint cred provisioner l).0 ≡ ok (some ks)
    → All HasNoHmac ks
unfolding list_eab_keys ◌>>◌
list_eab_keys-HasNoHmac w fuel ca_url fingerprint cred provisioner l ks h =
    let (u, _, h₁) = bind_ok _ _ l (some ks) h in
    let (base, _, h₂) = bind_ok _ _ _ (some ks) h₁ in
    let (client, _, h₃) = bind_ok _ _ _ (some ks) h₂ in
    follow-All (eab_page w client cred (eab_endpoint w base (trim_space provisioner))) HasNoHmac
      (eab_page-HasNoHmac w client cred (eab_endpoint w base (trim_space provisioner))) fuel "" [] _
      ks tt h₃

wires-length : (cs : List String) → all_valid cs ≡ true → length (wires cs) ≡ length cs
unfolding all_valid valid_acme_challenge wires
wires-length [] h = refl
wires-length (c ∷ cs) h = elim (Option-cases (wire_of c)) [
  | inl e ↦ absurd (cc (subst (λ o. (is_known o && all_valid cs) ≡ true) e h))
  | inr (wire, e) ↦ rw (wires, e) (ap suc (wires-length cs (ground arith)))
]

-- The document of a specification that was accepted, by its type. A JWK provisioner: the secret has 8
-- bytes at least, and the document holds the public and the encrypted key that were made with it. An
-- ACME provisioner: the requirement of external account binding and one name for each challenge. An
-- SSHPOP provisioner.
pub build_create_body_lem :
    (w : CaWorld) (spec : NewProvisionerSpec)
    → validate_spec spec ≡ ok tt
    → (spec.kind ≡ "JWK")
        × (8 ≤ len spec.jwk_secret)
        × ((public encrypted : String)
            → w.new_jwk spec.jwk_secret ≡ some (public, encrypted)
            → build_create_body w spec
              ≡ ok (provisioner_body "JWK" spec.name (jwk_details public encrypted)))
      ⊎ (spec.kind ≡ "ACME")
        × (length (wires spec.acme_challenges) ≡ length spec.acme_challenges)
        × (build_create_body w spec
            ≡ ok (
                provisioner_body "ACME" spec.name
                  (acme_details spec.acme_require_eab (wires spec.acme_challenges))))
      ⊎ (spec.kind ≡ "SSHPOP")
        × (build_create_body w spec ≡ ok (provisioner_body "SSHPOP" spec.name sshpop_details))
unfolding validate_spec build_create_body acme_details_of is_valid_type
build_create_body_lem w spec h = elim (Bool-cases (spec.kind == "JWK")) [
  | inl e ↦ inl (
    (eq_iff spec.kind "JWK").0 e,
    ground arith,
    λ public encrypted k.
        rw (build_create_body, e, k)
          (ap (λ x. ok (provisioner_body x spec.name (jwk_details public encrypted)))
            ((eq_iff spec.kind "JWK").0 e)),
  )
  | inr e ↦ elim (Bool-cases (spec.kind == "ACME")) [
    | inl f ↦ inr (
        inl (
          (eq_iff spec.kind "ACME").0 f,
          wires-length spec.acme_challenges (ground arith),
          rw (build_create_body, e, f)
              (ap (λ x. ok (provisioner_body x spec.name (acme_details_of spec)))
                ((eq_iff spec.kind "ACME").0 f)),
        ))
    | inr f ↦ elim (Bool-cases (spec.kind == "SSHPOP")) [
      | inl g ↦ inr (
          inr (
            (eq_iff spec.kind "SSHPOP").0 g,
            rw (build_create_body, e, f, g)
                (ap (λ x. ok (provisioner_body x spec.name sshpop_details))
                  ((eq_iff spec.kind "SSHPOP").0 g)),
          ))
      | inr g ↦ absurd (ground arith)
    ]
  ]
]
