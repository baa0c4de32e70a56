-- ===== src/Ca/Signed.antt =====
-- internal/ca/sign.go: what a signed request is known to have.
use step_ui_ng.Ca.Net.{
  CaWorld, Call, or_raise, raise_if, lift, pure, ◌>>◌, Trust, classify_do_error, Reply, replied,
  is_success, untrusted, undelivered, sign_body, send, ◌>>=◌,
}
use step_ui_ng.Certs.World.{
  SignResult, CaError, Csr, SignRequest, ca_invalid_csr, provisioner_not_found,
}
use step_ui_ng.Ca.Sign.{
  parse_sign_response, post_sign, signed_with, sign_csr_at_ca, validity, provisioner_signing_key,
  sign_answer,
}
use step_ui_ng.Base.{
  ◌≡◌, String, Option, Bool, ok, ℕ, ◌∷◌, List, ◌<◌, [], some, false, ◌≤◌, ◌∙◌, true, none, ◌==◌,
  ◌*◌, refl, ◌⊎◌, string_eq, arith, suc, zero, not, Bool-cases, leb, inl, inr, ap, ◌-◌, subst, sym,
}
use step_ui_ng.Base.Number.{wrap_int, wrap_int-small, two_64, wrap_int-large}
use step_ui_ng.Base.Text.{concat}
use step_ui_ng.Base.Int.{ℤ, pos, negsuc}
use step_ui_ng.Ca.Fingerprint.{base_url}
use step_ui_ng.Ca.Keyed.{signing_key-IsDecrypted, IsToken, built-IsToken, IsDecrypted}
use step_ui_ng.Ca.Steps.{bind_ok, bind_step}

-- The PEM texts that belong together.
abbrev IsBundle : SignResult → Type 0
IsBundle r = r.fullchain_pem ≡ concat (r.cert_pem ∷ r.chain_pem ∷ [])

parse_sign_response-IsBundle :
    (w : CaWorld) (body : String) (r : SignResult) → parse_sign_response w body ≡ ok r → IsBundle r
unfolding parse_sign_response
parse_sign_response-IsBundle w body r h = ground arith

or_raise-eq-ok {ℓ} :
    {A : Type ℓ} (o : Option A) (e : CaError) (l : List Call) (a : A)
    → (or_raise o e l).0 ≡ ok a
    → o ≡ some a
unfolding or_raise
or_raise-eq-ok none e l a h = absurd (cc h)
or_raise-eq-ok (some b) e l a h = cc h

raise_if-eq-ok : (b : Bool) (e : CaError) (l : List Call) → (raise_if b e l).0 ≡ ok tt → b ≡ false
unfolding raise_if
raise_if-eq-ok true e l h = absurd (cc h)
raise_if-eq-ok false e l h = refl

-- A reply that gives a result is a success whose body is what the result is parsed from.
answer-parsed :
    (w : CaWorld) (reply : Reply) (r : SignResult)
    → sign_answer w reply ≡ ok r
    → (status : ℕ) × (body : String) × (complete : Bool) × (reply ≡ replied status body complete)
      × (200 ≤ status)
      × (status < 300)
      × (parse_sign_response w body ≡ ok r)
unfolding classify_do_error
answer-parsed w untrusted r h = absurd (cc h)
answer-parsed w undelivered r h = absurd (cc h)
answer-parsed w (replied status body complete) r h = elim (Bool-cases (is_success status)) [
  | inl e ↦ (status, body, complete, refl, ground arith, ground arith, ground arith)
  | inr e ↦ absurd (ground arith)
]

-- The search for the key is made only for a name.
signing_key-named :
    (w : CaWorld) (fuel : ℕ) (base : String) (c : Trust) (name password : String) (l : List Call)
    (found : Option String)
    → (provisioner_signing_key w fuel base c name password l).0 ≡ ok found
    → (name == "") ≡ false
unfolding provisioner_signing_key ◌>>◌
signing_key-named w fuel base c name password l found h =
    let (u, k, _) = bind_ok _ _ l found h in raise_if-eq-ok (name == "") provisioner_not_found l k

-- The request for a signature: the PEM text of the caller, the token and the validity.
abbrev pub sign_call : String → Trust → String → String → ℤ → Call
sign_call base c csr_pem ott days = record {
  trust = c;
  method = "POST";
  url = concat (base ∷ "/1.0/sign" ∷ []);
  authorization = "";
  body = sign_body csr_pem ott (validity days);
}

-- The last call asked for the signature, it was answered with a success, and the result was parsed
-- from the body of this answer.
pub record IsAnswered (w : CaWorld) (base : String) (csr_pem ott : String) (days : ℤ)
    (calls : List Call) (r : SignResult) : Type 0 where
  pub client : Trust
  pub earlier : List Call
  pub status : ℕ
  pub body : String
  pub complete : Bool
  pub asked : calls ≡ sign_call base client csr_pem ott days ∷ earlier
  pub answered :
      w.answer earlier (sign_call base client csr_pem ott days) ≡ replied status body complete
  pub at_least_200 : 200 ≤ status
  pub below_300 : status < 300
  pub parsed : parse_sign_response w body ≡ ok r

post_sign-IsAnswered :
    (w : CaWorld) (base : String) (c : Trust) (csr_pem ott : String) (days : ℤ) (l : List Call)
    (r : SignResult)
    → (post_sign w base c csr_pem ott days l).0 ≡ ok r
    → IsAnswered w base csr_pem ott days (post_sign w base c csr_pem ott days l).1 r
unfolding post_sign lift send ◌>>=◌
post_sign-IsAnswered w base c csr_pem ott days l r h =
    elim (Bool-cases (w.is_url (concat (base ∷ "/1.0/sign" ∷ [])))) [
      | inr e ↦ absurd (ground arith)
      | inl e ↦
          let call = sign_call base c csr_pem ott days in
          let (status, body, complete, replies, low, high, parsed) =
            answer-parsed w (w.answer l call) r (rw e at h) in
          record {
            client = c;
            earlier = l;
            status = status;
            body = body;
            complete = complete;
            asked = rw e refl;
            answered = replies;
            at_least_200 = low;
            below_300 = high;
            parsed = parsed;
          }
    ]

signed_with-answer :
    (w : CaWorld) (c : Trust) (base : String) (csr : Csr) (p : SignRequest) (found : Option String)
    (l : List Call) (r : SignResult)
    → ((key : String) → found ≡ some key → IsDecrypted w p.password key)
    → (signed_with w c base csr p found l).0 ≡ ok (some r)
    → (ott : String) × IsToken w base csr p ott
      × IsAnswered w base p.csr_pem ott p.validity_days (signed_with w c base csr p found l).1 r
unfolding signed_with pure lift
signed_with-answer w c base csr p none l r opens h = absurd (cc h)
signed_with-answer w c base csr p (some key) l r opens h =
    let (ott, built, same₁, h₁) = bind_step _ _ l (some r) h in
    let (result, k, same₂, h₂) = bind_step _ _ l (some r) h₁ in
    let same : result ≡ r = cc h₂ in
    (
      ott,
      built-IsToken w key base csr p ott (opens key refl) built,
      subst (λ o. IsAnswered w base p.csr_pem ott p.validity_days o.1 r) (sym (same₁ ∙ same₂))
          (post_sign-IsAnswered w base c p.csr_pem ott p.validity_days l r (k ∙ ap ok same)),
    )

checked_signature :
    (w : CaWorld) (csr : Csr) (l : List Call)
    → (raise_if (not (w.check_signature csr)) ca_invalid_csr l).0 ≡ ok tt
    → w.check_signature csr ≡ true
checked_signature w csr l h =
    ground (arith, raise_if-eq-ok (not (w.check_signature csr)) ca_invalid_csr l h)

-- If signing returns a result, then the request was parsed and its signature is good, and a
-- provisioner was named. The last call was the request for the signature: a POST to `/1.0/sign` of
-- the CA with the caller's PEM text, the validity, and a token signed, with a key that the caller's
-- password decrypts, for that provisioner and the names of the request. The CA answered this call with a success, the result was parsed from the body
-- of that answer, and its full chain is its certificate followed by its chain.
pub sign_csr_at_ca-result :
    (w : CaWorld) (fuel : ℕ) (p : SignRequest) (l : List Call) (r : SignResult)
    → (sign_csr_at_ca w fuel p l).0 ≡ ok (some r)
    → ((csr : Csr) × (base ott : String) × (w.request_of_pem p.csr_pem ≡ some csr)
        × (w.check_signature csr ≡ true)
        × (base_url p.ca_url ≡ ok base)
        × IsToken w base csr p ott
        × IsAnswered w base p.csr_pem ott p.validity_days (sign_csr_at_ca w fuel p l).1 r)
      × ((p.provisioner_name == "") ≡ false)
      × IsBundle r
unfolding sign_csr_at_ca ◌>>◌ lift
sign_csr_at_ca-result w fuel p l r h =
    let (base, based, same₁, h₁) = bind_step _ _ l (some r) h in
    let (csr, parsed, same₂, h₂) = bind_step _ _ _ (some r) h₁ in
    let (u, checked, same₃, h₃) = bind_step _ _ _ (some r) h₂ in
    let (client, _, same₄, h₄) = bind_step _ _ _ (some r) h₃ in
    let (found, key, same₅, h₅) = bind_step _ _ _ (some r) h₄ in
    let (ott, token, answered) =
      signed_with-answer w client base csr p found _ r
        (λ k e.
          signing_key-IsDecrypted w fuel base client p.provisioner_name p.password _ k
            (key ∙ ap ok e))
        h₅ in
    (
      (
        csr,
        base,
        ott,
        or_raise-eq-ok (w.request_of_pem p.csr_pem) ca_invalid_csr _ csr parsed,
        checked_signature w csr _ checked,
        based,
        token,
        subst (λ o. IsAnswered w base p.csr_pem ott p.validity_days o.1 r)
            (sym (same₁ ∙ same₂ ∙ same₃ ∙ same₄ ∙ same₅)) answered,
      ),
      signing_key-named w fuel base client p.provisioner_name p.password _ found key,
      parse_sign_response-IsBundle w answered.body r answered.parsed,
    )

-- A validity of 1 to 106751 days is requested as it is. Above that the 64-bit duration wraps around,
-- and up to 213503 days the request asks for an end that has passed.
pub validity_lem :
    (n : ℕ)
    → 0 < n
    → n ≤ 213503
    → (n ≤ 106751) × (validity (pos n) ≡ some (pos (n * 86400000000000)))
      ⊎ (106751 < n) × ((k : ℕ) × (validity (pos n) ≡ some (negsuc k)))
unfolding validity wrap_int
validity_lem zero h k = absurd (omega arith)
validity_lem (suc n) h k = elim (Bool-cases (leb (suc n) 106751)) [
  | inl e ↦ inl (ground arith, ap some (wrap_int-small (suc n * 86400000000000) (ground arith)))
  | inr e ↦ inr (
    ground arith,
    (
      two_64 - 1 - suc n * 86400000000000,
      ap some (wrap_int-large (suc n * 86400000000000) (ground arith) (omega arith)),
    ),
  )
]
