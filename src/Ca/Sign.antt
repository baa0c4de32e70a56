-- ===== src/Ca/Sign.antt =====
-- internal/ca/sign.go: to have a request signed.
use Prim.Native.Char.{code}
use step_ui_ng.Ca.Net.{
  ◌>>=◌, ◌>>◌, Net, CaWorld, Trust, SignResponse, JwkEntry, Reply, Page, fetch, pure, raise_if,
  send, lift, or_raise, classify_do_error, sign_body, replied, is_success, untrusted, undelivered,
}
use step_ui_ng.Certs.World.{
  Csr, SignRequest, CaError, SignResult, provisioner_not_found, provisioner_key, sign_failed,
}
use step_ui_ng.Base.{
  true, String, List, ℕ, ◌++◌, Bool, if◌then◌else◌, Option, Result, ◌∷◌, false, ◌==◌, none, ◌||◌,
  [], not, err, suc, nat_eq, some, string_eq, ok, ◌*◌, leb, zero, ◌&&◌, ltb,
}
use step_ui_ng.Base.Int.{ℤ, negsuc, pos}
use step_ui_ng.Base.Text.{concat}
use step_ui_ng.Ca.Fingerprint.{base_url, malformed_response, ca_invalid_csr, sign_rejected}
use step_ui_ng.Ca.Pinned.{pinned_client_for}
use step_ui_ng.Base.Number.{wrap_int}

-- `csrSANs`
unfoldable pub token_sans : Csr → List String
token_sans csr =
    let names = csr.names in
    let sans = names.dns_names ++ (names.ip_addresses ++ (names.email_addresses ++ names.uris)) in
    elim sans [
      | [] ↦ if not (csr.common_name == "") then csr.common_name ∷ [] else []
      | s ∷ ss ↦ s ∷ ss
    ]

ends_in_newline : String → Bool
ends_in_newline String.[] = false
ends_in_newline (String.◌∷◌ c String.[]) = code c == 10
ends_in_newline (String.◌∷◌ c (String.◌∷◌ d s)) = ends_in_newline (String.◌∷◌ d s)

-- `ensureTrailingNewline`
unfoldable pub ensure_trailing_newline : String → String
unfolding ends_in_newline
ensure_trailing_newline pem =
    if pem == "" || ends_in_newline pem then pem else concat (pem ∷ "\n" ∷ [])

unfoldable pub chain_of : List String → String
chain_of [] = ""
chain_of (c ∷ cs) = concat (ensure_trailing_newline c ∷ chain_of cs ∷ [])

-- The chain above the leaf: `certChain` without its first entry, or else the entry `ca`.
unfoldable pub chain_pem_of : SignResponse → String
chain_pem_of sr = elim sr.cert_chain [
  | [] ↦ if not (sr.ca == "") then ensure_trailing_newline sr.ca else ""
  | leaf ∷ [] ↦ if not (sr.ca == "") then ensure_trailing_newline sr.ca else ""
  | leaf ∷ c ∷ cs ↦ chain_of (c ∷ cs)
]

-- The entry of a page that the name selects: the first with that name, if it can be used.
unfoldable pub find_entry : String → List JwkEntry → Option JwkEntry
find_entry name [] = none
find_entry name (e ∷ es) = if not (e.name == name) then find_entry name es else some e

-- How long after now `notAfter` lies, in nanoseconds of Go's 64-bit `time.Duration`.
unfoldable pub validity : ℤ → Option ℤ
validity (negsuc n) = none
validity (pos zero) = none
validity (pos (suc n)) = some (wrap_int (suc n * 86400000000000))

module _ (w : CaWorld) where
  -- `decryptSigningKey`; to decrypt the key, to parse it and to find that it is private is one
  -- parameter.
  unfoldable pub decrypt_signing_key : String → String → Result CaError String
  decrypt_signing_key encrypted_key password = elim (w.decrypt_key encrypted_key password) [
    | none ↦ err provisioner_key
    | some key ↦ ok key
  ]

  abbrev pub usable : JwkEntry → String → Result CaError String
  usable e password =
      if not (e.kind == "JWK") || e.encrypted_key == ""
      then err provisioner_not_found
      else decrypt_signing_key e.encrypted_key password

  -- A page of the provisioners; its address holds the cursor as it came.
  unfoldable pub jwk_page : Trust → String → String → Net (Page JwkEntry)
  jwk_page client base cursor = do
    body ← fetch w client (
        if not (cursor == "")
        then concat (base ∷ "/provisioners?cursor=" ∷ cursor ∷ [])
        else concat (base ∷ "/provisioners" ∷ []))
    or_raise (w.jwks_of_json body) malformed_response

  -- The loop of `provisionerSigningKey`, which the source does not bound.
  unfoldable pub search_key : Trust → String → String → String → ℕ → String → Net (Option String)
  search_key client base name password zero cursor = pure none
  search_key client base name password (suc fuel) cursor = do
    (entries, next) ← jwk_page client base cursor
    elim (find_entry name entries) [
      | some e ↦ lift (usable e password) >>= λ key. pure (some key)
      | none ↦ elim (next == "") [
        | true ↦ lift (err provisioner_not_found)
        | false ↦ search_key client base name password fuel next
      ]
    ]

  -- `provisionerSigningKey`
  unfoldable pub provisioner_signing_key :
      ℕ → String → Trust → String → String → Net (Option String)
  provisioner_signing_key fuel base client name password = do
    raise_if (name == "") provisioner_not_found
    search_key client base name password fuel ""

  -- `buildSignToken`
  unfoldable pub build_sign_token : String → String → String → Csr → Result CaError String
  build_sign_token key provisioner_name base csr =
      elim (w.sign_token key record {
        issuer = provisioner_name;
        subject = csr.common_name;
        audience = concat (base ∷ "/1.0/sign" ∷ []);
        sans = token_sans csr;
      }) [ none ↦ err provisioner_key | some ott ↦ ok ott ]

  -- `parseSignResponse`
  unfoldable pub parse_sign_response : String → Result CaError SignResult
  parse_sign_response body = elim (w.sign_of_json body) [
    | none ↦ err sign_failed
    | some sr ↦ if sr.crt == "" then err sign_failed else elim (w.leaf_of_pem sr.crt) [
      | none ↦ err sign_failed
      | some leaf ↦ ok record {
        certificate = some leaf;
        cert_pem = ensure_trailing_newline sr.crt;
        chain_pem = chain_pem_of sr;
        fullchain_pem = concat (ensure_trailing_newline sr.crt ∷ chain_pem_of sr ∷ []);
      }
    ]
  ]

  abbrev pub sign_answer : Reply → Result CaError SignResult
  sign_answer untrusted = err (classify_do_error untrusted)
  sign_answer undelivered = err (classify_do_error undelivered)
  sign_answer (replied status body complete) =
      if is_success status
      then parse_sign_response body
      else if leb 400 status && ltb status 500
      then err sign_rejected
      else err sign_failed

  -- `postSign`
  unfoldable pub post_sign : String → Trust → String → String → ℤ → Net SignResult
  post_sign base client csr_pem ott validity_days = do
    reply ← send w record {
      trust = client;
      method = "POST";
      url = concat (base ∷ "/1.0/sign" ∷ []);
      authorization = "";
      body = sign_body csr_pem ott (validity validity_days);
    }
    lift (sign_answer reply)

  -- What is done with the key, if the search for it has ended.
  unfoldable pub signed_with :
      Trust → String → Csr → SignRequest → Option String → Net (Option SignResult)
  signed_with client base csr p none = pure none
  signed_with client base csr p (some key) = do
    ott ← lift (build_sign_token key p.provisioner_name base csr)
    result ← post_sign base client p.csr_pem ott p.validity_days
    pure (some result)

  -- `SignCSR`
  unfoldable pub sign_csr_at_ca : ℕ → SignRequest → Net (Option SignResult)
  sign_csr_at_ca fuel p = do
    base ← lift (base_url p.ca_url)
    csr ← or_raise (w.request_of_pem p.csr_pem) ca_invalid_csr
    raise_if (not (w.check_signature csr)) ca_invalid_csr
    client ← pinned_client_for w p.ca_url p.fingerprint
    found ← provisioner_signing_key fuel base client p.provisioner_name p.password
    signed_with client base csr p found
