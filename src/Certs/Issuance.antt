-- ===== src/Certs/Issuance.antt =====
-- `Issue`, `Sign` and `Renew`: what a certificate that is handed out and its stored row hold.
use step_ui_ng.Certs.Monad.{◌>>=◌, ◌>>◌, branch}
use step_ui_ng.Certs.Store.{Op, Db, or_raise, raise_if, gets, modify, pure, append_row, sign}
use step_ui_ng.Base.{
  ◌≡◌, ok, Result-cases, inl, arith, inr, String, some, ◌+◌, ◌++◌, ◌∷◌, [], List, Option,
  Option-cases, ◌≢◌, ◌⊎◌, Bool-cases, ◌==◌, eq_iff, if◌then◌else◌, string_eq, ℕ, ◌&&◌, sym, ap, ◌∙◌,
}
use step_ui_ng.Certs.World.{World, Leaf, SignResult, Certificate}
use step_ui_ng.Certs.Service.{
  persist, IssueParams, build_csr, issue_request, persisted_row, persisted_certificate, attach,
  issue, format_pfx, build_pfx, issue_answered, audit_record, issue_checked, call_signer, lift_ca,
}
use step_ui_ng.Base.Text.{trim_space}
use step_ui_ng.Certs.Sans.{normalize_sans}
use step_ui_ng.Certs.Steps.{add_cert}

pub >>=-eq-ok {ℓ κ} :
    {A : Type ℓ} {B : Type κ} (m : Op A) (f : A → Op B) (db : Db) (b : B)
    → ((m >>= f) db).0 ≡ ok b
    → (a : A) × ((m db).0 ≡ ok a)
      × ((f a (m db).1).0 ≡ ok b)
      × (((m >>= f) db).1 ≡ (f a (m db).1).1)
unfolding ◌>>=◌
>>=-eq-ok m f db b h = elim (Result-cases (m db).0) [
  | inl (e, x) ↦ absurd (ground (arith, x))
  | inr (a, x) ↦ (a, x, rw (x, ◌>>=◌) at h, rw (x, ◌>>=◌))
]

-- What an issuance has used and stored: the key is the one that was generated, and it is sealed, the
-- row holds the sealed key and the names that the request asked for, and the CA has got one request.
pub record IsIssued (w : World) (p : IssueParams) (db after : Db) (key_text : String) (leaf : Leaf)
    : Type 0 where
  pub key : String
  pub csr_pem : String
  pub res : SignResult
  pub sealed : String
  pub json : String
  pub generated : w.new_key ≡ some key
  pub requested :
      build_csr w (trim_space p.cn) (normalize_sans (trim_space p.cn) p.sans) key ≡ some csr_pem
  pub signed : w.sign_csr (issue_request p csr_pem) ≡ ok res
  pub leaf_of : res.certificate ≡ some leaf
  pub text_of : w.key_pem key ≡ some key_text
  pub sealed_of : w.seal key_text ≡ some sealed
  pub json_of : w.json_of_names (normalize_sans (trim_space p.cn) p.sans) ≡ some json
  pub stored :
      after.certificates
      ≡ append_row
          (persisted_row w leaf res json "server"
            (some sealed)
            p.actor
            p.provisioner_name
            (db.certificates.seq + 1))
          db.certificates
  pub called : after.calls ≡ db.calls ++ sign (issue_request p csr_pem) ∷ []

pub persist-eq-ok :
    (w : World) (res : SignResult) (sans : List String) (strategy : String) (sealed : Option String)
    (actor provisioner : String) (db : Db) (leaf : Leaf) (c : Certificate)
    → (persist w res sans strategy sealed actor provisioner db).0 ≡ ok (leaf, c)
    → (json : String) × (res.certificate ≡ some leaf)
      × (w.json_of_names sans ≡ some json)
      × (c ≡ persisted_certificate leaf res sans strategy (db.certificates.seq + 1))
      × ((persist w res sans strategy sealed actor provisioner db).1
          ≡ add_cert
              (persisted_row w leaf res json strategy sealed actor provisioner
                (db.certificates.seq + 1))
              db)
unfolding persist ◌>>=◌ ◌>>◌ or_raise raise_if gets modify pure
persist-eq-ok w res sans strategy sealed actor provisioner db leaf c h =
    elim (Option-cases res.certificate) [
      | inl missing ↦ absurd (ground arith)
      | inr (leaf', x) ↦ elim (Option-cases (w.json_of_names sans)) [
        | inl bad ↦ absurd (ground arith)
        | inr (json, y) ↦ (json, ground arith, y, ground arith, ground arith)
      ]
    ]

attach-eq-ok :
    (w : World) (p : IssueParams) (key key_text : String) (leaf : Leaf) (chain : String)
    (c c' : Certificate) (db : Db)
    → (attach w p key key_text leaf chain c db).0 ≡ ok c'
    → ((attach w p key key_text leaf chain c db).1 ≡ db)
      × (((p.format ≢ format_pfx) × (c' ≡ record c { private_key_pem = key_text }))
          ⊎ ((bundle : String) × (chain_certs : List String) × (p.format ≡ format_pfx)
              × (w.pkcs12 key leaf.der chain_certs p.pfx_password ≡ some bundle)
              × (c' ≡ record c { pfx = bundle })))
unfolding attach branch build_pfx ◌>>=◌ or_raise pure
attach-eq-ok w p key key_text leaf chain c c' db h = elim (Bool-cases (p.format == format_pfx)) [
  | inr other ↦ (ground arith, inl (ground (arith, eq_iff p.format format_pfx), ground arith))
  | inl pfx ↦ elim (Option-cases (if chain == "" then some [] else w.chain_of_pem chain)) [
    | inl bad ↦ absurd (ground arith)
    | inr (certs, x) ↦ elim (Option-cases (w.pkcs12 key leaf.der certs p.pfx_password)) [
      | inl bad ↦ absurd (ground arith)
      | inr (bundle, y) ↦ (
        ground arith,
        inr (bundle, certs, ground (arith, eq_iff p.format format_pfx), y, ground arith),
      )
    ]
  ]
]

-- The payload of an issued certificate: the plain key, or a bundle protected by the password of the
-- request, never both.
abbrev pub HasOnePayload : World → IssueParams → Certificate → String → String → Leaf → Type 0
HasOnePayload w p c key key_text leaf =
    ((p.format ≢ format_pfx) × (c.private_key_pem ≡ key_text) × (c.pfx ≡ ""))
    ⊎ ((bundle : String) × (chain : List String) × (p.format ≡ format_pfx)
        × (c.private_key_pem ≡ "")
        × (c.pfx ≡ bundle)
        × (w.pkcs12 key leaf.der chain p.pfx_password ≡ some bundle))

payload_lem :
    (w : World) (p : IssueParams) (key key_text : String) (leaf : Leaf) (res : SignResult)
    (sans : List String) (id : ℕ) (c0 c : Certificate)
    → c0 ≡ persisted_certificate leaf res sans "server" id
    → ((p.format ≢ format_pfx) × (c ≡ record c0 { private_key_pem = key_text }))
      ⊎ ((bundle : String) × (chain_certs : List String) × (p.format ≡ format_pfx)
          × (w.pkcs12 key leaf.der chain_certs p.pfx_password ≡ some bundle)
          × (c ≡ record c0 { pfx = bundle }))
    → (c.sans ≡ sans) × (c.id ≡ id) × HasOnePayload w p c key key_text leaf
payload_lem w p key key_text leaf res sans id c0 c made (inl (pem, e)) =
    (rw (e, made), rw (e, made), inl (pem, rw e, rw (e, made)))
payload_lem w p key key_text leaf res sans id c0 c made (inr (bundle, chain, pfx, x, e)) =
    (rw (e, made), rw (e, made), inr (bundle, chain, pfx, rw (e, made), rw e, x))

-- What `Issue` does after the CA's answer, when it goes through.
issue_answered-eq-ok :
    (w : World) (p : IssueParams) (cn : String) (sans : List String) (key : String)
    (res : SignResult) (db : Db) (c : Certificate)
    → (issue_answered w p cn sans key res db).0 ≡ ok c
    → (key_text : String) × (leaf : Leaf) × (sealed : String) × (json : String) × (w.key_pem key
        ≡ some key_text)
      × (w.seal key_text ≡ some sealed)
      × (res.certificate ≡ some leaf)
      × (w.json_of_names sans ≡ some json)
      × (c.sans ≡ sans)
      × (c.id ≡ db.certificates.seq + 1)
      × HasOnePayload w p c key key_text leaf
      × ((issue_answered w p cn sans key res db).1.calls ≡ db.calls)
      × ((issue_answered w p cn sans key res db).1.certificates
          ≡ append_row
              (persisted_row w leaf res json "server"
                (some sealed)
                p.actor
                p.provisioner_name
                (db.certificates.seq + 1))
              db.certificates)
unfolding issue_answered ◌>>=◌ ◌>>◌ or_raise pure audit_record
issue_answered-eq-ok w p cn sans key res db c h = elim (Option-cases (w.key_pem key)) [
  | inl bad ↦ absurd (ground arith)
  | inr (key_text, x) ↦ elim (Option-cases (w.seal key_text)) [
    | inl bad ↦ absurd (ground arith)
    | inr (sealed, y) ↦
        let stored = persist w res sans "server" (some sealed) p.actor p.provisioner_name db in
        elim (Result-cases stored.0) [
          | inl (e, bad) ↦ absurd (ground arith)
          | inr ((leaf, c0), z) ↦
              let (json, of_leaf, of_json, made, db') =
                persist-eq-ok w res sans "server" (some sealed) p.actor p.provisioner_name db leaf
                  c0 z in
              elim (Result-cases (attach w p key key_text leaf res.chain_pem c0 stored.1).0) [
                | inl (e, bad) ↦ absurd (ground arith)
                | inr (c1, v) ↦
                    let (unchanged, payload) =
                      attach-eq-ok w p key key_text leaf res.chain_pem c0 c1 stored.1 v in
                    let (of_sans, of_id, one) =
                      payload_lem w p key key_text leaf res sans (db.certificates.seq + 1) c0 c1
                        made payload in
                    let same : c ≡ c1 = ground arith in
                    (
                      key_text,
                      leaf,
                      sealed,
                      json,
                      x,
                      y,
                      of_leaf,
                      of_json,
                      rw same of_sans,
                      rw same of_id,
                      rw same one,
                      ground arith,
                      ground arith,
                    )
              ]
        ]
  ]
]

-- The steps of an issuance up to the CA's answer.
record IsSigned (w : World) (p : IssueParams) (db : Db) : Type 0 where
  key : String
  csr_pem : String
  res : SignResult
  named : trim_space p.cn ≢ ""
  generated : w.new_key ≡ some key
  requested :
      build_csr w (trim_space p.cn) (normalize_sans (trim_space p.cn) p.sans) key ≡ some csr_pem
  signed : w.sign_csr (issue_request p csr_pem) ≡ ok res
  left :
      issue w p db
      ≡ issue_answered w p
          (trim_space p.cn)
          (normalize_sans (trim_space p.cn) p.sans)
          key
          res
          (record db { calls = db.calls ++ sign (issue_request p csr_pem) ∷ [] })

issue-eq-ok :
    (w : World) (p : IssueParams) (db : Db) (c : Certificate)
    → (issue w p db).0 ≡ ok c
    → IsSigned w p db
unfolding issue issue_checked call_signer lift_ca or_raise raise_if modify ◌>>=◌ ◌>>◌
issue-eq-ok w p db c h =
    let cn = trim_space p.cn in
    let sans = normalize_sans cn p.sans in
    elim (Bool-cases (cn == "")) [
      | inl blank ↦ absurd (ground arith)
      | inr named ↦ elim (Bool-cases (p.format == format_pfx && p.pfx_password == "")) [
        | inl open_bundle ↦ absurd (ground arith)
        | inr protected ↦ elim (Option-cases w.new_key) [
          | inl bad ↦ absurd (ground arith)
          | inr (key, x) ↦ elim (Option-cases (build_csr w cn sans key)) [
            | inl bad ↦ absurd (ground arith)
            | inr (csr_pem, y) ↦ elim (Result-cases (w.sign_csr (issue_request p csr_pem))) [
              | inl (e, bad) ↦ absurd (ground arith)
              | inr (res, z) ↦ record {
                key = key;
                csr_pem = csr_pem;
                res = res;
                named = ground (arith, eq_iff cn "");
                generated = x;
                requested = y;
                signed = z;
                left = ground arith;
              }
            ]
          ]
        ]
      ]
    ]

-- An issuance that goes through had a common name that is not blank. The CA has got one request,
-- for exactly the normalized names and the key that was generated, and accepted it. One row is stored, for
-- the leaf that the CA returned, with those names and the sealed key. The certificate that is
-- handed out carries those names, the next id and exactly one payload: the plain key, or for the
-- PKCS#12 format the bundle under the request's password.
pub issue_lem :
    (w : World) (p : IssueParams) (db : Db) (c : Certificate)
    → (issue w p db).0 ≡ ok c
    → (key_text : String) × (leaf : Leaf) × (issued : IsIssued w p db
        (issue w p db).1
        key_text
        leaf)
      × (trim_space p.cn ≢ "")
      × (c.sans ≡ normalize_sans (trim_space p.cn) p.sans)
      × (c.id ≡ db.certificates.seq + 1)
      × HasOnePayload w p c issued.key key_text leaf
issue_lem w p db c h =
    let s = issue-eq-ok w p db c h in
    let asked : Db = record db { calls = db.calls ++ sign (issue_request p s.csr_pem) ∷ [] } in
    let (
      key_text, leaf, sealed, json, of_key, of_seal, of_leaf, of_json, of_sans, of_id, one,
      of_calls, of_rows,
    ) =
      issue_answered-eq-ok w p (trim_space p.cn) (normalize_sans (trim_space p.cn) p.sans) s.key
        s.res asked c (sym (ap (λ r. r.0) s.left) ∙ h) in
    (
      key_text,
      leaf,
      record {
        key = s.key;
        csr_pem = s.csr_pem;
        res = s.res;
        sealed = sealed;
        json = json;
        generated = s.generated;
        requested = s.requested;
        signed = s.signed;
        leaf_of = of_leaf;
        text_of = of_key;
        sealed_of = of_seal;
        json_of = of_json;
        stored = ap (λ r. r.1.certificates) s.left ∙ of_rows;
        called = ap (λ r. r.1.calls) s.left ∙ of_calls;
      },
      s.named,
      of_sans,
      of_id,
      one,
    )
