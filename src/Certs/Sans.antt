-- ===== src/Certs/Sans.antt =====
-- internal/certs/certs.go: the list of subject alternative names, `normalizeSANs`, and how
-- `buildCSR` sorts the names into the fields of a request.
use step_ui_ng.Base.{
  String, List, Bool, [], Option, ◌++◌, ◌∷◌, false, if◌then◌else◌, some, ◌==◌, none, ◌||◌, ◌&&◌,
  string_eq, nat_eq,
}
use step_ui_ng.Base.Text.{trim_space}
use Prim.Native.Char.{code}

unfoldable pub contains : String → List String → Bool
contains v [] = false
contains v (x ∷ xs) = v == x || contains v xs

-- The variables of `normalizeSANs`: the keys of the map `seen`, and `out`.
pub record Names : Type 0 where
  pub seen : List String
  pub out : List String

-- The closure `add`.
unfoldable pub add_name : Names → String → Names
add_name st s =
    let v = trim_space s in
    if v == "" || contains v st.seen
    then st
    else record { seen = v ∷ st.seen; out = st.out ++ v ∷ [] }

unfoldable pub add_names : Names → List String → Names
add_names st [] = st
add_names st (s ∷ ss) = add_names (add_name st s) ss

-- `normalizeSANs`
unfoldable pub normalize_sans : String → List String → List String
normalize_sans cn extra = (add_names (add_name (record { seen = []; out = [] }) cn) extra).out

-- The fields of `x509.CertificateRequest` that hold names; an address and a URL stand for the texts
-- that `String` gives.
pub record Template : Type 0 where
  pub dns_names : List String
  pub ip_addresses : List String
  pub email_addresses : List String
  pub uris : List String

pub record Url : Type 0 where
  pub scheme : String
  pub host : String
  pub opaque : String
  pub text : String

unfoldable pub has_at : String → Bool
has_at String.[] = false
has_at (String.◌∷◌ c s) = code c == b'@' || has_at s

-- `net.ParseIP` and `url.Parse` are parameters.
module _ (parse_ip : String → Option String) (parse_url : String → Option Url) where
  -- `parseURI`
  unfoldable pub parse_uri : String → Option Url
  parse_uri s = elim (parse_url s) [
    | none ↦ none
    | some u ↦
        if u.scheme == "" then none else if u.host == "" && u.opaque == "" then none else some u
  ]

  -- `classifySAN`
  unfoldable pub classify_san : Template → String → Template
  classify_san t s = elim (parse_ip s) [
    | some ip ↦ record t { ip_addresses = t.ip_addresses ++ ip ∷ [] }
    | none ↦ elim (parse_uri s) [
      | some u ↦ record t { uris = t.uris ++ u.text ∷ [] }
      | none ↦
          if has_at s
          then record t { email_addresses = t.email_addresses ++ s ∷ [] }
          else record t { dns_names = t.dns_names ++ s ∷ [] }
    ]
  ]

  -- The loop of `buildCSR`.
  unfoldable pub classify_sans : Template → List String → Template
  classify_sans t [] = t
  classify_sans t (s ∷ ss) = classify_sans (classify_san t s) ss

-- `csrSANs`
unfoldable pub csr_sans : Template → List String
csr_sans t = t.dns_names ++ (t.ip_addresses ++ (t.email_addresses ++ t.uris))
