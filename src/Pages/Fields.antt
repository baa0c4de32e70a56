-- ===== src/Pages/Fields.antt =====
-- internal/app/certs.go and revoke.go: what is read of the fields of a form, and file names.
use Prim.Native.Char.{code}
use step_ui_ng.Base.{
  ℕ, suc, zero, String, List, [], ◌∷◌, Bool, true, false, Option, none, some, if◌then◌else◌, ◌==◌,
  string_eq, nat_eq, ◌||◌, ◌&&◌, not, leb, ◌-◌,
}
use step_ui_ng.Base.Text.{trim_space}
use step_ui_ng.Base.Int.{ℤ, pos, negsuc}
use step_ui_ng.Base.Number.{atoi, two_64}

abbrev pub is_positive : ℤ → Bool
is_positive (pos zero) = false
is_positive (pos (suc n)) = true
is_positive (negsuc n) = false

abbrev pub is_negative : ℤ → Bool
is_negative (pos n) = false
is_negative (negsuc n) = true

-- `parseValidity`
unfoldable pub parse_validity : String → Option ℤ
parse_validity raw =
    let (n, valid) = atoi (trim_space raw) in
    if not valid || not (is_positive n) then none else some n

-- `parseReasonCode`
unfoldable pub parse_reason_code : String → ℤ
parse_reason_code raw =
    let (n, valid) = atoi (trim_space raw) in if not valid || is_negative n then pos 0 else n

abbrev pub pattern_of : ℤ → ℕ
pattern_of (pos n) = n
pattern_of (negsuc n) = two_64 - 1 - n

-- `parseCertID`
unfoldable pub parse_cert_id : String → Option ℕ
parse_cert_id raw = let (n, valid) = atoi raw in if valid then some (pattern_of n) else none

-- `reasonCodeLabel`
unfoldable pub reason_code_label : ℤ → String
reason_code_label (negsuc n) = "unspecified"
reason_code_label (pos n) =
    if n == 1
    then "keyCompromise"
    else if n == 2
    then "cACompromise"
    else if n == 3
    then "affiliationChanged"
    else if n == 4
    then "superseded"
    else if n == 5
    then "cessationOfOperation"
    else if n == 6
    then "certificateHold"
    else if n == 8
    then "removeFromCRL"
    else if n == 9
    then "privilegeWithdrawn"
    else if n == 10
    then "aACompromise"
    else "unspecified"

-- The separators of a list of names: a comma, a line feed, a carriage return, a space or a tab.
unfoldable pub is_separator : ℕ → Bool
is_separator c = c == b',' || c == 10 || c == 13 || c == 32 || c == 9

abbrev pub put_word : String → List String → List String
put_word w ws = if w == "" then ws else w ∷ ws

-- The word that a text begins with, and the words after it.
unfoldable pub words_of : String → String × List String
words_of String.[] = (String.[], [])
words_of (String.◌∷◌ c s) =
    let (w, ws) = words_of s in
    if is_separator (code c) then (String.[], put_word w ws) else (String.◌∷◌ c w, ws)

-- `strings.FieldsFunc`
unfoldable pub fields : String → List String
fields s = let (w, ws) = words_of s in put_word w ws

abbrev pub trimmed : List String → List String
trimmed [] = []
trimmed (f ∷ fs) = put_word (trim_space f) (trimmed fs)

-- `splitSANs`
unfoldable pub split_sans : String → List String
split_sans raw = trimmed (fields raw)

-- A character that a file name keeps.
unfoldable pub is_safe : ℕ → Bool
is_safe c =
    leb b'a' c && leb c b'z'
    || leb b'A' c && leb c b'Z'
    || leb b'0' c && leb c b'9'
    || c == b'.'
    || c == b'-'
    || c == b'_'

-- A character that a file name neither begins nor ends with.
unfoldable pub is_edge : ℕ → Bool
is_edge c = c == b'.' || c == b'_' || c == b'-'

-- `strings.Map` with the cases of `downloadName`
unfoldable pub safe_text : String → String
safe_text String.[] = String.[]
safe_text (String.◌∷◌ c s) = String.◌∷◌ (if is_safe (code c) then c else "_") (safe_text s)
