-- ===== src/Pages/Names.antt =====
-- internal/app/certs.go: the names of downloads.
use Prim.Native.Char.{Char, code}
use text.Mathlib.TextLemmas.{cons≢nil}
use step_ui_ng.Base.{
  String, Bool, true, false, if◌then◌else◌, ◌==◌, string_eq, nat_eq, ◌≡◌, refl, inl, inr,
  Bool-cases, ◌∷◌, [], eq_iff, ◌⊎◌, subst, sym,
}
use step_ui_ng.Base.Text.{trim_space, concat}
use step_ui_ng.Pages.Fields.{is_safe, is_edge, safe_text}

trim_start : String → String
trim_start String.[] = String.[]
trim_start (String.◌∷◌ c s) = if is_edge (code c) then trim_start s else String.◌∷◌ c s

-- An edge is put in front of a rest only if that rest is not cut off as a whole.
abbrev put_front : Bool → Char → String → String
put_front false c t = String.◌∷◌ c t
put_front true c String.[] = String.[]
put_front true c (String.◌∷◌ d t) = String.◌∷◌ c (String.◌∷◌ d t)

trim_end : String → String
trim_end String.[] = String.[]
trim_end (String.◌∷◌ c s) = put_front (is_edge (code c)) c (trim_end s)

-- `strings.Trim` with the set "._-"
unfoldable pub trim_edges : String → String
unfolding trim_start trim_end
trim_edges s = trim_end (trim_start s)

abbrev pub or_certificate : String → String
or_certificate safe = if safe == "" then "certificate" else safe

-- `downloadName`
unfoldable pub download_name : String → String
download_name cn = or_certificate (trim_edges (safe_text (trim_space cn)))

-- `pfxFilename`
unfoldable pub pfx_filename : String → String
pfx_filename cn = concat (download_name cn ∷ ".pfx" ∷ [])

-- `keyFilename`
unfoldable pub key_filename : String → String
key_filename cn = concat (download_name cn ∷ ".key.pem" ∷ [])

download_name_tests :
    (download_name " ../*.example.com " ≡ "example.com") × (download_name " _._ " ≡ "certificate")
unfolding download_name safe_text is_safe is_edge trim_edges trim_space
download_name_tests = (refl, refl)

-- Letters, digits, dots, dashes and underscores only.
abbrev pub IsSafe : String → Type 0
IsSafe String.[] = Unit
IsSafe (String.◌∷◌ c s) = (is_safe (code c) ≡ true) × IsSafe s

-- It has a first character, which is no dot, dash or underscore.
abbrev pub HasHead : String → Type 0
HasHead String.[] = ⊥
HasHead (String.◌∷◌ c s) = is_edge (code c) ≡ false

-- Its last character, if there is one, is no dot, dash or underscore.
abbrev pub HasTail : String → Type 0
HasTail String.[] = Unit
HasTail (String.◌∷◌ c String.[]) = is_edge (code c) ≡ false
HasTail (String.◌∷◌ c (String.◌∷◌ d s)) = HasTail (String.◌∷◌ d s)

underscore_lem : is_safe 95 ≡ true
unfolding is_safe
underscore_lem = refl

safe_text-IsSafe : (s : String) → IsSafe (safe_text s)
unfolding safe_text
safe_text-IsSafe String.[] = tt
safe_text-IsSafe (String.◌∷◌ c s) = elim (Bool-cases (is_safe (code c))) [
  | inl e ↦ rw e (e, safe_text-IsSafe s)
  | inr e ↦ rw e (underscore_lem, safe_text-IsSafe s)
]

trim_start-IsSafe : (s : String) → IsSafe s → IsSafe (trim_start s)
unfolding trim_start
trim_start-IsSafe String.[] h = tt
trim_start-IsSafe (String.◌∷◌ c s) h = elim (Bool-cases (is_edge (code c))) [
  | inl e ↦ rw e (trim_start-IsSafe s h.1)
  | inr e ↦ rw e h
]

put_front-IsSafe :
    (b : Bool) (c : Char) (t : String)
    → is_safe (code c) ≡ true
    → IsSafe t
    → IsSafe (put_front b c t)
put_front-IsSafe false c t h g = (h, g)
put_front-IsSafe true c String.[] h g = tt
put_front-IsSafe true c (String.◌∷◌ d t) h g = (h, g)

trim_end-IsSafe : (s : String) → IsSafe s → IsSafe (trim_end s)
unfolding trim_end
trim_end-IsSafe String.[] h = tt
trim_end-IsSafe (String.◌∷◌ c s) h =
    put_front-IsSafe (is_edge (code c)) c (trim_end s) h.0 (trim_end-IsSafe s h.1)

put_front-HasTail :
    (b : Bool) (c : Char) (t : String)
    → is_edge (code c) ≡ b
    → HasTail t
    → HasTail (put_front b c t)
put_front-HasTail false c String.[] e h = e
put_front-HasTail false c (String.◌∷◌ d t) e h = h
put_front-HasTail true c String.[] e h = tt
put_front-HasTail true c (String.◌∷◌ d t) e h = h

trim_end-HasTail : (s : String) → HasTail (trim_end s)
unfolding trim_end
trim_end-HasTail String.[] = tt
trim_end-HasTail (String.◌∷◌ c s) =
    put_front-HasTail (is_edge (code c)) c (trim_end s) refl (trim_end-HasTail s)

-- A head that is no edge stays.
put_front-HasHead :
    (c : Char) (s : String) → is_edge (code c) ≡ false → HasHead (trim_end (String.◌∷◌ c s))
unfolding trim_end
put_front-HasHead c s e = rw e e

trimmed_cases :
    (s : String) → (trim_end (trim_start s) ≡ String.[]) ⊎ HasHead (trim_end (trim_start s))
unfolding trim_start trim_end
trimmed_cases String.[] = inl refl
trimmed_cases (String.◌∷◌ c s) = elim (Bool-cases (is_edge (code c))) [
  | inl e ↦ rw e (trimmed_cases s)
  | inr e ↦ rw e (inr (put_front-HasHead c s e))
]

-- What a file name is like: safe characters only, at least one, and neither hidden nor with an edge at
-- its end.
abbrev pub IsFileName : String → Type 0
IsFileName s = IsSafe s × HasHead s × HasTail s

fallback-IsFileName : IsFileName "certificate"
unfolding is_safe is_edge
fallback-IsFileName = (
  (refl, (refl, (refl, (refl, (refl, (refl, (refl, (refl, (refl, (refl, (refl, tt))))))))))),
  refl,
  refl,
)

or_certificate-IsFileName :
    (s : String)
    → IsSafe s
    → HasTail s
    → (s ≡ String.[]) ⊎ HasHead s
    → IsFileName (or_certificate s)
or_certificate-IsFileName s safe tail (inl e) =
    subst (λ t. IsFileName (or_certificate t)) (sym e) fallback-IsFileName
or_certificate-IsFileName String.[] safe tail (inr h) = absurd h
or_certificate-IsFileName (String.◌∷◌ c s) safe tail (inr h) =
    elim (Bool-cases (String.◌∷◌ c s == "")) [
      | inl e ↦ absurd (cons≢nil ((eq_iff (String.◌∷◌ c s) "").0 e))
      | inr e ↦ rw e (safe, h, tail)
    ]

-- Whatever the common name of a certificate, the name of its download consists of letters, digits, dots,
-- dashes and underscores, has at least one character, and neither begins nor ends with a dot, a dash
-- or an underscore.
pub download_name-IsFileName : (cn : String) → IsFileName (download_name cn)
unfolding download_name trim_edges
download_name-IsFileName cn =
    let s = safe_text (trim_space cn) in
    or_certificate-IsFileName (trim_end (trim_start s))
      (trim_end-IsSafe (trim_start s) (trim_start-IsSafe s (safe_text-IsSafe (trim_space cn))))
      (trim_end-HasTail (trim_start s)) (trimmed_cases s)
