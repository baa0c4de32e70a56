-- ===== src/Crypto/Tests.antt =====
-- Runs of the key's file, and a cipher that keeps its laws: an unkeyed one, with a byte in front as tag.
use Prim.Native.Nat.{Ordering, compare}
use Prim.Native.Char.{Char, char, code, nul, IsLt, IsScalar}
use text.Mathlib.TextEquality.{IsScalar-prop}
use text.Mathlib.TextLemmas.{cons≢nil}
use step_ui_ng.Base.{
  ℕ, suc, zero, List, [], ◌∷◌, Option, none, some, true, false, ◌≡◌, ok, err, ap, refl, inl, inr,
  ◌⊎◌, String, if◌then◌else◌, ◌+◌, ◌∙◌, ◌==◌, arith, Bool-cases, nat_eq, eq_iff, string_eq,
}
use step_ui_ng.Crypto.Box.{
  Bytes, Cipher, IsCipher, seal, open_text, not_authentic, box_open, too_short,
}
use step_ui_ng.Settings.Store.{SettingsEnv}
use step_ui_ng.Settings.Spec.{Represents, Command, save_connection, select_name}
use step_ui_ng.Crypto.Files.{Fate, Files, fill, meet, perform, File}
use step_ui_ng.Crypto.Sealed.{open-seal, boxed, boxed-Refines}
use step_ui_ng.Crypto.Key.{◌>>=◌, run, turn, start, load_or_create_key, ret, with_temp}
use step_ui_ng.Settings.History.{perform_all, apply_all}
use step_ui_ng.Crypto.Agreement.{one_key, Holds, Permitted, key_file}
use step_ui_ng.Crypto.Turns.{starts}
use step_ui_ng.Crypto.Rely.{IsFresh}

-- The clauses of the two helpers of `IsScalar`, which are private to its module.
abbrev BothLt : Ordering → Ordering → Type 0
BothLt Ordering.lt o = IsLt o
BothLt Ordering.eq _ = ⊥
BothLt Ordering.gt _ = ⊥

abbrev Scalar : Ordering → Ordering → Ordering → Type 0
Scalar Ordering.lt _ _ = Unit
Scalar Ordering.eq o p = BothLt o p
Scalar Ordering.gt o p = BothLt o p

BothLt-cases : (o p : Ordering) → BothLt o p ⊎ ¬ BothLt o p
BothLt-cases Ordering.lt Ordering.lt = inl tt
BothLt-cases Ordering.lt Ordering.eq = inr (λ h. h)
BothLt-cases Ordering.lt Ordering.gt = inr (λ h. h)
BothLt-cases Ordering.eq p = inr (λ h. h)
BothLt-cases Ordering.gt p = inr (λ h. h)

Scalar-cases : (o p q : Ordering) → Scalar o p q ⊎ ¬ Scalar o p q
Scalar-cases Ordering.lt p q = inl tt
Scalar-cases Ordering.eq p q = BothLt-cases p q
Scalar-cases Ordering.gt p q = BothLt-cases p q

abbrev char_or_nul : (n : ℕ) → IsScalar n ⊎ ¬ IsScalar n → Char
char_or_nul n (inl h) = char n h
char_or_nul n (inr h) = nul

IsScalar-cases : (n : ℕ) → IsScalar n ⊎ ¬ IsScalar n
IsScalar-cases n = Scalar-cases (compare n 55296) (compare 57343 n) (compare n 1114112)

char_or_nul_lem :
    (n : ℕ) (h : IsScalar n) (r : IsScalar n ⊎ ¬ IsScalar n) → char_or_nul n r ≡ char n h
char_or_nul_lem n h (inl g) = ap (char n) (IsScalar-prop n g h)
char_or_nul_lem n h (inr g) = absurd (g h)

abbrev codes : String → Bytes
codes String.[] = []
codes (String.◌∷◌ c s) = code c ∷ codes s

of_codes : Bytes → String
of_codes [] = String.[]
of_codes (n ∷ l) = String.◌∷◌ (char_or_nul n (IsScalar-cases n)) (of_codes l)

of_codes-codes : (s : String) → of_codes (codes s) ≡ s
unfolding of_codes
of_codes-codes String.[] = refl
of_codes-codes (String.◌∷◌ (char n h) s) =
    rw (char_or_nul_lem n h (IsScalar-cases n), of_codes-codes s)

-- A byte as so many letters, with a sign behind.
spell : ℕ → String → String
spell zero s = String.◌∷◌ "." s
spell (suc n) s = String.◌∷◌ "x" (spell n s)

encode : Bytes → String
encode [] = String.[]
encode (n ∷ l) = spell n (encode l)

abbrev put : ℕ → Option Bytes → Option Bytes
put n none = none
put n (some l) = some (n ∷ l)

decode_from : ℕ → String → Option Bytes
decode_from n String.[] = some []
decode_from n (String.◌∷◌ c s) =
    let one = put n (decode_from 0 s) in
    let more = decode_from (suc n) s in if code c == 46 then one else more

decode_from-spell :
    (m n : ℕ) (s : String) → decode_from n (spell m s) ≡ put (m + n) (decode_from 0 s)
unfolding decode_from spell
decode_from-spell zero n s = ap (λ k. put k (decode_from 0 s)) (omega arith)
decode_from-spell (suc m) n s =
    decode_from-spell m (suc n) s ∙ ap (λ k. put k (decode_from 0 s)) (omega arith)

decode_from-encode : (l : Bytes) → decode_from 0 (encode l) ≡ some l
unfolding encode decode_from
decode_from-encode [] = refl
decode_from-encode (n ∷ l) =
    decode_from-spell n 0 (encode l)
    ∙ rw (decode_from-encode l) (ap (λ k. some (k ∷ l)) (omega arith))

shown : (n : ℕ) (s : String) → (spell n s == "") ≡ false
unfolding spell
shown zero s = elim (Bool-cases (String.◌∷◌ "." s == "")) [
  | inl e ↦ absurd (cons≢nil ((eq_iff (String.◌∷◌ "." s) "").0 e))
  | inr e ↦ e
]
shown (suc n) s = elim (Bool-cases (String.◌∷◌ "x" (spell n s) == "")) [
  | inl e ↦ absurd (cons≢nil ((eq_iff (String.◌∷◌ "x" (spell n s)) "").0 e))
  | inr e ↦ e
]

-- A tag of the first byte of the key.
abbrev tag : Bytes → ℕ
tag [] = 0
tag (k ∷ key) = k

abbrev untagged : ℕ → Bytes → Option Bytes
untagged t [] = none
untagged t (x ∷ l) = if x == t then some l else none

untagged_lem : (t : ℕ) (l : Bytes) → untagged t (t ∷ l) ≡ some l
untagged_lem t l = ground arith

abbrev cipher : Cipher
cipher = record {
  nonce_size = 2;
  aead_seal = λ key nonce plain. tag key ∷ plain;
  aead_open = λ key nonce sealed. untagged (tag key) sealed;
  encode = encode;
  decode = decode_from 0;
  to_bytes = codes;
  of_bytes = of_codes;
}

cipher-IsCipher : IsCipher cipher
unfolding encode
cipher-IsCipher = record {
  opens = λ key nonce plain. untagged_lem (tag key) plain;
  decodes = decode_from-encode;
  converts = of_codes-codes;
  has_nonce = omega arith;
  shows = λ x raw. shown x (encode raw);
}

abbrev key : Bytes
key = 7 ∷ []

open-seal_example : open_text cipher key ".x.xxxxxxx.xx." ≡ ok (2 ∷ [])
unfolding seal encode spell
open-seal_example =
    open-seal cipher cipher-IsCipher key (0 ∷ 1 ∷ []) (2 ∷ []) ".x.xxxxxxx.xx." refl refl

-- Another key, a text that is too short, and a text that is no encoding.
open_text_test :
    (open_text cipher (8 ∷ []) ".x.xxxxxxx.xx." ≡ err not_authentic)
    × (open_text cipher key "." ≡ err too_short)
unfolding open_text decode_from
open_text_test = (refl, refl)

abbrev env : SettingsEnv
env = record { fails = λ s. false; now = 5; seal = λ s. none; unseal = λ s. none }

abbrev session : List (Option Bytes × SettingsEnv × Command)
session =
    (
      some (0 ∷ 1 ∷ []),
      env,
      save_connection (record { ca_url = "https://ca"; root_fingerprint = "" }),
    )
    ∷ (none, env, select_name "admin" "lost")
    ∷ (some (1 ∷ 1 ∷ []), env, select_name "admin" "b")
    ∷ []

boxed-Refines_example :
    Represents
      (box_open cipher key)
      (perform_all (boxed cipher key session) none)
      (apply_all (boxed cipher key session) none none)
boxed-Refines_example = boxed-Refines cipher cipher-IsCipher key session (refl, (tt, (refl, tt)))

abbrev fine : Fate
fine = record { works = true; entropy = λ n. n; umasked = 256; written = [] }

abbrev no_key : Files
no_key = record { key = none; temp = λ i. none }

-- Two processes, one call each in turn: both read before the key is there.
abbrev alternate : ℕ → List (ℕ × Fate)
alternate zero = []
alternate (suc n) = (0, fine) ∷ (1, record fine { entropy = λ n. n + 1 }) ∷ alternate n

abbrev winner : Bytes
winner = fill 32 (λ n. n)

-- The second adopts the key of the first.
first_start_test :
    ((run (start no_key) (alternate 11)).procs 0 ≡ ret (ok winner))
    × ((run (start no_key) (alternate 11)).procs 1 ≡ ret (ok winner))
    × ((run (start no_key) (alternate 11)).files.key
        ≡ some (record { content = winner; mode = 384 }))
unfolding run turn load_or_create_key meet perform with_temp ◌>>=◌
first_start_test = (refl, refl, refl)

one_key_example : (winner ≡ winner) × Holds (run (start no_key) (alternate 11)).files winner
one_key_example =
    one_key no_key (alternate 11) 0 1 winner winner first_start_test.0 first_start_test.1

alternate-Permitted : (n : ℕ) → Permitted true none (alternate n)
alternate-Permitted zero = tt
alternate-Permitted (suc n) = (λ e. refl, (λ e. refl, alternate-Permitted n))

starts_example :
    (a : Bytes) × ((run (start no_key) (alternate 11)).procs 1 ≡ ret (ok a))
    × Holds (run (start no_key) (alternate 11)).files a
starts_example =
    starts no_key (alternate 11) 1 (λ g e. absurd (cc e)) (alternate-Permitted 11) (omega arith)

key_file_example :
    ((g : File) × (◌≡◌ {A = Option File} none (some g)) × (winner ≡ g.content))
    ⊎ (◌≡◌ {A = Option File} none none) × IsFresh (record { content = winner; mode = 384 })
key_file_example =
    key_file no_key (alternate 11) (record { content = winner; mode = 384 }) first_start_test.2
