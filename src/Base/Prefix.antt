-- ===== src/Base/Prefix.antt =====
-- More of Go's package `strings`: prefixes, cut sets, replacement and case.
use Prim.Native.Nat.{ℕ, ◌<◌, suc}
use Prim.Native.Char.{Char, code}
use Prim.Native.String.{String}
use mathlib.Core.Path.{◌≡◌, refl, ap}
use mathlib.Core.Logic.{◌⊎◌, inl, inr}
use native.Mathlib.Omega.{arith}
use mathlib.Core.Bool.{Bool, true, false, ◌&&◌}
use step_ui_ng.Base.Tests.{◌==◌, leb, nat_eq, if◌then◌else◌, Bool-cases}

-- `strings.HasPrefix`
unfoldable pub has_prefix : String → String → Bool
has_prefix s String.[] = true
has_prefix String.[] (String.◌∷◌ d p) = false
has_prefix (String.◌∷◌ c s) (String.◌∷◌ d p) = code c == code d && has_prefix s p

skip : String → String → String
skip s String.[] = s
skip String.[] (String.◌∷◌ d p) = String.[]
skip (String.◌∷◌ c s) (String.◌∷◌ d p) = skip s p

-- `strings.TrimPrefix`
unfoldable pub trim_prefix : String → String → String
unfolding skip
trim_prefix s p = if has_prefix s p then skip s p else s

cut_back : Bool → Char → String → String
cut_back false c t = String.◌∷◌ c t
cut_back true c String.[] = String.[]
cut_back true c (String.◌∷◌ d t) = String.◌∷◌ c (String.◌∷◌ d t)

-- `strings.TrimRight(s, "/")`
unfoldable pub trim_right_slash : String → String
unfolding cut_back
trim_right_slash String.[] = String.[]
trim_right_slash (String.◌∷◌ c s) = cut_back (code c == b'/') c (trim_right_slash s)

-- `strings.ReplaceAll(s, sep, "")` for a separator of one character.
unfoldable pub remove_all : ℕ → String → String
remove_all sep String.[] = String.[]
remove_all sep (String.◌∷◌ c s) =
    let rest = remove_all sep s in if code c == sep then rest else String.◌∷◌ c rest

-- The letter of the second text at the place where the first has the given one.
translate : String → String → Char → Char
translate (String.◌∷◌ a s) (String.◌∷◌ b t) c = if code c == code a then b else translate s t c
translate String.[] t c = c
translate (String.◌∷◌ a s) String.[] c = c

abbrev upper : String
upper = "ABCDEFGHIJKLMNOPQRSTUVWXYZ"

abbrev lower : String
lower = "abcdefghijklmnopqrstuvwxyz"

unfoldable pub lower_char : Char → Char
unfolding translate
lower_char c = translate upper lower c

-- `strings.ToLower` on the letters of ASCII.
unfoldable pub to_lower : String → String
unfolding lower_char
to_lower String.[] = String.[]
to_lower (String.◌∷◌ c s) = String.◌∷◌ (lower_char c) (to_lower s)

prefix_tests :
    (trim_prefix "https://a" "https://" ≡ "a")
    × (trim_right_slash "a/b//" ≡ "a/b")
    × (remove_all b':' (to_lower "AB:0z") ≡ "ab0z")
unfolding has_prefix trim_prefix trim_right_slash remove_all to_lower
prefix_tests = (refl, refl, refl)

-- No letter of the text is the given one.
abbrev Lacks : String → Char → Type 0
Lacks String.[] c = Unit
Lacks (String.◌∷◌ a s) c = ((code c == code a) ≡ false) × Lacks s c

-- Every letter lies between two numbers.
abbrev within : ℕ → ℕ → String → Bool
within lo hi String.[] = true
within lo hi (String.◌∷◌ a s) = leb lo (code a) && leb (code a) hi && within lo hi s

Lacks-above : (lo hi : ℕ) (s : String) (c : Char) → within lo hi s ≡ true → hi < code c → Lacks s c
Lacks-above lo hi String.[] c h k = tt
Lacks-above lo hi (String.◌∷◌ a s) c h k = (ground arith, Lacks-above lo hi s c (ground arith) k)

translate-Lacks : (s t : String) (c : Char) → Lacks s c → translate s t c ≡ c
unfolding translate
translate-Lacks String.[] t c h = refl
translate-Lacks (String.◌∷◌ a s) String.[] c h = refl
translate-Lacks (String.◌∷◌ a s) (String.◌∷◌ b t) c h = rw h.0 (translate-Lacks s t c h.1)

-- A letter that is looked up is either left alone or replaced by one above all of the first text.
translate-Lacks_again :
    (lo hi top : ℕ) (u s t : String) (c : Char)
    → within lo hi u ≡ true
    → within (suc hi) top t ≡ true
    → (Lacks s c → Lacks u c)
    → Lacks u (translate s t c) ⊎ (translate s t c ≡ c)
unfolding translate
translate-Lacks_again lo hi top u String.[] t c h k l = inl (l tt)
translate-Lacks_again lo hi top u (String.◌∷◌ a s) String.[] c h k l = inr refl
translate-Lacks_again lo hi top u (String.◌∷◌ a s) (String.◌∷◌ b t) c h k l =
    elim (Bool-cases (code c == code a)) [
      | inl e ↦ rw e (inl (Lacks-above lo hi u b h (ground arith)))
      | inr e ↦ rw e (translate-Lacks_again lo hi top u s t c h (ground arith) (λ m. l (e, m)))
    ]

lower_char_idem : (c : Char) → lower_char (lower_char c) ≡ lower_char c
unfolding lower_char
lower_char_idem c = elim (translate-Lacks_again 65 90 122 upper upper lower c refl refl (λ l. l)) [
  | inl l ↦ translate-Lacks upper lower (translate upper lower c) l
  | inr e ↦ ap (translate upper lower) e
]

-- Every letter is in lower case.
abbrev pub IsLower : String → Type 0
IsLower String.[] = Unit
IsLower (String.◌∷◌ c s) = (lower_char c ≡ c) × IsLower s

pub IsLower-to_lower : (s : String) → IsLower (to_lower s)
unfolding to_lower
IsLower-to_lower String.[] = tt
IsLower-to_lower (String.◌∷◌ c s) = (lower_char_idem c, IsLower-to_lower s)

pub to_lower-IsLower : (s : String) → IsLower s → to_lower s ≡ s
unfolding to_lower
to_lower-IsLower String.[] h = refl
to_lower-IsLower (String.◌∷◌ c s) h = rw (h.0, to_lower-IsLower s h.1)

pub IsLower-remove_all : (sep : ℕ) (s : String) → IsLower s → IsLower (remove_all sep s)
unfolding remove_all
IsLower-remove_all sep String.[] h = tt
IsLower-remove_all sep (String.◌∷◌ c s) h = elim (Bool-cases (code c == sep)) [
  | inl e ↦ rw e (IsLower-remove_all sep s h.1)
  | inr e ↦ rw e (h.0, IsLower-remove_all sep s h.1)
]
