-- ===== src/Base/Text.antt =====
-- What the source uses of Go's package `strings`. A text is a sequence of code points; Go's texts
-- that are no valid UTF-8 are outside of the model.
use Prim.Native.Nat.{ℕ}
use Prim.Native.Char.{Char, code}
use Prim.Native.String.{String, ◌++◌}
use mathlib.Core.List.{List, [], ◌∷◌}
use mathlib.Core.Path.{◌≡◌, refl}
use mathlib.Core.Logic.{inl, inr}
use mathlib.Core.Bool.{Bool, true, false, ◌&&◌, ◌||◌}
use step_ui_ng.Base.Tests.{leb, ◌==◌, nat_eq, if◌then◌else◌, Bool-cases}

-- Go's `+` of texts, and `fmt.Sprintf` at the verbs `%s`.
abbrev pub concat : List String → String
concat [] = String.[]
concat (s ∷ []) = s
concat (s ∷ t ∷ l) = s ++ concat (t ∷ l)

-- `unicode.IsSpace`
unfoldable pub is_space : ℕ → Bool
is_space c =
    leb 9 c && leb c 13
    || c == 0x20
    || c == 0x85
    || c == 0xa0
    || c == 0x1680
    || leb 0x2000 c && leb c 0x200a
    || c == 0x2028
    || c == 0x2029
    || c == 0x202f
    || c == 0x205f
    || c == 0x3000

trim_left : String → String
trim_left String.[] = String.[]
trim_left (String.◌∷◌ c s) = if is_space (code c) then trim_left s else String.◌∷◌ c s

-- A space is put in front of a rest only if that rest is not blank.
abbrev put_back : Bool → Char → String → String
put_back false c t = String.◌∷◌ c t
put_back true c String.[] = String.[]
put_back true c (String.◌∷◌ d t) = String.◌∷◌ c (String.◌∷◌ d t)

trim_right : String → String
trim_right String.[] = String.[]
trim_right (String.◌∷◌ c s) = put_back (is_space (code c)) c (trim_right s)

-- `strings.TrimSpace`
unfoldable pub trim_space : String → String
unfolding trim_left trim_right is_space
trim_space s = trim_right (trim_left s)

trim_space_test : trim_space " \tab c \n" ≡ "ab c"
unfolding trim_space
trim_space_test = refl

-- No space stands in front.
abbrev HasNoLead : String → Type 0
HasNoLead String.[] = Unit
HasNoLead (String.◌∷◌ c s) = is_space (code c) ≡ false

trim_left-HasNoLead : (s : String) → HasNoLead (trim_left s)
unfolding trim_left
trim_left-HasNoLead String.[] = tt
trim_left-HasNoLead (String.◌∷◌ c s) = elim (Bool-cases (is_space (code c))) [
  | inl e ↦ rw e (trim_left-HasNoLead s)
  | inr e ↦ rw e e
]

trim_left_of_HasNoLead : (s : String) → HasNoLead s → trim_left s ≡ s
unfolding trim_left
trim_left_of_HasNoLead String.[] h = refl
trim_left_of_HasNoLead (String.◌∷◌ c s) h = rw h

trim_right-HasNoLead : (s : String) → HasNoLead s → HasNoLead (trim_right s)
unfolding trim_right
trim_right-HasNoLead String.[] h = tt
trim_right-HasNoLead (String.◌∷◌ c s) h = rw h h

put_back-trim_right :
    (b : Bool) (c : Char) (t : String)
    → b ≡ is_space (code c)
    → trim_right t ≡ t
    → trim_right (put_back b c t) ≡ put_back b c t
unfolding trim_right
put_back-trim_right false c t e h = rw (← e, h)
put_back-trim_right true c String.[] e h = refl
put_back-trim_right true c (String.◌∷◌ d t) e h = rw (← e, h)

trim_right_idem : (s : String) → trim_right (trim_right s) ≡ trim_right s
unfolding trim_right
trim_right_idem String.[] = refl
trim_right_idem (String.◌∷◌ c s) =
    put_back-trim_right (is_space (code c)) c (trim_right s) refl (trim_right_idem s)

-- To trim a text a second time changes nothing.
pub trim_space_idem : (s : String) → trim_space (trim_space s) ≡ trim_space s
unfolding trim_space
trim_space_idem s =
    let clean = trim_right-HasNoLead (trim_left s) (trim_left-HasNoLead s) in
    rw (trim_left_of_HasNoLead (trim_right (trim_left s)) clean) (trim_right_idem (trim_left s))

-- No character is a space.
abbrev pub IsSolid : String → Type 0
IsSolid String.[] = Unit
IsSolid (String.◌∷◌ c s) = (is_space (code c) ≡ false) × IsSolid s

trim_right-IsSolid : (s : String) → IsSolid s → trim_right s ≡ s
unfolding trim_right
trim_right-IsSolid String.[] h = refl
trim_right-IsSolid (String.◌∷◌ c s) h = rw (h.0, trim_right-IsSolid s h.1)

pub trim_space-IsSolid : (s : String) → IsSolid s → trim_space s ≡ s
unfolding trim_space
trim_space-IsSolid String.[] h = refl
trim_space-IsSolid (String.◌∷◌ c s) h =
    rw (trim_left_of_HasNoLead (String.◌∷◌ c s) h.0) (trim_right-IsSolid (String.◌∷◌ c s) h)
