-- ===== src/Certs/Usages.antt =====
-- What the names of the usages of a key stand for.
use step_ui_ng.Base.{
  [], ◌∷◌, refl, inl, inr, ◌==◌, string_eq, nat_eq, if◌then◌else◌, ◌%◌, ◌*◌, arith, eq_iff, List,
  String, ℕ, ◌+◌, All, ◌≡◌, false, Bool-cases, ◌∙◌,
}
use step_ui_ng.Certs.Parsed.{named_bits, has_bit, usage_bits, key_usage_strings}

-- The number that a list of names of usages stands for.
unfoldable pub usage_of : List (ℕ × String) → List String → ℕ
usage_of bits [] = 0
usage_of [] (name ∷ names) = 0
usage_of ((mask, n) ∷ bits) (name ∷ names) =
    if n == name then mask + usage_of bits names else usage_of bits (name ∷ names)

abbrev IsFresh : String → List (ℕ × String) → Type 0
IsFresh n bits = All (λ b. (n == b.1) ≡ false) bits

abbrev AreDistinct : List (ℕ × String) → Type 0
AreDistinct [] = Unit
AreDistinct ((mask, n) ∷ bits) = IsFresh n bits × AreDistinct bits

abbrev sum_of_bits : List (ℕ × String) → ℕ → ℕ
sum_of_bits [] ku = 0
sum_of_bits ((mask, n) ∷ bits) ku = (if has_bit ku mask then mask else 0) + sum_of_bits bits ku

skip_lem :
    (ku mask : ℕ) (n : String) (bits0 bits : List (ℕ × String))
    → IsFresh n bits
    → usage_of ((mask, n) ∷ bits0) (named_bits bits ku) ≡ usage_of bits0 (named_bits bits ku)
unfolding usage_of named_bits
skip_lem ku mask n [] [] h = refl
skip_lem ku mask n (b ∷ bits0) [] h = refl
skip_lem ku mask n bits0 ((m, name) ∷ bits) (h, hs) = elim (Bool-cases (has_bit ku m)) [
  | inl x ↦ rw (x, h) refl
  | inr x ↦ rw x (skip_lem ku mask n bits0 bits hs)
]

zero_sum : (n : ℕ) → n ≡ 0 + n
zero_sum n = omega arith

usage_of-named_bits :
    (ku : ℕ) (bits : List (ℕ × String))
    → AreDistinct bits
    → usage_of bits (named_bits bits ku) ≡ sum_of_bits bits ku
unfolding usage_of named_bits
usage_of-named_bits ku [] h = refl
usage_of-named_bits ku ((mask, n) ∷ bits) (h, hs) = elim (Bool-cases (has_bit ku mask)) [
  | inl x ↦ rw (x, (eq_iff n n).1 refl, usage_of-named_bits ku bits hs)
  | inr x ↦ rw x (skip_lem ku mask n bits bits h ∙ usage_of-named_bits ku bits hs ∙ zero_sum _)
]

-- One more bit of a number.
abbrev AddsBit : ℕ → ℕ → Type 0
AddsBit ku mask = (if has_bit ku mask then mask else 0) + ku % mask ≡ ku % (2 * mask)

low_bits : (ku : ℕ) → AddsBit ku 1 × AddsBit ku 2 × AddsBit ku 4 × AddsBit ku 8 × AddsBit ku 16
low_bits ku = (ground arith, ground arith, ground arith, ground arith, ground arith)

high_bits : (ku : ℕ) → AddsBit ku 32 × AddsBit ku 64 × AddsBit ku 128 × AddsBit ku 256
high_bits ku = (ground arith, ground arith, ground arith, ground arith)

sum_of_bits_lem : (ku : ℕ) → sum_of_bits usage_bits ku ≡ ku % 512
sum_of_bits_lem ku = omega (arith, low_bits ku, high_bits ku)

-- The names shown for the usage of a key tell which of its nine lowest bits are set, and no name is
-- shown without its bit.
pub usage_of-key_usage_strings : (ku : ℕ) → usage_of usage_bits (key_usage_strings ku) ≡ ku % 512
usage_of-key_usage_strings ku =
    usage_of-named_bits ku usage_bits (ground arith) ∙ sum_of_bits_lem ku
