-- ===== src/Base/Number.antt =====
-- What the source uses of Go's package `strconv`, and the wrap-around of a 64-bit `int`.
use Prim.Native.Char.{code}
use Prim.Native.Nat.{ℕ, zero, suc, ◌+◌, ◌-◌, ◌*◌, ◌%◌, ◌≤◌, ◌<◌}
use Prim.Native.String.{String}
use mathlib.Core.Path.{◌≡◌, refl}
use mathlib.Core.Bool.{Bool, true, false, ◌&&◌}
use mathlib.Core.Option.{Option, none, some}
use native.Mathlib.Omega.{arith}
use step_ui_ng.Base.Tests.{ltb, leb, ◌==◌, nat_eq, if◌then◌else◌}
use step_ui_ng.Base.Int.{ℤ, pos, negsuc, pos_part, neg_part}

abbrev pub two_63 : ℕ
two_63 = 9223372036854775808

abbrev pub two_64 : ℕ
two_64 = 18446744073709551616

-- The `int` that a product or a sum of two numbers wraps around to.
unfoldable pub wrap_int : ℕ → ℤ
wrap_int n = let m = n % two_64 in if ltb m two_63 then pos m else negsuc (two_64 - 1 - m)

digits_from : ℕ → String → Option ℕ
digits_from acc String.[] = some acc
digits_from acc (String.◌∷◌ c s) =
    if leb b'0' (code c) && leb (code c) b'9'
    then digits_from (acc * 10 + (code c - b'0')) s
    else none

digits : String → Option ℕ
digits String.[] = none
digits (String.◌∷◌ c s) = digits_from 0 (String.◌∷◌ c s)

-- A parsed magnitude with its sign: the value that Go returns, and whether its error is nil. Out of
-- range Go returns the nearest `int`, and on a syntax error 0.
signed : Bool → Option ℕ → ℤ × Bool
signed negative none = (pos 0, false)
signed false (some n) = if ltb n two_63 then (pos n, true) else (pos (two_63 - 1), false)
signed true (some zero) = (pos 0, true)
signed true (some (suc n)) = if ltb n two_63 then (negsuc n, true) else (negsuc (two_63 - 1), false)

-- `strconv.Atoi`, and `strconv.ParseInt` at base 10 and 64 bits.
unfoldable pub atoi : String → ℤ × Bool
unfolding digits digits_from signed
atoi String.[] = (pos 0, false)
atoi (String.◌∷◌ c s) =
    if code c == b'-'
    then signed true (digits s)
    else if code c == b'+'
    then signed false (digits s)
    else signed false (digits (String.◌∷◌ c s))

atoi_tests :
    (atoi "-12" ≡ (negsuc 11, true))
    × (atoi "7x" ≡ (pos 0, false))
    × (atoi "99999999999999999999" ≡ (pos 9223372036854775807, false))
unfolding atoi
atoi_tests = (refl, refl, refl)

signed_range :
    (b : Bool) (o : Option ℕ)
    → (pos_part (signed b o).0 < two_63) × (neg_part (signed b o).0 ≤ two_63)
unfolding signed
signed_range b none = ground arith
signed_range false (some n) = ground arith
signed_range true (some zero) = ground arith
signed_range true (some (suc n)) = ground arith

-- What a text is read as lies within the range of an `int`.
pub atoi_range : (s : String) → (pos_part (atoi s).0 < two_63) × (neg_part (atoi s).0 ≤ two_63)
unfolding atoi
atoi_range String.[] = (omega arith, omega arith)
atoi_range (String.◌∷◌ c s) = ground (
  arith,
  signed_range true (digits s),
  signed_range false (digits s),
  signed_range false (digits (String.◌∷◌ c s)),
)

lt→ltb : (a b : ℕ) → a < b → ltb a b ≡ true
lt→ltb a b h = ground arith

le→ltb : (a b : ℕ) → a ≤ b → ltb b a ≡ false
le→ltb a b h = ground arith

-- A number that an `int` holds is left as it is.
pub wrap_int-small : (m : ℕ) → m < two_63 → wrap_int m ≡ pos m
unfolding wrap_int
wrap_int-small m h = let same : m % two_64 ≡ m = omega arith in rw (same, lt→ltb m two_63 h)

-- One that 64 bits hold and an `int` does not becomes negative.
pub wrap_int-large : (m : ℕ) → two_63 ≤ m → m < two_64 → wrap_int m ≡ negsuc (two_64 - 1 - m)
unfolding wrap_int
wrap_int-large m h k = let same : m % two_64 ≡ m = omega arith in rw (same, le→ltb two_63 m h)
