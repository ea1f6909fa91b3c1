-- ===== src/Common/Double.antt =====
-- Python's floats, the binary64 numbers of IEEE 754, as far as a subtraction, a negation and a
-- comparison go. A finite one is an integer number of units of 2 ^ -1074; the sign of a zero, which no
-- comparison sees, is left out.
use Prim.Native.Nat.{ℕ, ◌+◌, ◌*◌, ◌/◌, ◌%◌, ◌^◌}
use mathlib.Core.Bool.{Bool, true, false, ◌&&◌, ◌||◌, not}
use mathlib.Core.List.{List, [], ◌∷◌}
use slancha_mesh.Common.Tests.{ltb, leb, eqb, if◌then◌else◌}
use slancha_mesh.Common.Int.{ℤ, pos, negsuc, sub_ℤ, neg_ℤ, ltb_ℤ}

pub data Double : Type 0 where
  nan : Double
  infinite : (is_negative : Bool) → Double
  finite : ℤ → Double

-- How many bits of n follow its first 53, by halving the step.
unfoldable pub spare_bits : List ℕ → ℕ → ℕ
spare_bits [] n = 0
spare_bits (step ∷ steps) n =
    let shifts = leb (2 ^ 52) (n / 2 ^ step) in
    let rest = spare_bits steps (if shifts then n / 2 ^ step else n) in
    if shifts then step + rest else rest

abbrev steps_down : List ℕ
steps_down = 1024 ∷ 512 ∷ 256 ∷ 128 ∷ 64 ∷ 32 ∷ 16 ∷ 8 ∷ 4 ∷ 2 ∷ 1 ∷ []

-- n / d to the nearest whole number, and to the even one of two that are as near.
abbrev pub half_even : ℕ → ℕ → ℕ
half_even n d =
    let below = n / d in
    let twice = 2 * (n % d) in
    if ltb d twice || (eqb twice d && eqb (below % 2) 1) then below + 1 else below

-- n / d units, with a mantissa of at most 53 bits.
unfoldable pub rounded : ℕ → ℕ → ℕ
unfolding spare_bits
rounded n d = let scale = 2 ^ spare_bits steps_down (n / d) in half_even n (d * scale) * scale

abbrev pub from_units : Bool → ℕ → Double
from_units is_negative n =
    if leb (2 ^ 2098) n
    then infinite is_negative
    else finite (if is_negative then neg_ℤ (pos n) else pos n)

-- The float that the decimal n / d is read as.
unfoldable pub decimal : ℕ → ℕ → Double
unfolding rounded
decimal n d = from_units false (rounded (n * 2 ^ 1074) d)

unfoldable pub round_ℤ : ℤ → Double
unfolding rounded
round_ℤ (pos n) = from_units false (rounded n 1)
round_ℤ (negsuc n) = from_units true (rounded (n + 1) 1)

unfoldable pub sub_double : Double → Double → Double
unfolding round_ℤ
sub_double nan b = nan
sub_double (infinite s) nan = nan
sub_double (infinite true) (infinite true) = nan
sub_double (infinite false) (infinite false) = nan
sub_double (infinite true) (infinite false) = infinite true
sub_double (infinite false) (infinite true) = infinite false
sub_double (infinite s) (finite b) = infinite s
sub_double (finite a) nan = nan
sub_double (finite a) (infinite s) = infinite (not s)
sub_double (finite a) (finite b) = round_ℤ (sub_ℤ a b)

unfoldable pub neg_double : Double → Double
neg_double nan = nan
neg_double (infinite s) = infinite (not s)
neg_double (finite a) = finite (neg_ℤ a)

-- a < b, which is false where one of them is no number.
unfoldable pub ltb_double : Double → Double → Bool
ltb_double nan b = false
ltb_double (infinite s) nan = false
ltb_double (infinite true) (infinite true) = false
ltb_double (infinite true) (infinite false) = true
ltb_double (infinite false) (infinite s) = false
ltb_double (infinite s) (finite b) = s
ltb_double (finite a) nan = false
ltb_double (finite a) (infinite s) = not s
ltb_double (finite a) (finite b) = ltb_ℤ a b
