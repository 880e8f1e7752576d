-- ===== src/Base/Doubles.antt =====
-- The numbers of the source, doubles, where it multiplies, divides or converts whole numbers with
-- rounding. A result is the nearest double, the even one of two that are as near; exponents are
-- taken without bounds. Negative numbers, infinities and NaN do not come up.
use Prim.Native.Nat.{ℕ, zero, suc, ◌+◌, ◌-◌, ◌*◌, ◌/◌, ◌%◌, ◌<◌}
use mathlib.Core.Path.{◌≡◌, refl, ap, ◌∙◌}
use mathlib.Core.Bool.{Bool, true, false, ◌&&◌, ◌||◌}
use native.Mathlib.Omega.{arith}
use pumpling.Base.Tests.{if◌then◌else◌, ltb, ◌==◌}
use pumpling.Base.Division.{div_bounds}

-- 2 ^ 53: every whole number up to here is a double.
abbrev pub two_53 : ℕ
two_53 = 9007199254740992

-- `mantissa / 2 ^ scale`
pub record Double : Type 0 where
  pub mantissa : ℕ
  pub scale : ℕ

abbrev pub two_to : ℕ → ℕ
two_to zero = 1
two_to (suc e) = 2 * two_to e

-- `a / d` to the nearest whole number, the even one of two that are as near.
abbrev pub nearest_even : ℕ → ℕ → ℕ
nearest_even a d =
    let q = a / d in
    let r = a - q * d in if ltb d (2 * r) || (2 * r == d && q % 2 == 1) then q + 1 else q

-- How many bits a whole number below 2 ^ (53 + fuel) has over 53.
abbrev bits_over : ℕ → ℕ → ℕ
bits_over zero n = 0
bits_over (suc fuel) n = elim (ltb n two_53) [ true ↦ 0 | false ↦ suc (bits_over fuel (n / 2)) ]

-- A whole number without its last bits.
abbrev rounded : ℕ → ℕ → ℕ
rounded n bits = nearest_even n (two_to bits) * two_to bits

-- The double of a whole number below 2 ^ 117, `Number(n)`
unfoldable pub nearest_double : ℕ → ℕ
nearest_double n = rounded n (bits_over 64 n)

bits_over-small : (fuel n : ℕ) → n < two_53 → bits_over fuel n ≡ 0
bits_over-small zero n h = refl
bits_over-small (suc fuel) n h = by_test (ltb n two_53) (ground (arith, h))
  where
    by_test :
        (small : Bool)
        → small ≡ true
        → (elim small [ true ↦ 0 | false ↦ suc (bits_over fuel (n / 2)) ]) ≡ 0
    by_test true e = refl
    by_test false e = cc e

rounded-none : (n : ℕ) → rounded n 0 ≡ n
rounded-none n = ground (arith, div_bounds n 1 (omega arith))

pub nearest_double-small : (n : ℕ) → n < two_53 → nearest_double n ≡ n
unfolding nearest_double
nearest_double-small n h = ap (rounded n) (bits_over-small 64 n h) ∙ rounded-none n

-- `Math.floor(x * k)` and `Math.ceil(x * k)` for a whole number `k` below 2 ^ 53
unfoldable pub floor_product : Double → ℕ → ℕ
unfolding nearest_double
floor_product x k = nearest_double (x.mantissa * k) / two_to x.scale

unfoldable pub ceil_product : Double → ℕ → ℕ
unfolding nearest_double
ceil_product x k = (nearest_double (x.mantissa * k) + (two_to x.scale - 1)) / two_to x.scale

-- How often a quotient is doubled until it has 53 bits.
abbrev bits_under : ℕ → ℕ → ℕ → ℕ
bits_under zero a d = 0
bits_under (suc fuel) a d = elim (ltb (a / d) 4503599627370496) [
  | true ↦ suc (bits_under fuel (2 * a) d)
  | false ↦ 0
]

-- `a / d`, for whole numbers below 2 ^ 53 with `d` not above `a`
unfoldable pub divide : ℕ → ℕ → Double
divide a d =
    let k = bits_under 64 a d in record { mantissa = nearest_even (a * two_to k) d; scale = k }
