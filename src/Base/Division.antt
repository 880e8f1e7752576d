-- ===== src/Base/Division.antt =====
-- Floor division, as bigint division rounds.
use Prim.Native.Nat.{ℕ, ◌+◌, ◌*◌, ◌/◌, ◌≤◌, ◌<◌}
use mathlib.Core.Path.{◌≡◌, ap}
use native.Mathlib.Omega.{arith}

-- The quotient times the divisor stays below the dividend, by less than the divisor.
pub div_bounds : (a d : ℕ) → 0 < d → ((a / d) * d ≤ a) × (a < (a / d) * d + d)
div_bounds a d h = (grind arith, grind arith)

pub div-le_of_le_mul : (a d q : ℕ) → 0 < d → a ≤ q * d → a / d ≤ q
div-le_of_le_mul a d q h k = grind (arith, div_bounds a d h)

pub le-div_of_mul_le : (a d q : ℕ) → 0 < d → q * d ≤ a → q ≤ a / d
le-div_of_mul_le a d q h k = grind (arith, div_bounds a d h)

pub div_mono : (a b d : ℕ) → a ≤ b → a / d ≤ b / d
div_mono a b d h = grind arith

pub le_of_mul_le_mul_right : (x y d : ℕ) → 0 < d → x * d ≤ y * d → x ≤ y
le_of_mul_le_mul_right x y d h k = grind arith

pub lt_of_mul_lt_mul_right : (x y d : ℕ) → x * d < y * d → x < y
lt_of_mul_lt_mul_right x y d k = grind arith

-- Two parts of a whole `d`, each share of `b` rounded down: `x` of the part `k`, by at most `n`
-- units, and `y` of the part `w`, by less than one.
pub split_bounds :
    (b d k w x y n : ℕ)
    → 0 < d
    → k + w ≡ d
    → (x * d ≤ b * k) × (b * k ≤ x * d + n * d)
    → (y * d ≤ b * w) × (b * w < y * d + d)
    → (y + x ≤ b) × (b < y + x + n + 1)
split_bounds b d k w x y n h e p q =
    let whole = ap (λ (t : ℕ). b * t) e in
    (
      le_of_mul_le_mul_right (y + x) b d h (omega (arith, whole)),
      lt_of_mul_lt_mul_right b (y + x + n + 1) d (omega (arith, whole)),
    )

-- A quotient is at most `q` where the dividend is below the next multiple.
pub div-le_of_lt_mul : (a d q : ℕ) → 0 < d → a < (q + 1) * d → a / d ≤ q
div-le_of_lt_mul a d q h k = grind (arith, div_bounds a d h)
