-- ===== src/Base/Rounding.antt =====
-- Rounding a quotient to the nearest whole number, and a whole that is split into such quotients.
use Prim.Native.Nat.{ℕ, ◌+◌, ◌*◌, ◌/◌, ◌≤◌, ◌<◌}
use mathlib.Core.Path.{◌≡◌, subst}
use mathlib.Core.List.{List, [], ◌∷◌}
use native.Mathlib.Omega.{arith}
use pumpling.Base.Lists.{length, sum_map}
use pumpling.Base.Division.{div_bounds, le_of_mul_le_mul_right}

-- `Math.round(a / d)`
abbrev pub nearest : ℕ → ℕ → ℕ
nearest a d = (2 * a + d) / (2 * d)

-- It is at most one half too much.
pub nearest_le : (a d : ℕ) → 0 < d → 2 * (nearest a d * d) ≤ 2 * a + d
nearest_le a d h =
    let (low, high) = div_bounds (2 * a + d) (2 * d) (omega arith) in grind (arith, low)

-- It is at most one half too little.
pub nearest_ge : (a d : ℕ) → 0 < d → 2 * a ≤ 2 * (nearest a d * d) + d
nearest_ge a d h =
    let (low, high) = div_bounds (2 * a + d) (2 * d) (omega arith) in grind (arith, high)

module _ {ℓ} {A : Type ℓ} (f : A → ℕ) (u total : ℕ) (h : 0 < total) where
  sum_nearest :
      (xs : List A)
      → 2 * (sum_map (λ x. nearest (u * f x) total) xs * total)
        ≤ 2 * (u * sum_map f xs) + length xs * total
  sum_nearest [] = omega arith
  sum_nearest (x ∷ xs) = omega (arith, sum_nearest xs, nearest_le (u * f x) total h)

  scale_le :
      (y n : ℕ)
      → 2 * (y * total) ≤ 2 * (u * total) + n * total
      → 2 * y * total ≤ (2 * u + n) * total
  scale_le y n k = omega (arith, k)

  -- The parts of `u`, in the proportions of `f`, are together at most one half too much for each.
  pub split_nearest :
      (xs : List A)
      → sum_map f xs ≡ total
      → 2 * sum_map (λ x. nearest (u * f x) total) xs ≤ 2 * u + length xs
  split_nearest xs e =
      let parts = sum_map (λ x. nearest (u * f x) total) xs in
      le_of_mul_le_mul_right (2 * parts) (2 * u + length xs) total h (
        scale_le parts (length xs) (
          subst (λ (w : ℕ). 2 * (parts * total) ≤ 2 * (u * w) + length xs * total) e
            (sum_nearest xs)))

  sum_nearest_ge :
      (xs : List A)
      → 2 * (u * sum_map f xs)
        ≤ 2 * (sum_map (λ x. nearest (u * f x) total) xs * total) + length xs * total
  sum_nearest_ge [] = omega arith
  sum_nearest_ge (x ∷ xs) = omega (arith, sum_nearest_ge xs, nearest_ge (u * f x) total h)

  scale_ge :
      (y n : ℕ)
      → 2 * (u * total) ≤ 2 * (y * total) + n * total
      → 2 * u * total ≤ (2 * y + n) * total
  scale_ge y n k = omega (arith, k)

  -- And they are together at most one half too little for each.
  pub split_nearest_ge :
      (xs : List A)
      → sum_map f xs ≡ total
      → 2 * u ≤ 2 * sum_map (λ x. nearest (u * f x) total) xs + length xs
  split_nearest_ge xs e =
      let parts = sum_map (λ x. nearest (u * f x) total) xs in
      le_of_mul_le_mul_right (2 * u) (2 * parts + length xs) total h (
        scale_ge parts (length xs) (
          subst (λ (w : ℕ). 2 * (u * w) ≤ 2 * (parts * total) + length xs * total) e
            (sum_nearest_ge xs)))
