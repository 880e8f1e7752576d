-- ===== src/Base/Integers.antt =====
-- Whole numbers over the native numbers, for what the source keeps in a `bigint` or as a difference.
use pumpling.Base.Tests.{if◌then◌else◌, leb}
use Prim.Native.Nat.{ℕ, suc, ◌+◌, ◌-◌}
use mathlib.Core.Path.{◌≡◌}
use native.Mathlib.Omega.{arith}

pub data ℤ : Type 0 where
  pos : ℕ → ℤ
  negsuc : ℕ → ℤ

infixl 6 ◌⊖◌ ◌+ℤ◌
-- The difference of two numbers.
abbrev pub ◌⊖◌ : ℕ → ℕ → ℤ
a ⊖ b = if leb b a then pos (a - b) else negsuc (b - a - 1)

abbrev pub ◌+ℤ◌ : ℤ → ℤ → ℤ
pos a +ℤ pos b = pos (a + b)
pos a +ℤ negsuc b = a ⊖ suc b
negsuc a +ℤ pos b = b ⊖ suc a
negsuc a +ℤ negsuc b = negsuc (suc (a + b))

pub diff-add : (a b n : ℕ) → a ⊖ b +ℤ pos n ≡ (a + n) ⊖ b
diff-add a b n = ground arith

pub diff-sub : (a b n : ℕ) → a ⊖ b +ℤ (0 ⊖ n) ≡ a ⊖ (b + n)
diff-sub a b n = ground arith
