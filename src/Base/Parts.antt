-- ===== src/Base/Parts.antt =====
-- What holds of a list holds of its parts: the ends that `slice` cuts off, and what a filter keeps.
use Prim.Native.Nat.{ℕ, zero, suc, ◌-◌, ◌≤◌}
use mathlib.Core.Path.{◌≡◌, refl}
use mathlib.Core.Bool.{Bool, false}
use mathlib.Core.Logic.{inl, inr}
use mathlib.Core.List.{List, [], ◌∷◌}
use native.Mathlib.Omega.{arith}
use pumpling.Base.Tests.{Bool-cases}
use pumpling.Base.Lists.{All, length, take, drop, filter, has}

module _ {ℓ} {A : Type ℓ} where
  pub length-take : (n : ℕ) (xs : List A) → length (take n xs) ≤ n
  length-take zero xs = omega arith
  length-take (suc n) [] = omega arith
  length-take (suc n) (x ∷ xs) = omega (arith, length-take n xs)

  pub length-drop : (n : ℕ) (xs : List A) → length (drop n xs) ≡ length xs - n
  length-drop zero xs = omega arith
  length-drop (suc n) [] = omega arith
  length-drop (suc n) (x ∷ xs) = omega (arith, length-drop n xs)

  pub All-take {κ} : (P : A → Type κ) (n : ℕ) (xs : List A) → All P xs → All P (take n xs)
  All-take P zero xs h = tt
  All-take P (suc n) [] h = tt
  All-take P (suc n) (x ∷ xs) h = (h.0, All-take P n xs h.1)

  pub All-drop {κ} : (P : A → Type κ) (n : ℕ) (xs : List A) → All P xs → All P (drop n xs)
  All-drop P zero xs h = h
  All-drop P (suc n) [] h = tt
  All-drop P (suc n) (x ∷ xs) h = All-drop P n xs h.1

  pub All-filter {κ} :
      (P : A → Type κ) (p : A → Bool) (xs : List A) → All P xs → All P (filter p xs)
  All-filter P p [] h = tt
  All-filter P p (x ∷ xs) h = elim (Bool-cases (p x)) [
    | inl e ↦ rw e (h.0, All-filter P p xs h.1)
    | inr e ↦ rw e (All-filter P p xs h.1)
  ]

pub has-take : (j n : ℕ) (xs : List ℕ) → has j xs ≡ false → has j (take n xs) ≡ false
has-take j zero xs h = refl
has-take j (suc n) [] h = refl
has-take j (suc n) (x ∷ xs) h = ground (arith, has-take j n xs)

pub has-drop : (j n : ℕ) (xs : List ℕ) → has j xs ≡ false → has j (drop n xs) ≡ false
has-drop j zero xs h = h
has-drop j (suc n) [] h = refl
has-drop j (suc n) (x ∷ xs) h = has-drop j n xs (ground arith)

pub has-filter :
    (j : ℕ) (p : ℕ → Bool) (xs : List ℕ) → has j xs ≡ false → has j (filter p xs) ≡ false
has-filter j p [] h = refl
has-filter j p (x ∷ xs) h = ground (arith, has-filter j p xs)
