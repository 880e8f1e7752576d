-- ===== src/Base/Lists.antt =====
-- Lists measured, summed and searched by native numbers and Boolean tests.
use Prim.Native.Nat.{ℕ, zero, suc, ◌+◌, ◌≤◌}
use mathlib.Core.Logic.{inl, inr}
use mathlib.Core.Path.{◌≡◌, refl, sym, subst, ◌∙◌}
use mathlib.Core.Bool.{Bool, true, false, not, ◌&&◌, ◌||◌}
use mathlib.Core.List.{List, [], ◌∷◌, ◌++◌, Memᴰ}
use mathlib.Core.Option.{Option, none, some}
use native.Mathlib.Omega.{arith}
use pumpling.Base.Tests.{if◌then◌else◌, Bool-cases, Option-cases, ◌==◌}

pub some_injective {ℓ} : {A : Type ℓ} {a b : A} → some a ≡ some b → a ≡ b
some_injective e = cc

module _ {ℓ} {A : Type ℓ} where
  abbrev pub length : List A → ℕ
  length [] = 0
  length (x ∷ xs) = suc (length xs)

  abbrev pub get_elem? : List A → ℕ → Option A
  get_elem? [] i = none
  get_elem? (x ∷ xs) zero = some x
  get_elem? (x ∷ xs) (suc i) = get_elem? xs i

  -- `slice(0, n)` and `slice(n)`
  abbrev pub take : ℕ → List A → List A
  take zero xs = []
  take (suc n) [] = []
  take (suc n) (x ∷ xs) = x ∷ take n xs

  abbrev pub drop : ℕ → List A → List A
  drop zero xs = xs
  drop (suc n) [] = []
  drop (suc n) (x ∷ xs) = drop n xs

  abbrev pub All {κ} : (A → Type κ) → List A → Type κ
  All P [] = Unit
  All P (x ∷ xs) = P x × All P xs

  -- `Array.prototype.filter`
  abbrev pub filter : (A → Bool) → List A → List A
  filter p [] = []
  filter p (x ∷ xs) = if p x then x ∷ filter p xs else filter p xs

  -- `Array.prototype.find`
  abbrev pub find? : (A → Bool) → List A → Option A
  find? p [] = none
  find? p (x ∷ xs) = if p x then some x else find? p xs

  -- `Array.prototype.some`
  abbrev pub any : (A → Bool) → List A → Bool
  any p [] = false
  any p (x ∷ xs) = p x || any p xs

  -- `reduce((sum, x) => sum + f(x), 0)`: the order of addition does not matter on ℕ.
  abbrev pub sum_map : (A → ℕ) → List A → ℕ
  sum_map f [] = 0
  sum_map f (x ∷ xs) = f x + sum_map f xs

  pub length-append : (xs ys : List A) → length (xs ++ ys) ≡ length xs + length ys
  length-append [] ys = omega arith
  length-append (x ∷ xs) ys = omega (arith, length-append xs ys)

  pub sum_map-append :
      (f : A → ℕ) (xs ys : List A) → sum_map f (xs ++ ys) ≡ sum_map f xs + sum_map f ys
  sum_map-append f [] ys = omega arith
  sum_map-append f (x ∷ xs) ys = omega (arith, sum_map-append f xs ys)

  pub sum_map_mono :
      (f g : A → ℕ) (xs : List A) → All (λ x. f x ≤ g x) xs → sum_map f xs ≤ sum_map g xs
  sum_map_mono f g [] h = omega arith
  sum_map_mono f g (x ∷ xs) h = omega (arith, sum_map_mono f g xs h.1)

  pub filter-holds : (p : A → Bool) (xs : List A) → All (λ x. p x ≡ true) (filter p xs)
  filter-holds p [] = tt
  filter-holds p (x ∷ xs) = elim (Bool-cases (p x)) [
    | inl e ↦ rw e (e, filter-holds p xs)
    | inr e ↦ rw e (filter-holds p xs)
  ]

  pub length-filter : (p : A → Bool) (xs : List A) → length (filter p xs) ≤ length xs
  length-filter p [] = omega arith
  length-filter p (x ∷ xs) = ground (arith, length-filter p xs)

  pub All-append {κ} : (P : A → Type κ) (xs ys : List A) → All P xs → All P ys → All P (xs ++ ys)
  All-append P [] ys h k = k
  All-append P (x ∷ xs) ys h k = (h.0, All-append P xs ys h.1 k)

  pub All-split {κ} : (P : A → Type κ) (xs ys : List A) → All P (xs ++ ys) → All P xs × All P ys
  All-split P [] ys h = (tt, h)
  All-split P (x ∷ xs) ys h = let (l, r) = All-split P xs ys h.1 in ((h.0, l), r)

  pub All-member {κ} : (P : A → Type κ) (x : A) (xs : List A) → Memᴰ x xs → All P xs → P x
  All-member P x [] m h = elim m [ ]
  All-member P x (y ∷ ys) (Memᴰ.head e) h = subst P (sym e) h.0
  All-member P x (y ∷ ys) (Memᴰ.tail m) h = All-member P x ys m h.1

  pub All-map {κ ι} :
      (P : A → Type κ) (Q : A → Type ι) (xs : List A) → ((x : A) → P x → Q x) → All P xs → All Q xs
  All-map P Q [] f h = tt
  All-map P Q (x ∷ xs) f h = (f x h.0, All-map P Q xs f h.1)

  -- `find`, then `Object.assign` on what was found: `none` where nothing is found.
  abbrev pub update_first : (A → Bool) → (A → A) → List A → Option (List A)
  update_first p f [] = none
  update_first p f (x ∷ xs) =
      if p x
      then some (f x ∷ xs)
      else elim (update_first p f xs) [ none ↦ none | some ys ↦ some (x ∷ ys) ]

  -- The same as a total function, which leaves the list alone where nothing is found.
  abbrev pub update : (A → Bool) → (A → A) → List A → List A
  update p f [] = []
  update p f (x ∷ xs) = if p x then f x ∷ xs else x ∷ update p f xs

  pub update_first-found :
      (p : A → Bool) (f : A → A) (xs : List A) (x : A)
      → find? p xs ≡ some x
      → update_first p f xs ≡ some (update p f xs)
  update_first-found p f [] x h = cc
  update_first-found p f (y ∷ xs) x h = ground (arith, update_first-found p f xs x)

  pub update_first-missing :
      (p : A → Bool) (f : A → A) (xs : List A) → find? p xs ≡ none → update_first p f xs ≡ none
  update_first-missing p f [] h = refl
  update_first-missing p f (y ∷ xs) h = ground (arith, update_first-missing p f xs)

  -- A sum changes by the term of what was found.
  pub sum_map-update :
      (g : A → ℕ) (p : A → Bool) (f : A → A) (xs : List A) (x : A)
      → find? p xs ≡ some x
      → sum_map g (update p f xs) + g x ≡ sum_map g xs + g (f x)
  sum_map-update g p f [] x h = cc
  sum_map-update g p f (y ∷ xs) x h = ground (arith, sum_map-update g p f xs x)

  pub length-update : (p : A → Bool) (f : A → A) (xs : List A) → length (update p f xs) ≡ length xs
  length-update p f [] = refl
  length-update p f (y ∷ xs) = ground (arith, length-update p f xs)

  pub length-update_first :
      (p : A → Bool) (f : A → A) (xs ys : List A)
      → update_first p f xs ≡ some ys
      → length ys ≡ length xs
  length-update_first p f xs ys e = elim (Option-cases (find? p xs)) [
    | inl missing ↦ cc (e, update_first-missing p f xs missing)
    | inr (x, found) ↦
        subst (λ zs. length zs ≡ length xs)
          (some_injective (sym (update_first-found p f xs x found) ∙ e)) (length-update p f xs)
  ]

  -- A property that each change keeps.
  pub All-update {κ} :
      (P : A → Type κ) (p : A → Bool) (f : A → A) (xs : List A)
      → ((x : A) → P x → P (f x))
      → All P xs
      → All P (update p f xs)
  All-update P p f [] k h = tt
  All-update P p f (y ∷ xs) k h = elim (Bool-cases (p y)) [
    | inl e ↦ rw e (k y h.0, h.1)
    | inr e ↦ rw e (h.0, All-update P p f xs k h.1)
  ]

  pub any-find? :
      (p : A → Bool) (xs : List A)
      → any p xs ≡ true
      → (x : A) × (find? p xs ≡ some x) × (p x ≡ true)
  any-find? p [] h = cc
  any-find? p (x ∷ xs) h = elim (Bool-cases (p x)) [
    | inl e ↦ (x, rw e, e)
    | inr e ↦ let (y, found, holds) = any-find? p xs (ground (arith, h)) in (y, rw e found, holds)
  ]

  pub any-of_find? : (p : A → Bool) (xs : List A) (x : A) → find? p xs ≡ some x → any p xs ≡ true
  any-of_find? p [] x h = cc
  any-of_find? p (y ∷ xs) x h = ground (arith, any-of_find? p xs x)

  pub any-update :
      (p q : A → Bool) (f : A → A) (xs : List A)
      → ((x : A) → p (f x) ≡ p x)
      → any p (update q f xs) ≡ any p xs
  any-update p q f [] same = refl
  any-update p q f (x ∷ xs) same = ground (arith, same x, any-update p q f xs same)

-- `includes` on numbers, and `[...new Set(xs)]`, which keeps the first of each.
abbrev pub has : ℕ → List ℕ → Bool
has n [] = false
has n (x ∷ xs) = (x == n) || has n xs

abbrev pub dedup_from : List ℕ → List ℕ → List ℕ
dedup_from seen [] = []
dedup_from seen (x ∷ xs) =
    let rest = dedup_from (x ∷ seen) xs in if has x seen then dedup_from seen xs else x ∷ rest

abbrev pub dedup : List ℕ → List ℕ
dedup = dedup_from []

pub dedup_from-has :
    (all seen xs : List ℕ)
    → All (λ x. has x all ≡ true) xs
    → All (λ x. has x all ≡ true) (dedup_from seen xs)
dedup_from-has all seen [] h = tt
dedup_from-has all seen (x ∷ xs) h = elim (Bool-cases (has x seen)) [
  | inl old ↦ rw old (dedup_from-has all seen xs h.1)
  | inr new ↦ rw new (h.0, dedup_from-has all (x ∷ seen) xs h.1)
]

All-has :
    (xs ys : List ℕ) → All (λ x. has x ys ≡ true) xs → (y : ℕ) → All (λ x. has x (y ∷ ys) ≡ true) xs
All-has [] ys h y = tt
All-has (x ∷ xs) ys h y = (ground arith, All-has xs ys h.1 y)

pub All-has_self : (xs : List ℕ) → All (λ x. has x xs ≡ true) xs
All-has_self [] = tt
All-has_self (x ∷ xs) = (ground arith, All-has xs xs (All-has_self xs) x)

-- What the removal of repeats leaves was there.
pub dedup-has : (xs : List ℕ) → All (λ x. has x xs ≡ true) (dedup xs)
dedup-has xs = dedup_from-has xs [] xs (All-has_self xs)

pub has-append : (n : ℕ) (xs ys : List ℕ) → has n (xs ++ ys) ≡ (has n xs || has n ys)
has-append n [] ys = refl
has-append n (x ∷ xs) ys = ground (arith, has-append n xs ys)

has-dedup_from :
    (n : ℕ) (seen xs : List ℕ) → has n (dedup_from seen xs) ≡ (has n xs && not (has n seen))
has-dedup_from n seen [] = refl
has-dedup_from n seen (x ∷ xs) =
    grind (arith, has-dedup_from n seen xs, has-dedup_from n (x ∷ seen) xs)

-- The removal of repeats loses nothing.
pub has-dedup : (n : ℕ) (xs : List ℕ) → has n (dedup xs) ≡ has n xs
has-dedup n xs = ground (arith, has-dedup_from n [] xs)

-- No number stands in the list twice.
abbrev pub Once : List ℕ → Type 0
Once [] = Unit
Once (x ∷ xs) = (has x xs ≡ false) × Once xs

dedup_from-Once : (seen xs : List ℕ) → Once (dedup_from seen xs)
dedup_from-Once seen [] = tt
dedup_from-Once seen (x ∷ xs) = elim (Bool-cases (has x seen)) [
  | inl old ↦ rw old (dedup_from-Once seen xs)
  | inr new ↦ rw new (grind (arith, has-dedup_from x (x ∷ seen) xs), dedup_from-Once (x ∷ seen) xs)
]

pub dedup-Once : (xs : List ℕ) → Once (dedup xs)
dedup-Once xs = dedup_from-Once [] xs

pub find?-holds {ℓ} :
    {A : Type ℓ} (p : A → Bool) (xs : List A) (x : A) → find? p xs ≡ some x → p x ≡ true
find?-holds p [] x h = cc
find?-holds p (y ∷ xs) x h = elim (Bool-cases (p y)) [
  | inl e ↦ subst (λ z. p z ≡ true) (some_injective (sym (rw e refl) ∙ h)) e
  | inr e ↦ find?-holds p xs x (sym (rw e refl) ∙ h)
]

pub any-append {ℓ} :
    {A : Type ℓ} (p : A → Bool) (xs ys : List A) → any p (xs ++ ys) ≡ (any p xs || any p ys)
any-append p [] ys = refl
any-append p (x ∷ xs) ys = ground (arith, any-append p xs ys)
