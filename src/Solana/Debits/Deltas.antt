-- ===== src/Solana/Debits/Deltas.antt =====
-- offchain/solana/debits.ts: `tokenDeltasFor` against the sums of the rows.
use pumpling.Base.{
  ==_iff, Bool, List, Option, [], ap, arith, false, if◌then◌else◌, none, refl, some, sum_map, true,
  ℕ, ◌&&◌, ◌+◌, ◌==◌, ◌∙◌, ◌∷◌, ◌≡◌,
}
use pumpling.Base.Integers.{diff-add, diff-sub, pos, ℤ, ◌+ℤ◌, ◌⊖◌}
use pumpling.Solana.Debits.{
  Key, TokenRow, add_row, add_rows, counted_row, map_get, map_set, or_none_left, rows_or_none,
  token_deltas_for,
}

pub map_get-set {ℓ} :
    {V : Type ℓ} (k j : ℕ) (v : V) (m : List (ℕ × V))
    → map_get k (map_set j v m) ≡ (if j == k then some v else map_get k m)
map_get-set k j v [] = refl
map_get-set k j v ((i, w) ∷ m) = ground (arith, map_get-set k j v m)

-- What the keeper holds of this mint by a row that says so.
unfoldable pub amount_for : Key → ℕ → TokenRow → ℕ
amount_for keeper mint r = of_fields r.owner r.mint_of r.ui_amount
  where
    of_fields : Option Key → Option ℕ → Option ℕ → ℕ
    of_fields (some o) (some m) (some a) = if o == keeper && m == mint then a else 0
    of_fields _ _ _ = 0

abbrev amount_counted : ℕ → Option (ℕ × ℕ) → ℕ
amount_counted mint none = 0
amount_counted mint (some c) = if c.0 == mint then c.1 else 0

amount_counted-row :
    (keeper mint : ℕ) (r : TokenRow)
    → amount_counted mint (counted_row keeper r) ≡ amount_for keeper mint r
unfolding amount_for counted_row
amount_counted-row keeper mint r = by_fields r.owner r.mint_of r.ui_amount
  where
    at_row : Option Key → Option ℕ → Option ℕ → Type 0
    at_row o m a =
        let row : TokenRow = record { owner = o; mint_of = m; ui_amount = a } in
        amount_counted mint (counted_row keeper row) ≡ amount_for keeper mint row

    by_tests :
        (b c : Bool) (m a : ℕ)
        → (m == mint) ≡ c
        → amount_counted mint (if b then some (m, a) else none) ≡ (if b && c then a else 0)
    by_tests true c m a e = ap (λ (x : Bool). if x then a else 0) e
    by_tests false c m a e = refl

    nothing_counted : (b : Bool) → amount_counted mint (if b then none else none) ≡ 0
    nothing_counted true = refl
    nothing_counted false = refl

    by_fields : (o m a : Option ℕ) → at_row o m a
    by_fields none m a = refl
    by_fields (some o) none a = nothing_counted (o == keeper)
    by_fields (some o) (some m) none = nothing_counted (o == keeper)
    by_fields (some o) (some m) (some a) = by_tests (o == keeper) (m == mint) m a refl

module _ (keeper : Key) (mint : ℕ) where
  abbrev delta : List (ℕ × ℤ) → ℤ
  delta m = or_none_left (map_get mint m)

  delta-set :
      (k : ℕ) (v : ℤ) (m : List (ℕ × ℤ))
      → delta (map_set k v m) ≡ (if k == mint then v else delta m)
  delta-set k v m = rw (map_get-set mint k v m) (by_test (k == mint))
    where
      by_test :
          (b : Bool)
          → or_none_left (if b then some v else map_get mint m) ≡ (if b then v else delta m)
      by_test true = refl
      by_test false = refl

  -- A row moves the mint's delta by the amount that it counts.
  delta-add_row :
      (sign : ℕ → ℤ) (g : ℕ → ℤ) (r : TokenRow) (m : List (ℕ × ℤ))
      → delta m ≡ g 0
      → ((n : ℕ) → delta m +ℤ sign n ≡ g n)
      → delta (add_row keeper sign r m) ≡ g (amount_for keeper mint r)
  unfolding add_row
  delta-add_row sign g r m none_moves moves =
      by_row (counted_row keeper r) ∙ ap g (amount_counted-row keeper mint r)
    where
      by_test :
          (k n : ℕ) (b : Bool)
          → (k == mint) ≡ b
          → (if b then or_none_left (map_get k m) +ℤ sign n else delta m) ≡ g (if b then n else 0)
      by_test k n true e =
          ap (λ j. or_none_left (map_get j m) +ℤ sign n) ((==_iff k mint).0 e) ∙ moves n
      by_test k n false e = none_moves

      by_row :
          (c : Option (ℕ × ℕ))
          → delta (elim c [
            | none ↦ m
            | some x ↦ map_set x.0 (or_none_left (map_get x.0 m) +ℤ sign x.1) m
          ])
            ≡ g (amount_counted mint c)
      by_row none = none_moves
      by_row (some (k, n)) =
          delta-set k (or_none_left (map_get k m) +ℤ sign n) m ∙ by_test k n (k == mint) refl

  delta-gained :
      (rs : List TokenRow) (m : List (ℕ × ℤ)) (a b : ℕ)
      → delta m ≡ a ⊖ b
      → delta (add_rows keeper pos rs m) ≡ (a + sum_map (amount_for keeper mint) rs) ⊖ b
  unfolding add_rows
  delta-gained [] m a b h = h ∙ ap (λ x. x ⊖ b) (omega arith)
  delta-gained (r ∷ rs) m a b h =
      delta-gained rs (add_row keeper pos r m) (a + amount_for keeper mint r) b (
        delta-add_row pos (λ n. (a + n) ⊖ b) r m (h ∙ ap (λ x. x ⊖ b) (omega arith))
          (λ n. ap (λ z. z +ℤ pos n) h ∙ diff-add a b n))
      ∙ ap (λ x. x ⊖ b) (omega arith)

  delta-lost :
      (rs : List TokenRow) (m : List (ℕ × ℤ)) (a b : ℕ)
      → delta m ≡ a ⊖ b
      → delta (add_rows keeper (λ n. 0 ⊖ n) rs m) ≡ a ⊖ (b + sum_map (amount_for keeper mint) rs)
  unfolding add_rows
  delta-lost [] m a b h = h ∙ ap (λ x. a ⊖ x) (omega arith)
  delta-lost (r ∷ rs) m a b h =
      delta-lost rs (add_row keeper (λ n. 0 ⊖ n) r m) a (b + amount_for keeper mint r) (
        delta-add_row (λ n. 0 ⊖ n) (λ n. a ⊖ (b + n)) r m (h ∙ ap (λ x. a ⊖ x) (omega arith))
          (λ n. ap (λ z. z +ℤ (0 ⊖ n)) h ∙ diff-sub a b n))
      ∙ ap (λ x. a ⊖ x) (omega arith)

-- For every mint the delta on record is what the keeper's rows after the transaction add up to less
-- what those before it do; a mint without a record has had no change.
pub token_deltas_for_lem :
    (before after : Option (List TokenRow)) (keeper : Key) (mint : ℕ)
    → or_none_left (map_get mint (token_deltas_for before after keeper))
      ≡ sum_map (amount_for keeper mint) (rows_or_none after)
        ⊖ sum_map (amount_for keeper mint) (rows_or_none before)
unfolding token_deltas_for
token_deltas_for_lem before after keeper mint =
    let lost = delta-lost keeper mint (rows_or_none before) [] 0 0 refl in
    delta-gained keeper mint (rows_or_none after) _ 0 _ lost
    ∙ (ap (λ x. x ⊖ (0 + sum_map (amount_for keeper mint) (rows_or_none before))) (omega arith)
        ∙ ap (λ x. sum_map (amount_for keeper mint) (rows_or_none after) ⊖ x) (omega arith))
