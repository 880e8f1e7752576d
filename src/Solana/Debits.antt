-- ===== src/Solana/Debits.antt =====
-- offchain/solana/debits.ts: what a transaction did to the keeper, read from the chain. An answer
-- of the node is its JSON with each field as the code tests it, `none` where a test of its type
-- fails; the signature 0 is the empty text. The pauses and the log are left out.
pub mod Deltas
pub mod Reading
pub mod Honest
use pumpling.Base.{
  Bool, List, Option, [], dedup, drop, false, filter, if◌then◌else◌, length, map, max, none, not,
  some, suc, take, true, zero, ℕ, ◌+◌, ◌==◌, ◌∷◌,
}
use pumpling.Base.Integers.{pos, ℤ, ◌+ℤ◌, ◌⊖◌}
use pumpling.Orchestrator.Types.{Signature}

abbrev pub Key : Type 0
Key = ℕ

abbrev pub debit_batch_size : ℕ
debit_batch_size = 10

-- A row of `preTokenBalances`: an amount is there if it is a text of digits.
pub record TokenRow : Type 0 where
  pub owner : Option Key
  pub mint_of : Option ℕ
  pub ui_amount : Option ℕ

-- The elements of the balances are numbers or not; `keys` is empty if it is no array.
pub record Meta : Type 0 where
  pub err_set : Bool
  pub pre_balances : Option (List (Option ℕ))
  pub post_balances : Option (List (Option ℕ))
  pub pre_tokens : Option (List TokenRow)
  pub post_tokens : Option (List TokenRow)

pub data RawAnswer : Type 0 where
  missing_tx : RawAnswer
  no_object : RawAnswer
  a_transaction : (meta : Option Meta) → (keys : List (Option Key)) → RawAnswer

pub record KeeperEffect : Type 0 where
  pub on_chain : Bool
  pub debit : ℤ
  pub token_deltas : List (ℕ × ℤ)
  pub failed_on_chain : Bool

-- `Map.get` and `Map.set`
abbrev pub map_get {ℓ} : {V : Type ℓ} → ℕ → List (ℕ × V) → Option V
map_get k [] = none
map_get k ((j, v) ∷ m) = if j == k then some v else map_get k m

abbrev pub map_set {ℓ} : {V : Type ℓ} → ℕ → V → List (ℕ × V) → List (ℕ × V)
map_set k v [] = (k, v) ∷ []
map_set k v ((j, w) ∷ m) = if j == k then (j, v) ∷ m else (j, w) ∷ map_set k v m

abbrev pub or_none_left : Option ℤ → ℤ
or_none_left none = pos 0
or_none_left (some z) = z

abbrev pub is_key : Key → Option Key → Bool
is_key keeper none = false
is_key keeper (some k) = k == keeper

-- What a row counts: its mint and its amount, if it is the keeper's.
unfoldable pub counted_row : Key → TokenRow → Option (ℕ × ℕ)
counted_row keeper r = if is_key keeper r.owner then both r.mint_of r.ui_amount else none
  where
    both : Option ℕ → Option ℕ → Option (ℕ × ℕ)
    both (some m) (some a) = some (m, a)
    both _ _ = none

module _ (keeper : Key) (sign : ℕ → ℤ) where
  -- `add`
  unfoldable pub add_row : TokenRow → List (ℕ × ℤ) → List (ℕ × ℤ)
  unfolding counted_row
  add_row r deltas = elim (counted_row keeper r) [
    | none ↦ deltas
    | some c ↦ map_set c.0 (or_none_left (map_get c.0 deltas) +ℤ sign c.1) deltas
  ]

  unfoldable pub add_rows : List TokenRow → List (ℕ × ℤ) → List (ℕ × ℤ)
  unfolding add_row
  add_rows [] deltas = deltas
  add_rows (r ∷ rs) deltas = add_rows rs (add_row r deltas)

abbrev pub rows_or_none : Option (List TokenRow) → List TokenRow
rows_or_none none = []
rows_or_none (some rs) = rs

-- `tokenDeltasFor`
unfoldable pub token_deltas_for :
    Option (List TokenRow) → Option (List TokenRow) → Key → List (ℕ × ℤ)
unfolding add_rows
token_deltas_for before after keeper =
    add_rows keeper pos (rows_or_none after) (add_rows keeper (λ n. 0 ⊖ n) (rows_or_none before) [])

-- `indexOf`, or the first place where it is not found.
abbrev pub place_of : Key → List (Option Key) → ℕ
place_of keeper keys = elim (find_from 0 keys) [ none ↦ 0 | some at ↦ at ]
  where
    find_from : ℕ → List (Option Key) → Option ℕ
    find_from i [] = none
    find_from i (k ∷ ks) = if is_key keeper k then some i else find_from (i + 1) ks

-- The balance at this place, if it is there and a number.
abbrev pub number_at : List (Option ℕ) → ℕ → Option ℕ
number_at [] i = none
number_at (n ∷ ns) zero = n
number_at (n ∷ ns) (suc i) = number_at ns i

unfoldable pub effect_of : Meta → ℕ → Key → List (Option ℕ) → List (Option ℕ) → Option KeeperEffect
unfolding token_deltas_for
effect_of meta at keeper before after = with_balances (number_at before at) (number_at after at)
  where
    with_balances : Option ℕ → Option ℕ → Option KeeperEffect
    with_balances (some b) (some a) = some (record {
      on_chain = true;
      debit = b ⊖ a;
      token_deltas = token_deltas_for meta.pre_tokens meta.post_tokens keeper;
      failed_on_chain = meta.err_set;
    })
    with_balances _ _ = none

unfoldable pub effect_of_meta : Key → List (Option Key) → Meta → Option KeeperEffect
unfolding effect_of
effect_of_meta keeper keys meta = of_arrays meta.pre_balances meta.post_balances
  where
    of_arrays : Option (List (Option ℕ)) → Option (List (Option ℕ)) → Option KeeperEffect
    of_arrays (some before) (some after) = effect_of meta (place_of keeper keys) keeper before after
    of_arrays _ _ = none

-- `effectFrom`
unfoldable pub effect_from : RawAnswer → Key → Option KeeperEffect
unfolding effect_of_meta
effect_from missing_tx keeper =
    some (record { on_chain = false; debit = pos 0; token_deltas = []; failed_on_chain = false })
effect_from no_object keeper = none
effect_from (a_transaction none keys) keeper = none
effect_from (a_transaction (some meta) keys) keeper = effect_of_meta keeper keys meta

-- A row of a batch's answer.
pub record AnswerRow : Type 0 where
  pub row_id : Option ℕ
  pub row_error : Bool
  pub row_result : RawAnswer

-- The provider's answer to a call of `rpcBatch`: `none` where it throws. The first argument counts
-- the calls.
abbrev pub RpcBatch : Type 0
RpcBatch = ℕ → List Signature → Option (List AnswerRow)

-- `byId`: a later row replaces an earlier one.
unfoldable pub by_id : List AnswerRow → List (ℕ × AnswerRow) → List (ℕ × AnswerRow)
by_id [] m = m
by_id (row ∷ rows) m = by_id rows (elim (row.row_id) [ none ↦ m | some i ↦ map_set i row m ])

unfoldable pub row_effect : Key → Option AnswerRow → Option KeeperEffect
unfolding effect_from
row_effect keeper none = none
row_effect keeper (some row) = if row.row_error then none else effect_from row.row_result keeper

abbrev pub set_effect :
    Signature
    → Option KeeperEffect
    → List (Signature × KeeperEffect)
    → List (Signature × KeeperEffect)
set_effect s none m = m
set_effect s (some e) m = map_set s e m

-- The answer of a batch, asked a second time where the first call throws.
unfoldable pub asked_twice : RpcBatch → ℕ → List Signature → Option (List AnswerRow)
asked_twice rpc calls chunk = elim (rpc calls chunk) [
  | some rows ↦ some rows
  | none ↦ rpc (suc calls) chunk
]

module _ (keeper : Key) where
  -- The `forEach` over a chunk.
  unfoldable pub take_answers :
      List (ℕ × AnswerRow)
      → ℕ
      → List Signature
      → List (Signature × KeeperEffect)
      → List (Signature × KeeperEffect)
  unfolding row_effect
  take_answers rows id [] m = m
  take_answers rows id (s ∷ ss) m =
      take_answers rows (suc id) ss (set_effect s (row_effect keeper (map_get id rows)) m)

  unfoldable pub take_batch :
      Option (List AnswerRow)
      → List Signature
      → List (Signature × KeeperEffect)
      → List (Signature × KeeperEffect)
  unfolding take_answers by_id
  take_batch none chunk m = m
  take_batch (some rows) chunk m = take_answers (by_id rows []) 0 chunk m

module _ (keeper : Key) (rpc : RpcBatch) (size : ℕ) where
  -- The loop over the chunks, on fuel: two calls are counted for each chunk.
  unfoldable pub read_chunks :
      ℕ → ℕ → List Signature → List (Signature × KeeperEffect) → List (Signature × KeeperEffect)
  unfolding take_batch asked_twice
  read_chunks zero calls ss m = m
  read_chunks (suc fuel) calls [] m = m
  read_chunks (suc fuel) calls (s ∷ ss) m =
      let chunk = take size (s ∷ ss) in
      read_chunks fuel (suc (suc calls)) (drop size (s ∷ ss))
        (take_batch keeper (asked_twice rpc calls chunk) chunk m)

-- `deps.batchSize ?? DEBIT_BATCH_SIZE`
abbrev pub size_or_default : Option ℕ → ℕ
size_or_default none = debit_batch_size
size_or_default (some size) = size

-- `readKeeperEffects`
unfoldable pub read_keeper_effects :
    RpcBatch → Option ℕ → Key → List Signature → List (Signature × KeeperEffect)
unfolding read_chunks
read_keeper_effects rpc batch_size keeper signatures =
    let unique = dedup (filter (λ s. not (s == 0)) signatures) in
    read_chunks keeper rpc (max 1 (size_or_default batch_size)) (length unique) 0 unique []

-- `readKeeperDebits`
unfoldable pub read_keeper_debits :
    RpcBatch → Option ℕ → Key → List Signature → List (Signature × Option ℤ)
unfolding read_keeper_effects
read_keeper_debits rpc batch_size keeper signatures =
    let effects = read_keeper_effects rpc batch_size keeper signatures in
    map (λ s. (s, debit_known (map_get s effects))) (dedup (filter (λ s. not (s == 0)) signatures))
  where
    debit_known : Option KeeperEffect → Option ℤ
    debit_known none = none
    debit_known (some e) = some e.debit
