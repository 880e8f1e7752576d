-- ===== src/Orchestrator/PurchaseTokens/Refresh.antt =====
-- offchain/orchestrator/purchaseTokens.ts: `refreshPurchaseTokens`. What the node says of each
-- transaction is an argument; warnings are not kept.
use pumpling.Base.{List, Option, [], find?, if◌then◌else◌, ltb, none, some, ℕ, ◌*◌, ◌+◌, ◌==◌, ◌∷◌}
use pumpling.Orchestrator.PurchaseTokens.{
  BatchLoader, PendingAttempt, pending_purchase_attempts, tokens_bought,
}
use pumpling.Orchestrator.State.{is_mint, lookup, record_purchase_tokens}
use pumpling.Orchestrator.Types.{LotteryState, Mint, Signature, Time}

-- A change of a balance.
pub data TokenDelta : Type 0 where
  gained : ℕ → TokenDelta
  lost : ℕ → TokenDelta

-- A transaction that the node does not have, or what it changed of each coin.
pub data KeeperEffect : Type 0 where
  not_on_chain : KeeperEffect
  on_chain : (Mint → TokenDelta) → KeeperEffect

abbrev pub pending_final_after_ms : ℕ
pending_final_after_ms = 5 * 60000

-- `map.set(key, value)`: a later value takes the place of the earlier one.
unfoldable pub set_key : ℕ → ℕ → List (ℕ × ℕ) → List (ℕ × ℕ)
set_key key value [] = (key, value) ∷ []
set_key key value ((k, v) ∷ rest) =
    if k == key then (k, value) ∷ rest else (k, v) ∷ set_key key value rest

-- The signatures that are asked about with their coins, and the times of the earlier attempts.
pub record Wanted : Type 0 where
  pub wanted : List (Signature × Mint)
  pub attempts : List (Signature × Time)

unfoldable pub want_all : Mint → List Signature → Wanted → Wanted
unfolding set_key
want_all mint [] w = w
want_all mint (s ∷ signatures) w =
    want_all mint signatures (record w { wanted = set_key s mint w.wanted })

abbrev pub signed_at : Time → List PendingAttempt → Signature → Time
signed_at now attempts s = elim (find? (λ a. a.signature == s) attempts) [
  | none ↦ now
  | some a ↦ a.updated_at
]

unfoldable pub want_pending : Time → List PendingAttempt → Mint → List Signature → Wanted → Wanted
unfolding set_key
want_pending now attempts mint [] w = w
want_pending now attempts mint (s ∷ signatures) w =
    want_pending now attempts mint signatures (record w {
      wanted = set_key s mint w.wanted;
      attempts = set_key s (signed_at now attempts s) w.attempts;
    })

abbrev pub attempts_for : LotteryState → BatchLoader → Mint → List PendingAttempt
unfolding pending_purchase_attempts
attempts_for state load mint = elim (find? (is_mint mint) state.token_buys) [
  | none ↦ []
  | some t ↦ pending_purchase_attempts t load
]

unfoldable pub collect_wanted : Time → LotteryState → BatchLoader → List Mint → Wanted → Wanted
unfolding tokens_bought want_all want_pending attempts_for
collect_wanted now state load [] w = w
collect_wanted now state load (mint ∷ mints) w =
    let bought = tokens_bought state mint load in
    collect_wanted now state load mints (
      want_pending now (attempts_for state load mint) mint bought.unread_pending
        (want_all mint bought.unread w))

abbrev pub or_nothing : TokenDelta → ℕ
or_nothing (gained n) = n
or_nothing (lost n) = 0

abbrev pub if_final : Time → Option Time → Option ℕ
if_final now none = none
if_final now (some at) = if ltb (at + pending_final_after_ms) now then some 0 else none

-- What is found of one transaction.
abbrev pub found_of : Time → Option Time → Mint → Option KeeperEffect → Option ℕ
found_of now signed mint none = none
found_of now signed mint (some not_on_chain) = if_final now signed
found_of now signed mint (some (on_chain deltas)) = some (or_nothing (deltas mint))

abbrev pub add_found : Signature → Option ℕ → List (Signature × ℕ) → List (Signature × ℕ)
add_found s none found = found
add_found s (some n) found = (s, n) ∷ found

module _ (effects : Signature → Option KeeperEffect) (now : Time) where
  unfoldable pub find_all : List (Signature × Time) → List (Signature × Mint) → List (Signature × ℕ)
  find_all attempts [] = []
  find_all attempts ((s, mint) ∷ wanted) =
      add_found s (found_of now (lookup s attempts) mint (effects s)) (find_all attempts wanted)

  -- `refreshPurchaseTokens`
  unfoldable pub refresh_purchase_tokens : List Mint → BatchLoader → LotteryState → LotteryState
  unfolding collect_wanted find_all record_purchase_tokens
  refresh_purchase_tokens mints load state =
      let w = collect_wanted now state load mints (record { wanted = []; attempts = [] }) in
      record_purchase_tokens (find_all w.attempts w.wanted) state
