-- ===== src/Orchestrator/RefundLedger/Pool.antt =====
-- What `buildRefundLedger` (offchain/orchestrator/refundLedger.ts) gives back of the delivery reserve.
use pumpling.Base.{
  All, Bool-cases, List, Once, [], arith, false, has, inl, inr, length, map, refl, sum_map, ◌*◌,
  ◌+◌, ◌==◌, ◌∷◌, ◌≡◌, ◌≢◌, ◌≤◌,
}
use pumpling.Base.Rounding.{split_nearest, split_nearest_ge}
use pumpling.Orchestrator.PurchaseTokens.{BatchLoader}
use pumpling.Orchestrator.RefundLedger.{
  Debits, RefundBasis, basis_of, build_refund_ledger, ledger_from, leftover_share, set_basis,
  settle_delivery, total_allocated,
}
use pumpling.Orchestrator.RefundLedger.Totals.{total}
use pumpling.Orchestrator.Types.{LotteryState, Mint, Sol, TokenBuyRecord}

abbrev pub leftovers : List (Mint × RefundBasis) → Sol
leftovers = sum_map (λ e. e.1.delivery_leftover)

leftover_share_none :
    (leftover total allocated : Sol) → total ≡ 0 → leftover_share leftover total allocated ≡ 0
leftover_share_none leftover total allocated e = ground arith

-- The shares of these coins, before they are set down.
abbrev shares_of_leftover : Sol → Sol → List TokenBuyRecord → Sol
shares_of_leftover leftover total =
    sum_map (λ t. leftover_share leftover total t.adjusted_sol_amount)

shares_of_leftover_none :
    (leftover total : Sol) (ts : List TokenBuyRecord)
    → total ≡ 0
    → shares_of_leftover leftover total ts ≡ 0
shares_of_leftover_none leftover total [] e = refl
shares_of_leftover_none leftover total (t ∷ ts) e = omega (
  arith,
  shares_of_leftover_none leftover total ts e,
  leftover_share_none leftover total t.adjusted_sol_amount e,
)

shares_of_leftover_le :
    (leftover total : Sol) (ts : List TokenBuyRecord)
    → sum_map (λ t. t.adjusted_sol_amount) ts ≡ total
    → 2 * shares_of_leftover leftover total ts ≤ 2 * leftover + length ts
shares_of_leftover_le leftover total ts e = elim (Bool-cases (total == 0)) [
  | inl z ↦ omega (arith, shares_of_leftover_none leftover total ts (ground arith))
  | inr nz ↦ rw nz (
      split_nearest (λ (t : TokenBuyRecord). t.adjusted_sol_amount) leftover total (ground arith) ts
        e)
]

-- The mints of coins, and those of the entries of a ledger.
abbrev mints_of : List TokenBuyRecord → List Mint
mints_of = map (λ t. t.mint)

abbrev keys : List (Mint × RefundBasis) → List Mint
keys = map (λ e. e.0)

leftovers-set_basis-new :
    (mint : Mint) (b : RefundBasis) (ledger : List (Mint × RefundBasis))
    → has mint (keys ledger) ≡ false
    → leftovers (set_basis mint b ledger) ≡ leftovers ledger + b.delivery_leftover
leftovers-set_basis-new mint b [] h = omega arith
leftovers-set_basis-new mint b ((m, c) ∷ ledger) h =
    ground (arith, h, leftovers-set_basis-new mint b ledger)

has-keys-set_basis :
    (m mint : Mint) (b : RefundBasis) (ledger : List (Mint × RefundBasis))
    → has m (keys ledger) ≡ false
    → (mint == m) ≡ false
    → has m (keys (set_basis mint b ledger)) ≡ false
has-keys-set_basis m mint b [] h e = ground (arith, e)
has-keys-set_basis m mint b ((k, c) ∷ ledger) h e =
    ground (arith, h, e, has-keys-set_basis m mint b ledger)

still_new :
    (mint : Mint) (b : RefundBasis) (ledger : List (Mint × RefundBasis)) (ts : List TokenBuyRecord)
    → has mint (mints_of ts) ≡ false
    → All (λ t. has t.mint (keys ledger) ≡ false) ts
    → All (λ t. has t.mint (keys (set_basis mint b ledger)) ≡ false) ts
still_new mint b ledger [] h new = tt
still_new mint b ledger (t ∷ ts) h new = (
  has-keys-set_basis t.mint mint b ledger new.0 (ground (arith, h)),
  still_new mint b ledger ts (ground (arith, h)) new.1,
)

leftovers-ledger_from-new :
    (state : LotteryState) (load : BatchLoader) (debits : Debits) (ts : List TokenBuyRecord)
    (ledger : List (Mint × RefundBasis))
    → Once (mints_of ts)
    → All (λ t. has t.mint (keys ledger) ≡ false) ts
    → leftovers (ledger_from state load debits ts ledger)
      ≡ leftovers ledger
        + shares_of_leftover (settle_delivery state debits).leftover (total_allocated state) ts
unfolding ledger_from
leftovers-ledger_from-new state load debits [] ledger once new = omega arith
leftovers-ledger_from-new state load debits (t ∷ ts) ledger once new = omega (
  arith,
  leftovers-set_basis-new t.mint (basis_of state load debits t) ledger new.0,
  leftovers-ledger_from-new state load debits ts
      (set_basis t.mint (basis_of state load debits t) ledger) once.1
      (still_new t.mint (basis_of state load debits t) ledger ts once.0 new.1),
)

All-empty : (ts : List TokenBuyRecord) → All (λ t. has t.mint (keys []) ≡ false) ts
All-empty [] = tt
All-empty (t ∷ ts) = (refl, All-empty ts)

shares_of_leftover_ge :
    (leftover total : Sol) (ts : List TokenBuyRecord)
    → total ≢ 0
    → sum_map (λ t. t.adjusted_sol_amount) ts ≡ total
    → 2 * leftover ≤ 2 * shares_of_leftover leftover total ts + length ts
shares_of_leftover_ge leftover total ts some_total e =
    let nz : (total == 0) ≡ false = ground arith in
    rw nz (
      split_nearest_ge (λ (t : TokenBuyRecord). t.adjusted_sol_amount) leftover total (omega arith)
        ts e)

-- Where each coin stands once and something was allocated to them: all
-- the coins together give back, of the delivery reserve, what delivery left of it, up to half a
-- lamport more or less for each coin, which rounding to whole lamports may make.
pub leftovers-build_refund_ledger :
    (state : LotteryState) (load : BatchLoader) (debits : Debits)
    → Once (map (λ t. t.mint) state.token_buys)
    → sum_map (λ t. t.adjusted_sol_amount) state.token_buys ≢ 0
    → (2 * leftovers (build_refund_ledger state load debits)
        ≤ 2 * (settle_delivery state debits).leftover + length state.token_buys)
      × (2 * (settle_delivery state debits).leftover
          ≤ 2 * leftovers (build_refund_ledger state load debits) + length state.token_buys)
unfolding build_refund_ledger
leftovers-build_refund_ledger state load debits once some_total =
    let left = (settle_delivery state debits).leftover in
    let total = total_allocated state in
    let given =
      leftovers-ledger_from-new state load debits state.token_buys [] once
        (All-empty state.token_buys) in
    (
      omega (arith, given, shares_of_leftover_le left total state.token_buys refl),
      omega (arith, given, shares_of_leftover_ge left total state.token_buys some_total refl),
    )
