-- ===== src/Orchestrator/Refunds.antt =====
-- offchain/orchestrator/refunds.ts, `planRefunds`: how the SOL that was not spent on a coin goes
-- back to its backers. Amounts are in lamports; a difference that would be below zero is below
-- every threshold that the code compares it with, as zero is.
pub mod Part
pub mod Plan
pub mod Runner
use pumpling.Base.{
  List, Option, [], false, if◌then◌else◌, length, ltb, map, none, some, ℕ, ◌*◌, ◌+◌, ◌-◌, ◌/◌, ◌==◌,
  ◌∷◌,
}
use pumpling.Base.Rounding.{nearest}
use pumpling.Base.Text.{codes}
use pumpling.Orchestrator.Burns.Honesty.{spent}
use pumpling.Orchestrator.PurchaseTokens.{flat_map}
use pumpling.Orchestrator.RefundLedger.{RefundBasis, pay, tx_fee}
use pumpling.Orchestrator.RefundLedger.Totals.{total}
use pumpling.Orchestrator.Shares.{Share, shares_of, total_stake}
use pumpling.Orchestrator.State.{or_zero}
use pumpling.Orchestrator.Types.{
  LotteryState, Mint, RefundRecord, RefundStatus, Sol, Time, TokenBuyRecord, Wallet, skipped,
}

-- `MIN_REFUND_SOL`, `MIN_UNSPENT_SOL` and `REFUND_BATCH_SIZE`
abbrev pub min_refund : Sol
min_refund = 2000000

abbrev pub min_unspent : Sol
min_unspent = 1000000

abbrev pub refund_batch_size : ℕ
refund_batch_size = 8

-- `ledger.get(mint)`
abbrev pub ledger_get : Mint → List (Mint × RefundBasis) → Option RefundBasis
ledger_get mint [] = none
ledger_get mint ((m, b) ∷ ledger) = if m == mint then some b else ledger_get mint ledger

abbrev pub basis_or_state : Option RefundBasis → TokenBuyRecord → RefundBasis
basis_or_state (some b) t = b
basis_or_state none t = record {
  allocated = t.adjusted_sol_amount;
  spent = pay (or_zero t.spent_sol);
  delivery_leftover = 0;
  exact = false;
}

abbrev pub unspent_of : List (Mint × RefundBasis) → TokenBuyRecord → Sol
unspent_of ledger t =
    let b = basis_or_state (ledger_get t.mint ledger) t in
    b.allocated + b.delivery_leftover + b.spent.got - b.spent.paid

-- The fee of each transaction is shared by the recipients that it carries.
abbrev pub fee_each : List Share → Sol
fee_each shares =
    let size = length shares in
    nearest (tx_fee * ((size + (refund_batch_size - 1)) / refund_batch_size)) size

abbrev pub gross_of : Sol → Sol → Share → Sol
gross_of unspent total s = nearest (unspent * s.stake) total

abbrev skip_refund : Mint → Sol → Sol → Time → Wallet → RefundRecord
skip_refund mint gross fee now wallet = record {
  mint = mint;
  recipient = wallet;
  gross_sol = gross;
  fee_sol = fee;
  amount_sol = 0;
  status = RefundStatus.skipped;
  signature = none;
  pending_signature = none;
  attempts = 0;
  error_message = some (codes "Too small to be worth the network fee");
  updated_at = now;
}

abbrev plan_refund : Mint → Sol → Sol → Time → Wallet → RefundRecord
plan_refund mint gross fee now wallet = record {
  mint = mint;
  recipient = wallet;
  gross_sol = gross;
  fee_sol = fee;
  amount_sol = gross - fee;
  status = RefundStatus.pending;
  signature = none;
  pending_signature = none;
  attempts = 0;
  error_message = none;
  updated_at = now;
}

abbrev pub refund_for : Mint → Time → Sol → Sol → Sol → Share → RefundRecord
refund_for mint now unspent total fee s =
    if ltb (gross_of unspent total s - fee) min_refund
    then skip_refund mint (gross_of unspent total s) fee now s.wallet
    else plan_refund mint (gross_of unspent total s) fee now s.wallet

-- The refunds of one coin: none if little is left, or if nobody stands behind it.
unfoldable pub refunds_of : Mint → Time → Sol → List Share → List RefundRecord
unfolding total_stake
refunds_of mint now unspent shares =
    if ltb unspent min_unspent
    then []
    else if length shares == 0
    then []
    else if total_stake shares == 0
    then []
    else map (refund_for mint now unspent (total_stake shares) (fee_each shares)) shares

-- `planRefunds`; `stakesByMint` is `shares_of`, coin by coin.
unfoldable pub plan_refunds : LotteryState → List (Mint × RefundBasis) → Time → List RefundRecord
unfolding refunds_of
plan_refunds state ledger now =
    flat_map (λ t. refunds_of t.mint now (unspent_of ledger t) (shares_of state t.mint))
      state.token_buys
