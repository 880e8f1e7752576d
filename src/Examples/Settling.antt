-- ===== src/Examples/Settling.antt =====
use pumpling.Base.{
  All, List, Memᴰ, Result, [], any, arith, err, false, filter, find?, has, if◌then◌else◌, length,
  ltb, map, max, none, ok, refl, some, sum_map, true, ℕ, ◌*◌, ◌+◌, ◌==◌, ◌||◌, ◌∷◌, ◌≡◌, ◌≢◌, ◌≤◌,
}
use pumpling.Base.Text.{codes}
use pumpling.Examples.Data.{a_buy, a_call, a_delivery, a_state, open_burn}
use pumpling.Orchestrator.PurchaseTokens.{all_purchases, files_of}
use pumpling.Orchestrator.RefundLedger.{
  Debit, Debits, RefundBasis, build_refund_ledger, buy_spend, charge_all, collect_round_signatures,
  hold_for_unfinished_sends, pay, settle_delivery, spend_attempts, spend_batches, spend_purchases,
}
use pumpling.Orchestrator.RefundLedger.Charges.{
  IsCharged, has-collect_round_signatures, settle_delivery_lem,
}
use pumpling.Orchestrator.RefundLedger.OnRecord.{on_burn, on_send, on_token}
use pumpling.Orchestrator.RefundLedger.Pool.{leftovers, leftovers-build_refund_ledger}
use pumpling.Orchestrator.RefundLedger.Spending.{AtMost, IsPaid, buy_spend_lem}
use pumpling.Orchestrator.RefundLedger.Totals.{total}
use pumpling.Orchestrator.Refunds.{ledger_get, plan_refunds}
use pumpling.Orchestrator.Refunds.Part.{IsRefund}
use pumpling.Orchestrator.Refunds.Plan.{
  gross_in_all, left_by, names_backer, plan_refunds_lem, refund_limit,
}
use pumpling.Orchestrator.SendRounds.Batch.{Attempt, BatchEnv, send_batch, unsigned}
use pumpling.Orchestrator.SendRounds.Batch.Ends.{send_batch_lem}
use pumpling.Orchestrator.Shares.{
  Share, add_share, burn_weight_of, collect_recipients, from_stake, shares_of, total_stake,
}
use pumpling.Orchestrator.State.{has_status, increment_metric, is_send, update_send}
use pumpling.Orchestrator.Types.{LotteryState, Mint, SendStatus, TokenBuyRecord}
use pumpling.Scheduler.Types.{PurchaseRecord}

-- A batch that does not fit, and what the round cost, at the small round.
abbrev three_sends : LotteryState
three_sends = record (a_state []) {
  sends =
      a_delivery 1 10 3000000000 none
      ∷ a_delivery 2 11 1000000000 none
      ∷ a_delivery 3 12 1000000000 none
      ∷ [];
}

-- Two deliveries do not fit into one transaction; each alone does.
abbrev a_network : BatchEnv
a_network = record {
  attempt = λ ids.
      if ltb 1 (length ids)
      then unsigned (codes "Transaction too large") none
      else Attempt.confirmed 50 2000 50 (99 ∷ []);
  amounts = (1, 100) ∷ (2, 60) ∷ [];
  skip_unknown = [];
  is_sweep = false;
  now = 8;
}

send_batch_lem_example :
    (t : LotteryState) × (send_batch 3 a_network (1 ∷ 2 ∷ []) three_sends ≡ ok t)
    × ((i : ℕ) → any (is_send i) t.sends ≡ any (is_send i) three_sends.sends)
    × (find? (is_send 3) t.sends ≡ find? (is_send 3) three_sends.sends)
send_batch_lem_example =
    send_batch_lem 3 a_network (1 ∷ 2 ∷ []) three_sends 3 (omega arith) (refl, (refl, tt)) refl

completed_of : Result LotteryState → List ℕ
completed_of (err _) = []
completed_of (ok t) = map (λ s. s.id) (filter (has_status SendStatus.completed) t.sends)

send_batch-halved : completed_of (send_batch 3 a_network (1 ∷ 2 ∷ []) three_sends) ≡ 1 ∷ 2 ∷ []
unfolding completed_of send_batch update_send increment_metric
send_batch-halved = refl

-- Signature 21 bought for 4.0001 SOL, and signature 40 was a delivery that cost 7000 lamports.
abbrev some_debits : Debits
some_debits s = if s == 21 then some (pay 4000100000) else if s == 40 then some (pay 7000) else none

abbrev with_reserve : LotteryState
with_reserve = record (a_state (open_burn ∷ [])) { send_reserve = 100000 }

settle_delivery_lem_example :
    IsCharged with_reserve some_debits (settle_delivery with_reserve some_debits).spent
    × ((settle_delivery with_reserve some_debits).spent.paid
          + (settle_delivery with_reserve some_debits).held
          + (settle_delivery with_reserve some_debits).leftover
        ≡ max (with_reserve.send_reserve + (settle_delivery with_reserve some_debits).spent.got) (
            (settle_delivery with_reserve some_debits).spent.paid
            + (settle_delivery with_reserve some_debits).held))
settle_delivery_lem_example = settle_delivery_lem with_reserve some_debits

-- The delivery's 7000, and 10000 for the burn that could not be read.
settle_delivery-with_reserve : (settle_delivery with_reserve some_debits).spent ≡ pay 17000
unfolding settle_delivery charge_all
settle_delivery-with_reserve = refl

leftovers-build_refund_ledger_example :
    (2 * leftovers (build_refund_ledger with_reserve a_call.load_batch some_debits)
      ≤ 2 * (settle_delivery with_reserve some_debits).leftover + length with_reserve.token_buys)
    × (2 * (settle_delivery with_reserve some_debits).leftover
        ≤ 2 * leftovers (build_refund_ledger with_reserve a_call.load_batch some_debits)
          + length with_reserve.token_buys)
leftovers-build_refund_ledger_example =
    leftovers-build_refund_ledger with_reserve a_call.load_batch some_debits (refl, tt)
      (λ e. omega (arith, e))

buy_spend_lem_example :
    (paid : PurchaseRecord → Debit) × ((p : PurchaseRecord) → IsPaid some_debits p (paid p))
    × AtMost
        (total paid (all_purchases a_call.load_batch (files_of a_buy)))
        (buy_spend a_buy a_call.load_batch some_debits).spent
    × ((buy_spend a_buy a_call.load_batch some_debits).exact ≡ true
        → (buy_spend a_buy a_call.load_batch some_debits).spent
          ≡ total paid (all_purchases a_call.load_batch (files_of a_buy)))
buy_spend_lem_example = buy_spend_lem a_buy a_call.load_batch some_debits

buy_spend-a_buy :
    buy_spend a_buy a_call.load_batch some_debits
    ≡ record { spent = pay 4000100000; exact = true; first_completed = false }
unfolding buy_spend spend_batches spend_purchases spend_attempts
buy_spend-a_buy = refl

has-collect_round_signatures_example :
    has 5 (collect_round_signatures with_reserve a_call.load_batch) ≡ (
      any (on_token 5 a_call.load_batch) with_reserve.token_buys
      || (any (on_send 5) with_reserve.sends || any (on_burn 5) with_reserve.burns))
has-collect_round_signatures_example = has-collect_round_signatures with_reserve a_call.load_batch 5

-- A delivery that was never signed, to a wallet without an account.
abbrev unsigned_only : LotteryState
unsigned_only = record (a_state []) {
  sends = record (a_delivery 1 10 3000000000 none) { had_ata_at_start = some false } ∷ [];
}

-- Its rent is counted as spent and held back as well, and the settlement still calls itself exact.
settle_delivery-unsigned_only :
    settle_delivery unsigned_only some_debits
    ≡ record { reserve = 0; spent = pay 2040000; held = 2050000; leftover = 0; exact = true }
unfolding settle_delivery charge_all hold_for_unfinished_sends
settle_delivery-unsigned_only = refl

abbrev some_left : List (Mint × RefundBasis)
some_left =
    (
      1,
      record {
        allocated = 4010000000;
        spent = pay 4000100000;
        delivery_leftover = 0;
        exact = true;
      },
    )
    ∷ []

plan_refunds_lem_example :
    All (IsRefund (a_state []) some_left) (plan_refunds (a_state []) some_left 9)
    × (2 * gross_in_all (plan_refunds (a_state []) some_left 9)
        ≤ sum_map (refund_limit (a_state []) some_left 9) (a_state []).token_buys)
    × ((t : TokenBuyRecord) (s : Share)
        → Memᴰ t (a_state []).token_buys
        → Memᴰ s (shares_of (a_state []) t.mint)
        → 1000000 ≤ left_by (ledger_get t.mint some_left) t
        → total_stake (shares_of (a_state []) t.mint) ≢ 0
        → any (names_backer t.mint s) (plan_refunds (a_state []) some_left 9) ≡ true)
plan_refunds_lem_example = plan_refunds_lem (a_state []) some_left 9

-- Of 9900000 lamports that are left wallet 10 gets three quarters, less its half of one fee.
plan_refunds-some_left :
    map (λ r. r.amount_sol) (plan_refunds (a_state []) some_left 9) ≡ 7420000 ∷ 2470000 ∷ []
unfolding plan_refunds shares_of collect_recipients from_stake add_share burn_weight_of total_stake
plan_refunds-some_left = refl
