-- ===== src/Examples/Refunding.antt =====
use pumpling.Base.{
  List, Option, Result, [], any, err, filter, if◌then◌else◌, map, none, ok, refl, some, true, ◌==◌,
  ◌∷◌, ◌≡◌,
}
use pumpling.Examples.Data.{a_state}
use pumpling.Orchestrator.RefundLedger.{RefundBasis, pay}
use pumpling.Orchestrator.Refunds.Runner.{
  RefundCall, RefundEnv, RefundSend, planned, refund_unspent, send_chunk,
}
use pumpling.Orchestrator.Refunds.Runner.Once.{not_held_back, send_chunk_lem}
use pumpling.Orchestrator.Refunds.Runner.Whole.{refund_unspent_lem}
use pumpling.Orchestrator.State.{is_refund, update_refund}
use pumpling.Orchestrator.Types.{
  LotteryState, Mint, RefundRecord, RefundStatus, Signature, Sol, Wallet,
}
use pumpling.Solana.SignatureOutcome.{SignatureOutcome, landed, unknown}

-- Refunds, at the small round.
abbrev a_refund : Wallet → Sol → Option Signature → RefundRecord
a_refund w amount pending_by = record {
  mint = 1;
  recipient = w;
  gross_sol = amount;
  fee_sol = 0;
  amount_sol = amount;
  status = RefundStatus.pending;
  signature = none;
  pending_signature = pending_by;
  attempts = 0;
  error_message = none;
  updated_at = 0;
}

-- Signature 60 is not known, 61 landed and 62 failed.
abbrev refund_env : RefundEnv
refund_env = record {
  outcome = λ s _. if s == 61 then landed else if s == 62 then SignatureOutcome.failed else unknown;
  send = λ rs. RefundSend.sent 63;
  now = 9;
}

abbrev four_refunds : List RefundRecord
four_refunds =
    a_refund 10 5000000 none
    ∷ a_refund 11 5000000 (some 60)
    ∷ a_refund 12 5000000 (some 61)
    ∷ a_refund 13 5000000 (some 62)
    ∷ []

abbrev with_refunds : LotteryState
with_refunds = record (a_state []) { refunds = four_refunds }

send_chunk_lem_example :
    (c : RefundCall) × (send_chunk refund_env four_refunds with_refunds ≡ ok c)
    × (c.paid ≡ filter (not_held_back refund_env) four_refunds)
    × ((m : Mint) (w : Wallet)
        → any (is_refund m w) c.state.refunds ≡ any (is_refund m w) with_refunds.refunds)
send_chunk_lem_example =
    send_chunk_lem refund_env four_refunds with_refunds (refl, (refl, (refl, (refl, tt))))

abbrev some_left : List (Mint × RefundBasis)
some_left =
    (
      1,
      record {
        allocated = 4010000000;
        spent = pay 4000100000;
        delivery_leftover = 0;
        exact = true;
      },
    )
    ∷ []

refund_unspent_lem_example :
    (t : LotteryState) × (refund_unspent refund_env some_left with_refunds ≡ ok t)
    × ((m : Mint) (w : Wallet)
        → any (is_refund m w) t.refunds
          ≡ any (is_refund m w) (planned some_left refund_env.now with_refunds).refunds)
refund_unspent_lem_example = refund_unspent_lem refund_env some_left with_refunds

signatures_of : Result LotteryState → List (Option Signature)
signatures_of (err _) = []
signatures_of (ok t) = map (λ r. r.signature) t.refunds

refund_unspent-four :
    signatures_of (refund_unspent refund_env some_left with_refunds)
    ≡ some 63 ∷ none ∷ some 61 ∷ some 63 ∷ []
unfolding signatures_of refund_unspent send_chunk update_refund
refund_unspent-four = refl
