-- ===== src/Scheduler/State.antt =====
-- offchain/scheduler/state.ts: `BatchStateManager`. Each operation writes the file after its
-- change; `Date.now()` is the argument `now`. The counters are in Scheduler/Metrics.
pub mod Summary
use pumpling.Base.{
  Bool, List, Option, Result, [], err, filter, find?, length, none, ok, purchase_not_found, some,
  sum_map, ℕ, ◌++◌, ◌+◌, ◌==◌, ◌>>=◌, ◌>>◌, ◌∷◌,
}
use pumpling.Base.Text.{Text}
use pumpling.Orchestrator.State.{assign}
use pumpling.Orchestrator.Types.{Mint, Signature, Sol, Time}
use pumpling.Scheduler.Metrics.{create_empty_batch_metrics}
use pumpling.Scheduler.Types.{BatchConfig, BatchState, BuyVenue, PurchaseRecord, PurchaseStatus}

abbrev pub purchase_code : PurchaseStatus → ℕ
purchase_code PurchaseStatus.pending = 0
purchase_code PurchaseStatus.in_progress = 1
purchase_code PurchaseStatus.completed = 2
purchase_code PurchaseStatus.failed = 3
purchase_code PurchaseStatus.abandoned = 4

abbrev pub purchase_has : PurchaseStatus → PurchaseRecord → Bool
purchase_has status p = purchase_code p.status == purchase_code status

-- `BatchStateManager.create`
unfoldable pub create : ℕ → Mint → Sol → List PurchaseRecord → BatchConfig → Time → BatchState
unfolding create_empty_batch_metrics
create run mint total purchases config now = record {
  run_id = run;
  mint = mint;
  total_sol_amount = total;
  purchase_count = length purchases;
  config = config;
  purchases = purchases;
  summary = record {
    completed_purchases = 0;
    abandoned_purchases = 0;
    total_sol_spent = 0;
    started_at = now;
    finished_at = none;
    retry_started_at = none;
    retry_ends_at = none;
  };
  metrics = some create_empty_batch_metrics;
}

abbrev pub is_purchase : ℕ → PurchaseRecord → Bool
is_purchase index p = p.index == index

-- `getPurchase`, `getPendingPurchases`, `getFailedPurchases`
unfoldable pub get_purchase : ℕ → BatchState → Option PurchaseRecord
get_purchase index state = find? (is_purchase index) state.purchases

unfoldable pub get_pending_purchases : BatchState → List PurchaseRecord
get_pending_purchases state = filter (purchase_has PurchaseStatus.pending) state.purchases

unfoldable pub get_failed_purchases : BatchState → List PurchaseRecord
get_failed_purchases state = filter (purchase_has PurchaseStatus.failed) state.purchases

-- `updateSummary`
unfoldable pub update_summary : BatchState → BatchState
update_summary state =
    let completed = filter (purchase_has PurchaseStatus.completed) state.purchases in
    record state {
      summary = record (state.summary) {
        completed_purchases = length completed;
        abandoned_purchases =
            length (filter (purchase_has PurchaseStatus.abandoned) state.purchases);
        total_sol_spent = sum_map (λ p. p.sol_amount) completed;
      };
    }

-- `updatePurchase`: the change may not touch the id, the index or the schedule.
unfoldable pub update_purchase :
    ℕ → (PurchaseRecord → PurchaseRecord) → Time → BatchState → Result BatchState
unfolding update_summary
update_purchase index change now state = do
  purchases ←
      assign (is_purchase index) (λ p. record (change p) { updated_at = now }) purchase_not_found
        state.purchases
  ok (update_summary (record state { purchases = purchases }))

-- What the operations below do to a purchase; the first argument is the purchase as it was read.
abbrev pub record_attempt : Signature → ℕ → Time → PurchaseRecord → PurchaseRecord → PurchaseRecord
record_attempt signature height now purchase p = record p {
  pending_signature = some signature;
  pending_last_valid_block_height = some height;
  sent_attempts =
      purchase.sent_attempts
      ++ (record { signature = signature; last_valid_block_height = height; at = now } ∷ []);
}

abbrev pub start_purchase : ℕ → PurchaseRecord → PurchaseRecord
start_purchase slippage p = record p {
  status = PurchaseStatus.in_progress;
  last_slippage_bps = some slippage;
}

abbrev pub complete_purchase :
    Signature → Option BuyVenue → PurchaseRecord → PurchaseRecord → PurchaseRecord
complete_purchase signature venue purchase p = record p {
  status = PurchaseStatus.completed;
  signature = some signature;
  venue = venue;
  attempts = purchase.attempts + 1;
}

abbrev pub fail_purchase : Text → PurchaseRecord → PurchaseRecord → PurchaseRecord
fail_purchase message purchase p = record p {
  status = PurchaseStatus.failed;
  error_message = some message;
  attempts = purchase.attempts + 1;
}

abbrev pub abandon_purchase : Text → PurchaseRecord → PurchaseRecord
abandon_purchase message p = record p {
  status = PurchaseStatus.abandoned;
  error_message = some message;
}

abbrev pub retry_purchase : PurchaseRecord → PurchaseRecord
retry_purchase p = record p { status = PurchaseStatus.pending; error_message = none }

-- `recordSentAttempt`
unfoldable pub record_sent_attempt : ℕ → Signature → ℕ → Time → BatchState → Result BatchState
unfolding update_purchase get_purchase
record_sent_attempt index signature height now state = elim (get_purchase index state) [
  | none ↦ err purchase_not_found
  | some purchase ↦ update_purchase index (record_attempt signature height now purchase) now state
]

-- `markInProgress`
unfoldable pub mark_in_progress : ℕ → ℕ → Time → BatchState → Result BatchState
unfolding update_purchase
mark_in_progress index slippage = update_purchase index (start_purchase slippage)

-- `markCompleted`: an unknown index is passed over.
unfoldable pub mark_completed :
    ℕ → Signature → Option BuyVenue → Time → BatchState → Result BatchState
unfolding update_purchase get_purchase
mark_completed index signature venue now state = elim (get_purchase index state) [
  | none ↦ ok state
  | some purchase ↦ update_purchase index (complete_purchase signature venue purchase) now state
]

-- `markFailed`
unfoldable pub mark_failed : ℕ → Text → Time → BatchState → Result BatchState
unfolding update_purchase get_purchase
mark_failed index message now state = elim (get_purchase index state) [
  | none ↦ ok state
  | some purchase ↦ update_purchase index (fail_purchase message purchase) now state
]

-- `markAbandoned`
unfoldable pub mark_abandoned : ℕ → Text → Time → BatchState → Result BatchState
unfolding update_purchase
mark_abandoned index message = update_purchase index (abandon_purchase message)

-- `resetForRetry`
unfoldable pub reset_for_retry : ℕ → Time → BatchState → Result BatchState
unfolding update_purchase
reset_for_retry index = update_purchase index retry_purchase

-- `markRetryWindow`
unfoldable pub mark_retry_window : Time → Time → BatchState → BatchState
mark_retry_window started ends state = record state {
  summary = record (state.summary) { retry_started_at = some started; retry_ends_at = some ends };
}

-- `finalize`
unfoldable pub finalize : Time → BatchState → BatchState
finalize now state = record state { summary = record (state.summary) { finished_at = some now } }
