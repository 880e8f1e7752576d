-- ===== src/Scheduler/Batch/Failures.antt =====
-- offchain/scheduler/batch.ts: `recordPurchaseFailure`, the status that a failed purchase gets.
use pumpling.Base.{Option, Result, none, ok, some, ℕ, ◌>>=◌}
use pumpling.Base.Text.{Text}
use pumpling.Orchestrator.Types.{Signature}
use pumpling.Scheduler.Batch.{BuyError, Outside, Run, count, write}
use pumpling.Scheduler.Errors.{ErrorClass, classify_error, non_retryable, retryable, unclassified}
use pumpling.Scheduler.Metrics.{increment_batch_metric, increment_error_pattern}
use pumpling.Scheduler.State.{mark_abandoned, mark_failed, update_purchase}
use pumpling.Scheduler.Types.{
  BatchMetric, PurchaseRecord, errors_class_non_retryable, errors_retryable, errors_unknown,
  retry_non_retryable_abandon, retry_retryable_deferred, retry_unknown_deferred,
  routing_post_send_error_blocked,
}

module _ (outside : Outside) where
  abbrev pub class_metric : ErrorClass → BatchMetric
  class_metric retryable = errors_retryable
  class_metric non_retryable = errors_class_non_retryable
  class_metric unclassified = errors_unknown

  abbrev pub count_pattern : Option Text → Run → Run
  count_pattern none run = run
  count_pattern (some pattern) run = record run {
    state = increment_error_pattern pattern run.state;
  }

  -- `errors.${errorClass}`, and the pattern.
  unfoldable pub count_error : BuyError → Run → Run
  unfolding classify_error increment_batch_metric increment_error_pattern
  count_error e run =
      let class = classify_error e.message e.venue in
      count_pattern class.1 (count (class_metric class.0) run)

  abbrev pub keep_pending : Signature → PurchaseRecord → PurchaseRecord
  keep_pending signature p = record p { pending_signature = some signature }

  -- The signature that the retry phase needs.
  abbrev pub store_pending : ℕ → BuyError → Run → Result Run
  store_pending index e run = elim e.sent [
    | none ↦ ok run
    | some pair ↦ write outside (update_purchase index (keep_pending pair.0)) run
  ]

  abbrev pub count_blocked : BuyError → Run → Run
  count_blocked e run = elim e.sent [
    | none ↦ run
    | some _ ↦ count routing_post_send_error_blocked run
  ]

  unfoldable pub give_status : ErrorClass → ℕ → BuyError → Run → Result Run
  unfolding mark_abandoned mark_failed update_purchase increment_batch_metric
  give_status non_retryable index e run =
      write outside (mark_abandoned index e.message) run >>= λ done.
      ok (count retry_non_retryable_abandon done)
  give_status retryable index e run = write outside (mark_failed index e.message) run >>= λ done.
      store_pending index e done >>= λ kept.
      ok (count retry_retryable_deferred (count_blocked e kept))
  give_status unclassified index e run = write outside (mark_failed index e.message) run >>= λ done.
      store_pending index e done >>= λ kept.
      ok (count retry_unknown_deferred (count_blocked e kept))

  -- `recordPurchaseFailure`
  unfoldable pub record_purchase_failure : ℕ → BuyError → Run → Result Run
  unfolding count_error classify_error mark_abandoned mark_failed update_purchase
      increment_batch_metric give_status
  record_purchase_failure index e run =
      give_status (classify_error e.message e.venue).0 index e (count_error e run)
