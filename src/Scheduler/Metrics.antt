-- ===== src/Scheduler/Metrics.antt =====
-- offchain/scheduler/state.ts: the counters of a batch. A counter that the record does not have
-- starts from nothing.
use pumpling.Base.{
  Bool, List, [], false, if◌then◌else◌, map, none, some, true, ℕ, ◌&&◌, ◌+◌, ◌==◌, ◌∷◌,
}
use pumpling.Base.Text.{Text}
use pumpling.Scheduler.Types.{
  BatchMetric, BatchMetrics, BatchState, balance_abandoned_empty, balance_shrunk_after_failure,
  balance_shrunk_to_fit, dex_no_route, dex_on_chain_failure, dex_quote_failed,
  dex_swap_build_failed, dex_timeout, errors_class_non_retryable, errors_non_retryable,
  errors_retryable, errors_unknown, pumpfun_graduation_detected, pumpfun_on_chain_failure,
  pumpfun_send_failed, pumpfun_simulation_failed, pumpfun_token2022_used,
  retry_expired_resign_success, retry_expired_resigned, retry_expiry_still_in_flight,
  retry_in_flight_stopped, retry_max_attempts_abandon, retry_non_retryable_abandon,
  retry_pending_tx_confirmed, retry_retry_success, retry_retryable_deferred,
  retry_slippage_instant_retry, retry_slippage_instant_retry_fail,
  retry_slippage_instant_retry_success, retry_unknown_deferred, retry_window_expired_abandon,
  routing_dex_direct, routing_fallback_to_dex, routing_fallback_to_pumpswap,
  routing_post_send_error_blocked, routing_pumpfun_direct,
}

abbrev batch_metric_code : BatchMetric → ℕ
batch_metric_code routing_pumpfun_direct = 0
batch_metric_code routing_dex_direct = 1
batch_metric_code routing_fallback_to_dex = 2
batch_metric_code routing_fallback_to_pumpswap = 3
batch_metric_code routing_post_send_error_blocked = 4
batch_metric_code pumpfun_graduation_detected = 5
batch_metric_code pumpfun_simulation_failed = 6
batch_metric_code pumpfun_send_failed = 7
batch_metric_code pumpfun_on_chain_failure = 8
batch_metric_code pumpfun_token2022_used = 9
batch_metric_code dex_quote_failed = 10
batch_metric_code dex_no_route = 11
batch_metric_code dex_swap_build_failed = 12
batch_metric_code dex_timeout = 13
batch_metric_code dex_on_chain_failure = 14
batch_metric_code balance_shrunk_to_fit = 15
batch_metric_code balance_abandoned_empty = 16
batch_metric_code balance_shrunk_after_failure = 17
batch_metric_code retry_slippage_instant_retry = 18
batch_metric_code retry_slippage_instant_retry_success = 19
batch_metric_code retry_slippage_instant_retry_fail = 20
batch_metric_code retry_pending_tx_confirmed = 21
batch_metric_code retry_in_flight_stopped = 22
batch_metric_code retry_non_retryable_abandon = 23
batch_metric_code retry_retryable_deferred = 24
batch_metric_code retry_unknown_deferred = 25
batch_metric_code retry_retry_success = 26
batch_metric_code retry_max_attempts_abandon = 27
batch_metric_code retry_window_expired_abandon = 28
batch_metric_code errors_retryable = 29
batch_metric_code errors_non_retryable = 30
batch_metric_code errors_unknown = 31
batch_metric_code retry_expiry_still_in_flight = 32
batch_metric_code retry_expired_resigned = 33
batch_metric_code retry_expired_resign_success = 34
batch_metric_code errors_class_non_retryable = 35

-- `createEmptyBatchMetrics`
unfoldable pub create_empty_batch_metrics : BatchMetrics
create_empty_batch_metrics = record {
  counters =
      map (λ m. (m, 0))
        (routing_pumpfun_direct ∷ routing_dex_direct ∷ routing_fallback_to_dex
          ∷ routing_fallback_to_pumpswap ∷ routing_post_send_error_blocked
          ∷ pumpfun_graduation_detected ∷ pumpfun_simulation_failed ∷ pumpfun_send_failed
          ∷ pumpfun_on_chain_failure ∷ pumpfun_token2022_used ∷ dex_quote_failed ∷ dex_no_route
          ∷ dex_swap_build_failed ∷ dex_timeout ∷ dex_on_chain_failure ∷ balance_shrunk_to_fit
          ∷ balance_abandoned_empty ∷ balance_shrunk_after_failure ∷ retry_slippage_instant_retry
          ∷ retry_slippage_instant_retry_success ∷ retry_slippage_instant_retry_fail
          ∷ retry_pending_tx_confirmed ∷ retry_in_flight_stopped ∷ retry_non_retryable_abandon
          ∷ retry_retryable_deferred ∷ retry_unknown_deferred ∷ retry_retry_success
          ∷ retry_max_attempts_abandon ∷ retry_window_expired_abandon ∷ errors_retryable
          ∷ errors_non_retryable ∷ errors_unknown ∷ []);
  by_pattern = [];
}

-- `incrementNestedCounter`
unfoldable pub increment_nested_counter :
    BatchMetric → ℕ → List (BatchMetric × ℕ) → List (BatchMetric × ℕ)
increment_nested_counter key amount [] = (key, amount) ∷ []
increment_nested_counter key amount ((k, v) ∷ rest) =
    if batch_metric_code k == batch_metric_code key
    then (k, v + amount) ∷ rest
    else (k, v) ∷ increment_nested_counter key amount rest

abbrev same_text : Text → Text → Bool
same_text [] [] = true
same_text (c ∷ s) (d ∷ t) = c == d && same_text s t
same_text _ _ = false

abbrev bump_pattern : Text → List (Text × ℕ) → List (Text × ℕ)
bump_pattern pattern [] = (pattern, 1) ∷ []
bump_pattern pattern ((k, v) ∷ rest) =
    if same_text k pattern then (k, v + 1) ∷ rest else (k, v) ∷ bump_pattern pattern rest

abbrev metrics_of : BatchState → BatchMetrics
metrics_of state = elim state.metrics [ none ↦ create_empty_batch_metrics | some m ↦ m ]

-- `incrementMetric`
unfoldable pub increment_batch_metric : BatchMetric → BatchState → BatchState
unfolding increment_nested_counter create_empty_batch_metrics
increment_batch_metric key state = record state {
  metrics = some (record (metrics_of state) {
    counters = increment_nested_counter key 1 (metrics_of state).counters;
  });
}

-- `incrementErrorPattern`
unfoldable pub increment_error_pattern : Text → BatchState → BatchState
unfolding create_empty_batch_metrics
increment_error_pattern pattern state = record state {
  metrics = some (record (metrics_of state) {
    by_pattern = bump_pattern pattern (metrics_of state).by_pattern;
  });
}
