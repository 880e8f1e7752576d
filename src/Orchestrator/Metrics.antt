-- ===== src/Orchestrator/Metrics.antt =====
-- offchain/orchestrator/state.ts: the counters of a round, named by their dot-paths.
use pumpling.Base.{[], if◌then◌else◌, map, ℕ, ◌+◌, ◌==◌, ◌∷◌}
use pumpling.Orchestrator.Types.{
  LotteryMetrics, Metric, send_ata_deferred, send_ata_deferred_sent, send_ata_forgiven,
  send_ata_mismatch_blocked, send_carry_forward, send_compute_limit_split, send_last_round_retry,
  send_last_round_retry_fail, send_last_round_retry_success, send_max_attempts_abandon,
  send_non_retryable_abandon, send_pending_check_failed, send_pending_tx_confirmed,
  send_retryable_to_pending, send_satisfied, sweep_reset_to_pending, sweep_send_completed,
  sweep_send_failed, token_skipped_zero_budget,
}

abbrev pub metric_code : Metric → ℕ
metric_code token_skipped_zero_budget = 0
metric_code send_carry_forward = 1
metric_code send_retryable_to_pending = 2
metric_code send_non_retryable_abandon = 3
metric_code send_max_attempts_abandon = 4
metric_code send_last_round_retry = 5
metric_code send_last_round_retry_success = 6
metric_code send_last_round_retry_fail = 7
metric_code send_ata_mismatch_blocked = 8
metric_code send_ata_forgiven = 9
metric_code send_ata_deferred = 10
metric_code send_ata_deferred_sent = 11
metric_code send_compute_limit_split = 12
metric_code send_pending_tx_confirmed = 13
metric_code send_pending_check_failed = 14
metric_code send_satisfied = 15
metric_code sweep_reset_to_pending = 16
metric_code sweep_send_completed = 17
metric_code sweep_send_failed = 18

-- `createEmptyLotteryMetrics`
unfoldable pub create_empty_lottery_metrics : LotteryMetrics
create_empty_lottery_metrics =
    map (λ m. (m, 0))
      (token_skipped_zero_budget ∷ send_carry_forward ∷ send_retryable_to_pending
        ∷ send_non_retryable_abandon ∷ send_max_attempts_abandon ∷ send_last_round_retry
        ∷ send_last_round_retry_success ∷ send_last_round_retry_fail ∷ send_ata_mismatch_blocked
        ∷ send_ata_forgiven ∷ send_ata_deferred ∷ send_ata_deferred_sent ∷ send_compute_limit_split
        ∷ send_pending_tx_confirmed ∷ send_pending_check_failed ∷ sweep_reset_to_pending
        ∷ sweep_send_completed ∷ sweep_send_failed ∷ [])

-- `current[key] = (current[key] || 0) + amount`
unfoldable pub bump : Metric → ℕ → LotteryMetrics → LotteryMetrics
bump key amount [] = (key, amount) ∷ []
bump key amount ((k, v) ∷ m) =
    if metric_code k == metric_code key then (k, v + amount) ∷ m else (k, v) ∷ bump key amount m
