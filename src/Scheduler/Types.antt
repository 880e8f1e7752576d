-- ===== src/Scheduler/Types.antt =====
-- offchain/scheduler/types.ts: the records of one coin's batch of purchases.
use pumpling.Base.{Bool, List, Option, ℕ}
use pumpling.Base.Text.{Text}
use pumpling.Orchestrator.Types.{Mint, Signature, Sol, Time}

pub data PurchaseStatus : Type 0 where
  pending in_progress completed failed abandoned : PurchaseStatus

pub data BuyVenue : Type 0 where
  pumpfun dex pumpswap : BuyVenue

pub record SentAttemptRecord : Type 0 where
  pub signature : Signature
  pub last_valid_block_height : ℕ
  pub at : Time

pub record PurchaseRecord : Type 0 where
  pub id : ℕ
  pub index : ℕ
  pub scheduled_at : Time
  pub sol_amount : Sol
  pub planned_sol_amount : Option Sol
  pub status : PurchaseStatus
  pub signature : Option Signature
  pub pending_signature : Option Signature
  pub pending_last_valid_block_height : Option ℕ
  pub sent_attempts : List SentAttemptRecord
  pub venue : Option BuyVenue
  pub attempts : ℕ
  pub last_slippage_bps : Option ℕ
  pub error_message : Option Text
  pub updated_at : Time

pub record BatchSummary : Type 0 where
  pub completed_purchases : ℕ
  pub abandoned_purchases : ℕ
  pub total_sol_spent : Sol
  pub started_at : Time
  pub finished_at : Option Time
  pub retry_started_at : Option Time
  pub retry_ends_at : Option Time

pub record BatchConfig : Type 0 where
  pub window_minutes : ℕ
  pub retry_buffer_minutes : ℕ
  pub start_slippage_bps : ℕ
  pub max_slippage_bps : ℕ
  pub had_ata_at_start : Option Bool

-- The counters, named by their dot-paths. `errors_non_retryable` is `errors.nonRetryable`, and
-- `errors_class_non_retryable` the path that is made from the class `non-retryable`.
pub data BatchMetric : Type 0 where
  routing_pumpfun_direct routing_dex_direct routing_fallback_to_dex : BatchMetric
  routing_fallback_to_pumpswap routing_post_send_error_blocked : BatchMetric
  pumpfun_graduation_detected pumpfun_simulation_failed pumpfun_send_failed : BatchMetric
  pumpfun_on_chain_failure pumpfun_token2022_used dex_quote_failed dex_no_route : BatchMetric
  dex_swap_build_failed dex_timeout dex_on_chain_failure balance_shrunk_to_fit : BatchMetric
  balance_abandoned_empty balance_shrunk_after_failure retry_slippage_instant_retry : BatchMetric
  retry_slippage_instant_retry_success retry_slippage_instant_retry_fail : BatchMetric
  retry_pending_tx_confirmed retry_in_flight_stopped retry_non_retryable_abandon : BatchMetric
  retry_retryable_deferred retry_unknown_deferred retry_retry_success : BatchMetric
  retry_max_attempts_abandon retry_window_expired_abandon errors_retryable : BatchMetric
  errors_non_retryable errors_unknown retry_expiry_still_in_flight : BatchMetric
  retry_expired_resigned retry_expired_resign_success errors_class_non_retryable : BatchMetric

pub record BatchMetrics : Type 0 where
  pub counters : List (BatchMetric × ℕ)
  pub by_pattern : List (Text × ℕ)

pub record BatchState : Type 0 where
  pub run_id : ℕ
  pub mint : Mint
  pub total_sol_amount : Sol
  pub purchase_count : ℕ
  pub config : BatchConfig
  pub purchases : List PurchaseRecord
  pub summary : BatchSummary
  pub metrics : Option BatchMetrics
