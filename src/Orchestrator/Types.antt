-- ===== src/Orchestrator/Types.antt =====
-- offchain/orchestrator/types.ts: the records of a round.
-- Mints, wallets, signatures and file names are only compared, so they are numbers. A SOL amount
-- is a whole number of lamports, 1e-9 SOL. Raw token amounts and lamports are bigints that the
-- code writes with `toString` and reads with `BigInt`: they are kept as the number, except where
-- the code tests the text itself. An optional list that the code reads by `?? []` is a list.
use pumpling.Base.{Bool, List, Option, ℕ}
use pumpling.Base.Text.{Text}

abbrev pub Mint : Type 0
Mint = ℕ

abbrev pub Wallet : Type 0
Wallet = ℕ

abbrev pub Signature : Type 0
Signature = ℕ

abbrev pub StateFile : Type 0
StateFile = ℕ

-- Lamports.
abbrev pub Sol : Type 0
Sol = ℕ

-- Unix milliseconds.
abbrev pub Time : Type 0
Time = ℕ

-- A JavaScript number: not finite, below zero, or m / 2 ^ k. Every double is of one of these forms.
pub data JsNumber : Type 0 where
  not_finite : JsNumber
  negative : ℕ → ℕ → JsNumber
  dyadic : ℕ → ℕ → JsNumber

pub record RecipientStake : Type 0 where
  pub wallet : Wallet
  pub stake_lamports : Text
  pub burn_bps : Option JsNumber
  pub burn_weight : Option Text

pub data BurnStatus : Type 0 where
  in_progress completed failed : BurnStatus

-- The id is `burn_<mint>_<time>_<serial>`. The serial number alone tells two burns of a round
-- apart, so the id is that number.
pub record BurnRecord : Type 0 where
  pub id : ℕ
  pub mint : Mint
  pub raw_amount : ℕ
  pub status : BurnStatus
  pub signature : Option Signature
  pub pending_signature : Option Signature
  pub pending_last_valid_block_height : Option ℕ
  pub attempts : ℕ
  pub error_message : Option Text
  pub created_at : Time
  pub updated_at : Time

pub data BuyStatus : Type 0 where
  pending in_progress completed failed : BuyStatus

pub record BurnBlocked : Type 0 where
  pub reason : Text
  pub at : Time

pub record TokenBuyRecord : Type 0 where
  pub mint : Mint
  pub target_sol_amount : Option Sol
  pub adjusted_sol_amount : Sol
  pub status : BuyStatus
  pub batch_run_id : Option ℕ
  pub batch_state_file : Option StateFile
  pub batch_state_files : Option (List StateFile)
  pub spent_sol : Option Sol
  pub attempts : Option ℕ
  pub error_message : Option Text
  pub recipients : List RecipientStake
  pub burned_raw : Option ℕ
  pub burn_blocked : Option BurnBlocked
  pub supply_at_start : Option ℕ
  pub supply_at_end : Option ℕ
  pub decimals : Option ℕ
  pub updated_at : Time

pub data SendStatus : Type 0 where
  pending in_progress completed satisfied failed abandoned ata_mismatch : SendStatus

-- `share` is the quotient `r.amount / totalBets`, kept as the two numbers.
pub record SendRecord : Type 0 where
  pub id : ℕ
  pub mint : Mint
  pub recipient : Wallet
  pub recipient_bet_sol : Sol
  pub share : ℕ × ℕ
  pub send_n : ℕ
  pub round : ℕ
  pub amount : Option ℕ
  pub gross_amount : Option ℕ
  pub status : SendStatus
  pub top_up : Option Bool
  pub signature : Option Signature
  pub pending_signature : Option Signature
  pub pending_last_valid_block_height : Option ℕ
  pub failed_signatures : List Signature
  pub attempts : ℕ
  pub error_message : Option Text
  pub had_ata_at_start : Option Bool
  pub is_ata_mismatch : Option Bool
  pub updated_at : Time

pub record LotteryConfig : Type 0 where
  pub buy_concurrency : ℕ
  pub send_concurrency : ℕ
  pub buy_window_minutes : ℕ
  pub send_rounds : ℕ

pub record LotterySummary : Type 0 where
  pub tokens_bought : ℕ
  pub tokens_failed : ℕ
  pub sends_total : ℕ
  pub sends_completed : ℕ
  pub sends_satisfied : ℕ
  pub sends_abandoned : ℕ
  pub sends_ata_mismatch : ℕ
  pub started_at : Time
  pub finished_at : Option Time

pub data RefundStatus : Type 0 where
  pending in_progress completed skipped failed : RefundStatus

-- The id is `mint:recipient`, one refund for each pair.
pub record RefundRecord : Type 0 where
  pub mint : Mint
  pub recipient : Wallet
  pub gross_sol : Sol
  pub fee_sol : Sol
  pub amount_sol : Sol
  pub status : RefundStatus
  pub signature : Option Signature
  pub pending_signature : Option Signature
  pub attempts : ℕ
  pub error_message : Option Text
  pub updated_at : Time

-- The dot-paths by which the counters are named; `send_satisfied` is counted and not declared.
pub data Metric : Type 0 where
  token_skipped_zero_budget : Metric
  send_carry_forward send_retryable_to_pending send_non_retryable_abandon : Metric
  send_max_attempts_abandon send_last_round_retry send_last_round_retry_success : Metric
  send_last_round_retry_fail send_ata_mismatch_blocked send_ata_forgiven send_ata_deferred : Metric
  send_ata_deferred_sent send_compute_limit_split send_pending_tx_confirmed : Metric
  send_pending_check_failed send_satisfied : Metric
  sweep_reset_to_pending sweep_send_completed sweep_send_failed : Metric

-- The counters that the object has, by path.
abbrev pub LotteryMetrics : Type 0
LotteryMetrics = List (Metric × ℕ)

pub record LotteryState : Type 0 where
  pub lottery_id : ℕ
  pub total_sol : Sol
  pub send_reserve : Sol
  pub buy_budget : Sol
  pub config : LotteryConfig
  pub token_buys : List TokenBuyRecord
  pub sends : List SendRecord
  pub refunds : List RefundRecord
  pub burns : List BurnRecord
  pub purchase_tokens : List (Signature × ℕ)
  pub summary : LotterySummary
  pub metrics : Option LotteryMetrics
