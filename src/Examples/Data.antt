-- ===== src/Examples/Data.antt =====
-- A small round: one coin, mint 1, which wallet 10 backs with 3 SOL and a burn of one half and
use pumpling.Base.{Bool, List, Option, [], if◌then◌else◌, none, some, true, ℕ, ◌==◌, ◌||◌, ◌∷◌}
use pumpling.Base.Text.{codes}
use pumpling.Orchestrator.Burns.{BurnEnv, sent}
use pumpling.Orchestrator.Types.{
  BurnRecord, BurnStatus, BuyStatus, LotteryState, RecipientStake, SendRecord, SendStatus,
  Signature, Sol, TokenBuyRecord, Wallet, dyadic,
}
use pumpling.Scheduler.Types.{BatchState, PurchaseRecord, PurchaseStatus, pumpfun}
use pumpling.Solana.SignatureOutcome.{landed, unknown}

-- wallet 11 with 1 SOL and no burn; one batch file, 30, whose one purchase brought 1000 units.
abbrev pub half_burner : RecipientStake
half_burner = record {
  wallet = 10;
  stake_lamports = codes "3000000000";
  burn_bps = some (dyadic 5000 0);
  burn_weight = none;
}

abbrev pub keeps_all : RecipientStake
keeps_all = record {
  wallet = 11;
  stake_lamports = codes "1000000000";
  burn_bps = none;
  burn_weight = none;
}

abbrev pub a_buy : TokenBuyRecord
a_buy = record {
  mint = 1;
  target_sol_amount = none;
  adjusted_sol_amount = 4000000000;
  status = BuyStatus.completed;
  batch_run_id = none;
  batch_state_file = some 30;
  batch_state_files = some (30 ∷ []);
  spent_sol = none;
  attempts = some 1;
  error_message = none;
  recipients = half_burner ∷ keeps_all ∷ [];
  burned_raw = none;
  burn_blocked = none;
  supply_at_start = none;
  supply_at_end = none;
  decimals = some 6;
  updated_at = 0;
}

abbrev pub a_delivery : ℕ → Wallet → Sol → Option Signature → SendRecord
a_delivery id w bet pending_by = record {
  id = id;
  mint = 1;
  recipient = w;
  recipient_bet_sol = bet;
  share = (bet, 4000000000);
  send_n = 1;
  round = 1;
  amount = some 100;
  gross_amount = none;
  status = SendStatus.pending;
  top_up = none;
  signature = none;
  pending_signature = pending_by;
  pending_last_valid_block_height = some 1000;
  failed_signatures = [];
  attempts = 0;
  error_message = none;
  had_ata_at_start = none;
  is_ata_mismatch = none;
  updated_at = 0;
}

-- A burn of 100 units whose transaction, signature 5, was sent and is not closed yet.
abbrev pub open_burn : BurnRecord
open_burn = record {
  id = 1;
  mint = 1;
  raw_amount = 100;
  status = BurnStatus.in_progress;
  signature = none;
  pending_signature = some 5;
  pending_last_valid_block_height = some 900;
  attempts = 1;
  error_message = none;
  created_at = 0;
  updated_at = 0;
}

abbrev pub a_state : List BurnRecord → LotteryState
a_state burns = record {
  lottery_id = 1;
  total_sol = 4000000000;
  send_reserve = 0;
  buy_budget = 4000000000;
  config = record {
    buy_concurrency = 2;
    send_concurrency = 2;
    buy_window_minutes = 10;
    send_rounds = 10;
  };
  token_buys = a_buy ∷ [];
  sends = a_delivery 1 10 3000000000 (some 40) ∷ a_delivery 2 11 1000000000 none ∷ [];
  refunds = [];
  burns = burns;
  purchase_tokens = (21, 1000) ∷ [];
  summary = record {
    tokens_bought = 1;
    tokens_failed = 0;
    sends_total = 2;
    sends_completed = 0;
    sends_satisfied = 0;
    sends_abandoned = 0;
    sends_ata_mismatch = 0;
    started_at = 0;
    finished_at = none;
  };
  metrics = none;
}

abbrev pub a_purchase : PurchaseRecord
a_purchase = record {
  id = 1;
  index = 0;
  scheduled_at = 0;
  sol_amount = 4000000000;
  planned_sol_amount = none;
  status = PurchaseStatus.completed;
  signature = some 21;
  pending_signature = none;
  pending_last_valid_block_height = none;
  sent_attempts = [];
  venue = some pumpfun;
  attempts = 1;
  last_slippage_bps = some 300;
  error_message = none;
  updated_at = 0;
}

abbrev pub a_batch : BatchState
a_batch = record {
  run_id = 1;
  mint = 1;
  total_sol_amount = 4000000000;
  purchase_count = 1;
  config = record {
    window_minutes = 10;
    retry_buffer_minutes = 2;
    start_slippage_bps = 300;
    max_slippage_bps = 1300;
    had_ata_at_start = none;
  };
  purchases = a_purchase ∷ [];
  summary = record {
    completed_purchases = 1;
    abandoned_purchases = 0;
    total_sol_spent = 4000000000;
    started_at = 0;
    finished_at = none;
    retry_started_at = none;
    retry_ends_at = none;
  };
  metrics = none;
}

-- The transactions of signatures 5 and 6 burn; the node says so of the first.
abbrev pub burns_for_good : Signature → Bool
burns_for_good s = (s == 5) || (s == 6)

abbrev pub a_call : BurnEnv
a_call = record {
  outcome = λ s _. if s == 5 then landed else unknown;
  load_batch = λ f. if f == 30 then some a_batch else none;
  mint_readable = true;
  token_balance = some 900;
  sign_burn = some (record { signature = 6; last_valid_block_height = some 950; send = sent 6 });
  now = 7;
}
