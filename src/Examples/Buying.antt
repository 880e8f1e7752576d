-- ===== src/Examples/Buying.antt =====
-- Runs of a batch of purchases.
use pumpling.Base.{
  Option, [], false, has, if◌then◌else◌, ltb, none, ok, refl, some, true, ℕ, ◌*◌, ◌<◌, ◌∷◌, ◌≡◌,
  ◌≤◌, ◌⊎◌,
}
use pumpling.Base.Text.{codes}
use pumpling.Buy.{VenueEnd, broke, buy, other_kind, went_through}
use pumpling.Buy.OneSender.{EndsAtLast, buy-EndsAtLast}
use pumpling.Examples.Data.{a_batch, a_buy, a_purchase, a_state}
use pumpling.Orchestrator.PurchaseTokens.{BatchLoader}
use pumpling.Orchestrator.PurchaseTokens.Grounded.{IsGrounded, refresh_purchase_tokens-IsGrounded}
use pumpling.Orchestrator.PurchaseTokens.Refresh.{
  KeeperEffect, gained, on_chain, refresh_purchase_tokens,
}
use pumpling.Orchestrator.State.{lookup}
use pumpling.Orchestrator.Types.{LotteryState, Signature, Sol}
use pumpling.Scheduler.Batch.{BuyError, Buying, Outside, Run, bought, threw}
use pumpling.Scheduler.Batch.Bounds.{retry_window_minutes_lem}
use pumpling.Scheduler.Batch.Keeps.{Tells, closed, indexes}
use pumpling.Scheduler.Batch.NoDouble.{IsCareful}
use pumpling.Scheduler.Batch.OneAtATime.{retry_one-IsCareful}
use pumpling.Scheduler.Batch.Retry.{retry_one, retry_window_minutes, run_batch}
use pumpling.Scheduler.Batch.Whole.{run_batch_lem}
use pumpling.Scheduler.State.{get_purchase}
use pumpling.Scheduler.Types.{
  BatchConfig, BuyVenue, PurchaseRecord, PurchaseStatus, dex, pumpfun, pumpswap,
}

abbrev expired_error : BuyError
expired_error = record {
  message = codes "Transaction send failed: block height exceeded";
  venue = none;
  sent = some (31, some 900);
}

abbrev slipped_error : BuyError
slipped_error = record { message = codes "Slippage"; venue = some pumpfun; sent = none }

-- The first call runs out, the second one slips, and the third one buys.
abbrev nth_buying : ℕ → Sol → ℕ → Buying
nth_buying made amount slippage =
    if ltb made 2
    then record { signed = (31, 900) ∷ []; ends = threw expired_error }
    else if ltb made 20
    then record { signed = []; ends = threw slipped_error }
    else record { signed = (32, 1900) ∷ []; ends = bought 32 pumpfun false }

abbrev some_outside : Outside
some_outside = record {
  buy = nth_buying;
  height = λ made. some 1000;
  status = λ made signature. some none;
  balance = λ made. some 9000000000;
  clock = λ made. made * 1000;
}

abbrev batch_config : BatchConfig
batch_config = record {
  window_minutes = 20;
  retry_buffer_minutes = 3;
  start_slippage_bps = 300;
  max_slippage_bps = 1300;
  had_ata_at_start = some false;
}

abbrev pending_purchase : PurchaseRecord
pending_purchase = record a_purchase {
  status = PurchaseStatus.pending;
  signature = none;
  pending_signature = none;
}

abbrev a_run : Run
a_run = record { state = record a_batch { purchases = pending_purchase ∷ [] }; calls = 0; log = [] }

run_batch_lem_example :
    (r : Run) × (run_batch some_outside batch_config false a_run ≡ ok r)
    × ((j : ℕ)
        → has j (indexes a_run.state.purchases) ≡ true
        → (p : PurchaseRecord) × (get_purchase j r.state ≡ some p) × (closed p.status ≡ true))
run_batch_lem_example = run_batch_lem some_outside batch_config false a_run

abbrev SameSol : Sol → Sol → Type 0
SameSol a b = a ≡ b

retry_window_minutes_lem_example :
    (retry_window_minutes some_outside batch_config false 12 ≤ 15)
    × ((retry_window_minutes some_outside batch_config false 12 < 15)
        → (12 * 25 ≤ retry_window_minutes some_outside batch_config false 12 * 60)
          × (3 ≤ retry_window_minutes some_outside batch_config false 12))
retry_window_minutes_lem_example = retry_window_minutes_lem some_outside batch_config false 12

abbrev failed_purchase : PurchaseRecord
failed_purchase = record pending_purchase {
  status = PurchaseStatus.failed;
  pending_signature = some 31;
  pending_last_valid_block_height = some 900;
}

abbrev retry_run : Run
retry_run = record {
  state = record a_batch { purchases = failed_purchase ∷ [] };
  calls = 0;
  log = [];
}

retry_one-IsCareful_example :
    (r : Run) × (retry_one some_outside batch_config false 180000 failed_purchase retry_run ≡ ok r)
    × Tells closed failed_purchase.index r.state.purchases
    × IsCareful (some 31) r.log
retry_one-IsCareful_example =
    retry_one-IsCareful some_outside batch_config false 180000 failed_purchase retry_run
      (record { found = failed_purchase; is = refl; fit = refl }) refl

-- The curve fails before sending, and the aggregator sends.
abbrev curve_breaks : BuyVenue → VenueEnd
curve_breaks pumpfun =
    broke (record { kind = other_kind; message = codes "fetch failed"; sent = none })
curve_breaks dex = went_through 41
curve_breaks pumpswap = went_through 42

buy-EndsAtLast_example : EndsAtLast curve_breaks (buy true curve_breaks)
buy-EndsAtLast_example = buy-EndsAtLast true curve_breaks

falls_back : (buy true curve_breaks).called ≡ pumpfun ∷ dex ∷ []
unfolding buy
falls_back = refl

abbrev node_effects : Signature → Option KeeperEffect
node_effects s = some (on_chain (λ mint. gained 777))

abbrev unread_state : LotteryState
unread_state = record (a_state []) { purchase_tokens = [] }

abbrev one_file : BatchLoader
one_file file = some a_batch

refresh_purchase_tokens-IsGrounded_example :
    (lookup 21 [] ≡ some 777)
    ⊎ IsGrounded node_effects 9 (a_buy.mint ∷ []) one_file unread_state 21 777
unfolding refresh_purchase_tokens
refresh_purchase_tokens-IsGrounded_example =
    refresh_purchase_tokens-IsGrounded node_effects 9 (a_buy.mint ∷ []) one_file unread_state 21 777
      refl
