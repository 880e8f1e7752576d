-- ===== src/Scheduler/Batch/Retry.antt =====
-- offchain/scheduler/batch.ts: the retry window of `batchBuy`, and the whole batch.
use pumpling.Base.{
  Bool, List, Option, Result, [], err, false, if◌then◌else◌, length, ltb, max, min, none, not, ok,
  out_of_fuel, some, suc, true, zero, ℕ, ◌*◌, ◌+◌, ◌/◌, ◌>>=◌, ◌∷◌,
}
use pumpling.Base.Text.{Text, codes}
use pumpling.Orchestrator.Types.{Sol, Time}
use pumpling.Scheduler.Batch.{
  BuyEnd, BuyError, Outside, PendingVerdict, Run, bought, call_buy, clear, count, has_landed,
  in_flight, in_flight_polls, pending_verdict, record_venue_routing, resolve_spendable_amount,
  signature_verdict, threw, write,
}
use pumpling.Scheduler.Batch.Failures.{count_error, keep_pending, store_pending}
use pumpling.Scheduler.Batch.Main.{buy_all, shrink_amount, slippage_at}
use pumpling.Scheduler.Errors.{ErrorClass, classify_error, non_retryable}
use pumpling.Scheduler.Metrics.{increment_batch_metric}
use pumpling.Scheduler.Slippage.{can_retry, get_slippage_for_attempt, max_retries}
use pumpling.Scheduler.State.{
  finalize, get_failed_purchases, get_purchase, mark_abandoned, mark_completed, mark_failed,
  mark_in_progress, mark_retry_window, update_purchase,
}
use pumpling.Scheduler.Types.{
  BatchConfig, BuyVenue, PurchaseRecord, PurchaseStatus, balance_abandoned_empty,
  balance_shrunk_to_fit, pumpfun, retry_in_flight_stopped, retry_max_attempts_abandon,
  retry_non_retryable_abandon, retry_pending_tx_confirmed, retry_retry_success,
  retry_window_expired_abandon,
}

module _ (outside : Outside) (config : BatchConfig) (has_ata : Bool) where
  -- The error of a retry that is not in flight: its record, and whether the loop goes on.
  unfoldable pub turn_down : ErrorClass → (Run → Result Run) → ℕ → ℕ → BuyError → Run → Result Run
  unfolding mark_abandoned mark_failed increment_batch_metric
  turn_down non_retryable rest attempts index e run =
      write outside (mark_abandoned index e.message) run >>= λ done.
      ok (count retry_non_retryable_abandon done)
  turn_down _ rest attempts index e run = elim (ltb max_retries attempts) [
    | true ↦ write outside (mark_abandoned index e.message) run >>= λ done.
        rest (count retry_max_attempts_abandon done)
    | false ↦ write outside (mark_failed index e.message) run >>= rest
  ]

  -- The venue of the error, or else the one on record.
  abbrev pub venue_of : Option BuyVenue → Option BuyVenue → BuyVenue
  venue_of none none = pumpfun
  venue_of none (some venue) = venue
  venue_of (some venue) _ = venue

  unfoldable pub end_retry_failure :
      (Run → Result Run) → ℕ → PurchaseRecord → BuyError → PendingVerdict × Run → Result Run
  unfolding update_purchase mark_failed mark_completed increment_batch_metric count_error
      classify_error mark_abandoned turn_down
  end_retry_failure rest attempts purchase e (in_flight signature, run) =
      write outside (update_purchase purchase.index (keep_pending outside signature)) run
      >>= λ kept. write outside (mark_failed purchase.index e.message) kept >>= λ done.
          ok (count retry_in_flight_stopped done)
  end_retry_failure rest attempts purchase e (has_landed signature, run) =
      write outside
        (mark_completed purchase.index signature (some (venue_of e.venue purchase.venue))) run
      >>= λ done. ok (count retry_pending_tx_confirmed done)
  end_retry_failure rest attempts purchase e (clear, run) =
      store_pending outside purchase.index e (count_error outside e run) >>= λ kept.
      turn_down (classify_error e.message e.venue).0 rest attempts purchase.index e kept

  unfoldable pub end_retry : (Run → Result Run) → ℕ → PurchaseRecord → BuyEnd × Run → Result Run
  unfolding mark_completed increment_batch_metric record_venue_routing pending_verdict
      update_purchase mark_failed count_error classify_error mark_abandoned end_retry_failure
  end_retry rest attempts purchase (bought signature venue fallback, run) =
      write outside (mark_completed purchase.index signature (some venue)) run >>= λ done.
      ok (record_venue_routing venue fallback (count retry_retry_success done))
  end_retry rest attempts purchase (threw e, run) =
      end_retry_failure rest attempts purchase e (pending_verdict outside in_flight_polls e run)

  unfoldable pub note_shrunk : PurchaseRecord → Sol → Run → Result Run
  unfolding update_purchase increment_batch_metric
  note_shrunk purchase amount run =
      if ltb amount purchase.sol_amount
      then (write outside
            (update_purchase purchase.index (shrink_amount outside config has_ata amount purchase))
            run
          >>= λ done. ok (count balance_shrunk_to_fit done))
      else ok run

  -- One attempt, with what can be spent.
  unfoldable pub retry_once :
      (Run → Result Run) → ℕ → PurchaseRecord → Option Sol → Run → Result Run
  unfolding mark_abandoned increment_batch_metric mark_in_progress call_buy update_purchase
      mark_completed record_venue_routing pending_verdict mark_failed count_error classify_error
      get_slippage_for_attempt end_retry note_shrunk slippage_at
  retry_once rest attempts purchase none run =
      write outside (mark_abandoned purchase.index (codes "Keeper balance exhausted before retry"))
        run
      >>= λ done. ok (count balance_abandoned_empty done)
  retry_once rest attempts purchase (some amount) run = note_shrunk purchase amount run >>= λ noted.
      write outside (mark_in_progress purchase.index (slippage_at outside config has_ata attempts))
        noted
      >>= λ started.
          call_buy outside purchase.index amount (slippage_at outside config has_ata attempts)
            started
          >>= end_retry rest attempts purchase

  abbrev pub tick : Run → Run
  tick run = record run { calls = run.calls + 1 }

  -- The record is shared with the state: its amounts and its venue are those it has by now.
  unfoldable pub live : PurchaseRecord → Run → PurchaseRecord
  unfolding get_purchase
  live purchase run =
      let current : PurchaseRecord = elim (get_purchase purchase.index run.state) [
        | none ↦ purchase
        | some p ↦ p
      ] in
      record purchase {
        sol_amount = current.sol_amount;
        planned_sol_amount = current.planned_sol_amount;
        venue = current.venue;
      }

  -- The retry loop of one purchase, after `attempts`; it deadline where the window has run out.
  unfoldable pub retry_loop : ℕ → ℕ → Time → PurchaseRecord → Run → Result Run
  unfolding can_retry get_purchase mark_abandoned increment_batch_metric resolve_spendable_amount
      mark_in_progress call_buy update_purchase mark_completed record_venue_routing pending_verdict
      mark_failed count_error classify_error get_slippage_for_attempt live retry_once
  retry_loop zero attempts deadline purchase run = err out_of_fuel
  retry_loop (suc fuel) attempts deadline purchase run = elim (can_retry attempts) [
    | false ↦ ok run
    | true ↦ elim (ltb deadline (outside.clock run.calls)) [
      | true ↦
          write outside (mark_abandoned purchase.index (codes "Retry window expired")) (tick run)
          >>= λ done. ok (count retry_window_expired_abandon done)
      | false ↦
          let current = live purchase run in
          retry_once (retry_loop fuel (attempts + 1) deadline purchase) (attempts + 1) current
            (resolve_spendable_amount (outside.balance (run.calls + 1)) current.sol_amount
              (not has_ata))
            (tick (tick run))
    ]
  ]

  abbrev pub or_max_retries : Option Text → Text
  or_max_retries none = codes "Max retries exceeded"
  or_max_retries (some []) = codes "Max retries exceeded"
  or_max_retries (some (c ∷ s)) = c ∷ s

  -- A purchase that is still failed after the loop.
  unfoldable pub close_if_failed : ℕ → Option PurchaseRecord → Run → Result Run
  unfolding mark_abandoned
  close_if_failed index none run = ok run
  close_if_failed index (some p) run = elim p.status [
    | PurchaseStatus.failed ↦
        write outside (mark_abandoned index (or_max_retries p.error_message)) run
    | _ ↦ ok run
  ]

  abbrev pub retry_fuel : ℕ
  retry_fuel = max_retries + 2

  unfoldable pub retry_attempts : Time → PurchaseRecord → Run → Result Run
  unfolding retry_loop get_purchase mark_abandoned close_if_failed
  retry_attempts deadline purchase run = retry_loop retry_fuel 0 deadline purchase run >>= λ tried.
      close_if_failed purchase.index (get_purchase purchase.index tried.state) tried

  -- From the verdict on the transaction of the main window.
  unfoldable pub after_verdict : Time → PurchaseRecord → PendingVerdict × Run → Result Run
  unfolding mark_completed mark_abandoned increment_batch_metric retry_loop get_purchase
      retry_attempts
  after_verdict deadline purchase (has_landed signature, run) =
      write outside (mark_completed purchase.index signature (some (venue_of none purchase.venue)))
        run
      >>= λ done. ok (count retry_pending_tx_confirmed done)
  after_verdict deadline purchase (in_flight signature, run) =
      write outside
        (mark_abandoned purchase.index
          (codes "Earlier transaction may still land; not signing another"))
        run
      >>= λ done. ok (count retry_in_flight_stopped done)
  after_verdict deadline purchase (clear, run) = retry_attempts deadline purchase run

  -- One purchase of the retry window.
  unfoldable pub retry_one : Time → PurchaseRecord → Run → Result Run
  unfolding signature_verdict mark_completed mark_abandoned increment_batch_metric retry_loop
      get_purchase after_verdict retry_attempts
  retry_one deadline purchase run = elim purchase.pending_signature [
    | none ↦ retry_attempts deadline purchase run
    | some signature ↦ after_verdict deadline purchase (
        signature_verdict outside in_flight_polls signature purchase.pending_last_valid_block_height
          run)
  ]

  unfoldable pub retry_all : Time → List PurchaseRecord → Run → Result Run
  unfolding retry_one
  retry_all deadline [] run = ok run
  retry_all deadline (purchase ∷ purchases) run =
      retry_one deadline purchase run >>= retry_all deadline purchases

  -- `adaptiveRetryWindowMinutes`
  unfoldable pub retry_window_minutes : ℕ → ℕ
  retry_window_minutes failed = min 15 (max config.retry_buffer_minutes ((failed * 25 + 59) / 60))

  -- The second pass, over the purchases that the main window left failed.
  unfoldable pub open_window : List PurchaseRecord → Run → Result Run
  unfolding mark_retry_window retry_all retry_window_minutes
  open_window [] run = ok run
  open_window (purchase ∷ purchases) run =
      let started = outside.clock run.calls in
      let deadline = started + retry_window_minutes (length (purchase ∷ purchases)) * 60000 in
      retry_all deadline (purchase ∷ purchases)
        (record run { state = mark_retry_window started deadline run.state; calls = run.calls + 1 })

  unfoldable pub retry_failed : Run → Result Run
  unfolding get_failed_purchases mark_retry_window retry_all retry_window_minutes open_window
  retry_failed run = open_window (get_failed_purchases run.state) run

  -- The phases of `batchBuy` after its initialisation, on the purchases of the batch.
  unfoldable pub run_batch : Run → Result Run
  unfolding buy_all retry_failed finalize
  run_batch run = buy_all outside config has_ata run.state.purchases false run >>= λ bought.
      retry_failed bought >>= λ tried.
      ok (record tried { state = finalize (outside.clock tried.calls) tried.state })
