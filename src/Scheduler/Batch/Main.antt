-- ===== src/Scheduler/Batch/Main.antt =====
-- offchain/scheduler/batch.ts: the main window of `batchBuy`, purchase by purchase.
use pumpling.Base.{
  Bool, List, Option, Result, [], false, if◌then◌else◌, ltb, none, not, ok, some, suc, true, zero,
  ℕ, ◌+◌, ◌>>=◌, ◌∷◌,
}
use pumpling.Base.Text.{Text, codes}
use pumpling.Orchestrator.Types.{Sol}
use pumpling.Scheduler.Batch.{
  BuyEnd, BuyError, Outside, PendingVerdict, Progress, Run, bought, call_buy, clear, complete,
  confirm_pending, count, drained, failing, has_landed, in_flight, in_flight_polls,
  is_blockhash_expiry, is_insufficient_funds, max_expiry_resigns, record_venue_routing,
  resolve_spendable_amount, settled, signature_verdict, threw, try_confirm_pending, write,
}
use pumpling.Scheduler.Batch.Failures.{record_purchase_failure}
use pumpling.Scheduler.Errors.{is_slippage_error}
use pumpling.Scheduler.Metrics.{increment_batch_metric}
use pumpling.Scheduler.Slippage.{get_slippage_for_attempt}
use pumpling.Scheduler.State.{mark_abandoned, mark_completed, mark_in_progress, update_purchase}
use pumpling.Scheduler.Types.{
  BatchConfig, PurchaseRecord, balance_abandoned_empty, balance_shrunk_after_failure,
  balance_shrunk_to_fit, retry_expired_resign_success, retry_expired_resigned,
  retry_expiry_still_in_flight, retry_slippage_instant_retry, retry_slippage_instant_retry_fail,
  retry_slippage_instant_retry_success,
}

module _ (outside : Outside) (config : BatchConfig) (has_ata : Bool) where
  unfoldable pub slippage_at : ℕ → ℕ
  unfolding get_slippage_for_attempt
  slippage_at attempt =
      get_slippage_for_attempt attempt config.start_slippage_bps config.max_slippage_bps

  -- A purchase that is signed again after its blockhash ran out: how the call ended.
  unfoldable pub resigned :
      (BuyError → Run → Result (Progress × Run)) → ℕ → BuyEnd × Run → Result (Progress × Run)
  unfolding complete increment_batch_metric
  resigned failed index (bought signature venue fallback, run) =
      complete outside index signature venue fallback run >>= λ done.
      ok (settled, count retry_expired_resign_success done)
  resigned failed index (threw e, run) = failed e run

  abbrev pub unless_settled :
      (BuyError → Run → Result (Progress × Run)) → Progress × Run → Result (Progress × Run)
  unless_settled rest (settled, run) = ok (settled, run)
  unless_settled rest (drained, run) = ok (drained, run)
  unless_settled rest (failing e, run) = rest e run

  -- One round of the loop, from the verdict on the transaction that ran out.
  unfoldable pub sign_again :
      (BuyError → Run → Result (Progress × Run))
      → ℕ
      → Sol
      → BuyError
      → PendingVerdict × Run
      → Result (Progress × Run)
  unfolding confirm_pending increment_batch_metric mark_in_progress call_buy try_confirm_pending
      resigned slippage_at
  sign_again rest index amount e (has_landed signature, run) =
      confirm_pending outside index signature e run >>= λ done. ok (settled, done)
  sign_again rest index amount e (in_flight signature, run) =
      ok (failing e, count retry_expiry_still_in_flight run)
  sign_again rest index amount e (clear, run) =
      write outside (mark_in_progress index (slippage_at 1)) (count retry_expired_resigned run)
      >>= λ started. call_buy outside index amount (slippage_at 1) started >>= λ ended.
          resigned (λ e' r. try_confirm_pending outside index e' r >>= unless_settled rest) index
            ended

  -- The loop that signs a purchase again while its blockhash ran out.
  unfoldable pub resign_expired : ℕ → ℕ → Sol → BuyError → Run → Result (Progress × Run)
  unfolding is_blockhash_expiry signature_verdict sign_again
  resign_expired zero index amount e run = ok (failing e, run)
  resign_expired (suc left) index amount e run = elim (is_blockhash_expiry e) [
    | none ↦ ok (failing e, run)
    | some expired ↦
        sign_again (resign_expired left index amount) index amount e
          (signature_verdict outside in_flight_polls expired.0 (some (expired.1)) run)
  ]

  -- A call after which nothing more is counted, and whose error is asked about once.
  unfoldable pub end_shrunk : ℕ → BuyEnd × Run → Result (Progress × Run)
  unfolding complete try_confirm_pending
  end_shrunk index (bought signature venue fallback, run) =
      complete outside index signature venue fallback run >>= λ done. ok (settled, done)
  end_shrunk index (threw e, run) = try_confirm_pending outside index e run

  abbrev pub shrink_amount : Sol → PurchaseRecord → PurchaseRecord → PurchaseRecord
  shrink_amount amount purchase p = record p {
    planned_sol_amount =
        some (elim purchase.planned_sol_amount [
          | none ↦ purchase.sol_amount
          | some planned ↦ planned
        ]);
    sol_amount = amount;
  }

  abbrev pub keeper_exhausted : Text
  keeper_exhausted = codes "Keeper balance exhausted before this purchase"

  -- With what is left of the balance: nothing, the whole amount, or less. The amount that the
  -- later attempts take is returned with the progress.
  unfoldable pub buy_shrunk :
      PurchaseRecord → BuyError → Option Sol → Run → Result (Sol × (Progress × Run))
  unfolding mark_abandoned increment_batch_metric update_purchase mark_in_progress call_buy
      end_shrunk slippage_at
  buy_shrunk purchase e none run =
      write outside (mark_abandoned purchase.index keeper_exhausted) run >>= λ done.
      ok (purchase.sol_amount, (drained, count balance_abandoned_empty done))
  buy_shrunk purchase e (some amount) run =
      if ltb amount purchase.sol_amount
      then (write outside (update_purchase purchase.index (shrink_amount amount purchase))
            (count balance_shrunk_to_fit (count balance_shrunk_after_failure run))
          >>= λ shrunk.
              write outside (mark_in_progress purchase.index (slippage_at 1)) shrunk >>= λ started.
              call_buy outside purchase.index amount (slippage_at 1) started >>= λ ended.
              end_shrunk purchase.index ended >>= λ reached. ok (amount, reached))
      else ok (purchase.sol_amount, (failing e, run))

  abbrev pub read_balance : Run → Run
  read_balance run = record run { calls = run.calls + 1 }

  -- The recovery from an empty keeper.
  unfoldable pub recover_funds : PurchaseRecord → BuyError → Run → Result (Sol × (Progress × Run))
  unfolding is_insufficient_funds resolve_spendable_amount mark_abandoned increment_batch_metric
      update_purchase mark_in_progress call_buy buy_shrunk
  recover_funds purchase e run =
      if is_insufficient_funds e
      then buy_shrunk purchase e
          (resolve_spendable_amount (outside.balance run.calls) purchase.sol_amount (not has_ata))
          (read_balance run)
      else ok (purchase.sol_amount, (failing e, run))

  unfoldable pub climbed :
      (BuyError → Run → Result (Progress × Run)) → ℕ → BuyEnd × Run → Result (Progress × Run)
  unfolding mark_completed increment_batch_metric record_venue_routing is_slippage_error
  climbed rest index (bought signature venue fallback, run) =
      write outside (mark_completed index signature (some venue)) run >>= λ done. ok (
        settled,
        record_venue_routing venue fallback (count retry_slippage_instant_retry_success done),
      )
  climbed rest index (threw e, run) = elim (is_slippage_error e.message e.venue) [
    | true ↦ rest e run
    | false ↦ ok (failing e, run)
  ]

  -- The steps of the slippage ladder, until one is not turned down for its slippage.
  unfoldable pub climb : List ℕ → ℕ → Sol → BuyError → Run → Result (Progress × Run)
  unfolding increment_batch_metric mark_in_progress call_buy mark_completed record_venue_routing
      is_slippage_error climbed slippage_at
  climb [] index amount e run = ok (failing e, run)
  climb (attempt ∷ attempts) index amount e run =
      write outside (mark_in_progress index (slippage_at attempt))
        (count retry_slippage_instant_retry run)
      >>= λ started. call_buy outside index amount (slippage_at attempt) started >>= λ ended.
          climbed (climb attempts index amount) index ended

  unfoldable pub count_unclimbed : BuyError → Run → Result (Progress × Run)
  unfolding increment_batch_metric
  count_unclimbed e run = ok (failing e, count retry_slippage_instant_retry_fail run)

  -- A slippage error: the ladder, and then the question whether its last attempt arrived.
  unfoldable pub climb_ladder : ℕ → Sol → BuyError → Run → Result (Progress × Run)
  unfolding is_slippage_error climb try_confirm_pending increment_batch_metric count_unclimbed
  climb_ladder index amount e run =
      if is_slippage_error e.message e.venue
      then (climb (2 ∷ 3 ∷ []) index amount e run
          >>= unless_settled (λ last r.
            try_confirm_pending outside index last r >>= unless_settled count_unclimbed))
      else ok (failing e, run)

  -- The end of a purchase: whether the keeper is empty, and the record of its failure.
  unfoldable pub close_purchase : ℕ → Progress × Run → Result (Bool × Run)
  unfolding record_purchase_failure
  close_purchase index (settled, run) = ok (false, run)
  close_purchase index (drained, run) = ok (true, run)
  close_purchase index (failing e, run) =
      record_purchase_failure outside index e run >>= λ done. ok (false, done)

  unfoldable pub after_funds : ℕ → Sol × (Progress × Run) → Result (Progress × Run)
  unfolding climb_ladder
  after_funds index (amount, reached) = unless_settled (climb_ladder index amount) reached

  -- The `catch` of the first call.
  unfoldable pub handle_failure : PurchaseRecord → BuyError → Run → Result (Bool × Run)
  unfolding try_confirm_pending resign_expired recover_funds climb_ladder record_purchase_failure
      after_funds close_purchase
  handle_failure purchase e run =
      (try_confirm_pending outside purchase.index e run
        >>= unless_settled (resign_expired max_expiry_resigns purchase.index purchase.sol_amount)
        >>= unless_settled
            (λ failure r. recover_funds purchase failure r >>= after_funds purchase.index))
      >>= close_purchase purchase.index

  unfoldable pub end_first : PurchaseRecord → BuyEnd × Run → Result (Bool × Run)
  unfolding complete handle_failure
  end_first purchase (bought signature venue fallback, run) =
      complete outside purchase.index signature venue fallback run >>= λ done. ok (false, done)
  end_first purchase (threw e, run) = handle_failure purchase e run

  -- One purchase of the main window, from whether the keeper is known to be empty.
  unfoldable pub buy_scheduled : PurchaseRecord → Bool → Run → Result (Bool × Run)
  unfolding mark_abandoned increment_batch_metric mark_in_progress call_buy complete handle_failure
      end_first slippage_at
  buy_scheduled purchase true run =
      write outside (mark_abandoned purchase.index keeper_exhausted) run >>= λ done.
      ok (true, count balance_abandoned_empty done)
  buy_scheduled purchase false run =
      write outside (mark_in_progress purchase.index (slippage_at 1)) run >>= λ started.
      call_buy outside purchase.index purchase.sol_amount (slippage_at 1) started
      >>= end_first purchase

  -- The main window.
  unfoldable pub buy_all : List PurchaseRecord → Bool → Run → Result Run
  unfolding buy_scheduled
  buy_all [] emptied run = ok run
  buy_all (purchase ∷ purchases) emptied run =
      buy_scheduled purchase emptied run >>= λ reached. buy_all purchases reached.0 reached.1
