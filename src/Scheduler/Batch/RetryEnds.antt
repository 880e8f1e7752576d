-- ===== src/Scheduler/Batch/RetryEnds.antt =====
-- The retry window of a batch (offchain/scheduler/batch.ts) leaves a purchase completed or
-- abandoned, whatever becomes of its transactions.
use pumpling.Base.{
  Bool, Bool-cases, List, Option, Result, ap, arith, false, if_elim, inl, inr, ltb, none, ok, refl,
  some, subst, suc, sym, true, zero, ℕ, ◌+◌, ◌>>=◌, ◌≡◌, ◌≤◌,
}
use pumpling.Orchestrator.Types.{Signature, Sol, Time}
use pumpling.Scheduler.Batch.{
  BuyEnd, BuyError, Outside, PendingVerdict, Run, bought, clear, count, has_landed, in_flight,
  in_flight_polls, record_venue_routing, signature_verdict, threw, write,
}
use pumpling.Scheduler.Batch.Failures.{count_error, keep_pending}
use pumpling.Scheduler.Batch.Keeps.{
  At, At-mark_abandoned, At-mark_completed, At-mark_failed, At-mark_in_progress, At-weaken,
  At-write, Now, Returns, Returns-bind, Returns-ok, any_status, closed, closed-tried, tried,
}
use pumpling.Scheduler.Batch.Main.{shrink_amount, slippage_at}
use pumpling.Scheduler.Batch.Retry.{
  after_verdict, close_if_failed, end_retry, end_retry_failure, live, note_shrunk, retry_attempts,
  retry_fuel, retry_loop, retry_once, retry_one, turn_down,
}
use pumpling.Scheduler.Batch.Steps.{
  Now-any, Now-call_buy, Now-count_error, Now-store_pending, pending_verdict-state,
  signature_verdict-state,
}
use pumpling.Scheduler.Errors.{ErrorClass, non_retryable, retryable, unclassified}
use pumpling.Scheduler.Metrics.{increment_batch_metric}
use pumpling.Scheduler.Slippage.{can_retry, max_retries}
use pumpling.Scheduler.State.{get_purchase, mark_abandoned, mark_failed}
use pumpling.Scheduler.Types.{
  BatchConfig, BatchMetric, BatchState, PurchaseRecord, PurchaseStatus, balance_abandoned_empty,
  retry_max_attempts_abandon, retry_non_retryable_abandon, retry_pending_tx_confirmed,
  retry_window_expired_abandon,
}

fuel_left :
    (attempts fuel : ℕ)
    → can_retry attempts ≡ true
    → max_retries + 2 ≤ suc fuel + attempts
    → 1 ≤ fuel
unfolding can_retry
fuel_left attempts fuel more enough = ground arith

module _ (base : List PurchaseRecord) (outside : Outside) (config : BatchConfig)
    (has_ata : Bool) where
  -- The loop that goes on with a purchase that was tried.
  abbrev GoesOn : ℕ → (Run → Result Run) → Type 0
  GoesOn i rest = (run : Run) → Now i base tried run → Returns (Now i base tried) (rest run)

  write_closed :
      (i : ℕ) (key : BatchMetric) (m : Result Run)
      → Returns (Now i base closed) m
      → Returns (Now i base tried) (m >>= λ done. ok (count key done))
  unfolding increment_batch_metric
  write_closed i key m h = Returns-bind (Now i base closed) (Now i base tried) _ _ h (λ r k.
      Returns-ok (Now i base tried) _
        (At-weaken i base closed tried r.state.purchases closed-tried k))

  module _ (rest : Run → Result Run) (attempts : ℕ) (p : PurchaseRecord)
      (on : GoesOn p.index rest) where
    Tried-not_given_up :
        (c : ErrorClass) (e : BuyError) (run : Run)
        → Now p.index base any_status run
        → Returns (Now p.index base tried) (elim (ltb max_retries attempts) [
          | true ↦ write outside (mark_abandoned p.index e.message) run >>= λ done.
              rest (count retry_max_attempts_abandon done)
          | false ↦ write outside (mark_failed p.index e.message) run >>= rest
        ])
    unfolding increment_batch_metric
    Tried-not_given_up c e run h = elim (Bool-cases (ltb max_retries attempts)) [
      | inl last ↦ rw last (
          Returns-bind (Now p.index base closed) (Now p.index base tried) _ _
            (At-mark_abandoned p.index base outside any_status run h e.message)
            (λ r k.
              on (count retry_max_attempts_abandon r)
                (At-weaken p.index base closed tried r.state.purchases closed-tried k)))
      | inr more ↦ rw more (
          Returns-bind (Now p.index base tried) (Now p.index base tried) _ _
            (At-mark_failed p.index base outside any_status run h e.message) on)
    ]

    Tried-turn_down :
        (c : ErrorClass) (e : BuyError) (run : Run)
        → Now p.index base any_status run
        → Returns
            (Now p.index base tried)
            (turn_down outside config has_ata c rest attempts p.index e run)
    unfolding turn_down
    Tried-turn_down non_retryable e run h =
        write_closed p.index retry_non_retryable_abandon _
          (At-mark_abandoned p.index base outside any_status run h e.message)
    Tried-turn_down retryable e run h = Tried-not_given_up retryable e run h
    Tried-turn_down unclassified e run h = Tried-not_given_up unclassified e run h

    Tried-end_retry_failure :
        (e : BuyError) (x : PendingVerdict × Run)
        → Now p.index base any_status x.1
        → Returns
            (Now p.index base tried)
            (end_retry_failure outside config has_ata rest attempts p e x)
    unfolding end_retry_failure increment_batch_metric
    Tried-end_retry_failure e (in_flight s, run) h =
        Returns-bind (Now p.index base any_status) (Now p.index base tried) _ _
          (At-write p.index base outside any_status any_status (keep_pending outside s) run
            (λ q. refl) (λ q k. refl) h)
          (λ r k.
            Returns-bind (Now p.index base tried) (Now p.index base tried) _ _
              (At-mark_failed p.index base outside any_status r k e.message)
              (λ r' k'. Returns-ok (Now p.index base tried) _ k'))
    Tried-end_retry_failure e (has_landed s, run) h =
        write_closed p.index retry_pending_tx_confirmed _
          (At-mark_completed p.index base outside any_status run h s _)
    Tried-end_retry_failure e (clear, run) h =
        Returns-bind (Now p.index base any_status) (Now p.index base tried) _ _
          (Now-store_pending p.index base outside e any_status (count_error outside e run)
            (Now-count_error p.index base outside e any_status run h))
          (λ r k. Tried-turn_down _ e r k)

    Tried-end_retry :
        (x : BuyEnd × Run)
        → Now p.index base any_status x.1
        → Returns (Now p.index base tried) (end_retry outside config has_ata rest attempts p x)
    unfolding end_retry increment_batch_metric record_venue_routing
    Tried-end_retry (bought s v f, run) h =
        Returns-bind (Now p.index base closed) (Now p.index base tried) _ _
          (At-mark_completed p.index base outside any_status run h s (some v))
          (λ r k.
            Returns-ok (Now p.index base tried) _
              (At-weaken p.index base closed tried r.state.purchases closed-tried k))
    Tried-end_retry (threw e, run) h = Tried-end_retry_failure e _ (
        subst (λ (s : BatchState). At p.index base any_status s.purchases)
          (sym (pending_verdict-state p.index base outside in_flight_polls e run)) h)

    Now-note_shrunk :
        (amount : Sol) (run : Run)
        → Now p.index base any_status run
        → Returns (Now p.index base any_status) (note_shrunk outside config has_ata p amount run)
    unfolding note_shrunk increment_batch_metric
    Now-note_shrunk amount run h =
        if_elim (Returns (Now p.index base any_status)) (ltb amount p.sol_amount) _ _
          (λ _.
            Returns-bind (Now p.index base any_status) (Now p.index base any_status) _ _
              (At-write p.index base outside any_status any_status
                (shrink_amount outside config has_ata amount p) run (λ q. refl) (λ q k. refl) h)
              (λ r k. Returns-ok (Now p.index base any_status) _ k))
          (λ _. Returns-ok (Now p.index base any_status) run h)

    Tried-retry_once :
        (o : Option Sol) (run : Run)
        → Now p.index base any_status run
        → Returns (Now p.index base tried) (retry_once outside config has_ata rest attempts p o run)
    unfolding retry_once
    Tried-retry_once none run h =
        write_closed p.index balance_abandoned_empty _
          (At-mark_abandoned p.index base outside any_status run h _)
    Tried-retry_once (some amount) run h =
        Returns-bind (Now p.index base any_status) (Now p.index base tried) _ _
          (Now-note_shrunk amount run h)
          (λ r k.
            Returns-bind (Now p.index base any_status) (Now p.index base tried) _ _
              (At-mark_in_progress p.index base outside any_status r k
                (slippage_at outside config has_ata attempts))
              (λ r' k'.
                Returns-bind (λ (x : BuyEnd × Run). Now p.index base any_status x.1)
                  (Now p.index base tried) _ _
                  (Now-call_buy p.index base outside amount
                    (slippage_at outside config has_ata attempts) any_status r' k')
                  Tried-end_retry))

  Tried-retry_loop :
      (fuel attempts : ℕ) (deadline : Time) (p : PurchaseRecord)
      → max_retries + 2 ≤ fuel + attempts
      → 1 ≤ fuel
      → GoesOn p.index (retry_loop outside config has_ata fuel attempts deadline p)
  unfolding retry_loop
  Tried-retry_loop zero attempts deadline p enough some_left run h = absurd (omega arith)
  Tried-retry_loop (suc fuel) attempts deadline p enough some_left run h =
      elim (Bool-cases (can_retry attempts)) [
        | inr over ↦ rw (over, retry_loop) (Returns-ok (Now p.index base tried) run h)
        | inl more ↦
            rw (more, retry_loop)
              (elim (Bool-cases (ltb deadline (outside.clock run.calls))) [
                | inl late ↦ rw late (
                    write_closed p.index retry_window_expired_abandon _ (
                      At-mark_abandoned p.index base outside tried
                        (record run { calls = run.calls + 1 }) h _))
                | inr early ↦ rw early (
                    Tried-retry_once _ (attempts + 1) (live outside config has_ata p run)
                      (Tried-retry_loop fuel (attempts + 1) deadline p (omega (arith, enough))
                        (fuel_left attempts fuel more enough))
                      _ _ (Now-any p.index base outside tried run h))
              ])
      ]

  pub Closed-status :
      (i : ℕ) (run : Run) (h : Now i base tried run) (s : PurchaseStatus)
      → h.here.found.status ≡ s
      → tried s ≡ true
      → Returns
          (Now i base closed)
          (close_if_failed outside config has_ata i (some h.here.found) run)
  unfolding close_if_failed
  Closed-status i run h PurchaseStatus.failed e t =
      rw e (At-mark_abandoned i base outside tried run h _)
  Closed-status i run h PurchaseStatus.completed e t = rw e (
      Returns-ok (Now i base closed) run (record {
        here = record { found = h.here.found; is = h.here.is; fit = ap closed e };
        other = h.other;
        listed = h.listed;
      }))
  Closed-status i run h PurchaseStatus.abandoned e t = rw e (
      Returns-ok (Now i base closed) run (record {
        here = record { found = h.here.found; is = h.here.is; fit = ap closed e };
        other = h.other;
        listed = h.listed;
      }))
  Closed-status i run h PurchaseStatus.pending e t = cc
  Closed-status i run h PurchaseStatus.in_progress e t = cc

  Closed-close_if_failed :
      (i : ℕ) (run : Run)
      → Now i base tried run
      → Returns
          (Now i base closed)
          (close_if_failed outside config has_ata i (get_purchase i run.state) run)
  unfolding get_purchase
  Closed-close_if_failed i run h =
      subst
        (λ (o : Option PurchaseRecord).
          Returns (Now i base closed) (close_if_failed outside config has_ata i o run))
        (sym h.here.is) (Closed-status i run h h.here.found.status refl h.here.fit)

  Closed-retry_attempts :
      (deadline : Time) (p : PurchaseRecord) (run : Run)
      → Now p.index base tried run
      → Returns (Now p.index base closed) (retry_attempts outside config has_ata deadline p run)
  unfolding retry_attempts
  Closed-retry_attempts deadline p run h =
      Returns-bind (Now p.index base tried) (Now p.index base closed) _ _
        (Tried-retry_loop (retry_fuel outside config has_ata) 0 deadline p (omega arith)
          (omega arith) run h)
        (λ r k. Closed-close_if_failed p.index r k)

  Closed-after_verdict :
      (deadline : Time) (p : PurchaseRecord) (x : PendingVerdict × Run)
      → Now p.index base tried x.1
      → Returns (Now p.index base closed) (after_verdict outside config has_ata deadline p x)
  unfolding after_verdict increment_batch_metric
  Closed-after_verdict deadline p (has_landed s, run) h =
      Returns-bind (Now p.index base closed) (Now p.index base closed) _ _
        (At-mark_completed p.index base outside tried run h s _)
        (λ r k. Returns-ok (Now p.index base closed) _ k)
  Closed-after_verdict deadline p (in_flight s, run) h =
      Returns-bind (Now p.index base closed) (Now p.index base closed) _ _
        (At-mark_abandoned p.index base outside tried run h _)
        (λ r k. Returns-ok (Now p.index base closed) _ k)
  Closed-after_verdict deadline p (clear, run) h = Closed-retry_attempts deadline p run h

  Closed-pending :
      (o : Option Signature) (deadline : Time) (p : PurchaseRecord) (run : Run)
      → Now p.index base tried run
      → Returns (Now p.index base closed) (elim o [
        | none ↦ retry_attempts outside config has_ata deadline p run
        | some signature ↦ after_verdict outside config has_ata deadline p (
            signature_verdict outside in_flight_polls signature p.pending_last_valid_block_height
              run)
      ])
  Closed-pending none deadline p run h = Closed-retry_attempts deadline p run h
  Closed-pending (some signature) deadline p run h = Closed-after_verdict deadline p _ (
      subst (λ (s : BatchState). At p.index base tried s.purchases)
        (sym (
          signature_verdict-state p.index base outside in_flight_polls signature
            p.pending_last_valid_block_height run))
        h)

  pub Closed-retry_one :
      (deadline : Time) (p : PurchaseRecord) (run : Run)
      → Now p.index base tried run
      → Returns (Now p.index base closed) (retry_one outside config has_ata deadline p run)
  unfolding retry_one
  Closed-retry_one deadline p run h = Closed-pending p.pending_signature deadline p run h
