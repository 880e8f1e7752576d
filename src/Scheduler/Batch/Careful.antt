-- ===== src/Scheduler/Batch/Careful.antt =====
-- The retry window of a batch (offchain/scheduler/batch.ts) signs no transaction beside one that
-- may still land: the loop of one purchase, from its record.
use pumpling.Base.{
  Bool, Bool-cases, Option, Result, false, if_elim, inl, inr, ltb, none, not, ok, refl, some, subst,
  suc, sym, true, zero, ℕ, ◌+◌, ◌>>=◌, ◌≡◌,
}
use pumpling.Base.Text.{Text}
use pumpling.Orchestrator.Types.{Signature, Sol, Time}
use pumpling.Scheduler.Batch.{
  BuyEnd, BuyError, Outside, PendingVerdict, Run, bought, clear, count, has_landed, in_flight,
  in_flight_polls, pending_verdict, record_venue_routing, resolve_spendable_amount,
  signature_verdict, threw, write,
}
use pumpling.Scheduler.Batch.Failures.{count_error, keep_pending}
use pumpling.Scheduler.Batch.Main.{slippage_at}
use pumpling.Scheduler.Batch.NoDouble.{
  After, After-bind, After-call_buy, After-ok, After-store_pending, After-write, IsCareful,
  NoneMayLand, WellJudged, WellJudged-signature_verdict, count_error-log, nothing_may, sent_by,
  sent_with, this_may, unresolved,
}
use pumpling.Scheduler.Batch.Retry.{
  after_verdict, close_if_failed, end_retry, end_retry_failure, live, note_shrunk, or_max_retries,
  retry_attempts, retry_fuel, retry_loop, retry_once, tick, turn_down,
}
use pumpling.Scheduler.Errors.{ErrorClass, non_retryable, retryable, unclassified}
use pumpling.Scheduler.Slippage.{can_retry, max_retries}
use pumpling.Scheduler.State.{mark_abandoned, mark_completed, mark_failed, update_purchase}
use pumpling.Scheduler.Types.{
  BatchConfig, BatchMetric, BatchState, PurchaseRecord, PurchaseStatus, balance_abandoned_empty,
  balance_shrunk_to_fit, retry_in_flight_stopped, retry_max_attempts_abandon,
  retry_non_retryable_abandon, retry_pending_tx_confirmed, retry_retry_success,
  retry_window_expired_abandon,
}

module _ (outside : Outside) (config : BatchConfig) (has_ata : Bool)
    (start : Option Signature) where
  -- The calls in the log of a run were made when no transaction could land.
  abbrev Careful : Run → Type 0
  Careful run = IsCareful start run.log

  -- The rest of the loop, where no transaction can land.
  abbrev GoesOn : (Run → Result Run) → Type 0
  GoesOn rest = (run : Run) → NoneMayLand start run.log → After Careful (rest run)

  Careful-write :
      (change : Result BatchState) (run : Run)
      → Careful run
      → After Careful (change >>= λ state. ok (record run { state = state; calls = run.calls + 1 }))
  Careful-write change run h = After-write outside (IsCareful start) change run h

  NoneMayLand-write :
      (change : Result BatchState) (run : Run)
      → NoneMayLand start run.log
      → After
          (λ (r : Run). NoneMayLand start r.log)
          (change >>= λ state. ok (record run { state = state; calls = run.calls + 1 }))
  NoneMayLand-write change run h = After-write outside (NoneMayLand start) change run h

  Careful-counted :
      (key : BatchMetric) (m : Result Run)
      → After Careful m
      → After Careful (m >>= λ done. ok (count key done))
  Careful-counted key m h =
      After-bind Careful Careful _ _ h (λ r k. After-ok Careful (count key r) k)

  module _ (rest : Run → Result Run) (attempts : ℕ) (p : PurchaseRecord) (on : GoesOn rest) where
    Careful-not_given_up :
        (index : ℕ) (e : BuyError) (run : Run)
        → NoneMayLand start run.log
        → After Careful (elim (ltb max_retries attempts) [
          | true ↦ write outside (mark_abandoned index e.message) run >>= λ done.
              rest (count retry_max_attempts_abandon done)
          | false ↦ write outside (mark_failed index e.message) run >>= rest
        ])
    Careful-not_given_up index e run h = elim (Bool-cases (ltb max_retries attempts)) [
      | inl last ↦ rw last (
          After-bind (λ (r : Run). NoneMayLand start r.log) Careful _ _ (NoneMayLand-write _ run h)
            (λ r k. on (count retry_max_attempts_abandon r) k))
      | inr more ↦ rw more (
          After-bind (λ (r : Run). NoneMayLand start r.log) Careful _ _ (NoneMayLand-write _ run h)
            on)
    ]

    Careful-turn_down :
        (c : ErrorClass) (index : ℕ) (e : BuyError) (run : Run)
        → NoneMayLand start run.log
        → After Careful (turn_down outside config has_ata c rest attempts index e run)
    unfolding turn_down
    Careful-turn_down non_retryable index e run h =
        Careful-counted retry_non_retryable_abandon _ (Careful-write _ run (h.0))
    Careful-turn_down retryable index e run h = Careful-not_given_up index e run h
    Careful-turn_down unclassified index e run h = Careful-not_given_up index e run h

    Careful-end_retry_failure :
        (e : BuyError) (x : PendingVerdict × Run)
        → WellJudged start x
        → After Careful (end_retry_failure outside config has_ata rest attempts p e x)
    unfolding end_retry_failure
    Careful-end_retry_failure e (in_flight s, run) h =
        After-bind Careful Careful
          (write outside (update_purchase p.index (keep_pending outside s)) run)
          (λ kept. write outside (mark_failed p.index e.message) kept >>= λ done.
            ok (count retry_in_flight_stopped done))
          (Careful-write _ run (h.0))
          (λ r k. Careful-counted retry_in_flight_stopped _ (Careful-write _ r k))
    Careful-end_retry_failure e (has_landed s, run) h =
        Careful-counted retry_pending_tx_confirmed _ (Careful-write _ run (h.0))
    Careful-end_retry_failure e (clear, run) h =
        After-bind (λ (r : Run). NoneMayLand start r.log) Careful _ _
          (After-store_pending outside (NoneMayLand start) p.index e (count_error outside e run)
            (subst (NoneMayLand start) (sym (count_error-log outside e run)) (h.0, h.1 refl)))
          (λ r k. Careful-turn_down _ p.index e r k)

    WellJudged-sent :
        (sent : Option (Signature × Option ℕ)) (run : Run)
        → Careful run
        → unresolved start run.log ≡ sent_with sent
        → WellJudged start (elim sent as (λ _. PendingVerdict × Run) [
          | none ↦ (clear, run)
          | some pair ↦ signature_verdict outside in_flight_polls pair.0 pair.1 run
        ])
    WellJudged-sent none run c h = (c, λ e. h)
    WellJudged-sent (some (s, none)) run c h =
        WellJudged-signature_verdict outside start in_flight_polls s none run c (nothing_may h)
    WellJudged-sent (some (s, some l)) run c h =
        WellJudged-signature_verdict outside start in_flight_polls s (some l) run c
          (this_may l refl h)

    Careful-end_retry :
        (x : BuyEnd × Run)
        → Careful x.1
        → unresolved start x.1.log ≡ sent_by x.0
        → After Careful (end_retry outside config has_ata rest attempts p x)
    unfolding end_retry pending_verdict record_venue_routing
    Careful-end_retry (bought s v f, run) c h =
        After-bind Careful Careful (write outside (mark_completed p.index s (some v)) run)
          (λ done. ok (record_venue_routing v f (count retry_retry_success done)))
          (Careful-write _ run c)
          (λ r k. After-ok Careful (record_venue_routing v f (count retry_retry_success r)) k)
    Careful-end_retry (threw e, run) c h =
        Careful-end_retry_failure e _ (WellJudged-sent e.sent run c h)

    NoneMayLand-note_shrunk :
        (amount : Sol) (run : Run)
        → NoneMayLand start run.log
        → After
            (λ (r : Run). NoneMayLand start r.log)
            (note_shrunk outside config has_ata p amount run)
    unfolding note_shrunk
    NoneMayLand-note_shrunk amount run h =
        if_elim (After (λ (r : Run). NoneMayLand start r.log)) (ltb amount p.sol_amount) _ _
          (λ _.
            After-bind (λ (r : Run). NoneMayLand start r.log) _ _ _ (NoneMayLand-write _ run h)
              (λ r k.
                After-ok (λ (q : Run). NoneMayLand start q.log) (count balance_shrunk_to_fit r) k))
          (λ _. After-ok (λ (q : Run). NoneMayLand start q.log) run h)

    Careful-retry_once :
        (o : Option Sol) (run : Run)
        → NoneMayLand start run.log
        → After Careful (retry_once outside config has_ata rest attempts p o run)
    unfolding retry_once
    Careful-retry_once none run h =
        Careful-counted balance_abandoned_empty _ (Careful-write _ run (h.0))
    Careful-retry_once (some amount) run h =
        After-bind (λ (r : Run). NoneMayLand start r.log) Careful _ _
          (NoneMayLand-note_shrunk amount run h)
          (λ r k.
            After-bind (λ (q : Run). NoneMayLand start q.log) Careful _ _ (NoneMayLand-write _ r k)
              (λ r' k'.
                After-bind
                  (λ (x : BuyEnd × Run).
                    IsCareful start x.1.log × (unresolved start x.1.log ≡ sent_by x.0))
                  Careful _ _
                  (After-call_buy outside start p.index amount
                    (slippage_at outside config has_ata attempts) r' k')
                  (λ x l. Careful-end_retry x (l.0) (l.1))))

  Careful-retry_loop :
      (fuel attempts : ℕ) (deadline : Time) (p : PurchaseRecord)
      → GoesOn (retry_loop outside config has_ata fuel attempts deadline p)
  unfolding retry_loop
  Careful-retry_loop zero attempts deadline p run h = record { fits = λ a e. cc }
  Careful-retry_loop (suc fuel) attempts deadline p run h = elim (Bool-cases (can_retry attempts)) [
    | inr over ↦ rw (over, retry_loop) (After-ok Careful run (h.0))
    | inl more ↦
        rw (more, retry_loop)
          (elim (Bool-cases (ltb deadline (outside.clock run.calls))) [
            | inl late ↦ rw late (
                Careful-counted retry_window_expired_abandon _
                  (Careful-write _ (record run { calls = run.calls + 1 }) (h.0)))
            | inr early ↦ rw early (
                Careful-retry_once _ (attempts + 1) (live outside config has_ata p run)
                  (Careful-retry_loop fuel (attempts + 1) deadline p)
                  (resolve_spendable_amount (outside.balance (run.calls + 1))
                    (live outside config has_ata p run).sol_amount (not has_ata))
                  (tick outside config has_ata (tick outside config has_ata run)) h)
          ])
  ]

  Careful-close_if_failed :
      (index : ℕ) (o : Option PurchaseRecord) (run : Run)
      → Careful run
      → After Careful (close_if_failed outside config has_ata index o run)
  unfolding close_if_failed
  Careful-close_if_failed index none run h = After-ok Careful run h
  Careful-close_if_failed index (some p) run h = status_case p.status p.error_message
    where
      status_case :
          (s : PurchaseStatus) (message : Option Text)
          → After Careful (elim s [
            | PurchaseStatus.failed ↦
                write outside
                  (mark_abandoned index (or_max_retries outside config has_ata message))
                  run
            | _ ↦ ok run
          ])
      status_case PurchaseStatus.failed message = Careful-write _ run h
      status_case PurchaseStatus.completed message = After-ok Careful run h
      status_case PurchaseStatus.abandoned message = After-ok Careful run h
      status_case PurchaseStatus.pending message = After-ok Careful run h
      status_case PurchaseStatus.in_progress message = After-ok Careful run h

  pub Careful-retry_attempts :
      (deadline : Time) (p : PurchaseRecord)
      → GoesOn (retry_attempts outside config has_ata deadline p)
  unfolding retry_attempts
  Careful-retry_attempts deadline p run h =
      After-bind Careful Careful _ _
        (Careful-retry_loop (retry_fuel outside config has_ata) 0 deadline p run h)
        (λ r k. Careful-close_if_failed p.index _ r k)

  pub Careful-after_verdict :
      (deadline : Time) (p : PurchaseRecord) (x : PendingVerdict × Run)
      → WellJudged start x
      → After Careful (after_verdict outside config has_ata deadline p x)
  unfolding after_verdict
  Careful-after_verdict deadline p (has_landed s, run) h =
      Careful-counted retry_pending_tx_confirmed _ (Careful-write _ run (h.0))
  Careful-after_verdict deadline p (in_flight s, run) h =
      Careful-counted retry_in_flight_stopped _ (Careful-write _ run (h.0))
  Careful-after_verdict deadline p (clear, run) h =
      Careful-retry_attempts deadline p run (h.0, h.1 refl)
