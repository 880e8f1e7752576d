-- ===== src/Scheduler/Batch/Steps.antt =====
-- The steps of a purchase (offchain/scheduler/batch.ts) that both windows take: each returns, and
-- leaves every other purchase as it was.
use pumpling.Base.{
  Bool, List, Option, Option-cases, [], false, inl, inr, ok, refl, some, subst, suc, sym, zero, ℕ,
  ◌>>=◌, ◌∷◌, ◌≡◌,
}
use pumpling.Orchestrator.Types.{Signature, Sol}
use pumpling.Scheduler.Batch.{
  BuyEnd, BuyError, Outside, PendingVerdict, Progress, Run, ask, asked, by_verdict, call_buy,
  called_buy, clear, complete, confirm_landed, confirm_pending, count, drained, failing, has_landed,
  in_flight, pending_verdict, record_all, record_venue_routing, settled, signature_verdict,
  try_confirm_pending, with_event, write,
}
use pumpling.Scheduler.Batch.Failures.{
  count_blocked, count_error, give_status, keep_pending, record_purchase_failure, store_pending,
}
use pumpling.Scheduler.Batch.Keeps.{
  At, At-mark_abandoned, At-mark_completed, At-mark_failed, At-record_sent_attempt, At-weaken,
  At-write, Now, Returns, Returns-bind, Returns-ok, any_status, closed, closed-tried, tried,
}
use pumpling.Scheduler.Errors.{ErrorClass, classify_error, non_retryable, retryable, unclassified}
use pumpling.Scheduler.Metrics.{increment_batch_metric, increment_error_pattern}
use pumpling.Scheduler.State.{mark_failed}
use pumpling.Scheduler.Types.{
  BatchMetric, BatchState, BuyVenue, PurchaseRecord, PurchaseStatus, retry_retryable_deferred,
  retry_unknown_deferred,
}

module _ (i : ℕ) (base : List PurchaseRecord) (outside : Outside) where
  -- A settled purchase is closed; one whose last call failed is still there.
  abbrev pub Good : Progress × Run → Type 0
  Good (settled, run) = Now i base closed run
  Good (drained, run) = Now i base closed run
  Good (failing e, run) = Now i base any_status run

  pub Now-any :
      (P : PurchaseStatus → Bool) (run : Run) → Now i base P run → Now i base any_status run
  Now-any P run = At-weaken i base P any_status run.state.purchases (λ t h. refl)

  by_verdict-state :
      (v : PendingVerdict) (run : Run) (later : PendingVerdict × Run)
      → later.1.state ≡ run.state
      → (by_verdict outside v run later).1.state ≡ run.state
  by_verdict-state (has_landed s) run later e = refl
  by_verdict-state clear run later e = refl
  by_verdict-state (in_flight s) run later e = e

  pub signature_verdict-state :
      (polls : ℕ) (signature : Signature) (limit : Option ℕ) (run : Run)
      → (signature_verdict outside polls signature limit run).1.state ≡ run.state
  unfolding signature_verdict
  signature_verdict-state zero signature limit run =
      let after_one = with_event (asked signature (ask outside signature limit run)) run in
      by_verdict-state _ after_one (in_flight signature, after_one) refl
  signature_verdict-state (suc polls) signature limit run =
      let after_one = with_event (asked signature (ask outside signature limit run)) run in
      by_verdict-state _ after_one _ (signature_verdict-state polls signature limit after_one)

  pub pending_verdict-state :
      (polls : ℕ) (e : BuyError) (run : Run)
      → (pending_verdict outside polls e run).1.state ≡ run.state
  unfolding pending_verdict
  pending_verdict-state polls e run = elim (Option-cases e.sent) [
    | inl missing ↦ rw missing refl
    | inr (pair, found) ↦ rw found (signature_verdict-state polls pair.0 pair.1 run)
  ]

  pub Now-record_all :
      (signed : List (Signature × ℕ)) (P : PurchaseStatus → Bool) (run : Run)
      → Now i base P run
      → Returns (Now i base P) (record_all outside i signed run)
  unfolding record_all
  Now-record_all [] P run h = Returns-ok (Now i base P) run h
  Now-record_all (s ∷ signed) P run h =
      Returns-bind (Now i base P) (Now i base P) _ _
        (At-record_sent_attempt i base outside P run h s.0 s.1) (λ r k. Now-record_all signed P r k)

  pub Now-call_buy :
      (amount : Sol) (slippage : ℕ) (P : PurchaseStatus → Bool) (run : Run)
      → Now i base P run
      → Returns (λ x. Now i base P x.1) (call_buy outside i amount slippage run)
  unfolding call_buy
  Now-call_buy amount slippage P run h =
      let buying = outside.buy run.calls amount slippage in
      Returns-bind (Now i base P) (λ (x : BuyEnd × Run). Now i base P x.1)
        (record_all outside i buying.signed (with_event (called_buy i buying.ends) run))
        (λ written. ok (buying.ends, written))
        (Now-record_all buying.signed P (with_event (called_buy i buying.ends) run) h)
        (λ r k. Returns-ok (λ (x : BuyEnd × Run). Now i base P x.1) (buying.ends, r) k)

  pub Now-complete :
      (signature : Signature) (venue : BuyVenue) (fallback : Bool) (P : PurchaseStatus → Bool)
      (run : Run)
      → Now i base P run
      → Returns (Now i base closed) (complete outside i signature venue fallback run)
  unfolding complete record_venue_routing increment_batch_metric
  Now-complete signature venue fallback P run h =
      Returns-bind (Now i base closed) _ _ _
        (At-mark_completed i base outside P run h signature (some venue)) (λ r k. Returns-ok _ _ k)

  pub Now-confirm_pending :
      (signature : Signature) (e : BuyError) (P : PurchaseStatus → Bool) (run : Run)
      → Now i base P run
      → Returns (Now i base closed) (confirm_pending outside i signature e run)
  unfolding confirm_pending increment_batch_metric
  Now-confirm_pending signature e P run h =
      Returns-bind (Now i base closed) _ _ _ (Now-complete signature _ false P run h)
        (λ r k. Returns-ok _ _ k)

  Good-confirm_landed :
      (e : BuyError) (x : PendingVerdict × Run)
      → Now i base any_status x.1
      → Returns Good (confirm_landed outside i e x)
  unfolding confirm_landed
  Good-confirm_landed e (has_landed s, run) h =
      Returns-bind (Now i base closed) Good _ _ (Now-confirm_pending s e any_status run h)
        (λ r k. Returns-ok _ _ k)
  Good-confirm_landed e (clear, run) h = Returns-ok Good _ h
  Good-confirm_landed e (in_flight s, run) h = Returns-ok Good _ h

  pub Good-try_confirm_pending :
      (e : BuyError) (run : Run)
      → Now i base any_status run
      → Returns Good (try_confirm_pending outside i e run)
  unfolding try_confirm_pending
  Good-try_confirm_pending e run h = Good-confirm_landed e _ (
      subst (λ (s : BatchState). At i base any_status s.purchases)
        (sym (pending_verdict-state 0 e run)) h)

  pub Now-store_pending :
      (e : BuyError) (P : PurchaseStatus → Bool) (run : Run)
      → Now i base P run
      → Returns (Now i base P) (store_pending outside i e run)
  Now-store_pending e P run h = elim (Option-cases e.sent) [
    | inl missing ↦ rw missing (Returns-ok (Now i base P) run h)
    | inr (pair, found) ↦
        rw found
          (At-write i base outside P P (keep_pending outside pair.0) run (λ q. refl) (λ q k. k) h)
  ]

  count_error-purchases :
      (e : BuyError) (run : Run) → (count_error outside e run).state.purchases ≡ run.state.purchases
  unfolding count_error increment_batch_metric increment_error_pattern
  count_error-purchases e run = elim (Option-cases (classify_error e.message e.venue).1) [
    | inl missing ↦ rw missing refl
    | inr (pattern, found) ↦ rw found refl
  ]

  pub Now-count_error :
      (e : BuyError) (P : PurchaseStatus → Bool) (run : Run)
      → Now i base P run
      → Now i base P (count_error outside e run)
  Now-count_error e P run h = subst (At i base P) (sym (count_error-purchases e run)) h

  Now-count_blocked :
      (e : BuyError) (P : PurchaseStatus → Bool) (key : BatchMetric) (run : Run)
      → Now i base P run
      → Now i base P (count key (count_blocked outside e run))
  unfolding increment_batch_metric
  Now-count_blocked e P key run h = elim (Option-cases e.sent) [
    | inl missing ↦ rw missing h
    | inr (pair, found) ↦ rw found h
  ]

  Now-failed :
      (e : BuyError) (P : PurchaseStatus → Bool) (key : BatchMetric) (run : Run)
      → Now i base P run
      → Returns (Now i base tried) (
          write outside (mark_failed i e.message) run >>= λ done.
          store_pending outside i e done >>= λ kept. ok (count key (count_blocked outside e kept)))
  Now-failed e P key run h =
      Returns-bind (Now i base tried) (Now i base tried) _ _
        (At-mark_failed i base outside P run h e.message)
        (λ r k.
          Returns-bind (Now i base tried) (Now i base tried) _ _ (Now-store_pending e tried r k)
            (λ r' k'. Returns-ok (Now i base tried) _ (Now-count_blocked e tried key r' k')))

  Now-give_status :
      (c : ErrorClass) (e : BuyError) (P : PurchaseStatus → Bool) (run : Run)
      → Now i base P run
      → Returns (Now i base tried) (give_status outside c i e run)
  unfolding give_status increment_batch_metric
  Now-give_status non_retryable e P run h =
      Returns-bind (Now i base closed) (Now i base tried) _ _
        (At-mark_abandoned i base outside P run h e.message)
        (λ r k.
          Returns-ok (Now i base tried) _
            (At-weaken i base closed tried r.state.purchases closed-tried k))
  Now-give_status retryable e P run h = Now-failed e P retry_retryable_deferred run h
  Now-give_status unclassified e P run h = Now-failed e P retry_unknown_deferred run h

  pub Now-record_purchase_failure :
      (e : BuyError) (run : Run)
      → Now i base any_status run
      → Returns (Now i base tried) (record_purchase_failure outside i e run)
  unfolding record_purchase_failure
  Now-record_purchase_failure e run h =
      Now-give_status _ e any_status _ (Now-count_error e any_status run h)
