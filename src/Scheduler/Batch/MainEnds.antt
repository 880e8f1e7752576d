-- ===== src/Scheduler/Batch/MainEnds.antt =====
-- The main window of a batch (offchain/scheduler/batch.ts) leaves a purchase completed, abandoned
-- or failed, whatever becomes of its transactions.
use pumpling.Base.{
  Bool, Bool-cases, List, Option, Result, [], false, if_elim, inl, inr, ltb, none, ok, refl, some,
  subst, suc, sym, true, zero, ℕ, ◌∷◌,
}
use pumpling.Orchestrator.Types.{Signature, Sol}
use pumpling.Scheduler.Batch.{
  BuyEnd, BuyError, Outside, PendingVerdict, Progress, Run, bought, clear, count, drained, failing,
  has_landed, in_flight, in_flight_polls, is_blockhash_expiry, is_insufficient_funds,
  max_expiry_resigns, record_venue_routing, settled, signature_verdict, threw,
}
use pumpling.Scheduler.Batch.Keeps.{
  At, At-mark_abandoned, At-mark_completed, At-mark_in_progress, At-weaken, At-write, Now, Returns,
  Returns-bind, Returns-ok, any_status, closed, closed-tried, tried,
}
use pumpling.Scheduler.Batch.Main.{
  after_funds, buy_scheduled, buy_shrunk, climb, climb_ladder, climbed, close_purchase,
  count_unclimbed, end_first, end_shrunk, handle_failure, keeper_exhausted, read_balance,
  recover_funds, resign_expired, resigned, shrink_amount, sign_again, slippage_at, unless_settled,
}
use pumpling.Scheduler.Batch.Steps.{
  Good, Good-try_confirm_pending, Now-call_buy, Now-complete, Now-confirm_pending,
  Now-record_purchase_failure, signature_verdict-state,
}
use pumpling.Scheduler.Errors.{is_slippage_error}
use pumpling.Scheduler.Metrics.{increment_batch_metric}
use pumpling.Scheduler.Types.{
  BatchConfig, BatchState, PurchaseRecord, balance_shrunk_after_failure, balance_shrunk_to_fit,
  retry_expired_resigned, retry_slippage_instant_retry,
}

module _ (p : PurchaseRecord) (base : List PurchaseRecord) (outside : Outside) where
  abbrev Fine : Progress × Run → Type 0
  Fine = Good p.index base outside

  -- What goes on with an error goes on well.
  abbrev GoesWell : (BuyError → Run → Result (Progress × Run)) → Type 0
  GoesWell rest =
      (e : BuyError) (run : Run) → Now p.index base any_status run → Returns Fine (rest e run)

  module _ (config : BatchConfig) (has_ata : Bool) where
    Good-unless_settled :
        (rest : BuyError → Run → Result (Progress × Run)) (x : Progress × Run)
        → GoesWell rest
        → Fine x
        → Returns Fine (unless_settled outside config has_ata rest x)
    Good-unless_settled rest (settled, run) on h = Returns-ok Fine (settled, run) h
    Good-unless_settled rest (drained, run) on h = Returns-ok Fine (drained, run) h
    Good-unless_settled rest (failing e, run) on h = on e run h

    Good-resigned :
        (failed : BuyError → Run → Result (Progress × Run)) (x : BuyEnd × Run)
        → GoesWell failed
        → Now p.index base any_status x.1
        → Returns Fine (resigned outside config has_ata failed p.index x)
    unfolding resigned increment_batch_metric
    Good-resigned failed (bought s v f, run) on h =
        Returns-bind (Now p.index base closed) Fine _ _
          (Now-complete p.index base outside s v f any_status run h) (λ r k. Returns-ok _ _ k)
    Good-resigned failed (threw e, run) on h = on e run h

    Good-sign_again :
        (rest : BuyError → Run → Result (Progress × Run)) (amount : Sol) (e : BuyError)
        (x : PendingVerdict × Run)
        → GoesWell rest
        → Now p.index base any_status x.1
        → Returns Fine (sign_again outside config has_ata rest p.index amount e x)
    unfolding sign_again increment_batch_metric
    Good-sign_again rest amount e (has_landed s, run) on h =
        Returns-bind (Now p.index base closed) Fine _ _
          (Now-confirm_pending p.index base outside s e any_status run h) (λ r k. Returns-ok _ _ k)
    Good-sign_again rest amount e (in_flight s, run) on h = Returns-ok Fine _ h
    Good-sign_again rest amount e (clear, run) on h =
        Returns-bind (Now p.index base any_status) Fine _ _
          (At-mark_in_progress p.index base outside any_status (count retry_expired_resigned run) h
            (slippage_at outside config has_ata 1))
          (λ r k.
            Returns-bind (λ (x : BuyEnd × Run). Now p.index base any_status x.1) Fine _ _
              (Now-call_buy p.index base outside amount (slippage_at outside config has_ata 1)
                any_status r k)
              (λ y l.
                Good-resigned _ y
                  (λ e' q m.
                    Returns-bind Fine Fine _ _
                      (Good-try_confirm_pending p.index base outside e' q m)
                      (λ z n. Good-unless_settled rest z on n))
                  l))

    Good-expired :
        (rest : BuyError → Run → Result (Progress × Run)) (amount : Sol)
        (o : Option (Signature × ℕ)) (e : BuyError) (run : Run)
        → GoesWell rest
        → Now p.index base any_status run
        → Returns Fine (elim o [
          | none ↦ ok (failing e, run)
          | some expired ↦
              sign_again outside config has_ata rest p.index amount e
                (signature_verdict outside in_flight_polls expired.0 (some (expired.1)) run)
        ])
    Good-expired rest amount none e run on h = Returns-ok Fine (failing e, run) h
    Good-expired rest amount (some expired) e run on h = Good-sign_again rest amount e _ on (
        subst (λ (s : BatchState). At p.index base any_status s.purchases)
          (sym (
            signature_verdict-state p.index base outside in_flight_polls expired.0
              (some (expired.1)) run))
          h)

    Good-resign_expired :
        (left : ℕ) (amount : Sol)
        → GoesWell (resign_expired outside config has_ata left p.index amount)
    unfolding resign_expired
    Good-resign_expired zero amount e run h = Returns-ok Fine (failing e, run) h
    Good-resign_expired (suc left) amount e run h =
        Good-expired (resign_expired outside config has_ata left p.index amount) amount
          (is_blockhash_expiry e) e run (Good-resign_expired left amount) h

    Good-end_shrunk :
        (x : BuyEnd × Run)
        → Now p.index base any_status x.1
        → Returns Fine (end_shrunk outside config has_ata p.index x)
    unfolding end_shrunk
    Good-end_shrunk (bought s v f, run) h =
        Returns-bind (Now p.index base closed) Fine _ _
          (Now-complete p.index base outside s v f any_status run h) (λ r k. Returns-ok _ _ k)
    Good-end_shrunk (threw e, run) h = Good-try_confirm_pending p.index base outside e run h

    abbrev FineFunds : Sol × (Progress × Run) → Type 0
    FineFunds x = Fine x.1

    Good-buy_shrunk :
        (e : BuyError) (o : Option Sol) (run : Run)
        → Now p.index base any_status run
        → Returns FineFunds (buy_shrunk outside config has_ata p e o run)
    unfolding buy_shrunk increment_batch_metric
    Good-buy_shrunk e none run h =
        Returns-bind (Now p.index base closed) FineFunds _ _
          (At-mark_abandoned p.index base outside any_status run h
            (keeper_exhausted outside config has_ata))
          (λ r k. Returns-ok FineFunds _ k)
    Good-buy_shrunk e (some amount) run h =
        if_elim (Returns FineFunds) (ltb amount p.sol_amount) _ _
          (λ _.
            Returns-bind (Now p.index base any_status) FineFunds _ _
              (At-write p.index base outside any_status any_status
                (shrink_amount outside config has_ata amount p)
                (count balance_shrunk_to_fit (count balance_shrunk_after_failure run)) (λ q. refl)
                (λ q k. refl) h)
              (λ r k.
                Returns-bind (Now p.index base any_status) FineFunds _ _
                  (At-mark_in_progress p.index base outside any_status r k
                    (slippage_at outside config has_ata 1))
                  (λ r' k'.
                    Returns-bind (λ (x : BuyEnd × Run). Now p.index base any_status x.1) FineFunds _
                      _
                      (Now-call_buy p.index base outside amount
                        (slippage_at outside config has_ata 1) any_status r' k')
                      (λ y l.
                        Returns-bind Fine FineFunds _ _ (Good-end_shrunk y l)
                          (λ z n. Returns-ok FineFunds (amount, z) n)))))
          (λ _. Returns-ok FineFunds (p.sol_amount, (failing e, run)) h)

    Good-recover_funds :
        (e : BuyError) (run : Run)
        → Now p.index base any_status run
        → Returns FineFunds (recover_funds outside config has_ata p e run)
    unfolding recover_funds
    Good-recover_funds e run h =
        if_elim (Returns FineFunds) (is_insufficient_funds e) _ _
          (λ _. Good-buy_shrunk e _ (read_balance outside config has_ata run) h)
          (λ _. Returns-ok FineFunds (p.sol_amount, (failing e, run)) h)

    Good-climbed :
        (rest : BuyError → Run → Result (Progress × Run)) (x : BuyEnd × Run)
        → GoesWell rest
        → Now p.index base any_status x.1
        → Returns Fine (climbed outside config has_ata rest p.index x)
    unfolding climbed increment_batch_metric record_venue_routing
    Good-climbed rest (bought s v f, run) on h =
        Returns-bind (Now p.index base closed) Fine _ _
          (At-mark_completed p.index base outside any_status run h s (some v))
          (λ r k. Returns-ok Fine _ k)
    Good-climbed rest (threw e, run) on h =
        elim (Bool-cases (is_slippage_error e.message e.venue)) [
          | inl slipped ↦ rw (slipped, climbed) (on e run h)
          | inr other ↦ rw (other, climbed) (Returns-ok Fine (failing e, run) h)
        ]

    Good-climb :
        (attempts : List ℕ) (amount : Sol)
        → GoesWell (climb outside config has_ata attempts p.index amount)
    unfolding climb increment_batch_metric
    Good-climb [] amount e run h = Returns-ok Fine (failing e, run) h
    Good-climb (a ∷ attempts) amount e run h =
        Returns-bind (Now p.index base any_status) Fine _ _
          (At-mark_in_progress p.index base outside any_status
            (count retry_slippage_instant_retry run) h (slippage_at outside config has_ata a))
          (λ r k.
            Returns-bind (λ (x : BuyEnd × Run). Now p.index base any_status x.1) Fine _ _
              (Now-call_buy p.index base outside amount (slippage_at outside config has_ata a)
                any_status r k)
              (λ y l. Good-climbed _ y (Good-climb attempts amount) l))

    Good-count_unclimbed : GoesWell (count_unclimbed outside config has_ata)
    unfolding count_unclimbed increment_batch_metric
    Good-count_unclimbed e run h = Returns-ok Fine _ h

    Good-climb_ladder :
        (amount : Sol) → GoesWell (climb_ladder outside config has_ata p.index amount)
    unfolding climb_ladder
    Good-climb_ladder amount e run h =
        if_elim (Returns Fine) (is_slippage_error e.message e.venue) _ _
          (λ _. Returns-bind Fine Fine _ _ (Good-climb (2 ∷ 3 ∷ []) amount e run h) (λ x k.
            Good-unless_settled _ x
              (λ last r l.
                Returns-bind Fine Fine _ _ (Good-try_confirm_pending p.index base outside last r l)
                  (λ y m. Good-unless_settled _ y Good-count_unclimbed m))
              k))
          (λ _. Returns-ok Fine (failing e, run) h)

    Good-after_funds :
        (x : Sol × (Progress × Run))
        → FineFunds x
        → Returns Fine (after_funds outside config has_ata p.index x)
    unfolding after_funds
    Good-after_funds (amount, x) h = Good-unless_settled _ x (Good-climb_ladder amount) h

    abbrev Tried : Bool × Run → Type 0
    Tried x = Now p.index base tried x.1

    Tried-close_purchase :
        (x : Progress × Run)
        → Fine x
        → Returns Tried (close_purchase outside config has_ata p.index x)
    unfolding close_purchase
    Tried-close_purchase (settled, run) h =
        Returns-ok Tried (false, run)
          (At-weaken p.index base closed tried run.state.purchases closed-tried h)
    Tried-close_purchase (drained, run) h =
        Returns-ok Tried (true, run)
          (At-weaken p.index base closed tried run.state.purchases closed-tried h)
    Tried-close_purchase (failing e, run) h =
        Returns-bind (Now p.index base tried) Tried _ _
          (Now-record_purchase_failure p.index base outside e run h)
          (λ r k. Returns-ok Tried (false, r) k)

    Tried-handle_failure :
        (e : BuyError) (run : Run)
        → Now p.index base any_status run
        → Returns Tried (handle_failure outside config has_ata p e run)
    unfolding handle_failure
    Tried-handle_failure e run h =
        Returns-bind Fine Tried _ _
          (Returns-bind Fine Fine _ _
            (Returns-bind Fine Fine _ _ (Good-try_confirm_pending p.index base outside e run h)
              (λ x k.
                Good-unless_settled _ x (Good-resign_expired max_expiry_resigns p.sol_amount) k))
            (λ x k.
              Good-unless_settled _ x
                (λ failure r l.
                  Returns-bind FineFunds Fine _ _ (Good-recover_funds failure r l) Good-after_funds)
                k))
          Tried-close_purchase

    Tried-end_first :
        (x : BuyEnd × Run)
        → Now p.index base any_status x.1
        → Returns Tried (end_first outside config has_ata p x)
    unfolding end_first
    Tried-end_first (bought s v f, run) h =
        Returns-bind (Now p.index base closed) Tried _ _
          (Now-complete p.index base outside s v f any_status run h)
          (λ r k.
            Returns-ok Tried (false, r)
              (At-weaken p.index base closed tried r.state.purchases closed-tried k))
    Tried-end_first (threw e, run) h = Tried-handle_failure e run h

    pub Tried-buy_scheduled :
        (emptied : Bool) (run : Run)
        → Now p.index base any_status run
        → Returns Tried (buy_scheduled outside config has_ata p emptied run)
    unfolding buy_scheduled increment_batch_metric
    Tried-buy_scheduled true run h =
        Returns-bind (Now p.index base closed) Tried _ _
          (At-mark_abandoned p.index base outside any_status run h
            (keeper_exhausted outside config has_ata))
          (λ r k.
            Returns-ok Tried _
              (At-weaken p.index base closed tried r.state.purchases closed-tried k))
    Tried-buy_scheduled false run h =
        Returns-bind (Now p.index base any_status) Tried _ _
          (At-mark_in_progress p.index base outside any_status run h
            (slippage_at outside config has_ata 1))
          (λ r k.
            Returns-bind (λ (x : BuyEnd × Run). Now p.index base any_status x.1) Tried _ _
              (Now-call_buy p.index base outside p.sol_amount (slippage_at outside config has_ata 1)
                any_status r k)
              Tried-end_first)
