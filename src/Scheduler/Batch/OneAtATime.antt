-- ===== src/Scheduler/Batch/OneAtATime.antt =====
-- The retry window of a batch (offchain/scheduler/batch.ts), one purchase: `retry_one` ends and signs
-- one transaction at a time.
use pumpling.Base.{Bool, Option, [], none, ok, refl, some, subst, sym, ℕ, ◌≡◌}
use pumpling.Orchestrator.Types.{Signature, Time}
use pumpling.Scheduler.Batch.{Outside, Run, in_flight_polls, signature_verdict}
use pumpling.Scheduler.Batch.Careful.{Careful-after_verdict, Careful-retry_attempts}
use pumpling.Scheduler.Batch.Keeps.{Tells, closed, tried}
use pumpling.Scheduler.Batch.NoDouble.{
  After, IsCareful, NoneMayLand, WellJudged-signature_verdict, nothing_may, this_may, unresolved,
}
use pumpling.Scheduler.Batch.Retry.{after_verdict, retry_attempts, retry_one}
use pumpling.Scheduler.Batch.RetryEnds.{Closed-retry_one}
use pumpling.Scheduler.Batch.Whole.{At-start}
use pumpling.Scheduler.Types.{BatchConfig, PurchaseRecord}

-- The signature on record that may still land: one whose limit is on record too.
abbrev pub pending_with : Option Signature → Option ℕ → Option Signature
pending_with (some signature) (some limit) = some signature
pending_with _ _ = none

module _ (outside : Outside) (config : BatchConfig) (has_ata : Bool) where
  Careful-pending :
      (signature : Option Signature) (limit : Option ℕ) (deadline : Time) (p : PurchaseRecord)
      (run : Run)
      → run.log ≡ []
      → After
          (λ (r : Run). IsCareful (pending_with signature limit) r.log)
          (elim signature [
            | none ↦ retry_attempts outside config has_ata deadline p run
            | some s ↦
                after_verdict outside config has_ata deadline p
                  (signature_verdict outside in_flight_polls s limit run)
          ])
  Careful-pending none limit deadline p run e =
      Careful-retry_attempts outside config has_ata none deadline p run
        (subst (NoneMayLand none) (sym e) (tt, refl))
  Careful-pending (some s) none deadline p run e =
      Careful-after_verdict outside config has_ata none deadline p _ (
        WellJudged-signature_verdict outside none in_flight_polls s none run
          (subst (IsCareful none) (sym e) tt)
          (nothing_may (subst (λ log. unresolved none log ≡ none) (sym e) refl)))
  Careful-pending (some s) (some l) deadline p run e =
      Careful-after_verdict outside config has_ata (some s) deadline p _ (
        WellJudged-signature_verdict outside (some s) in_flight_polls s (some l) run
          (subst (IsCareful (some s)) (sym e) tt)
          (this_may l refl (subst (λ log. unresolved (some s) log ≡ some s) (sym e) refl)))

  Careful-retry_one :
      (deadline : Time) (p : PurchaseRecord) (run : Run)
      → run.log ≡ []
      → After
          (λ (r : Run).
            IsCareful (pending_with p.pending_signature p.pending_last_valid_block_height) r.log)
          (retry_one outside config has_ata deadline p run)
  unfolding retry_one
  Careful-retry_one deadline p run e =
      Careful-pending p.pending_signature p.pending_last_valid_block_height deadline p run e

  -- The retry of a purchase that the main window left failed, or closed, returns; the purchase is
  -- then completed or abandoned, and no transaction was signed for it while another could land: a
  -- call of `buy` comes after the transaction on record and those of the earlier calls, as far as
  -- their limits are known, were found to be failed or absent.
  pub retry_one-IsCareful :
      (deadline : Time) (p : PurchaseRecord) (run : Run)
      → Tells tried p.index run.state.purchases
      → run.log ≡ []
      → (r : Run) × (retry_one outside config has_ata deadline p run ≡ ok r)
        × Tells closed p.index r.state.purchases
        × IsCareful (pending_with p.pending_signature p.pending_last_valid_block_height) r.log
  retry_one-IsCareful deadline p run h e =
      let base = run.state.purchases in
      let done =
        Closed-retry_one base outside config has_ata deadline p run
          (At-start p.index tried base h) in
      (
        done.value,
        done.returns,
        done.fits.here,
        (Careful-retry_one deadline p run e).fits done.value done.returns,
      )
