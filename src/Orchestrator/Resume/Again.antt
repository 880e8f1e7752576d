-- ===== src/Orchestrator/Resume/Again.antt =====
-- offchain/orchestrator/resume.ts: what `resumeLottery` goes on with.
use pumpling.Base.{
  All, All-map, All-member, List, Memᴰ, arith, false, ok, refl, some, true, ℕ, ◌+◌, ◌≡◌, ◌≤◌,
}
use pumpling.Orchestrator.PurchaseTokens.{BatchLoader}
use pumpling.Orchestrator.Resume.{
  Asks, BuyPlanItem, ResumedRun, is_unfinished, min_resume_sol, min_resume_window_minutes,
  purchases_that_may_have_landed, remaining_window_minutes, resume_lottery,
}
use pumpling.Orchestrator.Resume.Plan.{IsDue, plan_resume-IsPlan}
use pumpling.Orchestrator.Resume.Revive.{stuck}
use pumpling.Orchestrator.Resume.Spent.{
  purchases_that_may_have_landed-IsWithin, sol_at_stake, stake-spent,
}
use pumpling.Orchestrator.Types.{LotteryState, Signature, Time, TokenBuyRecord}

module _ (outcome : Asks) (load : BatchLoader) (state : LotteryState) where
  -- The buy and what the chain may have taken are within the coin's amount.
  pub record IsRest (b : BuyPlanItem) : Type 0 where
    pub token : TokenBuyRecord
    pub member : Memᴰ token state.token_buys
    pub same : b.mint ≡ token.mint
    pub within : b.sol_amount + sol_at_stake outcome load token ≤ token.adjusted_sol_amount
    pub enough : min_resume_sol ≤ b.sol_amount

  pub record BuysOnlyRest (run : ResumedRun) : Type 0 where
    pub buys : All IsRest run.plan.buys
    pub idle : (j : ℕ) → stuck j run.state.sends ≡ false
    pub window : min_resume_window_minutes ≤ run.window_minutes

  abbrev landed_or_may : List Signature
  landed_or_may = purchases_that_may_have_landed outcome load state

  due-IsRest :
      (now : Time) (b : BuyPlanItem) → IsDue now load landed_or_may state.token_buys b → IsRest b
  due-IsRest now b h = record {
    token = h.token;
    member = h.member;
    same = h.same;
    within = omega (
      arith,
      h.rest,
      stake-spent outcome landed_or_may load h.token now h.still (
          All-member _ h.token state.token_buys h.member
            (purchases_that_may_have_landed-IsWithin outcome load state)),
    );
    enough = h.enough;
  }

  -- An unfinished round is resumed: `resumeLottery` reaches `runBuyAndSend`. Each buy it is called
  -- with, and the amounts of the coin's purchases that completed or whose last transaction landed or
  -- may still, are together within the coin's adjusted amount, and the buy is no less than the least
  -- worth making. The purchases are those of the batch files that can be read: a file that is gone
  -- counts as nothing. The last transaction is that of the latest attempt, or the pending one where
  -- no attempt is on record. No delivery that an id finds is
  -- under way, and the window is no less than the least window.
  pub resume_lottery-BuysOnlyRest :
      (now : Time)
      → is_unfinished (some state) ≡ true
      → (run : ResumedRun) × (resume_lottery outcome load now (some state) ≡ ok (some run))
        × BuysOnlyRest run
  unfolding resume_lottery remaining_window_minutes
  resume_lottery-BuysOnlyRest now unfinished =
      let planned = plan_resume-IsPlan now load landed_or_may state in
      (
        record {
          state = planned.value.1;
          plan = planned.value.0;
          window_minutes = remaining_window_minutes planned.value.1 now;
        },
        rw (unfinished, planned.returns) refl,
        record {
          buys =
              All-map (IsDue now load landed_or_may state.token_buys) IsRest _ (due-IsRest now)
                planned.fits.buys;
          idle = planned.fits.idle;
          window = omega arith;
        },
      )
