-- ===== src/Examples/ToppingUp.antt =====
-- A settlement: wallet 10 got 100 of its 375 units, and it is not known whether wallet 11 got its.
use pumpling.Base.{[], arith, map, none, ok, refl, some, true, ◌*◌, ◌++◌, ◌+◌, ◌>>=◌, ◌∷◌, ◌≡◌}
use pumpling.Examples.Burning.{a_call-IsHonest}
use pumpling.Examples.Data.{a_call, a_delivery, a_state, burns_for_good}
use pumpling.Orchestrator.Burns.Honesty.{IsSound}
use pumpling.Orchestrator.Settle.{SettleEnv, top_ups_for}
use pumpling.Orchestrator.Settle.Burned.{finish_burns-IsSound, settle_after_buying-IsSound}
use pumpling.Orchestrator.Settle.Whole.{
  BurnRun, Settlement, finish_burn_delays, finish_burns, settle_after_buying,
}
use pumpling.Orchestrator.Shares.{
  add_share, burn_weight_of, collect_recipients, from_stake, shares_of,
}
use pumpling.Orchestrator.Types.{LotteryState, SendStatus}
use pumpling.Scheduler.Batch.Keeps.{Returns}

abbrev short_state : LotteryState
short_state = record (a_state []) {
  sends =
      (record (a_delivery 1 10 3000000000 none) { status = SendStatus.completed })
      ∷ (record (a_delivery 2 11 1000000000 (some 9)) { status = SendStatus.abandoned })
      ∷ [];
}

abbrev a_settlement : SettleEnv
a_settlement = record {
  load = a_call.load_batch;
  effects_at = λ n s. none;
  burn_at = λ n. a_call;
  outcome_of = a_call.outcome;
  balance_of = λ m. some 900;
  clock_now = 7;
}

one_top_up :
    (top_ups_for a_settlement true 10 1 short_state >>= λ r.
    ok (map (λ s. s.id * 100 + s.recipient) r.1.sends))
    ≡ ok (110 ∷ 211 ∷ 310 ∷ [])
unfolding top_ups_for shares_of collect_recipients from_stake add_share burn_weight_of
one_top_up = refl

settle_after_buying-IsSound_example :
    Returns
      (λ (r : Settlement). IsSound burns_for_good r.state (r.sent_burns ++ []))
      (settle_after_buying a_settlement 10 short_state)
settle_after_buying-IsSound_example =
    settle_after_buying-IsSound burns_for_good [] a_settlement (λ n. a_call-IsHonest) 10 short_state
      (record { accounted = λ m. omega arith; numbered = tt })

-- The burn of the coin was left undone.
abbrev undone_burn : BurnRun
undone_burn = record { calls_made = 1; undone = 1 ∷ []; state = short_state; sent_burns = [] }

finish_burns-IsSound_example :
    Returns
      (λ (run : BurnRun). IsSound burns_for_good run.state (run.sent_burns ++ []))
      (finish_burns a_settlement finish_burn_delays 0 undone_burn)
finish_burns-IsSound_example =
    finish_burns-IsSound burns_for_good [] a_settlement (λ n. a_call-IsHonest) finish_burn_delays 0
      undone_burn (record { accounted = λ m. omega arith; numbered = tt })
