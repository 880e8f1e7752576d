-- ===== src/Examples/Burning.antt =====
use pumpling.Base.{
  Bool, List, Result, [], arith, err, false, ok, refl, sum_map, true, ◌++◌, ◌∷◌, ◌≡◌, ◌≤◌, ◌⊎◌,
}
use pumpling.Examples.Data.{a_call, a_state, burns_for_good, open_burn}
use pumpling.Orchestrator.Burns.{BurnCall, SentBurn, burn_due_for, settle_pending}
use pumpling.Orchestrator.Burns.Honesty.{IsHonest, IsSound, live, spent}
use pumpling.Orchestrator.Burns.NeverOver.{burn_due_for-NeverOver}
use pumpling.Orchestrator.Burns.Rounds.{Reach-IsSound, Round, begin, calls, onward}
use pumpling.Orchestrator.Burns.Settle.{settle_pending_lem}
use pumpling.Orchestrator.Burns.Writes.{HasToken}
use pumpling.Orchestrator.PurchaseTokens.{tokens_bought}
use pumpling.Orchestrator.Shares.{
  add_share, burn_owed, burn_weight, burn_weight_of, collect_recipients, from_stake, shares_of,
  total_stake,
}
use pumpling.Orchestrator.State.{add_burned, update_burn}
use pumpling.Orchestrator.Types.{LotteryState}

-- Burning, at the small round.
pub a_call-IsHonest : IsHonest burns_for_good a_call
a_call-IsHonest = record {
  landed_burns = λ s h e. ground arith;
  absent_never = λ s h e. ground arith;
  failed_never = λ s h e. ground arith;
  refused_never = λ b m n e f g. cc;
  named_same = λ b m s e f. cc;
}

abbrev sent_before : List SentBurn
sent_before = record { signature = 5; mint = 1; raw = 100 } ∷ []

open-IsSound : IsSound burns_for_good (a_state (open_burn ∷ [])) sent_before
open-IsSound = record { accounted = λ m. ground arith; numbered = (refl, tt) }

-- Of 1000 units 375 are owed to the fire; 100 burned already, so the call sends 275.
burn_due_for-NeverOver_example :
    (c : BurnCall) × (burn_due_for a_call false 1 (a_state (open_burn ∷ [])) ≡ ok c)
    × IsSound burns_for_good c.state (c.sent_burns ++ sent_before)
    × ((c.sent_burns ≡ [])
        ⊎ ((settled : LotteryState) × (settle_pending a_call 1 (a_state (open_burn ∷ []))
              ≡ ok (true, settled))
            × (spent burns_for_good 1 (c.sent_burns ++ sent_before)
                ≤ burn_owed
                    (tokens_bought settled 1 a_call.load_batch).known
                    (shares_of (a_state (open_burn ∷ [])) 1))))
burn_due_for-NeverOver_example =
    burn_due_for-NeverOver burns_for_good a_call false 1 (a_state (open_burn ∷ [])) sent_before
      a_call-IsHonest open-IsSound

sent_of : Result BurnCall → List SentBurn
sent_of (ok c) = c.sent_burns
sent_of (err _) = []

sent_by_call :
    sent_of (burn_due_for a_call false 1 (a_state (open_burn ∷ [])))
    ≡ record { signature = 6; mint = 1; raw = 275 } ∷ []
unfolding sent_of burn_due_for update_burn add_burned burn_owed tokens_bought total_stake shares_of
    collect_recipients from_stake add_share burn_weight burn_weight_of
sent_by_call = refl

abbrev start : Round
start = record { state = a_state []; log = [] }

-- The first call of the round.
first_call : (c : BurnCall) × (burn_due_for a_call false 1 (a_state []) ≡ ok c)
first_call =
    let none_sent : IsSound burns_for_good (a_state []) [] = record {
      accounted = λ m. omega arith;
      numbered = tt;
    } in
    let (c, e, _, _) =
      burn_due_for-NeverOver burns_for_good a_call false 1 (a_state []) [] a_call-IsHonest
        none_sent in
    (c, e)

Reach-IsSound_example : IsSound burns_for_good first_call.0.state (first_call.0.sent_burns ++ [])
Reach-IsSound_example =
    Reach-IsSound burns_for_good start refl refl
      (onward begin (calls a_call false 1 start first_call.0 a_call-IsHonest first_call.1))

settle_pending_lem_example :
    (v : Bool × LotteryState) × (settle_pending a_call 1 (a_state (open_burn ∷ [])) ≡ ok v)
    × IsSound burns_for_good v.1 sent_before
    × HasToken 1 v.1
    × (v.0 ≡ true → sum_map (live burns_for_good 1) v.1.burns ≡ 0)
settle_pending_lem_example =
    settle_pending_lem burns_for_good 1 sent_before a_call a_call-IsHonest
      (a_state (open_burn ∷ [])) open-IsSound refl
