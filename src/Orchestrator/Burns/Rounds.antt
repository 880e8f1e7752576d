-- ===== src/Orchestrator/Burns/Rounds.antt =====
-- A whole round of burning (offchain/orchestrator/burns.ts): calls of `burnDueFor` for any coins, in
-- any order and with any answers that agree with the chain, between other changes of the state.
use pumpling.Base.{Bool, List, Result, [], ap, arith, ok, subst, sum_map, sym, ◌++◌, ◌≡◌}
use pumpling.Orchestrator.Burns.{BurnCall, BurnEnv, SentBurn, burn_due_for, burned_so_far}
use pumpling.Orchestrator.Burns.Honesty.{IsHonest, IsSound, live, spent}
use pumpling.Orchestrator.Burns.Ids.{Numbered}
use pumpling.Orchestrator.Burns.NeverOver.{burn_due_for-NeverOver}
use pumpling.Orchestrator.Types.{LotteryState, Mint, Signature}

-- A state with all that was handed to the network up to it.
pub record Round : Type 0 where
  pub state : LotteryState
  pub log : List SentBurn

pub data Step (fate : Signature → Bool) : Round → Round → Type 0 where
  calls :
      (env : BurnEnv) (final : Bool) (mint : Mint) (r : Round) (c : BurnCall)
      → IsHonest fate env
      → burn_due_for env final mint r.state ≡ ok c
      → Step fate r (record { state = c.state; log = c.sent_burns ++ r.log })
  -- Any other operation: it leaves the burns and what was burned.
  works :
      (r : Round) (s : LotteryState)
      → s.burns ≡ r.state.burns
      → ((m : Mint) → burned_so_far m s ≡ burned_so_far m r.state)
      → Step fate r (record r { state = s })

pub data Reach (fate : Signature → Bool) (start : Round) : Round → Type 0 where
  begin : Reach fate start start
  onward : {r s : Round} → Reach fate start r → Step fate r s → Reach fate start s

same_call : (c d : BurnCall) (r : Result BurnCall) → r ≡ ok c → r ≡ ok d → d ≡ c
same_call c d r e f = cc

Step-IsSound :
    (fate : Signature → Bool) {r s : Round}
    → Step fate r s
    → IsSound fate r.state r.log
    → IsSound fate s.state s.log
Step-IsSound fate (calls env final mint r c honest e) sound =
    let (d, f, s, _) = burn_due_for-NeverOver fate env final mint r.state r.log honest sound in
    subst (λ (k : BurnCall). IsSound fate k.state (k.sent_burns ++ r.log)) (same_call c d _ e f) s
Step-IsSound fate (works r s e f) sound = record {
  accounted = λ m. omega (arith, sound.accounted m, f m, ap (sum_map (live fate m)) e);
  numbered = subst (Numbered 0) (sym e) sound.numbered;
}

-- From a round without burns on, through any calls of `burnDueFor` whose answers agree with the
-- chain and any changes that leave the burns and what was burned: what the burn transactions sent
-- so far destroy of a coin is at most what is counted as burned for it and what the transactions
-- of its open burns destroy, and the burns' ids are serial numbers.
pub Reach-IsSound :
    (fate : Signature → Bool) (start : Round) {r : Round}
    → start.log ≡ []
    → start.state.burns ≡ []
    → Reach fate start r
    → IsSound fate r.state r.log
Reach-IsSound fate start e f begin = record {
  accounted = λ m. omega (arith, ap (spent fate m) e);
  numbered = subst (Numbered 0) (sym f) tt;
}
Reach-IsSound fate start e f (onward r s) = Step-IsSound fate s (Reach-IsSound fate start e f r)
