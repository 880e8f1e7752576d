-- ===== src/Examples/Keeping.antt =====
-- The records that are kept, the retries and the calls to the node, at small inputs.
use pumpling.Scheduler.State.{update_summary as batch_update_summary}
use pumpling.Orchestrator.State.Summary.{IsSummed as RoundSummed}
use pumpling.Orchestrator.Semaphore.Holders.{IsFair as FairSystem}
use pumpling.Scheduler.State.Summary.{IsSummed as BatchSummed}
use pumpling.Base.{
  List, Option, [], arith, false, length, none, not, refl, some, ℕ, ◌*◌, ◌+◌, ◌-◌, ◌<◌, ◌∷◌, ◌≡◌,
  ◌≤◌, ◌⊎◌,
}
use pumpling.Base.Text.{codes}
use pumpling.Examples.Data.{a_batch, a_purchase, a_state, open_burn}
use pumpling.Orchestrator.Semaphore.{Semaphore, acquire, new_semaphore}
use pumpling.Orchestrator.Semaphore.Holders.{
  System, arrive, arrives, here, leave, leaves, new_semaphore-IsFair, next,
}
use pumpling.Orchestrator.State.{add_burn}
use pumpling.Orchestrator.State.Summary.{a_burn, apply_change, apply_change-IsSummed}
use pumpling.Scheduler.Errors.{
  extract_custom_error_code, is_retryable_error, is_retryable_error_lem, matches_any,
  non_retryable_patterns,
}
use pumpling.Scheduler.Slippage.{get_slippage_for_attempt, get_slippage_ladder}
use pumpling.Scheduler.State.{mark_abandoned, update_purchase}
use pumpling.Scheduler.State.Summary.{abandons, operate, operate-IsSummed}
use pumpling.Scheduler.Types.{BatchState, PurchaseStatus}
use pumpling.Solana.RateLimiter.{RateLimiter, interval, new_limiter}
use pumpling.Solana.RateLimiter.Spacing.{after_calls, goes_at, goes_at-spacing}
use pumpling.Solana.SignatureOutcome.{
  Confirmation, StatusValue, expiry_margin_blocks, finalized, signature_outcome,
  signature_outcome-absent, signature_outcome-landed,
}

a_state-IsSummed : RoundSummed (a_state [])
a_state-IsSummed = record {
  bought = refl;
  failed = refl;
  total = refl;
  completed = refl;
  satisfied = refl;
  abandoned = refl;
  mismatched = refl;
}

apply_change-IsSummed_example : RoundSummed (a_state (open_burn ∷ []))
unfolding apply_change add_burn
apply_change-IsSummed_example =
    apply_change-IsSummed (a_burn open_burn) 7 (a_state []) (a_state (open_burn ∷ []))
      a_state-IsSummed refl

a_batch-IsSummed : BatchSummed a_batch
a_batch-IsSummed = record { completed = refl; abandoned = refl; spent = refl; counted = refl }

abbrev other_batch : BatchState
other_batch = record a_batch {
  purchases =
      record a_purchase {
        status = PurchaseStatus.abandoned;
        error_message = some (codes "late");
        updated_at = 9;
      }
      ∷ [];
  summary = record (a_batch.summary) {
    completed_purchases = 0;
    abandoned_purchases = 1;
    total_sol_spent = 0;
  };
}

operate-IsSummed_example : BatchSummed other_batch
unfolding operate mark_abandoned update_purchase batch_update_summary
operate-IsSummed_example =
    operate-IsSummed (abandons 0 (codes "late")) 9 a_batch other_batch a_batch-IsSummed refl

get_slippage_ladder_example :
    (get_slippage_for_attempt 1 400 1000 ≤ get_slippage_for_attempt 4 400 1000)
    × (get_slippage_for_attempt 4 400 1000 ≤ 1000)
get_slippage_ladder_example = get_slippage_ladder 1 4 400 1000 (omega arith)

is_retryable_error_lem_example :
    is_retryable_error (codes "timeout: insufficient funds") none
    ≡ not (matches_any non_retryable_patterns (codes "timeout: insufficient funds"))
is_retryable_error_lem_example = is_retryable_error_lem (codes "timeout: insufficient funds") none

custom_code : extract_custom_error_code (codes "x custom program error: 0x1772") ≡ some 6002
unfolding extract_custom_error_code
custom_code = refl

abbrev no_status : Option (Option StatusValue)
no_status = some none

signature_outcome-absent_example :
    (h : ℕ) × (some 1033 ≡ some h) × (1000 + expiry_margin_blocks < h) × (no_status ≡ some none)
unfolding signature_outcome
signature_outcome-absent_example = signature_outcome-absent 1000 (some 1033) no_status refl

abbrev final_status : StatusValue
final_status = record { has_err = false; confirmation = finalized }

final_lands :
    (v : StatusValue) × (some (some final_status) ≡ some (some v))
    × (v.has_err ≡ false)
    × ((v.confirmation ≡ Confirmation.confirmed) ⊎ (v.confirmation ≡ finalized))
unfolding signature_outcome
final_lands = signature_outcome-landed (some 1000) (some 900) (some (some final_status)) refl

abbrev two_a_second : RateLimiter
two_a_second = new_limiter 2 (some 1)

abbrev between_calls : List ℕ
between_calls = 5 ∷ 5 ∷ []

goes_at-spacing_example :
    goes_at 0 two_a_second + (length between_calls + 1) * interval
    ≤ goes_at 6 (after_calls (0 ∷ between_calls) two_a_second)
      + (two_a_second.burst_slots - 1) * interval
goes_at-spacing_example = goes_at-spacing 0 6 between_calls two_a_second

abbrev one_slot : Semaphore
one_slot = record { capacity = 1; active = 0; queue = [] }

abbrev idle : System
idle = record { sem = one_slot; holders = [] }

new_semaphore-IsFair_example : FairSystem 1 (leave 3 (arrive 4 (arrive 3 idle)))
unfolding new_semaphore arrive acquire
new_semaphore-IsFair_example =
    new_semaphore-IsFair 1 one_slot (leave 3 (arrive 4 (arrive 3 idle))) refl (
      next (next (next here (arrives 3 idle)) (arrives 4 (arrive 3 idle)))
        (leaves 3 (arrive 4 (arrive 3 idle)) refl))
