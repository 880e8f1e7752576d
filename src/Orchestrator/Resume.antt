-- ===== src/Orchestrator/Resume.antt =====
-- offchain/orchestrator/resume.ts: what is left to buy and to send after the process died. The name
-- `resumed` of a run and the empty name of a file are the number 0.
pub mod Spent
pub mod Revive
pub mod Plan
pub mod Again
use pumpling.Base.{
  Bool, List, Option, Result, [], dedup, false, filter, has, if◌then◌else◌, ltb, max, none, ok,
  some, sum_map, true, ℕ, ◌*◌, ◌++◌, ◌+◌, ◌-◌, ◌>>=◌, ◌>>◌, ◌||◌, ◌∷◌,
}
use pumpling.Base.Rounding.{nearest}
use pumpling.Base.Text.{codes}
use pumpling.Orchestrator.PurchaseTokens.{BatchLoader, all_purchases, flat_map}
use pumpling.Orchestrator.State.{
  has_status, mark_token_buy_completed, mark_token_buy_failed, or_zero, update_send,
  update_token_buy,
}
use pumpling.Orchestrator.Types.{
  BuyStatus, LotteryState, Mint, SendRecord, SendStatus, Signature, Sol, StateFile, Time,
  TokenBuyRecord,
}
use pumpling.Scheduler.Batch.{bought}
use pumpling.Scheduler.State.{purchase_has}
use pumpling.Scheduler.Types.{BatchState, PurchaseRecord, PurchaseStatus, SentAttemptRecord}
use pumpling.Solana.SignatureOutcome.{SignatureOutcome, landed, unknown}

abbrev pub min_resume_sol : Sol
min_resume_sol = 10000000

abbrev pub min_resume_window_minutes : ℕ
min_resume_window_minutes = 2

abbrev pub is_none {ℓ} : {A : Type ℓ} → Option A → Bool
is_none none = true
is_none (some _) = false

-- `isUnfinished`
unfoldable pub is_unfinished : Option LotteryState → Bool
is_unfinished none = false
is_unfinished (some state) = is_none state.summary.finished_at

abbrev pub last_of : SentAttemptRecord → List SentAttemptRecord → SentAttemptRecord
last_of a [] = a
last_of a (b ∷ bs) = last_of b bs

-- `lastAttempt`
unfoldable pub last_attempt : PurchaseRecord → Option (Signature × Option ℕ)
last_attempt p = elim p.sent_attempts [
  | a ∷ bs ↦ some ((last_of a bs).signature, some ((last_of a bs).last_valid_block_height))
  | [] ↦ elim p.pending_signature [
    | none ↦ none
    | some s ↦ some (s, p.pending_last_valid_block_height)
  ]
]

abbrev pub has_last : List Signature → Option (Signature × Option ℕ) → Bool
has_last may none = false
has_last may (some (s, limit)) = has s may

unfoldable pub counts_as_spent : List Signature → PurchaseRecord → Bool
unfolding last_attempt
counts_as_spent may p = purchase_has PurchaseStatus.completed p || has_last may (last_attempt p)

-- `spentInBatch`
unfoldable pub spent_in_batch : List Signature → Option BatchState → Sol
unfolding counts_as_spent
spent_in_batch may none = 0
spent_in_batch may (some b) = sum_map (λ p. p.sol_amount) (filter (counts_as_spent may) b.purchases)

-- `token.batchStateFiles ?? …`: the list of files wherever there is one, an empty one too.
abbrev pub resume_files : TokenBuyRecord → List StateFile
resume_files t = elim t.batch_state_files [
  | some files ↦ files
  | none ↦ elim t.batch_state_file [ none ↦ [] | some f ↦ f ∷ [] ]
]

abbrev pub is_closed_buy : BuyStatus → Bool
is_closed_buy BuyStatus.completed = true
is_closed_buy BuyStatus.failed = true
is_closed_buy _ = false

abbrev pub Asks : Type 0
Asks = Signature → Option ℕ → SignatureOutcome

-- It landed, or the chain cannot tell.
abbrev pub could_land : SignatureOutcome → Bool
could_land landed = true
could_land SignatureOutcome.unknown = true
could_land _ = false

abbrev pub landing : Asks → Option (Signature × Option ℕ) → List Signature
landing outcome none = []
landing outcome (some (s, limit)) = if could_land (outcome s limit) then s ∷ [] else []

unfoldable pub landing_of : Asks → PurchaseRecord → List Signature
unfolding last_attempt
landing_of outcome p =
    if purchase_has PurchaseStatus.completed p then [] else landing outcome (last_attempt p)

unfoldable pub landing_of_token : Asks → BatchLoader → TokenBuyRecord → List Signature
unfolding landing_of
landing_of_token outcome load t =
    if is_closed_buy t.status
    then []
    else flat_map (landing_of outcome) (all_purchases load (resume_files t))

-- `purchasesThatMayHaveLanded`
unfoldable pub purchases_that_may_have_landed : Asks → BatchLoader → LotteryState → List Signature
unfolding landing_of_token
purchases_that_may_have_landed outcome load state =
    dedup (flat_map (landing_of_token outcome load) state.token_buys)

pub record BuyPlanItem : Type 0 where
  pub mint : Mint
  pub sol_amount : Sol

pub record ResumePlan : Type 0 where
  pub buys : List BuyPlanItem
  pub settled : List Mint
  pub revived_sends : ℕ

module _ (load : BatchLoader) (may : List Signature) (now : Time) where
  unfoldable pub spent_of : TokenBuyRecord → Sol
  unfolding spent_in_batch
  spent_of t = sum_map (λ f. spent_in_batch may (load f)) (resume_files t)

  unfoldable pub note_spent : TokenBuyRecord → LotteryState → Result LotteryState
  unfolding update_token_buy spent_of
  note_spent t state =
      if ltb 0 (spent_of t)
      then update_token_buy t.mint (λ u. record u { spent_sol = some (spent_of t) }) now state
      else ok state

  -- Nothing is left to buy.
  unfoldable pub close_buy :
      TokenBuyRecord → ResumePlan → LotteryState → Result (ResumePlan × LotteryState)
  unfolding mark_token_buy_completed mark_token_buy_failed spent_of
  close_buy t plan state =
      if ltb 0 (spent_of t)
      then (mark_token_buy_completed t.mint (or_zero t.batch_run_id) (or_zero t.batch_state_file)
            now state
          >>= λ done. ok (record plan { settled = plan.settled ++ (t.mint ∷ []) }, done))
      else (mark_token_buy_failed t.mint (codes "Nothing bought before the restart") now state
          >>= λ done. ok (plan, done))

  unfoldable pub plan_open :
      TokenBuyRecord → ResumePlan → LotteryState → Result (ResumePlan × LotteryState)
  unfolding note_spent close_buy spent_of
  plan_open t plan state = note_spent t state >>= λ noted.
      let remaining = t.adjusted_sol_amount - spent_of t in
      if ltb remaining min_resume_sol
      then close_buy t plan noted
      else ok (
        record plan { buys = plan.buys ++ (record { mint = t.mint; sol_amount = remaining } ∷ []) },
        noted,
      )

  -- The loop over the coins.
  unfoldable pub plan_tokens :
      List TokenBuyRecord → ResumePlan → LotteryState → Result (ResumePlan × LotteryState)
  unfolding plan_open
  plan_tokens [] plan state = ok (plan, state)
  plan_tokens (t ∷ ts) plan state =
      (if is_closed_buy t.status then ok (plan, state) else plan_open t plan state) >>= λ r.
      plan_tokens ts r.0 r.1

  -- The loop over the deliveries.
  unfoldable pub revive_sends :
      List SendRecord → ResumePlan → LotteryState → Result (ResumePlan × LotteryState)
  unfolding update_send
  revive_sends [] plan state = ok (plan, state)
  revive_sends (s ∷ ss) plan state = elim (has_status SendStatus.in_progress s) [
    | false ↦ revive_sends ss plan state
    | true ↦ update_send s.id (λ r. record r { status = SendStatus.pending }) now state >>= λ done.
        revive_sends ss (record plan { revived_sends = plan.revived_sends + 1 }) done
  ]

  -- `planResume`
  unfoldable pub plan_resume : LotteryState → Result (ResumePlan × LotteryState)
  unfolding plan_tokens revive_sends
  plan_resume state =
      plan_tokens state.token_buys (record { buys = []; settled = []; revived_sends = 0 }) state
      >>= λ r. revive_sends r.1.sends r.0 r.1

-- `remainingWindowMinutes`
unfoldable pub remaining_window_minutes : LotteryState → Time → ℕ
remaining_window_minutes state now =
    let left = state.summary.started_at + state.config.buy_window_minutes * 60000 - now in
    max min_resume_window_minutes (nearest left 60000)

-- What `runBuyAndSend` is called with.
pub record ResumedRun : Type 0 where
  pub state : LotteryState
  pub plan : ResumePlan
  pub window_minutes : ℕ

-- `resumeLottery`, up to its call of `runBuyAndSend`
unfoldable pub resume_lottery :
    Asks → BatchLoader → Time → Option LotteryState → Result (Option ResumedRun)
unfolding plan_resume is_unfinished remaining_window_minutes
resume_lottery outcome load now none = ok none
resume_lottery outcome load now (some state) =
    if is_unfinished (some state)
    then (plan_resume load (purchases_that_may_have_landed outcome load state) now state >>= λ r.
        ok (
          some (record {
            state = r.1;
            plan = r.0;
            window_minutes = remaining_window_minutes r.1 now;
          })))
    else ok none
