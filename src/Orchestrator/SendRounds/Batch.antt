-- ===== src/Orchestrator/SendRounds/Batch.antt =====
-- offchain/orchestrator/sendRounds.ts: `sendBatch`, which sends up to five deliveries in one
-- transaction, halves a batch that does not fit, and records how it ended. How an attempt ends is
-- an argument: a function of the deliveries that it carries.
pub mod Steps
pub mod Ends
use pumpling.Base.{
  Bool, List, Option, Result, [], drop, err, false, filter, find?, get_elem?, has, if◌then◌else◌,
  leb, length, ltb, none, not, ok, out_of_fuel, some, suc, take, true, zero, ℕ, ◌&&◌, ◌++◌, ◌+◌,
  ◌/◌, ◌==◌, ◌>>=◌, ◌>>◌, ◌∷◌,
}
use pumpling.Base.Text.{Text, codes}
use pumpling.Orchestrator.State.{increment_metric, is_send, lookup, or_zero, update_send}
use pumpling.Orchestrator.Types.{
  LotteryState, Metric, SendRecord, SendStatus, Signature, Time, send_compute_limit_split,
  send_max_attempts_abandon, send_non_retryable_abandon, send_retryable_to_pending,
  sweep_send_completed, sweep_send_failed,
}
use pumpling.Scheduler.Errors.{ErrorClass, classify_error, matches_any, non_retryable}
use pumpling.Scheduler.Types.{BuyVenue}

-- How the building, signing and sending of one transaction ended.
pub data Attempt : Type 0 where
  unsigned : Text → Option BuyVenue → Attempt
  unconfirmed : Signature → ℕ → Text → Option BuyVenue → Option (Signature × Option ℕ) → Attempt
  confirmed : Signature → ℕ → Signature → List ℕ → Attempt

pub record BatchEnv : Type 0 where
  pub attempt : List ℕ → Attempt
  pub amounts : List (ℕ × ℕ)
  pub skip_unknown : List ℕ
  pub is_sweep : Bool
  pub now : Time

abbrev pub max_send_attempts : ℕ
max_send_attempts = 3

abbrev too_large_patterns : List Text
too_large_patterns =
    codes "ComputeBudget"
    ∷ codes "compute units exceeded"
    ∷ codes "Compute units exceeded"
    ∷ codes "exceeded CUs"
    ∷ codes "Transaction too large"
    ∷ codes "encoding overruns"
    ∷ []

-- `isBatchTooLargeError`
pub is_batch_too_large_error : Text → Bool
is_batch_too_large_error = matches_any too_large_patterns

-- `updateSend` for each delivery in turn.
pub for_each : List ℕ → (ℕ → SendRecord → SendRecord) → Time → LotteryState → Result LotteryState
for_each [] change now state = ok state
for_each (id ∷ ids) change now state = do
  after_one ← update_send id (change id) now state
  for_each ids change now after_one

abbrev pub start_send : List (ℕ × ℕ) → ℕ → SendRecord → SendRecord
start_send amounts id s = record s {
  status = SendStatus.in_progress;
  amount = some (or_zero (lookup id amounts));
}

abbrev pub sign_send : Signature → ℕ → ℕ → SendRecord → SendRecord
sign_send signature height id s = record s {
  pending_signature = some signature;
  pending_last_valid_block_height = some height;
}

abbrev pub finish_send : Signature → ℕ → ℕ → SendRecord → SendRecord
finish_send signature delivered gross s = record s {
  status = SendStatus.completed;
  signature = some signature;
  pending_signature = none;
  pending_last_valid_block_height = none;
  amount = some delivered;
  gross_amount = some gross;
  attempts = s.attempts + 1;
}

-- What arrived is recorded for each delivery, in the order of the batch.
pub finish_all :
    List (ℕ × ℕ) → Signature → List ℕ → List ℕ → Time → LotteryState → Result LotteryState
finish_all amounts signature [] delivered now state = ok state
finish_all amounts signature (id ∷ ids) delivered now state = do
  after_one ←
      update_send id
        (finish_send signature (or_zero (get_elem? delivered 0)) (or_zero (lookup id amounts))) now
        state
  finish_all amounts signature ids (drop 1 delivered) now after_one

abbrev pub split_send : Option Signature → ℕ → SendRecord → SendRecord
split_send tried id s = record s {
  failed_signatures = elim tried [
    | none ↦ s.failed_signatures
    | some t ↦ s.failed_signatures ++ (t ∷ [])
  ];
  pending_signature = none;
  pending_last_valid_block_height = none;
}

abbrev pub abandon_send : Text → ℕ → SendRecord → SendRecord
abandon_send message id s = record s {
  status = SendStatus.abandoned;
  error_message = some message;
  attempts = s.attempts + 1;
}

-- The signature that may still land: the one the error names, or the one on the first record.
abbrev pub requeue_send : Text → Option Signature → Option ℕ → ℕ → SendRecord → SendRecord
requeue_send message signature height id s = record s {
  status =
      if leb max_send_attempts (s.attempts + 1) then SendStatus.abandoned else SendStatus.pending;
  error_message = some message;
  attempts = s.attempts + 1;
  pending_signature = signature;
  pending_last_valid_block_height = height;
}

abbrev first_pending : List ℕ → LotteryState → Option Signature × Option ℕ
first_pending [] state = (none, none)
first_pending (id ∷ ids) state = elim (find? (is_send id) state.sends) [
  | none ↦ (none, none)
  | some s ↦ (s.pending_signature, s.pending_last_valid_block_height)
]

abbrev pub may_land :
    Option (Signature × Option ℕ) → List ℕ → LotteryState → Option Signature × Option ℕ
may_land none ids state = first_pending ids state
may_land (some (signature, height)) ids state = (some signature, height)

abbrev count_requeued : ℕ → LotteryState → Metric
count_requeued id state = elim (find? (is_send id) state.sends) [
  | none ↦ send_retryable_to_pending
  | some s ↦
      if leb max_send_attempts (s.attempts + 1)
      then send_max_attempts_abandon
      else send_retryable_to_pending
]

-- Back into the queue, or abandoned after the last attempt; each is counted.
pub requeue_all :
    List ℕ → Text → Option Signature → Option ℕ → Time → LotteryState → Result LotteryState
requeue_all [] message signature height now state = ok state
requeue_all (id ∷ ids) message signature height now state = do
  after_one ← update_send id (requeue_send message signature height id) now state
  requeue_all ids message signature height now
      (increment_metric (count_requeued id state) 1 after_one)

pub abandon_all : List ℕ → Text → Time → LotteryState → Result LotteryState
abandon_all [] message now state = ok state
abandon_all (id ∷ ids) message now state = do
  after_one ← update_send id (abandon_send message id) now state
  abandon_all ids message now (increment_metric send_non_retryable_abandon 1 after_one)

abbrev count_failed : Bool → List ℕ → LotteryState → LotteryState
count_failed false ids state = state
count_failed true ids state = increment_metric sweep_send_failed (length ids) state

-- The rest of the `catch`, for a batch that is not halved.
pub fail_all :
    BatchEnv
    → List ℕ
    → Text
    → ErrorClass
    → Option (Signature × Option ℕ)
    → LotteryState
    → Result LotteryState
unfolding requeue_all abandon_all
fail_all env ids message non_retryable named state = abandon_all ids message env.now state
fail_all env ids message _ named state = do
  let keep = may_land named ids state
  done ← requeue_all ids message keep.0 keep.1 env.now state
  ok (count_failed env.is_sweep ids done)

abbrev named_signature : Option (Signature × Option ℕ) → Option Signature
named_signature none = none
named_signature (some (signature, height)) = some signature

abbrev pub fresh_ids : List ℕ → List ℕ → List ℕ
fresh_ids skip = filter (λ id. not (has id skip))

-- `Math.ceil(entries.length / 2)`
abbrev pub middle : List ℕ → ℕ
middle ids = (length ids + 1) / 2

-- The call of itself, on a part of the batch.
abbrev pub Again : Type 0
Again = List ℕ → LotteryState → Result LotteryState

abbrev pub halves :
    Again → BatchEnv → List ℕ → Option Signature → LotteryState → Result LotteryState
halves again env ids tried state = for_each ids (split_send tried) env.now state >>= λ marked.
    again (take (middle ids) ids) (increment_metric send_compute_limit_split 1 marked) >>= λ left.
    again (drop (middle ids) ids) left

-- The `catch`: a batch that does not fit is halved.
abbrev pub fail_batch :
    Again
    → BatchEnv
    → List ℕ
    → Text
    → Option BuyVenue
    → Option (Signature × Option ℕ)
    → LotteryState
    → Result LotteryState
fail_batch again env ids message venue named state =
    if is_batch_too_large_error message && ltb 1 (length ids)
    then halves again env ids (named_signature named) state
    else fail_all env ids message (classify_error message venue).0 named state

abbrev count_sent : Bool → List ℕ → LotteryState → LotteryState
count_sent false ids state = state
count_sent true ids state = increment_metric sweep_send_completed (length ids) state

-- What follows the attempt, from how it ended.
abbrev pub end_attempt : Again → BatchEnv → List ℕ → Attempt → LotteryState → Result LotteryState
end_attempt again env ids (unsigned message venue) state =
    fail_batch again env ids message venue none state
end_attempt again env ids (unconfirmed signature height message venue named) state =
    for_each ids (sign_send signature height) env.now state >>= λ written.
    fail_batch again env ids message venue named written
end_attempt again env ids (confirmed signed height signature delivered) state =
    for_each ids (sign_send signed height) env.now state >>= λ written.
    finish_all env.amounts signature ids delivered env.now written >>= λ done.
    ok (count_sent env.is_sweep ids done)

-- `sendBatch`; the fuel bounds how often a batch is halved.
unfoldable pub send_batch : ℕ → BatchEnv → List ℕ → LotteryState → Result LotteryState
unfolding for_each finish_all fail_all is_batch_too_large_error
send_batch zero env entries state = err out_of_fuel
send_batch (suc fuel) env entries state =
    let ids = fresh_ids env.skip_unknown entries in
    if length ids == 0
    then ok state
    else for_each ids (start_send env.amounts) env.now state >>= λ started.
        end_attempt (send_batch fuel env) env ids (env.attempt ids) started
