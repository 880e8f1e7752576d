-- ===== src/Scheduler/Batch.antt =====
-- offchain/scheduler/batch.ts: the helpers of `batchBuy`. What is outside answers by `Outside`,
-- from the number of calls that were made before. A run carries that number, and the log of the
-- transactions that were signed and of the answers about them, the last one first.
pub mod Failures
pub mod Main
pub mod Retry
pub mod Keeps
pub mod Steps
pub mod MainEnds
pub mod RetryEnds
pub mod Whole
pub mod NoDouble
pub mod Careful
pub mod OneAtATime
pub mod Bounds
use pumpling.Base.{
  Bool, List, Option, Result, [], false, if◌then◌else◌, leb, ltb, none, ok, some, suc, true, zero,
  ℕ, ◌*◌, ◌+◌, ◌-◌, ◌>>=◌, ◌>>◌, ◌∷◌,
}
use pumpling.Base.Text.{Text, codes, includes, lower}
use pumpling.Orchestrator.Types.{Signature, Sol, Time}
use pumpling.Scheduler.Errors.{matches_any}
use pumpling.Scheduler.Metrics.{increment_batch_metric}
use pumpling.Scheduler.State.{mark_completed, record_sent_attempt}
use pumpling.Scheduler.Types.{
  BatchMetric, BatchState, BuyVenue, pumpfun, pumpswap, retry_pending_tx_confirmed,
  routing_dex_direct, routing_fallback_to_dex, routing_fallback_to_pumpswap, routing_pumpfun_direct,
}
use pumpling.Solana.SignatureOutcome.{
  SignatureOutcome, StatusValue, absent, landed, signature_outcome, unknown,
}

-- An error of a purchase. `sent` is the signature of a `PostSendError`, with its limit.
pub record BuyError : Type 0 where
  pub message : Text
  pub venue : Option BuyVenue
  pub sent : Option (Signature × Option ℕ)

-- How a call of `buy` ends: the signature, the venue and whether it fell back, or the error.
pub data BuyEnd : Type 0 where
  bought : Signature → BuyVenue → Bool → BuyEnd
  threw : BuyError → BuyEnd

-- `signed` are the attempts that the call reports before they go out.
pub record Buying : Type 0 where
  pub signed : List (Signature × ℕ)
  pub ends : BuyEnd

pub record Outside : Type 0 where
  pub buy : ℕ → Sol → ℕ → Buying
  pub height : ℕ → Option ℕ
  pub status : ℕ → Signature → Option (Option StatusValue)
  pub balance : ℕ → Option Sol
  pub clock : ℕ → Time

pub data Event : Type 0 where
  called_buy : ℕ → BuyEnd → Event
  asked : Signature → SignatureOutcome → Event

pub record Run : Type 0 where
  pub state : BatchState
  pub calls : ℕ
  pub log : List Event

pub data PendingVerdict : Type 0 where
  has_landed : Signature → PendingVerdict
  clear : PendingVerdict
  in_flight : Signature → PendingVerdict

abbrev pub in_flight_polls : ℕ
in_flight_polls = 24

abbrev pub max_expiry_resigns : ℕ
max_expiry_resigns = 2

abbrev ata_fee_sol : Sol
ata_fee_sol = 2040000

abbrev buy_tx_fee_sol : Sol
buy_tx_fee_sol = 5000 + 100000

abbrev pub min_purchase_sol : Sol
min_purchase_sol = 1000000

-- `keeperFloorSol`
abbrev pub keeper_floor_sol : Bool → Sol
keeper_floor_sol needs_ata = (if needs_ata then ata_fee_sol else 0) + 2 * buy_tx_fee_sol

-- `resolveSpendableAmount`, from the balance, `none` where it could not be read.
unfoldable pub resolve_spendable_amount : Option Sol → Sol → Bool → Option Sol
resolve_spendable_amount none scheduled needs_ata = some scheduled
resolve_spendable_amount (some balance) scheduled needs_ata =
    if leb (scheduled + keeper_floor_sol needs_ata) balance
    then some scheduled
    else if ltb balance (min_purchase_sol + keeper_floor_sol needs_ata)
    then none
    else some (balance - keeper_floor_sol needs_ata)

abbrev expired_patterns : Text
expired_patterns = codes "block height exceeded"

-- `isBlockhashExpiry`: the signature and the limit of an error that says so.
unfoldable pub is_blockhash_expiry : BuyError → Option (Signature × ℕ)
is_blockhash_expiry e = elim e.sent [
  | none ↦ none
  | some sent ↦ elim sent.1 [
    | none ↦ none
    | some limit ↦
        if includes expired_patterns (lower e.message) then some (sent.0, limit) else none
  ]
]

abbrev funds_patterns : List Text
funds_patterns =
    codes "insufficient lamports" ∷ codes "insufficient funds" ∷ codes "Insufficient funds" ∷ []

-- `isInsufficientFunds`
unfoldable pub is_insufficient_funds : BuyError → Bool
is_insufficient_funds e = matches_any funds_patterns e.message

abbrev pub count : BatchMetric → Run → Run
count key run = record run { state = increment_batch_metric key run.state }

abbrev pub with_event : Event → Run → Run
with_event event run = record run { calls = run.calls + 1; log = event ∷ run.log }

-- `recordVenueRouting`
abbrev routing_metric : BuyVenue → Bool → BatchMetric
routing_metric pumpswap true = routing_fallback_to_pumpswap
routing_metric _ true = routing_fallback_to_dex
routing_metric pumpfun false = routing_pumpfun_direct
routing_metric _ false = routing_dex_direct

unfoldable pub record_venue_routing : BuyVenue → Bool → Run → Run
unfolding increment_batch_metric
record_venue_routing venue fallback = count (routing_metric venue fallback)

abbrev or_pumpfun : Option BuyVenue → BuyVenue
or_pumpfun none = pumpfun
or_pumpfun (some venue) = venue

-- What a purchase has come to: it is settled, the keeper is empty, or it failed with this error.
pub data Progress : Type 0 where
  settled drained : Progress
  failing : BuyError → Progress

module _ (outside : Outside) where
  -- A change of the state, at the time of the call.
  abbrev pub write : (Time → BatchState → Result BatchState) → Run → Result Run
  write change run = change (outside.clock run.calls) run.state >>= λ state.
      ok (record run { state = state; calls = run.calls + 1 })

  abbrev pub verdict_of : SignatureOutcome → Signature → Option ℕ → PendingVerdict → PendingVerdict
  verdict_of landed signature limit later = has_landed signature
  verdict_of absent signature limit later = clear
  verdict_of SignatureOutcome.failed signature limit later = clear
  verdict_of SignatureOutcome.unknown signature none later = clear
  verdict_of SignatureOutcome.unknown signature (some l) later = later

  abbrev pub ask : Signature → Option ℕ → Run → SignatureOutcome
  ask signature limit run =
      signature_outcome limit (outside.height run.calls) (outside.status run.calls signature)

  abbrev pub by_verdict : PendingVerdict → Run → PendingVerdict × Run → PendingVerdict × Run
  by_verdict (has_landed s) run later = (has_landed s, run)
  by_verdict clear run later = (clear, run)
  by_verdict (in_flight s) run later = later

  -- `signatureVerdict`: asks again, so many times, while the transaction may still land.
  unfoldable pub signature_verdict : ℕ → Signature → Option ℕ → Run → PendingVerdict × Run
  unfolding signature_outcome
  signature_verdict zero signature limit run =
      let outcome = ask signature limit run in
      let after_one = with_event (asked signature outcome) run in
      by_verdict (verdict_of outcome signature limit (in_flight signature)) after_one
        (in_flight signature, after_one)
  signature_verdict (suc polls) signature limit run =
      let outcome = ask signature limit run in
      let after_one = with_event (asked signature outcome) run in
      by_verdict (verdict_of outcome signature limit (in_flight signature)) after_one
        (signature_verdict polls signature limit after_one)

  -- `pendingVerdict`
  unfoldable pub pending_verdict : ℕ → BuyError → Run → PendingVerdict × Run
  unfolding signature_verdict
  pending_verdict polls e run = elim e.sent [
    | none ↦ (clear, run)
    | some sent ↦ signature_verdict polls sent.0 sent.1 run
  ]

  -- `onSigned`, for each attempt.
  unfoldable pub record_all : ℕ → List (Signature × ℕ) → Run → Result Run
  unfolding record_sent_attempt
  record_all index [] run = ok run
  record_all index (signed ∷ rest) run =
      write (record_sent_attempt index signed.0 signed.1) run >>= record_all index rest

  -- `buy` with the attempt recorder.
  unfoldable pub call_buy : ℕ → Sol → ℕ → Run → Result (BuyEnd × Run)
  unfolding record_all
  call_buy index amount slippage run =
      let buying = outside.buy run.calls amount slippage in
      record_all index buying.signed (with_event (called_buy index buying.ends) run) >>= λ written.
      ok (buying.ends, written)

  -- `markCompleted` and `recordVenueRouting`
  unfoldable pub complete : ℕ → Signature → BuyVenue → Bool → Run → Result Run
  unfolding mark_completed record_venue_routing
  complete index signature venue fallback run =
      write (mark_completed index signature (some venue)) run >>= λ done.
      ok (record_venue_routing venue fallback done)

  -- What follows a transaction that landed after all.
  unfoldable pub confirm_pending : ℕ → Signature → BuyError → Run → Result Run
  unfolding complete increment_batch_metric
  confirm_pending index signature e run =
      complete index signature (or_pumpfun e.venue) false run >>= λ done.
      ok (count retry_pending_tx_confirmed done)

  unfoldable pub confirm_landed : ℕ → BuyError → PendingVerdict × Run → Result (Progress × Run)
  unfolding confirm_pending
  confirm_landed index e (has_landed signature, run) =
      confirm_pending index signature e run >>= λ done. ok (settled, done)
  confirm_landed index e (clear, run) = ok (failing e, run)
  confirm_landed index e (in_flight signature, run) = ok (failing e, run)

  -- `tryConfirmPending`, which asks once.
  unfoldable pub try_confirm_pending : ℕ → BuyError → Run → Result (Progress × Run)
  unfolding pending_verdict confirm_pending confirm_landed
  try_confirm_pending index e run = confirm_landed index e (pending_verdict 0 e run)
