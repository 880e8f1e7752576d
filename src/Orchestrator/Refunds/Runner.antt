-- ===== src/Orchestrator/Refunds/Runner.antt =====
-- offchain/orchestrator/refunds.ts, `refundUnspent`: the planned refunds are sent, eight in a
-- transaction, and a refund whose transaction may have gone out is looked up first. The node's and
-- the signer's answers are arguments, for the whole run.
pub mod Once
pub mod Whole
use pumpling.Base.{
  Bool, List, Option, Result, [], drop, err, false, filter, length, none, ok, out_of_fuel, some,
  suc, take, true, zero, ℕ, ◌+◌, ◌>>=◌, ◌>>◌, ◌∷◌,
}
use pumpling.Base.Text.{Text}
use pumpling.Orchestrator.RefundLedger.{RefundBasis}
use pumpling.Orchestrator.Refunds.{plan_refunds, refund_batch_size}
use pumpling.Orchestrator.State.{set_refunds, update_refund}
use pumpling.Orchestrator.Types.{LotteryState, Mint, RefundRecord, RefundStatus, Signature, Time}
use pumpling.Solana.SignatureOutcome.{SignatureOutcome, absent, landed, unknown}

-- How sending ended; an error may name the signature of what went out.
pub data RefundSend : Type 0 where
  sent : Signature → RefundSend
  refused : Text → Option Signature → RefundSend

pub record RefundEnv : Type 0 where
  pub outcome : Signature → Option ℕ → SignatureOutcome
  pub send : List RefundRecord → RefundSend
  pub now : Time

-- `checkSignature`: no block height limit is passed, and `none` says that it is not known.
abbrev landed_of : SignatureOutcome → Option Bool
landed_of landed = some true
landed_of unknown = none
landed_of absent = some false
landed_of SignatureOutcome.failed = some false

abbrev pub check_signature : RefundEnv → Signature → Option Bool
check_signature env signature = landed_of (env.outcome signature none)

abbrev pub close_refund : Signature → RefundRecord → RefundRecord
close_refund signature r = record r {
  status = RefundStatus.completed;
  signature = some signature;
  pending_signature = none;
}

abbrev pub start_refund : ℕ → RefundRecord → RefundRecord
start_refund attempts r = record r { status = RefundStatus.in_progress; attempts = attempts + 1 }

abbrev pub fail_refund : Text → Option Signature → RefundRecord → RefundRecord
fail_refund message signature r = record r {
  status = elim signature [ none ↦ RefundStatus.failed | some _ ↦ RefundStatus.in_progress ];
  pending_signature = signature;
  error_message = some message;
}

abbrev pub update_own :
    (RefundRecord → RefundRecord) → Time → RefundRecord → LotteryState → Result LotteryState
update_own change now r = update_refund r.mint r.recipient change now

-- The refunds that may be sent, and the state after the others were looked up.
pub record CheckedChunk : Type 0 where
  pub ready : List RefundRecord
  pub state : LotteryState

abbrev with_ready : RefundRecord → CheckedChunk → CheckedChunk
with_ready r c = record c { ready = r ∷ c.ready }

-- What is to be done with a refund: its earlier transaction landed, or may have, or nothing is out.
pub data Lookup : Type 0 where
  arrived : Signature → Lookup
  uncertain free : Lookup

abbrev lookup_of : Signature → Option Bool → Lookup
lookup_of s none = uncertain
lookup_of s (some true) = arrived s
lookup_of s (some false) = free

abbrev lookup_pending : RefundEnv → Option Signature → Lookup
lookup_pending env none = free
lookup_pending env (some s) = lookup_of s (check_signature env s)

abbrev pub look_up : RefundEnv → RefundRecord → Lookup
look_up env r = lookup_pending env r.pending_signature

abbrev pub apply_lookup : RefundEnv → RefundRecord → Lookup → LotteryState → Result LotteryState
apply_lookup env r (arrived s) state = update_own (close_refund s) env.now r state
apply_lookup env r uncertain state = ok state
apply_lookup env r free state = ok state

abbrev pub add_ready : RefundRecord → Lookup → CheckedChunk → CheckedChunk
add_ready r (arrived s) c = c
add_ready r uncertain c = c
add_ready r free c = record c { ready = r ∷ c.ready }

-- The first loop of `sendChunk`.
pub check_chunk : RefundEnv → List RefundRecord → LotteryState → Result CheckedChunk
check_chunk env [] state = ok (record { ready = []; state = state })
check_chunk env (r ∷ rs) state = do
  looked ← apply_lookup env r (look_up env r) state
  c ← check_chunk env rs looked
  ok (add_ready r (look_up env r) c)

-- `updateRefund` for each refund in turn.
pub update_each :
    (RefundRecord → RefundRecord → RefundRecord)
    → List RefundRecord
    → Time
    → LotteryState
    → Result LotteryState
update_each change [] now state = ok state
update_each change (r ∷ rs) now state = do
  one ← update_own (change r) now r state
  update_each change rs now one

abbrev pub outcome_change : RefundSend → RefundRecord → RefundRecord → RefundRecord
outcome_change (sent signature) _ = close_refund signature
outcome_change (refused message signature) _ = fail_refund message signature

-- A transaction that was handed over, and the state behind it.
pub record RefundCall : Type 0 where
  pub paid : List RefundRecord
  pub state : LotteryState

pub send_ready : RefundEnv → List RefundRecord → LotteryState → Result RefundCall
unfolding update_each
send_ready env [] state = ok (record { paid = []; state = state })
send_ready env (r ∷ rs) state = do
  started ← update_each (λ q. start_refund q.attempts) (r ∷ rs) env.now state
  done ← update_each (outcome_change (env.send (r ∷ rs))) (r ∷ rs) env.now started
  ok (record { paid = r ∷ rs; state = done })

-- `sendChunk`
unfoldable pub send_chunk : RefundEnv → List RefundRecord → LotteryState → Result RefundCall
unfolding check_chunk send_ready
send_chunk env chunk state = do c ← check_chunk env chunk state; send_ready env c.ready c.state

abbrev is_due : RefundRecord → Bool
is_due r = elim (r.status) [
  | RefundStatus.pending ↦ true
  | RefundStatus.in_progress ↦ true
  | _ ↦ false
]

-- The chunks of a list, one after the other; the fuel bounds how many there are.
pub send_chunks : ℕ → RefundEnv → List RefundRecord → LotteryState → Result LotteryState
unfolding send_chunk
send_chunks fuel env [] state = ok state
send_chunks zero env (r ∷ rs) state = err out_of_fuel
send_chunks (suc fuel) env (r ∷ rs) state = do
  call ← send_chunk env (take refund_batch_size (r ∷ rs)) state
  send_chunks fuel env (drop refund_batch_size (r ∷ rs)) call.state

-- The plan is made once, where there is none.
abbrev pub planned : List (Mint × RefundBasis) → Time → LotteryState → LotteryState
planned ledger now state = elim (state.refunds) [
  | [] ↦ set_refunds (plan_refunds state ledger now) state
  | _ ∷ _ ↦ state
]

-- `refundUnspent`; what it sums up of the records is left out.
unfoldable pub refund_unspent :
    RefundEnv → List (Mint × RefundBasis) → LotteryState → Result LotteryState
unfolding send_chunks
refund_unspent env ledger state =
    let ready = planned ledger env.now state in
    let due = filter is_due ready.refunds in send_chunks (length due) env due ready
