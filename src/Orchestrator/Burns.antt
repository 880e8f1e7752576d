-- ===== src/Orchestrator/Burns.antt =====
-- offchain/orchestrator/burns.ts: burning the share of a coin that its backers asked to have
-- destroyed. What the node and the signer answer in one call of `burnDueFor` is its argument.
pub mod Ids
pub mod Honesty
pub mod Writes
pub mod Settle
pub mod Safety
pub mod NeverOver
pub mod Rounds
use pumpling.Base.{
  Bool, List, Option, Result, [], false, filter, find?, if◌then◌else◌, leb, length, ltb, none, not,
  ok, some, true, ℕ, ◌&&◌, ◌+◌, ◌-◌, ◌==◌, ◌>>=◌, ◌>>◌, ◌∷◌,
}
use pumpling.Base.Text.{Text, codes}
use pumpling.Orchestrator.ProgramErrors.{liftable_errors, match_error, structural_errors}
use pumpling.Orchestrator.PurchaseTokens.{BatchLoader, tokens_bought}
use pumpling.Orchestrator.Shares.{burn_owed, shares_of}
use pumpling.Orchestrator.State.{
  add_burn, add_burned, is_mint, or_zero, update_burn, update_token_buy,
}
use pumpling.Orchestrator.Types.{
  BurnBlocked, BurnRecord, BurnStatus, LotteryState, Mint, Signature, Time, TokenBuyRecord,
}
use pumpling.Solana.SignatureOutcome.{SignatureOutcome, absent, landed, unknown}

pub data BurnResult : Type 0 where
  burned nothing waiting blocked failed : BurnResult

-- How `send` ended; an error may be a `PostSendError` that names a signature.
pub data SendOutcome : Type 0 where
  sent : Signature → SendOutcome
  refused : Text → Option Signature → SendOutcome

pub record SignedBurn : Type 0 where
  pub signature : Signature
  pub last_valid_block_height : Option ℕ
  pub send : SendOutcome

-- The answers that one call gets; `none` where the call throws, or where the balance is `null`.
pub record BurnEnv : Type 0 where
  pub outcome : Signature → Option ℕ → SignatureOutcome
  pub load_batch : BatchLoader
  pub mint_readable : Bool
  pub token_balance : Option ℕ
  pub sign_burn : Option SignedBurn
  pub now : Time

-- A burn transaction that was handed to the network.
pub record SentBurn : Type 0 where
  pub signature : Signature
  pub mint : Mint
  pub raw : ℕ

pub record BurnCall : Type 0 where
  pub result : BurnResult
  pub state : LotteryState
  pub sent_burns : List SentBurn

abbrev pub is_open : Mint → BurnRecord → Bool
is_open mint b = b.mint == mint && elim (b.status) [ BurnStatus.in_progress ↦ true | _ ↦ false ]

abbrev fail_burn : Text → BurnRecord → BurnRecord
fail_burn message b = record b { status = BurnStatus.failed; error_message = some message }

abbrev complete_burn : Signature → BurnRecord → BurnRecord
complete_burn signature b = record b {
  status = BurnStatus.completed;
  signature = some signature;
  pending_signature = none;
  pending_last_valid_block_height = none;
}

-- What the verdict on a burn's signature does; `false` where the coin must wait.
settle_verdict :
    Mint
    → Time
    → BurnRecord
    → Signature
    → SignatureOutcome
    → LotteryState
    → Result (Bool × LotteryState)
settle_verdict mint now b s landed state = do
  done ← update_burn b.id (complete_burn s) now state
  counted ← add_burned mint b.raw_amount now done
  ok (true, counted)
settle_verdict mint now b s absent state = do
  done ← update_burn b.id (fail_burn (codes "never landed")) now state
  ok (true, done)
settle_verdict mint now b s SignatureOutcome.failed state = do
  done ← update_burn b.id (fail_burn (codes "failed on chain")) now state
  ok (true, done)
settle_verdict mint now b s unknown state = ok (false, state)

settle_one : BurnEnv → Mint → BurnRecord → LotteryState → Result (Bool × LotteryState)
unfolding settle_verdict
settle_one env mint b state = elim (b.pending_signature) [
  | none ↦ do
    done ← update_burn b.id (fail_burn (codes "never signed")) env.now state
    ok (true, done)
  | some s ↦ settle_verdict mint env.now b s (env.outcome s b.pending_last_valid_block_height) state
]

-- The loop of `settlePending` over the records that were open when it began.
unfoldable pub settle_open :
    BurnEnv → Mint → List BurnRecord → LotteryState → Result (Bool × LotteryState)
unfolding settle_one
settle_open env mint [] state = ok (true, state)
settle_open env mint (b ∷ bs) state = settle_one env mint b state >>= λ r.
    if r.0 then settle_open env mint bs r.1 else ok (false, r.1)

-- `settlePending`
unfoldable pub settle_pending : BurnEnv → Mint → LotteryState → Result (Bool × LotteryState)
unfolding settle_open
settle_pending env mint state = settle_open env mint (filter (is_open mint) state.burns) state

abbrev no_burn : BurnResult → LotteryState → Result BurnCall
no_burn r state = ok (record { result = r; state = state; sent_burns = [] })

-- The record written before the transaction is sent.
abbrev pub new_burn : Mint → ℕ → SignedBurn → Time → LotteryState → BurnRecord
new_burn mint due signed now state = record {
  id = length state.burns + 1;
  mint = mint;
  raw_amount = due;
  status = BurnStatus.in_progress;
  signature = none;
  pending_signature = some signed.signature;
  pending_last_valid_block_height = signed.last_valid_block_height;
  attempts = 1;
  error_message = none;
  created_at = now;
  updated_at = now;
}

abbrev pub refuse_burn : Text → BurnRecord → BurnRecord
refuse_burn message b = record b {
  status = BurnStatus.failed;
  pending_signature = none;
  pending_last_valid_block_height = none;
  error_message = some message;
}

abbrev pub keep_signature : Signature → Text → BurnRecord → BurnRecord
keep_signature s message b = record b { pending_signature = some s; error_message = some message }

abbrev pub or_else {ℓ} : {A : Type ℓ} → Option A → A → A
or_else none d = d
or_else (some a) d = a

-- After the send: the record is closed, counted, refused, or kept to be looked up.
abbrev pub block_mint : Mint → Text → Time → LotteryState → Result LotteryState
block_mint mint reason now =
    update_token_buy mint
      (λ t. record t { burn_blocked = some (record { reason = reason; at = now }) }) now

-- A refusal that the mint's authority could lift blocks the coin only in the settlement.
block_if : Bool → Mint → Text → Time → LotteryState → Result (BurnResult × LotteryState)
block_if false mint reason now state = ok (BurnResult.failed, state)
block_if true mint reason now state = do
  blocked_state ← block_mint mint reason now state
  ok (blocked, blocked_state)

-- The `catch` of the send, by what the message was matched with.
handle_error :
    Bool
    → Mint
    → ℕ
    → Signature
    → Text
    → Option Signature
    → Option Text
    → Option Text
    → Time
    → LotteryState
    → Result (BurnResult × LotteryState)
unfolding block_if
handle_error final mint id signed message named none none now state = do
  kept ← update_burn id (keep_signature (or_else named signed) message) now state
  ok (waiting, kept)
handle_error final mint id signed message named (some reason) liftable now state = do
  marked ← update_burn id (refuse_burn message) now state
  block_if true mint reason now marked
handle_error final mint id signed message named none (some reason) now state = do
  marked ← update_burn id (refuse_burn message) now state
  block_if final mint reason now marked

after_send :
    Bool
    → Mint
    → ℕ
    → ℕ
    → Signature
    → SendOutcome
    → Time
    → LotteryState
    → Result (BurnResult × LotteryState)
unfolding handle_error
after_send final mint id due signed (sent s) now state = do
  done ← update_burn id (complete_burn s) now state
  counted ← add_burned mint due now done
  ok (burned, counted)
after_send final mint id due signed (refused message named) now state =
    handle_error final mint id signed message named (match_error message structural_errors)
      (match_error message liftable_errors) now state

pub send_burn : Bool → Mint → ℕ → SignedBurn → Time → LotteryState → Result BurnCall
unfolding after_send add_burn
send_burn final mint due signed now state =
    after_send final mint (length state.burns + 1) due signed.signature signed.send now
      (add_burn (new_burn mint due signed now state) state)
    >>= λ r. ok (record {
      result = r.0;
      state = r.1;
      sent_burns = record { signature = signed.signature; mint = mint; raw = due } ∷ [];
    })

-- The balance is a ceiling.
abbrev pub capped : ℕ → Option ℕ → ℕ
capped due none = due
capped due (some balance) = if ltb balance due then balance else due

abbrev pub burned_of : Option TokenBuyRecord → ℕ
burned_of none = 0
burned_of (some t) = or_zero t.burned_raw

-- Raw units burned for a coin so far.
abbrev pub burned_so_far : Mint → LotteryState → ℕ
burned_so_far mint state = burned_of (find? (is_mint mint) state.token_buys)

-- Signing, and what follows; a burn that cannot be signed waits.
sign_and_send : BurnEnv → Bool → Mint → ℕ → LotteryState → Result BurnCall
unfolding send_burn
sign_and_send env final mint due state = elim (env.sign_burn) [
  | none ↦ no_burn waiting state
  | some signed ↦ send_burn final mint due signed env.now state
]

-- What the coin owes, less what was burned.
burn_due : BurnEnv → Bool → Mint → ℕ → LotteryState → Result BurnCall
unfolding sign_and_send
burn_due env final mint owed state =
    let due = capped (owed - burned_so_far mint state) env.token_balance in
    if leb owed (burned_so_far mint state)
    then no_burn nothing state
    else if not env.mint_readable
    then no_burn waiting state
    else if due == 0
    then no_burn waiting state
    else sign_and_send env final mint due state

-- A coin that is not blocked: its open burns are settled, and then it burns what it owes.
burn_unless_blocked : Option BurnBlocked → BurnEnv → Bool → Mint → LotteryState → Result BurnCall
unfolding burn_due settle_pending
burn_unless_blocked (some _) env final mint state = no_burn blocked state
burn_unless_blocked none env final mint state = settle_pending env mint state >>= λ r.
    if r.0
    then burn_due env final mint
        (burn_owed (tokens_bought r.1 mint env.load_batch).known (shares_of state mint)) r.1
    else no_burn waiting r.1

burn_token : Option TokenBuyRecord → BurnEnv → Bool → Mint → LotteryState → Result BurnCall
unfolding burn_unless_blocked
burn_token none env final mint state = no_burn nothing state
burn_token (some t) env final mint state = burn_unless_blocked t.burn_blocked env final mint state

-- `burnDueFor`
unfoldable pub burn_due_for : BurnEnv → Bool → Mint → LotteryState → Result BurnCall
unfolding burn_token
burn_due_for env final mint state =
    burn_token (find? (is_mint mint) state.token_buys) env final mint state
