-- ===== src/Orchestrator/State.antt =====
-- offchain/orchestrator/state.ts: `OrchestratorStateManager`, the operations on a round's state.
-- Each operation writes the file after its change, so the file holds the state that the operation
-- returns; `Date.now()` is the argument `now`. A lookup that throws is an `err`.
pub mod Summary
use pumpling.Base.{
  Bool, List, Option, Result, Thrown, [], any, ap, burn_not_found, err, false, filter, find?,
  if◌then◌else◌, length, none, ok, refund_not_found, send_not_found, some, token_buy_not_found,
  true, update, update_first, update_first-found, ℕ, ◌&&◌, ◌++◌, ◌+◌, ◌==◌, ◌>>=◌, ◌>>◌, ◌∷◌, ◌≡◌,
}
use pumpling.Base.Text.{Text}
use pumpling.Orchestrator.Metrics.{bump, create_empty_lottery_metrics}
use pumpling.Orchestrator.Types.{
  BurnRecord, BuyStatus, LotteryState, Metric, Mint, RefundRecord, SendRecord, SendStatus,
  Signature, Sol, StateFile, Time, TokenBuyRecord, Wallet, abandoned, ata_mismatch, completed,
  failed, in_progress, pending, satisfied,
}

-- `Object.assign(record, update, ...)` on the first record that fits, or the exception.
abbrev pub assign {ℓ} : {A : Type ℓ} → (A → Bool) → (A → A) → Thrown → List A → Result (List A)
assign p f missing xs = elim (update_first p f xs) [ none ↦ err missing | some ys ↦ ok ys ]

pub assign-found {ℓ} :
    {A : Type ℓ} (p : A → Bool) (f : A → A) (missing : Thrown) (xs : List A) (x : A)
    → find? p xs ≡ some x
    → assign p f missing xs ≡ ok (update p f xs)
assign-found p f missing xs x found =
    ap (λ o. elim o [ none ↦ err missing | some ys ↦ ok ys ]) (update_first-found p f xs x found)

abbrev pub is_mint : Mint → TokenBuyRecord → Bool
is_mint mint t = t.mint == mint

abbrev pub count_where {ℓ} : {A : Type ℓ} → (A → Bool) → List A → ℕ
count_where p xs = length (filter p xs)

abbrev pub bought_ok : TokenBuyRecord → Bool
bought_ok t = elim t.status [ BuyStatus.completed ↦ true | _ ↦ false ]

abbrev pub bought_failed : TokenBuyRecord → Bool
bought_failed t = elim t.status [ BuyStatus.failed ↦ true | _ ↦ false ]

abbrev pub send_code : SendStatus → ℕ
send_code SendStatus.pending = 0
send_code SendStatus.in_progress = 1
send_code SendStatus.completed = 2
send_code SendStatus.satisfied = 3
send_code SendStatus.failed = 4
send_code SendStatus.abandoned = 5
send_code SendStatus.ata_mismatch = 6

abbrev pub has_status : SendStatus → SendRecord → Bool
has_status status s = send_code s.status == send_code status

-- `updateSummary`
unfoldable pub update_summary : LotteryState → LotteryState
update_summary state = record state {
  summary = record (state.summary) {
    tokens_bought = count_where bought_ok state.token_buys;
    tokens_failed = count_where bought_failed state.token_buys;
    sends_total = length state.sends;
    sends_completed = count_where (has_status SendStatus.completed) state.sends;
    sends_satisfied = count_where (has_status SendStatus.satisfied) state.sends;
    sends_abandoned = count_where (has_status SendStatus.abandoned) state.sends;
    sends_ata_mismatch = count_where (has_status SendStatus.ata_mismatch) state.sends;
  };
}

-- `updateTokenBuy`: the change may not touch the mint or the adjusted amount.
unfoldable pub update_token_buy :
    Mint → (TokenBuyRecord → TokenBuyRecord) → Time → LotteryState → Result LotteryState
unfolding update_summary
update_token_buy mint change now state = do
  buys ←
      assign (is_mint mint) (λ t. record (change t) { updated_at = now }) token_buy_not_found
        state.token_buys
  ok (update_summary (record state { token_buys = buys }))

-- `markTokenBuyCompleted`
unfoldable pub mark_token_buy_completed :
    Mint → ℕ → StateFile → Time → LotteryState → Result LotteryState
mark_token_buy_completed mint run file = update_token_buy mint (λ t. record t {
  status = BuyStatus.completed;
  batch_run_id = some run;
  batch_state_file = some file;
})

-- `getTokenBuy`
unfoldable pub get_token_buy : Mint → LotteryState → Option TokenBuyRecord
get_token_buy mint state = find? (is_mint mint) state.token_buys

abbrev pub or_zero : Option ℕ → ℕ
or_zero none = 0
or_zero (some n) = n

-- `files.includes(f)`, or `push`
abbrev add_file : StateFile → List StateFile → List StateFile
add_file file files = if any (λ f. f == file) files then files else files ++ (file ∷ [])

abbrev given_files : Option (List StateFile) → List StateFile
given_files none = []
given_files (some files) = files

-- `startTokenBuy`
unfoldable pub start_token_buy : Mint → StateFile → Time → LotteryState → Result LotteryState
start_token_buy mint file = update_token_buy mint (λ t. record t {
  status = BuyStatus.in_progress;
  batch_state_file = some file;
  batch_state_files = some (add_file file (given_files t.batch_state_files));
  attempts = some (or_zero t.attempts + 1);
})

-- `addTokenBuySpent`: lamports are whole, so the rounding to nine places changes nothing.
unfoldable pub add_token_buy_spent : Mint → Sol → Time → LotteryState → Result LotteryState
add_token_buy_spent mint spent =
    update_token_buy mint (λ t. record t { spent_sol = some (or_zero t.spent_sol + spent) })

-- `markTokenBuyFailed`
unfoldable pub mark_token_buy_failed : Mint → Text → Time → LotteryState → Result LotteryState
mark_token_buy_failed mint message =
    update_token_buy mint
      (λ t. record t { status = BuyStatus.failed; error_message = some message })

-- `setRefunds`: a plan that is there is not overwritten.
unfoldable pub set_refunds : List RefundRecord → LotteryState → LotteryState
set_refunds plan state = elim (state.refunds) [
  | [] ↦ record state { refunds = plan }
  | _ ∷ _ ↦ state
]

abbrev pub is_refund : Mint → Wallet → RefundRecord → Bool
is_refund mint wallet r = r.mint == mint && r.recipient == wallet

-- `updateRefund`
unfoldable pub update_refund :
    Mint → Wallet → (RefundRecord → RefundRecord) → Time → LotteryState → Result LotteryState
update_refund mint wallet change now state = do
  refunds ←
      assign (is_refund mint wallet) (λ r. record (change r) { updated_at = now }) refund_not_found
        state.refunds
  ok (record state { refunds = refunds })

abbrev pub lookup : Signature → List (Signature × ℕ) → Option ℕ
lookup s [] = none
lookup s ((t, v) ∷ m) = if t == s then some v else lookup s m

-- `recordPurchaseTokens`: never overwrites a known one.
unfoldable pub record_purchase_tokens : List (Signature × ℕ) → LotteryState → LotteryState
record_purchase_tokens [] state = state
record_purchase_tokens ((s, raw) ∷ rest) state = record_purchase_tokens rest (record state {
  purchase_tokens = elim (lookup s state.purchase_tokens) [
    | none ↦ state.purchase_tokens ++ ((s, raw) ∷ [])
    | some _ ↦ state.purchase_tokens
  ];
})

-- `addBurn`
unfoldable pub add_burn : BurnRecord → LotteryState → LotteryState
add_burn burn state = record state { burns = state.burns ++ (burn ∷ []) }

abbrev pub is_burn : ℕ → BurnRecord → Bool
is_burn id b = b.id == id

-- `updateBurn`
unfoldable pub update_burn :
    ℕ → (BurnRecord → BurnRecord) → Time → LotteryState → Result LotteryState
update_burn id change now state = do
  burns ←
      assign (is_burn id) (λ b. record (change b) { updated_at = now }) burn_not_found state.burns
  ok (record state { burns = burns })

-- `addBurned`
unfoldable pub add_burned : Mint → ℕ → Time → LotteryState → Result LotteryState
unfolding update_token_buy
add_burned mint raw =
    update_token_buy mint (λ t. record t { burned_raw = some (or_zero t.burned_raw + raw) })

-- `addSends`
unfoldable pub add_sends : List SendRecord → LotteryState → LotteryState
add_sends [] state = state
add_sends (s ∷ ss) state = update_summary (record state { sends = state.sends ++ (s ∷ ss) })

abbrev pub is_send : ℕ → SendRecord → Bool
is_send id s = s.id == id

-- `updateSend`
unfoldable pub update_send :
    ℕ → (SendRecord → SendRecord) → Time → LotteryState → Result LotteryState
unfolding update_summary
update_send id change now state = do
  sends ←
      assign (is_send id) (λ s. record (change s) { updated_at = now }) send_not_found state.sends
  ok (update_summary (record state { sends = sends }))

-- `incrementMetric`
unfoldable pub increment_metric : Metric → ℕ → LotteryState → LotteryState
unfolding bump
increment_metric key amount state = record state {
  metrics =
      some (
        bump key amount
          (elim (state.metrics) [ none ↦ create_empty_lottery_metrics | some m ↦ m ]));
}

-- `finalize`
unfoldable pub finalize : Time → LotteryState → LotteryState
finalize now state = record state { summary = record (state.summary) { finished_at = some now } }
