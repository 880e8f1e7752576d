-- ===== src/Orchestrator/State/Summary.antt =====
-- The summary of a round (offchain/orchestrator/state.ts) counts what the records say, after every
-- operation that changes them.
use pumpling.Base.{
  List, Result, [], ap, err, length, ok, ok_injective, refl, subst, sym, ℕ, ◌++◌, ◌>>=◌, ◌∙◌, ◌∷◌,
  ◌≡◌,
}
use pumpling.Orchestrator.State.{
  add_burn, add_sends, bought_failed, bought_ok, count_where, finalize, has_status,
  increment_metric, record_purchase_tokens, set_refunds, update_burn, update_refund, update_send,
  update_summary, update_token_buy,
}
use pumpling.Orchestrator.Types.{
  BurnRecord, LotteryState, LotterySummary, Metric, Mint, RefundRecord, SendRecord, SendStatus,
  Signature, Time, TokenBuyRecord, Wallet,
}

-- The counters are those of the records.
pub record IsSummed (state : LotteryState) : Type 0 where
  pub bought : state.summary.tokens_bought ≡ count_where bought_ok state.token_buys
  pub failed : state.summary.tokens_failed ≡ count_where bought_failed state.token_buys
  pub total : state.summary.sends_total ≡ length state.sends
  pub completed :
      state.summary.sends_completed ≡ count_where (has_status SendStatus.completed) state.sends
  pub satisfied :
      state.summary.sends_satisfied ≡ count_where (has_status SendStatus.satisfied) state.sends
  pub abandoned :
      state.summary.sends_abandoned ≡ count_where (has_status SendStatus.abandoned) state.sends
  pub mismatched :
      state.summary.sends_ata_mismatch
      ≡ count_where (has_status SendStatus.ata_mismatch) state.sends

update_summary-IsSummed : (state : LotteryState) → IsSummed (update_summary state)
unfolding update_summary
update_summary-IsSummed state = record {
  bought = refl;
  failed = refl;
  total = refl;
  completed = refl;
  satisfied = refl;
  abandoned = refl;
  mismatched = refl;
}

-- The calls that change a round's state.
pub data Change : Type 0 where
  token_buy : Mint → (TokenBuyRecord → TokenBuyRecord) → Change
  a_send : ℕ → (SendRecord → SendRecord) → Change
  more_sends : List SendRecord → Change
  the_end : Change
  counter : Metric → ℕ → Change
  a_burn : BurnRecord → Change
  burn_change : ℕ → (BurnRecord → BurnRecord) → Change
  refund_plan : List RefundRecord → Change
  refund_change : Mint → Wallet → (RefundRecord → RefundRecord) → Change
  bought_tokens : List (Signature × ℕ) → Change

unfoldable pub apply_change : Change → Time → LotteryState → Result LotteryState
apply_change (token_buy mint change) now state = update_token_buy mint change now state
apply_change (a_send id change) now state = update_send id change now state
apply_change (more_sends ss) now state = ok (add_sends ss state)
apply_change the_end now state = ok (finalize now state)
apply_change (counter m n) now state = ok (increment_metric m n state)
apply_change (a_burn b) now state = ok (add_burn b state)
apply_change (burn_change id change) now state = update_burn id change now state
apply_change (refund_plan rs) now state = ok (set_refunds rs state)
apply_change (refund_change mint wallet change) now state =
    update_refund mint wallet change now state
apply_change (bought_tokens ts) now state = ok (record_purchase_tokens ts state)

-- A change of what the summary does not count.
IsSummed-same :
    (s t : LotteryState)
    → t.summary ≡ s.summary
    → t.token_buys ≡ s.token_buys
    → t.sends ≡ s.sends
    → IsSummed s
    → IsSummed t
IsSummed-same s t e f g h = record {
  bought =
      ap (λ (x : LotterySummary). x.tokens_bought) e
      ∙ (h.bought ∙ sym (ap (count_where bought_ok) f));
  failed =
      ap (λ (x : LotterySummary). x.tokens_failed) e
      ∙ (h.failed ∙ sym (ap (count_where bought_failed) f));
  total =
      ap (λ (x : LotterySummary). x.sends_total) e
      ∙ (h.total ∙ sym (ap (λ (ss : List SendRecord). length ss) g));
  completed =
      ap (λ (x : LotterySummary). x.sends_completed) e
      ∙ (h.completed ∙ sym (ap (count_where (has_status SendStatus.completed)) g));
  satisfied =
      ap (λ (x : LotterySummary). x.sends_satisfied) e
      ∙ (h.satisfied ∙ sym (ap (count_where (has_status SendStatus.satisfied)) g));
  abandoned =
      ap (λ (x : LotterySummary). x.sends_abandoned) e
      ∙ (h.abandoned ∙ sym (ap (count_where (has_status SendStatus.abandoned)) g));
  mismatched =
      ap (λ (x : LotterySummary). x.sends_ata_mismatch) e
      ∙ (h.mismatched ∙ sym (ap (count_where (has_status SendStatus.ata_mismatch)) g));
}

IsSummed-after_burn :
    (m : Result (List BurnRecord)) (s t : LotteryState)
    → IsSummed s
    → (m >>= λ bs. ok (record s { burns = bs })) ≡ ok t
    → IsSummed t
IsSummed-after_burn (ok bs) s t h e =
    subst IsSummed (ok_injective e) (IsSummed-same s (record s { burns = bs }) refl refl refl h)
IsSummed-after_burn (err x) s t h e = cc

IsSummed-after_refund :
    (m : Result (List RefundRecord)) (s t : LotteryState)
    → IsSummed s
    → (m >>= λ rs. ok (record s { refunds = rs })) ≡ ok t
    → IsSummed t
IsSummed-after_refund (ok rs) s t h e =
    subst IsSummed (ok_injective e) (IsSummed-same s (record s { refunds = rs }) refl refl refl h)
IsSummed-after_refund (err x) s t h e = cc

set_refunds-IsSummed :
    (plan old : List RefundRecord) (s : LotteryState)
    → IsSummed s
    → IsSummed (elim old [ [] ↦ record s { refunds = plan } | _ ∷ _ ↦ s ])
set_refunds-IsSummed plan [] s h = IsSummed-same s (record s { refunds = plan }) refl refl refl h
set_refunds-IsSummed plan (r ∷ rs) s h = h

record_purchase_tokens-IsSummed :
    (ts : List (Signature × ℕ)) (s : LotteryState)
    → IsSummed s
    → IsSummed (record_purchase_tokens ts s)
unfolding record_purchase_tokens
record_purchase_tokens-IsSummed [] s h = h
record_purchase_tokens-IsSummed ((g, raw) ∷ ts) s h =
    record_purchase_tokens-IsSummed ts _ (IsSummed-same s _ refl refl refl h)

IsSummed-after :
    (m : Result (List TokenBuyRecord)) (f : List TokenBuyRecord → LotteryState) (t : LotteryState)
    → (m >>= λ xs. ok (update_summary (f xs))) ≡ ok t
    → IsSummed t
IsSummed-after (ok xs) f t e = subst IsSummed (ok_injective e) (update_summary-IsSummed (f xs))
IsSummed-after (err x) f t e = cc

IsSummed-after_send :
    (m : Result (List SendRecord)) (f : List SendRecord → LotteryState) (t : LotteryState)
    → (m >>= λ xs. ok (update_summary (f xs))) ≡ ok t
    → IsSummed t
IsSummed-after_send (ok xs) f t e = subst IsSummed (ok_injective e) (update_summary-IsSummed (f xs))
IsSummed-after_send (err x) f t e = cc

-- From a summary that counts the records, every operation that returns leaves a summary that counts
-- them as they then are.
pub apply_change-IsSummed :
    (c : Change) (now : Time) (state t : LotteryState)
    → IsSummed state
    → apply_change c now state ≡ ok t
    → IsSummed t
unfolding apply_change update_token_buy update_send add_sends finalize increment_metric add_burn
    update_burn set_refunds update_refund
apply_change-IsSummed (token_buy mint change) now state t s e =
    IsSummed-after _ (λ xs. record state { token_buys = xs }) t e
apply_change-IsSummed (a_send id change) now state t s e =
    IsSummed-after_send _ (λ xs. record state { sends = xs }) t e
apply_change-IsSummed (more_sends []) now state t s e = subst IsSummed (ok_injective e) s
apply_change-IsSummed (more_sends (x ∷ xs)) now state t s e =
    subst IsSummed (ok_injective e)
      (update_summary-IsSummed (record state { sends = state.sends ++ (x ∷ xs) }))
apply_change-IsSummed the_end now state t s e = subst IsSummed (ok_injective e) (record {
  bought = s.bought;
  failed = s.failed;
  total = s.total;
  completed = s.completed;
  satisfied = s.satisfied;
  abandoned = s.abandoned;
  mismatched = s.mismatched;
})
apply_change-IsSummed (counter m n) now state t s e =
    subst IsSummed (ok_injective e) (IsSummed-same state _ refl refl refl s)
apply_change-IsSummed (a_burn b) now state t s e =
    subst IsSummed (ok_injective e) (IsSummed-same state _ refl refl refl s)
apply_change-IsSummed (burn_change id change) now state t s e = IsSummed-after_burn _ state t s e
apply_change-IsSummed (refund_plan rs) now state t s e =
    subst IsSummed (ok_injective e) (set_refunds-IsSummed rs state.refunds state s)
apply_change-IsSummed (refund_change mint wallet change) now state t s e =
    IsSummed-after_refund _ state t s e
apply_change-IsSummed (bought_tokens ts) now state t s e =
    subst IsSummed (ok_injective e) (record_purchase_tokens-IsSummed ts state s)
