-- ===== src/Scheduler/State/Summary.antt =====
-- The summary of a batch (offchain/scheduler/state.ts) counts what the purchases say, after every
-- operation, and no operation changes which purchases there are.
use pumpling.Base.{
  List, Option, Result, err, filter, length, length-update_first, none, ok, ok_injective,
  purchase_not_found, refl, some, subst, sum_map, sym, ℕ, ◌>>=◌, ◌∙◌, ◌≡◌,
}
use pumpling.Base.Text.{Text}
use pumpling.Orchestrator.Types.{Signature, Time}
use pumpling.Scheduler.Metrics.{increment_batch_metric, increment_error_pattern}
use pumpling.Scheduler.State.{
  abandon_purchase, complete_purchase, fail_purchase, finalize, get_purchase, is_purchase,
  mark_abandoned, mark_completed, mark_failed, mark_in_progress, mark_retry_window, purchase_has,
  record_attempt, record_sent_attempt, reset_for_retry, retry_purchase, start_purchase,
  update_purchase, update_summary,
}
use pumpling.Scheduler.Types.{BatchMetric, BatchState, BuyVenue, PurchaseRecord, PurchaseStatus}

-- The counters and the sum are those of the purchases.
pub record IsSummed (state : BatchState) : Type 0 where
  pub completed :
      state.summary.completed_purchases
      ≡ length (filter (purchase_has PurchaseStatus.completed) state.purchases)
  pub abandoned :
      state.summary.abandoned_purchases
      ≡ length (filter (purchase_has PurchaseStatus.abandoned) state.purchases)
  pub spent :
      state.summary.total_sol_spent
      ≡ sum_map (λ p. p.sol_amount) (filter (purchase_has PurchaseStatus.completed) state.purchases)
  pub counted : state.purchase_count ≡ length state.purchases

-- The operations on a batch.
pub data Operation : Type 0 where
  records_sent : ℕ → Signature → ℕ → Operation
  starts : ℕ → ℕ → Operation
  completes : ℕ → Signature → Option BuyVenue → Operation
  fails : ℕ → Text → Operation
  abandons : ℕ → Text → Operation
  retries : ℕ → Operation
  opens_retry_window : Time → Time → Operation
  ends : Operation
  updates : ℕ → (PurchaseRecord → PurchaseRecord) → Operation
  counts_metric : BatchMetric → Operation
  counts_pattern : Text → Operation

unfoldable pub operate : Operation → Time → BatchState → Result BatchState
operate (records_sent i s h) now b = record_sent_attempt i s h now b
operate (starts i bps) now b = mark_in_progress i bps now b
operate (completes i s v) now b = mark_completed i s v now b
operate (fails i m) now b = mark_failed i m now b
operate (abandons i m) now b = mark_abandoned i m now b
operate (retries i) now b = reset_for_retry i now b
operate (opens_retry_window s e) now b = ok (mark_retry_window s e b)
operate ends now b = ok (finalize now b)
operate (updates i change) now b = update_purchase i change now b
operate (counts_metric key) now b = ok (increment_batch_metric key b)
operate (counts_pattern pattern) now b = ok (increment_error_pattern pattern b)

update_summary-IsSummed :
    (b : BatchState) → b.purchase_count ≡ length b.purchases → IsSummed (update_summary b)
unfolding update_summary
update_summary-IsSummed b n = record {
  completed = refl;
  abandoned = refl;
  spent = refl;
  counted = n;
}

IsSummed-after :
    (o : Option (List PurchaseRecord)) (b c : BatchState)
    → b.purchase_count ≡ length b.purchases
    → ((ps : List PurchaseRecord) → o ≡ some ps → length ps ≡ length b.purchases)
    → (elim o [ none ↦ err purchase_not_found | some ps ↦ ok ps ] >>= λ ps.
        ok (update_summary (record b { purchases = ps })))
      ≡ ok c
    → IsSummed c
IsSummed-after none b c n same e = cc
IsSummed-after (some ps) b c n same e =
    subst IsSummed (ok_injective e)
      (update_summary-IsSummed (record b { purchases = ps }) (n ∙ sym (same ps refl)))

update_purchase-IsSummed :
    (index : ℕ) (change : PurchaseRecord → PurchaseRecord) (now : Time) (b c : BatchState)
    → IsSummed b
    → update_purchase index change now b ≡ ok c
    → IsSummed c
unfolding update_purchase
update_purchase-IsSummed index change now b c s e =
    IsSummed-after _ b c s.counted
      (length-update_first (is_purchase index) (λ p. record (change p) { updated_at = now })
        b.purchases)
      e

-- An operation that looks the purchase up first.
on_found-IsSummed :
    (o : Option PurchaseRecord) (missing : Result BatchState)
    (change : PurchaseRecord → PurchaseRecord → PurchaseRecord) (index : ℕ) (now : Time)
    (b c : BatchState)
    → IsSummed b
    → (missing ≡ ok c → IsSummed c)
    → elim o [ none ↦ missing | some p ↦ update_purchase index (change p) now b ] ≡ ok c
    → IsSummed c
on_found-IsSummed none missing change index now b c s m e = m e
on_found-IsSummed (some p) missing change index now b c s m e =
    update_purchase-IsSummed index (change p) now b c s e

-- From a summary that counts and adds up the purchases, every operation that returns leaves one
-- that counts and adds them up as they then are, and as many purchases as the batch says it has:
-- the named changes of a purchase, any other change of a purchase by its index, the retry window,
-- the end, and the counters of metrics and error patterns.
pub operate-IsSummed :
    (o : Operation) (now : Time) (b c : BatchState)
    → IsSummed b
    → operate o now b ≡ ok c
    → IsSummed c
unfolding operate record_sent_attempt mark_in_progress mark_completed mark_failed mark_abandoned
    reset_for_retry mark_retry_window finalize increment_batch_metric increment_error_pattern
operate-IsSummed (records_sent i sig h) now b c s e =
    on_found-IsSummed (get_purchase i b) _ (record_attempt sig h now) i now b c s
      (λ (x : err purchase_not_found ≡ ok c). cc) e
operate-IsSummed (starts i bps) now b c s e =
    update_purchase-IsSummed i (start_purchase bps) now b c s e
operate-IsSummed (completes i sig v) now b c s e =
    on_found-IsSummed (get_purchase i b) _ (complete_purchase sig v) i now b c s
      (λ x. subst IsSummed (ok_injective x) s) e
operate-IsSummed (fails i m) now b c s e =
    on_found-IsSummed (get_purchase i b) _ (fail_purchase m) i now b c s
      (λ x. subst IsSummed (ok_injective x) s) e
operate-IsSummed (abandons i m) now b c s e =
    update_purchase-IsSummed i (abandon_purchase m) now b c s e
operate-IsSummed (retries i) now b c s e = update_purchase-IsSummed i retry_purchase now b c s e
operate-IsSummed (opens_retry_window x y) now b c s e = subst IsSummed (ok_injective e) (record {
  completed = s.completed;
  abandoned = s.abandoned;
  spent = s.spent;
  counted = s.counted;
})
operate-IsSummed (updates i change) now b c s e = update_purchase-IsSummed i change now b c s e
operate-IsSummed ends now b c s e = subst IsSummed (ok_injective e) (record {
  completed = s.completed;
  abandoned = s.abandoned;
  spent = s.spent;
  counted = s.counted;
})
operate-IsSummed (counts_metric key) now b c s e = subst IsSummed (ok_injective e) (record {
  completed = s.completed;
  abandoned = s.abandoned;
  spent = s.spent;
  counted = s.counted;
})
operate-IsSummed (counts_pattern p) now b c s e = subst IsSummed (ok_injective e) (record {
  completed = s.completed;
  abandoned = s.abandoned;
  spent = s.spent;
  counted = s.counted;
})
