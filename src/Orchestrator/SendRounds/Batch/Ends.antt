-- ===== src/Orchestrator/SendRounds/Batch/Ends.antt =====
use pumpling.Base.{
  All-drop, All-filter, All-take, Bool, List, Option, any, arith, drop, false, find?, has, has-drop,
  has-filter, has-take, if_elim, length, length-drop, length-filter, length-take, ltb, ltb→lt, none,
  not, ok, refl, suc, take, zero, ℕ, ◌&&◌, ◌+◌, ◌<◌, ◌==◌, ◌>>=◌, ◌≡◌,
}
use pumpling.Base.Division.{div_bounds}
use pumpling.Base.Text.{Text}
use pumpling.Orchestrator.SendRounds.Batch.{
  Again, Attempt, BatchEnv, count_failed, count_sent, end_attempt, fail_all, fail_batch, fresh_ids,
  halves, is_batch_too_large_error, may_land, middle, named_signature, requeue_all, send_batch,
  sign_send, split_send, start_send, unconfirmed, unsigned,
}
use pumpling.Orchestrator.SendRounds.Batch.Steps.{
  AllKnown, AllKnown-same, Goes, Goes-abandon_all, Goes-bind, Goes-counted, Goes-finish_all,
  Goes-for_each, Goes-ok, Goes-requeue_all, IsKnown, count_failed-sends, count_sent-sends,
}
use pumpling.Orchestrator.State.{increment_metric, is_send}
use pumpling.Orchestrator.Types.{LotteryState, Signature, send_compute_limit_split}
use pumpling.Scheduler.Errors.{ErrorClass, classify_error, non_retryable, retryable, unclassified}
use pumpling.Scheduler.Types.{BuyVenue}

-- `sendBatch` (offchain/orchestrator/sendRounds.ts) ends, whatever becomes of its transactions.
module _ (j : ℕ) where
  Goes-requeued :
      (sweep : Bool) (env : BatchEnv) (ids : List ℕ) (message : Text)
      (named : Option (Signature × Option ℕ)) (s : LotteryState)
      → AllKnown s ids
      → has j ids ≡ false
      → Goes j s (
          requeue_all ids message (may_land named ids s).0 (may_land named ids s).1 env.now s
          >>= λ done. ok (count_failed sweep ids done))
  Goes-requeued sweep env ids message named s known other =
      Goes-bind j s _ _
        (Goes-requeue_all j ids message (may_land named ids s).0 (may_land named ids s).1 env.now s
          known other)
        (λ t kept. Goes-ok j t (count_failed sweep ids t) (count_failed-sends sweep ids t))

  Goes-fail_all :
      (env : BatchEnv) (ids : List ℕ) (message : Text) (c : ErrorClass)
      (named : Option (Signature × Option ℕ)) (s : LotteryState)
      → AllKnown s ids
      → has j ids ≡ false
      → Goes j s (fail_all env ids message c named s)
  unfolding fail_all
  Goes-fail_all env ids message non_retryable named s known other =
      Goes-abandon_all j ids message env.now s known other
  Goes-fail_all env ids message retryable named s known other =
      Goes-requeued env.is_sweep env ids message named s known other
  Goes-fail_all env ids message unclassified named s known other =
      Goes-requeued env.is_sweep env ids message named s known other

  -- The call on a part of the batch, which is shorter.
  GoesOn : ℕ → Again → Type 0
  GoesOn n again =
      (ids : List ℕ) (t : LotteryState)
      → length ids < n
      → AllKnown t ids
      → has j ids ≡ false
      → Goes j t (again ids t)

  Goes-halves :
      (again : Again) (env : BatchEnv) (ids : List ℕ) (tried : Option Signature) (s : LotteryState)
      → GoesOn (length ids) again
      → 1 < length ids
      → AllKnown s ids
      → has j ids ≡ false
      → Goes j s (halves again env ids tried s)
  unfolding GoesOn increment_metric
  Goes-halves again env ids tried s on big known other =
      let (low, high) = div_bounds (length ids + 1) 2 (omega arith) in
      Goes-bind j s _ _ (Goes-for_each j ids (split_send tried) env.now s (λ i r. refl) known other)
        (λ t kept.
          let u = increment_metric send_compute_limit_split 1 t in
          let known' = AllKnown-same s u ids kept known in
          Goes-counted j t u _ refl (
            Goes-bind j u _ _
              (on (take (middle ids) ids) u (omega (arith, length-take (middle ids) ids, low, high))
                (All-take (IsKnown u) (middle ids) ids known') (has-take j (middle ids) ids other))
              (λ v kept'.
                on (drop (middle ids) ids) v
                  (omega (arith, length-drop (middle ids) ids, low, high))
                  (AllKnown-same u v _ kept' (All-drop (IsKnown u) (middle ids) ids known'))
                  (has-drop j (middle ids) ids other))))

  Goes-fail_batch :
      (again : Again) (env : BatchEnv) (ids : List ℕ) (message : Text) (venue : Option BuyVenue)
      (named : Option (Signature × Option ℕ)) (s : LotteryState)
      → GoesOn (length ids) again
      → AllKnown s ids
      → has j ids ≡ false
      → Goes j s (fail_batch again env ids message venue named s)
  Goes-fail_batch again env ids message venue named s on known other =
      if_elim (Goes j s) (is_batch_too_large_error message && ltb 1 (length ids)) _ _
        (λ big.
          Goes-halves again env ids (named_signature named) s on
            (ltb→lt 1 (length ids) (ground arith)) known other)
        (λ _. Goes-fail_all env ids message (classify_error message venue).0 named s known other)

  Goes-end_attempt :
      (again : Again) (env : BatchEnv) (ids : List ℕ) (a : Attempt) (s : LotteryState)
      → GoesOn (length ids) again
      → AllKnown s ids
      → has j ids ≡ false
      → Goes j s (end_attempt again env ids a s)
  Goes-end_attempt again env ids (unsigned message venue) s on known other =
      Goes-fail_batch again env ids message venue none s on known other
  Goes-end_attempt again env ids (unconfirmed signature height message venue named) s on known
        other =
      Goes-bind j s _ _
        (Goes-for_each j ids (sign_send signature height) env.now s (λ i r. refl) known other)
        (λ t kept.
          Goes-fail_batch again env ids message venue named t on (AllKnown-same s t ids kept known)
            other)
  Goes-end_attempt again env ids (Attempt.confirmed signed height signature delivered) s on known
        other =
      Goes-bind j s _ _
        (Goes-for_each j ids (sign_send signed height) env.now s (λ i r. refl) known other)
        (λ t kept.
          Goes-bind j t _ _
            (Goes-finish_all j env.amounts signature ids delivered env.now t
              (AllKnown-same s t ids kept known) other)
            (λ u _.
              Goes-ok j u (count_sent env.is_sweep ids u) (count_sent-sends env.is_sweep ids u)))

  Goes-send_batch :
      (fuel : ℕ) (env : BatchEnv) (entries : List ℕ) (s : LotteryState)
      → length entries < fuel
      → AllKnown s entries
      → has j entries ≡ false
      → Goes j s (send_batch fuel env entries s)
  unfolding send_batch GoesOn
  Goes-send_batch zero env entries s enough known other = absurd (omega arith)
  Goes-send_batch (suc fuel) env entries s enough known other =
      let ids = fresh_ids env.skip_unknown entries in
      let known' = All-filter (IsKnown s) (λ id. not (has id env.skip_unknown)) entries known in
      let other' = has-filter j (λ id. not (has id env.skip_unknown)) entries other in
      let fewer = length-filter (λ id. not (has id env.skip_unknown)) entries in
      if_elim (Goes j s) (length ids == 0) _ _ (λ _. Goes-ok j s s refl)
        (λ _.
          Goes-bind j s _ _
            (Goes-for_each j ids (start_send env.amounts) env.now s (λ i r. refl) known' other')
            (λ t kept.
              Goes-end_attempt (send_batch fuel env) env ids (env.attempt ids) t
                (λ part u short known'' other''.
                  Goes-send_batch fuel env part u (omega (arith, short, fewer, enough)) known''
                    other'')
                (AllKnown-same s t ids kept known') other'))

-- With fuel above the number of its deliveries, a batch of known deliveries ends, whatever becomes
-- of its transactions and however often it is halved; no record of a delivery appears or is lost,
-- and a delivery that is not in the batch stays as it was.
pub send_batch_lem :
    (fuel : ℕ) (env : BatchEnv) (entries : List ℕ) (s : LotteryState) (j : ℕ)
    → length entries < fuel
    → AllKnown s entries
    → has j entries ≡ false
    → (t : LotteryState) × (send_batch fuel env entries s ≡ ok t)
      × ((i : ℕ) → any (is_send i) t.sends ≡ any (is_send i) s.sends)
      × (find? (is_send j) t.sends ≡ find? (is_send j) s.sends)
send_batch_lem fuel env entries s j enough known other =
    let g = Goes-send_batch j fuel env entries s enough known other in
    (g.end, g.returns, g.same, g.other)
