-- ===== src/Orchestrator/Refunds/Runner/Whole.antt =====
use pumpling.Base.{
  >>=-ok, All, All-drop, All-filter, All-map, All-take, List, [], any, arith, drop, filter, length,
  length-drop, ok, refl, suc, take, true, zero, ℕ, ◌∙◌, ◌∷◌, ◌≡◌, ◌≤◌,
}
use pumpling.Orchestrator.RefundLedger.{RefundBasis}
use pumpling.Orchestrator.Refunds.{refund_batch_size}
use pumpling.Orchestrator.Refunds.Runner.{
  RefundCall, RefundEnv, is_due, planned, refund_unspent, send_chunks,
}
use pumpling.Orchestrator.Refunds.Runner.Once.{AllHave-same, Ends, HasRefund, send_chunk_lem}
use pumpling.Orchestrator.State.{is_refund}
use pumpling.Orchestrator.Types.{LotteryState, Mint, RefundRecord, Wallet}

-- `refundUnspent` (offchain/orchestrator/refunds.ts) as a whole: all its chunks, one after the other.
send_chunks_lem :
    (fuel : ℕ) (env : RefundEnv) (rs : List RefundRecord) (s : LotteryState)
    → length rs ≤ fuel
    → All (HasRefund s) rs
    → Ends s (send_chunks fuel env rs s)
unfolding send_chunks
send_chunks_lem fuel env [] s enough h = (s, refl, λ m w. refl)
send_chunks_lem zero env (r ∷ rs) s enough h = absurd (omega arith)
send_chunks_lem (suc fuel) env (r ∷ rs) s enough h =
    let (c, e, paid, same) =
      send_chunk_lem env (take refund_batch_size (r ∷ rs)) s
        (All-take (HasRefund s) refund_batch_size (r ∷ rs) h) in
    let (t, f, same') =
      send_chunks_lem fuel env (drop refund_batch_size (r ∷ rs)) c.state
        (omega (arith, length-drop refund_batch_size (r ∷ rs), enough))
        (AllHave-same s c.state _ same (All-drop (HasRefund s) refund_batch_size (r ∷ rs) h)) in
    (
      t,
      >>=-ok _
            (λ (call : RefundCall).
              send_chunks fuel env (drop refund_batch_size (r ∷ rs)) call.state)
            c e
          ∙ f,
      λ m w. same' m w ∙ same m w,
    )

refunds-found :
    (rs : List RefundRecord) → All (λ r. any (is_refund r.mint r.recipient) rs ≡ true) rs
refunds-found [] = tt
refunds-found (r ∷ rs) = (
  ground arith,
  All-map (λ (q : RefundRecord). any (is_refund q.mint q.recipient) rs ≡ true)
      (λ q. any (is_refund q.mint q.recipient) (r ∷ rs) ≡ true) rs (λ q k. ground (arith, k))
      (refunds-found rs),
)

-- Whatever the node and the sending answer: the refunding of a round returns, and every refund that
-- was planned before it, or that it plans, still has its record.
pub refund_unspent_lem :
    (env : RefundEnv) (ledger : List (Mint × RefundBasis)) (s : LotteryState)
    → (t : LotteryState) × (refund_unspent env ledger s ≡ ok t)
      × ((m : Mint) (w : Wallet)
          → any (is_refund m w) t.refunds ≡ any (is_refund m w) (planned ledger env.now s).refunds)
unfolding refund_unspent
refund_unspent_lem env ledger s =
    let ready = planned ledger env.now s in
    send_chunks_lem (length (filter is_due ready.refunds)) env (filter is_due ready.refunds) ready
      (omega arith)
      (All-filter (HasRefund ready) is_due ready.refunds (refunds-found ready.refunds))
