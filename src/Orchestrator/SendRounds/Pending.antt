-- ===== src/Orchestrator/SendRounds/Pending.antt =====
-- offchain/orchestrator/sendRounds.ts, `checkPendingSend`: a delivery whose transaction may have
-- gone out is looked up before anything is sent for it.
use pumpling.Base.{
  >>=-ok, List, Option, Result, [], arith, find?, none, ok, refl, send_not_found, some, subst, sym,
  update, ℕ, ◌++◌, ◌>>=◌, ◌∷◌, ◌≡◌, ◌≢◌,
}
use pumpling.Orchestrator.State.{
  assign-found, increment_metric, is_send, update_send, update_summary,
}
use pumpling.Orchestrator.Types.{
  LotteryState, SendRecord, SendStatus, Signature, Time, send_pending_check_failed,
  send_pending_tx_confirmed,
}
use pumpling.Solana.SignatureOutcome.{SignatureOutcome, absent, landed, unknown}

pub data PendingVerdict : Type 0 where
  send settled uncertain : PendingVerdict

abbrev pub clear_pending : SendRecord → SendRecord
clear_pending s = record s { pending_signature = none; pending_last_valid_block_height = none }

abbrev pub settle_send : Signature → SendRecord → SendRecord
settle_send signature s = record s {
  status = SendStatus.completed;
  signature = some signature;
  pending_signature = none;
  pending_last_valid_block_height = none;
  gross_amount = s.amount;
}

abbrev pub keep_failed : Signature → SendRecord → SendRecord
keep_failed signature s = record s {
  failed_signatures = s.failed_signatures ++ (signature ∷ []);
  pending_signature = none;
  pending_last_valid_block_height = none;
}

-- What the outcome of the signature does to the delivery.
pub apply_outcome :
    ℕ → Signature → SignatureOutcome → Time → LotteryState → Result (PendingVerdict × LotteryState)
apply_outcome id s unknown now state =
    ok (uncertain, increment_metric send_pending_check_failed 1 state)
apply_outcome id s SignatureOutcome.failed now state = do
  marked ← update_send id (keep_failed s) now state
  ok (send, marked)
apply_outcome id s absent now state = do
  cleared ← update_send id clear_pending now state
  ok (send, cleared)
apply_outcome id s landed now state = do
  closed ← update_send id (settle_send s) now state
  ok (settled, increment_metric send_pending_tx_confirmed 1 closed)

pub check_signature :
    Option Signature
    → (Signature → Option ℕ → SignatureOutcome)
    → SendRecord
    → Time
    → LotteryState
    → Result (PendingVerdict × LotteryState)
unfolding apply_outcome
check_signature none outcome s now state = ok (send, state)
check_signature (some signature) outcome s now state =
    apply_outcome s.id signature (outcome signature s.pending_last_valid_block_height) now state

-- `checkPendingSend`
unfoldable pub check_pending_send :
    (Signature → Option ℕ → SignatureOutcome)
    → SendRecord
    → Time
    → LotteryState
    → Result (PendingVerdict × LotteryState)
unfolding check_signature
check_pending_send outcome s now state = check_signature s.pending_signature outcome s now state

-- What a check leaves of the delivery that its id finds.
abbrev pub found_send : ℕ → LotteryState → Option SendRecord
found_send id state = find? (is_send id) state.sends

find-update_send :
    (id : ℕ) (change : SendRecord → SendRecord) (ss : List SendRecord) (s : SendRecord)
    → ((s : SendRecord) → (change s).id ≡ s.id)
    → find? (is_send id) ss ≡ some s
    → find? (is_send id) (update (is_send id) change ss) ≡ some (change s)
find-update_send id change [] s same f = cc
find-update_send id change (t ∷ ss) s same f =
    ground (arith, same t, find-update_send id change ss s same)

-- `updateSend` on an id that finds a delivery: it returns, and the id finds the changed one.
pub update_send_lem :
    (id : ℕ) (change : SendRecord → SendRecord) (now : Time) (state : LotteryState) (s : SendRecord)
    → ((s : SendRecord) → (change s).id ≡ s.id)
    → found_send id state ≡ some s
    → (t : LotteryState) × (update_send id change now state ≡ ok t)
      × (found_send id t ≡ some (record (change s) { updated_at = now }))
unfolding update_send update_summary
update_send_lem id change now state s same f = (
  update_summary (record state {
    sends = update (is_send id) (λ s. record (change s) { updated_at = now }) state.sends;
  }),
  >>=-ok _ (λ sends. ok (update_summary (record state { sends = sends }))) _
      (assign-found (is_send id) (λ s. record (change s) { updated_at = now }) send_not_found
        state.sends s f),
  find-update_send id (λ s. record (change s) { updated_at = now }) state.sends s same f,
)

-- What the verdict says of the delivery as the check leaves it.
abbrev pub Checked : SendRecord → SignatureOutcome → PendingVerdict → SendRecord → Type 0
Checked s outcome send t =
    (t.pending_signature ≡ none) × (t.status ≡ s.status) × (outcome ≢ landed) × (outcome ≢ unknown)
Checked s outcome settled t =
    (outcome ≡ landed)
    × (t.status ≡ SendStatus.completed)
    × (t.signature ≡ s.pending_signature)
    × (t.gross_amount ≡ s.amount)
    × (t.pending_signature ≡ none)
Checked s outcome uncertain t = (outcome ≡ unknown) × (t ≡ s)

abbrev Kept : SendRecord → SignatureOutcome → Result (PendingVerdict × LotteryState) → Type 0
Kept s outcome r =
    (v : PendingVerdict × LotteryState) × (r ≡ ok v)
    × (t : SendRecord) × (found_send s.id v.1 ≡ some t)
    × Checked s outcome v.0 t

apply_outcome_lem :
    (s : SendRecord) (signature : Signature) (o : SignatureOutcome) (now : Time)
    (state : LotteryState)
    → found_send s.id state ≡ some s
    → s.pending_signature ≡ some signature
    → Kept s o (apply_outcome s.id signature o now state)
unfolding apply_outcome increment_metric
apply_outcome_lem s signature unknown now state f p = ((uncertain, _), refl, s, f, (refl, refl))
apply_outcome_lem s signature SignatureOutcome.failed now state f p =
    let (t, e, g) = update_send_lem s.id (keep_failed signature) now state s (λ _. refl) f in
    ((send, t), >>=-ok _ (λ m. ok (send, m)) t e, _, g, (refl, refl, (λ x. cc), (λ x. cc)))
apply_outcome_lem s signature absent now state f p =
    let (t, e, g) = update_send_lem s.id clear_pending now state s (λ _. refl) f in
    ((send, t), >>=-ok _ (λ m. ok (send, m)) t e, _, g, (refl, refl, (λ x. cc), (λ x. cc)))
apply_outcome_lem s signature landed now state f p =
    let (t, e, g) = update_send_lem s.id (settle_send signature) now state s (λ _. refl) f in
    (
      (settled, increment_metric send_pending_tx_confirmed 1 t),
      >>=-ok _ (λ m. ok (settled, increment_metric send_pending_tx_confirmed 1 m)) t e,
      _,
      g,
      (refl, refl, sym p, refl, refl),
    )

-- A delivery with a pending signature: the check returns. It lets the delivery be sent again only
-- if the outcome is that nothing arrived, and then no signature is left pending; it closes the
-- delivery, with that signature and with what left the keeper, exactly if the outcome is that it
-- landed; and if the outcome is not known it leaves the delivery as it was.
pub check_pending_send_lem :
    (outcome : Signature → Option ℕ → SignatureOutcome) (s : SendRecord) (signature : Signature)
    (now : Time) (state : LotteryState)
    → found_send s.id state ≡ some s
    → s.pending_signature ≡ some signature
    → (v : PendingVerdict × LotteryState) × (check_pending_send outcome s now state ≡ ok v)
      × (t : SendRecord) × (found_send s.id v.1 ≡ some t)
      × Checked s (outcome signature s.pending_last_valid_block_height) v.0 t
unfolding check_pending_send
check_pending_send_lem outcome s signature now state f p =
    subst
      (λ o.
        Kept s (outcome signature s.pending_last_valid_block_height)
          (check_signature o outcome s now state))
      (sym p)
      (unfold check_signature in
        apply_outcome_lem s signature (outcome signature s.pending_last_valid_block_height) now
          state f p)
