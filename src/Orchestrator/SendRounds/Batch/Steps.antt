-- ===== src/Orchestrator/SendRounds/Batch/Steps.antt =====
-- The loops of `sendBatch` (offchain/orchestrator/sendRounds.ts) over the deliveries of a batch: each
-- returns, keeps the records that there are, and leaves the other deliveries alone.
use pumpling.Base.{
  >>=-ok, All, All-map, Bool, List, Option, Result, [], any, any-find?, any-update, ap, arith, drop,
  false, find?, has, ok, refl, send_not_found, sym, true, update, ℕ, ◌==◌, ◌>>=◌, ◌∙◌, ◌∷◌, ◌≡◌,
}
use pumpling.Base.Text.{Text}
use pumpling.Orchestrator.SendRounds.Batch.{
  abandon_all, abandon_send, count_failed, count_requeued, count_sent, finish_all, for_each,
  requeue_all, requeue_send,
}
use pumpling.Orchestrator.State.{
  assign-found, increment_metric, is_send, update_send, update_summary,
}
use pumpling.Orchestrator.Types.{
  LotteryState, SendRecord, Signature, Time, send_non_retryable_abandon,
}

-- The delivery of this id has a record.
abbrev pub IsKnown : LotteryState → ℕ → Type 0
IsKnown state id = any (is_send id) state.sends ≡ true

abbrev pub AllKnown : LotteryState → List ℕ → Type 0
AllKnown state ids = All (IsKnown state) ids

find-update_other :
    (id j : ℕ) (change : SendRecord → SendRecord) (ss : List SendRecord)
    → ((s : SendRecord) → (change s).id ≡ s.id)
    → (id == j) ≡ false
    → find? (is_send j) (update (is_send id) change ss) ≡ find? (is_send j) ss
find-update_other id j change [] same other = refl
find-update_other id j change (s ∷ ss) same other =
    ground (arith, same s, find-update_other id j change ss same other)

pub AllKnown-same :
    (s t : LotteryState) (ids : List ℕ)
    → ((i : ℕ) → any (is_send i) t.sends ≡ any (is_send i) s.sends)
    → AllKnown s ids
    → AllKnown t ids
AllKnown-same s t ids same k = All-map (IsKnown s) (IsKnown t) ids (λ i h. same i ∙ h) k

pub count_failed-sends :
    (sweep : Bool) (ids : List ℕ) (s : LotteryState) → (count_failed sweep ids s).sends ≡ s.sends
unfolding increment_metric
count_failed-sends true ids s = refl
count_failed-sends false ids s = refl

pub count_sent-sends :
    (sweep : Bool) (ids : List ℕ) (s : LotteryState) → (count_sent sweep ids s).sends ≡ s.sends
unfolding increment_metric
count_sent-sends true ids s = refl
count_sent-sends false ids s = refl

module _ (j : ℕ) where
  -- A step that returns, keeps the records that there are, and leaves the delivery `j` as it was.
  pub record Goes (s : LotteryState) (r : Result LotteryState) : Type 0 where
    pub end : LotteryState
    pub returns : r ≡ ok end
    pub same : (i : ℕ) → any (is_send i) end.sends ≡ any (is_send i) s.sends
    pub other : find? (is_send j) end.sends ≡ find? (is_send j) s.sends

  pub Goes-bind :
      (s : LotteryState) (m : Result LotteryState) (f : LotteryState → Result LotteryState)
      → Goes s m
      → ((t : LotteryState)
          → ((i : ℕ) → any (is_send i) t.sends ≡ any (is_send i) s.sends)
          → Goes t (f t))
      → Goes s (m >>= f)
  Goes-bind s m f g on =
      let h = on g.end g.same in
      record {
        end = h.end;
        returns = >>=-ok m f g.end g.returns ∙ h.returns;
        same = λ i. h.same i ∙ g.same i;
        other = h.other ∙ g.other;
      }

  pub Goes-ok : (s t : LotteryState) → t.sends ≡ s.sends → Goes s (ok t)
  Goes-ok s t e = record {
    end = t;
    returns = refl;
    same = λ i. ap (any (is_send i)) e;
    other = ap (find? (is_send j)) e;
  }

  Goes-update_send :
      (id : ℕ) (change : SendRecord → SendRecord) (now : Time) (s : LotteryState)
      → ((r : SendRecord) → (change r).id ≡ r.id)
      → IsKnown s id
      → (id == j) ≡ false
      → Goes s (update_send id change now s)
  unfolding update_send update_summary
  Goes-update_send id change now s same known other =
      let (r, found, _) = any-find? (is_send id) s.sends known in
      let stamped = λ (r : SendRecord). record (change r) { updated_at = now } in
      record {
        end = update_summary (record s { sends = update (is_send id) stamped s.sends });
        returns =
            >>=-ok _ (λ sends. ok (update_summary (record s { sends = sends }))) _
              (assign-found (is_send id) stamped send_not_found s.sends r found);
        same = λ i.
            any-update (is_send i) (is_send id) stamped s.sends (λ r. ap (λ n. n == i) (same r));
        other = find-update_other id j stamped s.sends same other;
      }

  pub Goes-for_each :
      (ids : List ℕ) (change : ℕ → SendRecord → SendRecord) (now : Time) (s : LotteryState)
      → ((i : ℕ) (r : SendRecord) → (change i r).id ≡ r.id)
      → AllKnown s ids
      → has j ids ≡ false
      → Goes s (for_each ids change now s)
  unfolding for_each
  Goes-for_each [] change now s same known other = Goes-ok s s refl
  Goes-for_each (id ∷ ids) change now s same known other =
      Goes-bind s _ _
        (Goes-update_send id (change id) now s (same id) known.0 (ground (arith, other)))
        (λ t kept.
          Goes-for_each ids change now t same (AllKnown-same s t ids kept known.1)
            (ground (arith, other)))

  pub Goes-finish_all :
      (amounts : List (ℕ × ℕ)) (signature : Signature) (ids delivered : List ℕ) (now : Time)
      (s : LotteryState)
      → AllKnown s ids
      → has j ids ≡ false
      → Goes s (finish_all amounts signature ids delivered now s)
  unfolding finish_all
  Goes-finish_all amounts signature [] delivered now s known other = Goes-ok s s refl
  Goes-finish_all amounts signature (id ∷ ids) delivered now s known other =
      Goes-bind s _ _ (Goes-update_send id _ now s (λ _. refl) known.0 (ground (arith, other)))
        (λ t kept.
          Goes-finish_all amounts signature ids (drop 1 delivered) now t
            (AllKnown-same s t ids kept known.1) (ground (arith, other)))

  -- A counter that is raised leaves the deliveries.
  pub Goes-counted :
      (s t : LotteryState) (r : Result LotteryState) → s.sends ≡ t.sends → Goes t r → Goes s r
  Goes-counted s t r e g = record {
    end = g.end;
    returns = g.returns;
    same = λ i. g.same i ∙ ap (any (is_send i)) (sym e);
    other = g.other ∙ ap (find? (is_send j)) (sym e);
  }

  pub Goes-abandon_all :
      (ids : List ℕ) (message : Text) (now : Time) (s : LotteryState)
      → AllKnown s ids
      → has j ids ≡ false
      → Goes s (abandon_all ids message now s)
  unfolding abandon_all increment_metric
  Goes-abandon_all [] message now s known other = Goes-ok s s refl
  Goes-abandon_all (id ∷ ids) message now s known other =
      Goes-bind s _ _
        (Goes-update_send id (abandon_send message id) now s (λ _. refl) known.0
          (ground (arith, other)))
        (λ t kept.
          let u = increment_metric send_non_retryable_abandon 1 t in
          Goes-counted t u _ refl (
            Goes-abandon_all ids message now u (AllKnown-same s u ids kept known.1)
              (ground (arith, other))))

  pub Goes-requeue_all :
      (ids : List ℕ) (message : Text) (signature : Option Signature) (height : Option ℕ)
      (now : Time) (s : LotteryState)
      → AllKnown s ids
      → has j ids ≡ false
      → Goes s (requeue_all ids message signature height now s)
  unfolding requeue_all increment_metric
  Goes-requeue_all [] message signature height now s known other = Goes-ok s s refl
  Goes-requeue_all (id ∷ ids) message signature height now s known other =
      Goes-bind s _ _
        (Goes-update_send id (requeue_send message signature height id) now s (λ _. refl) known.0
          (ground (arith, other)))
        (λ t kept.
          let u = increment_metric (count_requeued id s) 1 t in
          Goes-counted t u _ refl (
            Goes-requeue_all ids message signature height now u (AllKnown-same s u ids kept known.1)
              (ground (arith, other))))
