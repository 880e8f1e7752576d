-- ===== src/Orchestrator/Resume/Revive.antt =====
-- offchain/orchestrator/resume.ts: the deliveries that a crash left under way.
use pumpling.Base.{
  All, All-map, Bool, Bool-cases, List, [], any, any-find?, any-update, arith, false, find?, inl,
  inr, none, not, refl, send_not_found, some, true, update, ℕ, ◌&&◌, ◌+◌, ◌==◌, ◌∙◌, ◌∷◌, ◌≡◌,
}
use pumpling.Orchestrator.PurchaseTokens.{BatchLoader}
use pumpling.Orchestrator.Resume.{BuyPlanItem, ResumePlan, revive_sends}
use pumpling.Orchestrator.State.{assign-found, has_status, is_send, update_send, update_summary}
use pumpling.Orchestrator.Types.{LotteryState, SendRecord, SendStatus, Signature, Time}
use pumpling.Scheduler.Batch.Keeps.{Returns, Returns-ok}

-- The delivery that this id finds is under way.
abbrev pub stuck : ℕ → List SendRecord → Bool
stuck id ss = elim (find? (is_send id) ss) [
  | none ↦ false
  | some s ↦ has_status SendStatus.in_progress s
]

module _ (now : Time) where
  abbrev revived : SendRecord → SendRecord
  revived s = record s { status = SendStatus.pending; updated_at = now }

  stuck-revived :
      (i j : ℕ) (ss : List SendRecord)
      → stuck j (update (is_send i) revived ss) ≡ (stuck j ss && not (i == j))
  stuck-revived i j [] = refl
  stuck-revived i j (s ∷ ss) = ground (arith, stuck-revived i j ss)

  abbrev stuck_among : ℕ → List SendRecord → Bool
  stuck_among j = any (λ s. is_send j s && has_status SendStatus.in_progress s)

  pub stuck-among : (j : ℕ) (ss : List SendRecord) → stuck j ss ≡ true → stuck_among j ss ≡ true
  stuck-among j [] h = h
  stuck-among j (s ∷ ss) h = ground (arith, stuck-among j ss)

  find-among :
      (s : SendRecord) (ss : List SendRecord)
      → any (is_send s.id) ss ≡ true
      → (r : SendRecord) × (find? (is_send s.id) ss ≡ some r)
  find-among s ss h = let (r, found, same) = any-find? (is_send s.id) ss h in (r, found)

  -- Nothing is under way, and the plan buys and settles the same.
  pub record Revived (bought : List BuyPlanItem) (r : ResumePlan × LotteryState) : Type 0 where
    pub buys : r.0.buys ≡ bought
    pub idle : (j : ℕ) → stuck j r.1.sends ≡ false

  module _ (load : BatchLoader) (may : List Signature) where
    pub revive_sends-Revived :
        (ss : List SendRecord) (plan : ResumePlan) (state : LotteryState)
        → All (λ s. any (is_send s.id) state.sends ≡ true) ss
        → ((j : ℕ) → stuck j state.sends ≡ true → stuck_among j ss ≡ true)
        → Returns (Revived plan.buys) (revive_sends load may now ss plan state)
    unfolding revive_sends update_send update_summary
    revive_sends-Revived [] plan state listed left = Returns-ok (Revived plan.buys) _ (record {
      buys = refl;
      idle = λ j. elim (Bool-cases (stuck j state.sends)) [ inl e ↦ cc (left j e) | inr e ↦ e ];
    })
    revive_sends-Revived (s ∷ ss) plan state listed left =
        elim (Bool-cases (has_status SendStatus.in_progress s)) [
          | inr e ↦
              rw (e, revive_sends)
                (revive_sends-Revived ss plan state listed.1 (λ j h. ground (arith, left j h, e)))
          | inl e ↦
              let (r, found) = find-among s state.sends listed.0 in
              rw
                (
                  e,
                  revive_sends,
                  assign-found (is_send s.id) revived send_not_found state.sends r found,
                )
                (revive_sends-Revived ss (record plan { revived_sends = plan.revived_sends + 1 })
                  (update_summary
                    (record state { sends = update (is_send s.id) revived state.sends }))
                  (All-map _ _ ss
                    (λ t h.
                      any-update (is_send t.id) (is_send s.id) revived state.sends (λ x. refl) ∙ h)
                    listed.1)
                  (λ j h. ground (arith, stuck-revived s.id j state.sends, left j)))
        ]
