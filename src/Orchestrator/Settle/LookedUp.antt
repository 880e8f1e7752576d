-- ===== src/Orchestrator/Settle/LookedUp.antt =====
-- offchain/orchestrator/settle.ts: what the look-up of given-up deliveries leaves.
use pumpling.Base.{
  ==_refl, All, List, Option, [], any, any-find?, any-update, ap, arith, has, has-append, none, ok,
  refl, send_not_found, some, some_injective, sym, true, ℕ, ◌∙◌, ◌∷◌, ◌≡◌, ◌≢◌,
}
use pumpling.Orchestrator.SendRounds.Pending.{settle_send}
use pumpling.Orchestrator.Settle.{given_up, look_up_abandoned, set_add, settle_abandoned}
use pumpling.Orchestrator.State.{
  assign-found, increment_metric, is_send, update_send, update_summary,
}
use pumpling.Orchestrator.Types.{LotteryState, SendRecord, Signature, Time, Wallet}
use pumpling.Scheduler.Batch.Keeps.{Returns, Returns-bind, Returns-ok}
use pumpling.Solana.SignatureOutcome.{SignatureOutcome, absent, landed, unknown}

-- The burns and the coins are as they were.
pub record SameCoins (base s : LotteryState) : Type 0 where
  pub burns : s.burns ≡ base.burns
  pub coins : s.token_buys ≡ base.token_buys

has-set_add_self : (w : ℕ) (ws : List ℕ) → has w (set_add w ws) ≡ true
has-set_add_self w ws = grind (arith, has-append w ws (w ∷ []), ==_refl w)

has-set_add : (v w : ℕ) (ws : List ℕ) → has v ws ≡ true → has v (set_add w ws) ≡ true
has-set_add v w ws h = grind (arith, has-append v ws (w ∷ []), h)

-- The same coins are there, and the same deliveries by their ids.
pub record SameIds (base s : LotteryState) : Type 0 where
  pub same : SameCoins base s
  pub ids : (j : ℕ) → any (is_send j) s.sends ≡ any (is_send j) base.sends

settle_send-SameIds :
    (g : Signature) (s : SendRecord) (now : Time) (base state : LotteryState)
    → any (is_send s.id) base.sends ≡ true
    → SameIds base state
    → Returns (SameIds base) (update_send s.id (settle_send g) now state)
unfolding update_send update_summary
settle_send-SameIds g s now base state listed h =
    let stamp = λ (r : SendRecord). record (settle_send g r) { updated_at = now } in
    let (r, found, is) = any-find? (is_send s.id) state.sends (h.ids s.id ∙ listed) in
    rw (assign-found (is_send s.id) stamp send_not_found state.sends r found) (
      Returns-ok (SameIds base) _ (record {
        same = record { burns = h.same.burns; coins = h.same.coins };
        ids = λ j. any-update (is_send j) (is_send s.id) stamp state.sends (λ x. refl) ∙ h.ids j;
      }))

module _ (outcome : Signature → Option ℕ → SignatureOutcome) (now : Time) where
  -- The delivery was given up, and what became of its transaction is not known.
  abbrev pub IsUnsure : SendRecord → Type 0
  IsUnsure s =
      (g : Signature) × (given_up s ≡ some g)
      × (outcome g s.pending_last_valid_block_height ≡ unknown)

  pub record Looked (base : LotteryState) (old : List Wallet) (ss : List SendRecord)
      (r : List Wallet × LotteryState) : Type 0 where
    pub state : SameIds base r.1
    pub keeps : (w : ℕ) → has w old ≡ true → has w r.0 ≡ true
    pub noted : All (λ s. IsUnsure s → has s.recipient r.0 ≡ true) ss

  module _ (base : LotteryState) (s : SendRecord) (unsure : List Wallet) where
    unsure-outcome :
        (g : Signature) (v : SignatureOutcome)
        → given_up s ≡ some g
        → outcome g s.pending_last_valid_block_height ≡ v
        → IsUnsure s
        → v ≡ unknown
    unsure-outcome g v e f (h, i, k) =
        sym f
        ∙ (ap (λ x. outcome x s.pending_last_valid_block_height) (some_injective (sym e ∙ i)) ∙ k)

    -- Nothing is noted where the outcome is known.
    known-Looked :
        (g : Signature) (v : SignatureOutcome) (state : LotteryState)
        → given_up s ≡ some g
        → outcome g s.pending_last_valid_block_height ≡ v
        → v ≢ unknown
        → SameIds base state
        → Looked base unsure (s ∷ []) (unsure, state)
    known-Looked g v state e f other h = record {
      state = h;
      keeps = λ w k. k;
      noted = (λ u. elim (other (unsure-outcome g v e f u)) [ ], tt);
    }

    settle_abandoned-Looked :
        (g : Signature) (v : SignatureOutcome) (state : LotteryState)
        → any (is_send s.id) base.sends ≡ true
        → SameIds base state
        → given_up s ≡ some g
        → outcome g s.pending_last_valid_block_height ≡ v
        → Returns (Looked base unsure (s ∷ [])) (settle_abandoned s g v now (unsure, state))
    unfolding settle_abandoned increment_metric
    settle_abandoned-Looked g landed state listed h e f =
        Returns-bind (SameIds base) (Looked base unsure (s ∷ [])) _ _
          (settle_send-SameIds g s now base state listed h)
          (λ closed k. Returns-ok _ _ (
            known-Looked g landed _ e f (λ x. cc x)
              (record {
                same = record { burns = k.same.burns; coins = k.same.coins };
                ids = k.ids;
              })))
    settle_abandoned-Looked g unknown state listed h e f = Returns-ok _ _ (record {
      state = h;
      keeps = λ w k. has-set_add w s.recipient unsure k;
      noted = (λ u. has-set_add_self s.recipient unsure, tt);
    })
    settle_abandoned-Looked g SignatureOutcome.failed state listed h e f =
        Returns-ok _ _ (known-Looked g SignatureOutcome.failed state e f (λ x. cc x) h)
    settle_abandoned-Looked g absent state listed h e f =
        Returns-ok _ _ (known-Looked g absent state e f (λ x. cc x) h)

    look_up-one :
        (o : Option Signature) (state : LotteryState)
        → given_up s ≡ o
        → any (is_send s.id) base.sends ≡ true
        → SameIds base state
        → Returns (Looked base unsure (s ∷ [])) (elim o [
          | none ↦ ok (unsure, state)
          | some g ↦
              settle_abandoned s g (outcome g s.pending_last_valid_block_height) now (unsure, state)
        ])
    look_up-one none state e listed h =
        Returns-ok _ _ (record { state = h; keeps = λ w k. k; noted = (λ u. cc (e, u.1), tt) })
    look_up-one (some g) state e listed h =
        settle_abandoned-Looked g (outcome g s.pending_last_valid_block_height) state listed h e
          refl

  pub look_up-Looked :
      (base : LotteryState) (ss : List SendRecord) (unsure : List Wallet) (state : LotteryState)
      → All (λ s. any (is_send s.id) base.sends ≡ true) ss
      → SameIds base state
      → Returns (Looked base unsure ss) (look_up_abandoned outcome now ss (unsure, state))
  unfolding look_up_abandoned
  look_up-Looked base [] unsure state listed h =
      Returns-ok _ _ (record { state = h; keeps = λ w k. k; noted = tt })
  look_up-Looked base (s ∷ ss) unsure state listed h =
      Returns-bind (Looked base unsure (s ∷ [])) (Looked base unsure (s ∷ ss)) _
        (look_up_abandoned outcome now ss)
        (look_up-one base s unsure (given_up s) state refl listed.0 h)
        (λ r k.
          let rest = look_up-Looked base ss r.0 r.1 listed.1 k.state in
          record {
            value = rest.value;
            returns = rest.returns;
            fits = record {
              state = rest.fits.state;
              keeps = λ w e. rest.fits.keeps w (k.keeps w e);
              noted = (λ u. rest.fits.keeps s.recipient (k.noted.0 u), rest.fits.noted);
            };
          })
