-- ===== src/Orchestrator/Resume/Plan.antt =====
-- offchain/orchestrator/resume.ts: what is left to buy of each coin.
use pumpling.Base.{
  ==_refl, All, All-append, All-map, List, Memᴰ, [], any, any-find?, any-update, ap, arith, false,
  if_elim, ltb, refl, some, subst, sym, token_buy_not_found, true, ℕ, ◌+◌, ◌-◌, ◌==◌, ◌∙◌, ◌∷◌, ◌≡◌,
  ◌≤◌,
}
use pumpling.Orchestrator.PurchaseTokens.{BatchLoader}
use pumpling.Orchestrator.Resume.{
  BuyPlanItem, ResumePlan, close_buy, is_closed_buy, min_resume_sol, note_spent, plan_open,
  plan_resume, plan_tokens, spent_of,
}
use pumpling.Orchestrator.Resume.Revive.{revive_sends-Revived, stuck, stuck-among}
use pumpling.Orchestrator.State.{
  assign-found, is_mint, is_send, mark_token_buy_completed, mark_token_buy_failed, update_summary,
  update_token_buy,
}
use pumpling.Orchestrator.Types.{LotteryState, Mint, SendRecord, Signature, Time, TokenBuyRecord}
use pumpling.Scheduler.Batch.Keeps.{Returns, Returns-bind, Returns-ok}

module _ (now : Time) (load : BatchLoader) (may : List Signature) where
  -- What is left to buy of a coin that was not closed.
  pub record IsDue (tokens : List TokenBuyRecord) (b : BuyPlanItem) : Type 0 where
    pub token : TokenBuyRecord
    pub member : Memᴰ token tokens
    pub still : is_closed_buy token.status ≡ false
    pub same : b.mint ≡ token.mint
    pub rest : b.sol_amount + spent_of load may now token ≡ token.adjusted_sol_amount
    pub enough : min_resume_sol ≤ b.sol_amount

  -- The same coins and deliveries are there.
  record SameNames (base s : LotteryState) : Type 0 where
    mints : (m : Mint) → any (is_mint m) s.token_buys ≡ any (is_mint m) base.token_buys
    sends : s.sends ≡ base.sends

  update_token_buy-SameNames :
      (m : Mint) (change : TokenBuyRecord → TokenBuyRecord) (base s : LotteryState)
      → ((t : TokenBuyRecord) → (change t).mint ≡ t.mint)
      → any (is_mint m) base.token_buys ≡ true
      → SameNames base s
      → Returns (SameNames base) (update_token_buy m change now s)
  unfolding update_token_buy update_summary
  update_token_buy-SameNames m change base s keeps listed h =
      let stamp = λ (t : TokenBuyRecord). record (change t) { updated_at = now } in
      let (t, found, is) = any-find? (is_mint m) s.token_buys (h.mints m ∙ listed) in
      rw (assign-found (is_mint m) stamp token_buy_not_found s.token_buys t found) (
        Returns-ok (SameNames base) _ (record {
          mints = λ n.
              any-update (is_mint n) (is_mint m) stamp s.token_buys
                (λ x. ap (λ k. k == n) (keeps x))
              ∙ h.mints n;
          sends = h.sends;
        }))

  module _ (tokens : List TokenBuyRecord) (base : LotteryState) where
    record Planned (r : ResumePlan × LotteryState) : Type 0 where
      names : SameNames base r.1
      buys : All (IsDue tokens) r.0.buys

    close_buy-Planned :
        (t : TokenBuyRecord) (plan : ResumePlan) (s : LotteryState)
        → any (is_mint t.mint) base.token_buys ≡ true
        → SameNames base s
        → All (IsDue tokens) plan.buys
        → Returns Planned (close_buy load may now t plan s)
    unfolding close_buy mark_token_buy_completed mark_token_buy_failed
    close_buy-Planned t plan s listed h due =
        if_elim (Returns Planned) (ltb 0 (spent_of load may now t)) _ _
          (λ _.
            Returns-bind (SameNames base) Planned _ _
              (update_token_buy-SameNames t.mint _ base s (λ _. refl) listed h)
              (λ done k. Returns-ok Planned _ (record { names = k; buys = due })))
          (λ _.
            Returns-bind (SameNames base) Planned _ _
              (update_token_buy-SameNames t.mint _ base s (λ _. refl) listed h)
              (λ done k. Returns-ok Planned _ (record { names = k; buys = due })))

    note_spent-SameNames :
        (t : TokenBuyRecord) (s : LotteryState)
        → any (is_mint t.mint) base.token_buys ≡ true
        → SameNames base s
        → Returns (SameNames base) (note_spent load may now t s)
    unfolding note_spent
    note_spent-SameNames t s listed h =
        if_elim (Returns (SameNames base)) (ltb 0 (spent_of load may now t)) _ _
          (λ _.
            update_token_buy-SameNames t.mint
              (λ u. record u { spent_sol = some (spent_of load may now t) }) base s (λ _. refl)
              listed h)
          (λ _. Returns-ok (SameNames base) s h)

    plan_open-Planned :
        (t : TokenBuyRecord) (plan : ResumePlan) (s : LotteryState)
        → Memᴰ t tokens
        → is_closed_buy t.status ≡ false
        → any (is_mint t.mint) base.token_buys ≡ true
        → SameNames base s
        → All (IsDue tokens) plan.buys
        → Returns Planned (plan_open load may now t plan s)
    unfolding plan_open
    plan_open-Planned t plan s member still listed h due =
        Returns-bind (SameNames base) Planned _ _ (note_spent-SameNames t s listed h) (λ noted k.
          if_elim (Returns Planned)
            (ltb (t.adjusted_sol_amount - spent_of load may now t) min_resume_sol) _ _
            (λ _. close_buy-Planned t plan noted listed k due)
            (λ e. Returns-ok Planned _ (record {
              names = k;
              buys = All-append (IsDue tokens) plan.buys _ due (
                record {
                  token = t;
                  member = member;
                  still = still;
                  same = refl;
                  rest = ground (arith, e);
                  enough = ground (arith, e);
                },
                tt,
              );
            })))

    plan_tokens-Planned :
        (ts : List TokenBuyRecord) (plan : ResumePlan) (s : LotteryState)
        → All (λ t. Memᴰ t tokens × (any (is_mint t.mint) base.token_buys ≡ true)) ts
        → SameNames base s
        → All (IsDue tokens) plan.buys
        → Returns Planned (plan_tokens load may now ts plan s)
    unfolding plan_tokens
    plan_tokens-Planned [] plan s listed h due =
        Returns-ok Planned _ (record { names = h; buys = due })
    plan_tokens-Planned (t ∷ ts) plan s listed h due =
        Returns-bind Planned Planned _ _
          (if_elim (Returns Planned) (is_closed_buy t.status) _ _
            (λ _. Returns-ok Planned _ (record { names = h; buys = due }))
            (λ e. plan_open-Planned t plan s listed.0.0 e listed.0.1 h due))
          (λ r k. plan_tokens-Planned ts r.0 r.1 listed.1 k.names k.buys)

  tokens-listed :
      (ts : List TokenBuyRecord) → All (λ t. Memᴰ t ts × (any (is_mint t.mint) ts ≡ true)) ts
  tokens-listed [] = tt
  tokens-listed (t ∷ ts) = (
    (Memᴰ.head refl, ground (arith, ==_refl t.mint)),
    All-map _ _ ts (λ u h. (Memᴰ.tail h.0, ground (arith, h.1))) (tokens-listed ts),
  )

  sends-listed : (ss : List SendRecord) → All (λ s. any (is_send s.id) ss ≡ true) ss
  sends-listed [] = tt
  sends-listed (s ∷ ss) =
      (ground (arith, ==_refl s.id), All-map _ _ ss (λ u h. ground (arith, h)) (sends-listed ss))

  pub record IsPlan (state : LotteryState) (r : ResumePlan × LotteryState) : Type 0 where
    pub buys : All (IsDue state.token_buys) r.0.buys
    pub idle : (j : ℕ) → stuck j r.1.sends ≡ false

  -- `planResume` returns. It buys again only for coins that were not closed, and with what counts
  -- as spent that is their adjusted amount; no delivery that an id finds is left under way.
  pub plan_resume-IsPlan :
      (state : LotteryState) → Returns (IsPlan state) (plan_resume load may now state)
  unfolding plan_resume
  plan_resume-IsPlan state =
      Returns-bind (Planned state.token_buys state) (IsPlan state) _ _
        (plan_tokens-Planned state.token_buys state state.token_buys _ state
          (tokens-listed state.token_buys) (record { mints = λ m. refl; sends = refl }) tt)
        (λ r k.
          let start =
            revive_sends-Revived now load may r.1.sends r.0 r.1 (sends-listed r.1.sends)
              (λ j h. stuck-among now j r.1.sends h) in
          record {
            value = start.value;
            returns = start.returns;
            fits = record {
              buys = subst (All (IsDue state.token_buys)) (sym start.fits.buys) k.buys;
              idle = start.fits.idle;
            };
          })
