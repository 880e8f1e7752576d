-- ===== src/Orchestrator/Settle/Burned.antt =====
-- offchain/orchestrator/settle.ts: settling returns, and keeps every burn accounted for.
use pumpling.Base.{
  Bool, List, Option, [], ap, append_assoc, arith, filter, has, if_elim, length, map, none, ok,
  refl, some, subst, suc, sum_map, sym, true, ℕ, ◌++◌, ◌+◌, ◌==◌, ◌∙◌, ◌∷◌,
}
use pumpling.Orchestrator.Burns.{BurnCall, SentBurn, burned_so_far}
use pumpling.Orchestrator.Burns.Honesty.{IsHonest, IsSound, live}
use pumpling.Orchestrator.Burns.Ids.{Numbered}
use pumpling.Orchestrator.Burns.NeverOver.{burn_due_for-NeverOver}
use pumpling.Orchestrator.PurchaseTokens.Refresh.{collect_wanted, find_all, refresh_purchase_tokens}
use pumpling.Orchestrator.Settle.{SettleEnv}
use pumpling.Orchestrator.Settle.LookedUp.{SameCoins}
use pumpling.Orchestrator.Settle.TopUp.{ToppedUp, top_ups_for-ToppedUp}
use pumpling.Orchestrator.Settle.Whole.{
  BurnRun, Settlement, block_of, burn_call_env, burn_exact, burn_once, burn_waiting, exact_mints,
  finish_burns, has_unread, note_unfinished, note_waiting, read_last, read_retry_delays,
  settle_after_buying, top_up_all,
}
use pumpling.Orchestrator.State.{get_token_buy, record_purchase_tokens}
use pumpling.Orchestrator.Types.{BurnBlocked, LotteryState, Mint, Signature, Time, TokenBuyRecord}
use pumpling.Scheduler.Batch.Keeps.{Returns, Returns-bind, Returns-ok}

unchanged : (s : LotteryState) → SameCoins s s
unchanged s = record { burns = refl; coins = refl }

record_purchase_tokens-SameCoins :
    (found : List (Signature × ℕ)) (base s : LotteryState)
    → SameCoins base s
    → SameCoins base (record_purchase_tokens found s)
unfolding record_purchase_tokens
record_purchase_tokens-SameCoins [] base s h = h
record_purchase_tokens-SameCoins ((g, raw) ∷ found) base s h =
    record_purchase_tokens-SameCoins found base _ (record { burns = h.burns; coins = h.coins })

module _ (fate : Signature → Bool) (log : List SentBurn) where
  IsSound-same :
      (base s : LotteryState) (sent : List SentBurn)
      → SameCoins base s
      → IsSound fate base sent
      → IsSound fate s sent
  IsSound-same base s sent same sound = record {
    accounted = λ m. omega (
      arith,
      sound.accounted m,
      ap (sum_map (live fate m)) same.burns,
      ap (λ ts. burned_so_far m (record base { token_buys = ts })) same.coins,
    );
    numbered = subst (Numbered 0) (sym same.burns) sound.numbered;
  }

  abbrev Sound : BurnRun → Type 0
  Sound run = IsSound fate run.state (run.sent_burns ++ log)

  -- The answers of every call of `burnDueFor` agree with the chain.
  module _ (env : SettleEnv) (honest : (n : ℕ) → IsHonest fate (burn_call_env env n)) where
    burn_once-Sound :
        (note : BurnCall → List Mint → List Mint) (m : Mint) (run : BurnRun)
        → Sound run
        → Returns Sound (burn_once env note m run)
    unfolding burn_once
    burn_once-Sound note m run h =
        let (c, called, sound, rest) =
          burn_due_for-NeverOver fate (burn_call_env env run.calls_made) true m run.state
            (run.sent_burns ++ log) (honest run.calls_made) h in
        rw called (
          Returns-ok Sound _ (
            subst (IsSound fate c.state) (sym (append_assoc c.sent_burns run.sent_burns log))
              sound))

    burn_exact-Sound :
        (ms : List Mint) (run : BurnRun) → Sound run → Returns Sound (burn_exact env ms run)
    unfolding burn_exact
    burn_exact-Sound [] run h = Returns-ok Sound run h
    burn_exact-Sound (m ∷ ms) run h =
        Returns-bind Sound Sound _ _ (by_block (block_of (get_token_buy m run.state)))
          (burn_exact-Sound ms)
      where
        by_block :
            (b : Option BurnBlocked)
            → Returns Sound
                (elim b [ some _ ↦ ok run | none ↦ burn_once env (note_waiting env m) m run ])
        by_block (some b) = Returns-ok Sound run h
        by_block none = burn_once-Sound (note_waiting env m) m run h

    burn_waiting-Sound :
        (ms : List Mint) (run : BurnRun) → Sound run → Returns Sound (burn_waiting env ms run)
    unfolding burn_waiting
    burn_waiting-Sound [] run h = Returns-ok Sound run h
    burn_waiting-Sound (m ∷ ms) run h =
        Returns-bind Sound Sound _ _ (burn_once-Sound (note_unfinished env m) m run h)
          (burn_waiting-Sound ms)

    refresh-SameCoins :
        (n : ℕ) (ms : List Mint) (base s : LotteryState)
        → SameCoins base s
        → SameCoins base (refresh_purchase_tokens (env.effects_at n) env.clock_now ms env.load s)
    unfolding refresh_purchase_tokens
    refresh-SameCoins n ms base s h =
        record_purchase_tokens-SameCoins
          (let w =
              collect_wanted env.clock_now s env.load ms (record { wanted = []; attempts = [] }) in
            find_all (env.effects_at n) env.clock_now w.attempts w.wanted)
          base s h

    -- Where the answers agree with the chain and every burn was accounted for before, `finishBurns`
    -- returns, and every burn, those that it sent with the earlier ones, is accounted for after it.
    pub finish_burns-IsSound :
        (delays : List Time) (n : ℕ) (run : BurnRun)
        → Sound run
        → Returns Sound (finish_burns env delays n run)
    unfolding finish_burns
    finish_burns-IsSound [] n run h = Returns-ok Sound run h
    finish_burns-IsSound (delay ∷ delays) n run h =
        if_elim (Returns Sound) (length run.undone == 0) _ _ (λ _. Returns-ok Sound run h)
          (λ _.
            Returns-bind Sound Sound _ (finish_burns env delays (suc n))
              (burn_waiting-Sound run.undone _ (
                IsSound-same run.state _ _
                  (refresh-SameCoins n run.undone run.state run.state
                    (record { burns = refl; coins = refl }))
                  h))
              (finish_burns-IsSound delays (suc n)))

    read_last-SameCoins :
        (delays : List Time) (n : ℕ) (exact : List Mint) (base s : LotteryState)
        → SameCoins base s
        → SameCoins base (read_last env delays n exact s)
    unfolding read_last
    read_last-SameCoins [] n exact base s h = h
    read_last-SameCoins (delay ∷ delays) n exact base s h =
        if_elim (SameCoins base) (length (filter (has_unread env.load s) exact) == 0) _ _ (λ _. h)
          (λ _.
            read_last-SameCoins delays (suc n) exact base _
              (refresh-SameCoins n (filter (has_unread env.load s) exact) base s h))

    top_up_all-SameCoins :
        (exact : List Mint) (rounds : ℕ) (ms : List Mint) (base : LotteryState)
        (acc : ℕ × LotteryState)
        → SameCoins base acc.1
        → Returns
            (λ (r : ℕ × LotteryState). SameCoins base r.1)
            (top_up_all env exact rounds ms acc)
    unfolding top_up_all
    top_up_all-SameCoins exact rounds [] base acc h = Returns-ok _ _ h
    top_up_all-SameCoins exact rounds (m ∷ ms) base acc h =
        Returns-bind (ToppedUp env (has m exact) rounds m acc.1)
          (λ (r : ℕ × LotteryState). SameCoins base r.1) _
          (λ r. top_up_all env exact rounds ms (acc.0 + r.0, r.1))
          (top_ups_for-ToppedUp env (has m exact) rounds m acc.1)
          (λ r k.
            top_up_all-SameCoins exact rounds ms base (acc.0 + r.0, r.1)
              (record { burns = k.same.burns ∙ h.burns; coins = k.same.coins ∙ h.coins }))

    -- Where the answers agree with the chain and every burn was accounted for before,
    -- `settleAfterBuying` returns, and every burn, those that it sent with the earlier ones, is
    -- accounted for after it.
    pub settle_after_buying-IsSound :
        (rounds : ℕ) (state : LotteryState)
        → IsSound fate state log
        → Returns
            (λ (r : Settlement). IsSound fate r.state (r.sent_burns ++ log))
            (settle_after_buying env rounds state)
    unfolding settle_after_buying
    settle_after_buying-IsSound rounds state sound =
        let exact = exact_mints state in
        let mints = map (λ (t : TokenBuyRecord). t.mint) state.token_buys in
        Returns-bind Sound (λ (r : Settlement). IsSound fate r.state (r.sent_burns ++ log)) _ _
          (burn_exact-Sound exact _ (
            IsSound-same state _ log
              (read_last-SameCoins read_retry_delays 0 exact state state (unchanged state)) sound))
          (λ burnt h.
            Returns-bind (λ (r : ℕ × LotteryState). SameCoins burnt.state r.1)
              (λ (r : Settlement). IsSound fate r.state (r.sent_burns ++ log)) _ _
              (top_up_all-SameCoins exact rounds mints burnt.state (0, burnt.state)
                (unchanged burnt.state))
              (λ topped k. Returns-ok _ _ (IsSound-same burnt.state topped.1 _ k h)))
