-- ===== src/Orchestrator/Settle/Whole.antt =====
-- offchain/orchestrator/settle.ts: `settleAfterBuying` and `finishBurns`.
use pumpling.Base.{
  Bool, List, Option, Result, [], false, filter, has, if◌then◌else◌, length, map, none, not, ok,
  some, suc, true, ℕ, ◌&&◌, ◌++◌, ◌+◌, ◌==◌, ◌>>=◌, ◌||◌, ◌∷◌,
}
use pumpling.Orchestrator.Burns.{
  BurnCall, BurnEnv, BurnResult, SentBurn, blocked, burn_due_for, waiting,
}
use pumpling.Orchestrator.PurchaseTokens.{BatchLoader, tokens_bought}
use pumpling.Orchestrator.PurchaseTokens.Refresh.{refresh_purchase_tokens}
use pumpling.Orchestrator.Settle.{SettleEnv, set_add, top_ups_for}
use pumpling.Orchestrator.Shares.{has_burn, shares_of}
use pumpling.Orchestrator.State.{get_token_buy}
use pumpling.Orchestrator.Types.{BurnBlocked, LotteryState, Mint, Time, TokenBuyRecord}
use pumpling.Scheduler.Batch.{count}

-- `hasBurn(sharesOf(state, mint))` for each coin
unfoldable pub exact_mints : LotteryState → List Mint
unfolding has_burn
exact_mints state = filter (λ m. has_burn (shares_of state m)) (map (λ t. t.mint) state.token_buys)

abbrev pub has_unread : BatchLoader → LotteryState → Mint → Bool
has_unread load state mint = not (length (tokens_bought state mint load).unread == 0)

abbrev pub read_retry_delays : List Time
read_retry_delays = 0 ∷ 2000 ∷ 5000 ∷ 10000 ∷ []

abbrev pub finish_burn_delays : List Time
finish_burn_delays = 0 ∷ 30000 ∷ 60000 ∷ 120000 ∷ []

-- The burns so far: `undone` are the coins whose burn is not finished.
pub record BurnRun : Type 0 where
  pub calls_made : ℕ
  pub undone : List Mint
  pub state : LotteryState
  pub sent_burns : List SentBurn

abbrev pub is_waiting : BurnResult → Bool
is_waiting waiting = true
is_waiting _ = false

abbrev pub is_blocked : BurnResult → Bool
is_blocked blocked = true
is_blocked _ = false

abbrev pub block_of : Option TokenBuyRecord → Option BurnBlocked
block_of none = none
block_of (some t) = t.burn_blocked

pub record Settlement : Type 0 where
  pub top_up_count : ℕ
  pub burns_waiting : List Mint
  pub state : LotteryState
  pub sent_burns : List SentBurn

module _ (env : SettleEnv) where
  -- The attempts to read the last purchases.
  unfoldable pub read_last : List Time → ℕ → List Mint → LotteryState → LotteryState
  unfolding refresh_purchase_tokens
  read_last [] n exact state = state
  read_last (delay ∷ delays) n exact state =
      let unread = filter (has_unread env.load state) exact in
      let rest =
        read_last delays (suc n) exact
          (refresh_purchase_tokens (env.effects_at n) env.clock_now unread env.load state) in
      if length unread == 0 then state else rest

  abbrev pub burn_call_env : ℕ → BurnEnv
  burn_call_env n = record (env.burn_at n) { load_batch = env.load }

  -- One call of `burnDueFor`, with what it leaves undone.
  unfoldable pub burn_once : (BurnCall → List Mint → List Mint) → Mint → BurnRun → Result BurnRun
  unfolding burn_due_for
  burn_once note mint run = do
    c ← burn_due_for (burn_call_env run.calls_made) true mint run.state
    ok (record {
      calls_made = suc run.calls_made;
      undone = note c run.undone;
      state = c.state;
      sent_burns = c.sent_burns ++ run.sent_burns;
    })

  abbrev pub note_waiting : Mint → BurnCall → List Mint → List Mint
  note_waiting m c ws = if is_waiting c.result then set_add m ws else ws

  abbrev pub note_unfinished : Mint → BurnCall → List Mint → List Mint
  note_unfinished m c ws =
      if is_waiting c.result || (has_unread env.load c.state m && not (is_blocked c.result))
      then ws ++ (m ∷ [])
      else ws

  -- The burns of the settlement; a blocked coin is left out.
  unfoldable pub burn_exact : List Mint → BurnRun → Result BurnRun
  unfolding burn_once get_token_buy
  burn_exact [] run = ok run
  burn_exact (m ∷ ms) run =
      (elim (block_of (get_token_buy m run.state)) [
        | some _ ↦ ok run
        | none ↦ burn_once (note_waiting m) m run
      ])
      >>= burn_exact ms

  -- The burns of one attempt to finish.
  unfoldable pub burn_waiting : List Mint → BurnRun → Result BurnRun
  unfolding burn_once
  burn_waiting [] run = ok run
  burn_waiting (m ∷ ms) run = burn_once (note_unfinished m) m run >>= burn_waiting ms

  -- `finishBurns`: the run's `undone` are the coins that wait.
  unfoldable pub finish_burns : List Time → ℕ → BurnRun → Result BurnRun
  unfolding burn_waiting refresh_purchase_tokens
  finish_burns [] n run = ok run
  finish_burns (delay ∷ delays) n run =
      let rest =
        burn_waiting run.undone (record run {
          undone = [];
          state =
              refresh_purchase_tokens (env.effects_at n) env.clock_now run.undone env.load
                run.state;
        })
        >>= finish_burns delays (suc n) in
      if length run.undone == 0 then ok run else rest

  -- The top-ups of all coins, with their number.
  unfoldable pub top_up_all :
      List Mint → ℕ → List Mint → ℕ × LotteryState → Result (ℕ × LotteryState)
  unfolding top_ups_for
  top_up_all exact rounds [] acc = ok acc
  top_up_all exact rounds (m ∷ ms) (count, state) =
      top_ups_for env (has m exact) rounds m state >>= λ r.
      top_up_all exact rounds ms (count + r.0, r.1)

  -- `settleAfterBuying`
  unfoldable pub settle_after_buying : ℕ → LotteryState → Result Settlement
  unfolding exact_mints read_last burn_exact top_up_all
  settle_after_buying send_rounds state =
      let exact = exact_mints state in
      let read = read_last read_retry_delays 0 exact state in
      do
        burnt ← burn_exact exact (record {
          calls_made = 0;
          undone = filter (has_unread env.load read) exact;
          state = read;
          sent_burns = [];
        })
        topped ← top_up_all exact send_rounds (map (λ t. t.mint) state.token_buys) (0, burnt.state)
        ok (record {
          top_up_count = topped.0;
          burns_waiting = burnt.undone;
          state = topped.1;
          sent_burns = burnt.sent_burns;
        })
