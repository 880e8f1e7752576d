-- ===== src/Orchestrator/Burns/NeverOver.antt =====
-- A coin is never burned beyond what it owes (offchain/orchestrator/burns.ts, `burnDueFor`).
-- How a call ends: it returns, every burn stays accounted for, and if it sent a transaction, all
use pumpling.Base.{
  >>=-ok, Bool, List, Option, Option-cases, Result, [], any-of_find?, ap, arith, find?, if_elim,
  if◌then◌else◌, inl, inr, leb, none, not, ok, refl, some, subst, sum_map, sym, true, ℕ, ◌++◌, ◌+◌,
  ◌-◌, ◌==◌, ◌∙◌, ◌≡◌, ◌≤◌, ◌⊎◌,
}
use pumpling.Orchestrator.Burns.{
  BurnCall, BurnEnv, BurnResult, SentBurn, SignedBurn, blocked, burn_due, burn_due_for, burn_token,
  burn_unless_blocked, burned_so_far, capped, no_burn, nothing, send_burn, settle_pending,
  sign_and_send, waiting,
}
use pumpling.Orchestrator.Burns.Honesty.{IsHonest, IsSound, live, spent}
use pumpling.Orchestrator.Burns.Safety.{send_burn_lem}
use pumpling.Orchestrator.Burns.Settle.{settle_pending_lem}
use pumpling.Orchestrator.Burns.Writes.{HasToken}
use pumpling.Orchestrator.PurchaseTokens.{tokens_bought}
use pumpling.Orchestrator.Shares.{burn_owed, shares_of}
use pumpling.Orchestrator.State.{is_mint}
use pumpling.Orchestrator.Types.{BurnBlocked, LotteryState, Mint, Signature, TokenBuyRecord}

-- that was ever sent for the coin destroys at most `owed`.
abbrev Safe : (Signature → Bool) → Mint → List SentBurn → ℕ → Result BurnCall → Type 0
Safe fate mint log owed r =
    (c : BurnCall) × (r ≡ ok c)
    × IsSound fate c.state (c.sent_burns ++ log)
    × ((c.sent_burns ≡ []) ⊎ (spent fate mint (c.sent_burns ++ log) ≤ owed))

module _ (fate : Signature → Bool) (env : BurnEnv) (honest : IsHonest fate env) (final : Bool)
    (mint : Mint) (log : List SentBurn) where
  burn_nothing :
      (r : BurnResult) (owed : ℕ) (state : LotteryState)
      → IsSound fate state log
      → Safe fate mint log owed (no_burn r state)
  burn_nothing r owed state sound =
      (record { result = r; state = state; sent_burns = [] }, refl, sound, inl refl)

  burn_signed :
      (owed due : ℕ) (signed : SignedBurn) (state : LotteryState)
      → IsSound fate state log
      → HasToken mint state
      → sum_map (live fate mint) state.burns ≡ 0
      → burned_so_far mint state + due ≤ owed
      → env.sign_burn ≡ some signed
      → Safe fate mint log owed (send_burn final mint due signed env.now state)
  burn_signed owed due signed state sound token idle fits e =
      let (c, f, g, s) =
        send_burn_lem fate mint log state sound token due signed env.now env final honest e in
      (
        c,
        f,
        subst (λ l. IsSound fate c.state (l ++ log)) (sym g) s,
        inr (
            subst (λ l. spent fate mint (l ++ log) ≤ owed) (sym g)
              (ground (arith, idle, sound.accounted mint))),
      )

  signed_burn :
      (owed due : ℕ) (state : LotteryState)
      → IsSound fate state log
      → HasToken mint state
      → sum_map (live fate mint) state.burns ≡ 0
      → burned_so_far mint state + due ≤ owed
      → Safe fate mint log owed (sign_and_send env final mint due state)
  unfolding sign_and_send
  signed_burn owed due state sound token idle fits = elim (Option-cases env.sign_burn) [
    | inl unsigned ↦ rw unsigned (burn_nothing waiting owed state sound)
    | inr (signed, e) ↦ rw e (burn_signed owed due signed state sound token idle fits e)
  ]

  burn_due_lem :
      (owed : ℕ) (state : LotteryState)
      → IsSound fate state log
      → HasToken mint state
      → sum_map (live fate mint) state.burns ≡ 0
      → Safe fate mint log owed (burn_due env final mint owed state)
  unfolding burn_due
  burn_due_lem owed state sound token idle =
      let stop = λ (r : BurnResult). burn_nothing r owed state sound in
      let due = capped (owed - burned_so_far mint state) env.token_balance in
      if_elim (Safe fate mint log owed) (leb owed (burned_so_far mint state)) _ _
        (λ _. stop nothing)
        (λ over.
          if_elim (Safe fate mint log owed) (not env.mint_readable) _ _ (λ _. stop waiting)
            (λ _.
              if_elim (Safe fate mint log owed) (due == 0) _ _ (λ _. stop waiting)
                (λ _. signed_burn owed due state sound token idle (ground arith))))

  -- What the call as a whole promises, of its result `r`.
  abbrev NeverOver : LotteryState → Result BurnCall → Type 0
  NeverOver state r =
      (c : BurnCall) × (r ≡ ok c)
      × IsSound fate c.state (c.sent_burns ++ log)
      × ((c.sent_burns ≡ [])
          ⊎ ((settled : LotteryState) × (settle_pending env mint state ≡ ok (true, settled))
              × (spent fate mint (c.sent_burns ++ log)
                  ≤ burn_owed (tokens_bought settled mint env.load_batch).known
                      (shares_of state mint))))

  unsent :
      (r : BurnResult) (state s : LotteryState) → IsSound fate s log → NeverOver state (no_burn r s)
  unsent r state s sound =
      (record { result = r; state = s; sent_burns = [] }, refl, sound, inl refl)

  abbrev after_settle : LotteryState → Bool × LotteryState → Result BurnCall
  after_settle state r =
      if r.0
      then burn_due env final mint
          (burn_owed (tokens_bought r.1 mint env.load_batch).known (shares_of state mint)) r.1
      else no_burn waiting r.1

  unblocked :
      (state : LotteryState)
      → IsSound fate state log
      → HasToken mint state
      → NeverOver state (burn_unless_blocked none env final mint state)
  unfolding burn_unless_blocked
  unblocked state sound token =
      let (v, e, sound', token', idle) =
        settle_pending_lem fate mint log env honest state sound token in
      subst (NeverOver state)
        (sym (>>=-ok (settle_pending env mint state) (after_settle state) v e))
        (if_elim (NeverOver state) v.0 _ _
          (λ on.
            let owed =
              burn_owed (tokens_bought v.1 mint env.load_batch).known (shares_of state mint) in
            let (c, f, s, safe) = burn_due_lem owed v.1 sound' token' (idle on) in
            (
              c,
              f,
              s,
              elim safe [
                | inl silent ↦ inl silent
                | inr fits ↦ inr (v.1, e ∙ ap (λ b. ok (b, v.1)) on, fits)
              ],
            ))
          (λ off. unsent waiting state v.1 sound'))

  by_block :
      (b : Option BurnBlocked) (state : LotteryState)
      → IsSound fate state log
      → HasToken mint state
      → NeverOver state (burn_unless_blocked b env final mint state)
  by_block none state sound token = unblocked state sound token
  by_block (some b) state sound token =
      unfold burn_unless_blocked in unsent blocked state state sound

  by_token :
      (o : Option TokenBuyRecord) (state : LotteryState)
      → (find? (is_mint mint) state.token_buys ≡ o)
      → IsSound fate state log
      → NeverOver state (burn_token o env final mint state)
  unfolding burn_token
  by_token none state e sound = unsent nothing state state sound
  by_token (some t) state e sound =
      by_block t.burn_blocked state sound (any-of_find? (is_mint mint) state.token_buys t e)

-- Whatever the outcomes of the earlier burns and of this call: `burnDueFor` returns, every burn
-- stays accounted for, and if it hands a transaction to the network, then all the transactions ever
-- sent for the coin together destroy at most what the coin owes, as worked out in this call. This
-- holds where the node's and the signer's answers agree with the chain, and where every burn was
-- accounted for before.
pub burn_due_for-NeverOver :
    (fate : Signature → Bool) (env : BurnEnv) (final : Bool) (mint : Mint) (state : LotteryState)
    (log : List SentBurn)
    → IsHonest fate env
    → IsSound fate state log
    → (c : BurnCall) × (burn_due_for env final mint state ≡ ok c)
      × IsSound fate c.state (c.sent_burns ++ log)
      × ((c.sent_burns ≡ [])
          ⊎ ((settled : LotteryState) × (settle_pending env mint state ≡ ok (true, settled))
              × (spent fate mint (c.sent_burns ++ log)
                  ≤ burn_owed
                      (tokens_bought settled mint env.load_batch).known
                      (shares_of state mint))))
unfolding burn_due_for
burn_due_for-NeverOver fate env final mint state log honest sound =
    by_token fate env honest final mint log (find? (is_mint mint) state.token_buys) state refl sound
