-- ===== src/Orchestrator/Settle.antt =====
-- offchain/orchestrator/settle.ts: after the buying, the burns are brought up to what is owed and
-- the wallets that are short get a delivery. The pauses and the log are left out; the number of a
-- top-up stands for its text `send_topup_n`.
pub mod Whole
pub mod Burned
pub mod LookedUp
pub mod Added
pub mod Covered
pub mod TopUp
use pumpling.Base.{
  Bool, List, Option, Result, [], any, dedup, false, filter, find?, has, if◌then◌else◌, length, ltb,
  map, none, not, ok, some, sum_map, true, ℕ, ◌&&◌, ◌*◌, ◌++◌, ◌+◌, ◌-◌, ◌/◌, ◌==◌, ◌>>=◌, ◌>>◌,
  ◌||◌, ◌∷◌,
}
use pumpling.Orchestrator.Burns.{BurnEnv}
use pumpling.Orchestrator.PurchaseTokens.{BatchLoader, tokens_bought}
use pumpling.Orchestrator.PurchaseTokens.Refresh.{KeeperEffect}
use pumpling.Orchestrator.RefundLedger.{tx_fee}
use pumpling.Orchestrator.SendRounds.Deficit.{sent_from_keeper}
use pumpling.Orchestrator.SendRounds.Pending.{settle_send}
use pumpling.Orchestrator.Shares.{Share, delivery_owed, shares_of, total_stake}
use pumpling.Orchestrator.State.{
  add_sends, get_token_buy, has_status, increment_metric, or_zero, update_send,
}
use pumpling.Orchestrator.Types.{
  LotteryState, Mint, SendRecord, SendStatus, Signature, Sol, Time, Wallet,
  send_pending_tx_confirmed,
}
use pumpling.Scheduler.Batch.Keeps.{closed}
use pumpling.Solana.SignatureOutcome.{SignatureOutcome, landed, unknown}

-- `TOP_UP_MIN_SOL`
abbrev pub top_up_min : Sol
top_up_min = tx_fee

-- What the settlement asks the outside: the effects by the number of the reading, the burns by the
-- number of the call.
pub record SettleEnv : Type 0 where
  pub load : BatchLoader
  pub effects_at : ℕ → Signature → Option KeeperEffect
  pub burn_at : ℕ → BurnEnv
  pub outcome_of : Signature → Option ℕ → SignatureOutcome
  pub balance_of : Mint → Option ℕ
  pub clock_now : Time

abbrev pub sends_of : Mint → LotteryState → List SendRecord
sends_of mint state = filter (λ s. s.mint == mint) state.sends

abbrev pub set_add : ℕ → List ℕ → List ℕ
set_add w ws = if has w ws then ws else ws ++ (w ∷ [])

-- What the outcome of a given-up delivery's signature does.
unfoldable pub settle_abandoned :
    SendRecord
    → Signature
    → SignatureOutcome
    → Time
    → List Wallet × LotteryState
    → Result (List Wallet × LotteryState)
unfolding update_send increment_metric
settle_abandoned s signature landed now (unsure, state) = do
  closed ← update_send s.id (settle_send signature) now state
  ok (unsure, increment_metric send_pending_tx_confirmed 1 closed)
settle_abandoned s signature unknown now (unsure, state) = ok (set_add s.recipient unsure, state)
settle_abandoned s signature _ now (unsure, state) = ok (unsure, state)

abbrev pub given_up : SendRecord → Option Signature
given_up s = if has_status SendStatus.abandoned s then s.pending_signature else none

-- The loop over the deliveries of the coin.
unfoldable pub look_up_abandoned :
    (Signature → Option ℕ → SignatureOutcome)
    → Time
    → List SendRecord
    → List Wallet × LotteryState
    → Result (List Wallet × LotteryState)
unfolding settle_abandoned
look_up_abandoned outcome now [] acc = ok acc
look_up_abandoned outcome now (s ∷ ss) acc =
    (elim (given_up s) [
      | none ↦ ok acc
      | some g ↦ settle_abandoned s g (outcome g s.pending_last_valid_block_height) now acc
    ])
    >>= look_up_abandoned outcome now ss

-- What a delivery counts as delivered: what left the keeper where the basis is exact.
unfoldable pub delivered_by : Bool → SendRecord → ℕ
unfolding sent_from_keeper
delivered_by exact s =
    if has_status SendStatus.completed s
    then (elim (s.amount) [ none ↦ 0 | some a ↦ if exact then sent_from_keeper s else a ])
    else 0

unfoldable pub delivered_to : Bool → Wallet → List SendRecord → ℕ
unfolding delivered_by
delivered_to exact w sends = sum_map (delivered_by exact) (filter (λ s. s.recipient == w) sends)

abbrev pub is_queued : SendRecord → Bool
is_queued s = has_status SendStatus.pending s || has_status SendStatus.in_progress s

unfoldable pub is_busy : List Wallet → List SendRecord → Wallet → Bool
is_busy unsure sends w = any (λ s. is_queued s && s.recipient == w) sends || has w unsure

abbrev stake_of : Option Share → ℕ
stake_of none = 0
stake_of (some s) = s.stake

-- `target`
unfoldable pub top_up_target : Bool → ℕ → List Share → Wallet → ℕ
unfolding delivery_owed total_stake
top_up_target exact bought shares w =
    if exact
    then delivery_owed bought w shares
    else bought * stake_of (find? (λ s. s.wallet == w) shares) / total_stake shares

-- What the purchases of the coin brought, `none` where the balance cannot be read.
unfoldable pub pot_of : SettleEnv → Bool → Mint → LotteryState → Option ℕ
unfolding tokens_bought delivered_by
pot_of env exact mint state =
    if exact
    then some ((tokens_bought state mint env.load).known)
    else (elim (env.balance_of mint) [
      | none ↦ none
      | some balance ↦ some (balance + sum_map (delivered_by false) (sends_of mint state))
    ])

-- `Number(short) * solPerRaw < TOP_UP_MIN_SOL`, for whole lamports.
abbrev pub not_worth : Sol → ℕ → ℕ → Bool
not_worth spent bought short = ltb 0 spent && ltb (short * spent) (top_up_min * bought)

pub record TopUps : Type 0 where
  pub exact : Bool
  pub bought : ℕ
  pub spent : Sol
  pub unsure : List Wallet
  pub shares : List Share
  pub sends : List SendRecord

-- Whether a wallet gets a top-up.
unfoldable pub is_short : TopUps → Wallet → Bool
unfolding is_busy top_up_target delivered_to
is_short t w =
    let target = top_up_target t.exact t.bought t.shares w in
    let delivered = delivered_to t.exact w t.sends in
    not (is_busy t.unsure t.sends w)
    && ltb delivered target
    && not (not_worth t.spent t.bought (target - delivered))

abbrev pub top_up_record : Mint → ℕ → Time → ℕ → SendRecord → SendRecord
top_up_record mint round now id sample = record {
  id = id;
  mint = mint;
  recipient = sample.recipient;
  recipient_bet_sol = sample.recipient_bet_sol;
  share = sample.share;
  send_n = 1;
  round = round;
  amount = none;
  gross_amount = none;
  status = SendStatus.pending;
  top_up = some true;
  signature = none;
  pending_signature = none;
  pending_last_valid_block_height = none;
  failed_signatures = [];
  attempts = 0;
  error_message = none;
  had_ata_at_start = sample.had_ata_at_start;
  is_ata_mismatch = none;
  updated_at = now;
}

-- The top-up from the wallet's first delivery.
abbrev pub sampled : Mint → ℕ → Time → ℕ → Option SendRecord → List SendRecord
sampled mint round now id none = []
sampled mint round now id (some sample) = top_up_record mint round now id sample ∷ []

-- The loop over the wallets; `last` is the number of the last delivery.
unfoldable pub top_ups : TopUps → Mint → ℕ → Time → ℕ → List Wallet → List SendRecord
unfolding is_short
top_ups t mint round now last [] = []
top_ups t mint round now last (w ∷ ws) =
    if is_short t w
    then sampled mint round now (last + 1) (find? (λ s. s.recipient == w) t.sends)
      ++ top_ups t mint round now (last + 1) ws
    else top_ups t mint round now last ws

unfoldable pub spent_on : Mint → LotteryState → Sol
unfolding get_token_buy
spent_on mint state = elim (get_token_buy mint state) [ none ↦ 0 | some t ↦ or_zero t.spent_sol ]

module _ (env : SettleEnv) (exact : Bool) (send_rounds : ℕ) (mint : Mint) where
  -- What the settlement of a coin works with once the abandoned deliveries are looked up: nothing
  -- where there is no stake, no readable balance or nothing bought.
  unfoldable pub basis_for : List Wallet → LotteryState → Option TopUps
  unfolding pot_of spent_on total_stake
  basis_for unsure state =
      let shares = shares_of state mint in
      if total_stake shares == 0 then none else (elim (pot_of env exact mint state) [
        | none ↦ none
        | some bought ↦
            if bought == 0
            then none
            else some (record {
              exact = exact;
              bought = bought;
              spent = spent_on mint state;
              unsure = unsure;
              shares = shares;
              sends = sends_of mint state;
            })
      ])

  unfoldable pub add_top_ups : Option TopUps → LotteryState → ℕ × LotteryState
  unfolding top_ups add_sends
  add_top_ups none state = (0, state)
  add_top_ups (some t) state =
      let added =
        top_ups t mint send_rounds env.clock_now (length state.sends)
          (dedup (map (λ s. s.recipient) t.sends)) in
      (length added, add_sends added state)

  -- `topUpsFor`
  unfoldable pub top_ups_for : LotteryState → Result (ℕ × LotteryState)
  unfolding look_up_abandoned add_top_ups basis_for
  top_ups_for state =
      if length (sends_of mint state) == 0
      then ok (0, state)
      else look_up_abandoned env.outcome_of env.clock_now (sends_of mint state) ([], state) >>= λ r.
          ok (add_top_ups (basis_for r.0 r.1) r.1)
