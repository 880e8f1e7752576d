-- ===== src/Orchestrator/Shares.antt =====
-- offchain/orchestrator/shares.ts: who gets what of a coin's tokens, and how much is burned.
-- Every bigint here is a sum, a product or a quotient of numbers that the code has checked not to
-- be negative, so the model's are natural numbers; `bought <= 0n` is `bought == 0`.
pub mod Bounds
pub mod Conservation
use pumpling.Base.{
  ℕ, ◌+◌, ◌-◌, ◌*◌, ◌/◌, ◌^◌, Bool, true, false, ◌&&◌, Option, none, some, List, [], ◌∷◌, min, ltb,
  leb, ◌==◌, if◌then◌else◌, find?, any, sum_map,
}
use pumpling.Base.Text.{Text, is_decimal, big_int}
use pumpling.Orchestrator.Types.{
  Mint, Wallet, Signature, JsNumber, not_finite, negative, dyadic, RecipientStake, TokenBuyRecord,
  SendRecord, LotteryState,
}

abbrev pub full_bps : ℕ
full_bps = 10000

pub record Share : Type 0 where
  pub wallet : Wallet
  pub stake : ℕ
  pub burn : ℕ

-- `Math.max(0, Math.min(10_000, Math.round(x)))`; `Math.round` rounds a half up.
abbrev pub clamp_bps : JsNumber → ℕ
clamp_bps not_finite = 0
clamp_bps (negative m k) = 0
clamp_bps (dyadic m k) = min 10000 ((2 * m + 2 ^ k) / (2 * 2 ^ k))

abbrev bps_of : Option JsNumber → ℕ
bps_of none = 0
bps_of (some x) = clamp_bps x

abbrev raw_weight : ℕ → Option Text → Option JsNumber → ℕ
raw_weight stake none bps = stake * bps_of bps
raw_weight stake (some text) bps = if is_decimal text then big_int text else stake * bps_of bps

-- `burnWeightOf`
unfoldable pub burn_weight_of : ℕ → Option Text → Option JsNumber → ℕ
burn_weight_of stake text bps =
    let weight = raw_weight stake text bps in
    if ltb (stake * full_bps) weight then stake * full_bps else weight

-- `fromStake`
unfoldable pub from_stake : RecipientStake → Share
from_stake r =
    let stake = if is_decimal r.stake_lamports then big_int r.stake_lamports else 0 in
    record {
      wallet = r.wallet;
      stake = stake;
      burn = burn_weight_of stake r.burn_weight r.burn_bps;
    }

-- `byWallet.set`: a wallet listed twice is one wallet, and keeps its first place.
unfoldable pub add_share : Share → List Share → List Share
add_share s [] = s ∷ []
add_share s (t ∷ ts) =
    if t.wallet == s.wallet
    then record { wallet = s.wallet; stake = t.stake + s.stake; burn = t.burn + s.burn } ∷ ts
    else t ∷ add_share s ts

unfoldable pub collect_recipients : List RecipientStake → List Share → List Share
collect_recipients [] acc = acc
collect_recipients (r ∷ rs) acc =
    collect_recipients rs (if (from_stake r).stake == 0 then acc else add_share (from_stake r) acc)

abbrev pub has_wallet : Wallet → List Share → Bool
has_wallet w = any (λ s. s.wallet == w)

-- The deliveries of a round older than the burn: one stake for each wallet, and no burn.
unfoldable pub collect_sends : Mint → List SendRecord → List Share → List Share
collect_sends mint [] acc = acc
collect_sends mint (s ∷ ss) acc = collect_sends mint ss (
    if s.mint == mint
    then if has_wallet s.recipient acc
      then acc
      else if s.recipient_bet_sol == 0
      then acc
      else add_share (record { wallet = s.recipient; stake = s.recipient_bet_sol; burn = 0 }) acc
    else acc)

abbrev pub token_of : LotteryState → Mint → Option TokenBuyRecord
token_of state mint = find? (λ t. t.mint == mint) state.token_buys

abbrev recipients_of : Option TokenBuyRecord → List RecipientStake
recipients_of none = []
recipients_of (some t) = t.recipients

abbrev shares_from : List RecipientStake → List Share → List Share
shares_from [] old = old
shares_from (r ∷ rs) old = collect_recipients (r ∷ rs) []

-- `sharesOf`
unfoldable pub shares_of : LotteryState → Mint → List Share
shares_of state mint =
    shares_from (recipients_of (token_of state mint)) (collect_sends mint state.sends [])

unfoldable pub total_stake : List Share → ℕ
total_stake = sum_map (λ s. s.stake)

unfoldable pub has_burn : List Share → Bool
has_burn = any (λ s. ltb 0 s.burn && ltb 0 s.stake)

-- `burnWeight`
unfoldable pub burn_weight : List Share → ℕ
burn_weight = sum_map (λ s. s.burn)

-- `burnOwed`
unfoldable pub burn_owed : ℕ → List Share → ℕ
burn_owed bought shares =
    let denominator = total_stake shares * full_bps in
    if bought == 0
    then 0
    else if denominator == 0
    then 0
    else bought * burn_weight shares / denominator

abbrev share_owed : ℕ → ℕ → Option Share → ℕ
share_owed bought denominator none = 0
share_owed bought denominator (some share) =
    if bought == 0
    then 0
    else if denominator == 0
    then 0
    else bought * (share.stake * full_bps - share.burn) / denominator

-- `deliveryOwed`
unfoldable pub delivery_owed : ℕ → Wallet → List Share → ℕ
delivery_owed bought wallet shares =
    share_owed bought (total_stake shares * full_bps) (find? (λ s. s.wallet == wallet) shares)

-- `averageBurnBps`, in hundredths of a basis point before the last division by 100.
unfoldable pub average_burn_bps_hundredths : List Share → ℕ
average_burn_bps_hundredths shares =
    if total_stake shares == 0 then 0 else burn_weight shares * 100 / total_stake shares
