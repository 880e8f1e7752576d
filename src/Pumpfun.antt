-- ===== src/Pumpfun.antt =====
-- offchain/pumpfun/buy.ts: the accounts that are read from the chain and the purchase instruction.
-- A public key is its 32 bytes; amounts are in lamports and raw tokens. The caches, the addresses
-- that are derived, the fee recipient that is drawn and the network are left out.
pub mod Fees
pub mod Global
pub mod Params
use pumpling.Base.{
  Bool, List, Option, Result, [], account_too_small, coin_graduated, division_by_zero, drop, err,
  false, if◌then◌else◌, layout_drift, leb, length, ltb, max, min, none, not, not_sol_curve, ok,
  some, suc, true, value_too_large, zero, ℕ, ◌&&◌, ◌*◌, ◌++◌, ◌+◌, ◌-◌, ◌/◌, ◌==◌, ◌>>=◌, ◌>>◌,
  ◌||◌, ◌∷◌,
}
use pumpling.Base.Bytes.{Bytes, read_uint, subarray, to_le}
use pumpling.Base.Doubles.{Double, floor_product, nearest_double, two_53}

abbrev pub Pubkey : Type 0
Pubkey = Bytes

abbrev pub pump_global_parsed_bytes : ℕ
pump_global_parsed_bytes = 997

pub record PumpGlobal : Type 0 where
  pub fee_recipient : Pubkey
  pub fee_recipients : List Pubkey
  pub reserved_fee_recipient : Pubkey
  pub reserved_fee_recipients : List Pubkey
  pub buyback_fee_recipients : List Pubkey
  pub mayhem_mode_enabled : Bool

-- `pubkey` and `list`
abbrev pub pubkey : ℕ → Bytes → Pubkey
pubkey offset buf = subarray offset 32 buf

unfoldable pub pubkeys : ℕ → ℕ → Bytes → List Pubkey
pubkeys zero offset buf = []
pubkeys (suc n) offset buf = pubkey offset buf ∷ pubkeys n (offset + 32) buf

-- `data[offset] !== 0`; past the end it is `undefined`, so true.
abbrev pub not_zero_at : ℕ → Bytes → Bool
not_zero_at offset buf = elim (drop offset buf) [ [] ↦ true | b ∷ _ ↦ not (b == 0) ]

-- `parsePumpGlobal`: the fields in the order of the account, each at the offset after the last.
unfoldable pub parse_pump_global : Bytes → Result PumpGlobal
unfolding pubkeys
parse_pump_global buf =
    let fee_at = 8 + 1 + 32 in
    let fees_at = fee_at + 32 + 8 * 5 + 32 + 1 + 8 * 2 in
    let reserved_at = fees_at + 7 * 32 + 32 * 2 + 1 + 32 in
    let mayhem_at = reserved_at + 32 in
    let reserveds_at = mayhem_at + 1 in
    let buybacks_at = reserveds_at + 7 * 32 + 1 in
    if ltb (length buf) pump_global_parsed_bytes
    then err account_too_small
    else if buybacks_at + 8 * 32 == pump_global_parsed_bytes
    then ok (record {
      fee_recipient = pubkey fee_at buf;
      fee_recipients = pubkeys 7 fees_at buf;
      reserved_fee_recipient = pubkey reserved_at buf;
      reserved_fee_recipients = pubkeys 7 reserveds_at buf;
      buyback_fee_recipients = pubkeys 8 buybacks_at buf;
      mayhem_mode_enabled = not_zero_at mayhem_at buf;
    })
    else err layout_drift

-- `allowedFeeRecipients`
unfoldable pub allowed_fee_recipients : PumpGlobal → Bool → List Pubkey
allowed_fee_recipients global is_mayhem =
    if is_mayhem
    then global.reserved_fee_recipient ∷ global.reserved_fee_recipients
    else global.fee_recipient ∷ global.fee_recipients

abbrev pub quote_mint_offset : ℕ
quote_mint_offset = 83

abbrev zeros : ℕ → Bytes
zeros zero = []
zeros (suc n) = 0 ∷ zeros n

-- `NATIVE_SOL_QUOTE`, the System Program
abbrev pub native_sol_quote : Pubkey
native_sol_quote = zeros 32

-- `readQuoteMint`
unfoldable pub read_quote_mint : Bytes → Pubkey
read_quote_mint buf =
    if ltb (length buf) (quote_mint_offset + 32)
    then native_sol_quote
    else subarray quote_mint_offset 32 buf

abbrev pub same_bytes : Bytes → Bytes → Bool
same_bytes [] [] = true
same_bytes (a ∷ as') (b ∷ bs) = a == b && same_bytes as' bs
same_bytes _ _ = false

-- `isNativeSolQuote`
unfoldable pub is_native_sol_quote : Pubkey → Bool
is_native_sol_quote quote = same_bytes quote native_sol_quote

-- `readFeesTotal`: lp, protocol and creator, each a `Number(...)` of the eight bytes, added as
-- doubles.
unfoldable pub read_fees_total : ℕ → Bytes → Result ℕ
unfolding read_uint nearest_double
read_fees_total offset buf = do
  lp ← read_uint 8 offset buf
  protocol ← read_uint 8 (offset + 8) buf
  creator ← read_uint 8 (offset + 16) buf
  ok (
      nearest_double
        (nearest_double (nearest_double lp + nearest_double protocol) + nearest_double creator))

-- The loop over the tiers that are left, each with a threshold of 16 bytes.
unfoldable pub read_tiers : ℕ → ℕ → ℕ → Bytes → Result ℕ
unfolding read_fees_total
read_tiers zero offset most buf = ok most
read_tiers (suc n) offset most buf =
    if ltb (length buf) (offset + 16 + 24)
    then err account_too_small
    else read_fees_total (offset + 16) buf >>= λ fees.
        read_tiers n (offset + 16 + 24) (max most fees) buf

-- `parseMaxFeeBps`
unfoldable pub parse_max_fee_bps : Bytes → Result ℕ
unfolding read_tiers
parse_max_fee_bps buf =
    let offset = 8 + 1 + 32 in
    if ltb (length buf) (offset + 24 + 4) then err account_too_small else do
      flat ← read_fees_total offset buf
      tiers ← read_uint 4 (offset + 24) buf
      read_tiers tiers (offset + 24 + 4) flat buf

abbrev pub fallback_max_pump_fee_bps : ℕ
fallback_max_pump_fee_bps = 125

pub record FeeCeiling : Type 0 where
  pub bps : ℕ
  pub from_chain : Bool

-- `fetchMaxPumpFeeBps` without its cache, from the account's data; `none` where the account is not
-- there or cannot be read.
unfoldable pub fetch_max_pump_fee_bps : Option Bytes → FeeCeiling
unfolding parse_max_fee_bps
fetch_max_pump_fee_bps none = record { bps = fallback_max_pump_fee_bps; from_chain = false }
fetch_max_pump_fee_bps (some buf) = elim (parse_max_fee_bps buf) [
  | ok bps ↦ record { bps = bps; from_chain = true }
  | err _ ↦ record { bps = fallback_max_pump_fee_bps; from_chain = false }
]

-- What of the bonding curve the purchase depends on.
pub record BondingCurveInfo : Type 0 where
  pub virtual_sol_reserves : ℕ
  pub virtual_token_reserves : ℕ
  pub is_graduated : Bool
  pub is_mayhem_mode : Bool
  pub quote_mint : Pubkey

-- `estimatedTokens` is kept raw.
pub record BuyParams : Type 0 where
  pub spendable_lamports : ℕ
  pub min_tokens_out : ℕ
  pub estimated_tokens : ℕ

abbrev pub curve_in : ℕ → ℕ → ℕ
curve_in lamports fee_bps = lamports * 10000 / (10000 + fee_bps)

-- `y * dx / (x + dx)`
abbrev pub tokens_for : BondingCurveInfo → ℕ → ℕ
tokens_for info dx = info.virtual_token_reserves * dx / (info.virtual_sol_reserves + dx)

-- `Math.floor(solAmount * LAMPORTS_PER_SOL)`
unfoldable pub lamports_of : Double → ℕ
unfolding floor_product
lamports_of sol_amount = floor_product sol_amount 1000000000

-- `calculateBuyParams`: `new BN` throws for a number from 2 ^ 53 on, and a division of big numbers
-- by zero throws.
unfoldable pub calculate_buy_params : BondingCurveInfo → Double → ℕ → ℕ → Result BuyParams
unfolding lamports_of
calculate_buy_params info sol_amount slippage_bps max_fee_bps =
    let lamports = lamports_of sol_amount in
    let dx = curve_in lamports max_fee_bps in
    let expected = tokens_for info dx in
    if leb two_53 lamports || leb two_53 (10000 + max_fee_bps)
    then err value_too_large
    else if info.virtual_sol_reserves + dx == 0
    then err division_by_zero
    else ok (record {
      spendable_lamports = lamports;
      min_tokens_out = expected * (10000 - min slippage_bps 10000) / 10000;
      estimated_tokens = expected;
    })

-- `BUY_EXACT_SOL_IN_DISCRIMINATOR`
abbrev pub buy_discriminator : Bytes
buy_discriminator = 56 ∷ 252 ∷ 116 ∷ 8 ∷ 158 ∷ 223 ∷ 205 ∷ 95 ∷ []

-- The data of the instruction that `buildBuyIx` makes.
unfoldable pub buy_data : BuyParams → Result Bytes
unfolding to_le
buy_data params = do
  spendable ← to_le 8 params.spendable_lamports
  least ← to_le 8 params.min_tokens_out
  ok (buy_discriminator ++ (spendable ++ (least ++ (0 ∷ []))))

-- `buildPumpfunBuyTransaction`, up to the accounts of its instructions: `max_fee_bps` is the
-- rate that `fetchMaxPumpFeeBps` returned. `toNumber()` of the reserves throws from 2 ^ 53 on; that
-- of the lamports, which were made from a number, does not.
unfoldable pub build_buy : BondingCurveInfo → Double → ℕ → ℕ → Result Bytes
unfolding calculate_buy_params buy_data is_native_sol_quote
build_buy info sol_amount slippage_bps max_fee_bps =
    if not (is_native_sol_quote info.quote_mint)
    then err not_sol_curve
    else calculate_buy_params info sol_amount slippage_bps max_fee_bps >>= λ params.
        if leb two_53 info.virtual_sol_reserves
        then err value_too_large
        else if info.is_graduated
        then err coin_graduated
        else buy_data params
