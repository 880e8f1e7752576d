-- ===== src/Examples/Reading.antt =====
-- Accounts of pump.fun and a purchase.
use pumpling.Base.{
  All, List, [], account_too_small, arith, err, false, length, ok, refl, some, suc, true, zero, ℕ,
  ◌*◌, ◌++◌, ◌-◌, ◌∷◌, ◌≡◌, ◌≤◌,
}
use pumpling.Base.Bytes.{Bytes, le_bytes, read_uint}
use pumpling.Base.Doubles.{Double, floor_product, nearest_double}
use pumpling.Pumpfun.{
  BondingCurveInfo, Pubkey, PumpGlobal, allowed_fee_recipients, build_buy, curve_in,
  fetch_max_pump_fee_bps, is_native_sol_quote, lamports_of, native_sol_quote, parse_max_fee_bps,
  parse_pump_global, read_quote_mint, tokens_for,
}
use pumpling.Pumpfun.Fees.{
  FeeRates, FeeTier, encode_config, encode_rates, highest, parse_max_fee_bps-encode_config,
  total_rate,
}
use pumpling.Pumpfun.Global.{Gaps, IsPubkey, encode_global, parse_pump_global-encode_global}
use pumpling.Pumpfun.Params.{build_buy_lem}

abbrev blank : ℕ → Bytes
blank zero = []
blank (suc n) = 7 ∷ blank n

abbrev flat_rates : FeeRates
flat_rates = record { lp = 20; protocol = 95; creator = 5 }

abbrev one_tier : FeeTier
one_tier = record { threshold = blank 16; rates = record { lp = 2; protocol = 93; creator = 30 } }

parse_max_fee_bps-encode_config_example :
    parse_max_fee_bps (encode_config (blank 41) flat_rates (one_tier ∷ []) (blank 9))
    ≡ ok (highest (total_rate flat_rates) (one_tier ∷ []))
parse_max_fee_bps-encode_config_example =
    parse_max_fee_bps-encode_config (blank 41) flat_rates (one_tier ∷ []) (blank 9) refl
      (omega arith) ((refl, omega arith), tt) (omega arith)

highest_tier : highest (total_rate flat_rates) (one_tier ∷ []) ≡ 125
highest_tier = refl

-- A list of tiers that the account cuts short.
cut_short :
    parse_max_fee_bps (blank 41 ++ encode_rates flat_rates (le_bytes 4 2 ++ blank 40))
    ≡ err account_too_small
unfolding parse_max_fee_bps
cut_short = refl

abbrev key_of : ℕ → Pubkey
key_of n = n ∷ blank 31

abbrev keys_of : ℕ → List Pubkey
keys_of zero = []
keys_of (suc n) = key_of n ∷ keys_of n

keys_of-IsPubkey : (n : ℕ) → All IsPubkey (keys_of n)
keys_of-IsPubkey zero = tt
keys_of-IsPubkey (suc n) = (refl, keys_of-IsPubkey n)

abbrev a_global : PumpGlobal
a_global = record {
  fee_recipient = key_of 100;
  fee_recipients = keys_of 7;
  reserved_fee_recipient = key_of 101;
  reserved_fee_recipients = keys_of 7;
  buyback_fee_recipients = keys_of 8;
  mayhem_mode_enabled = true;
}

abbrev some_gaps : Gaps
some_gaps = record {
  before_fee = blank 41;
  before_fees = blank 89;
  before_reserved = blank 97;
  before_buybacks = blank 1;
}

parse_pump_global-encode_global_example :
    parse_pump_global (encode_global some_gaps a_global (blank 48)) ≡ ok a_global
parse_pump_global-encode_global_example =
    parse_pump_global-encode_global some_gaps a_global (blank 48)
      (record { fee = refl; fees = refl; reserved = refl; buybacks = refl })
      (record {
        fee = refl;
        fees = keys_of-IsPubkey 7;
        seven = refl;
        reserved = refl;
        reserveds = keys_of-IsPubkey 7;
        seven_reserved = refl;
        buybacks = keys_of-IsPubkey 8;
        eight = refl;
      })

abbrev a_curve : BondingCurveInfo
a_curve = record {
  virtual_sol_reserves = 40000000000;
  virtual_token_reserves = 800000000000000;
  is_graduated = false;
  is_mayhem_mode = false;
  quote_mint = native_sol_quote;
}

-- The double that is nearest to 1.001.
abbrev a_budget : Double
a_budget = record { mantissa = 2254051613498933; scale = 51 }

-- The product of doubles is below the whole number.
lamports_of-a_budget : lamports_of a_budget ≡ 1000999999
unfolding lamports_of floor_product
lamports_of-a_budget = refl

-- 2 ^ 53 + 1 is no double.
nearest_double-odd : nearest_double 9007199254740993 ≡ 9007199254740992
unfolding nearest_double
nearest_double-odd = refl

build_buy_lem_example :
    (buf : Bytes) × (least : ℕ) × (build_buy a_curve a_budget 300 125 ≡ ok buf)
    × (read_uint 8 8 buf ≡ ok (lamports_of a_budget))
    × (read_uint 8 16 buf ≡ ok least)
    × ((fee got : ℕ)
        → fee ≤ 125
        → tokens_for a_curve (curve_in (lamports_of a_budget) fee) * (10000 - 300) ≤ got * 10000
        → least ≤ got)
unfolding is_native_sol_quote
build_buy_lem_example =
    build_buy_lem a_curve a_budget 300 125 (omega arith) (omega arith) refl refl
      (omega (arith, lamports_of-a_budget)) (omega arith) (omega arith)

-- An account from before the pairs is quoted in SOL.
old_layout : is_native_sol_quote (read_quote_mint (blank 100)) ≡ true
unfolding is_native_sol_quote read_quote_mint
old_layout = refl

reserved_in_mayhem : length (allowed_fee_recipients a_global true) ≡ 8
unfolding allowed_fee_recipients
reserved_in_mayhem = refl

falls_back_to_ceiling : (fetch_max_pump_fee_bps (some (blank 60))).bps ≡ 125
unfolding fetch_max_pump_fee_bps
falls_back_to_ceiling = refl
