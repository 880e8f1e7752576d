-- ===== src/Pumpfun/Params.antt =====
-- offchain/pumpfun/buy.ts: the least amount of tokens that a purchase accepts, and its instruction.
use pumpling.Base.{
  [], arith, false, leb, ltb, min, ok, refl, subst, true, ℕ, ◌*◌, ◌++◌, ◌+◌, ◌-◌, ◌/◌, ◌<◌, ◌==◌,
  ◌^◌, ◌∷◌, ◌≡◌, ◌≤◌,
}
use pumpling.Base.Bytes.{
  Bytes, HasRest-skip, HasRest-start, capacity, le_bytes, length-le_bytes, read_uint,
  read_uint-le_bytes, to_le,
}
use pumpling.Base.Division.{div-le_of_le_mul, div_bounds, le-div_of_mul_le}
use pumpling.Base.Doubles.{Double, two_53}
use pumpling.Pumpfun.{
  BondingCurveInfo, build_buy, buy_data, buy_discriminator, calculate_buy_params, curve_in,
  is_native_sol_quote, lamports_of, tokens_for,
}

tokens-within : (x y c : ℕ) → 0 < x → y * c / (x + c) ≤ y
tokens-within x y c some_sol = div-le_of_le_mul (y * c) (x + c) y (omega arith) (grind arith)

-- More in the curve buys no fewer tokens.
tokens_mono : (x y c d : ℕ) → 0 < x → y * c / (x + c) ≤ y * (c + d) / (x + (c + d))
tokens_mono x y c d some_sol =
    let q = y * c / (x + c) in
    le-div_of_mul_le (y * (c + d)) (x + (c + d)) q (omega arith)
      (grind (arith, (div_bounds (y * c) (x + c) (omega arith)).0, tokens-within x y c some_sol))

-- A lower fee leaves no less for the curve.
curve_in_mono : (n f m : ℕ) → f ≤ m → curve_in n m ≤ curve_in n f
curve_in_mono n f m h =
    let q = n * 10000 / (10000 + m) in
    le-div_of_mul_le (n * 10000) (10000 + f) q (omega arith)
      (grind (arith, (div_bounds (n * 10000) (10000 + m) (omega arith)).0))

abbrev least_tokens : BondingCurveInfo → ℕ → ℕ → ℕ → ℕ
least_tokens info lamports slippage_bps max_fee_bps =
    tokens_for info (curve_in lamports max_fee_bps) * (10000 - min slippage_bps 10000) / 10000

-- The part of a number of basis points.
part_mono : (e o s : ℕ) → e ≤ o → e * (10000 - min s 10000) ≤ o * (10000 - s)
part_mono e o s h = grind arith

part_le : (e k : ℕ) → k ≤ 10000 → e * k ≤ e * 10000
part_le e k h = grind arith

part-within : (e s : ℕ) → e * (10000 - min s 10000) / 10000 ≤ e
part-within e s =
    div-le_of_le_mul (e * (10000 - min s 10000)) 10000 e (omega arith)
      (part_le e (10000 - min s 10000) (omega arith))

tokens_for_mono :
    (info : BondingCurveInfo) (c e : ℕ)
    → 0 < info.virtual_sol_reserves
    → c ≤ e
    → tokens_for info c ≤ tokens_for info e
tokens_for_mono info c e some_sol h =
    subst (λ n. tokens_for info c ≤ tokens_for info n) (omega (arith, h))
      (tokens_mono info.virtual_sol_reserves info.virtual_token_reserves c (e - c) some_sol)

-- A curve that pays what the fee leaves, less the slippage, pays the least amount.
least_tokens-within :
    (info : BondingCurveInfo) (lamports slippage fee max_fee got : ℕ)
    → 0 < info.virtual_sol_reserves
    → fee ≤ max_fee
    → tokens_for info (curve_in lamports fee) * (10000 - slippage) ≤ got * 10000
    → least_tokens info lamports slippage max_fee ≤ got
least_tokens-within info lamports slippage fee max_fee got some_sol h pays =
    let paid =
      tokens_for_mono info (curve_in lamports max_fee) (curve_in lamports fee) some_sol
        (curve_in_mono lamports fee max_fee h) in
    div-le_of_le_mul _ 10000 got (omega arith) (omega (arith, part_mono _ _ slippage paid, pays))

lt→ltb : (a b : ℕ) → a < b → ltb a b ≡ true
lt→ltb a b h = ground arith

some_reserves :
    (info : BondingCurveInfo) (c : ℕ)
    → 0 < info.virtual_sol_reserves
    → (info.virtual_sol_reserves + c == 0) ≡ false
some_reserves info c h = ground arith

buy_data-fields :
    (lamports least estimate : ℕ)
    → lamports < capacity 8
    → least < capacity 8
    → (buf : Bytes) × (buy_data (record {
      spendable_lamports = lamports;
      min_tokens_out = least;
      estimated_tokens = estimate;
    })
        ≡ ok buf)
      × (read_uint 8 8 buf ≡ ok lamports)
      × (read_uint 8 16 buf ≡ ok least)
unfolding buy_data to_le
buy_data-fields lamports least estimate fits fits_least =
    let buf = buy_discriminator ++ (le_bytes 8 lamports ++ (le_bytes 8 least ++ (0 ∷ []))) in
    let args = HasRest-skip buf 0 8 buy_discriminator _ refl (HasRest-start buf) in
    let second_arg =
      HasRest-skip buf 8 8 (le_bytes 8 lamports) _ (length-le_bytes 8 lamports) args in
    (
      buf,
      rw (lt→ltb lamports _ fits, lt→ltb least _ fits_least) refl,
      read_uint-le_bytes buf 8 8 lamports _ fits args,
      read_uint-le_bytes buf 16 8 least _ fits_least second_arg,
    )

lt→leb : (a b : ℕ) → a < b → leb b a ≡ false
lt→leb a b h = ground arith

-- For a coin on a curve in SOL that has not graduated, with less than 2 ^ 53 lamports, in the budget
-- and in the curve, a ceiling that is below 2 ^ 53 with 10000 added, and raw tokens that fit into
-- eight bytes, the purchase is built. Its instruction carries the lamports of the budget, as the
-- product of doubles that is rounded down to a whole number, and a least amount, which every amount of tokens meets that is no less than the curve's at a fee up to the ceiling, less the
-- slippage.
pub build_buy_lem :
    (info : BondingCurveInfo) (sol_amount : Double) (slippage max_fee : ℕ)
    → 0 < info.virtual_sol_reserves
    → info.virtual_sol_reserves < 2 ^ 53
    → is_native_sol_quote info.quote_mint ≡ true
    → info.is_graduated ≡ false
    → lamports_of sol_amount < 2 ^ 53
    → 10000 + max_fee < 2 ^ 53
    → info.virtual_token_reserves < capacity 8
    → (buf : Bytes) × (least : ℕ) × (build_buy info sol_amount slippage max_fee ≡ ok buf)
      × (read_uint 8 8 buf ≡ ok (lamports_of sol_amount))
      × (read_uint 8 16 buf ≡ ok least)
      × ((fee got : ℕ)
          → fee ≤ max_fee
          → tokens_for info (curve_in (lamports_of sol_amount) fee) * (10000 - slippage)
            ≤ got * 10000
          → least ≤ got)
unfolding build_buy calculate_buy_params
build_buy_lem info sol_amount slippage max_fee some_sol sol_fits native not_graduated fits rate_fits
      fits_tokens =
    let lamports = lamports_of sol_amount in
    let least = least_tokens info lamports slippage max_fee in
    let c = curve_in lamports max_fee in
    let within = tokens-within info.virtual_sol_reserves info.virtual_token_reserves c some_sol in
    let (buf, built, first_read, second_read) =
      buy_data-fields lamports least (tokens_for info c) (omega (arith, fits))
        (omega (arith, part-within (tokens_for info c) slippage, within, fits_tokens)) in
    (
      buf,
      least,
      rw
          (
            native,
            not_graduated,
            lt→leb lamports two_53 (omega (arith, fits)),
            lt→leb (10000 + max_fee) two_53 (omega (arith, rate_fits)),
            lt→leb info.virtual_sol_reserves two_53 (omega (arith, sol_fits)),
            some_reserves info c some_sol,
            built,
          )
          refl,
      first_read,
      second_read,
      λ fee got h pays. least_tokens-within info lamports slippage fee max_fee got some_sol h pays,
    )
