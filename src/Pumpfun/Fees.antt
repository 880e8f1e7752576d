-- ===== src/Pumpfun/Fees.antt =====
-- offchain/pumpfun/buy.ts: `parseMaxFeeBps` against the accounts that it reads.
use pumpling.Base.{
  >>=-ok, All, List, [], arith, if_elim, length, length-append, ltb, max, ok, refl, subst, ℕ, ◌++◌,
  ◌+◌, ◌<◌, ◌^◌, ◌∙◌, ◌∷◌, ◌≡◌, ◌≤◌,
}
use pumpling.Base.Bytes.{
  Bytes, HasRest, HasRest-length, HasRest-skip, HasRest-start, capacity, le_bytes, length-le_bytes,
  read_uint-le_bytes,
}
use pumpling.Base.Doubles.{nearest_double-small}
use pumpling.Pumpfun.{parse_max_fee_bps, read_fees_total, read_tiers}

-- The layout of the account, from its fields.
pub record FeeRates : Type 0 where
  pub lp : ℕ
  pub protocol : ℕ
  pub creator : ℕ

pub record FeeTier : Type 0 where
  pub threshold : Bytes
  pub rates : FeeRates

abbrev pub encode_rates : FeeRates → Bytes → Bytes
encode_rates r rest = le_bytes 8 r.lp ++ (le_bytes 8 r.protocol ++ (le_bytes 8 r.creator ++ rest))

abbrev pub encode_tiers : List FeeTier → Bytes → Bytes
encode_tiers [] rest = rest
encode_tiers (t ∷ ts) rest = t.threshold ++ encode_rates t.rates (encode_tiers ts rest)

abbrev pub encode_config : Bytes → FeeRates → List FeeTier → Bytes → Bytes
encode_config header flat tiers rest =
    header ++ encode_rates flat (le_bytes 4 (length tiers) ++ encode_tiers tiers rest)

abbrev pub total_rate : FeeRates → ℕ
total_rate r = r.lp + r.protocol + r.creator

abbrev pub highest : ℕ → List FeeTier → ℕ
highest most [] = most
highest most (t ∷ ts) = highest (max most (total_rate t.rates)) ts

abbrev pub FitsRates : FeeRates → Type 0
FitsRates r = r.lp + r.protocol + r.creator < 2 ^ 53

abbrev pub FitsTier : FeeTier → Type 0
FitsTier t = (length t.threshold ≡ 16) × FitsRates t.rates

module _ (buf : Bytes) where
  HasRest-moved : (a b : ℕ) (rest : Bytes) → a ≡ b → HasRest buf a rest → HasRest buf b rest
  HasRest-moved a b rest e h = subst (λ n. HasRest buf n rest) e h

  past_number :
      (offset k n : ℕ) (rest : Bytes)
      → HasRest buf offset (le_bytes k n ++ rest)
      → HasRest buf (offset + k) rest
  past_number offset k n rest h =
      HasRest-skip buf offset k (le_bytes k n) rest (length-le_bytes k n) h

  second :
      (offset : ℕ) (r : FeeRates) (rest : Bytes)
      → HasRest buf offset (encode_rates r rest)
      → HasRest buf (offset + 8) (le_bytes 8 r.protocol ++ (le_bytes 8 r.creator ++ rest))
  second offset r rest h = past_number offset 8 r.lp _ h

  third :
      (offset : ℕ) (r : FeeRates) (rest : Bytes)
      → HasRest buf offset (encode_rates r rest)
      → HasRest buf (offset + 16) (le_bytes 8 r.creator ++ rest)
  third offset r rest h =
      HasRest-moved (offset + 8 + 8) (offset + 16) _ (omega arith)
        (past_number (offset + 8) 8 r.protocol _ (second offset r rest h))

  past_rates :
      (offset : ℕ) (r : FeeRates) (rest : Bytes)
      → HasRest buf offset (encode_rates r rest)
      → HasRest buf (offset + 24) rest
  past_rates offset r rest h =
      HasRest-moved (offset + 16 + 8) (offset + 24) _ (omega arith)
        (past_number (offset + 16) 8 r.creator _ (third offset r rest h))

  read_fees_total-encode :
      (offset : ℕ) (r : FeeRates) (rest : Bytes)
      → FitsRates r
      → HasRest buf offset (encode_rates r rest)
      → read_fees_total offset buf ≡ ok (total_rate r)
  unfolding read_fees_total
  read_fees_total-encode offset r rest fits h =
      rw
        (
          read_uint-le_bytes buf offset 8 r.lp _ (omega (arith, fits)) h,
          read_uint-le_bytes buf (offset + 8) 8 r.protocol _ (omega (arith, fits))
              (second offset r rest h),
          read_uint-le_bytes buf (offset + 16) 8 r.creator _ (omega (arith, fits))
              (third offset r rest h),
          nearest_double-small r.lp (omega (arith, fits)),
          nearest_double-small r.protocol (omega (arith, fits)),
          nearest_double-small r.creator (omega (arith, fits)),
          nearest_double-small (r.lp + r.protocol) (omega (arith, fits)),
          nearest_double-small (r.lp + r.protocol + r.creator) (omega (arith, fits)),
        )
        refl

  -- There is room for what is read.
  room :
      (offset : ℕ) (xs ys : Bytes) → HasRest buf offset (xs ++ ys) → offset + length xs ≤ length buf
  room offset xs ys h = omega (arith, HasRest-length buf offset (xs ++ ys) h, length-append xs ys)

  read_tiers-encode :
      (ts : List FeeTier) (offset most : ℕ) (rest : Bytes)
      → All FitsTier ts
      → HasRest buf offset (encode_tiers ts rest)
      → read_tiers (length ts) offset most buf ≡ ok (highest most ts)
  unfolding read_tiers
  read_tiers-encode [] offset most rest fits h = refl
  read_tiers-encode (t ∷ ts) offset most rest fits h =
      let rates = HasRest-skip buf offset 16 t.threshold _ fits.0.0 h in
      let onwards = past_rates (offset + 16) t.rates _ rates in
      if_elim (λ r. r ≡ ok (highest most (t ∷ ts))) (ltb (length buf) (offset + 16 + 24)) _ _
        (λ short. ground (arith, short, HasRest-length buf (offset + 16 + 24) _ onwards))
        (λ _.
          >>=-ok _ _ _ (read_fees_total-encode (offset + 16) t.rates _ fits.0.1 rates)
          ∙ read_tiers-encode ts (offset + 16 + 24) (max most (total_rate t.rates)) rest fits.1
              onwards)

-- Of an account with these rates, each total of which is below 2 ^ 53, whatever the header of 41
-- bytes and the rest behind the tiers, `parseMaxFeeBps` reads the highest total rate.
pub parse_max_fee_bps-encode_config :
    (header : Bytes) (flat : FeeRates) (tiers : List FeeTier) (rest : Bytes)
    → length header ≡ 41
    → FitsRates flat
    → All FitsTier tiers
    → length tiers < capacity 4
    → parse_max_fee_bps (encode_config header flat tiers rest)
      ≡ ok (highest (total_rate flat) tiers)
unfolding parse_max_fee_bps
parse_max_fee_bps-encode_config header flat tiers rest size fits tier_fits few =
    let buf = encode_config header flat tiers rest in
    let rates = HasRest-skip buf 0 41 header _ size (HasRest-start buf) in
    let counted = past_rates buf 41 flat _ rates in
    let tiered = past_number buf 65 4 (length tiers) _ counted in
    if_elim (λ r. r ≡ ok (highest (total_rate flat) tiers)) (ltb (length buf) 69) _ _
      (λ short. ground (arith, short, HasRest-length buf 69 _ tiered))
      (λ _.
        rw
          (
            read_fees_total-encode buf 41 flat _ fits rates,
            read_uint-le_bytes buf 65 4 (length tiers) _ few counted,
          )
          (read_tiers-encode buf tiers 69 (total_rate flat) rest tier_fits tiered))
