-- ===== src/Pumpfun/Global.antt =====
-- offchain/pumpfun/buy.ts: `parsePumpGlobal` against the account that it reads.
use pumpling.Base.{
  All, Bool, List, [], ap, arith, false, length, ltb, ok, refl, subst, sym, true, ℕ, ◌*◌, ◌++◌, ◌+◌,
  ◌∙◌, ◌∷◌, ◌≡◌,
}
use pumpling.Base.Bytes.{
  Bytes, HasRest, HasRest-drop, HasRest-length, HasRest-skip, HasRest-start, HasRest-subarray,
}
use pumpling.Pumpfun.{Pubkey, PumpGlobal, not_zero_at, parse_pump_global, pubkeys}

abbrev pub IsPubkey : Pubkey → Type 0
IsPubkey key = length key ≡ 32

abbrev pub encode_keys : List Pubkey → Bytes → Bytes
encode_keys [] rest = rest
encode_keys (k ∷ ks) rest = k ++ encode_keys ks rest

-- The parts of the account that are passed over.
pub record Gaps : Type 0 where
  pub before_fee : Bytes
  pub before_fees : Bytes
  pub before_reserved : Bytes
  pub before_buybacks : Bytes

pub record FitsGaps (g : Gaps) : Type 0 where
  pub fee : length g.before_fee ≡ 41
  pub fees : length g.before_fees ≡ 89
  pub reserved : length g.before_reserved ≡ 97
  pub buybacks : length g.before_buybacks ≡ 1

pub record FitsGlobal (p : PumpGlobal) : Type 0 where
  pub fee : IsPubkey p.fee_recipient
  pub fees : All IsPubkey p.fee_recipients
  pub seven : length p.fee_recipients ≡ 7
  pub reserved : IsPubkey p.reserved_fee_recipient
  pub reserveds : All IsPubkey p.reserved_fee_recipients
  pub seven_reserved : length p.reserved_fee_recipients ≡ 7
  pub buybacks : All IsPubkey p.buyback_fee_recipients
  pub eight : length p.buyback_fee_recipients ≡ 8

abbrev pub flag_byte : Bool → ℕ
flag_byte true = 1
flag_byte false = 0

-- The layout of the account, from its fields.
abbrev pub encode_global : Gaps → PumpGlobal → Bytes → Bytes
encode_global g p rest =
    g.before_fee
    ++ (p.fee_recipient
        ++ (g.before_fees
            ++ encode_keys p.fee_recipients (
                g.before_reserved
                ++ (p.reserved_fee_recipient
                    ++ ((flag_byte p.mayhem_mode_enabled ∷ [])
                        ++ encode_keys p.reserved_fee_recipients
                            (g.before_buybacks ++ encode_keys p.buyback_fee_recipients rest))))))

module _ (buf : Bytes) where
  pubkeys-encode :
      (ks : List Pubkey) (offset : ℕ) (rest : Bytes)
      → All IsPubkey ks
      → HasRest buf offset (encode_keys ks rest)
      → pubkeys (length ks) offset buf ≡ ks
  unfolding pubkeys
  pubkeys-encode [] offset rest fits h = refl
  pubkeys-encode (k ∷ ks) offset rest fits h =
      rw
        (
          HasRest-subarray buf offset 32 k _ fits.0 h,
          pubkeys-encode ks (offset + 32) rest fits.1 (HasRest-skip buf offset 32 k _ fits.0 h),
        )
        refl

  past_keys :
      (ks : List Pubkey) (offset : ℕ) (rest : Bytes)
      → All IsPubkey ks
      → HasRest buf offset (encode_keys ks rest)
      → HasRest buf (offset + length ks * 32) rest
  past_keys [] offset rest fits h = subst (λ n. HasRest buf n rest) (omega arith) h
  past_keys (k ∷ ks) offset rest fits h =
      subst (λ n. HasRest buf n rest) (omega arith)
        (past_keys ks (offset + 32) rest fits.1 (HasRest-skip buf offset 32 k _ fits.0 h))

  not_zero_at-flag :
      (offset : ℕ) (b : Bool) (rest : Bytes)
      → HasRest buf offset (flag_byte b ∷ rest)
      → not_zero_at offset buf ≡ b
  not_zero_at-flag offset true rest h = rw (HasRest-drop buf offset _ h, not_zero_at) refl
  not_zero_at-flag offset false rest h = rw (HasRest-drop buf offset _ h, not_zero_at) refl

  pubkeys-counted :
      (n : ℕ) (ks : List Pubkey) (offset : ℕ) (rest : Bytes)
      → length ks ≡ n
      → All IsPubkey ks
      → HasRest buf offset (encode_keys ks rest)
      → (pubkeys n offset buf ≡ ks) × HasRest buf (offset + n * 32) rest
  pubkeys-counted n ks offset rest size fits h = (
    ap (λ m. pubkeys m offset buf) (sym size) ∙ pubkeys-encode ks offset rest fits h,
    subst (λ m. HasRest buf (offset + m * 32) rest) size (past_keys ks offset rest fits h),
  )

  long_enough : (n : ℕ) (rest : Bytes) → HasRest buf n rest → ltb (length buf) n ≡ false
  long_enough n rest h = ground (arith, HasRest-length buf n rest h)

  parse_pump_global-parts :
      (g : Gaps) (p : PumpGlobal) (rest : Bytes)
      → FitsGaps g
      → FitsGlobal p
      → HasRest buf 0 (encode_global g p rest)
      → parse_pump_global buf ≡ ok p
  unfolding parse_pump_global
  parse_pump_global-parts g p rest gaps fits h =
      let at_fee = HasRest-skip buf 0 41 g.before_fee _ gaps.fee h in
      let past_fee = HasRest-skip buf 41 32 p.fee_recipient _ fits.fee at_fee in
      let at_fees = HasRest-skip buf 73 89 g.before_fees _ gaps.fees past_fee in
      let fees = pubkeys-counted 7 p.fee_recipients 162 _ fits.seven fits.fees at_fees in
      let at_reserved = HasRest-skip buf 386 97 g.before_reserved _ gaps.reserved fees.1 in
      let at_flag = HasRest-skip buf 483 32 p.reserved_fee_recipient _ fits.reserved at_reserved in
      let at_reserveds =
        HasRest-skip buf 515 1 (flag_byte p.mayhem_mode_enabled ∷ []) _ refl at_flag in
      let reserveds =
        pubkeys-counted 7 p.reserved_fee_recipients 516 _ fits.seven_reserved fits.reserveds
          at_reserveds in
      let at_buybacks = HasRest-skip buf 740 1 g.before_buybacks _ gaps.buybacks reserveds.1 in
      let buybacks =
        pubkeys-counted 8 p.buyback_fee_recipients 741 _ fits.eight fits.buybacks at_buybacks in
      rw
        (
          long_enough 997 rest buybacks.1,
          HasRest-subarray buf 41 32 p.fee_recipient _ fits.fee at_fee,
          fees.0,
          HasRest-subarray buf 483 32 p.reserved_fee_recipient _ fits.reserved at_reserved,
          reserveds.0,
          buybacks.0,
          not_zero_at-flag 515 p.mayhem_mode_enabled _ at_flag,
        )
        refl

-- Of an account with these fee recipients, each a key of 32 bytes, seven, seven and eight in the
-- lists, whatever stands in the other fields and behind the last, `parsePumpGlobal` reads them.
pub parse_pump_global-encode_global :
    (g : Gaps) (p : PumpGlobal) (rest : Bytes)
    → FitsGaps g
    → FitsGlobal p
    → parse_pump_global (encode_global g p rest) ≡ ok p
parse_pump_global-encode_global g p rest gaps fits =
    parse_pump_global-parts (encode_global g p rest) g p rest gaps fits
      (HasRest-start (encode_global g p rest))
