-- ===== src/Orchestrator/Refunds/Part.antt =====
-- One refund of `planRefunds` (offchain/orchestrator/refunds.ts): what was left of its coin, whose it
-- is, its part and its fee.
-- A refund that is to be sent is at least 0.002 SOL and with its fee it is the gross part; one that
use pumpling.Base.{
  All, List, Memᴰ, Option, [], arith, if_elim, inl, inr, length, ltb, ltb→ge, ltb→lt, map, none,
  refl, some, subst, sym, ℕ, ◌*◌, ◌+◌, ◌-◌, ◌/◌, ◌<◌, ◌∷◌, ◌≡◌, ◌≢◌, ◌≤◌, ◌⊎◌,
}
use pumpling.Base.Division.{div_bounds}
use pumpling.Base.Rounding.{nearest, nearest_ge, nearest_le}
use pumpling.Orchestrator.RefundLedger.{RefundBasis}
use pumpling.Orchestrator.RefundLedger.Totals.{total}
use pumpling.Orchestrator.Refunds.{
  basis_or_state, fee_each, gross_of, ledger_get, min_refund, refund_for, unspent_of,
}
use pumpling.Orchestrator.Shares.{Share, shares_of, total_stake}
use pumpling.Orchestrator.State.{or_zero}
use pumpling.Orchestrator.Types.{
  LotteryState, Mint, RefundRecord, RefundStatus, Sol, Time, TokenBuyRecord,
}

-- is too small is skipped and pays nothing.
abbrev pub IsFairRefund : RefundRecord → Type 0
IsFairRefund r =
    ((r.status ≡ RefundStatus.pending)
      × (2000000 ≤ r.amount_sol)
      × (r.amount_sol + r.fee_sol ≡ r.gross_sol))
    ⊎ ((r.status ≡ RefundStatus.skipped) × (r.amount_sol ≡ 0) × (r.gross_sol < 2000000 + r.fee_sol))

-- `x` is the whole number nearest to `a / d`.
abbrev pub IsNearest : ℕ → ℕ → ℕ → Type 0
IsNearest x a d = (2 * a ≤ 2 * (x * d) + d) × (2 * (x * d) ≤ 2 * a + d)

-- What a coin was given and what it cost: its entry, or what its record says where it has none.
abbrev pub HasBasis : List (Mint × RefundBasis) → TokenBuyRecord → RefundBasis → Type 0
HasBasis ledger t b =
    (ledger_get t.mint ledger ≡ some b)
    ⊎ ((ledger_get t.mint ledger ≡ none)
        × (b.allocated ≡ t.adjusted_sol_amount)
        × (b.spent.paid ≡ or_zero t.spent_sol)
        × (b.spent.got ≡ 0)
        × (b.delivery_leftover ≡ 0))

-- What was given and not spent: what is left of it with the spending is all of it.
pub record IsLeft (ledger : List (Mint × RefundBasis)) (t : TokenBuyRecord) (left : Sol)
    : Type 0 where
  pub basis : RefundBasis
  pub found : HasBasis ledger t basis
  pub unspent :
      left + basis.spent.paid ≡ basis.allocated + basis.delivery_leftover + basis.spent.got

-- The refund of a backer: of what is left of the coin, to the nearest lamport, the part that is the
-- backer's of all stakes; and of 10000 lamports for each transaction of eight refunds, to the nearest
-- lamport, the backer's equal part.
pub record IsPart (fee gross left : Sol) (shares : List Share) (s : Share) : Type 0 where
  pub part : IsNearest gross (left * s.stake) (total_stake shares)
  pub transactions : ℕ
  pub all_carried : length shares ≤ 8 * transactions
  pub none_idle : 8 * transactions < length shares + 8
  pub fee_part : IsNearest fee (10000 * transactions) (length shares)

nearest-IsNearest : (a d : ℕ) → 0 < d → IsNearest (nearest a d) a d
nearest-IsNearest a d h = (nearest_ge a d h, nearest_le a d h)

fair_refund :
    (mint : Mint) (now : Time) (left total fee : Sol) (s : Share)
    → IsFairRefund (refund_for mint now left total fee s)
fair_refund mint now left total fee s =
    if_elim IsFairRefund (ltb (gross_of left total s - fee) min_refund) _ _
      (λ e. inr (refl, refl, omega (arith, ltb→lt _ _ e)))
      (λ e. let large = ltb→ge _ _ e in inl (refl, large, omega (arith, large)))

pub refund_for-fields :
    (mint : Mint) (now : Time) (left total fee : Sol) (s : Share)
    → ((refund_for mint now left total fee s).mint ≡ mint)
      × ((refund_for mint now left total fee s).recipient ≡ s.wallet)
      × ((refund_for mint now left total fee s).gross_sol ≡ gross_of left total s)
      × ((refund_for mint now left total fee s).fee_sol ≡ fee)
refund_for-fields mint now left total fee s =
    if_elim
      (λ (r : RefundRecord).
        (r.mint ≡ mint)
        × (r.recipient ≡ s.wallet)
        × (r.gross_sol ≡ gross_of left total s)
        × (r.fee_sol ≡ fee))
      (ltb (gross_of left total s - fee) min_refund) _ _ (λ _. (refl, refl, refl, refl))
      (λ _. (refl, refl, refl, refl))

IsPart-shares :
    (left : Sol) (shares : List Share) (s : Share)
    → total_stake shares ≢ 0
    → length shares ≢ 0
    → IsPart (fee_each shares) (gross_of left (total_stake shares) s) left shares s
IsPart-shares left shares s some_stake some_share =
    let size = length shares in
    let bounds = div_bounds (size + 7) 8 (omega arith) in
    record {
      part = nearest-IsNearest (left * s.stake) (total_stake shares) (omega (arith, some_stake));
      transactions = (size + 7) / 8;
      all_carried = omega (arith, bounds.1);
      none_idle = omega (arith, bounds.0);
      fee_part = nearest-IsNearest (10000 * ((size + 7) / 8)) size (omega (arith, some_share));
    }

module _ (state : LotteryState) (ledger : List (Mint × RefundBasis)) where
  pub record IsRefund (r : RefundRecord) : Type 0 where
    pub token : TokenBuyRecord
    pub of_round : Memᴰ token state.token_buys
    pub coin : r.mint ≡ token.mint
    pub share : Share
    pub backs : Memᴰ share (shares_of state token.mint)
    pub backer : r.recipient ≡ share.wallet
    pub left : Sol
    pub of_left : IsLeft ledger token left
    pub enough : 1000000 ≤ left
    pub parts : IsPart r.fee_sol r.gross_sol left (shares_of state token.mint) share
    pub fair : IsFairRefund r

  unspent-IsLeft :
      (t : TokenBuyRecord) (o : Option RefundBasis)
      → ledger_get t.mint ledger ≡ o
      → 1000000
        ≤ (basis_or_state o t).allocated
          + (basis_or_state o t).delivery_leftover
          + (basis_or_state o t).spent.got
          - (basis_or_state o t).spent.paid
      → IsLeft ledger t (
          (basis_or_state o t).allocated
          + (basis_or_state o t).delivery_leftover
          + (basis_or_state o t).spent.got
          - (basis_or_state o t).spent.paid)
  unspent-IsLeft t none e h = record {
    basis = basis_or_state none t;
    found = inr (e, refl, refl, refl, refl);
    unspent = omega (arith, h);
  }
  unspent-IsLeft t (some b) e h = record { basis = b; found = inl e; unspent = omega (arith, h) }

  module _ (now : Time) where
    module _ (t : TokenBuyRecord) (of_round : Memᴰ t state.token_buys)
        (enough : 1000000 ≤ unspent_of ledger t)
        (some_stake : total_stake (shares_of state t.mint) ≢ 0)
        (some_share : length (shares_of state t.mint) ≢ 0) where
      abbrev refund_of : Share → RefundRecord
      refund_of =
          refund_for t.mint now (unspent_of ledger t) (total_stake (shares_of state t.mint))
            (fee_each (shares_of state t.mint))

      refund_of-IsRefund : (s : Share) → Memᴰ s (shares_of state t.mint) → IsRefund (refund_of s)
      refund_of-IsRefund s backs =
          let shares = shares_of state t.mint in
          let left = unspent_of ledger t in
          let (mint_is, wallet_is, gross_is, fee_is) =
            refund_for-fields t.mint now left (total_stake shares) (fee_each shares) s in
          record {
            token = t;
            of_round = of_round;
            coin = mint_is;
            share = s;
            backs = backs;
            backer = wallet_is;
            left = left;
            of_left = unspent-IsLeft t (ledger_get t.mint ledger) refl enough;
            enough = enough;
            parts =
                subst (λ (f : ℕ). IsPart f (refund_of s).gross_sol left shares s) (sym fee_is)
                  (subst (λ (g : ℕ). IsPart (fee_each shares) g left shares s) (sym gross_is)
                    (IsPart-shares left shares s some_stake some_share));
            fair = fair_refund t.mint now left (total_stake shares) (fee_each shares) s;
          }

      pub All-IsRefund :
          (ss : List Share)
          → ((s : Share) → Memᴰ s ss → Memᴰ s (shares_of state t.mint))
          → All IsRefund (map refund_of ss)
      All-IsRefund [] within = tt
      All-IsRefund (s ∷ ss) within = (
        refund_of-IsRefund s (within s (Memᴰ.head refl)),
        All-IsRefund ss (λ r m. within r (Memᴰ.tail m)),
      )
