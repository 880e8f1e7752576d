-- ===== src/Orchestrator/Refunds/Plan.antt =====
-- What `planRefunds` (offchain/orchestrator/refunds.ts) gives back, and to whom.
use pumpling.Base.{
  ==_iff, All, All-append, Bool, List, Memᴰ, Option, [], any, any-append, ap, arith, false, if_elim,
  length, ltb, ltb→ge, map, none, refl, some, subst, sum_map, sum_map-append, sym, true, ℕ, ◌&&◌,
  ◌*◌, ◌+◌, ◌-◌, ◌==◌, ◌||◌, ◌∙◌, ◌∷◌, ◌≡◌, ◌≢◌, ◌≤◌,
}
use pumpling.Base.Rounding.{split_nearest}
use pumpling.Orchestrator.PurchaseTokens.{flat_map}
use pumpling.Orchestrator.RefundLedger.{RefundBasis}
use pumpling.Orchestrator.RefundLedger.Totals.{total}
use pumpling.Orchestrator.Refunds.{
  basis_or_state, fee_each, gross_of, ledger_get, min_refund, min_unspent, plan_refunds, refund_for,
  refunds_of, unspent_of,
}
use pumpling.Orchestrator.Refunds.Part.{All-IsRefund, IsRefund, refund_for-fields}
use pumpling.Orchestrator.Shares.{Share, shares_of, total_stake}
use pumpling.Orchestrator.State.{or_zero}
use pumpling.Orchestrator.Types.{LotteryState, Mint, RefundRecord, Sol, Time, TokenBuyRecord}

abbrev pub gross_in_all : List RefundRecord → Sol
gross_in_all = sum_map (λ r. r.gross_sol)

gross-refund_for :
    (mint : Mint) (now : Time) (unspent total fee : Sol) (s : Share)
    → (refund_for mint now unspent total fee s).gross_sol ≡ gross_of unspent total s
gross-refund_for mint now unspent total fee s =
    if_elim (λ (r : RefundRecord). r.gross_sol ≡ gross_of unspent total s)
      (ltb (gross_of unspent total s - fee) min_refund) _ _ (λ _. refl) (λ _. refl)

gross-map-refund_for :
    (mint : Mint) (now : Time) (unspent total fee : Sol) (ss : List Share)
    → gross_in_all (map (refund_for mint now unspent total fee) ss)
      ≡ sum_map (gross_of unspent total) ss
gross-map-refund_for mint now unspent total fee [] = refl
gross-map-refund_for mint now unspent total fee (s ∷ ss) = omega (
  arith,
  gross-refund_for mint now unspent total fee s,
  gross-map-refund_for mint now unspent total fee ss,
)

module _ (mint : Mint) (now : Time) (unspent : Sol) (shares : List Share) where
  abbrev Within : List RefundRecord → Type 0
  Within rs = 2 * gross_in_all rs ≤ 2 * unspent + length shares

  -- The refunds of a coin are at most what was left of it, and half a lamport more for each backer.
  refunds_of-Within : Within (refunds_of mint now unspent shares)
  unfolding refunds_of
  refunds_of-Within =
      if_elim Within (ltb unspent min_unspent) _ _ (λ _. omega arith)
        (λ _.
          if_elim Within (length shares == 0) _ _ (λ _. omega arith)
            (λ _.
              if_elim Within (total_stake shares == 0) _ _ (λ _. omega arith)
                (λ some_stake. omega (
                  arith,
                  gross-map-refund_for mint now unspent (total_stake shares) (fee_each shares)
                      shares,
                  split_nearest (λ (s : Share). s.stake) unspent (total_stake shares) (ground arith)
                      shares (unfold total_stake in refl),
                ))))

-- What was given and not spent, by the entry of a coin or, where it has none, by its record.
abbrev pub left_by : Option RefundBasis → TokenBuyRecord → Sol
left_by (some b) t = b.allocated + b.delivery_leftover + b.spent.got - b.spent.paid
left_by none t = t.adjusted_sol_amount - or_zero t.spent_sol

basis-left_by :
    (o : Option RefundBasis) (t : TokenBuyRecord)
    → (basis_or_state o t).allocated
        + (basis_or_state o t).delivery_leftover
        + (basis_or_state o t).spent.got
        - (basis_or_state o t).spent.paid
      ≡ left_by o t
basis-left_by (some b) t = refl
basis-left_by none t = omega arith

-- The refund is this backer's, for this coin.
abbrev pub names_backer : Mint → Share → RefundRecord → Bool
names_backer mint s r = r.mint == mint && r.recipient == s.wallet

named_in_map :
    (mint : Mint) (now : Time) (left total fee : Sol) (s : Share) (ss : List Share)
    → Memᴰ s ss
    → any (names_backer mint s) (map (refund_for mint now left total fee) ss) ≡ true
named_in_map mint now left total fee s [] m = elim m [ ]
named_in_map mint now left total fee s (u ∷ ss) (Memᴰ.head e) =
    let (mint_is, wallet_is, _, _) = refund_for-fields mint now left total fee u in
    let whose = wallet_is ∙ ap (λ (x : Share). x.wallet) (sym e) in
    ground (arith, (==_iff _ mint).1 mint_is, (==_iff _ s.wallet).1 whose)
named_in_map mint now left total fee s (u ∷ ss) (Memᴰ.tail m) =
    ground (arith, named_in_map mint now left total fee s ss m)

module _ (state : LotteryState) (ledger : List (Mint × RefundBasis)) (now : Time) where
  abbrev left_of : TokenBuyRecord → Sol
  left_of t = left_by (ledger_get t.mint ledger) t

  abbrev refunds_at : TokenBuyRecord → List RefundRecord
  refunds_at t = refunds_of t.mint now (unspent_of ledger t) (shares_of state t.mint)

  -- What the refunds of a coin may come to, twice over.
  abbrev pub refund_limit : TokenBuyRecord → ℕ
  refund_limit t = 2 * left_by (ledger_get t.mint ledger) t + length (shares_of state t.mint)

  refunds_of-AllRefunds :
      (t : TokenBuyRecord) → Memᴰ t state.token_buys → All (IsRefund state ledger) (refunds_at t)
  unfolding refunds_of
  refunds_of-AllRefunds t of_round =
      let shares = shares_of state t.mint in
      let P = All (IsRefund state ledger) in
      if_elim P (ltb (unspent_of ledger t) min_unspent) _ _ (λ _. tt)
        (λ enough.
          if_elim P (length shares == 0) _ _ (λ _. tt)
            (λ some_share.
              if_elim P (total_stake shares == 0) _ _ (λ _. tt)
                (λ some_stake.
                  All-IsRefund state ledger now t of_round (ltb→ge _ _ enough)
                    (ground (arith, some_stake)) (ground (arith, some_share)) shares (λ s m. m))))

  every-IsRefund :
      (ts : List TokenBuyRecord)
      → ((t : TokenBuyRecord) → Memᴰ t ts → Memᴰ t state.token_buys)
      → All (IsRefund state ledger) (flat_map refunds_at ts)
  every-IsRefund [] within = tt
  every-IsRefund (t ∷ ts) within =
      All-append (IsRefund state ledger) (refunds_at t) (flat_map refunds_at ts)
        (refunds_of-AllRefunds t (within t (Memᴰ.head refl)))
        (every-IsRefund ts (λ u m. within u (Memᴰ.tail m)))

  in_all :
      (ts : List TokenBuyRecord)
      → 2 * gross_in_all (flat_map refunds_at ts) ≤ sum_map refund_limit ts
  in_all [] = omega arith
  in_all (t ∷ ts) = omega (
    arith,
    refunds_of-Within t.mint now (unspent_of ledger t) (shares_of state t.mint),
    basis-left_by (ledger_get t.mint ledger) t,
    in_all ts,
    sum_map-append (λ (r : RefundRecord). r.gross_sol) (refunds_at t) (flat_map refunds_at ts),
  )

  stake_needs_share : (ss : List Share) → total_stake ss ≢ 0 → (length ss == 0) ≡ false
  unfolding total_stake
  stake_needs_share [] h = absurd (h refl)
  stake_needs_share (s ∷ ss) h = ground arith

  refunds_at-named :
      (t : TokenBuyRecord) (s : Share)
      → 1000000 ≤ left_of t
      → total_stake (shares_of state t.mint) ≢ 0
      → Memᴰ s (shares_of state t.mint)
      → any (names_backer t.mint s) (refunds_at t) ≡ true
  unfolding refunds_of
  refunds_at-named t s enough stake backs =
      let shares = shares_of state t.mint in
      let same = basis-left_by (ledger_get t.mint ledger) t in
      let large : ltb (unspent_of ledger t) min_unspent ≡ false = ground (arith, same, enough) in
      let some_stake : (total_stake shares == 0) ≡ false = ground (arith, stake) in
      rw (large, stake_needs_share shares stake, some_stake)
        (named_in_map t.mint now (unspent_of ledger t) (total_stake shares) (fee_each shares) s
          shares backs)

  any-flat_map :
      (p : RefundRecord → Bool) (t : TokenBuyRecord) (ts : List TokenBuyRecord)
      → Memᴰ t ts
      → any p (refunds_at t) ≡ true
      → any p (flat_map refunds_at ts) ≡ true
  any-flat_map p t [] m h = elim m [ ]
  any-flat_map p t (u ∷ ts) (Memᴰ.head e) h =
      any-append p (refunds_at u) (flat_map refunds_at ts)
      ∙ ap (λ (b : Bool). b || any p (flat_map refunds_at ts))
          (subst (λ (x : TokenBuyRecord). any p (refunds_at x) ≡ true) e h)
  any-flat_map p t (u ∷ ts) (Memᴰ.tail m) h =
      any-append p (refunds_at u) (flat_map refunds_at ts)
      ∙ or_true (any p (refunds_at u)) (any-flat_map p t ts m h)
    where
      or_true : {b : Bool} (a : Bool) → b ≡ true → (a || b) ≡ true
      or_true true e = refl
      or_true false e = e

  -- Every refund of the plan belongs to a coin of the round of which at least 0.001 SOL is left, and
  -- to one of its backers: its gross amount is the backer's part by stake of what was given and not
  -- spent, its fee the backer's part of the transactions, both to the nearest lamport; it is to be
  -- sent, at no less than 0.002 SOL, or is skipped and pays nothing. Together the gross amounts are
  -- at most what is left of all coins, and half a lamport more for each backer of each coin. Every
  -- backer of a coin with a stake, of which at least 0.001 SOL is left, has a refund in the plan.
  pub plan_refunds_lem :
      All (IsRefund state ledger) (plan_refunds state ledger now)
      × (2 * gross_in_all (plan_refunds state ledger now) ≤ sum_map refund_limit state.token_buys)
      × ((t : TokenBuyRecord) (s : Share)
          → Memᴰ t state.token_buys
          → Memᴰ s (shares_of state t.mint)
          → 1000000 ≤ left_by (ledger_get t.mint ledger) t
          → total_stake (shares_of state t.mint) ≢ 0
          → any (names_backer t.mint s) (plan_refunds state ledger now) ≡ true)
  unfolding plan_refunds
  plan_refunds_lem = (
    every-IsRefund state.token_buys (λ t m. m),
    in_all state.token_buys,
    λ t s of_round backs enough stake.
        any-flat_map (names_backer t.mint s) t state.token_buys of_round
          (refunds_at-named t s enough stake backs),
  )
