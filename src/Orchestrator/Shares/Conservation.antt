-- ===== src/Orchestrator/Shares/Conservation.antt =====
-- What is burned and what is delivered add up to what was bought
-- (offchain/orchestrator/shares.ts).
use pumpling.Base.{
  All, Bool-cases, List, Option, [], arith, false, find?, if◌then◌else◌, inl, inr, length, refl,
  some, sum_map, ℕ, ◌*◌, ◌+◌, ◌-◌, ◌/◌, ◌<◌, ◌==◌, ◌∷◌, ◌≡◌, ◌≢◌, ◌≤◌, ◌⊎◌,
}
use pumpling.Base.Division.{div_bounds, split_bounds}
use pumpling.Orchestrator.Shares.{
  Share, burn_owed, burn_weight, delivery_owed, full_bps, has_wallet, total_stake,
}
use pumpling.Orchestrator.Shares.Bounds.{Distinct, IsFair, IsValid}
use pumpling.Orchestrator.Types.{Wallet}

abbrev find_wallet : Wallet → List Share → Option Share
find_wallet w = find? (λ s. s.wallet == w)

-- Behind a share of another wallet the search goes on.
find-skip :
    (t : Share) (all ss : List Share)
    → has_wallet t.wallet ss ≡ false
    → All (λ s. find_wallet s.wallet all ≡ some s) ss
    → All (λ s. find_wallet s.wallet (t ∷ all) ≡ some s) ss
find-skip t all [] h f = tt
find-skip t all (s ∷ ss) h f = (ground arith, find-skip t all ss (ground arith) f.1)

-- Where no wallet stands twice, every share is found by its wallet.
find_self : (ss : List Share) → Distinct ss → All (λ s. find_wallet s.wallet ss ≡ some s) ss
find_self [] d = tt
find_self (s ∷ ss) d = (ground arith, find-skip s ss ss d.0 (find_self ss d.1))

-- What one share keeps: its weight in the delivery.
abbrev kept : Share → ℕ
kept s = s.stake * full_bps - s.burn

abbrev owed_to : ℕ → ℕ → Share → ℕ
owed_to bought d s = bought * kept s / d

-- Rounding each quotient down loses less than one unit for each share.
floor_sum :
    (bought d : ℕ) (ss : List Share)
    → 0 < d
    → (sum_map (owed_to bought d) ss * d ≤ bought * sum_map kept ss)
      × (bought * sum_map kept ss ≤ sum_map (owed_to bought d) ss * d + length ss * d)
floor_sum bought d [] h = (omega arith, omega arith)
floor_sum bought d (s ∷ ss) h = (
  omega (arith, div_bounds (bought * kept s) d h, floor_sum bought d ss h),
  omega (arith, div_bounds (bought * kept s) d h, floor_sum bought d ss h),
)

-- The weights that are kept and the weights that burn make up the denominator.
kept-add-burn :
    (ss : List Share) → All IsFair ss → sum_map kept ss + burn_weight ss ≡ total_stake ss * full_bps
unfolding burn_weight total_stake
kept-add-burn [] h = omega arith
kept-add-burn (s ∷ ss) h = omega (arith, kept-add-burn ss h.1)

-- For a wallet whose share is found, the quotient that the rule names.
delivery_owed-found :
    (bought : ℕ) (all : List Share) (s : Share)
    → bought ≢ 0
    → total_stake all ≢ 0
    → find_wallet s.wallet all ≡ some s
    → delivery_owed bought s.wallet all ≡ owed_to bought (total_stake all * full_bps) s
unfolding delivery_owed
delivery_owed-found bought all s b t f = rw f (ground arith)

sum_delivery :
    (bought : ℕ) (all ss : List Share)
    → bought ≢ 0
    → total_stake all ≢ 0
    → All (λ s. find_wallet s.wallet all ≡ some s) ss
    → sum_map (λ s. delivery_owed bought s.wallet all) ss
      ≡ sum_map (owed_to bought (total_stake all * full_bps)) ss
sum_delivery bought all [] b t f = refl
sum_delivery bought all (s ∷ ss) b t f =
    omega (arith, delivery_owed-found bought all s b t f.0, sum_delivery bought all ss b t f.1)

-- Nothing bought, nothing owed; and nobody behind a coin, nothing owed either.
pub delivery_owed-zero :
    (bought : ℕ) (w : Wallet) (ss : List Share)
    → (bought ≡ 0) ⊎ (total_stake ss ≡ 0)
    → (delivery_owed bought w ss ≡ 0) × (burn_owed bought ss ≡ 0)
unfolding delivery_owed burn_owed
delivery_owed-zero bought w ss h = ground arith

sum_delivery-zero : (all ss : List Share) → sum_map (λ s. delivery_owed 0 s.wallet all) ss ≡ 0
sum_delivery-zero all [] = refl
sum_delivery-zero all (s ∷ ss) =
    omega (arith, delivery_owed-zero 0 s.wallet all (inl refl), sum_delivery-zero all ss)

burn_owed-pos :
    (bought : ℕ) (ss : List Share)
    → bought ≢ 0
    → total_stake ss ≢ 0
    → burn_owed bought ss ≡ bought * burn_weight ss / (total_stake ss * full_bps)
unfolding burn_owed
burn_owed-pos bought ss b t = ground arith

-- What the fire and every wallet together are owed.
pub owed_in_all : ℕ → List Share → ℕ
owed_in_all bought ss = burn_owed bought ss + sum_map (λ s. delivery_owed bought s.wallet ss) ss

-- With distinct fair shares that are not all without a stake, the burn and all the deliveries
-- together are at most what was bought, and less than one unit for each wallet, and one for the
-- fire, is left over.
pub owed_in_all_bounds :
    (bought : ℕ) (ss : List Share)
    → IsValid ss
    → total_stake ss ≢ 0
    → (owed_in_all bought ss ≤ bought) × (bought < owed_in_all bought ss + length ss + 1)
unfolding owed_in_all
owed_in_all_bounds bought ss v t = elim (Bool-cases (bought == 0)) [
  | inl z ↦
      let e : bought ≡ 0 = ground arith in
      rw e (omega (arith, sum_delivery-zero ss ss, delivery_owed-zero 0 0 ss (inl refl)))
  | inr nz ↦
      let b : bought ≢ 0 = ground arith in
      let d : 0 < total_stake ss * full_bps = omega arith in
      rw (burn_owed-pos bought ss b t, sum_delivery bought ss ss b t (find_self ss v.1))
        (split_bounds bought (total_stake ss * full_bps) (sum_map kept ss) (burn_weight ss)
          (sum_map (owed_to bought (total_stake ss * full_bps)) ss)
          (bought * burn_weight ss / (total_stake ss * full_bps)) (length ss) d
          (kept-add-burn ss v.0) (floor_sum bought _ ss d)
          (let q = div_bounds (bought * burn_weight ss) _ d in (q.0, q.1)))
]

-- The same backers, with wallet `v` asking for another burn.
pub set_burn : Wallet → ℕ → List Share → List Share
set_burn v burn [] = []
set_burn v burn (s ∷ ss) =
    (if s.wallet == v then record s { burn = burn } else s) ∷ set_burn v burn ss

total_stake-set_burn :
    (v : Wallet) (burn : ℕ) (ss : List Share) → total_stake (set_burn v burn ss) ≡ total_stake ss
unfolding total_stake set_burn
total_stake-set_burn v burn [] = refl
total_stake-set_burn v burn (s ∷ ss) = ground (arith, total_stake-set_burn v burn ss)

find-set_burn :
    (v w : Wallet) (burn : ℕ) (ss : List Share)
    → w ≢ v
    → find_wallet w (set_burn v burn ss) ≡ find_wallet w ss
unfolding set_burn
find-set_burn v w burn [] h = refl
find-set_burn v w burn (s ∷ ss) h = ground (arith, find-set_burn v w burn ss h)

-- Whatever burn another wallet asks for, what a wallet is owed stays the same.
pub delivery_owed-set_burn :
    (bought : ℕ) (v w : Wallet) (burn : ℕ) (ss : List Share)
    → w ≢ v
    → delivery_owed bought w (set_burn v burn ss) ≡ delivery_owed bought w ss
unfolding delivery_owed
delivery_owed-set_burn bought v w burn ss h =
    rw (total_stake-set_burn v burn ss, find-set_burn v w burn ss h)
