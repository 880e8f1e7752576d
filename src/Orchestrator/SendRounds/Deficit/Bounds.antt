-- ===== src/Orchestrator/SendRounds/Deficit/Bounds.antt =====
-- What `calculateDeficitAmounts` (offchain/orchestrator/sendRounds.ts) hands out.
use pumpling.Base.{
  All, Bool-cases, List, Option, [], arith, dedup-has, filter, has, if_elim, inl, inr, leb, leb→gt,
  leb→le, length, map, min, refl, sum_map, sum_map-append, true, ℕ, ◌*◌, ◌+◌, ◌/◌, ◌<◌, ◌==◌, ◌∙◌,
  ◌∷◌, ◌≡◌, ◌≢◌, ◌≤◌,
}
use pumpling.Base.Division.{div_bounds, le_of_mul_le_mul_right}
use pumpling.Orchestrator.SendRounds.Deficit.{
  DeliveryBasis, Entry, already_sent, amounts_from, calculate_deficit_amounts, deficit_of,
  distribute, entries_of, ids_of, is_positive, recipients, split_all, split_even, split_for,
  total_bets, total_deficit,
}
use pumpling.Orchestrator.Types.{SendRecord, Wallet}

abbrev amounts : {A : Type 0} → List (A × ℕ) → ℕ
amounts = sum_map (λ g. g.1)

-- With a balance that covers every deficit, each recipient gets exactly its deficit.
distribute_exact :
    (total balance distributed : ℕ) (es : List Entry)
    → total ≤ balance
    → distributed + total_deficit es ≡ total
    → distribute total balance distributed es ≡ map (λ e. (e.recipient, e.deficit)) es
unfolding distribute
distribute_exact total balance distributed [] h e = refl
distribute_exact total balance distributed (x ∷ []) h e = ground arith
distribute_exact total balance distributed (x ∷ y ∷ es) h e =
    ground (arith, distribute_exact total balance (distributed + x.deficit) (y ∷ es) h)

-- Without, all the amounts together are the balance.
sum-distribute_short :
    (total balance distributed : ℕ) (e : Entry) (es : List Entry)
    → balance < total
    → distributed * total + balance * total_deficit (e ∷ es) ≤ balance * total
    → amounts (distribute total balance distributed (e ∷ es)) + distributed ≡ balance
unfolding distribute
sum-distribute_short total balance distributed e [] h k =
    let fits : distributed ≤ balance =
      le_of_mul_le_mul_right distributed balance total (omega arith) (omega (arith, k)) in
    ground arith
sum-distribute_short total balance distributed e (f ∷ es) h k =
    let a = balance * e.deficit / total in
    let (low, _) = div_bounds (balance * e.deficit) total (omega arith) in
    ground
      (arith, sum-distribute_short total balance (distributed + a) f es h (omega (arith, low, k)))

sum-split_even :
    (amount per given : ℕ) (id : ℕ) (ids : List ℕ)
    → given + per * length (id ∷ ids) ≤ amount
    → amounts (split_even amount per given (id ∷ ids)) + given ≡ amount
unfolding split_even
sum-split_even amount per given id [] h = ground arith
sum-split_even amount per given id (j ∷ ids) h =
    ground (arith, sum-split_even amount per (given + per) j ids)

sum-filter_positive : (gs : List (ℕ × ℕ)) → amounts (filter is_positive gs) ≡ amounts gs
sum-filter_positive [] = refl
sum-filter_positive (g ∷ gs) = ground (arith, sum-filter_positive gs)

sum-split_for :
    (active : List SendRecord) (w : Wallet) (amount : ℕ)
    → 0 < length (ids_of active w)
    → amounts (split_for active (w, amount)) ≡ amount
sum-split_for active w amount h = go (ids_of active w) h
  where
    go :
        (ids : List ℕ)
        → 0 < length ids
        → amounts (split_even amount (amount / length ids) 0 ids) ≡ amount
    go [] h = absurd (omega arith)
    go (id ∷ ids) h = omega (
      arith,
      sum-split_even amount (amount / length (id ∷ ids)) 0 id ids
          (omega (arith, div_bounds amount (length (id ∷ ids)) h)),
    )

-- A wallet that has deliveries in the round.
abbrev IsServed : List SendRecord → Wallet → Type 0
IsServed active w = 0 < length (ids_of active w)

sum-split_all :
    (active : List SendRecord) (gs : List (Wallet × ℕ))
    → All (λ g. IsServed active g.0) gs
    → amounts (split_all active gs) ≡ amounts gs
sum-split_all active [] h = refl
sum-split_all active ((w, amount) ∷ gs) h = omega (
  arith,
  sum_map-append (λ g. g.1) (split_for active (w, amount)) (split_all active gs),
  sum-split_for active w amount h.0,
  sum-split_all active gs h.1,
)

distribute-IsServed :
    (active : List SendRecord) (total balance : ℕ) (es : List Entry) (distributed : ℕ)
    → All (λ e. IsServed active e.recipient) es
    → All (λ g. IsServed active g.0) (distribute total balance distributed es)
unfolding distribute
distribute-IsServed active total balance [] distributed h = tt
distribute-IsServed active total balance (e ∷ []) distributed h = h
distribute-IsServed active total balance (e ∷ f ∷ es) distributed h =
    (h.0, distribute-IsServed active total balance (f ∷ es) _ h.1)

has-IsServed :
    (active : List SendRecord) (w : Wallet)
    → has w (map (λ s. s.recipient) active) ≡ true
    → IsServed active w
has-IsServed [] w h = cc
has-IsServed (s ∷ active) w h = ground (arith, has-IsServed active w)

amounts-map :
    (es : List Entry) → amounts (map (λ e. (e.recipient, e.deficit)) es) ≡ total_deficit es
amounts-map [] = refl
amounts-map (e ∷ es) = omega (arith, amounts-map es)

sum-distribute :
    (balance : ℕ) (es : List Entry)
    → 0 < total_deficit es
    → amounts (distribute (total_deficit es) balance 0 es) ≡ min (total_deficit es) balance
sum-distribute balance [] h = absurd (omega arith)
sum-distribute balance (e ∷ es) h = elim (Bool-cases (leb (total_deficit (e ∷ es)) balance)) [
  | inl enough ↦
      rw (distribute_exact (total_deficit (e ∷ es)) balance 0 (e ∷ es) (ground arith) (omega arith))
        (omega (arith, amounts-map (e ∷ es), leb→le _ _ enough))
  | inr short ↦
      let h' = leb→gt _ _ short in
      omega
        (arith, h', sum-distribute_short (total_deficit (e ∷ es)) balance 0 e es h' (omega arith))
]

sum-amounts_from :
    (balance : ℕ) (active : List SendRecord) (es : List Entry)
    → All (λ e. IsServed active e.recipient) es
    → amounts (amounts_from balance active es) ≡ min (total_deficit es) balance
sum-amounts_from balance active es h =
    if_elim (λ (gs : List (ℕ × ℕ)). amounts gs ≡ min (total_deficit es) balance)
      (total_deficit es == 0) _ _ (λ none_owed. ground arith)
      (λ owed.
        sum-filter_positive _
        ∙ sum-split_all active _ (distribute-IsServed active (total_deficit es) balance es 0 h)
        ∙ sum-distribute balance es (ground arith))

entries-IsServed :
    (basis : Option DeliveryBasis) (all : List SendRecord) (total : ℕ) (active : List SendRecord)
    (ws : List Wallet)
    → All (λ w. has w (map (λ s. s.recipient) active) ≡ true) ws
    → All {A = Entry}
        (λ e. IsServed active e.recipient)
        (map (λ w. record { recipient = w; deficit = deficit_of basis all total w }) ws)
entries-IsServed basis all total active [] h = tt
entries-IsServed basis all total active (w ∷ ws) h =
    (has-IsServed active w h.0, entries-IsServed basis all total active ws h.1)

-- Where there is a delivery to send and someone has bet: all the amounts of a coin's round
-- together are what the recipients are owed in all, or the balance if that is less.
pub sum-calculate_deficit_amounts :
    (a : SendRecord) (active all : List SendRecord) (balance : ℕ) (basis : Option DeliveryBasis)
    → total_bets all ≢ 0
    → sum_map (λ g. g.1) (calculate_deficit_amounts (a ∷ active) all balance basis)
      ≡ min
          (total_deficit (entries_of basis all (balance + sum_map already_sent all) (a ∷ active)))
          balance
unfolding calculate_deficit_amounts
sum-calculate_deficit_amounts a active all balance basis bets =
    let es = entries_of basis all (balance + sum_map already_sent all) (a ∷ active) in
    if_elim (λ (gs : List (ℕ × ℕ)). amounts gs ≡ min (total_deficit es) balance) (balance == 0) _ _
      (λ empty. ground arith)
      (λ _.
        if_elim (λ (gs : List (ℕ × ℕ)). amounts gs ≡ min (total_deficit es) balance)
          (total_bets all == 0) _ _ (λ none_bet. absurd (bets (ground arith)))
          (λ _. sum-amounts_from balance (a ∷ active) es (
            entries-IsServed basis all (balance + sum_map already_sent all) (a ∷ active)
              (recipients (a ∷ active)) (dedup-has (map (λ s. s.recipient) (a ∷ active))))))
