-- ===== src/Orchestrator/SendRounds/Deficit.antt =====
-- offchain/orchestrator/sendRounds.ts, `calculateDeficitAmounts`: how much each delivery of a round
-- gets. The bigints are never below zero: where the code subtracts, the difference is tested first
-- or, for the last recipient and the last delivery, is of a sum and a part of it.
pub mod Bounds
use pumpling.Base.{
  Bool, List, Option, [], dedup, false, filter, find?, if◌then◌else◌, leb, length, ltb, map, none,
  some, sum_map, true, ℕ, ◌*◌, ◌++◌, ◌+◌, ◌-◌, ◌/◌, ◌==◌, ◌∷◌,
}
use pumpling.Orchestrator.Shares.{Share, delivery_owed, has_burn, shares_of}
use pumpling.Orchestrator.State.{or_zero}
use pumpling.Orchestrator.Types.{LotteryState, Mint, SendRecord, SendStatus, Wallet}

pub record DeliveryBasis : Type 0 where
  pub bought : ℕ
  pub shares : List Share

abbrev pub is_completed : SendRecord → Bool
is_completed s = elim (s.status) [ SendStatus.completed ↦ true | _ ↦ false ]

-- `s.status === "completed" && s.amount`
abbrev pub completed_amount : SendRecord → Option ℕ
completed_amount s = if is_completed s then s.amount else none

-- `sentFromKeeper`
unfoldable pub sent_from_keeper : SendRecord → ℕ
sent_from_keeper s = elim (s.gross_amount) [
  | some g ↦ g
  | none ↦ elim (s.amount) [ some a ↦ a | none ↦ 0 ]
]

abbrev pub already_sent : SendRecord → ℕ
already_sent s = or_zero (completed_amount s)

-- What a completed delivery counts for: with an exact basis, what left the keeper.
abbrev pub counted : Option DeliveryBasis → SendRecord → ℕ
counted basis s = elim (completed_amount s) [
  | none ↦ 0
  | some amount ↦ elim basis [ none ↦ amount | some _ ↦ sent_from_keeper s ]
]

abbrev pub recipient_sent : Option DeliveryBasis → List SendRecord → Wallet → ℕ
recipient_sent basis sends w = sum_map (λ s. if s.recipient == w then counted basis s else 0) sends

-- The bet of a recipient is that of its first record; each recipient is counted once.
abbrev pub bet_of : List SendRecord → Wallet → ℕ
bet_of sends w = elim (find? (λ s. s.recipient == w) sends) [
  | none ↦ 0
  | some s ↦ s.recipient_bet_sol
]

abbrev pub recipients : List SendRecord → List Wallet
recipients sends = dedup (map (λ s. s.recipient) sends)

abbrev pub total_bets : List SendRecord → ℕ
total_bets sends = sum_map (bet_of sends) (recipients sends)

abbrev pub target_of : Option DeliveryBasis → List SendRecord → ℕ → Wallet → ℕ
target_of none sends total w = total * bet_of sends w / total_bets sends
target_of (some basis) sends total w = delivery_owed basis.bought w basis.shares

abbrev pub deficit_of : Option DeliveryBasis → List SendRecord → ℕ → Wallet → ℕ
deficit_of basis sends total w = target_of basis sends total w - recipient_sent basis sends w

-- `[recipient, deficit]`
pub record Entry : Type 0 where
  pub recipient : Wallet
  pub deficit : ℕ

abbrev pub entries_of : Option DeliveryBasis → List SendRecord → ℕ → List SendRecord → List Entry
entries_of basis all total active =
    map (λ w. record { recipient = w; deficit = deficit_of basis all total w }) (recipients active)

-- The loop that gives each recipient its amount: the last one takes what is left.
unfoldable pub distribute : ℕ → ℕ → ℕ → List Entry → List (Wallet × ℕ)
distribute total balance distributed [] = []
distribute total balance distributed (e ∷ []) =
    (e.recipient, (if leb total balance then total else balance) - distributed) ∷ []
distribute total balance distributed (e ∷ f ∷ es) =
    let amount = if leb total balance then e.deficit else balance * e.deficit / total in
    (e.recipient, amount) ∷ distribute total balance (distributed + amount) (f ∷ es)

-- The split of a recipient's amount among its deliveries: the last one takes what is left.
unfoldable pub split_even : ℕ → ℕ → ℕ → List ℕ → List (ℕ × ℕ)
split_even amount per_send given [] = []
split_even amount per_send given (id ∷ []) = (id, amount - given) ∷ []
split_even amount per_send given (id ∷ j ∷ ids) =
    (id, per_send) ∷ split_even amount per_send (given + per_send) (j ∷ ids)

abbrev pub ids_of : List SendRecord → Wallet → List ℕ
ids_of active w = map (λ s. s.id) (filter (λ s. s.recipient == w) active)

abbrev pub split_for : List SendRecord → Wallet × ℕ → List (ℕ × ℕ)
split_for active (w, amount) =
    split_even amount (amount / length (ids_of active w)) 0 (ids_of active w)

abbrev pub is_positive : ℕ × ℕ → Bool
is_positive (id, amount) = ltb 0 amount

abbrev pub split_all : List SendRecord → List (Wallet × ℕ) → List (ℕ × ℕ)
split_all active [] = []
split_all active (g ∷ gs) = split_for active g ++ split_all active gs

abbrev pub total_deficit : List Entry → ℕ
total_deficit = sum_map (λ e. e.deficit)

abbrev pub amounts_from : ℕ → List SendRecord → List Entry → List (ℕ × ℕ)
amounts_from balance active entries =
    if total_deficit entries == 0
    then []
    else filter is_positive
        (split_all active (distribute (total_deficit entries) balance 0 entries))

-- `calculateDeficitAmounts`: the amount of each delivery that gets one, by its id.
unfoldable pub calculate_deficit_amounts :
    List SendRecord → List SendRecord → ℕ → Option DeliveryBasis → List (ℕ × ℕ)
unfolding distribute split_even
calculate_deficit_amounts [] all balance basis = []
calculate_deficit_amounts (a ∷ active) all balance basis =
    if balance == 0
    then []
    else if total_bets all == 0
    then []
    else amounts_from balance (a ∷ active)
        (entries_of basis all (balance + sum_map already_sent all) (a ∷ active))

-- `mintsWithBurners`
unfoldable pub mints_with_burners : LotteryState → List Mint
mints_with_burners state =
    map (λ t. t.mint) (filter (λ t. has_burn (shares_of state t.mint)) state.token_buys)
