-- ===== src/Examples/Delivering.antt =====
use pumpling.Base.{
  List, Option, [], arith, length, map, min, none, ok, refl, some, sum_map, ◌+◌, ◌<◌, ◌∷◌, ◌≡◌, ◌≤◌,
}
use pumpling.Examples.Data.{a_call, a_delivery, a_state}
use pumpling.Orchestrator.SendRounds.Deficit.{
  DeliveryBasis, already_sent, calculate_deficit_amounts, entries_of, total_deficit,
}
use pumpling.Orchestrator.SendRounds.Deficit.Bounds.{sum-calculate_deficit_amounts}
use pumpling.Orchestrator.SendRounds.Pending.{
  PendingVerdict, Checked, check_pending_send, check_pending_send_lem, found_send,
}
use pumpling.Orchestrator.SendRounds.Plan.{RisingTo, assign_rounds, assign_rounds_lem, last_or}
use pumpling.Orchestrator.Shares.{
  Share, add_share, burn_weight_of, collect_recipients, delivery_owed, from_stake, shares_of,
  total_stake,
}
use pumpling.Orchestrator.Shares.Bounds.{IsValid, shares_of-IsValid}
use pumpling.Orchestrator.Shares.Conservation.{
  delivery_owed-set_burn, owed_in_all, owed_in_all_bounds, set_burn,
}
use pumpling.Orchestrator.Types.{LotteryState, SendRecord}
use pumpling.Solana.SignatureOutcome.{unknown}

-- Shares and deliveries, at the small round.
abbrev two_shares : List Share
two_shares =
    record { wallet = 10; stake = 3000000000; burn = 15000000000000 }
    ∷ record { wallet = 11; stake = 1000000000; burn = 0 }
    ∷ []

two_shares-IsValid : IsValid two_shares
two_shares-IsValid = ground arith

shares_of-a_state : shares_of (a_state []) 1 ≡ two_shares
unfolding shares_of collect_recipients from_stake add_share burn_weight_of
shares_of-a_state = refl

shares_of-IsValid_example : IsValid (shares_of (a_state []) 1)
shares_of-IsValid_example = shares_of-IsValid (a_state []) 1

owed_in_all_bounds_example :
    (owed_in_all 1000 two_shares ≤ 1000)
    × (1000 < owed_in_all 1000 two_shares + length two_shares + 1)
unfolding total_stake
owed_in_all_bounds_example =
    owed_in_all_bounds 1000 two_shares two_shares-IsValid (λ e. omega arith)

delivery_owed-set_burn_example :
    delivery_owed 1000 11 (set_burn 10 30000000000000 two_shares) ≡ delivery_owed 1000 11 two_shares
delivery_owed-set_burn_example =
    delivery_owed-set_burn 1000 10 11 30000000000000 two_shares (λ e. omega arith)

-- 375 units for wallet 10, which burns the other half, and 250 for wallet 11.
delivery_owed-two_shares :
    map (λ w. delivery_owed 1000 w two_shares) (10 ∷ 11 ∷ []) ≡ 375 ∷ 250 ∷ []
unfolding delivery_owed total_stake
delivery_owed-two_shares = refl

abbrev both_sends : List SendRecord
both_sends = a_delivery 2 11 1000000000 none ∷ []

abbrev a_basis : Option DeliveryBasis
a_basis = some (record { bought = 1000; shares = two_shares })

sum-calculate_deficit_amounts_example :
    sum_map
      (λ g. g.1)
      (calculate_deficit_amounts
        (a_delivery 1 10 3000000000 none ∷ both_sends)
        (a_delivery 1 10 3000000000 none ∷ both_sends)
        500
        a_basis)
    ≡ min
        (total_deficit (
          entries_of a_basis
            (a_delivery 1 10 3000000000 none ∷ both_sends)
            (500 + sum_map already_sent (a_delivery 1 10 3000000000 none ∷ both_sends))
            (a_delivery 1 10 3000000000 none ∷ both_sends)))
        500
sum-calculate_deficit_amounts_example =
    sum-calculate_deficit_amounts (a_delivery 1 10 3000000000 none) both_sends
      (a_delivery 1 10 3000000000 none ∷ both_sends) 500 a_basis (λ e. omega arith)

-- 625 units are owed and 500 are there, so both get less.
calculate_deficit_amounts-both :
    calculate_deficit_amounts
      (a_delivery 1 10 3000000000 none ∷ both_sends)
      (a_delivery 1 10 3000000000 none ∷ both_sends)
      500
      a_basis
    ≡ (1, 300) ∷ (2, 200) ∷ []
unfolding calculate_deficit_amounts delivery_owed total_stake
calculate_deficit_amounts-both = refl

assign_rounds_lem_example :
    RisingTo 10 0 (assign_rounds 4 10)
    × (length (assign_rounds 4 10) ≡ min 4 10)
    × (last_or 10 (assign_rounds 4 10) ≡ 10)
assign_rounds_lem_example = assign_rounds_lem 4 10 (omega arith) (omega arith)

-- With 29 rounds the seventh of seven deliveries falls behind the last of them.
assign_rounds-late : assign_rounds 7 29 ≡ 5 ∷ 9 ∷ 13 ∷ 17 ∷ 21 ∷ 25 ∷ 30 ∷ []
unfolding assign_rounds
assign_rounds-late = refl

assign_rounds-four : assign_rounds 4 10 ≡ 3 ∷ 5 ∷ 8 ∷ 10 ∷ []
unfolding assign_rounds
assign_rounds-four = refl

check_pending_send_lem_example :
    (v : PendingVerdict × LotteryState) × (check_pending_send a_call.outcome
        (a_delivery 1 10 3000000000 (some 40))
        7
        (a_state [])
      ≡ ok v)
    × (t : SendRecord) × (found_send 1 v.1 ≡ some t)
    × Checked (a_delivery 1 10 3000000000 (some 40)) unknown v.0 t
check_pending_send_lem_example =
    check_pending_send_lem a_call.outcome (a_delivery 1 10 3000000000 (some 40)) 40 7 (a_state [])
      refl refl
