-- ===== src/Orchestrator/SendRounds/Plan.antt =====
-- offchain/orchestrator/sendRounds.ts: the deliveries of a round, planned before it starts. SOL
-- amounts are in lamports; `calculateSendN` divides exactly where the code does in doubles.
use pumpling.Base.{
  ==_iff, Bool, Bool-cases, List, Option, [], arith, if◌then◌else◌, inl, inr, leb, length, ltb, max,
  min, none, refl, subst, suc, sum_map, sym, true, zero, ℕ, ◌&&◌, ◌*◌, ◌++◌, ◌+◌, ◌/◌, ◌<◌, ◌==◌,
  ◌||◌, ◌∷◌, ◌≡◌, ◌≤◌,
}
use pumpling.Base.Doubles.{Double, ceil_product, divide}
use pumpling.Orchestrator.Types.{Mint, SendRecord, SendStatus, Sol, Time, Wallet}

abbrev pub lamports_per_sol : ℕ
lamports_per_sol = 1000000000

-- `calculateSendN`: floor(3 + (sol - 5) * 7 / 15) is floor((10 + 7 * sol) / 15).
unfoldable pub calculate_send_n : Sol → ℕ
calculate_send_n bet =
    if bet == 0
    then 0
    else if ltb bet lamports_per_sol
    then 1
    else if leb (20 * lamports_per_sol) bet
    then 10
    else max 1 ((10 * lamports_per_sol + 7 * bet) / (15 * lamports_per_sol))

-- `Array.from({ length: n }, (_, i) => from + i)`
abbrev pub counting : ℕ → ℕ → List ℕ
counting from zero = []
counting from (suc n) = from ∷ counting (from + 1) n

-- `Math.ceil(i * step)`, for i from `from` on.
abbrev pub ceil_steps : Double → ℕ → ℕ → List ℕ
unfolding ceil_product
ceil_steps step from zero = []
ceil_steps step from (suc k) = ceil_product step from ∷ ceil_steps step (from + 1) k

-- `assignRounds`
unfoldable pub assign_rounds : ℕ → ℕ → List ℕ
unfolding divide ceil_product
assign_rounds n total =
    if n == 0 || total == 0
    then []
    else if leb total n
    then counting 1 total
    else ceil_steps (divide total n) 1 n

pub record Backer : Type 0 where
  pub publickey : Wallet
  pub amount : Sol

pub record PlannedToken : Type 0 where
  pub mint : Mint
  pub recipients : List Backer

abbrev pub AtaSnapshot : Type 0
AtaSnapshot = Mint → Wallet → Option Bool

module _ (snapshot : AtaSnapshot) (total_rounds : ℕ) (now : Time) where
  abbrev pub record_for : Mint → ℕ → Backer → ℕ → ℕ → ℕ → SendRecord
  record_for mint total_bets r n id round = record {
    id = id;
    mint = mint;
    recipient = r.publickey;
    recipient_bet_sol = r.amount;
    share = (r.amount, total_bets);
    send_n = n;
    round = round;
    amount = none;
    gross_amount = none;
    status = SendStatus.pending;
    top_up = none;
    signature = none;
    pending_signature = none;
    pending_last_valid_block_height = none;
    failed_signatures = [];
    attempts = 0;
    error_message = none;
    had_ata_at_start = snapshot mint r.publickey;
    is_ata_mismatch = none;
    updated_at = now;
  }

  abbrev pub records_in : Mint → ℕ → Backer → ℕ → ℕ → List ℕ → List SendRecord
  records_in mint total_bets r n id [] = []
  records_in mint total_bets r n id (round ∷ rounds) =
      record_for mint total_bets r n id round ∷ records_in mint total_bets r n (id + 1) rounds

  abbrev pub rounds_of : Backer → List ℕ
  rounds_of r = assign_rounds (calculate_send_n r.amount) total_rounds

  abbrev pub records_of : Mint → ℕ → ℕ → List Backer → List SendRecord
  records_of mint total_bets id [] = []
  records_of mint total_bets id (r ∷ rs) =
      records_in mint total_bets r (length (rounds_of r)) id (rounds_of r)
      ++ records_of mint total_bets (id + length (rounds_of r)) rs

  abbrev pub total_bets_of : PlannedToken → ℕ
  total_bets_of t = sum_map (λ r. r.amount) t.recipients

  abbrev pub records_of_token : ℕ → PlannedToken → List SendRecord
  records_of_token id t =
      if total_bets_of t == 0 then [] else records_of t.mint (total_bets_of t) id t.recipients

  pub records_from : ℕ → List PlannedToken → List SendRecord
  records_from id [] = []
  records_from id (t ∷ ts) =
      records_of_token id t ++ records_from (id + length (records_of_token id t)) ts

  -- `generateSendRecords`
  unfoldable pub generate_send_records : List PlannedToken → List SendRecord
  unfolding records_from
  generate_send_records tokens = records_from 1 tokens

-- The rounds of a delivery: they rise strictly, and all lie between 1 and `total`.
abbrev pub RisingTo : ℕ → ℕ → List ℕ → Type 0
RisingTo total low [] = Unit
RisingTo total low (x ∷ xs) = (low < x) × (x ≤ total) × RisingTo total x xs

-- The last of a list.
abbrev pub last_or : ℕ → List ℕ → ℕ
last_or d [] = d
last_or d (x ∷ xs) = last_or x xs

abbrev rises : ℕ → ℕ → List ℕ → Bool
rises total low [] = true
rises total low (x ∷ xs) = ltb low x && (leb x total && rises total x xs)

rises-RisingTo : (total low : ℕ) (xs : List ℕ) → rises total low xs ≡ true → RisingTo total low xs
rises-RisingTo total low [] h = tt
rises-RisingTo total low (x ∷ xs) h =
    (ground arith, ground arith, rises-RisingTo total x xs (ground (arith, h)))

abbrev Planned : ℕ → ℕ → List ℕ → Type 0
Planned n total rounds =
    RisingTo total 0 rounds × (length rounds ≡ min n total) × (last_or total rounds ≡ total)

abbrev is_planned : ℕ → ℕ → List ℕ → Bool
is_planned n total rounds =
    rises total 0 rounds && (length rounds == min n total && last_or total rounds == total)

is_planned-Planned :
    (n total : ℕ) (rounds : List ℕ) → is_planned n total rounds ≡ true → Planned n total rounds
is_planned-Planned n total rounds h =
    (rises-RisingTo total 0 rounds (ground (arith, h)), ground (arith, h), ground (arith, h))

-- A test of every number below a bound.
abbrev all_below : ℕ → (ℕ → Bool) → Bool
all_below zero p = true
all_below (suc k) p = p k && all_below k p

all_below-at : (k n : ℕ) (p : ℕ → Bool) → all_below k p ≡ true → n < k → p n ≡ true
all_below-at zero n p h below = ground (arith, below)
all_below-at (suc k) n p h below = elim (Bool-cases (n == k)) [
  | inl e ↦ subst (λ j. p j ≡ true) (sym ((==_iff n k).0 e)) (ground (arith, h))
  | inr e ↦ all_below-at k n p (ground (arith, h)) (ground arith)
]

-- At most ten deliveries, as `calculateSendN` has it, in at most 28 rounds: computed for each.
few_rounds :
    all_below 29 (λ total. all_below 11 (λ n. is_planned n total (assign_rounds n total))) ≡ true
unfolding assign_rounds
few_rounds = refl

-- For at most ten deliveries, the most that `calculateSendN` asks for, and at most 28 rounds: the
-- deliveries of a wallet stand in different rounds between the first and the last, in order, the
-- last of them in the last round; there are as many as asked for, or one in each round if that is
-- fewer.
pub assign_rounds_lem :
    (n total : ℕ)
    → n ≤ 10
    → total ≤ 28
    → RisingTo total 0 (assign_rounds n total)
      × (length (assign_rounds n total) ≡ min n total)
      × (last_or total (assign_rounds n total) ≡ total)
assign_rounds_lem n total few short = is_planned-Planned n total (assign_rounds n total) (
    all_below-at 11 n (λ k. is_planned k total (assign_rounds k total))
      (all_below-at 29 total (λ t. all_below 11 (λ k. is_planned k t (assign_rounds k t)))
        few_rounds (omega arith))
      (omega arith))
