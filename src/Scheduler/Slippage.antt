-- ===== src/Scheduler/Slippage.antt =====
-- offchain/scheduler/slippage.ts: how much slippage each attempt of a purchase may take.
use pumpling.Base.{
  Bool, List, [], arith, filter, if◌then◌else◌, leb, length, ltb, min, suc, zero, ℕ, ◌-◌, ◌<◌, ◌∷◌,
  ◌≤◌,
}

abbrev pub slippage_schedule_bps : List ℕ
slippage_schedule_bps = 300 ∷ 500 ∷ 900 ∷ 1300 ∷ []

abbrev pub max_retries : ℕ
max_retries = length slippage_schedule_bps - 1

-- `escalation[idx]`
abbrev at_index : ℕ → ℕ → List ℕ → ℕ
at_index i default [] = default
at_index zero default (x ∷ xs) = x
at_index (suc i) default (x ∷ xs) = at_index i default xs

abbrev escalation : ℕ → List ℕ
escalation start = filter (λ s. ltb start s) slippage_schedule_bps

abbrev step_of : ℕ → ℕ → ℕ → List ℕ → ℕ
step_of attempt start limit [] = min start limit
step_of attempt start limit (x ∷ xs) =
    min (at_index (min (attempt - 2) (length (x ∷ xs) - 1)) start (x ∷ xs)) limit

-- `getSlippageForAttempt`
unfoldable pub get_slippage_for_attempt : ℕ → ℕ → ℕ → ℕ
get_slippage_for_attempt attempt start limit =
    if leb attempt 1 then min start limit else step_of attempt start limit (escalation start)

-- `canRetry`
unfoldable pub can_retry : ℕ → Bool
can_retry attempts = leb attempts max_retries

-- Steps that rise, from `low` on.
abbrev Rising : ℕ → List ℕ → Type 0
Rising low [] = Unit
Rising low (x ∷ xs) = (low ≤ x) × Rising x xs

escalation-Rising : (start : ℕ) → Rising start (escalation start)
escalation-Rising start = ground arith

le-at_index :
    (i default low : ℕ) (xs : List ℕ) → Rising low xs → i < length xs → low ≤ at_index i default xs
le-at_index i default low [] r h = absurd (omega arith)
le-at_index zero default low (x ∷ xs) r h = r.0
le-at_index (suc i) default low (x ∷ xs) r h =
    omega (arith, r.0, le-at_index i default x xs r.1 (omega arith))

at_index_mono :
    (i j default low : ℕ) (xs : List ℕ)
    → Rising low xs
    → i ≤ j
    → j < length xs
    → at_index i default xs ≤ at_index j default xs
at_index_mono i j default low [] r h k = absurd (omega arith)
at_index_mono zero zero default low (x ∷ xs) r h k = omega arith
at_index_mono zero (suc j) default low (x ∷ xs) r h k = le-at_index j default x xs r.1 (omega arith)
at_index_mono (suc i) zero default low (x ∷ xs) r h k = absurd (omega arith)
at_index_mono (suc i) (suc j) default low (x ∷ xs) r h k =
    at_index_mono i j default x xs r.1 (omega arith) (omega arith)

step_of_mono :
    (a b start limit : ℕ) (xs : List ℕ)
    → Rising start xs
    → a ≤ b
    → (step_of a start limit xs ≤ step_of b start limit xs)
      × (min start limit ≤ step_of b start limit xs)
step_of_mono a b start limit [] r h = (omega arith, omega arith)
step_of_mono a b start limit (x ∷ xs) r h =
    let i = min (a - 2) (length (x ∷ xs) - 1) in
    let j = min (b - 2) (length (x ∷ xs) - 1) in
    (
      omega (arith, at_index_mono i j start start (x ∷ xs) r (omega arith) (omega arith)),
      omega (arith, le-at_index j start start (x ∷ xs) r (omega arith)),
    )

step_of-le : (a start limit : ℕ) (xs : List ℕ) → step_of a start limit xs ≤ limit
step_of-le a start limit [] = omega arith
step_of-le a start limit (x ∷ xs) = omega arith

ladder_lem :
    (a b first sa sb limit : ℕ)
    → a ≤ b
    → sa ≤ sb
    → first ≤ sb
    → sb ≤ limit
    → first ≤ limit
    → ((if leb a 1 then first else sa) ≤ (if leb b 1 then first else sb))
      × ((if leb b 1 then first else sb) ≤ limit)
ladder_lem a b first sa sb limit h m n u f = ground arith

-- Attempts take more and more slippage and stay below the limit: no attempt takes more than the
-- limit, and a later attempt never takes less than an earlier one.
pub get_slippage_ladder :
    (a b start limit : ℕ)
    → a ≤ b
    → (get_slippage_for_attempt a start limit ≤ get_slippage_for_attempt b start limit)
      × (get_slippage_for_attempt b start limit ≤ limit)
unfolding get_slippage_for_attempt
get_slippage_ladder a b start limit h =
    let (m, n) = step_of_mono a b start limit (escalation start) (escalation-Rising start) h in
    let u = step_of-le b start limit (escalation start) in
    let sa = step_of a start limit (escalation start) in
    let sb = step_of b start limit (escalation start) in
    ladder_lem a b (min start limit) sa sb limit h m n u (omega arith)
