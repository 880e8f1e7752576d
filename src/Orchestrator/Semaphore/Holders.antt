-- ===== src/Orchestrator/Semaphore/Holders.antt =====
-- The tasks that run under `Semaphore.use` (offchain/orchestrator/semaphore.ts), in any order of
-- arrivals and ends.
use pumpling.Base.{
  List, [], arith, has, if◌then◌else◌, length, none, ok, some, true, ℕ, ◌+◌, ◌==◌, ◌∷◌, ◌≡◌, ◌≤◌,
  ◌⊎◌,
}
use pumpling.Orchestrator.Semaphore.{Semaphore, acquire, new_semaphore, release}

-- A semaphore with the callers that hold a slot.
pub record System : Type 0 where
  pub sem : Semaphore
  pub holders : List ℕ

-- `use`: a task asks for a slot; a task that holds one ends, by returning or throwing, and releases.
unfoldable pub arrive : ℕ → System → System
arrive caller y =
    let (s, granted) = acquire caller y.sem in
    record { sem = s; holders = if granted then caller ∷ y.holders else y.holders }

abbrev pub remove : ℕ → List ℕ → List ℕ
remove n [] = []
remove n (x ∷ xs) = if x == n then xs else x ∷ remove n xs

unfoldable pub leave : ℕ → System → System
leave caller y =
    let (s, woken) = release y.sem in
    record {
      sem = s;
      holders = elim woken [
        | none ↦ remove caller y.holders
        | some w ↦ w ∷ remove caller y.holders
      ];
    }

pub data Step : System → System → Type 0 where
  arrives : (caller : ℕ) (y : System) → Step y (arrive caller y)
  leaves : (caller : ℕ) (y : System) → has caller y.holders ≡ true → Step y (leave caller y)

pub data Reach (start : System) : System → Type 0 where
  here : Reach start start
  next : {y z : System} → Reach start y → Step y z → Reach start z

-- No more slots are held than there are, and nobody waits while a slot is free.
pub record IsFair (capacity : ℕ) (y : System) : Type 0 where
  pub same : y.sem.capacity ≡ capacity
  pub held : length y.holders ≡ y.sem.active
  pub bounded : y.sem.active ≤ capacity
  pub busy : (y.sem.queue ≡ []) ⊎ (y.sem.active ≡ capacity)

length-remove : (n : ℕ) (xs : List ℕ) → has n xs ≡ true → length (remove n xs) + 1 ≡ length xs
length-remove n [] h = cc
length-remove n (x ∷ xs) h = ground (arith, length-remove n xs)

arrive-IsFair :
    (capacity caller : ℕ) (y : System) → IsFair capacity y → IsFair capacity (arrive caller y)
unfolding arrive acquire
arrive-IsFair capacity caller y f = ground arith

leave-IsFair :
    (capacity caller : ℕ) (y : System)
    → has caller y.holders ≡ true
    → IsFair capacity y
    → IsFair capacity (leave caller y)
unfolding leave release
leave-IsFair capacity caller y h f = ground (arith, length-remove caller y.holders h)

Step-IsFair : (capacity : ℕ) {y z : System} → Step y z → IsFair capacity y → IsFair capacity z
Step-IsFair capacity (arrives caller y) f = arrive-IsFair capacity caller y f
Step-IsFair capacity (leaves caller y h) f = leave-IsFair capacity caller y h f

Reach-IsFair : (capacity : ℕ) {y z : System} → IsFair capacity y → Reach y z → IsFair capacity z
Reach-IsFair capacity f here = f
Reach-IsFair capacity f (next r s) = Step-IsFair capacity s (Reach-IsFair capacity f r)

-- In every order of arrivals and ends, from a new semaphore on: the capacity stays, the tasks that
-- run are as many as the active count says, never more than the capacity, and none waits while a
-- slot is free.
pub new_semaphore-IsFair :
    (capacity : ℕ) (s : Semaphore) (y : System)
    → new_semaphore capacity ≡ ok s
    → Reach (record { sem = s; holders = [] }) y
    → IsFair capacity y
unfolding new_semaphore
new_semaphore-IsFair capacity s y e r = Reach-IsFair capacity (ground arith) r
