-- ===== src/Orchestrator/Semaphore.antt =====
-- offchain/orchestrator/semaphore.ts. A waiting caller is a number; granting a slot to a waiter is
-- calling its `resolve`.
pub mod Holders
use pumpling.Base.{
  Bool, List, Option, Result, [], bad_capacity, err, false, if◌then◌else◌, ltb, none, ok, some,
  true, ℕ, ◌++◌, ◌+◌, ◌-◌, ◌∷◌,
}

pub record Semaphore : Type 0 where
  pub capacity : ℕ
  pub active : ℕ
  pub queue : List ℕ

-- The constructor.
unfoldable pub new_semaphore : ℕ → Result Semaphore
new_semaphore capacity =
    if ltb capacity 1
    then err bad_capacity
    else ok (record { capacity = capacity; active = 0; queue = [] })

-- `acquire`: whether the caller goes on at once, or waits in the queue.
unfoldable pub acquire : ℕ → Semaphore → Semaphore × Bool
acquire caller s =
    if ltb s.active s.capacity
    then (record s { active = s.active + 1 }, true)
    else (record s { queue = s.queue ++ (caller ∷ []) }, false)

-- `release`: the waiter that is called on, if there is one, takes over the slot.
unfoldable pub release : Semaphore → Semaphore × Option ℕ
release s = elim (s.queue) [
  | [] ↦ (record s { active = s.active - 1 }, none)
  | next ∷ rest ↦ (record s { queue = rest }, some next)
]
