-- ===== src/Solana/RateLimiter.antt =====
-- offchain/solana/rateLimiter.ts, for a whole rate per second. A time is counted in units of
-- 1 / rate milliseconds, so that the interval of 1000 / rate milliseconds is 1000 units.
-- `now - (burst - 1) * interval` may be below zero in the code; it is compared with a slot that is
-- not, so a subtraction that stops at zero decides the same.
pub mod Spacing
use pumpling.Base.{Option, if◌then◌else◌, ltb, max, none, some, ℕ, ◌*◌, ◌+◌, ◌-◌, ◌==◌}

pub record RateLimiter : Type 0 where
  pub rate : ℕ
  pub burst_slots : ℕ
  pub next_slot_at : ℕ
  pub granted : ℕ
  pub waited : ℕ
  pub total_wait : ℕ

abbrev pub interval : ℕ
interval = 1000

-- The constructor: a rate that is not positive counts as one.
unfoldable pub new_limiter : ℕ → Option ℕ → RateLimiter
new_limiter rate burst =
    let r = if rate == 0 then 1 else rate in
    record {
      rate = r;
      burst_slots = elim burst [ none ↦ max 1 r | some b ↦ max 1 b ];
      next_slot_at = 0;
      granted = 0;
      waited = 0;
      total_wait = 0;
    }

-- The slot that a call at time `now` gets. Idle time builds credit, at most `burst_slots` slots.
abbrev pub slot_at : ℕ → RateLimiter → ℕ
slot_at now l = max l.next_slot_at (now - (l.burst_slots - 1) * interval)

-- `acquire`: the new state, and how long the caller waits.
unfoldable pub acquire : ℕ → RateLimiter → RateLimiter × ℕ
acquire now l =
    let wait = slot_at now l - now in
    (
      record l {
        next_slot_at = slot_at now l + interval;
        granted = l.granted + 1;
        waited = if ltb 0 wait then l.waited + 1 else l.waited;
        total_wait = l.total_wait + wait;
      },
      wait,
    )

-- `reset`
unfoldable pub reset : RateLimiter → RateLimiter
reset l = record l { next_slot_at = 0; granted = 0; waited = 0; total_wait = 0 }
