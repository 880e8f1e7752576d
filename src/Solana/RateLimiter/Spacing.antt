-- ===== src/Solana/RateLimiter/Spacing.antt =====
-- How close together the limiter of offchain/solana/rateLimiter.ts lets its callers go on.
use pumpling.Base.{List, [], arith, length, refl, ℕ, ◌*◌, ◌+◌, ◌-◌, ◌∷◌, ◌≡◌, ◌≤◌}
use pumpling.Solana.RateLimiter.{RateLimiter, acquire, interval}

-- When a call at time `now` goes on.
pub goes_at : ℕ → RateLimiter → ℕ
goes_at now l = now + (acquire now l).1

-- The limiter after calls at these times.
pub after_calls : List ℕ → RateLimiter → RateLimiter
after_calls [] l = l
after_calls (now ∷ nows) l = after_calls nows (acquire now l).0

-- Every call moves the next slot on by an interval at least, and leaves the burst as it is.
next_slot-after_calls :
    (nows : List ℕ) (l : RateLimiter)
    → (l.next_slot_at + length nows * interval ≤ (after_calls nows l).next_slot_at)
      × ((after_calls nows l).burst_slots ≡ l.burst_slots)
unfolding after_calls acquire
next_slot-after_calls [] l = (omega arith, refl)
next_slot-after_calls (now ∷ nows) l =
    let (grows, same) = next_slot-after_calls nows (acquire now l).0 in (omega (arith, grows), same)

-- A caller goes on at most burst - 1 intervals behind its slot.
goes_at-le-slot :
    (now : ℕ) (l : RateLimiter)
    → goes_at now l + interval ≤ (acquire now l).0.next_slot_at + (l.burst_slots - 1) * interval
unfolding goes_at acquire
goes_at-le-slot now l = omega arith

slot-le-goes_at : (now : ℕ) (l : RateLimiter) → l.next_slot_at ≤ goes_at now l
unfolding goes_at acquire
slot-le-goes_at now l = omega arith

-- After a call, and any calls behind it at any times, one more call goes on later than the first
-- by an interval for each call from the first on, less the credit of burst - 1 intervals.
pub goes_at-spacing :
    (first last : ℕ) (between : List ℕ) (l : RateLimiter)
    → goes_at first l + (length between + 1) * interval
      ≤ goes_at last (after_calls (first ∷ between) l) + (l.burst_slots - 1) * interval
unfolding goes_at acquire after_calls
goes_at-spacing first last between l = omega (
  arith,
  goes_at-le-slot first l,
  slot-le-goes_at last (after_calls (first ∷ between) l),
  next_slot-after_calls between (acquire first l).0,
)
