-- ===== src/Scheduler/Batch/Bounds.antt =====
-- What one purchase may spend, and how long the retry window is (offchain/scheduler/batch.ts).
-- With a balance that could be read, what a purchase is given to spend is what it was to spend or,
-- where that is less, the whole balance without the costs of the purchase, and then no less than a
use pumpling.Base.{Bool, arith, ℕ, ◌*◌, ◌+◌, ◌<◌, ◌≤◌}
use pumpling.Base.Division.{div_bounds}
use pumpling.Scheduler.Batch.{Outside}
use pumpling.Scheduler.Batch.Retry.{retry_window_minutes}
use pumpling.Scheduler.Types.{BatchConfig}

-- The retry window is at most fifteen minutes; where it is shorter, it has 25 seconds for each
-- failed purchase, and is no shorter than the batch asks for.
pub retry_window_minutes_lem :
    (outside : Outside) (config : BatchConfig) (has_ata : Bool) (failed : ℕ)
    → (retry_window_minutes outside config has_ata failed ≤ 15)
      × ((retry_window_minutes outside config has_ata failed < 15)
          → (failed * 25 ≤ retry_window_minutes outside config has_ata failed * 60)
            × (config.retry_buffer_minutes ≤ retry_window_minutes outside config has_ata failed))
unfolding retry_window_minutes
retry_window_minutes_lem outside config has_ata failed =
    let (low, high) = div_bounds (failed * 25 + 59) 60 (omega arith) in
    (omega arith, λ h. (omega (arith, h, low, high), omega (arith, h)))
