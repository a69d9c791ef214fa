-- ===== src/Elb/Pools/Timeout.antt =====
-- The conversion of the affinity timeout, from an int32 of seconds to minutes.
use cloud_provider_opentelek.Base.{ℕ, ◌+◌, ◌*◌, ◌^◌, ◌≤◌, ◌<◌, ◌≡◌, arith}
use cloud_provider_opentelek.Base.Int.{ℤ, pos, ◌≤ℤ◌, pos_part}
use cloud_provider_opentelek.Elb.Pools.{timeout_minutes}

-- For every int32, also a negative one and one where the sum wraps round, the timeout is one that the
-- ELB accepts: 1 to 60 minutes.
pub timeout_minutes_bounds : (t : ℤ) → (pos 1 ≤ℤ timeout_minutes t) × (timeout_minutes t ≤ℤ pos 60)
unfolding timeout_minutes
timeout_minutes_bounds t = ground arith

-- From one second to an hour the timeout is rounded up to whole minutes; from an hour on it is 60
-- minutes, as long as the sum with 59 fits an int32.
pub timeout_minutes_exact :
    (n : ℕ)
    → 1 ≤ n
    → n + 59 < 2 ^ 31
    → (n ≤ 3600
        → (n ≤ 60 * pos_part (timeout_minutes (pos n)))
          × (60 * pos_part (timeout_minutes (pos n)) < n + 60))
      × (3600 ≤ n → timeout_minutes (pos n) ≡ pos 60)
unfolding timeout_minutes
timeout_minutes_exact n low high = ground arith

-- In the last 59 values of an int32 the sum wraps round, and the longest timeouts become one minute.
pub timeout_minutes_overflow :
    (n : ℕ) → 2 ^ 31 ≤ n + 59 → n < 2 ^ 31 → timeout_minutes (pos n) ≡ pos 1
unfolding timeout_minutes
timeout_minutes_overflow n low high = ground arith
