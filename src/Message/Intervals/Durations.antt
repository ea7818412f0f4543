-- ===== src/Message/Intervals/Durations.antt =====
-- A duration and its interval.
use cypress.Base.{◌+◌, ◌*◌, ◌/◌, ◌%◌, ◌^◌, ◌<◌, ◌≡◌, arith}
use cypress.Base.Int.{ℤ, IsInt64, to_uint64, to_int64-to_uint64, to_uint64-lt}
use cypress.Message.Intervals.{duration_to_interval, duration}

-- Every int64 duration, the negative ones included, comes back from its interval, whose
-- nanoseconds stay below a second.
pub duration-duration_to_interval :
    (d : ℤ)
    → IsInt64 d
    → (duration (duration_to_interval d) ≡ d)
      × ((duration_to_interval d).nanoseconds < 1_000_000_000)
unfolding duration duration_to_interval
duration-duration_to_interval d h =
    let lt = to_uint64-lt d h in
    let e : (to_uint64 d / 1_000_000_000 * 1_000_000_000 % 2 ^ 64
            + to_uint64 d % 1_000_000_000 % 2 ^ 32)
          % 2 ^ 64
        ≡ to_uint64 d =
      omega (arith, lt) in
    (rw e (to_int64-to_uint64 d h), omega arith)
