-- ===== src/Clock/Sums.antt =====
-- app/src/plc_time_rtc.c, `addTimeSpec64`.
use beremiz4u_c.Common.{ℕ, ◌+◌, ◌*◌, ◌/◌, ◌^◌, ◌<◌, ◌≡◌, arith}
use native.Mathlib.Nat.{mod-eq_of_lt}
use beremiz4u_c.Clock.{TimeSpec64, add_time_spec64}

abbrev pub nanoseconds : TimeSpec64 → ℕ
nanoseconds t = t.sec * 1000000000 + t.nsec

-- The sum of two times has its nanoseconds below a second. Where neither the nanoseconds nor the
-- seconds overflow 64 bits, it stands for the sum of the two durations.
pub add_time_spec64_lem :
    (t1 t2 : TimeSpec64)
    → t1.nsec + t2.nsec < 2 ^ 64
    → t1.sec + t2.sec + (t1.nsec + t2.nsec) / 1000000000 < 2 ^ 64
    → ((add_time_spec64 t1 t2).nsec < 1000000000)
      × (nanoseconds (add_time_spec64 t1 t2) ≡ nanoseconds t1 + nanoseconds t2)
unfolding add_time_spec64
add_time_spec64_lem t1 t2 no_carry fits =
    rw (mod-eq_of_lt no_carry, mod-eq_of_lt fits) (omega arith, omega arith)
