-- ===== src/Clock/Transfer.antt =====
-- app/src/plc_time_rtc.c: setting one clock from the other.
use beremiz4u_c.Common.{◌≡◌, true, some, arith}
use beremiz4u_c.Clock.{
  Tm, Clocks, Devices, read_ok, set_system_time_from_rtc, set_rtc_from_system_time,
}

-- Where the drivers answer, and `mktime` undoes `gmtime` at the time of the system clock, writing
-- that time to the real-time clock and setting the system clock from it brings the seconds back
-- and drops the nanoseconds; the hourly timer runs then.
pub set_system_time-set_rtc :
    (d : Devices) (c : Clocks) (stored : Tm)
    → d.rtc_ready ≡ true
    → d.clock_gettime c.system ≡ some c.system
    → d.rtc_set_time (d.gmtime c.system.sec) ≡ some stored
    → d.rtc_get_time (some stored) ≡ read_ok (d.gmtime c.system.sec)
    → d.mktime (d.gmtime c.system.sec) ≡ c.system.sec
    → d.clock_settime (record { sec = c.system.sec; nsec = 0 })
      ≡ some (record { sec = c.system.sec; nsec = 0 })
    → set_system_time_from_rtc d (set_rtc_from_system_time d c) ≡ record {
      system = record { sec = c.system.sec; nsec = 0 };
      rtc = some stored;
      timer_running = true;
    }
unfolding set_system_time_from_rtc set_rtc_from_system_time
set_system_time-set_rtc d c stored ready now written read same set = ground arith
