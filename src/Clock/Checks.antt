-- ===== src/Clock/Checks.antt =====
-- Runs of app/src/plc_time_rtc.c, and the theorems on it at concrete inputs.
use beremiz4u_c.Common.{
  ◌+◌, ◌*◌, ◌<◌, ◌≡◌, refl, true, false, Option, none, some, arith, if◌then◌else◌,
}
use beremiz4u_c.Clock.{
  Tm, TimeSpec64, Clocks, Devices, RtcAnswer, read_ok, no_data, is_dst, local_fields,
}
use beremiz4u_c.Clock.Summer.{in_summer, is_dst-in_summer, local_fields_lem}

-- 31 December 2024, 23:30.
abbrev new_years_eve : Tm
new_years_eve = record {
  tm_year = 124;
  tm_mon = 11;
  tm_mday = 31;
  tm_hour = 23;
  tm_min = 30;
  tm_sec = 0;
}

-- 30 March 2024, the day before summer time.
abbrev march : Tm
march = record new_years_eve { tm_mon = 2; tm_mday = 30 }

march_runs : is_dst march ≡ false
unfolding is_dst
march_runs = refl

sunday_runs : is_dst (record march { tm_mday = 31 }) ≡ true
unfolding is_dst
sunday_runs = refl

-- The last hour of the year is printed as the 32nd of December.
day_32 : (local_fields new_years_eve new_years_eve).tm_mday ≡ 32
unfolding local_fields is_dst
day_32 = refl

is_dst-in_summer_example : is_dst march ≡ in_summer 2024 3 30
is_dst-in_summer_example =
    is_dst-in_summer march (omega arith) (omega arith) (omega arith) (omega arith) (omega arith)

local_fields_lem_example :
    ((local_fields march march).tm_hour < 24)
    × ((local_fields march march).tm_mday * 24 + (local_fields march march).tm_hour
        ≡ 30 * 24 + 23 + (if is_dst march then 2 else 1))
    × ((local_fields march march).tm_mon ≡ 2)
    × ((local_fields march march).tm_year ≡ 124)
local_fields_lem_example = local_fields_lem march march (omega arith)

abbrev almost : TimeSpec64
almost = record { sec = 7; nsec = 999999999 }

-- A clock chip that keeps what is written, and a calendar that counts seconds in `tm_sec`.
abbrev answer : Option Tm → RtcAnswer
answer none = no_data
answer (some tm) = read_ok tm

abbrev devices : Devices
devices = record {
  mktime = λ tm. tm.tm_sec;
  gmtime = λ s. record new_years_eve { tm_sec = s };
  rtc_ready = true;
  rtc_get_time = answer;
  rtc_set_time = λ tm. some tm;
  clock_settime = λ t. some t;
  clock_gettime = λ t. some t;
}

abbrev clocks : Clocks
clocks = record { system = almost; rtc = none; timer_running = false }
