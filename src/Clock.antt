-- ===== src/Clock.antt =====
-- app/src/plc_time_rtc.c and app/include/plc_time_rtc.h: daylight saving, the local time of day, the
-- transfer between the system clock and the real-time clock, and the sum of two times.
-- `gmtime` and `localtime` of the C library, the clock and the device driver are arguments.
pub mod Summer
pub mod Sums
pub mod Transfer
pub mod Checks
use beremiz4u_c.Common.{
  ℕ, zero, suc, ◌+◌, ◌-◌, ◌*◌, ◌/◌, ◌%◌, ◌^◌, Bool, true, false, Option, none, some, ◌||◌, ◌&&◌,
  ltb, leb, ◌==◌, if◌then◌else◌,
}

-- The fields of `struct tm` that are read, for a time from the year 1900 on.
pub record Tm : Type 0 where
  pub tm_year : ℕ
  pub tm_mon : ℕ
  pub tm_mday : ℕ
  pub tm_hour : ℕ
  pub tm_min : ℕ
  pub tm_sec : ℕ

abbrev pub begin_dst_day : ℕ → ℕ
begin_dst_day year = 31 - (5 * year / 4 + 4) % 7

abbrev pub end_dst_day : ℕ → ℕ
end_dst_day year = 31 - (5 * year / 4 + 1) % 7

-- `is_dst`, of the local time that `localtime` gives.
unfoldable pub is_dst : Tm → Bool
is_dst time_info =
    let year = time_info.tm_year + 1900 in
    let month = time_info.tm_mon + 1 in
    let mday = time_info.tm_mday in
    if ltb month 3 || ltb 10 month
    then false
    else if ltb 3 month && ltb month 10
    then true
    else if month == 3
    then leb (begin_dst_day year) mday
    else if month == 10
    then ltb mday (end_dst_day year)
    else false

unfoldable pub get_current_timezone_offset : Tm → ℕ
unfolding is_dst
get_current_timezone_offset local = if is_dst local then 2 else 1

-- `while (tm->tm_hour >= 24) { tm->tm_hour -= 24; tm->tm_mday += 1; }` for a number of hours that
-- the fuel exceeds. The loop for hours below zero behind it does not run, since the hour of
-- `gmtime` and the offset are not negative.
unfoldable pub carry_days : ℕ → Tm → Tm
carry_days zero tm = tm
carry_days (suc fuel) tm =
    let rest =
      carry_days fuel (record tm { tm_hour = tm.tm_hour - 24; tm_mday = tm.tm_mday + 1 }) in
    if leb 24 tm.tm_hour then rest else tm

-- What `get_time_str` and `log_ts_print` print: the time of `gmtime` moved by the offset of the
-- local time.
unfoldable pub local_fields : Tm → Tm → Tm
unfolding carry_days get_current_timezone_offset
local_fields gmt local =
    let hour = gmt.tm_hour + get_current_timezone_offset local in
    carry_days (suc hour) (record gmt { tm_hour = hour })

pub record TimeSpec64 : Type 0 where
  pub sec : ℕ
  pub nsec : ℕ

-- `addTimeSpec64`, in 64-bit unsigned arithmetic.
unfoldable pub add_time_spec64 : TimeSpec64 → TimeSpec64 → TimeSpec64
add_time_spec64 t1 t2 =
    let nsec = (t1.nsec + t2.nsec) % 2 ^ 64 in
    record { sec = (t1.sec + t2.sec + nsec / 1000000000) % 2 ^ 64; nsec = nsec % 1000000000 }

-- The answer of the driver's `rtc_get_time`.
pub data RtcAnswer : Type 0 where
  read_ok : Tm → RtcAnswer
  no_data : RtcAnswer
  read_error : RtcAnswer

-- The system clock, the real-time clock and whether the timer of the hourly update runs.
pub record Clocks : Type 0 where
  pub system : TimeSpec64
  pub rtc : Option Tm
  pub timer_running : Bool

-- What the functions use of the C library and of the drivers. A call that fails says so.
pub record Devices : Type 0 where
  pub mktime : Tm → ℕ
  pub gmtime : ℕ → Tm
  pub rtc_ready : Bool
  pub rtc_get_time : Option Tm → RtcAnswer
  pub rtc_set_time : Tm → Option Tm
  pub clock_settime : TimeSpec64 → Option TimeSpec64
  pub clock_gettime : TimeSpec64 → Option TimeSpec64

module _ (d : Devices) where
  from_answer : RtcAnswer → Clocks → Clocks
  from_answer no_data c = c
  from_answer read_error c = c
  from_answer (read_ok tm) c = elim (d.clock_settime (record { sec = d.mktime tm; nsec = 0 })) [
    | none ↦ c
    | some t ↦ record c { system = t }
  ]

  unfoldable pub set_system_time_from_rtc : Clocks → Clocks
  unfolding from_answer
  set_system_time_from_rtc c = if d.rtc_ready then from_answer (d.rtc_get_time c.rtc) c else c

  write_rtc : Option TimeSpec64 → Clocks → Clocks
  write_rtc none c = c
  write_rtc (some ts) c = elim (d.rtc_set_time (d.gmtime ts.sec)) [
    | none ↦ c
    | some t ↦ record c { rtc = some t; timer_running = true }
  ]

  unfoldable pub set_rtc_from_system_time : Clocks → Clocks
  unfolding write_rtc
  set_rtc_from_system_time c = if d.rtc_ready then write_rtc (d.clock_gettime c.system) c else c
