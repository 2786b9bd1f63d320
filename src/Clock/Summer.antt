-- ===== src/Clock/Summer.antt =====
-- app/src/plc_time_rtc.c, `is_dst` and the local time of day, against the calendar.
use beremiz4u_c.Common.{
  ℕ, zero, suc, ◌+◌, ◌-◌, ◌*◌, ◌/◌, ◌%◌, ◌≤◌, ◌<◌, ◌≡◌, refl, Bool, true, ◌||◌, ◌&&◌, not, ltb, leb,
  ◌==◌, ==_iff, ap₂, subst, ◌∙◌, if◌then◌else◌, arith,
}
use beremiz4u_c.Clock.{
  Tm, begin_dst_day, end_dst_day, is_dst, get_current_timezone_offset, carry_days, local_fields,
}

-- The Gregorian calendar: days up to a day of a month, counted from a Sunday.
abbrev pub is_leap : ℕ → Bool
is_leap y = y % 4 == 0 && (not (y % 100 == 0) || y % 400 == 0)

abbrev pub days_before_march : ℕ → ℕ
days_before_march y = if is_leap y then 60 else 59

abbrev pub day_number : ℕ → ℕ → ℕ → ℕ
day_number y days_before day =
    365 * (y - 1) + (y - 1) / 4 - (y - 1) / 100 + (y - 1) / 400 + days_before + day

-- The greatest day up to the given one whose number is a multiple of seven.
abbrev pub last_sunday : ℕ → ℕ → ℕ → ℕ
last_sunday y days_before zero = 0
last_sunday y days_before (suc d) =
    if day_number y days_before (suc d) % 7 == 0 then suc d else last_sunday y days_before d

abbrev pub last_sunday_of_march : ℕ → ℕ
last_sunday_of_march y = last_sunday y (days_before_march y) 31

abbrev pub last_sunday_of_october : ℕ → ℕ
last_sunday_of_october y = last_sunday y (days_before_march y + 214) 31

agree : ℕ → Bool
agree k =
    (begin_dst_day (k + 1901) == last_sunday_of_march (k + 1901))
    && (end_dst_day (k + 1901) == last_sunday_of_october (k + 1901))

-- The years from 1901 on, as many as given.
years_agree : ℕ → Bool
years_agree zero = true
years_agree (suc years) = years_agree years && agree years

year_agrees : (years k : ℕ) → k < years → years_agree years ≡ true → agree k ≡ true
unfolding years_agree
year_agrees zero k small all = elim small [ ]
year_agrees (suc years) k small all = ground (arith, year_agrees years k)

all_agree : years_agree 199 ≡ true
unfolding years_agree agree
all_agree = refl

&&-both : (a b : Bool) → (a && b) ≡ true → (a ≡ true) × (b ≡ true)
&&-both a b h = ground arith

agree_at :
    (k : ℕ)
    → k < 199
    → (begin_dst_day (k + 1901) ≡ last_sunday_of_march (k + 1901))
      × (end_dst_day (k + 1901) ≡ last_sunday_of_october (k + 1901))
unfolding agree
agree_at k h =
    let both = &&-both _ _ (year_agrees 199 k h all_agree) in
    ((==_iff _ _).0 both.0, (==_iff _ _).0 both.1)

-- A date of a year as one number.
abbrev pub in_year : ℕ → ℕ → ℕ
in_year month day = month * 32 + day

-- Summer time: from the last Sunday of March on, up to the day before the last Sunday of October.
abbrev pub in_summer : ℕ → ℕ → ℕ → Bool
in_summer year month day =
    leb (in_year 3 (last_sunday_of_march year)) (in_year month day)
    && ltb (in_year month day) (in_year 10 (last_sunday_of_october year))

by_days :
    (tm : Tm)
    → tm.tm_mon < 12
    → 1 ≤ tm.tm_mday
    → tm.tm_mday ≤ 31
    → is_dst tm ≡ (
        leb (in_year 3 (begin_dst_day (tm.tm_year + 1900))) (in_year (tm.tm_mon + 1) tm.tm_mday)
        && ltb (in_year (tm.tm_mon + 1) tm.tm_mday) (in_year 10 (end_dst_day (tm.tm_year + 1900))))
unfolding is_dst
by_days tm mon low high = ground arith

-- For every date of the years 1901 to 2099, `is_dst` tells whether the date is in summer time by
-- the Gregorian calendar: from the last Sunday of March to the day before the last of October.
pub is_dst-in_summer :
    (tm : Tm)
    → 1 ≤ tm.tm_year
    → tm.tm_year ≤ 199
    → tm.tm_mon < 12
    → 1 ≤ tm.tm_mday
    → tm.tm_mday ≤ 31
    → is_dst tm ≡ in_summer (tm.tm_year + 1900) (tm.tm_mon + 1) tm.tm_mday
is_dst-in_summer tm first last mon low high =
    by_days tm mon low high
    ∙ ap₂
        (λ a b.
          leb (in_year 3 a) (in_year (tm.tm_mon + 1) tm.tm_mday)
          && ltb (in_year (tm.tm_mon + 1) tm.tm_mday) (in_year 10 b))
        (at_year (λ y. begin_dst_day y ≡ last_sunday_of_march y) days.0)
        (at_year (λ y. end_dst_day y ≡ last_sunday_of_october y) days.1)
  where
    days :
        (begin_dst_day (tm.tm_year - 1 + 1901) ≡ last_sunday_of_march (tm.tm_year - 1 + 1901))
        × (end_dst_day (tm.tm_year - 1 + 1901) ≡ last_sunday_of_october (tm.tm_year - 1 + 1901))
    days = agree_at (tm.tm_year - 1) (omega arith)

    at_year : (P : ℕ → Type 0) → P (tm.tm_year - 1 + 1901) → P (tm.tm_year + 1900)
    at_year P h = subst P (omega arith) h

-- With more fuel than hours the loop ends by its test, and it keeps the hours of the month.
carry_days_lem :
    (fuel : ℕ) (tm : Tm)
    → tm.tm_hour < fuel
    → ((carry_days fuel tm).tm_hour < 24)
      × ((carry_days fuel tm).tm_mday * 24 + (carry_days fuel tm).tm_hour
          ≡ tm.tm_mday * 24 + tm.tm_hour)
      × ((carry_days fuel tm).tm_mon ≡ tm.tm_mon)
      × ((carry_days fuel tm).tm_year ≡ tm.tm_year)
unfolding carry_days
carry_days_lem zero tm h = elim h [ ]
carry_days_lem (suc fuel) tm h =
    ground (
      arith,
      carry_days_lem fuel (record tm { tm_hour = tm.tm_hour - 24; tm_mday = tm.tm_mday + 1 }),
    )

offset : (local : Tm) → get_current_timezone_offset local ≡ (if is_dst local then 2 else 1)
unfolding get_current_timezone_offset
offset local = refl

-- For a time of day from `gmtime`, the printed hour is below 24, and the printed day and hour are
-- the given ones plus the offset, as hours. The month and the year stay as they are, also where the
-- new day is past the end of the month.
pub local_fields_lem :
    (gmt local : Tm)
    → gmt.tm_hour < 24
    → ((local_fields gmt local).tm_hour < 24)
      × ((local_fields gmt local).tm_mday * 24 + (local_fields gmt local).tm_hour
          ≡ gmt.tm_mday * 24 + gmt.tm_hour + (if is_dst local then 2 else 1))
      × ((local_fields gmt local).tm_mon ≡ gmt.tm_mon)
      × ((local_fields gmt local).tm_year ≡ gmt.tm_year)
unfolding local_fields
local_fields_lem gmt local h =
    let hour = gmt.tm_hour + get_current_timezone_offset local in
    let (low, total, month, year) =
      carry_days_lem (suc hour) (record gmt { tm_hour = hour }) (omega arith) in
    (low, omega (arith, total, offset local), month, year)
