-- ===== src/Network/Time.antt =====
-- app/src/plc_network.c: the clock from a time server, and the start of the network as a whole.
use beremiz4u_c.Common.{
  ℕ, ◌+◌, ◌*◌, ◌/◌, ◌^◌, ◌≤◌, ◌<◌, Bool, Option, none, some, if◌then◌else◌, arith, ℤ, pos, minus,
  is_negative, is_zero,
}
use beremiz4u_c.Clock.{
  TimeSpec64, Clocks, Devices, set_system_time_from_rtc, set_rtc_from_system_time,
}
use beremiz4u_c.Network.{Net, Config}
use beremiz4u_c.Network.Start.{Waits, initialize_network}

-- The answer of `sntp_simple`: its code and the time, the fraction in 2^-32 seconds.
pub record Sntp : Type 0 where
  pub code : ℤ
  pub seconds : ℕ
  pub fraction : ℕ

abbrev pub sntp_time : Sntp → TimeSpec64
sntp_time a = record { sec = a.seconds; nsec = a.fraction * 1000000000 / 2 ^ 32 }

-- The fraction becomes nanoseconds below a second, rounded down.
pub sntp_time_lem :
    (a : Sntp)
    → a.fraction < 2 ^ 32
    → ((sntp_time a).nsec < 1000000000)
      × ((sntp_time a).nsec * 2 ^ 32 ≤ a.fraction * 1000000000)
      × (a.fraction * 1000000000 < ((sntp_time a).nsec + 1) * 2 ^ 32)
sntp_time_lem a h = (omega arith, omega arith, omega arith)

module _ (d : Devices) where
  settled : Option TimeSpec64 → Clocks → Clocks × ℤ
  settled none t = (t, minus 1)
  settled (some now) t = (record t { system = now }, pos 0)

  unfoldable pub sync_clock_via_sntp : Sntp → Clocks → Clocks × ℤ
  unfolding settled
  sync_clock_via_sntp a t =
      if is_negative a.code then (t, a.code) else settled (d.clock_settime (sntp_time a)) t

  after_sync : Clocks × ℤ → Clocks
  after_sync (t, code) =
      if is_zero code then set_rtc_from_system_time d t else set_system_time_from_rtc d t

  -- The clocks behind the start of the network, from its answer.
  unfoldable pub set_clocks : Sntp → ℤ → Clocks → Clocks
  unfolding after_sync
  set_clocks a code t = if is_zero code then after_sync (sync_clock_via_sntp a t) else t

  module _ {A : Type 0} (c : Config A) where
    -- `network_init`, with the timeout of 20 seconds.
    unfoldable pub network_init : Bool → Bool → Waits → Sntp → Net A × Clocks → Net A × Clocks
    network_init has_iface no_auto_start ws a (s, t) =
        let started = initialize_network c has_iface no_auto_start c.need_ipv4 (pos 20000) ws s in
        (started.0, set_clocks a started.1 t)
