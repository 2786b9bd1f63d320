-- ===== src/Network/Start.antt =====
-- app/src/plc_network.c, `initialize_network`.
use beremiz4u_c.Common.{
  ℕ, zero, suc, Bool, true, false, List, [], ◌∷◌, ◌==◌, if◌then◌else◌, ℤ, pos, negsuc, minus,
  is_negative, enoent, enetdown, etimedout,
}
use beremiz4u_c.Network.{
  Flags, Net, Config, Event, services_are_ready, check_interface, setup_ipv4, setup_dhcpv4,
  take_waiter,
}

abbrev pub loop_divider : ℕ
loop_divider = 10

-- The events of the waits to come; nothing happens behind the end of the list.
abbrev pub Waits : Type 0
Waits = List (List Event)

abbrev pub now : Waits → List Event
now [] = []
now (w ∷ ws) = w

abbrev pub later : Waits → Waits
later [] = []
later (w ∷ ws) = ws

abbrev pub initial_count : ℤ → ℤ
initial_count (negsuc n) = minus 1
initial_count (pos zero) = pos 0
initial_count (pos (suc n)) = pos loop_divider

abbrev pub is_positive : ℤ → Bool
is_positive (negsuc n) = false
is_positive (pos zero) = false
is_positive (pos (suc n)) = true

abbrev pub is_minus_one : ℤ → Bool
is_minus_one (pos n) = false
is_minus_one (negsuc n) = n == 0

module _ {A : Type 0} (c : Config A) where
  -- The state, `count` and the waits to come.
  abbrev pub Waited : Type 0
  Waited = Net A × ℤ × Waits

  -- The loop that waits for the interface, from a count that is not negative.
  unfoldable pub wait_interface : ℕ → Waits → Net A → Waited
  wait_interface zero ws s = (s, minus 1, ws)
  wait_interface (suc n) ws s =
      let t = take_waiter c (now ws) s in
      let more = wait_interface n (later ws) t.0 in
      if s.counter == 0
      then (s, pos n, ws)
      else if t.1
      then more
      else if t.0.counter == 0
      then (t.0, pos n, later ws)
      else more

  unfoldable pub from_count : ℤ → Waits → Net A → Waited
  unfolding wait_interface
  from_count (pos n) ws s = wait_interface n ws s
  from_count (negsuc n) ws s = (s, negsuc (suc n), ws)

  -- The loop that waits for the services.
  unfoldable pub wait_services : Flags → ℕ → Waits → Net A → Net A × ℤ
  wait_services flags zero ws s = (s, if services_are_ready flags s then pos 0 else minus 1)
  wait_services flags (suc n) ws s =
      let t = take_waiter c (now ws) s in
      let more = wait_services flags n (later ws) t.0 in
      if services_are_ready flags s then (s, pos (suc n)) else more

  unfoldable pub services_from : Flags → ℤ → Waits → Net A → Net A × ℤ
  unfolding wait_services
  services_from flags (pos n) ws s = wait_services flags n ws s
  services_from flags (negsuc n) ws s =
      (s, if services_are_ready flags s then negsuc n else negsuc (suc n))

  -- Up to the end of the wait for the interface.
  unfoldable pub interface_phase : ℤ → Waits → Net A × Bool → Waited
  unfolding from_count
  interface_phase count ws (s, true) = (s, count, ws)
  interface_phase count ws (s, false) =
      let (t, left, rest) = from_count count ws (record s { counter = 1 }) in
      (record t { up_callback = if c.native then false else t.up_callback }, left, rest)

  unfoldable pub setup : Net A → Net A
  setup s = if c.dhcpv4 then setup_dhcpv4 c (setup_ipv4 c s) else setup_ipv4 c s

  unfoldable pub services_phase : ℤ → Net A × ℤ → Net A × ℤ
  services_phase timeout (s, count) =
      if is_minus_one count
      then (s, if is_positive timeout then minus etimedout else pos 0)
      else (s, pos 0)

  -- Behind the wait for the interface.
  unfoldable pub finish_start : Flags → ℤ → Waited → Net A × ℤ
  unfolding services_phase
  finish_start flags timeout (s, count, ws) =
      let set = setup s in
      let timed_out = if is_positive timeout then is_negative count else false in
      if timed_out
      then (set, minus enetdown)
      else services_phase timeout (services_from flags count ws set)

  -- `initialize_network`: whether there is a default interface, and whether it is not to start.
  unfoldable pub initialize_network : Bool → Bool → Flags → ℤ → Waits → Net A → Net A × ℤ
  unfolding finish_start
  initialize_network has_iface no_auto_start flags timeout ws s =
      let waited = interface_phase (initial_count timeout) ws (check_interface s) in
      if has_iface
      then (if no_auto_start then (s, minus enetdown) else finish_start flags timeout waited)
      else (s, minus enoent)
