-- ===== src/Network/Waits.antt =====
-- app/src/plc_network.c, `initialize_network`: how long it waits, and what its answer tells.
use beremiz4u_c.Common.{
  ℕ, zero, suc, ◌+◌, ◌≤◌, ◌≡◌, refl, ◌∙◌, Bool, true, false, List, [], ◌∷◌, Option, none, some,
  arith, ℤ, pos, negsuc,
}
use beremiz4u_c.Network.{
  Flags, Net, Config, Event, if_up, ipv4_addr_add, services_notify_ready, iface_up_handler,
  check_interface, ipv4_addr_add_handler, setup_dhcpv4, parsed, with_address, setup_ipv4, deliver,
  deliver_all, take_waiter,
}
use beremiz4u_c.Network.Start.{
  loop_divider, Waits, now, later, initial_count, wait_interface, from_count, wait_services,
  services_from, interface_phase, setup, services_phase, finish_start, initialize_network,
}

-- What is left of a count.
abbrev pub budget : ℤ → ℕ
budget (pos n) = n
budget (negsuc n) = 0

module _ {A : Type 0} (c : Config A) where
  deliver_all-waits : (es : List Event) (s : Net A) → (deliver_all c es s).waits ≡ s.waits
  unfolding deliver_all deliver iface_up_handler ipv4_addr_add_handler services_notify_ready
  deliver_all-waits [] s = refl
  deliver_all-waits (if_up ∷ es) s = deliver_all-waits es _ ∙ ground arith
  deliver_all-waits (ipv4_addr_add ∷ es) s = deliver_all-waits es _ ∙ ground arith

  take_waiter-waits : (es : List Event) (s : Net A) → (take_waiter c es s).0.waits ≡ s.waits + 1
  unfolding take_waiter
  take_waiter-waits es s = ground (arith, deliver_all-waits es (record s { waits = s.waits + 1 }))

  wait_interface-waits :
      (n : ℕ) (ws : Waits) (s : Net A)
      → (wait_interface c n ws s).0.waits + budget (wait_interface c n ws s).1 ≤ s.waits + n
  unfolding wait_interface
  wait_interface-waits zero ws s = omega arith
  wait_interface-waits (suc n) ws s =
      let t = take_waiter c (now ws) s in
      let took : t.0.waits ≡ s.waits + 1 = take_waiter-waits (now ws) s in
      let more = wait_interface-waits n (later ws) t.0 in ground (arith, took, more)

  wait_services-waits :
      (flags : Flags) (n : ℕ) (ws : Waits) (s : Net A)
      → (wait_services c flags n ws s).0.waits ≤ s.waits + n
  unfolding wait_services
  wait_services-waits flags zero ws s = ground arith
  wait_services-waits flags (suc n) ws s =
      let t = take_waiter c (now ws) s in
      let took : t.0.waits ≡ s.waits + 1 = take_waiter-waits (now ws) s in
      let more = wait_services-waits flags n (later ws) t.0 in ground (arith, took, more)

  with_address-waits : (o : Option A) (s : Net A) → (with_address c o s).waits ≡ s.waits
  unfolding with_address services_notify_ready
  with_address-waits none s = refl
  with_address-waits (some a) s = refl

  pub setup-waits : (s : Net A) → (setup c s).waits ≡ s.waits
  unfolding setup setup_ipv4 setup_dhcpv4
  setup-waits s = ground (arith, with_address-waits (parsed c c.my_ipv4_addr none) s)

  from_count-waits :
      (count : ℤ) (ws : Waits) (s : Net A)
      → (from_count c count ws s).0.waits + budget (from_count c count ws s).1
        ≤ s.waits + budget count
  unfolding from_count
  from_count-waits (pos n) ws s = wait_interface-waits n ws s
  from_count-waits (negsuc n) ws s = omega arith

  pub interface_phase-waits :
      (count : ℤ) (ws : Waits) (s : Net A) (up : Bool)
      → (interface_phase c count ws (s, up)).0.waits + budget (interface_phase c count ws (s, up)).1
        ≤ s.waits + budget count
  unfolding interface_phase
  interface_phase-waits count ws s true = omega arith
  interface_phase-waits count ws s false = from_count-waits count ws (record s { counter = 1 })

  services_from-waits :
      (flags : Flags) (count : ℤ) (ws : Waits) (s : Net A)
      → (services_from c flags count ws s).0.waits ≤ s.waits + budget count
  unfolding services_from
  services_from-waits flags (pos n) ws s = wait_services-waits flags n ws s
  services_from-waits flags (negsuc n) ws s = omega arith

  pub services_phase-same :
      (timeout : ℤ) (s : Net A) (count : ℤ) → (services_phase c timeout (s, count)).0 ≡ s
  unfolding services_phase
  services_phase-same timeout s count = ground arith

  pub finish_start-waits :
      (flags : Flags) (timeout count : ℤ) (ws : Waits) (s : Net A)
      → (finish_start c flags timeout (s, count, ws)).0.waits ≤ s.waits + budget count
  unfolding finish_start
  finish_start-waits flags timeout count ws s =
      let serviced = services_from c flags count ws (setup c s) in
      ground (
        arith,
        setup-waits s,
        services_from-waits flags count ws (setup c s),
        services_phase-same timeout serviced.0 serviced.1,
      )

  pub check_interface-waits : (s : Net A) → (check_interface s).0.waits ≡ s.waits
  unfolding check_interface
  check_interface-waits s = ground arith

  initial_small : (timeout : ℤ) → budget (initial_count timeout) ≤ loop_divider
  initial_small (negsuc n) = omega arith
  initial_small (pos zero) = omega arith
  initial_small (pos (suc n)) = omega arith

  -- `initialize_network` waits at most ten times, whatever the interface, the flags, the timeout and
  -- the events are; also for a negative timeout, for which its comment says that it waits
  -- indefinitely.
  pub initialize_network-waits :
      (has_iface no_auto_start : Bool) (flags : Flags) (timeout : ℤ) (ws : Waits) (s : Net A)
      → (initialize_network c has_iface no_auto_start flags timeout ws s).0.waits
        ≤ s.waits + loop_divider
  unfolding initialize_network
  initialize_network-waits has_iface no_auto_start flags timeout ws s =
      let count = initial_count timeout in
      let checked = check_interface s in
      let waited = interface_phase c count ws checked in
      let bound : (finish_start c flags timeout waited).0.waits ≤ s.waits + loop_divider = omega (
        arith,
        finish_start-waits flags timeout waited.1 waited.2 waited.0,
        interface_phase-waits count ws checked.0 checked.1,
        check_interface-waits s,
        initial_small timeout,
      ) in
      ground (arith, bound)
