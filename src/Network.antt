-- ===== src/Network.antt =====
-- app/src/plc_network.c: bringing up the network, and the clock from a time server.
-- The interface and the events that happen during a wait are given to the functions; so is the reading
-- of an address. Flags are lists of bits. The length of a wait is left to its events.
pub mod Start
pub mod Waits
pub mod Answers
pub mod Up
pub mod Time
pub mod Address
pub mod Checks
use beremiz4u_c.Common.{
  ℕ, zero, suc, ◌+◌, ◌-◌, Bool, true, false, not, ◌&&◌, ◌||◌, List, [], ◌∷◌, ◌++◌, Option, none,
  some, ◌==◌, if◌then◌else◌, length, ltb, min,
}

abbrev pub Flags : Type 0
Flags = List Bool

-- (have & wanted) == wanted
unfoldable pub covers : Flags → Flags → Bool
covers [] have = true
covers (w ∷ wanted) [] = not w && covers wanted []
covers (w ∷ wanted) (h ∷ have) = (not w || h) && covers wanted have

unfoldable pub or_flags : Flags → Flags → Flags
or_flags [] have = have
or_flags (f ∷ flags) [] = f ∷ flags
or_flags (f ∷ flags) (h ∷ have) = (f || h) ∷ or_flags flags have

pub data AddressType : Type 0 where
  overridable manual : AddressType

-- `waiter` and `counter` are the counts of the two semaphores. `up_callback` and `addr_callback` tell
-- whether the handlers are registered. `waits` counts the waits for `waiter`.
pub record Net (A : Type 0) : Type 0 where
  pub services_flags : Flags
  pub waiter : ℕ
  pub counter : ℕ
  pub is_up : Bool
  pub up_callback : Bool
  pub addr_callback : Bool
  pub dhcp_running : Bool
  pub addresses : List (A × AddressType)
  pub netmask : Option A
  pub gw : Option A
  pub waits : ℕ

-- The options of the build, `NET_CONFIG_NEED_IPV4`, and `net_addr_pton`.
pub record Config (A : Type 0) : Type 0 where
  pub dhcpv4 : Bool
  pub native : Bool
  pub my_ipv4_addr : List ℕ
  pub my_ipv4_netmask : List ℕ
  pub my_ipv4_gw : List ℕ
  pub need_ipv4 : Flags
  pub net_addr_pton : List ℕ → Option A

pub data Event : Type 0 where
  if_up ipv4_addr_add : Event

module _ {A : Type 0} where
  -- The semaphore `waiter` counts to one.
  abbrev pub give_waiter : Net A → Net A
  give_waiter s = record s { waiter = 1 }

  unfoldable pub services_notify_ready : Flags → Net A → Net A
  services_notify_ready flags s =
      give_waiter (record s { services_flags = or_flags flags s.services_flags })

  unfoldable pub services_are_ready : Flags → Net A → Bool
  services_are_ready flags s = covers flags s.services_flags

  unfoldable pub iface_up_handler : Net A → Net A
  iface_up_handler s = give_waiter (record s { counter = 0 })

  unfoldable pub check_interface : Net A → Net A × Bool
  check_interface s =
      if s.is_up
      then (give_waiter (record s { counter = 0 }), true)
      else (record s { up_callback = true }, false)

  module _ (c : Config A) where
    unfoldable pub ipv4_addr_add_handler : Net A → Net A
    ipv4_addr_add_handler s = services_notify_ready c.need_ipv4 s

    unfoldable pub setup_dhcpv4 : Net A → Net A
    setup_dhcpv4 s = record s { addr_callback = true; dhcp_running = true }

    -- An option that is set and can be read.
    abbrev pub parsed : List ℕ → Option A → Option A
    parsed [] old = old
    parsed (b ∷ text) old = elim (c.net_addr_pton (b ∷ text)) [ none ↦ old | some a ↦ some a ]

    unfoldable pub with_address : Option A → Net A → Net A
    unfolding services_notify_ready
    with_address none s = s
    with_address (some a) s = services_notify_ready c.need_ipv4 (record s {
      addresses = s.addresses ++ (a, if c.dhcpv4 then overridable else manual) ∷ [];
      netmask = parsed c.my_ipv4_netmask s.netmask;
      gw = parsed c.my_ipv4_gw s.gw;
    })

    unfoldable pub setup_ipv4 : Net A → Net A
    unfolding with_address
    setup_ipv4 s = with_address (parsed c.my_ipv4_addr none) s

    -- An event, and the handler that is registered for it.
    unfoldable pub deliver : Event → Net A → Net A
    unfolding iface_up_handler ipv4_addr_add_handler
    deliver if_up s =
        let up = record s { is_up = true } in if s.up_callback then iface_up_handler up else up
    deliver ipv4_addr_add s = if s.addr_callback then ipv4_addr_add_handler s else s

    unfoldable pub deliver_all : List Event → Net A → Net A
    unfolding deliver
    deliver_all [] s = s
    deliver_all (e ∷ es) s = deliver_all es (deliver e s)

    -- k_sem_take(&waiter, …): whether it is taken, at once or behind the events of the wait.
    unfoldable pub take_waiter : List Event → Net A → Net A × Bool
    unfolding deliver_all
    take_waiter events s =
        let counted = record s { waits = s.waits + 1 } in
        let after = if s.waiter == 0 then deliver_all events counted else counted in
        if after.waiter == 0
        then (after, false)
        else (record after { waiter = after.waiter - 1 }, true)
