-- ===== src/Network/Checks.antt =====
-- The start of the network at concrete states.
use beremiz4u_c.Common.{
  ℕ, ◌≤◌, ◌≡◌, refl, true, false, [], ◌∷◌, ◌++◌, none, some, arith, replicate, codes, pos, minus,
  enetdown,
}
use beremiz4u_c.Network.{
  covers, or_flags, Net, Config, if_up, services_notify_ready, services_are_ready, check_interface,
  setup_dhcpv4, with_address, setup_ipv4,
}
use beremiz4u_c.Network.Start.{
  Waits, wait_services, services_from, interface_phase, setup, services_phase, finish_start,
  initialize_network,
}
use beremiz4u_c.Network.Waits.{initialize_network-waits}
use beremiz4u_c.Network.Answers.{initialize_network-served}
use beremiz4u_c.Network.Up.{initialize_network-up}

abbrev config : Config ℕ
config = record {
  dhcpv4 = true;
  native = false;
  my_ipv4_addr = codes "192.0.2.1";
  my_ipv4_netmask = codes "255.255.255.0";
  my_ipv4_gw = [];
  need_ipv4 = false ∷ false ∷ true ∷ [];
  net_addr_pton = λ text. some 7;
}

abbrev down : Net ℕ
down = record {
  services_flags = [];
  waiter = 0;
  counter = 0;
  is_up = false;
  up_callback = false;
  addr_callback = false;
  dhcp_running = false;
  addresses = [];
  netmask = none;
  gw = none;
  waits = 0;
}

abbrev plugged : Net ℕ
plugged = record down { is_up = true }

initialize_network-waits_example :
    (initialize_network config true false config.need_ipv4 (pos 20000) [] down).0.waits ≤ 10
initialize_network-waits_example =
    initialize_network-waits config true false config.need_ipv4 (pos 20000) [] down

answers : (initialize_network config true false config.need_ipv4 (pos 20000) [] plugged).1 ≡ pos 0
unfolding covers or_flags services_notify_ready services_are_ready check_interface setup_dhcpv4
    with_address setup_ipv4 wait_services services_from interface_phase setup services_phase
    finish_start initialize_network
answers = refl

initialize_network-served_example :
    services_are_ready config.need_ipv4
      (initialize_network config true false config.need_ipv4 (pos 20000) [] plugged).0
    ≡ true
initialize_network-served_example =
    initialize_network-served config true false config.need_ipv4 (pos 20000) [] plugged refl answers

abbrev late : Waits
late = replicate 9 [] ++ (if_up ∷ []) ∷ []

initialize_network-up_example :
    ((initialize_network config true false config.need_ipv4 (pos 20000) late down).1
      ≡ minus enetdown)
    × ((initialize_network config true false config.need_ipv4 (pos 20000) late down).0.is_up ≡ true)
initialize_network-up_example =
    initialize_network-up config 9 19999 7 [] down (omega arith) refl refl refl
