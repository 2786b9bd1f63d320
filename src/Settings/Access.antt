-- ===== src/Settings/Access.antt =====
-- app/src/plc_settings.c: the getters and setters of the settings. A setter writes its global and
-- saves all settings: it gives the new globals and what the subsystem is handed to store.
use beremiz4u_c.Common.{ℕ, ◌-◌, String, Bool, List, int_bytes, int_value}
use beremiz4u_c.Settings.{
  Var, Memory, size_of, assign, strncpy, c_string, bool_bytes, bool_value, settings_export,
}

abbrev pub Stored : Type 0
Stored = List (String × List ℕ)

unfoldable pub plc_settings_save : Memory → Memory × Stored
plc_settings_save m = (m, settings_export m)

unfoldable pub set_bool : Var → Bool → Memory → Memory × Stored
unfolding plc_settings_save
set_bool v value m = plc_settings_save (assign m v (bool_bytes value))

unfoldable pub set_int : Var → ℕ → Memory → Memory × Stored
unfolding plc_settings_save
set_int v value m = plc_settings_save (assign m v (int_bytes value))

-- strncpy(variable, value, sizeof(variable) - 1)
unfoldable pub set_text : Var → List ℕ → Memory → Memory × Stored
unfolding plc_settings_save
set_text v value m = plc_settings_save (assign m v (strncpy (m v) value (size_of v - 1)))

unfoldable pub get_mount_sd_card_setting : Memory → Bool
get_mount_sd_card_setting m = bool_value (m Var.mount_sd_card)

unfoldable pub set_mount_sd_card_setting : Bool → Memory → Memory × Stored
unfolding set_bool
set_mount_sd_card_setting = set_bool Var.mount_sd_card

unfoldable pub get_plc_autostart_setting : Memory → Bool
get_plc_autostart_setting m = bool_value (m Var.plc_autostart)

unfoldable pub set_plc_autostart_setting : Bool → Memory → Memory × Stored
unfolding set_bool
set_plc_autostart_setting = set_bool Var.plc_autostart

unfoldable pub get_plc_autostart_source_setting : Memory → Bool
get_plc_autostart_source_setting m = bool_value (m Var.plc_autostart_source)

unfoldable pub set_plc_autostart_source_setting : Bool → Memory → Memory × Stored
unfolding set_bool
set_plc_autostart_source_setting = set_bool Var.plc_autostart_source

unfoldable pub get_hostname_setting : Memory → List ℕ
get_hostname_setting m = c_string (m Var.hostname)

unfoldable pub set_hostname_setting : List ℕ → Memory → Memory × Stored
unfolding set_text
set_hostname_setting = set_text Var.hostname

unfoldable pub get_dhcp_active_setting : Memory → Bool
get_dhcp_active_setting m = bool_value (m Var.dhcp_active)

unfoldable pub set_dhcp_active_setting : Bool → Memory → Memory × Stored
unfolding set_bool
set_dhcp_active_setting = set_bool Var.dhcp_active

unfoldable pub get_dhcp_timeout_sec_setting : Memory → ℕ
get_dhcp_timeout_sec_setting m = int_value (m Var.dhcp_timeout_sec)

unfoldable pub set_dhcp_timeout_sec_setting : ℕ → Memory → Memory × Stored
unfolding set_int
set_dhcp_timeout_sec_setting = set_int Var.dhcp_timeout_sec

unfoldable pub get_fallback_ip_setting : Memory → Bool
get_fallback_ip_setting m = bool_value (m Var.fallback_ip)

unfoldable pub set_fallback_ip_setting : Bool → Memory → Memory × Stored
unfolding set_bool
set_fallback_ip_setting = set_bool Var.fallback_ip

unfoldable pub get_ip_address_setting : Memory → List ℕ
get_ip_address_setting m = c_string (m Var.ip_address)

unfoldable pub set_ip_address_setting : List ℕ → Memory → Memory × Stored
unfolding set_text
set_ip_address_setting = set_text Var.ip_address

unfoldable pub get_netmask_setting : Memory → List ℕ
get_netmask_setting m = c_string (m Var.netmask)

unfoldable pub set_netmask_setting : List ℕ → Memory → Memory × Stored
unfolding set_text
set_netmask_setting = set_text Var.netmask

unfoldable pub get_gateway_setting : Memory → List ℕ
get_gateway_setting m = c_string (m Var.gateway)

unfoldable pub set_gateway_setting : List ℕ → Memory → Memory × Stored
unfolding set_text
set_gateway_setting = set_text Var.gateway

unfoldable pub get_mac_address_setting : Memory → List ℕ
get_mac_address_setting m = c_string (m Var.mac_address)

unfoldable pub set_mac_address_setting : List ℕ → Memory → Memory × Stored
unfolding set_text
set_mac_address_setting = set_text Var.mac_address

unfoldable pub get_ntp_server_setting : Memory → Bool
get_ntp_server_setting m = bool_value (m Var.ntp_server)

unfoldable pub set_ntp_server_setting : Bool → Memory → Memory × Stored
unfolding set_bool
set_ntp_server_setting = set_bool Var.ntp_server

unfoldable pub get_ntp_address_setting : Memory → List ℕ
get_ntp_address_setting m = c_string (m Var.ntp_address)

unfoldable pub set_ntp_address_setting : List ℕ → Memory → Memory × Stored
unfolding set_text
set_ntp_address_setting = set_text Var.ntp_address

unfoldable pub get_ntp_timeout_setting : Memory → ℕ
get_ntp_timeout_setting m = int_value (m Var.ntp_timeout)

unfoldable pub set_ntp_timeout_setting : ℕ → Memory → Memory × Stored
unfolding set_int
set_ntp_timeout_setting = set_int Var.ntp_timeout

unfoldable pub get_rpc_server_port_setting : Memory → ℕ
get_rpc_server_port_setting m = int_value (m Var.rpc_server_port)

unfoldable pub set_rpc_server_port_setting : ℕ → Memory → Memory × Stored
unfolding set_int
set_rpc_server_port_setting = set_int Var.rpc_server_port
