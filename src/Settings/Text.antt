-- ===== src/Settings/Text.antt =====
-- app/src/plc_settings.c: what a getter gives after its setter.
use beremiz4u_c.Common.{int_value-int_bytes, ℕ, ◌^◌, ◌<◌, ◌≡◌, Bool, List, take}
use beremiz4u_c.Settings.{Var, Memory}
use beremiz4u_c.Settings.Bytes.{NoZero, EndsInZero, c_string-strncpy, bool_value-bool_bytes}
use beremiz4u_c.Settings.Access.{
  get_hostname_setting, set_hostname_setting, get_ip_address_setting, set_ip_address_setting,
  get_netmask_setting, set_netmask_setting, get_gateway_setting, set_gateway_setting,
  get_mac_address_setting, set_mac_address_setting, get_ntp_address_setting,
  set_ntp_address_setting, get_mount_sd_card_setting, set_mount_sd_card_setting,
  get_plc_autostart_setting, set_plc_autostart_setting, get_plc_autostart_source_setting,
  set_plc_autostart_source_setting, get_dhcp_active_setting, set_dhcp_active_setting,
  get_fallback_ip_setting, set_fallback_ip_setting, get_ntp_server_setting, set_ntp_server_setting,
  get_dhcp_timeout_sec_setting, set_dhcp_timeout_sec_setting, get_ntp_timeout_setting,
  set_ntp_timeout_setting, get_rpc_server_port_setting, set_rpc_server_port_setting,
}

-- The char arrays end in a zero byte.
pub record TextsEnd (m : Memory) : Type 0 where
  pub hostname_ends : EndsInZero 63 (m Var.hostname)
  pub ip_address_ends : EndsInZero 16 (m Var.ip_address)
  pub netmask_ends : EndsInZero 16 (m Var.netmask)
  pub gateway_ends : EndsInZero 16 (m Var.gateway)
  pub mac_address_ends : EndsInZero 17 (m Var.mac_address)
  pub ntp_address_ends : EndsInZero 63 (m Var.ntp_address)

-- Where the char arrays end in a zero byte, the getter of each text setting gives, after its
-- setter, the text cut to one character less than the array holds.
pub get-set_text :
    (s : List ℕ) (m : Memory)
    → NoZero s
    → TextsEnd m
    → (get_hostname_setting (set_hostname_setting s m).0 ≡ take 63 s)
      × (get_ip_address_setting (set_ip_address_setting s m).0 ≡ take 16 s)
      × (get_netmask_setting (set_netmask_setting s m).0 ≡ take 16 s)
      × (get_gateway_setting (set_gateway_setting s m).0 ≡ take 16 s)
      × (get_mac_address_setting (set_mac_address_setting s m).0 ≡ take 17 s)
      × (get_ntp_address_setting (set_ntp_address_setting s m).0 ≡ take 63 s)
unfolding get_hostname_setting set_hostname_setting get_ip_address_setting set_ip_address_setting
    get_netmask_setting set_netmask_setting get_gateway_setting set_gateway_setting
    get_mac_address_setting set_mac_address_setting get_ntp_address_setting set_ntp_address_setting
get-set_text s m h e = (
  c_string-strncpy 63 s (m Var.hostname) h e.hostname_ends,
  c_string-strncpy 16 s (m Var.ip_address) h e.ip_address_ends,
  c_string-strncpy 16 s (m Var.netmask) h e.netmask_ends,
  c_string-strncpy 16 s (m Var.gateway) h e.gateway_ends,
  c_string-strncpy 17 s (m Var.mac_address) h e.mac_address_ends,
  c_string-strncpy 63 s (m Var.ntp_address) h e.ntp_address_ends,
)

-- The getter of each numeric or Boolean setting gives, after its setter, what was set, for a number
-- below 2 ^ 32.
pub get-set_value :
    (n : ℕ) (b : Bool) (m : Memory)
    → n < 2 ^ 32
    → (get_mount_sd_card_setting (set_mount_sd_card_setting b m).0 ≡ b)
      × (get_plc_autostart_setting (set_plc_autostart_setting b m).0 ≡ b)
      × (get_plc_autostart_source_setting (set_plc_autostart_source_setting b m).0 ≡ b)
      × (get_dhcp_active_setting (set_dhcp_active_setting b m).0 ≡ b)
      × (get_fallback_ip_setting (set_fallback_ip_setting b m).0 ≡ b)
      × (get_ntp_server_setting (set_ntp_server_setting b m).0 ≡ b)
      × (get_dhcp_timeout_sec_setting (set_dhcp_timeout_sec_setting n m).0 ≡ n)
      × (get_ntp_timeout_setting (set_ntp_timeout_setting n m).0 ≡ n)
      × (get_rpc_server_port_setting (set_rpc_server_port_setting n m).0 ≡ n)
unfolding get_mount_sd_card_setting set_mount_sd_card_setting get_plc_autostart_setting
    set_plc_autostart_setting get_plc_autostart_source_setting set_plc_autostart_source_setting
    get_dhcp_active_setting set_dhcp_active_setting get_fallback_ip_setting set_fallback_ip_setting
    get_ntp_server_setting set_ntp_server_setting get_dhcp_timeout_sec_setting
    set_dhcp_timeout_sec_setting get_ntp_timeout_setting set_ntp_timeout_setting
    get_rpc_server_port_setting set_rpc_server_port_setting
get-set_value n b m h =
    let same_bool = bool_value-bool_bytes b in
    let same_int = int_value-int_bytes n h in
    (same_bool, same_bool, same_bool, same_bool, same_bool, same_bool, same_int, same_int, same_int)
