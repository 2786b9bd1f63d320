-- ===== src/Settings.antt =====
-- app/src/plc_settings.c and app/include/plc_settings.h: the persistent settings of the runtime.
-- Each global is the bytes that it occupies; the settings subsystem of the operating system is the
-- record `Subsystem`. What the proofs need of the bytes is in `Settings.Bytes`.
pub mod Access
pub mod Bytes
pub mod Stored
pub mod Text
pub mod Checks
use beremiz4u_c.Common.{
  ℕ, zero, suc, ◌+◌, ◌-◌, ◌*◌, ◌/◌, ◌%◌, ◌≤◌, ◌≡◌, String, Bool, true, false, List, [], ◌∷◌, ◌++◌,
  Option, none, some, length, take, drop, replicate, if◌then◌else◌, ◌==◌, codes, str_eq,
  starts_with, find?, slice, len,
}

-- The globals that hold a setting.
pub data Var : Type 0 where
  mount_sd_card plc_autostart plc_autostart_source hostname dhcp_active : Var
  dhcp_timeout_sec fallback_ip ip_address netmask gateway : Var
  mac_address ntp_server ntp_address ntp_timeout rpc_server_port : Var

abbrev pub index : Var → ℕ
index mount_sd_card = 0
index plc_autostart = 1
index plc_autostart_source = 2
index hostname = 3
index dhcp_active = 4
index dhcp_timeout_sec = 5
index fallback_ip = 6
index ip_address = 7
index netmask = 8
index gateway = 9
index mac_address = 10
index ntp_server = 11
index ntp_address = 12
index ntp_timeout = 13
index rpc_server_port = 14

abbrev pub same : Var → Var → Bool
same v w = index v == index w

-- `sizeof` of each global: a bool has one byte, an int four.
abbrev pub size_of : Var → ℕ
size_of hostname = 64
size_of ntp_address = 64
size_of ip_address = 17
size_of netmask = 17
size_of gateway = 17
size_of mac_address = 18
size_of dhcp_timeout_sec = 4
size_of ntp_timeout = 4
size_of rpc_server_port = 4
size_of _ = 1

abbrev pub Memory : Type 0
Memory = Var → List ℕ

abbrev pub assign : Memory → Var → List ℕ → Memory
assign m v b w = if same v w then b else m w

-- A text in a char array, padded with zeros.
abbrev pub char_array : ℕ → List ℕ → List ℕ
char_array n s = take n (s ++ replicate n 0)

-- The initial values of the globals.
unfoldable pub initial : Memory
initial mount_sd_card = 1 ∷ []
initial plc_autostart = 1 ∷ []
initial plc_autostart_source = 0 ∷ []
initial hostname = char_array 64 (codes "default_hostname")
initial dhcp_active = 1 ∷ []
initial dhcp_timeout_sec = 0 ∷ 0 ∷ 0 ∷ 0 ∷ []
initial fallback_ip = 0 ∷ []
initial ip_address = char_array 17 (codes "0.0.0.0")
initial netmask = char_array 17 (codes "0.0.0.0")
initial gateway = char_array 17 (codes "0.0.0.0")
initial mac_address = char_array 18 (codes "00:00:00:00:00:00")
initial ntp_server = 0 ∷ []
initial ntp_address = char_array 64 (codes "pool.ntp.org")
initial ntp_timeout = 0 ∷ 0 ∷ 0 ∷ 0 ∷ []
initial rpc_server_port = 0 ∷ 0 ∷ 0 ∷ 0 ∷ []

abbrev pub has_slash : String → Bool
has_slash s = elim (find? s "/") [ none ↦ false | some _ ↦ true ]

-- The settings subsystem: `name_steq` is `settings_name_steq` with no `next`; `read value n` is
-- what the read callback of a stored value puts into a buffer of n bytes; `lookup` finds the rest
-- of a stored name below the handler "plc".
pub record Subsystem : Type 0 where
  pub name_steq : String → String → Bool
  pub read : List ℕ → ℕ → List ℕ
  pub lookup : String → Option String
  pub single_component : (n k : String) → has_slash n ≡ false → name_steq n k ≡ str_eq n k
  pub read-le : (value : List ℕ) (n : ℕ) → length (read value n) ≤ n
  pub read_whole : (value : List ℕ) (n : ℕ) → length value ≤ n → read value n ≡ value
  pub lookup_own : (n : String) → starts_with n "plc/" ≡ true → lookup n ≡ some (slice n 4 (len n))
  pub lookup_other :
      (n : String) → starts_with n "plc/" ≡ false → str_eq n "plc" ≡ false → lookup n ≡ none

-- Bytes read into the front of a global; the bytes behind them stay.
abbrev pub overlay : List ℕ → List ℕ → List ℕ
overlay new old = new ++ drop (length new) old

-- strncpy(old, s, n) for a text s: at most n characters, zeros up to n, and the rest of the array
-- stays.
abbrev pub strncpy : List ℕ → List ℕ → ℕ → List ℕ
strncpy old s n = overlay (char_array n s) old

-- The text of a char array, up to its first zero.
abbrev pub c_string : List ℕ → List ℕ
c_string [] = []
c_string (zero ∷ s) = []
c_string (suc c ∷ s) = suc c ∷ c_string s

abbrev pub bool_bytes : Bool → List ℕ
bool_bytes true = 1 ∷ []
bool_bytes false = 0 ∷ []

abbrev pub bool_value : List ℕ → Bool
bool_value [] = false
bool_value (zero ∷ bs) = false
bool_value (suc b ∷ bs) = true

module _ (api : Subsystem) where
  -- read_cb(cb_arg, &variable, sizeof(variable))
  abbrev pub read_cb : List ℕ → Var → Memory → Memory
  read_cb value v m = assign m v (overlay (api.read value (size_of v)) (m v))

  -- The chain of name tests in `settings_set`, over the test `settings_name_steq(name, …, NULL)`.
  unfoldable pub choose : (String → Bool) → List ℕ → Memory → Memory
  choose is value m =
      if is "mount_sd_card"
      then read_cb value mount_sd_card m
      else if is "plc_autostart"
      then read_cb value plc_autostart m
      else if is "plc_autostart_source"
      then read_cb value plc_autostart_source m
      else if is "hostname"
      then read_cb value hostname m
      else if is "dhcp_active"
      then read_cb value dhcp_active m
      else if is "dhcp_timeout_sec"
      then read_cb value dhcp_timeout_sec m
      else if is "fallback_ip"
      then read_cb value fallback_ip m
      else if is "ip_address"
      then read_cb value ip_address m
      else if is "netmask"
      then read_cb value netmask m
      else if is "gateway"
      then read_cb value gateway m
      else if is "mac_address"
      then read_cb value mac_address m
      else if is "ntp_server"
      then read_cb value ntp_server m
      else if is "ntp_address"
      then read_cb value ntp_address m
      else if is "ntp_timeout"
      then read_cb value ntp_timeout m
      else if is "rpc_server_port"
      then read_cb value rpc_server_port m
      else m

  unfoldable pub settings_set : String → List ℕ → Memory → Memory
  unfolding choose
  settings_set name value m = choose (api.name_steq name) value m

  -- settings_load: every stored pair whose name belongs to the handler goes to `settings_set`.
  load_one : Option String → List ℕ → Memory → Memory
  load_one none value m = m
  load_one (some name) value m = settings_set name value m

  unfoldable pub plc_settings_load : List (String × List ℕ) → Memory → Memory
  unfolding load_one
  plc_settings_load [] m = m
  plc_settings_load ((name, value) ∷ stored) m =
      plc_settings_load stored (load_one (api.lookup name) value m)

-- What `settings_export` hands to the callback, in order.
unfoldable pub settings_export : Memory → List (String × List ℕ)
settings_export m =
    ("plc/mount_sd_card", m mount_sd_card)
    ∷ ("plc/start_plc_at_boot", m plc_autostart)
    ∷ ("network/hostname", m hostname)
    ∷ ("network/dhcp_active", m dhcp_active)
    ∷ ("network/dhcp_timeout_sec", m dhcp_timeout_sec)
    ∷ ("network/fallback_ip", m fallback_ip)
    ∷ ("network/ip_address", m ip_address)
    ∷ ("network/netmask", m netmask)
    ∷ ("network/gateway", m gateway)
    ∷ ("network/mac_address", m mac_address)
    ∷ ("network/ntp_server", m ntp_server)
    ∷ ("network/ntp_address", m ntp_address)
    ∷ ("network/ntp_timeout", m ntp_timeout)
    ∷ ("network/rpc_server_port", m rpc_server_port)
    ∷ []
