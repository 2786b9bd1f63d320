-- ===== src/Settings/Stored.antt =====
-- app/src/plc_settings.c: what the settings are after a save and a load.
use beremiz4u_c.Common.{
  ℕ, ◌≡◌, ◌∙◌, refl, String, Bool, true, false, List, [], ◌∷◌, Option, none, some, arith, length,
  str_eq, ◌==◌, ◌||◌, ==_iff, sym, Bool-cases, inl, inr, starts_with, slice, len, ap, fun_ext,
  if◌then◌else◌, ◌≤◌, ◌++◌, zero, suc, drop, append-nil,
}
use beremiz4u_c.Settings.{
  Var, Memory, size_of, has_slash, choose, index, same, Subsystem, read_cb, settings_set, load_one,
  assign, overlay, plc_settings_load, settings_export,
}
use beremiz4u_c.Settings.Bytes.{length-overlay}
use beremiz4u_c.Settings.Access.{plc_settings_save}

-- The name under which `settings_set` looks for each global.
abbrev pub name_of : Var → String
name_of Var.mount_sd_card = "mount_sd_card"
name_of Var.plc_autostart = "plc_autostart"
name_of Var.plc_autostart_source = "plc_autostart_source"
name_of Var.hostname = "hostname"
name_of Var.dhcp_active = "dhcp_active"
name_of Var.dhcp_timeout_sec = "dhcp_timeout_sec"
name_of Var.fallback_ip = "fallback_ip"
name_of Var.ip_address = "ip_address"
name_of Var.netmask = "netmask"
name_of Var.gateway = "gateway"
name_of Var.mac_address = "mac_address"
name_of Var.ntp_server = "ntp_server"
name_of Var.ntp_address = "ntp_address"
name_of Var.ntp_timeout = "ntp_timeout"
name_of Var.rpc_server_port = "rpc_server_port"

-- Every global has the bytes of its type.
pub record IsSized (m : Memory) : Type 0 where
  pub at : (v : Var) → length (m v) ≡ size_of v

size_at : ℕ → ℕ
size_at n =
    if n == 3 || n == 12
    then 64
    else if n == 5 || n == 13 || n == 14
    then 4
    else if n == 7 || n == 8 || n == 9
    then 17
    else if n == 10
    then 18
    else 1

size_of-index : (v : Var) → size_of v ≡ size_at (index v)
unfolding size_at
size_of-index Var.mount_sd_card = refl
size_of-index v = refl

size_of-same : (v w : Var) → same v w ≡ true → size_of v ≡ size_of w
size_of-same v w e =
    size_of-index v ∙ ap size_at ((==_iff (index v) (index w)).0 e) ∙ sym (size_of-index w)

if-IsSized : (b : Bool) (x y : Memory) → IsSized x → IsSized y → IsSized (if b then x else y)
if-IsSized true x y p q = p
if-IsSized false x y p q = q

module _ (api : Subsystem) where
  choose-settings_set :
      (name : String) (value : List ℕ) (m : Memory)
      → has_slash name ≡ false
      → settings_set api name value m ≡ choose api (str_eq name) value m
  unfolding settings_set
  choose-settings_set name value m h =
      ap (λ is. choose api is value m) (fun_ext (λ k. api.single_component name k h))

  choose-name_of :
      (v : Var) (value : List ℕ) (m : Memory)
      → choose api (str_eq (name_of v)) value m ≡ read_cb api value v m
  unfolding choose
  choose-name_of Var.mount_sd_card value m = refl
  choose-name_of v value m = refl

  no_slash : (v : Var) → has_slash (name_of v) ≡ false
  no_slash Var.mount_sd_card = refl
  no_slash v = refl

  -- `settings_set` called with the name of a global reads the value into that global, and changes
  -- no other.
  pub settings_set-name_of :
      (v : Var) (value : List ℕ) (m : Memory)
      → settings_set api (name_of v) value m ≡ read_cb api value v m
  settings_set-name_of v value m =
      choose-settings_set (name_of v) value m (no_slash v) ∙ choose-name_of v value m

  read_cb-IsSized :
      (value : List ℕ) (v : Var) (m : Memory) → IsSized m → IsSized (read_cb api value v m)
  read_cb-IsSized value v m h = record { at = λ w. sized w }
    where
      sized : (w : Var) → length (read_cb api value v m w) ≡ size_of w
      sized w = elim (Bool-cases (same v w)) [
        | inl e ↦ rw e (
            length-overlay (api.read value (size_of v)) (m v)
              (omega (arith, h.at v, api.read-le value (size_of v)))
            ∙ h.at v
            ∙ size_of-same v w e)
        | inr e ↦ rw e (h.at w)
      ]

  choose-IsSized :
      (is : String → Bool) (value : List ℕ) (m : Memory)
      → IsSized m
      → IsSized (choose api is value m)
  unfolding choose
  choose-IsSized is value m h = search (if-IsSized, read_cb-IsSized) depth 20

  load_one-IsSized :
      (name : Option String) (value : List ℕ) (m : Memory)
      → IsSized m
      → IsSized (load_one api name value m)
  unfolding load_one settings_set
  load_one-IsSized none value m h = h
  load_one-IsSized (some name) value m h = choose-IsSized (api.name_steq name) value m h

  -- Whatever is stored, loading it keeps every global at its size: no read goes past the end of a
  -- global.
  pub plc_settings_load-IsSized :
      (stored : List (String × List ℕ)) (m : Memory)
      → IsSized m
      → IsSized (plc_settings_load api stored m)
  unfolding plc_settings_load
  plc_settings_load-IsSized [] m h = h
  plc_settings_load-IsSized ((name, value) ∷ stored) m h =
      plc_settings_load-IsSized stored _ (load_one-IsSized (api.lookup name) value m h)

  -- A stored value under a name below "plc/" goes to `settings_set`; one below another handler's
  -- name does nothing.
  load_own :
      (name rest : String) (value : List ℕ) (m : Memory)
      → starts_with name "plc/" ≡ true
      → slice name 4 (len name) ≡ rest
      → load_one api (api.lookup name) value m ≡ settings_set api rest value m
  unfolding load_one
  load_own name rest value m h e = rw (api.lookup_own name h, e)

  load_other :
      (name : String) (value : List ℕ) (m : Memory)
      → starts_with name "plc/" ≡ false
      → str_eq name "plc" ≡ false
      → load_one api (api.lookup name) value m ≡ m
  unfolding load_one
  load_other name value m h e = rw (api.lookup_other name h e)

  settings_set-start_plc_at_boot :
      (value : List ℕ) (m : Memory) → settings_set api "start_plc_at_boot" value m ≡ m
  unfolding choose
  settings_set-start_plc_at_boot value m = choose-settings_set "start_plc_at_boot" value m refl

  loads_read :
      (saved m : Memory)
      → plc_settings_load api (plc_settings_save saved).1 m
        ≡ read_cb api (saved Var.mount_sd_card) Var.mount_sd_card m
  unfolding plc_settings_load plc_settings_save settings_export
  loads_read saved m = rw (
    load_own "plc/mount_sd_card" "mount_sd_card" _ _ refl refl,
    load_own "plc/start_plc_at_boot" "start_plc_at_boot" _ _ refl refl,
    settings_set-start_plc_at_boot,
    load_other "network/hostname" _ _ refl refl,
    load_other "network/dhcp_active" _ _ refl refl,
    load_other "network/dhcp_timeout_sec" _ _ refl refl,
    load_other "network/fallback_ip" _ _ refl refl,
    load_other "network/ip_address" _ _ refl refl,
    load_other "network/netmask" _ _ refl refl,
    load_other "network/gateway" _ _ refl refl,
    load_other "network/mac_address" _ _ refl refl,
    load_other "network/ntp_server" _ _ refl refl,
    load_other "network/ntp_address" _ _ refl refl,
    load_other "network/ntp_timeout" _ _ refl refl,
    load_other "network/rpc_server_port" _ _ refl refl,
    settings_set-name_of Var.mount_sd_card,
  )

  drop_all : (n : ℕ) (bytes : List ℕ) → length bytes ≤ n → drop n bytes ≡ []
  drop_all zero [] h = refl
  drop_all zero (b ∷ bytes) h = absurd (omega (arith, h))
  drop_all (suc n) [] h = refl
  drop_all (suc n) (b ∷ bytes) h = drop_all n bytes (omega (arith, h))

  read_cb_whole :
      (value : List ℕ) (v : Var) (m : Memory)
      → length value ≡ size_of v
      → length (m v) ≡ size_of v
      → read_cb api value v m ≡ assign m v value
  read_cb_whole value v m whole sized =
      ap (λ b. assign m v (overlay b (m v)))
        (api.read_whole value (size_of v) (omega (arith, whole)))
      ∙ ap (λ rest. assign m v (value ++ rest))
          (drop_all (length value) (m v) (omega (arith, whole, sized)))
      ∙ ap (assign m v) (append-nil value)

  -- With every global at its size: loading what a save stored sets `mount_sd_card` to the bytes that
  -- were saved, and every other global keeps the value that it had before the load.
  pub load-save :
      (saved m : Memory)
      → IsSized saved
      → IsSized m
      → plc_settings_load api (plc_settings_save saved).1 m
        ≡ assign m Var.mount_sd_card (saved Var.mount_sd_card)
  load-save saved m sized sized' =
      loads_read saved m
      ∙ read_cb_whole (saved Var.mount_sd_card) Var.mount_sd_card m (sized.at Var.mount_sd_card)
          (sized'.at Var.mount_sd_card)
