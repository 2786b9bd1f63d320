-- ===== src/Settings/Checks.antt =====
-- Runs of the settings of app/src/plc_settings.c, and the theorems on them at concrete inputs.
use beremiz4u_c.Common.{
  ℕ, zero, suc, ◌≤◌, ◌≡◌, refl, String, true, false, List, [], ◌∷◌, Option, none, some, arith, ap,
  length, take, length-take, codes, str_eq, starts_with, slice, len, if◌then◌else◌,
}
use beremiz4u_c.Settings.{
  Var, Memory, Subsystem, size_of, initial, assign, settings_set, plc_settings_load,
  settings_export,
}
use beremiz4u_c.Settings.Access.{
  plc_settings_save, get_hostname_setting, set_hostname_setting, get_plc_autostart_setting,
}
use beremiz4u_c.Settings.Stored.{IsSized, plc_settings_load-IsSized, load-save}
use beremiz4u_c.Settings.Text.{TextsEnd}

-- A subsystem that meets the assumptions.
abbrev plain_lookup : String → Option String
plain_lookup n = if starts_with n "plc/" then some (slice n 4 (len n)) else none

plain_lookup_own :
    (n : String) → starts_with n "plc/" ≡ true → plain_lookup n ≡ some (slice n 4 (len n))
plain_lookup_own n h = rw h

plain_lookup_other :
    (n : String) → starts_with n "plc/" ≡ false → str_eq n "plc" ≡ false → plain_lookup n ≡ none
plain_lookup_other n h e = rw h

take_whole : (value : List ℕ) (n : ℕ) → length value ≤ n → take n value ≡ value
take_whole [] zero h = refl
take_whole [] (suc n) h = refl
take_whole (b ∷ bs) zero h = elim h [ ]
take_whole (b ∷ bs) (suc n) h = ap (◌∷◌ b) (take_whole bs n (omega arith))

take-le : (value : List ℕ) (n : ℕ) → length (take n value) ≤ n
take-le value n = omega (arith, length-take n value)

abbrev plain : Subsystem
plain = record {
  name_steq = str_eq;
  read = λ value n. take n value;
  lookup = plain_lookup;
  single_component = λ n k h. refl;
  read-le = take-le;
  read_whole = take_whole;
  lookup_own = plain_lookup_own;
  lookup_other = plain_lookup_other;
}

initial-IsSized : IsSized initial
unfolding initial
initial-IsSized = record { at = λ v. sized v }
  where
    sized : (v : Var) → length (initial v) ≡ size_of v
    sized Var.mount_sd_card = refl
    sized v = refl

initial-TextsEnd : TextsEnd initial
unfolding initial
initial-TextsEnd = record {
  hostname_ends = refl;
  ip_address_ends = refl;
  netmask_ends = refl;
  gateway_ends = refl;
  mac_address_ends = refl;
  ntp_address_ends = refl;
}

-- A long host name is cut to what fits before the final zero.
hostname_runs :
    get_hostname_setting (set_hostname_setting (codes "plc-1") initial).0 ≡ codes "plc-1"
unfolding get_hostname_setting set_hostname_setting initial
hostname_runs = refl

abbrev saved : Memory
unfolding initial
saved = assign (assign initial Var.mount_sd_card (0 ∷ [])) Var.plc_autostart (0 ∷ [])

-- After a reboot the stored autostart setting is not found again.
lost_autostart :
    get_plc_autostart_setting (plc_settings_load plain (plc_settings_save saved).1 initial) ≡ true
unfolding get_plc_autostart_setting plc_settings_load plc_settings_save settings_export settings_set
    initial
lost_autostart = refl

plc_settings_load-IsSized_example :
    IsSized (plc_settings_load plain (("plc/gateway", codes "10.0.0.1") ∷ []) initial)
plc_settings_load-IsSized_example =
    plc_settings_load-IsSized plain (("plc/gateway", codes "10.0.0.1") ∷ []) initial initial-IsSized

saved-IsSized : IsSized saved
unfolding initial saved
saved-IsSized = record { at = λ v. sized v }
  where
    sized : (v : Var) → length (saved v) ≡ size_of v
    sized Var.mount_sd_card = refl
    sized v = refl

load-save_example :
    plc_settings_load plain (plc_settings_save saved).1 initial
    ≡ assign initial Var.mount_sd_card (saved Var.mount_sd_card)
load-save_example = load-save plain saved initial saved-IsSized initial-IsSized

abbrev text : List ℕ
text = codes "10.1.2.3"
