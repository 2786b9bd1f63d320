-- ===== src/Device/Boot.antt =====
-- app/src/main.c: the start of the device, the loop of the main thread, and what a reset by the
-- watchdog does to the settings. The pins are not modelled but for the LED of the state.
use beremiz4u_c.Common.{
  ℕ, Bool, true, false, ◌&&◌, ◌||◌, List, [], ◌∷◌, Option, none, some, ◌==◌, negsuc, ◌+◌,
  if◌then◌else◌, ℤ, pos, is_negative, is_zero,
}
use beremiz4u_c.Settings.{Memory}
use beremiz4u_c.Settings.Access.{Stored, set_plc_autostart_setting}

-- What `main` meets: the cause of the reset, RESET_WATCHDOG | RESET_PIN of the kernel, the
-- watchdog, and the two USB stacks with what they answer, where they are built in.
pub record Board : Type 0 where
  pub cause : ℕ
  pub reset_watchdog_pin : ℕ
  pub wdt_is_ready : Bool
  pub wdt_install_timeout : ℤ
  pub usb_enable : Option ℤ
  pub enable_usb_device_next : Option ℤ

pub data Action : Type 0 where
  wdt_feed : Action
  led0 : ℕ → Action

abbrev pub ealready : ℕ
ealready = 120

unfoldable pub is_already : ℤ → Bool
is_already (pos n) = false
is_already (negsuc n) = n + 1 == ealready

-- Whether the start goes on.
unfoldable pub usb_starts : Board → Bool
unfolding is_already
usb_starts b =
    elim b.usb_enable [ none ↦ true | some rc ↦ is_zero rc || is_already rc ]
    && elim b.enable_usb_device_next [ none ↦ true | some ret ↦ is_zero ret ]

unfoldable pub reset_settings : Board → Memory → Memory × Stored
reset_settings b m =
    if b.cause == b.reset_watchdog_pin then set_plc_autostart_setting false m else (m, [])

-- The loop over the states of the PLC at its passes.
unfoldable pub main_loop : List ℕ → List Action
main_loop [] = []
main_loop (plc_run ∷ passes) = wdt_feed ∷ led0 plc_run ∷ main_loop passes

-- `main`: the settings, what is stored, and what it does in its loop.
unfoldable pub main : Board → Memory → List ℕ → (Memory × Stored) × List Action
unfolding usb_starts reset_settings main_loop
main b m passes = (
  reset_settings b m,
  if b.wdt_is_ready
      then (if is_negative b.wdt_install_timeout
          then []
          else if usb_starts b
          then main_loop passes
          else [])
      else [],
)
