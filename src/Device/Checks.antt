-- ===== src/Device/Checks.antt =====
-- The parts of the device at work together.
use beremiz4u_c.Common.{
  List, ◌≤◌, length, ℕ, pos, [], ◌∷◌, ◌⊎◌, ◌≡◌, refl, Bool, true, false, none, some, ◌==◌,
  if◌then◌else◌, arith, codes, minus, replicate,
}
use beremiz4u_c.Settings.{initial}
use beremiz4u_c.Control.{waiting, stopped, empty, get_plc_status, unload_plc_module}
use beremiz4u_c.Control.Steps.{Reach, Step, OrderlyReach, orderly_later}
use beremiz4u_c.Control.Example.{sems, blink, off, off-Reach, off-OrderlyReach}
use beremiz4u_c.Loader.{eagain}
use beremiz4u_c.Uploads.Example.{Streams, memory, none_yet, paths}
use beremiz4u_c.Loader.Example.{area, file, flash, first_byte, linker, loader}
use beremiz4u_c.Loader.Flashing.{Bytes}
use beremiz4u_c.Uploads.Install.{ExtraFile}
use beremiz4u_c.Device.{new_plc_call, Machine, Parts, Found, load, autostart, reload}
use beremiz4u_c.Device.Boot.{Board, main, reset_settings, usb_starts, main_loop, wdt_feed, led0}
use beremiz4u_c.Device.Commands.{cmd_plc_unload_module, cmd_plc_unload_module-empty}
use beremiz4u_c.Settings.Access.{
  set_plc_autostart_setting, set_bool, plc_settings_save, get_plc_autostart_setting,
}
use beremiz4u_c.Device.Loads.{plc_loader_task-Reach, reload-status}

abbrev machine : Machine Bool ℕ ℕ Streams Bytes
machine = record {
  run = off;
  loader = loader;
  uploads = record none_yet { reload_plc_file = 1 };
  partition = replicate 16 0;
  log = record {
    message_indexes = replicate 4 0;
    plc_log_counts = replicate 4 0;
    log_file = none;
    state_file = none;
  };
}

abbrev parts : Parts Bool ℕ ℕ Streams Bytes
parts = record {
  sem = sems;
  program = blink;
  linker = linker;
  instance_of = λ n. n;
  after_failed = λ n p. p;
  crc32_ieee = first_byte;
  sign = 7;
  disk = memory;
  area = area;
  paths = paths;
  plc_startup_file = codes "/plc/startup.scr";
}

abbrev found : Found
found = record { file = file; flash = flash }

plc_loader_task-Reach_example :
    (off.plc_run ≡ 0 → Reach sems blink (autostart parts initial found machine).run)
    × Reach sems blink (reload parts found machine).run
    × ((md5 : Bytes → Bytes) (md5sum blob_id : Bytes) (files : List ExtraFile)
        → length blob_id ≤ 33
        → Reach sems blink (new_plc_call parts md5 md5sum blob_id files machine).0.run
          × Reach sems blink
              (reload parts found (new_plc_call parts md5 md5sum blob_id files machine).0).run)
plc_loader_task-Reach_example = plc_loader_task-Reach parts initial found machine off-Reach refl

reload-status_example :
    ((reload parts found machine).uploads.reload_plc_file ≡ 0)
    × (get_plc_status sems blink (reload parts found machine).run ≡ (
        if (load parts
            (codes "/plc/plc.bin")
            found
            (record machine { run = unload_plc_module sems blink off })).1
          == 0
        then stopped
        else empty))
reload-status_example = reload-status parts found machine refl (omega arith) refl

-- A board behind a reset by the watchdog.
abbrev board : Board
board = record {
  cause = 17;
  reset_watchdog_pin = 17;
  wdt_is_ready = true;
  wdt_install_timeout = pos 0;
  usb_enable = some (minus 120);
  enable_usb_device_next = none;
}

-- It switches the autostart off, and a start that goes well then feeds the watchdog.
boots :
    (get_plc_autostart_setting (main board initial (1 ∷ [])).0.0 ≡ false)
    × ((main board initial (1 ∷ [])).1 ≡ wdt_feed ∷ led0 1 ∷ [])
unfolding main reset_settings get_plc_autostart_setting set_plc_autostart_setting set_bool
    plc_settings_save usb_starts main_loop
boots = (refl, refl)

-- The machine with a loaded module.
abbrev loaded : Machine Bool ℕ ℕ Streams Bytes
loaded = record machine { run = record off { plc_initialized = 1; program = 3 } }

loaded-OrderlyReach : OrderlyReach sems blink loaded.run
loaded-OrderlyReach = orderly_later off-OrderlyReach (Step.load refl refl 3) (tt {0})

unloads : (cmd_plc_unload_module parts loaded).1 ≡ pos 0
unfolding cmd_plc_unload_module
unloads = refl

cmd_plc_unload_module-empty_example :
    (cmd_plc_unload_module parts loaded ≡ (loaded, minus eagain))
    ⊎ (((cmd_plc_unload_module parts loaded).1 ≡ pos 0)
        × ((cmd_plc_unload_module parts loaded).0.run.main ≡ waiting)
        × (get_plc_status sems blink (cmd_plc_unload_module parts loaded).0.run ≡ empty)
        × OrderlyReach sems blink (cmd_plc_unload_module parts loaded).0.run)
cmd_plc_unload_module-empty_example =
    cmd_plc_unload_module-empty parts loaded loaded-OrderlyReach refl (omega arith)
