-- ===== src/Control/Steps.antt =====
-- The steps of the threads of app/src/plc_loader.c and app/src/plc_task.c, in any order.
use beremiz4u_c.Common.{◌≡◌, false, some, replicate}
use beremiz4u_c.Control.{
  Semaphore, Program, System, waiting, cycling, sleeping, idle, stopping, plc_set_start,
  plc_set_stop, stop_taken, stop_timeout, new_plc_clears, unload_plc_module, main_wake, main_cycle,
  main_test,
}

module _ {S P : Type 0} (k : Semaphore S) (p : Program P) where
  -- One step of the main task.
  pub data MainStep (s : System S P) : System S P → Type 0 where
    wake : {t : S} → s.main ≡ waiting → k.take s.sem ≡ some t → MainStep s (main_wake k p t s)
    cycle :
        {c : S} → s.main ≡ cycling → k.take s.cycle_start ≡ some c → MainStep s (main_cycle k p c s)
    test : s.main ≡ sleeping → MainStep s (main_test k p s)

  -- One step of the system while one thread at a time controls the PLC. A module may be loaded at any
  -- time that it is not running; a load that fails may leave another program in the memory. `erased`
  -- is the end of `erase_plc_programm_flash`.
  pub data Step (s : System S P) : System S P → Type 0 where
    main_step : {t : System S P} → MainStep s t → Step s t
    load :
        s.plc_run ≡ 0
        → s.caller ≡ idle
        → (program : P) → Step s (record s { plc_initialized = 1; program = program })
    load_failed :
        s.plc_run ≡ 0 → s.caller ≡ idle → (program : P) → Step s (record s { program = program })
    unload : s.caller ≡ idle → Step s (unload_plc_module k p s)
    start : s.caller ≡ idle → Step s (plc_set_start k p s)
    stop : s.caller ≡ idle → Step s (plc_set_stop k p s)
    stopped : {t : S} → s.caller ≡ stopping → k.take s.sem ≡ some t → Step s (stop_taken k p t s)
    timed_out : s.caller ≡ stopping → Step s (stop_timeout k p s)
    cleared : s.caller ≡ idle → Step s (new_plc_clears k p s)
    erased : s.plc_run ≡ 0 → s.caller ≡ idle → Step s (record s { plc_initialized = 0 })

  -- A step that takes the permission to run from nobody who has it: all but a stop that times out and
  -- a `NewPLC` while the PLC is to run.
  abbrev pub IsOrderly : {s t : System S P} → Step s t → Type 0
  IsOrderly (timed_out at) = ⊥
  IsOrderly {s} (cleared free) = s.plc_run ≡ 0
  IsOrderly (main_step m) = Unit {0}
  IsOrderly (load off free program) = Unit {0}
  IsOrderly (load_failed off free program) = Unit {0}
  IsOrderly (unload free) = Unit {0}
  IsOrderly (start free) = Unit {0}
  IsOrderly (stop free) = Unit {0}
  IsOrderly (stopped at taken) = Unit {0}
  IsOrderly (erased off free) = Unit {0}

  -- The system at the start: nothing runs and the semaphore is not given.
  pub record IsBoot (s : System S P) : Type 0 where
    pub not_run : s.plc_run ≡ 0
    pub not_given : k.count s.sem ≡ 0
    pub main_waits : s.main ≡ waiting
    pub caller_idle : s.caller ≡ idle
    pub all_off : s.outputs ≡ replicate s.pins false

  pub data Reach : System S P → Type 0 where
    boot : {s : System S P} → IsBoot s → Reach s
    later : {s t : System S P} → Reach s → Step s t → Reach t

  -- What is reached by orderly steps alone.
  pub data OrderlyReach : System S P → Type 0 where
    orderly_boot : {s : System S P} → IsBoot s → OrderlyReach s
    orderly_later :
        {s t : System S P} → OrderlyReach s → (st : Step s t) → IsOrderly st → OrderlyReach t

  pub OrderlyReach-Reach : {s : System S P} → OrderlyReach s → Reach s
  OrderlyReach-Reach (orderly_boot b) = boot b
  OrderlyReach-Reach (orderly_later r st orderly) = later (OrderlyReach-Reach r) st
