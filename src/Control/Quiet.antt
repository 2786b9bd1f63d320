-- ===== src/Control/Quiet.antt =====
-- What holds while the threads of app/src/plc_loader.c and app/src/plc_task.c take turns.
use beremiz4u_c.Common.{ℕ, ◌+◌, ◌≤◌, ◌≡◌, false, arith, replicate, ◌⊎◌, ◌≢◌}
use beremiz4u_c.Control.{
  Semaphore, Program, System, MainAt, waiting, cycling, sleeping, CallerAt, idle, stopping,
  plc_set_start, plc_set_stop, stop_taken, stop_timeout, new_plc_clears, unload_plc_module,
  main_wake, main_cycle, main_test,
}
use beremiz4u_c.Control.Steps.{
  MainStep, wake, cycle, test, Step, main_step, load, unload, start, stop, stopped, IsBoot, Reach,
  boot, later, IsOrderly, OrderlyReach, OrderlyReach-Reach, orderly_boot, orderly_later,
  load_failed, timed_out, cleared, erased,
}

-- The main task is out of its wait.
abbrev pub at_work : MainAt → ℕ
at_work waiting = 0
at_work cycling = 1
at_work sleeping = 1

abbrev pub asked : ℕ → CallerAt → ℕ
asked run idle = run
asked run stopping = 1

module _ {S P : Type 0} (k : Semaphore S) (p : Program P) where
  -- While the PLC is to run or a stop waits, the permission to run is with the semaphore or with the
  -- main task.
  pub record Inv (s : System S P) : Type 0 where
    pub run_flag : s.plc_run ≤ 1
    pub some_permission : asked s.plc_run s.caller ≤ k.count s.sem + at_work s.main
    pub stopping_flag : s.caller ≡ stopping → s.plc_run ≡ 0
    pub cycle_free : s.main ≢ waiting → k.count s.cycle_start ≡ 1
    pub quiet_outputs : s.main ≡ waiting → s.outputs ≡ replicate s.pins false

  -- There is just one permission, and none otherwise.
  abbrev HasOne : System S P → Type 0
  HasOne s = k.count s.sem + at_work s.main ≡ asked s.plc_run s.caller

  boot-Inv : {s : System S P} → IsBoot k p s → Inv s × HasOne s
  boot-Inv b = (ground arith, ground arith)

  MainStep-Inv : {s t : System S P} → MainStep k p s t → Inv s → Inv t
  unfolding main_wake main_cycle main_test
  MainStep-Inv {s} (wake {t} at taken) v =
      ground (arith, k.count-take s.sem t taken, k.count-give s.cycle_start)
  MainStep-Inv {s} (cycle {c} at taken) v = ground (arith, k.count-give c)
  MainStep-Inv {s} (test at) v = ground (arith, k.count-give s.sem)

  Step-Inv : {s t : System S P} → Step k p s t → Inv s → Inv t
  unfolding plc_set_start plc_set_stop stop_taken stop_timeout new_plc_clears unload_plc_module
  Step-Inv (main_step m) v = MainStep-Inv m v
  Step-Inv (load off free program) v = ground arith
  Step-Inv (load_failed off free program) v = ground arith
  Step-Inv (unload free) v = ground arith
  Step-Inv {s} (start free) v = ground (arith, k.count-give s.sem)
  Step-Inv (stop free) v = ground arith
  Step-Inv {s} (stopped {t} at taken) v = ground (arith, k.count-take s.sem t taken)
  Step-Inv (timed_out at) v = ground arith
  Step-Inv (cleared free) v = ground arith
  Step-Inv (erased off free) v = ground arith

  MainStep-HasOne : {s t : System S P} → MainStep k p s t → Inv s → HasOne s → HasOne t
  unfolding main_wake main_cycle main_test
  MainStep-HasOne {s} (wake {t} at taken) v one = ground (arith, k.count-take s.sem t taken)
  MainStep-HasOne {s} (cycle {c} at taken) v one = ground arith
  MainStep-HasOne {s} (test at) v one = ground (arith, k.count-give s.sem)

  Step-HasOne :
      {s t : System S P} (st : Step k p s t) → IsOrderly k p st → Inv s → HasOne s → HasOne t
  unfolding plc_set_start plc_set_stop stop_taken new_plc_clears unload_plc_module
  Step-HasOne (main_step m) orderly v one = MainStep-HasOne m v one
  Step-HasOne (load off free program) orderly v one = ground arith
  Step-HasOne (load_failed off free program) orderly v one = ground arith
  Step-HasOne (unload free) orderly v one = ground arith
  Step-HasOne {s} (start free) orderly v one = ground (arith, k.count-give s.sem)
  Step-HasOne (stop free) orderly v one = ground arith
  Step-HasOne {s} (stopped {t} at taken) orderly v one = ground (arith, k.count-take s.sem t taken)
  Step-HasOne (timed_out at) orderly v one = absurd orderly
  Step-HasOne (cleared free) orderly v one = ground (arith, orderly)
  Step-HasOne (erased off free) orderly v one = ground arith

  pub Reach-Inv : {s : System S P} → Reach k p s → Inv s
  Reach-Inv (boot b) = (boot-Inv b).0
  Reach-Inv (later r st) = Step-Inv st (Reach-Inv r)

  OrderlyReach-HasOne : {s : System S P} → OrderlyReach k p s → HasOne s
  OrderlyReach-HasOne (orderly_boot b) = (boot-Inv b).1
  OrderlyReach-HasOne (orderly_later r st orderly) =
      Step-HasOne st orderly (Reach-Inv (OrderlyReach-Reach k p r)) (OrderlyReach-HasOne r)

  -- In every state that is reached from the start while one thread at a time controls the PLC, stops
  -- that time out and the clearing by `NewPLC` included: while the main task waits, every output is off; and while the PLC is to run or a stop
  -- waits, the main task is at work or its semaphore is given.
  pub Reach-outputs :
      {s : System S P}
      → Reach k p s
      → (s.main ≡ waiting → s.outputs ≡ replicate s.pins false)
        × (asked s.plc_run s.caller ≤ k.count s.sem + at_work s.main)
  Reach-outputs {s} r = ((Reach-Inv r).quiet_outputs, (Reach-Inv r).some_permission)

  -- In every state that is reached while one thread at a time controls the PLC, with no stop that timed
  -- out and no `NewPLC` while the PLC was to run: when the PLC is not to run and no stop is under way, the main task waits, its semaphore is
  -- not given, and every output is off.
  pub Reach-quiet :
      {s : System S P}
      → OrderlyReach k p s
      → s.plc_run ≡ 0
      → s.caller ≡ idle
      → (s.main ≡ waiting) × (k.count s.sem ≡ 0) × (s.outputs ≡ replicate s.pins false)
  Reach-quiet {s} r off free =
      ground (arith, Reach-Inv (OrderlyReach-Reach k p r), OrderlyReach-HasOne r)

  -- So the main task takes no step from there: the program of the PLC does not run until a start.
  pub MainStep-stopped :
      {s t : System S P} → OrderlyReach k p s → s.plc_run ≡ 0 → s.caller ≡ idle → ¬ MainStep k p s t
  MainStep-stopped {s} r off free (wake {t} at taken) =
      ground (arith, Reach-quiet r off free, k.count-take s.sem t taken)
  MainStep-stopped r off free (cycle at taken) = ground (arith, Reach-quiet r off free)
  MainStep-stopped r off free (test at) = ground (arith, Reach-quiet r off free)

  -- In every state that is reached while one thread at a time controls the PLC, with no stop that timed
  -- out and no `NewPLC` while the PLC was to run: where no stop is under way, `unload_plc_module` unloads nothing, or the main task waits
  -- without its semaphore and no module is loaded afterwards.
  pub unload_plc_module-waiting :
      {s : System S P}
      → OrderlyReach k p s
      → s.caller ≡ idle
      → (unload_plc_module k p s ≡ s)
        ⊎ ((s.main ≡ waiting)
            × (k.count s.sem ≡ 0)
            × ((unload_plc_module k p s).plc_initialized ≡ 0))
  unfolding unload_plc_module
  unload_plc_module-waiting {s} r free =
      ground (arith, Reach-Inv (OrderlyReach-Reach k p r), OrderlyReach-HasOne r)
