-- ===== src/Control/Status.antt =====
-- `get_PLCStatus` of app/src/plc_util.c over the reachable states of the run control.
use beremiz4u_c.Common.{◌≡◌, ◌≢◌, ◌↔◌, arith}
use beremiz4u_c.Control.{
  Semaphore, Program, System, empty, started, broken, waiting, idle, plc_set_start, get_plc_status,
}
use beremiz4u_c.Control.Steps.{Reach}
use beremiz4u_c.Control.Quiet.{Reach-Inv}

module _ {S P : Type 0} (k : Semaphore S) (p : Program P) where
  -- In every reachable state the status is never `Broken`; it is `Empty` exactly while no module is
  -- loaded, and `Started` exactly while one is and the PLC is to run.
  pub get_plc_status_lem :
      {s : System S P}
      → Reach k p s
      → (get_plc_status k p s ≢ broken)
        × ((get_plc_status k p s ≡ empty) ↔ (s.plc_initialized ≡ 0))
        × ((get_plc_status k p s ≡ started) ↔ ((s.plc_initialized ≢ 0) × (s.plc_run ≡ 1)))
  unfolding get_plc_status
  get_plc_status_lem {s} r =
      let flag = (Reach-Inv k p r).run_flag in
      (ground arith, (ground arith, ground arith), (ground arith, ground arith))

  -- In every reachable state with no stop under way, a start of a loaded PLC leaves the status
  -- `Started` and hands the main task the semaphore, or finds it at work.
  pub plc_set_start_lem :
      {s : System S P}
      → Reach k p s
      → s.caller ≡ idle
      → s.plc_initialized ≢ 0
      → (get_plc_status k p (plc_set_start k p s) ≡ started)
        × ((plc_set_start k p s).main ≡ waiting → k.count (plc_set_start k p s).sem ≡ 1)
  unfolding get_plc_status plc_set_start
  plc_set_start_lem {s} r free loaded =
      ground (arith, Reach-Inv k p r, k.count-give s.sem, k.count-le s.sem)
