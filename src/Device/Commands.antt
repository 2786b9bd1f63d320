-- ===== src/Device/Commands.antt =====
-- app/src/plc_loader.c: the commands of the shell that control the program. Of what they print nothing
-- is kept.
use beremiz4u_c.Common.{
  ◌≤◌, ◌≡◌, refl, sym, subst, inl, inr, ◌==◌, ltb, if◌then◌else◌, arith, Bool-cases, ◌⊎◌, ℤ, pos,
  minus,
}
use beremiz4u_c.Control.{
  System, waiting, idle, empty, plc_set_start, plc_set_stop, unload_plc_module, get_plc_status,
  plc_get_loader_state,
}
use beremiz4u_c.Control.Steps.{Step, OrderlyReach, OrderlyReach-Reach, orderly_later}
use beremiz4u_c.Control.Quiet.{Reach-quiet, Reach-Inv}
use beremiz4u_c.Uploads.{Bytes}
use beremiz4u_c.Loader.{eagain}
use beremiz4u_c.Device.{Machine, Parts, Found, load, erase_begin}

module _ {S P M D Q : Type 0} (k : Parts S P M D Q) where
  -- The answer is 0 whether the program was loaded or not.
  unfoldable pub cmd_plc_load_module : Bytes → Found → Machine S P M D Q → Machine S P M D Q × ℤ
  cmd_plc_load_module path found m = ((load k path found m).0, pos 0)

  unfoldable pub cmd_plc_unload_module : Machine S P M D Q → Machine S P M D Q × ℤ
  cmd_plc_unload_module m =
      if ltb 0 m.run.plc_initialized
      then (if m.run.plc_run == 1
          then (m, minus eagain)
          else (record m { run = unload_plc_module k.sem k.program m.run }, pos 0))
      else (m, minus eagain)

  unfoldable pub cmd_plc_start : Machine S P M D Q → Machine S P M D Q × ℤ
  cmd_plc_start m = (record m { run = plc_set_start k.sem k.program m.run }, pos 0)

  -- Up to the wait of `plc_set_stop`.
  unfoldable pub cmd_plc_stop : Machine S P M D Q → Machine S P M D Q × ℤ
  cmd_plc_stop m = (record m { run = plc_set_stop k.sem k.program m.run }, pos 0)

  unfoldable pub cmd_plc_erase_plc_partition : Machine S P M D Q → Machine S P M D Q
  cmd_plc_erase_plc_partition m = erase_begin k m

  unload-empty :
      (s : System S P)
      → s.plc_initialized ≤ 1
      → s.plc_run ≡ 0
      → get_plc_status k.sem k.program (unload_plc_module k.sem k.program s) ≡ empty
  unfolding get_plc_status unload_plc_module plc_get_loader_state
  unload-empty s flag off = ground (arith, flag, off)

  unload-main :
      (s : System S P) → s.main ≡ waiting → (unload_plc_module k.sem k.program s).main ≡ waiting
  unfolding unload_plc_module
  unload-main s h = ground (arith, h)

  -- In a state that is reached with no stop that timed out and no `NewPLC` while the PLC was to run, in
  -- which no stop is under way and the flag of the loaded module is at most 1: `unload` either answers
  -- -EAGAIN and changes nothing; or it answers 0, the main task waits, the status is Empty, and the new
  -- state is reached in the same way.
  pub cmd_plc_unload_module-empty :
      (m : Machine S P M D Q)
      → OrderlyReach k.sem k.program m.run
      → m.run.caller ≡ idle
      → m.run.plc_initialized ≤ 1
      → (cmd_plc_unload_module m ≡ (m, minus eagain))
        ⊎ (((cmd_plc_unload_module m).1 ≡ pos 0)
            × ((cmd_plc_unload_module m).0.run.main ≡ waiting)
            × (get_plc_status k.sem k.program (cmd_plc_unload_module m).0.run ≡ empty)
            × OrderlyReach k.sem k.program (cmd_plc_unload_module m).0.run)
  unfolding cmd_plc_unload_module
  cmd_plc_unload_module-empty m r free flag = elim (Bool-cases (ltb 0 m.run.plc_initialized)) [
    | inr none_loaded ↦ inl (rw (none_loaded))
    | inl loaded ↦ elim (Bool-cases (m.run.plc_run == 1)) [
      | inl running ↦ inl (rw (loaded) (rw (running)))
      | inr other ↦
          let off : m.run.plc_run ≡ 0 = ground (
            arith,
            other,
            (Reach-Inv k.sem k.program (OrderlyReach-Reach k.sem k.program r)).run_flag,
          ) in
          let quiet = Reach-quiet k.sem k.program r off free in
          let s = unload_plc_module k.sem k.program m.run in
          let done : cmd_plc_unload_module m ≡ (record m { run = s }, pos 0) =
            ground (arith, loaded, other) in
          inr (
            subst
              (λ t.
                (t.1 ≡ pos 0)
                × (t.0.run.main ≡ waiting)
                × (get_plc_status k.sem k.program t.0.run ≡ empty)
                × OrderlyReach k.sem k.program t.0.run)
              (sym done)
              (
                refl,
                unload-main m.run quiet.0,
                unload-empty m.run flag off,
                orderly_later r (Step.unload free) (tt {0}),
              ))
    ]
  ]
