-- ===== src/Control/Checks.antt =====
-- Runs of the run control, and the theorems on it at concrete states.
use beremiz4u_c.Common.{◌+◌, ℕ, ◌≤◌, ◌≡◌, ◌⊎◌, refl, Bool, true, false, [], ◌∷◌, replicate}
use beremiz4u_c.Control.{
  System, waiting, plc_set_start, plc_set_stop, unload_plc_module, main_wake, main_cycle,
  plc_init_io, new_plc_clears,
}
use beremiz4u_c.Control.Steps.{
  wake, cleared, main_step, load, start, stop, Reach, later, OrderlyReach, orderly_later,
}
use beremiz4u_c.Control.Quiet.{
  asked, at_work, Reach-outputs, Reach-quiet, unload_plc_module-waiting,
}
use beremiz4u_c.Control.Restart.{Ran, rounds-without_run}
use beremiz4u_c.Control.Progress.{Answer, stop_completes}
use beremiz4u_c.Control.Example.{count, sems, blink, off, off-Reach, off-OrderlyReach}

abbrev loaded : System Bool ℕ
loaded = record off { plc_initialized = 1 }

running : System Bool ℕ
unfolding plc_init_io plc_set_start main_wake
running = main_wake sems blink false (plc_set_start sems blink loaded)

asleep : System Bool ℕ
unfolding running main_cycle
asleep = main_cycle sems blink false running

halting : System Bool ℕ
unfolding running plc_set_stop
halting = plc_set_stop sems blink running

loaded-Reach : Reach sems blink loaded
unfolding plc_init_io
loaded-Reach = later off-Reach (load refl refl 0)

loaded-OrderlyReach : OrderlyReach sems blink loaded
unfolding plc_init_io
loaded-OrderlyReach = orderly_later off-OrderlyReach (load refl refl 0) (tt {0})

running-Reach : Reach sems blink running
unfolding running
running-Reach = later (later loaded-Reach (start refl)) (main_step (wake refl refl))

halting-Reach : Reach sems blink halting
unfolding halting
halting-Reach = later running-Reach (stop refl)

-- One round sets the first output and counts a tick.
round_runs : (asleep.outputs ≡ true ∷ false ∷ []) × (asleep.tick ≡ 1) × (asleep.program ≡ 1)
unfolding asleep
round_runs = (refl, refl, refl)

Reach-quiet_example :
    (loaded.main ≡ waiting)
    × (count loaded.sem ≡ 0)
    × (loaded.outputs ≡ replicate loaded.pins false)
unfolding plc_init_io
Reach-quiet_example = Reach-quiet sems blink loaded-OrderlyReach refl refl

unload_plc_module-waiting_example :
    (unload_plc_module sems blink loaded ≡ loaded)
    ⊎ ((loaded.main ≡ waiting)
        × (count loaded.sem ≡ 0)
        × ((unload_plc_module sems blink loaded).plc_initialized ≡ 0))
unfolding plc_init_io
unload_plc_module-waiting_example = unload_plc_module-waiting sems blink loaded-OrderlyReach refl

stop_completes_example : (n : ℕ) × (n ≤ 2) × Answer sems blink halting n
unfolding halting
stop_completes_example = stop_completes sems blink halting-Reach refl

-- While the PLC runs, `NewPLC` clears `plc_run`.
Reach-outputs_example :
    (let s = new_plc_clears sems blink running in
      (s.main ≡ waiting → s.outputs ≡ replicate s.pins false)
      × (asked s.plc_run s.caller ≤ count s.sem + at_work s.main))
unfolding running
Reach-outputs_example = Reach-outputs sems blink (later running-Reach (cleared refl))

-- `NewPLC` comes behind a round; two rounds follow.
rounds-without_run_example : Ran sems blink (new_plc_clears sems blink asleep) 2
unfolding asleep new_plc_clears
rounds-without_run_example =
    rounds-without_run sems blink 2 (new_plc_clears sems blink asleep) refl refl
