-- ===== src/Control/Restart.antt =====
-- app/src/plc_rpc.c, `NewPLC`, clears `plc_run` and takes no semaphore; so does `plc_set_stop` of
-- app/src/plc_loader.c when its wait times out. What the main task does then.
use beremiz4u_c.Common.{ℕ, zero, suc, ◌≡◌, refl, ap₂, ◌∙◌, arith}
use beremiz4u_c.Control.{
  Semaphore, Program, System, waiting, sleeping, plc_init_io, next_tick, main_wake, main_cycle,
  main_test,
}
use beremiz4u_c.Control.Steps.{wake, cycle, test}
use beremiz4u_c.Control.Progress.{MainRun, none_yet, one_more, take_given}

-- The tick after some rounds.
abbrev pub tick_after : ℕ → ℕ → ℕ → ℕ
tick_after zero greatest tick = tick
tick_after (suc n) greatest tick = next_tick (tick_after n greatest tick) greatest

-- Three steps of the main task for each round.
abbrev pub steps_of : ℕ → ℕ
steps_of zero = 0
steps_of (suc n) = suc (suc (suc (steps_of n)))

module _ {P : Type 0} (p : Program P) where
  -- The program started anew, and one round of it.
  abbrev pub round : ℕ → P → P
  round tick program = (p.config_run tick (p.config_init (program, plc_init_io))).0

  abbrev pub rounds : ℕ → ℕ → ℕ → P → P
  rounds zero greatest tick program = program
  rounds (suc n) greatest tick program =
      round (tick_after (suc n) greatest tick) (rounds n greatest tick program)

module _ {S P : Type 0} (k : Semaphore S) (p : Program P) where
  -- A state of the main task some rounds behind `s`, with the PLC still not to run.
  pub record Ran (s : System S P) (n : ℕ) : Type 0 where
    pub state : System S P
    pub run : MainRun k p s (steps_of n) state
    pub sleeps : state.main ≡ sleeping
    pub off : state.plc_run ≡ 0
    pub limit : state.greatest_tick_count ≡ s.greatest_tick_count
    pub ticks : state.tick ≡ tick_after n s.greatest_tick_count s.tick
    pub programs : state.program ≡ rounds p n s.greatest_tick_count s.tick s.program

  module _ {s : System S P} {n : ℕ} (r : Ran s n) where
    tested : System S P
    tested = main_test k p r.state

    tested_lem :
        (tested.main ≡ waiting)
        × (k.count tested.sem ≡ 1)
        × (tested.plc_run ≡ 0)
        × (tested.tick ≡ r.state.tick)
        × (tested.greatest_tick_count ≡ r.state.greatest_tick_count)
        × (tested.program ≡ r.state.program)
    unfolding tested main_test
    tested_lem = ground (arith, r.off, k.count-give r.state.sem)

    one_round : Ran s (suc n)
    unfolding main_wake main_cycle main_test tested
    one_round =
        let (waits, one, off, tick, limit, program) = tested_lem in
        let (t, woken) = take_given k tested.sem one in
        let awake = main_wake k p t tested in
        let (c, free) = take_given k awake.cycle_start (k.count-give tested.cycle_start) in
        let slept = main_cycle k p c awake in
        let ticks : slept.tick ≡ tick_after (suc n) s.greatest_tick_count s.tick =
          ap₂ next_tick (tick ∙ r.ticks) (limit ∙ r.limit) in
        record {
          state = slept;
          run =
              one_more (one_more (one_more r.run (test r.sleeps)) (wake waits woken))
                (cycle refl free);
          sleeps = refl;
          off = off;
          limit = limit ∙ r.limit;
          ticks = ticks;
          programs = ap₂ (round p) ticks (program ∙ r.programs);
        }

  -- From any state in which the main task sleeps behind a round and the PLC is not to run, with no
  -- semaphore taken for it, the main task goes on by itself: for every number of rounds it has steps
  -- that start the program anew and run it that often, and `plc_run` stays zero.
  pub rounds-without_run : (n : ℕ) (s : System S P) → s.main ≡ sleeping → s.plc_run ≡ 0 → Ran s n
  rounds-without_run zero s sleeps off = record {
    state = s;
    run = none_yet;
    sleeps = sleeps;
    off = off;
    limit = refl;
    ticks = refl;
    programs = refl;
  }
  rounds-without_run (suc n) s sleeps off = one_round (rounds-without_run n s sleeps off)
