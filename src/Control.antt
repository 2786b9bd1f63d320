-- ===== src/Control.antt =====
-- The run control of the PLC program: `plc_set_start`, `plc_set_stop`, `unload_plc_module` and the
-- two state functions of app/src/plc_loader.c, the main task of app/src/plc_task.c, the outputs of
-- app/src/plc_io.c and `get_PLCStatus` of app/src/plc_util.c.
-- The threads share `plc_run` and the semaphore `sem_plc_run`. The semaphore of the kernel and the
-- functions of the loaded program are parameters.
pub mod Steps
pub mod Quiet
pub mod Progress
pub mod Restart
pub mod Status
pub mod Example
pub mod Checks
use beremiz4u_c.Common.{
  ℕ, zero, suc, ◌+◌, ◌-◌, ◌*◌, ◌/◌, ◌%◌, ◌^◌, ◌≤◌, ◌≡◌, Bool, true, false, List, [], ◌∷◌, ◌++◌,
  Option, none, some, ltb, leb, ◌==◌, if◌then◌else◌, replicate, get_or, min, map,
}
use beremiz4u_c.Clock.{TimeSpec64, add_time_spec64}

-- A counting semaphore of the kernel with a limit of one. `take` fails where it would wait.
pub record Semaphore (S : Type 0) : Type 0 where
  pub count : S → ℕ
  pub give : S → S
  pub take : S → Option S
  pub reset : S → S
  pub count-give : (s : S) → count (give s) ≡ 1
  pub count-take : (s t : S) → take s ≡ some t → count s ≡ suc (count t)
  pub take_none : (s : S) → take s ≡ none → count s ≡ 0
  pub count-reset : (s : S) → count (reset s) ≡ 0
  pub count-le : (s : S) → count s ≤ 1

-- The arrays of app/src/plc_io.c that a program reads and writes.
pub record Registers : Type 0 where
  pub qw : List ℕ
  pub iw : List ℕ
  pub qx : List ℕ
  pub ix : List ℕ

-- The functions of the loaded program, over its memory and the registers: `config_init__`,
-- `config_run__` and the cycle time that it exports.
pub record Program (P : Type 0) : Type 0 where
  pub config_init : P × Registers → P × Registers
  pub config_run : ℕ → P × Registers → P × Registers
  pub common_ticktime : P → ℕ

-- The arrays that `plc_init_io` clears.
unfoldable pub plc_init_io : Registers
plc_init_io = record {
  qw = replicate 16 0;
  iw = replicate 8 0;
  qx = replicate 16 0;
  ix = replicate 16 0;
}

abbrev pub level : List ℕ → ℕ → Bool
level qx i = if get_or qx i 0 == 0 then false else true

abbrev pub levels : List ℕ → ℕ → List Bool
levels qx zero = []
levels qx (suc n) = levels qx n ++ level qx n ∷ []

-- `plc_update_outputs`: the levels of the given number of output pins, eight on the port expander
-- and two on the board.
unfoldable pub plc_update_outputs : ℕ → ℕ → Registers → List Bool
plc_update_outputs pins plc_run r = if plc_run == 0 then replicate pins false else levels r.qx pins

-- Where the main task stands: at `k_sem_take(&sem_plc_run)`, before a round of the loop, or asleep
-- behind one, before the test of the loop.
pub data MainAt : Type 0 where
  waiting cycling sleeping : MainAt

-- The thread that controls the PLC: idle, or in `k_sem_take` of `plc_set_stop`.
pub data CallerAt : Type 0 where
  idle stopping : CallerAt

-- PLCstatus_enum of app/erpc/erpc_PLCObject_common.h
pub data PlcStatus : Type 0 where
  empty stopped started broken disconnected : PlcStatus

pub record System (S P : Type 0) : Type 0 where
  pub plc_initialized : ℕ
  pub plc_run : ℕ
  pub sem : S
  pub cycle_start : S
  pub main : MainAt
  pub caller : CallerAt
  pub tick : ℕ
  pub greatest_tick_count : ℕ
  pub current_time : TimeSpec64
  pub ticktime : ℕ
  pub program : P
  pub registers : Registers
  pub pins : ℕ
  pub outputs : List Bool

-- `__tick++`, and `%` where the program sets a limit.
unfoldable pub next_tick : ℕ → ℕ → ℕ
next_tick tick greatest = let t = (tick + 1) % 2 ^ 32 in if greatest == 0 then t else t % greatest

module _ {S P : Type 0} (k : Semaphore S) (p : Program P) where
  unfoldable pub plc_set_start : System S P → System S P
  plc_set_start s =
      if s.plc_initialized == 0
      then s
      else if s.plc_run == 0
      then record s { plc_run = 1; sem = k.give s.sem }
      else s

  -- `plc_set_stop` up to the wait, and the two ways in which the wait ends.
  unfoldable pub plc_set_stop : System S P → System S P
  plc_set_stop s = if s.plc_run == 1 then record s { plc_run = 0; caller = stopping } else s

  unfoldable pub stop_taken : S → System S P → System S P
  stop_taken t s = record s { sem = t; caller = idle }

  unfoldable pub stop_timeout : System S P → System S P
  stop_timeout s = record s { sem = k.reset s.sem; caller = idle }

  -- What `NewPLC` of app/src/plc_rpc.c does to the run control.
  unfoldable pub new_plc_clears : System S P → System S P
  new_plc_clears s = record s { plc_run = 0 }

  unfoldable pub unload_plc_module : System S P → System S P
  unload_plc_module s =
      if (s.plc_run == 0)
      then (if s.plc_initialized == 1 then record s { plc_initialized = 0 } else s)
      else s

  -- The main task: from the semaphore to the loop, with `plc_init_io`, `config_init__`,
  -- `__init_debug` and the cycle time of the program.
  unfoldable pub main_wake : S → System S P → System S P
  unfolding plc_init_io
  main_wake t s =
      let started = p.config_init (s.program, plc_init_io) in
      record s {
        sem = t;
        main = cycling;
        cycle_start = k.give s.cycle_start;
        program = started.0;
        registers = started.1;
        ticktime = p.common_ticktime started.0;
      }

  -- One round of the loop up to its sleep: the tick, the program between the two calls on
  -- `plc_cycle_start`, the outputs and the time.
  unfoldable pub main_cycle : S → System S P → System S P
  unfolding next_tick plc_update_outputs
  main_cycle taken s =
      let t = next_tick s.tick s.greatest_tick_count in
      let done = p.config_run t (s.program, s.registers) in
      record s {
        main = sleeping;
        cycle_start = k.give taken;
        tick = t;
        program = done.0;
        registers = done.1;
        outputs = plc_update_outputs s.pins s.plc_run done.1;
        current_time = add_time_spec64 s.current_time (record { sec = 0; nsec = s.ticktime });
      }

  -- The test of the loop, and what follows the loop.
  unfoldable pub main_test : System S P → System S P
  unfolding plc_update_outputs
  main_test s = if s.plc_run == 1 then record s { main = cycling } else record s {
    main = waiting;
    outputs = plc_update_outputs s.pins s.plc_run s.registers;
    sem = k.give s.sem;
  }

  unfoldable pub plc_get_state : System S P → ℕ
  plc_get_state s = s.plc_run

  unfoldable pub plc_get_loader_state : System S P → ℕ
  plc_get_loader_state s = s.plc_initialized

  -- `get_PLCStatus`, and the same tests in `GetPLCstatus` of app/src/plc_rpc.c.
  unfoldable pub get_plc_status : System S P → PlcStatus
  unfolding plc_get_state plc_get_loader_state
  get_plc_status s =
      let plc_state = plc_get_state s in
      let plc_loader_state = plc_get_loader_state s in
      let status = if plc_state == 0 then stopped else if plc_state == 1 then started else broken in
      if plc_loader_state == 0 then empty else status
