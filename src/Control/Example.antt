-- ===== src/Control/Example.antt =====
-- Semaphores, a program and a system at work.
use beremiz4u_c.Common.{
  ℕ, suc, ◌+◌, ◌≤◌, ◌≡◌, refl, Bool, true, false, [], ◌∷◌, Option, none, some, arith, replicate,
}
use beremiz4u_c.Control.{Semaphore, Program, System, waiting, idle}
use beremiz4u_c.Control.Steps.{Reach, boot, IsBoot, OrderlyReach, orderly_boot}

abbrev pub count : Bool → ℕ
count true = 1
count false = 0

abbrev pub take : Bool → Option Bool
take true = some false
take false = none

pub count-take : (s t : Bool) → take s ≡ some t → count s ≡ suc (count t)
count-take s t h = ground arith

pub take_none : (s : Bool) → take s ≡ none → count s ≡ 0
take_none s h = ground arith

pub count-le : (s : Bool) → count s ≤ 1
count-le s = ground arith

abbrev pub sems : Semaphore Bool
sems = record {
  count = count;
  give = λ s. true;
  take = take;
  reset = λ s. false;
  count-give = λ s. refl;
  count-take = count-take;
  take_none = take_none;
  count-reset = λ s. refl;
  count-le = count-le;
}

-- A program that counts its rounds and sets its first output.
abbrev pub blink : Program ℕ
blink = record {
  config_init = λ x. x;
  config_run = λ t x. (x.0 + 1, record x.1 { qx = 1 ∷ [] });
  common_ticktime = λ x. 1000000;
}

abbrev pub off : System Bool ℕ
off = record {
  plc_initialized = 0;
  plc_run = 0;
  sem = false;
  cycle_start = false;
  main = waiting;
  caller = idle;
  tick = 0;
  greatest_tick_count = 0;
  current_time = record { sec = 0; nsec = 0 };
  ticktime = 0;
  program = 0;
  registers = record {
    qw = replicate 16 0;
    iw = replicate 8 0;
    qx = replicate 16 0;
    ix = replicate 16 0;
  };
  pins = 2;
  outputs = replicate 2 false;
}

off-IsBoot : IsBoot sems blink off
off-IsBoot = record {
  not_run = refl;
  not_given = refl;
  main_waits = refl;
  caller_idle = refl;
  all_off = refl;
}

pub off-Reach : Reach sems blink off
off-Reach = boot off-IsBoot

pub off-OrderlyReach : OrderlyReach sems blink off
off-OrderlyReach = orderly_boot off-IsBoot
