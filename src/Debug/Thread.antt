-- ===== src/Debug/Thread.antt =====
-- app/src/plc_debug.c, `plc_debug_thread`: one pass of its loop, and the loop over the passes that
-- the environment gives.
use beremiz4u_c.Common.{ℕ, ◌+◌, Bool, true, false, List, [], ◌∷◌, ltb, if◌then◌else◌}
use beremiz4u_c.Debug.{
  RingBuffer, Variable, Module, Debug, Status, ok, failed, publish_debug, debug_thread_exit,
}

abbrev pub debug_timeout : ℕ
debug_timeout = 3000

-- What a pass meets: whether the PLC is to run, whether the semaphore of the cycle is taken within a
-- millisecond, the tick, the time, and what the program answers for its variables.
pub record Pass : Type 0 where
  pub plc_run : Bool
  pub taken : Bool
  pub tick : ℕ
  pub now : ℕ
  pub read : ℕ → Variable

module _ {B P : Type 0} (r : RingBuffer B) (m : Module P) where
  after_publish : Pass → Debug B × Status → Debug B × Bool
  after_publish pass (d, failed) = (d, false)
  after_publish pass (d, ok) = (
    record d { debug_tick = pass.tick },
    if ltb (d.last_trace_sent_timestamp + debug_timeout) pass.now then false else true,
  )

  -- One pass: the state, and whether the loop goes on.
  unfoldable pub debug_pass : Pass → Debug B → Debug B × Bool
  unfolding after_publish
  debug_pass pass d =
      let awake = record d { debug_thread_state = true } in
      if pass.taken
      then (if ltb d.last_trace_timestamp pass.tick
          then after_publish pass (
              publish_debug r pass.read pass.tick
                (record awake { last_trace_timestamp = pass.tick }))
          else (awake, true))
      else (awake, if d.stop_debug_thread then false else true)

  -- The loop, as far as the passes go, and whether it has ended.
  unfoldable pub plc_debug_thread : List Pass → Debug B → Debug B × Bool
  unfolding debug_pass debug_thread_exit
  plc_debug_thread [] d = (d, false)
  plc_debug_thread (pass ∷ passes) d =
      let on = debug_pass pass d in
      let rest = plc_debug_thread passes on.0 in
      if pass.plc_run
      then (if on.1 then rest else (debug_thread_exit r m on.0, true))
      else (debug_thread_exit r m d, true)
