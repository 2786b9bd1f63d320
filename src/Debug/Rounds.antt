-- ===== src/Debug/Rounds.antt =====
-- app/src/plc_debug.c, `plc_debug_thread`: when it publishes and when it ends.
use beremiz4u_c.Common.{
  ℕ, ◌≤◌, ◌≡◌, Bool, true, false, List, [], ◌∷◌, refl, sym, subst, arith, if◌then◌else◌,
}
use beremiz4u_c.Debug.{RingBuffer, Variable, Module, Debug, publish_debug, debug_thread_exit}
use beremiz4u_c.Debug.Thread.{Pass, debug_pass, plc_debug_thread}

-- A sample is published, or not, whatever the request to stop.
publish_debug-stop :
    {B : Type 0} (r : RingBuffer B) (read : ℕ → Variable) (tick : ℕ) (d : Debug B) (b : Bool)
    → ((publish_debug r read tick (record d { stop_debug_thread = b })).1
        ≡ (publish_debug r read tick d).1)
      × ((publish_debug r read tick
            (record d { stop_debug_thread = b })).0.last_trace_sent_timestamp
          ≡ d.last_trace_sent_timestamp)
unfolding publish_debug
publish_debug-stop r read tick d b = ground arith

module _ {B P : Type 0} (r : RingBuffer B) (m : Module P) where
  -- A pass that finds the semaphore free goes on or ends whatever `stop_debug_thread` says; only one
  -- that does not get it within its millisecond heeds the flag.
  pub debug_pass-stop :
      (pass : Pass) (d : Debug B)
      → (pass.taken ≡ true
          → (debug_pass r m pass (record d { stop_debug_thread = true })).1
            ≡ (debug_pass r m pass (record d { stop_debug_thread = false })).1)
        × (pass.taken ≡ false
            → (debug_pass r m pass d).1 ≡ (if d.stop_debug_thread then false else true))
  unfolding debug_pass
  debug_pass-stop pass d =
      let woken = record d { debug_thread_state = true; last_trace_timestamp = pass.tick } in
      (
        λ taken. ground (
          arith,
          publish_debug-stop r pass.read pass.tick woken true,
          publish_debug-stop r pass.read pass.tick woken false,
        ),
        λ missed. ground arith,
      )

  -- Passes with ticks up to the given one.
  abbrev pub AreOld : ℕ → List Pass → Type 0
  AreOld last [] = Unit {0}
  AreOld last (pass ∷ passes) = (pass.tick ≤ last) × AreOld last passes

  old_pass :
      (pass : Pass) (d : Debug B)
      → pass.tick ≤ d.last_trace_timestamp
      → ((debug_pass r m pass d).0.trace_samples ≡ d.trace_samples)
        × ((debug_pass r m pass d).0.last_trace_timestamp ≡ d.last_trace_timestamp)
        × (pass.taken ≡ true → (debug_pass r m pass d).1 ≡ true)
  unfolding debug_pass
  old_pass pass d old = ground arith

  -- However many passes there are, while their ticks do not exceed the last one that was published
  -- nothing is published. So behind a tick that starts again from zero the trace stands still: below
  -- a limit to the tick, nothing comes any more once the greatest tick below it was published.
  pub plc_debug_thread-old_ticks :
      (passes : List Pass) (d : Debug B)
      → AreOld d.last_trace_timestamp passes
      → (plc_debug_thread r m passes d).0.trace_samples ≡ d.trace_samples
  unfolding plc_debug_thread debug_thread_exit
  plc_debug_thread-old_ticks [] d old = refl
  plc_debug_thread-old_ticks (pass ∷ passes) d old =
      let one = old_pass pass d old.0 in
      let later =
        plc_debug_thread-old_ticks passes (debug_pass r m pass d).0
          (subst (λ t. AreOld t passes) (sym one.1) old.1) in
      ground (arith, one, later)

  -- When the loop has ended, the thread is marked as not running, the request to stop is cleared and
  -- the next tick is published again.
  pub plc_debug_thread-ended :
      (passes : List Pass) (d : Debug B)
      → (plc_debug_thread r m passes d).1 ≡ true
      → ((plc_debug_thread r m passes d).0.debug_thread_state ≡ false)
        × ((plc_debug_thread r m passes d).0.stop_debug_thread ≡ false)
        × ((plc_debug_thread r m passes d).0.last_trace_timestamp ≡ 0)
  unfolding plc_debug_thread
  plc_debug_thread-ended [] d h = ground arith
  plc_debug_thread-ended (pass ∷ passes) d h =
      ground (arith, plc_debug_thread-ended passes (debug_pass r m pass d).0)
