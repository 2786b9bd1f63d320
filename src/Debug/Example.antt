-- ===== src/Debug/Example.antt =====
-- A trace at concrete states: a ring buffer in memory, and a program with two variables.
use beremiz4u_c.Common.{
  ℕ, ◌+◌, ◌-◌, ◌%◌, refl, true, false, List, [], ◌∷◌, ◌++◌, arith, min, length, drop, replicate,
  if◌then◌else◌, ◌==◌,
}
use beremiz4u_c.Debug.{RingBuffer, Variable, value, no_value, Module, Debug}

-- A ring buffer as its bytes and the position at which the next one is written: a claim for writing
-- ends at the end of the memory.
abbrev pub Ring : Type 0
Ring = List ℕ × ℕ

unfoldable pub ring : ℕ → RingBuffer Ring
ring capacity = record {
  contents = λ b. b.0;
  put_room = λ b n. min n (min (capacity - length b.0) (capacity - b.1));
  put = λ b bytes. (b.0 ++ bytes, (b.1 + length bytes) % capacity);
  get_room = λ b skip n. min n (length b.0 - skip);
  get = λ b n. (drop n b.0, b.1);
  reset = λ b. ([], 0);
  put_room-le = λ b n. omega arith;
  contents-put = λ b n bytes h. refl;
  get_room-le = λ b skip n. omega arith;
  get_room_available = λ b skip n h. omega arith;
  contents-get = λ b n h. refl;
  contents-reset = λ b. refl;
}

abbrev pub pair : ℕ → Variable
pair i = if i == 0 then value (7 ∷ 8 ∷ []) else if i == 1 then value (9 ∷ []) else no_value 2

abbrev pub counting : Module ℕ
counting = record {
  get_debug_variable = λ p i. pair i;
  trace_reset = λ p. 0;
  set_trace = λ i force p. p + 1;
}

abbrev pub quiet : Debug Ring
quiet = record {
  trace_samples = ([], 0);
  last_trace_sent_timestamp = 0;
  last_trace_timestamp = 0;
  debugtoken = 5;
  debug_tick = 0;
  traced_vars_count = 0;
  traced_vars_total_size = 0;
  traced_vars_idxs = replicate 64 0;
  traced_vars_size = replicate 64 0;
  stop_debug_thread = false;
  debug_thread_state = false;
}

-- Both variables are traced.
abbrev pub tracing : Debug Ring
tracing = record quiet {
  traced_vars_count = 2;
  traced_vars_total_size = 3;
  traced_vars_idxs = 0 ∷ 1 ∷ [];
  debug_thread_state = true;
}

-- Two bytes are left up to the end of the memory.
abbrev pub near_end : Debug Ring
near_end = record tracing { trace_samples = (2 ∷ 0 ∷ 0 ∷ 0 ∷ 7 ∷ 8 ∷ 9 ∷ [], 14) }
