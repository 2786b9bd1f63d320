-- ===== src/Debug.antt =====
-- app/src/plc_debug.c: the trace of variables of the running program. The debug thread copies their
-- values into a ring buffer, and the host fetches them by calls.
-- The ring buffer of the kernel, the functions of the loaded program and the outcome of memory
-- allocations are parameters.
pub mod Reader
pub mod Thread
pub mod Layout
pub mod Publish
pub mod Orders
pub mod Samples
pub mod Fetch
pub mod Rounds
pub mod Session
pub mod Example
pub mod Checks
pub mod Replies
use beremiz4u_c.Common.{
  ℕ, zero, suc, ◌+◌, ◌-◌, ◌*◌, ◌/◌, ◌%◌, ◌^◌, ◌≤◌, ◌<◌, ◌≡◌, Bool, true, false, List, [], ◌∷◌, ◌++◌,
  Option, none, some, ltb, leb, ◌==◌, if◌then◌else◌, length, take, drop, replicate, set, get_or,
  int_bytes,
}

-- A ring buffer of the kernel. `contents` are the bytes that it holds, oldest first. `put_room b n`
-- is what a claim of n bytes for writing is granted, and `put` writes bytes into the claimed room and
-- finishes the claim; `get_room b skip n` is what a claim of n bytes for reading is granted behind
-- `skip` bytes that are claimed and not finished, and `get` drops bytes at the front.
pub record RingBuffer (B : Type 0) : Type 0 where
  pub contents : B → List ℕ
  pub put_room : B → ℕ → ℕ
  pub put : B → List ℕ → B
  pub get_room : B → ℕ → ℕ → ℕ
  pub get : B → ℕ → B
  pub reset : B → B
  pub put_room-le : (b : B) (n : ℕ) → put_room b n ≤ n
  pub contents-put :
      (b : B) (n : ℕ) (bytes : List ℕ)
      → length bytes ≤ put_room b n
      → contents (put b bytes) ≡ contents b ++ bytes
  pub get_room-le : (b : B) (skip n : ℕ) → get_room b skip n ≤ n
  pub get_room_available :
      (b : B) (skip n : ℕ)
      → skip ≤ length (contents b)
      → skip + get_room b skip n ≤ length (contents b)
  pub contents-get :
      (b : B) (n : ℕ) → n ≤ length (contents b) → contents (get b n) ≡ drop n (contents b)
  pub contents-reset : (b : B) → contents (reset b) ≡ []

-- What `GetDebugVariable` of the program answers: the bytes of the value, a size with no value, an
-- unknown type, or an index out of bounds.
pub data Variable : Type 0 where
  value : List ℕ → Variable
  no_value : ℕ → Variable
  bad_type : Variable
  out_of_bounds : Variable

-- The functions of the loaded program that the trace uses, over its memory.
pub record Module (P : Type 0) : Type 0 where
  pub get_debug_variable : P → ℕ → Variable
  pub trace_reset : P → P
  pub set_trace : ℕ → Option (List ℕ) → P → P

pub record Debug (B : Type 0) : Type 0 where
  pub trace_samples : B
  pub last_trace_sent_timestamp : ℕ
  pub last_trace_timestamp : ℕ
  pub debugtoken : ℕ
  pub debug_tick : ℕ
  pub traced_vars_count : ℕ
  pub traced_vars_total_size : ℕ
  pub traced_vars_idxs : List ℕ
  pub traced_vars_size : List ℕ
  pub stop_debug_thread : Bool
  pub debug_thread_state : Bool

abbrev pub trace_vars_max_count : ℕ
trace_vars_max_count = 64

-- The error codes, as the 32-bit number in which the token is returned.
abbrev pub too_many_traced : ℕ
too_many_traced = 2 ^ 32 - 1

abbrev pub debug_suspended : ℕ
debug_suspended = 2 ^ 32 - 5

pub data Status : Type 0 where
  ok failed : Status

-- The loop of `publish_debug` over the traced variables: the bytes written behind `written`.
unfoldable pub copy_values : (ℕ → Variable) → List ℕ → List ℕ → List ℕ × Status
copy_values read [] written = (written, ok)
copy_values read (i ∷ is) written = elim (read i) [
  | value bytes ↦ copy_values read is (written ++ bytes)
  | no_value size ↦ (written, failed)
  | bad_type ↦ (written, failed)
  | out_of_bounds ↦ (written, failed)
]

-- The bytes that `GetTraceVariables` takes for one sample.
abbrev pub block_size : {B : Type 0} → Debug B → ℕ
block_size d = d.traced_vars_total_size + 4

-- The bytes of a sample that are to be claimed.
abbrev pub claim_size : ℕ → ℕ
claim_size total = 4 + (if ltb 0 total then total else 1)

module _ {B : Type 0} (r : RingBuffer B) where
  -- Behind the claim: write the tick and the values into the claimed room, and finish.
  unfoldable pub write_sample : (ℕ → Variable) → ℕ → B → Debug B → Debug B × Status
  unfolding copy_values
  write_sample read tick b d =
      let written =
        if ltb 0 d.traced_vars_total_size
        then copy_values read (take d.traced_vars_count d.traced_vars_idxs) (int_bytes tick)
        else (int_bytes tick ++ 0 ∷ [], ok) in
      (record d { trace_samples = r.put b written.0 }, written.1)

  -- `publish_debug`: claim, and where the claim falls short fill what was granted with zeros, drop
  -- as many bytes at the front, and claim again.
  unfoldable pub publish_debug : (ℕ → Variable) → ℕ → Debug B → Debug B × Status
  unfolding write_sample
  publish_debug read tick d =
      let total = claim_size d.traced_vars_total_size in
      let granted = r.put_room d.trace_samples total in
      let wrapped = r.get (r.put d.trace_samples (replicate granted 0)) granted in
      if ltb granted total
      then (if ltb (r.put_room wrapped total) total
          then (record d { trace_samples = wrapped }, failed)
          else write_sample read tick wrapped d)
      else write_sample read tick d.trace_samples d

-- One traced variable that the host asks for: its index and the value to force, if any.
pub record TraceOrder : Type 0 where
  pub idx : ℕ
  pub force : Option (List ℕ)

abbrev pub size_of_variable : Variable → Option ℕ
size_of_variable (value bytes) = some (length bytes)
size_of_variable (no_value size) = some size
size_of_variable bad_type = none
size_of_variable out_of_bounds = none

module _ {B P : Type 0} (r : RingBuffer B) (m : Module P) where
  -- One round of the loop of `SetTraceVariablesList`, where the size of the variable was read.
  abbrev pub note_variable : ℕ → TraceOrder → ℕ → Debug B → Debug B
  note_variable i o size d = record d {
    traced_vars_idxs = set d.traced_vars_idxs i o.idx;
    traced_vars_size = set d.traced_vars_size i size;
    traced_vars_total_size = d.traced_vars_total_size + size;
    traced_vars_count = i + 1;
  }

  -- The loop from the order i on.
  unfoldable pub trace_orders : ℕ → List TraceOrder → Debug B → P → Debug B × P × Status
  trace_orders i [] d p = (d, p, ok)
  trace_orders i (o ∷ os) d p = elim (size_of_variable (m.get_debug_variable p o.idx)) [
    | none ↦ (record d { traced_vars_idxs = set d.traced_vars_idxs i o.idx }, p, failed)
    | some size ↦ trace_orders (i + 1) os (note_variable i o size d) (m.set_trace o.idx o.force p)
  ]

  -- `plc_debug_thread_start`: the thread marks itself as running when it runs.
  unfoldable pub plc_debug_thread_start : Debug B → Debug B
  plc_debug_thread_start d =
      if d.debug_thread_state then d else record d { debug_thread_state = true }

  -- What the debug thread leaves when it ends, and so what the wait of `SetTraceVariablesList` for
  -- its end leaves.
  unfoldable pub debug_thread_exit : Debug B → Debug B
  debug_thread_exit d = record d {
    stop_debug_thread = false;
    last_trace_timestamp = 0;
    debug_thread_state = false;
  }

  -- What `SetTraceVariablesList` does before it reads the orders. Its wait for the debug thread is
  -- taken to end.
  unfoldable pub restart_trace : Debug B → Debug B
  unfolding debug_thread_exit
  restart_trace d =
      let stopped = if d.debug_thread_state then debug_thread_exit d else d in
      record stopped {
        traced_vars_total_size = 0;
        debugtoken = (d.debugtoken + 1) % 2 ^ 32;
        trace_samples = r.reset d.trace_samples;
      }

  finish_orders : ℕ → Debug B × P × Status → Debug B × P × ℕ
  finish_orders plc_run (d, p, failed) = (d, p, too_many_traced)
  finish_orders plc_run (d, p, ok) =
      (if plc_run == 0 then d else plc_debug_thread_start d, p, d.debugtoken)

  -- `SetTraceVariablesList`: the state, the program and the token that it returns.
  unfoldable pub set_trace_variables_list :
      ℕ → Option (List TraceOrder) → Debug B → P → Debug B × P × ℕ
  unfolding finish_orders plc_debug_thread_start
  set_trace_variables_list plc_run none d p = (restart_trace d, p, debug_suspended)
  set_trace_variables_list plc_run (some orders) d p =
      let fresh = restart_trace d in
      if length orders == 0
      then (fresh, p, debug_suspended)
      else if ltb trace_vars_max_count (length orders)
      then (fresh, p, too_many_traced)
      else finish_orders plc_run (trace_orders 0 orders fresh (m.trace_reset p))
