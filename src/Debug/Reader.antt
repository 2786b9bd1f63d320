-- ===== src/Debug/Reader.antt =====
-- app/src/plc_debug.c, `GetTraceVariables`: the samples that the host fetches.
use beremiz4u_c.Common.{
  ℕ, zero, suc, ◌+◌, ◌/◌, ◌%◌, ◌^◌, Bool, List, [], ◌∷◌, Option, none, some, ltb, ◌==◌,
  if◌then◌else◌, length, take, drop, int_value,
}
use beremiz4u_c.Control.{PlcStatus, broken}
use beremiz4u_c.Debug.{RingBuffer, Module, Debug, block_size, plc_debug_thread_start}

-- One element of the answer. An element whose memory could not be allocated is left as it is.
pub data Element : Type 0 where
  sample : ℕ → List ℕ → Element
  unset : Element

pub record TraceVariables : Type 0 where
  pub plc_status : PlcStatus
  pub elements : List Element

abbrev pub front : {B : Type 0} → Element → Option (B × List Element) → Option (B × List Element)
front e none = none
front e (some (b, es)) = some (b, e ∷ es)

module _ {B : Type 0} (r : RingBuffer B) where
  -- The first buffer, among those that the polls of the wait meet, that holds a sample.
  unfoldable pub wait_for_sample : ℕ → List B → Option B
  wait_for_sample block [] = none
  wait_for_sample block (b ∷ bs) =
      if ltb 0 (length (r.contents b) / block) then some b else wait_for_sample block bs

  -- The loop over the samples. `alloc n` is the outcome of the allocation number n. A block whose
  -- memory cannot be allocated stays claimed and not finished. `none`: the fuel ran out.
  unfoldable pub read_samples : ℕ → ℕ → (ℕ → Bool) → ℕ → ℕ → B → Option (B × List Element)
  read_samples zero block alloc n skip b = none
  read_samples (suc fuel) block alloc n skip b =
      let bytes = take block (drop skip (r.contents b)) in
      let read = read_samples fuel block alloc (n + 1) 0 (r.get b block) in
      let skipped = read_samples fuel block alloc (n + 1) (skip + block) b in
      if r.get_room b skip block == block
      then (if alloc n
          then front (sample (int_value (take 4 bytes)) (drop 4 bytes)) read
          else front unset skipped)
      else some (b, [])

-- What a call meets: whether the PLC is to run, its status and tick, the time in milliseconds,
-- whether the list of elements can be allocated, and which of the allocations for samples can.
pub record Call : Type 0 where
  pub plc_run : ℕ
  pub status : PlcStatus
  pub tick : ℕ
  pub now : ℕ
  pub list_alloc : Bool
  pub alloc : ℕ → Bool

module _ {B P : Type 0} (r : RingBuffer B) (m : Module P) where
  -- The samples that the answer has room for.
  abbrev pub estimated_element_count : Debug B → B → ℕ
  estimated_element_count d b = length (r.contents b) / block_size d

  finish_fetch : Call → Debug B → Option (B × List Element) → Option (Debug B × TraceVariables)
  finish_fetch c d none = none
  finish_fetch c d (some (b, es)) =
      some (record d { trace_samples = b }, record { plc_status = c.status; elements = es })

  fetch : ℕ → Call → Debug B → Option B → Option (Debug B × TraceVariables)
  unfolding finish_fetch
  fetch fuel c d none = none
  fetch fuel c d (some b) =
      if c.list_alloc
      then finish_fetch c d (read_samples r fuel (block_size d) c.alloc 0 0 b)
      else some (record d { trace_samples = b }, record { plc_status = broken; elements = [] })

  -- `GetTraceVariables`. The polls are the ring buffer as its wait meets it, round after round.
  -- `none`: the wait has not ended, or the fuel of the loop over the samples ran out.
  unfoldable pub get_trace_variables :
      ℕ → Call → List B → ℕ → Debug B → Option (Debug B × TraceVariables)
  unfolding fetch
  get_trace_variables fuel c polls token d =
      let seen = record d { last_trace_sent_timestamp = c.now % 2 ^ 32 } in
      let woken = if c.plc_run == 0 then seen else plc_debug_thread_start r m seen in
      if token == d.debugtoken
      then fetch fuel c woken (wait_for_sample r (block_size woken) polls)
      else some (woken, record { plc_status = broken; elements = sample c.tick [] ∷ [] })
