-- ===== src/Debug/Fetch.antt =====
-- app/src/plc_debug.c, `GetTraceVariables`: what the host gets of the samples in the buffer.
use beremiz4u_c.Common.{
  ℕ, suc, ◌+◌, ◌*◌, ◌/◌, ◌%◌, ◌^◌, ◌≤◌, ◌≡◌, ◌≢◌, ◌∙◌, ap, true, List, [], ◌∷◌, some, arith, length,
  length-map, map, if◌then◌else◌, ◌==◌, ==_iff,
}
use native.Mathlib.Nat.{mul-div_cancel}
use beremiz4u_c.Control.{broken}
use beremiz4u_c.Debug.{RingBuffer, Module, Debug, plc_debug_thread_start}
use beremiz4u_c.Debug.Reader.{
  sample, Call, wait_for_sample, estimated_element_count, get_trace_variables,
}
use beremiz4u_c.Debug.Samples.{
  Sample, encoded, element, AreSized, length-encoded, IsWhole, drained, read_samples-encoded,
  contents-drained,
}

module _ {B P : Type 0} (r : RingBuffer B) (m : Module P) where
  -- The state once the call has woken the debug thread.
  unfoldable pub woken : Call → Debug B → Debug B
  unfolding plc_debug_thread_start
  woken c d =
      let seen = record d { last_trace_sent_timestamp = c.now % 2 ^ 32 } in
      if c.plc_run == 0 then seen else plc_debug_thread_start r m seen

  pub woken-keeps :
      (c : Call) (d : Debug B)
      → ((woken c d).trace_samples ≡ d.trace_samples)
        × ((woken c d).debugtoken ≡ d.debugtoken)
        × ((woken c d).traced_vars_total_size ≡ d.traced_vars_total_size)
        × ((woken c d).traced_vars_count ≡ d.traced_vars_count)
        × ((woken c d).traced_vars_idxs ≡ d.traced_vars_idxs)
  unfolding woken
  woken-keeps c d = ground arith

  pub blocks :
      (ss : List Sample) (total : ℕ) (b : B)
      → r.contents b ≡ encoded ss
      → AreSized total ss
      → length (r.contents b) / (total + 4) ≡ length ss
  blocks ss total b e sized =
      let size : length (r.contents b) ≡ length ss * (total + 4) =
        ap length e ∙ length-encoded total ss sized in
      ap (λ n. n / (total + 4)) size ∙ mul-div_cancel (length ss) (omega arith)

  found :
      (ss : List Sample) (total : ℕ) (b : B) (polls : List B)
      → r.contents b ≡ encoded ss
      → AreSized total ss
      → 1 ≤ length ss
      → wait_for_sample r (total + 4) (b ∷ polls) ≡ some b
  unfolding wait_for_sample
  found ss total b polls e sized least = ground (arith, blocks ss total b e sized)

  counted :
      (ss : List Sample) (b : B) (d : Debug B)
      → r.contents b ≡ encoded ss
      → AreSized d.traced_vars_total_size ss
      → length (map element ss) ≡ estimated_element_count r m d b
  counted ss b d e sized =
      ground (arith, length-map ss element, blocks ss d.traced_vars_total_size b e sized)

  pub fetches :
      (ss : List Sample) (c : Call) (b : B) (polls : List B) (d : Debug B)
      → IsWhole r (d.traced_vars_total_size + 4)
      → ((n : ℕ) → c.alloc n ≡ true)
      → c.list_alloc ≡ true
      → r.contents b ≡ encoded ss
      → AreSized d.traced_vars_total_size ss
      → 1 ≤ length ss
      → get_trace_variables r m (suc (length ss)) c (b ∷ polls) d.debugtoken d
        ≡ some (
          record (woken c d) {
            trace_samples = drained r (d.traced_vars_total_size + 4) (length ss) b;
          },
          record { plc_status = c.status; elements = map element ss },
        )
  unfolding get_trace_variables woken
  fetches ss c b polls d whole granted listed e sized least = ground (
    arith,
    ==_iff d.debugtoken d.debugtoken,
    woken-keeps c d,
    found ss d.traced_vars_total_size b polls e sized least,
    read_samples-encoded r d.traced_vars_total_size c.alloc whole granted ss (suc (length ss)) 0 b
        sized,
  )

  -- A token that is not the current one answers `Broken` with one sample without bytes at the current
  -- tick, and takes nothing from the buffer.
  pub get_trace_variables-token :
      (fuel : ℕ) (c : Call) (polls : List B) (token : ℕ) (d : Debug B)
      → token ≢ d.debugtoken
      → (after : Debug B) × (get_trace_variables r m fuel c polls token d
          ≡ some (after, record { plc_status = broken; elements = sample c.tick [] ∷ [] }))
        × (after.trace_samples ≡ d.trace_samples)
  unfolding get_trace_variables woken
  get_trace_variables-token fuel c polls token d h =
      (woken c d, ground (arith, ==_iff token d.debugtoken), (woken-keeps c d).0)

  -- With the current token, no failing allocation, samples that are not split, and a buffer that
  -- holds whole samples of the noted size: the call ends, empties the buffer, and answers the
  -- status and exactly these samples, in order, as many as it allocated elements for.
  pub get_trace_variables-samples :
      (ss : List Sample) (c : Call) (b : B) (polls : List B) (d : Debug B)
      → IsWhole r (d.traced_vars_total_size + 4)
      → ((n : ℕ) → c.alloc n ≡ true)
      → c.list_alloc ≡ true
      → r.contents b ≡ encoded ss
      → AreSized d.traced_vars_total_size ss
      → 1 ≤ length ss
      → (after : Debug B) × (get_trace_variables r m (suc (length ss)) c (b ∷ polls) d.debugtoken d
          ≡ some (after, record { plc_status = c.status; elements = map element ss }))
        × (length (map element ss) ≡ estimated_element_count r m d b)
        × (r.contents after.trace_samples ≡ [])
  get_trace_variables-samples ss c b polls d whole granted listed e sized least = (
    record (woken c d) { trace_samples = drained r (d.traced_vars_total_size + 4) (length ss) b },
    fetches ss c b polls d whole granted listed e sized least,
    counted ss b d e sized,
    contents-drained r d.traced_vars_total_size ss b sized e,
  )
