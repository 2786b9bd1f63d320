-- ===== src/Debug/Replies.antt =====
-- Runs of the debug thread and samples fetched at concrete states.
use beremiz4u_c.Common.{ℕ, ◌≡◌, refl, Bool, true, false, List, [], ◌∷◌, some, arith}
use beremiz4u_c.Control.{started}
use beremiz4u_c.Debug.{Debug, copy_values, write_sample, publish_debug, plc_debug_thread_start}
use beremiz4u_c.Debug.Session.{publish, fetch, Operation, run, run-answers}
use beremiz4u_c.Debug.Thread.{Pass, debug_pass, plc_debug_thread}
use beremiz4u_c.Debug.Reader.{sample, Call, get_trace_variables, estimated_element_count}
use beremiz4u_c.Debug.Samples.{Sample, encoded}
use beremiz4u_c.Debug.Fetch.{woken, get_trace_variables-samples}
use beremiz4u_c.Debug.Example.{Ring, ring, pair, counting, tracing, near_end}

abbrev pass : Bool → ℕ → Pass
pass taken tick = record { plc_run = true; taken = taken; tick = tick; now = 100; read = pair }

abbrev published : Debug Ring
published = record near_end { last_trace_timestamp = 3 }

abbrev asked : Debug Ring
asked = record published { stop_debug_thread = true }

abbrev passes : List Pass
passes = pass true 3 ∷ pass false 3 ∷ pass true 4 ∷ []

ends : (plc_debug_thread (ring 16) counting passes asked).1 ≡ true
unfolding plc_debug_thread debug_pass
ends = refl

abbrev request : Call
request = record {
  plc_run = 1;
  status = started;
  tick = 4;
  now = 200;
  list_alloc = true;
  alloc = λ n. true;
}

abbrev two : List Sample
two = record { tick = 2; bytes = 7 ∷ 8 ∷ 9 ∷ [] } ∷ record { tick = 3; bytes = 7 ∷ 8 ∷ 9 ∷ [] } ∷ []

get_trace_variables-samples_example :
    (after : Debug Ring) × (get_trace_variables
        (ring 16)
        counting
        3
        request
        ((encoded two, 14) ∷ [])
        5
        near_end
      ≡ some (
        after,
        record {
          plc_status = started;
          elements = sample 2 (7 ∷ 8 ∷ 9 ∷ []) ∷ sample 3 (7 ∷ 8 ∷ 9 ∷ []) ∷ [];
        },
      ))
    × (2 ≡ estimated_element_count (ring 16) counting near_end (encoded two, 14))
    × (after.trace_samples.0 ≡ [])
unfolding ring
get_trace_variables-samples_example =
    get_trace_variables-samples (ring 16) counting two request (encoded two, 14) [] near_end
      (λ b skip h. omega arith) (λ n. refl) refl refl (refl, omega arith, (refl, omega arith, tt))
      (omega arith)

abbrev values : List ℕ
values = 7 ∷ 8 ∷ 9 ∷ []

abbrev operations : List Operation
operations = publish 2 pair ∷ publish 3 pair ∷ fetch request ∷ publish 9 pair ∷ fetch request ∷ []

run-answers_example :
    run (ring 32) counting operations tracing
    ≡ some ((sample 2 values ∷ sample 3 values ∷ []) ∷ (sample 9 values ∷ []) ∷ [])
unfolding ring publish_debug write_sample copy_values woken plc_debug_thread_start
run-answers_example =
    run-answers (ring 32) counting (0 ∷ 1 ∷ []) 3 (omega arith) (λ b skip h. omega arith) operations
      tracing [] (refl, tt, refl, refl)
      (
        ((refl, (refl, tt)), refl, omega arith, refl),
        (
          ((refl, (refl, tt)), refl, omega arith, refl),
          (
            (λ n. refl, refl, omega arith),
            (((refl, (refl, tt)), refl, omega arith, refl), ((λ n. refl, refl, omega arith), tt)),
          ),
        ),
      )
