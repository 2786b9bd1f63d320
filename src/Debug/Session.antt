-- ===== src/Debug/Session.antt =====
-- app/src/plc_debug.c: `publish_debug` and `GetTraceVariables` in any order, against a queue of samples.
use beremiz4u_c.Common.{
  ℕ, suc, ◌+◌, ◌/◌, ◌^◌, ◌≤◌, ◌<◌, ◌≡◌, refl, sym, subst, ap, ◌∙◌, true, List, [], ◌∷◌, ◌++◌,
  append_assoc, append-nil, Option, none, some, arith, length, map, int_bytes,
}
use beremiz4u_c.Debug.{
  RingBuffer, Variable, value, no_value, bad_type, out_of_bounds, Module, Debug, block_size,
  claim_size, publish_debug, write_sample,
}
use beremiz4u_c.Debug.Layout.{joined, ReadsAs}
use beremiz4u_c.Debug.Publish.{traced, publish_debug-appends}
use beremiz4u_c.Debug.Reader.{Element, Call, TraceVariables, get_trace_variables}
use beremiz4u_c.Debug.Samples.{
  Sample, encoded, element, AreSized, IsWhole, drained, contents-drained,
}
use beremiz4u_c.Debug.Fetch.{woken, woken-keeps, blocks, fetches}

-- The debug thread publishes the variables at a tick, or the host fetches.
pub data Operation : Type 0 where
  publish : ℕ → (ℕ → Variable) → Operation
  fetch : Call → Operation

abbrev pub bytes_of : Variable → List ℕ
bytes_of (value bytes) = bytes
bytes_of (no_value size) = []
bytes_of bad_type = []
bytes_of out_of_bounds = []

-- The sample of the variables at the indices.
abbrev pub sampled : List ℕ → ℕ → (ℕ → Variable) → Sample
sampled is tick read = record { tick = tick; bytes = joined (map (λ i. bytes_of (read i)) is) }

-- What the host is to get: a fetch answers the samples published since the last one, and empties the
-- queue.
abbrev pub answers : List ℕ → List Operation → List Sample → List (List Element)
answers is [] q = []
answers is (publish tick read ∷ os) q = answers is os (q ++ sampled is tick read ∷ [])
answers is (fetch c ∷ os) q = map element q ∷ answers is os []

encoded-append :
    (q : List Sample) (s : Sample)
    → encoded (q ++ s ∷ []) ≡ encoded q ++ (int_bytes s.tick ++ s.bytes)
encoded-append [] s = append-nil (int_bytes s.tick ++ s.bytes)
encoded-append (x ∷ q) s =
    ap (◌++◌ (int_bytes x.tick ++ x.bytes)) (encoded-append q s)
    ∙ sym (append_assoc (int_bytes x.tick ++ x.bytes) (encoded q) (int_bytes s.tick ++ s.bytes))

AreSized-append :
    (total : ℕ) (q : List Sample) (s : Sample)
    → AreSized total q
    → length s.bytes ≡ total
    → s.tick < 2 ^ 32
    → AreSized total (q ++ s ∷ [])
AreSized-append total [] s h size small = (size, small, tt)
AreSized-append total (x ∷ q) s h size small = (h.0, h.1, AreSized-append total q s h.2 size small)

module _ {B P : Type 0} (r : RingBuffer B) (m : Module P) where
  -- A fetch that finds the buffer as it is, with fuel for the samples in it.
  abbrev pub fetch_now : Call → Debug B → Option (Debug B × TraceVariables)
  fetch_now c d =
      get_trace_variables r m (suc (length (r.contents d.trace_samples) / block_size d)) c
        (d.trace_samples ∷ []) d.debugtoken d

  abbrev pub and_then :
      Option (Debug B × TraceVariables)
      → (Debug B → Option (List (List Element)))
      → Option (List (List Element))
  and_then none f = none
  and_then (some (d, answer)) f = elim (f d) [ none ↦ none | some es ↦ some (answer.elements ∷ es) ]

  -- The answers of the fetches among the operations.
  unfoldable pub run : List Operation → Debug B → Option (List (List Element))
  run [] d = some []
  run (publish tick read ∷ os) d = run os (publish_debug r read tick d).0
  run (fetch c ∷ os) d = and_then (fetch_now c d) (run os)

  module _ (is : List ℕ) (total : ℕ) where
    -- The state holds the samples of the queue, and traces the variables at the indices.
    abbrev pub Represents : Debug B → List Sample → Type 0
    Represents d q =
        (r.contents d.trace_samples ≡ encoded q)
        × AreSized total q
        × (traced d ≡ is)
        × (d.traced_vars_total_size ≡ total)

    -- Each variable can be read, with as many bytes as noted, the tick has 32 bits, and the ring
    -- buffer grants the whole claim.
    abbrev pub IsPublishable : ℕ → (ℕ → Variable) → Debug B → Type 0
    IsPublishable tick read d =
        ReadsAs read is (map (λ i. bytes_of (read i)) is)
        × (length (sampled is tick read).bytes ≡ total)
        × (tick < 2 ^ 32)
        × (r.put_room d.trace_samples (claim_size total) ≡ claim_size total)

    -- No allocation fails, and a sample is there.
    abbrev pub IsFetchable : Call → List Sample → Type 0
    IsFetchable c q = ((n : ℕ) → c.alloc n ≡ true) × (c.list_alloc ≡ true) × (1 ≤ length q)

    -- The state after a fetch of the samples in the queue.
    abbrev pub fetched : Call → List Sample → Debug B → Debug B
    fetched c q d = record (woken r m c d) {
      trace_samples = drained r (total + 4) (length q) d.trace_samples;
    }

    -- Every operation meets its conditions.
    abbrev pub ArePermitted : List Operation → Debug B → List Sample → Type 0
    ArePermitted [] d q = Unit {0}
    ArePermitted (publish tick read ∷ os) d q =
        IsPublishable tick read d
        × ArePermitted os (publish_debug r read tick d).0 (q ++ sampled is tick read ∷ [])
    ArePermitted (fetch c ∷ os) d q = IsFetchable c q × ArePermitted os (fetched c q d) []

    module _ (some_size : 0 < total) where
      publish-kept :
          (tick : ℕ) (read : ℕ → Variable) (d : Debug B)
          → d.traced_vars_total_size ≡ total
          → r.put_room d.trace_samples (claim_size total) ≡ claim_size total
          → (traced (publish_debug r read tick d).0 ≡ traced d)
            × ((publish_debug r read tick d).0.traced_vars_total_size ≡ d.traced_vars_total_size)
      unfolding publish_debug write_sample
      publish-kept tick read d e room = ground arith

      -- A publication appends its sample to the queue.
      pub publish-Represents :
          (tick : ℕ) (read : ℕ → Variable) (d : Debug B) (q : List Sample)
          → Represents d q
          → IsPublishable tick read d
          → Represents (publish_debug r read tick d).0 (q ++ sampled is tick read ∷ [])
      publish-Represents tick read d q (c, sized, same, e) (reads, size, small, room) =
          let vs = map (λ i. bytes_of (read i)) is in
          let claimed : r.put_room d.trace_samples (claim_size d.traced_vars_total_size)
              ≡ claim_size d.traced_vars_total_size =
            subst (λ t. r.put_room d.trace_samples (claim_size t) ≡ claim_size t) (sym e) room in
          let appended =
            publish_debug-appends r read tick d vs (omega arith) (size ∙ sym e)
              (subst (λ l. ReadsAs read l vs) (sym same) reads) claimed in
          let kept = publish-kept tick read d e room in
          (
            appended.1
                ∙ ap (λ l. l ++ (int_bytes tick ++ joined vs)) c
                ∙ sym (encoded-append q (sampled is tick read)),
            AreSized-append total q (sampled is tick read) sized size small,
            kept.0 ∙ same,
            kept.1 ∙ e,
          )

      -- A fetch answers the samples of the queue and empties it.
      pub fetch-Represents :
          IsWhole r (total + 4)
          → (c : Call) (d : Debug B) (q : List Sample) → Represents d q
          → IsFetchable c q
          → (fetch_now c d
              ≡ some (fetched c q d, record { plc_status = c.status; elements = map element q }))
            × Represents (fetched c q d) []
      fetch-Represents whole c d q (bytes, sized, same, e) (granted, listed, least) =
          let sized' : AreSized d.traced_vars_total_size q =
            subst (λ t. AreSized t q) (sym e) sized in
          let whole' : IsWhole r (d.traced_vars_total_size + 4) =
            subst (λ t. IsWhole r (t + 4)) (sym e) whole in
          let kept = woken-keeps r m c d in
          (
            ap (λ n. get_trace_variables r m (suc n) c (d.trace_samples ∷ []) d.debugtoken d)
                  (blocks r m q d.traced_vars_total_size d.trace_samples bytes sized')
                ∙ fetches r m q c d.trace_samples [] d whole' granted listed bytes sized' least
                ∙ ap
                    (λ t. some (
                      record (woken r m c d) {
                        trace_samples = drained r (t + 4) (length q) d.trace_samples;
                      },
                      record { plc_status = c.status; elements = map element q },
                    ))
                    e,
            (
              contents-drained r total q d.trace_samples sized bytes,
              tt,
              ground (arith, kept, same),
              ground (arith, kept, e),
            ),
          )

      -- Where variables are traced and claims of whole samples are not split, and whatever the order
      -- in which samples are published and fetched, as long as each operation meets its conditions:
      -- every fetch ends, and the fetches answer what the queue answers, each sample once and in
      -- order.
      pub run-answers :
          IsWhole r (total + 4)
          → (os : List Operation) (d : Debug B) (q : List Sample) → Represents d q
          → ArePermitted os d q
          → run os d ≡ some (answers is os q)
      unfolding run
      run-answers whole [] d q h p = refl
      run-answers whole (publish tick read ∷ os) d q h p =
          run-answers whole os (publish_debug r read tick d).0 (q ++ sampled is tick read ∷ [])
            (publish-Represents tick read d q h p.0) p.1
      run-answers whole (fetch c ∷ os) d q h p =
          let now = fetch-Represents whole c d q h p.0 in
          let rest = run-answers whole os (fetched c q d) [] now.1 p.1 in rw (now.0, rest)
