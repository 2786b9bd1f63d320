-- ===== src/Debug/Publish.antt =====
-- app/src/plc_debug.c, `publish_debug`: what it leaves in the ring buffer.
use beremiz4u_c.Common.{
  ℕ, ◌+◌, ◌≤◌, ◌<◌, ◌≡◌, List, [], ◌∷◌, ◌++◌, arith, length, length-append, length-replicate, take,
  drop, replicate, int_bytes,
}
use beremiz4u_c.Debug.{
  RingBuffer, Variable, Debug, ok, failed, block_size, claim_size, write_sample, publish_debug,
}
use beremiz4u_c.Debug.Layout.{
  joined, ReadsAs, Unreadable, sample_bytes, copy_values-ReadsAs, copy_values-Unreadable,
}

-- The variables that are traced.
abbrev pub traced : {B : Type 0} → Debug B → List ℕ
traced d = take d.traced_vars_count d.traced_vars_idxs

module _ {B : Type 0} (r : RingBuffer B) (read : ℕ → Variable) (tick : ℕ) (d : Debug B) where
  module _ (vs : List (List ℕ)) (some_size : 0 < d.traced_vars_total_size)
      (sizes : length (joined vs) ≡ d.traced_vars_total_size) where
    writes :
        (b : B)
        → ReadsAs read (traced d) vs
        → write_sample r read tick b d
          ≡ (record d { trace_samples = r.put b (sample_bytes tick vs) }, ok)
    unfolding write_sample
    writes b h = ground (arith, copy_values-ReadsAs read (traced d) vs (int_bytes tick) h)

    fits : length (sample_bytes tick vs) ≡ claim_size d.traced_vars_total_size
    fits = ground (arith, length-append (int_bytes tick) (joined vs))

    -- Where variables are traced and each can be read, with values of the sizes that were noted, and
    -- the claim is granted whole, `publish_debug` succeeds and appends one sample, the tick and the
    -- values, to the buffer.
    pub publish_debug-appends :
        ReadsAs read (traced d) vs
        → r.put_room d.trace_samples (claim_size d.traced_vars_total_size)
          ≡ claim_size d.traced_vars_total_size
        → ((publish_debug r read tick d).1 ≡ ok)
          × (r.contents (publish_debug r read tick d).0.trace_samples
              ≡ r.contents d.trace_samples ++ sample_bytes tick vs)
    unfolding publish_debug
    publish_debug-appends h room = ground (
      arith,
      writes d.trace_samples h,
      fits,
      r.contents-put d.trace_samples (claim_size d.traced_vars_total_size) (sample_bytes tick vs),
    )

    -- Where the first claim is granted fewer bytes and the second one whole, that many zeros go in at
    -- the end, that many bytes go out at the front, and then the sample is appended. So while the
    -- buffer holds samples, the bytes that are dropped are those of the oldest samples and the zeros
    -- stay between the samples.
    pub publish_debug-wraps :
        ReadsAs read (traced d) vs
        → (granted : ℕ) → r.put_room d.trace_samples (claim_size d.traced_vars_total_size) ≡ granted
        → granted < claim_size d.traced_vars_total_size
        → (wrapped : B) → r.get (r.put d.trace_samples (replicate granted 0)) granted ≡ wrapped
        → r.put_room wrapped (claim_size d.traced_vars_total_size)
          ≡ claim_size d.traced_vars_total_size
        → ((publish_debug r read tick d).1 ≡ ok)
          × (r.contents (publish_debug r read tick d).0.trace_samples
              ≡ drop granted (r.contents d.trace_samples ++ replicate granted 0)
                ++ sample_bytes tick vs)
    unfolding publish_debug
    publish_debug-wraps h granted room short wrapped same room' = ground (
      arith,
      writes wrapped h,
      fits,
      filled,
      r.contents-get (r.put d.trace_samples (replicate granted 0)) granted,
      length-append (r.contents d.trace_samples) (replicate granted 0),
      length-replicate {A = ℕ} granted 0,
      r.contents-put wrapped (claim_size d.traced_vars_total_size) (sample_bytes tick vs),
    )
      where
        filled :
            r.contents (r.put d.trace_samples (replicate granted 0))
            ≡ r.contents d.trace_samples ++ replicate granted 0
        filled =
            r.contents-put d.trace_samples (claim_size d.traced_vars_total_size)
              (replicate granted 0) (omega (arith, length-replicate {A = ℕ} granted 0))

  -- Where a traced variable cannot be read, `publish_debug` fails, and the tick and the values of the
  -- variables before it stay in the buffer.
  pub publish_debug-Unreadable :
      (is rest : List ℕ) (i : ℕ) (vs : List (List ℕ))
      → traced d ≡ is ++ i ∷ rest
      → ReadsAs read is vs
      → Unreadable (read i)
      → length (sample_bytes tick vs) ≤ claim_size d.traced_vars_total_size
      → 0 < d.traced_vars_total_size
      → r.put_room d.trace_samples (claim_size d.traced_vars_total_size)
        ≡ claim_size d.traced_vars_total_size
      → ((publish_debug r read tick d).1 ≡ failed)
        × (r.contents (publish_debug r read tick d).0.trace_samples
            ≡ r.contents d.trace_samples ++ sample_bytes tick vs)
  unfolding publish_debug write_sample
  publish_debug-Unreadable is rest i vs e h bad small some_size room = ground (
    arith,
    copy_values-Unreadable read is vs i rest (int_bytes tick) h bad,
    r.contents-put d.trace_samples (claim_size d.traced_vars_total_size) (sample_bytes tick vs),
  )

  -- Where no variable is traced and the claim is granted whole, `publish_debug` appends five bytes,
  -- the tick and a zero, one more than the reader takes for a sample with no values.
  pub publish_debug-untraced :
      d.traced_vars_total_size ≡ 0
      → r.put_room d.trace_samples 5 ≡ 5
      → ((publish_debug r read tick d).1 ≡ ok)
        × (r.contents (publish_debug r read tick d).0.trace_samples
            ≡ r.contents d.trace_samples ++ (int_bytes tick ++ 0 ∷ []))
        × (length (int_bytes tick ++ 0 ∷ []) ≡ block_size d + 1)
  unfolding publish_debug write_sample
  publish_debug-untraced none_traced room =
      ground (arith, r.contents-put d.trace_samples 5 (int_bytes tick ++ 0 ∷ []))
