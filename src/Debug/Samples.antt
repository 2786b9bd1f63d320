-- ===== src/Debug/Samples.antt =====
-- app/src/plc_debug.c, `GetTraceVariables`: the loop over samples, on a buffer of whole samples.
use beremiz4u_c.Common.{
  ℕ, zero, suc, ◌+◌, ◌*◌, ◌^◌, ◌≤◌, ◌<◌, ◌≡◌, ◌∙◌, ap, ap₂, Bool, true, List, [], ◌∷◌, ◌++◌, some,
  arith, length, length-append, take, drop, take-append, drop-append, map, int_bytes, int_value,
  int_value-int_bytes,
}
use beremiz4u_c.Debug.{RingBuffer}
use beremiz4u_c.Debug.Reader.{Element, sample, front, read_samples}

-- A published sample: the tick and the bytes of the values.
pub record Sample : Type 0 where
  pub tick : ℕ
  pub bytes : List ℕ

abbrev pub encoded : List Sample → List ℕ
encoded [] = []
encoded (s ∷ ss) = (int_bytes s.tick ++ s.bytes) ++ encoded ss

abbrev pub element : Sample → Element
element s = sample s.tick s.bytes

-- Samples of one size, with 32-bit ticks.
abbrev pub AreSized : ℕ → List Sample → Type 0
AreSized total [] = Unit {0}
AreSized total (s ∷ ss) = (length s.bytes ≡ total) × (s.tick < 2 ^ 32) × AreSized total ss

pub length-encoded :
    (total : ℕ) (ss : List Sample)
    → AreSized total ss
    → length (encoded ss) ≡ length ss * (total + 4)
length-encoded total [] h = omega arith
length-encoded total (s ∷ ss) h = grind (
  arith,
  length-append (int_bytes s.tick ++ s.bytes) (encoded ss),
  length-append (int_bytes s.tick) s.bytes,
  length-encoded total ss h.2,
)

sample_size :
    (total : ℕ) (s : Sample)
    → length s.bytes ≡ total
    → total + 4 ≡ length (int_bytes s.tick ++ s.bytes)
sample_size total s size = omega (arith, length-append (int_bytes s.tick) s.bytes)

module _ {B : Type 0} (r : RingBuffer B) where
  -- A claim of a block is granted whole where the buffer holds one: no sample is split.
  abbrev pub IsWhole : ℕ → Type 0
  IsWhole block =
      (b : B) (skip : ℕ) → skip + block ≤ length (r.contents b) → r.get_room b skip block ≡ block

  -- The buffer after a number of blocks is read.
  abbrev pub drained : ℕ → ℕ → B → B
  drained block zero b = b
  drained block (suc n) b = drained block n (r.get b block)

  after_one :
      (total : ℕ) (s : Sample) (rest : List ℕ) (b : B)
      → length s.bytes ≡ total
      → r.contents b ≡ (int_bytes s.tick ++ s.bytes) ++ rest
      → r.contents (r.get b (total + 4)) ≡ rest
  after_one total s rest b size e =
      r.contents-get b (total + 4) (
        omega (
          arith,
          ap length e,
          sample_size total s size,
          length-append (int_bytes s.tick ++ s.bytes) rest,
        ))
      ∙ ap₂ drop (sample_size total s size) e
      ∙ drop-append (int_bytes s.tick ++ s.bytes) rest

  module _ (total : ℕ) (alloc : ℕ → Bool) (whole : IsWhole (total + 4))
      (granted : (n : ℕ) → alloc n ≡ true) where
    reads :
        (s : Sample) (rest : List ℕ) (b : B)
        → length s.bytes ≡ total
        → s.tick < 2 ^ 32
        → r.contents b ≡ (int_bytes s.tick ++ s.bytes) ++ rest
        → sample
            (int_value (take 4 (take (total + 4) (r.contents b))))
            (drop 4 (take (total + 4) (r.contents b)))
          ≡ element s
    reads s rest b size small e =
        ap (λ l. sample (int_value (take 4 l)) (drop 4 l))
          (ap₂ take (sample_size total s size) e ∙ take-append (int_bytes s.tick ++ s.bytes) rest)
        ∙ ap (λ t. sample t s.bytes) (int_value-int_bytes s.tick small)

    read_end :
        (fuel n : ℕ) (b : B)
        → r.contents b ≡ []
        → read_samples r (suc fuel) (total + 4) alloc n 0 b ≡ some (b, [])
    unfolding read_samples
    read_end fuel n b e = ground (arith, r.get_room_available b 0 (total + 4), ap length e)

    read_one :
        (s : Sample) (rest : List ℕ) (fuel n : ℕ) (b : B)
        → length s.bytes ≡ total
        → s.tick < 2 ^ 32
        → r.contents b ≡ (int_bytes s.tick ++ s.bytes) ++ rest
        → read_samples r (suc fuel) (total + 4) alloc n 0 b
          ≡ front
              (element s)
              (read_samples r fuel (total + 4) alloc (n + 1) 0 (r.get b (total + 4)))
    unfolding read_samples
    read_one s rest fuel n b size small e =
        let long : 0 + (total + 4) ≤ length (r.contents b) = omega (
          arith,
          ap length e,
          sample_size total s size,
          length-append (int_bytes s.tick ++ s.bytes) rest,
        ) in
        ground (arith, whole b 0 long, granted n, reads s rest b size small e)

    pub read_samples-encoded :
        (ss : List Sample) (fuel n : ℕ) (b : B)
        → AreSized total ss
        → length ss < fuel
        → r.contents b ≡ encoded ss
        → read_samples r fuel (total + 4) alloc n 0 b
          ≡ some (drained (total + 4) (length ss) b, map element ss)
    read_samples-encoded [] zero n b h lt e = elim lt [ ]
    read_samples-encoded (s ∷ ss) zero n b h lt e = elim lt [ ]
    read_samples-encoded [] (suc fuel) n b h lt e = read_end fuel n b e
    read_samples-encoded (s ∷ ss) (suc fuel) n b h lt e =
        read_one s (encoded ss) fuel n b h.0 h.1 e
        ∙ ap (front (element s)) (
            read_samples-encoded ss fuel (n + 1) (r.get b (total + 4)) h.2 (omega arith)
              (after_one total s (encoded ss) b h.0 e))

-- The buffer is empty once its samples are read.
pub contents-drained :
    {B : Type 0} (r : RingBuffer B) (total : ℕ) (ss : List Sample) (b : B)
    → AreSized total ss
    → r.contents b ≡ encoded ss
    → r.contents (drained r (total + 4) (length ss) b) ≡ []
contents-drained r total [] b h e = e
contents-drained r total (s ∷ ss) b h e =
    contents-drained r total ss (r.get b (total + 4)) h.2 (after_one r total s (encoded ss) b h.0 e)
