-- ===== src/Settings/Bytes.antt =====
-- Lemmas on the byte arrays in which app/src/plc_settings.c keeps texts and numbers.
use beremiz4u_c.Common.{
  ℕ, zero, suc, ◌<◌, ◌≤◌, ◌≡◌, refl, ap, Bool, true, false, List, [], ◌∷◌, ◌++◌, arith, length,
  take, drop, replicate, length-append, length-drop, length-take, length-replicate,
}
use beremiz4u_c.Settings.{char_array, overlay, strncpy, c_string, bool_bytes, bool_value}

abbrev pub NoZero : List ℕ → Type 0
NoZero [] = Unit {0}
NoZero (c ∷ s) = (0 < c) × NoZero s

pub length-char_array : (n : ℕ) (s : List ℕ) → length (char_array n s) ≡ n
length-char_array n s = omega (
  arith,
  length-take n (s ++ replicate n 0),
  length-append s (replicate n 0),
  length-replicate {A = ℕ} n 0,
)

pub length-overlay :
    (new old : List ℕ) → length new ≤ length old → length (overlay new old) ≡ length old
length-overlay new old h =
    omega (arith, length-append new (drop (length new) old), length-drop (length new) old)

c_string-padded :
    (n k : ℕ) (s : List ℕ) → NoZero s → c_string (take n (s ++ replicate k 0) ++ 0 ∷ []) ≡ take n s
c_string-padded zero k s h = refl
c_string-padded (suc n) zero [] h = refl
c_string-padded (suc n) (suc k) [] h = refl
c_string-padded (suc n) k (zero ∷ s) h = absurd (omega arith)
c_string-padded (suc n) k (suc c ∷ s) h = ap (◌∷◌ (suc c)) (c_string-padded n k s h.1)

-- The last byte of an array, where it is zero.
abbrev pub EndsInZero : ℕ → List ℕ → Type 0
EndsInZero n b = drop n b ≡ 0 ∷ []

pub c_string-strncpy :
    (n : ℕ) (s old : List ℕ) → NoZero s → EndsInZero n old → c_string (strncpy old s n) ≡ take n s
c_string-strncpy n s old h e = rw (length-char_array n s, e) (c_string-padded n n s h)

pub bool_value-bool_bytes : (b : Bool) → bool_value (bool_bytes b) ≡ b
bool_value-bool_bytes true = refl
bool_value-bool_bytes false = refl
