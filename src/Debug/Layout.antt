-- ===== src/Debug/Layout.antt =====
-- The bytes that a sample of app/src/plc_debug.c takes in the ring buffer.
use beremiz4u_c.Common.{
  ℕ, ◌≡◌, refl, List, [], ◌∷◌, ◌++◌, ap, sym, ◌∙◌, append-nil, append_assoc, int_bytes,
}
use beremiz4u_c.Debug.{Variable, value, no_value, bad_type, out_of_bounds, ok, failed, copy_values}

abbrev pub joined : List (List ℕ) → List ℕ
joined [] = []
joined (v ∷ vs) = v ++ joined vs

-- The variables at the indices have the values, in order.
abbrev pub ReadsAs : (ℕ → Variable) → List ℕ → List (List ℕ) → Type 0
ReadsAs read [] [] = Unit {0}
ReadsAs read [] (v ∷ vs) = ⊥
ReadsAs read (i ∷ is) [] = ⊥
ReadsAs read (i ∷ is) (v ∷ vs) = (read i ≡ value v) × ReadsAs read is vs

-- A variable that `publish_debug` cannot copy.
abbrev pub Unreadable : Variable → Type 0
Unreadable (value bytes) = ⊥
Unreadable _ = Unit {0}

-- One sample: the tick and the values.
abbrev pub sample_bytes : ℕ → List (List ℕ) → List ℕ
sample_bytes tick vs = int_bytes tick ++ joined vs

module _ (read : ℕ → Variable) where
  pub copy_values-ReadsAs :
      (is : List ℕ) (vs : List (List ℕ)) (written : List ℕ)
      → ReadsAs read is vs
      → copy_values read is written ≡ (written ++ joined vs, ok)
  unfolding copy_values
  copy_values-ReadsAs [] [] written h = ap (λ w. (w, ok)) (sym (append-nil written))
  copy_values-ReadsAs [] (v ∷ vs) written h = absurd h
  copy_values-ReadsAs (i ∷ is) [] written h = absurd h
  copy_values-ReadsAs (i ∷ is) (v ∷ vs) written h =
      rw (h.0, copy_values)
        (copy_values-ReadsAs is vs (written ++ v) h.1
          ∙ ap (λ w. (w, ok)) (append_assoc written v (joined vs)))

  stops_at :
      (v : Variable) (is : List ℕ) (written : List ℕ) (i : ℕ)
      → read i ≡ v
      → Unreadable v
      → copy_values read (i ∷ is) written ≡ (written, failed)
  unfolding copy_values
  stops_at (value bytes) is written i e h = absurd h
  stops_at (no_value size) is written i e h = rw (e, copy_values)
  stops_at bad_type is written i e h = rw (e, copy_values)
  stops_at out_of_bounds is written i e h = rw (e, copy_values)

  -- The copy stops at the first variable that has no value.
  pub copy_values-Unreadable :
      (is : List ℕ) (vs : List (List ℕ)) (i : ℕ) (rest : List ℕ) (written : List ℕ)
      → ReadsAs read is vs
      → Unreadable (read i)
      → copy_values read (is ++ i ∷ rest) written ≡ (written ++ joined vs, failed)
  unfolding copy_values
  copy_values-Unreadable [] [] i rest written h bad =
      stops_at (read i) rest written i refl bad ∙ ap (λ w. (w, failed)) (sym (append-nil written))
  copy_values-Unreadable [] (v ∷ vs) i rest written h bad = absurd h
  copy_values-Unreadable (j ∷ is) [] i rest written h bad = absurd h
  copy_values-Unreadable (j ∷ is) (v ∷ vs) i rest written h bad =
      rw (h.0, copy_values)
        (copy_values-Unreadable is vs i rest (written ++ v) h.1 bad
          ∙ ap (λ w. (w, failed)) (append_assoc written v (joined vs)))
