-- ===== src/Common/Chunks.antt =====
-- A list cut into pieces of one size, as a loop of reads into a buffer gives them.
use Prim.Native.Nat.{ℕ, zero, suc, ◌≤◌, ◌<◌}
use mathlib.Core.Path.{◌≡◌, refl, ap, ◌∙◌}
use mathlib.Core.List.{List, [], ◌∷◌, ◌++◌}
use native.Mathlib.Omega.{arith}
use beremiz4u_c.Common.Lists.{length, take, drop, take-append-drop, length-drop}

module _ {ℓ} {A : Type ℓ} where
  abbrev pub joined : List (List A) → List A
  joined [] = []
  joined (xs ∷ xss) = xs ++ joined xss

  -- On fuel; as many as the list has elements are enough.
  unfoldable pub chunks : ℕ → ℕ → List A → List (List A)
  chunks size zero xs = []
  chunks size (suc fuel) [] = []
  chunks size (suc fuel) (x ∷ xs) = take size (x ∷ xs) ∷ chunks size fuel (drop size (x ∷ xs))

  pub chunks-joined :
      (size fuel : ℕ) (xs : List A)
      → 0 < size
      → length xs ≤ fuel
      → joined (chunks size fuel xs) ≡ xs
  unfolding chunks
  chunks-joined size zero [] some_size h = refl
  chunks-joined size zero (x ∷ xs) some_size h = absurd (omega arith)
  chunks-joined size (suc fuel) [] some_size h = refl
  chunks-joined size (suc fuel) (x ∷ xs) some_size h =
      let less = length-drop size (x ∷ xs) in
      ap (◌++◌ (take size (x ∷ xs)))
        (chunks-joined size fuel (drop size (x ∷ xs)) some_size (omega (arith, less, some_size, h)))
      ∙ take-append-drop size (x ∷ xs)
