-- ===== src/Common/Fgets.antt =====
-- Lines as `fgets` reads them.
use Prim.Native.Nat.{ℕ, zero, suc, ◌+◌, ◌≤◌, ◌<◌}
use native.Mathlib.Omega.{arith}
use mathlib.Core.Path.{◌≡◌, refl, sym, ap, ◌∙◌}
use mathlib.Core.Bool.{false}
use mathlib.Core.Logic.{inl, inr}
use mathlib.Core.List.{List, [], ◌∷◌, ◌++◌}
use beremiz4u_c.Common.Tests.{◌==◌, if◌then◌else◌, Bool-cases, ==_iff}
use beremiz4u_c.Common.Lists.{length, length-append}

-- fgets: at most n characters, up to a newline; the line and what is left.
unfoldable pub fgets : ℕ → List ℕ → List ℕ × List ℕ
fgets zero bytes = ([], bytes)
fgets (suc n) [] = ([], [])
fgets (suc n) (b ∷ bytes) =
    let more = fgets n bytes in if b == 10 then (10 ∷ [], bytes) else (b ∷ more.0, more.1)

pub fgets-whole : (n : ℕ) (s : List ℕ) → (fgets n s).0 ++ (fgets n s).1 ≡ s
unfolding fgets
fgets-whole zero s = refl
fgets-whole (suc n) [] = refl
fgets-whole (suc n) (b ∷ s) = elim (Bool-cases (b == 10)) [
  | inl newline ↦ ground (arith, newline, ==_iff b 10)
  | inr other ↦ ground (arith, other, fgets-whole n s)
]

-- A line of at least one character is taken.
pub fgets-shorter : (n : ℕ) (b : ℕ) (s : List ℕ) → length (fgets (suc n) (b ∷ s)).1 ≤ length s
unfolding fgets
fgets-shorter n b s = elim (Bool-cases (b == 10)) [
  | inl newline ↦ ground (arith, newline)
  | inr other ↦
      let size : length (fgets n s).0 + length (fgets n s).1 ≡ length s =
        sym (length-append (fgets n s).0 (fgets n s).1) ∙ ap length (fgets-whole n s) in
      ground (arith, other, size)
]

-- A text with no zero and no newline.
abbrev pub IsLine : List ℕ → Type 0
IsLine [] = Unit {0}
IsLine (c ∷ s) = (0 < c) × ((c == 10) ≡ false) × IsLine s

pub fgets-line :
    (n : ℕ) (l rest : List ℕ)
    → IsLine l
    → length l < n
    → fgets n ((l ++ 10 ∷ []) ++ rest) ≡ (l ++ 10 ∷ [], rest)
unfolding fgets
fgets-line zero l rest h short = elim short [ ]
fgets-line (suc n) [] rest h short = refl
fgets-line (suc n) (c ∷ l) rest h short =
    ground (arith, h.1, fgets-line n l rest h.2 (omega (arith, short)))
