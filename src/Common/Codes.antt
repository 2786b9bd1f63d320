-- ===== src/Common/Codes.antt =====
-- The bytes of an ASCII text, and the search for a slash.
use Prim.Native.Nat.{ℕ}
use Prim.Native.Char.{code}
use Prim.Native.String.{String}
use mathlib.Core.Path.{◌≡◌, refl}
use mathlib.Core.Bool.{false}
use native.Mathlib.Omega.{arith}
use mathlib.Core.Option.{Option, none, some}
use mathlib.Core.List.{List, [], ◌∷◌, ◌++◌}
use beremiz4u_c.Common.Tests.{◌==◌, if◌then◌else◌}

abbrev pub codes : String → List ℕ
codes String.[] = []
codes (String.◌∷◌ c s) = code c ∷ codes s

-- strrchr(s, '/'): the text before the last slash.
abbrev pub before_last_slash : List ℕ → Option (List ℕ)
before_last_slash [] = none
before_last_slash (c ∷ cs) = elim (before_last_slash cs) [
  | some s ↦ some (c ∷ s)
  | none ↦ if c == 47 then some [] else none
]

abbrev pub NoSlash : List ℕ → Type 0
NoSlash [] = Unit {0}
NoSlash (c ∷ s) = ((c == 47) ≡ false) × NoSlash s

pub before_last_slash-NoSlash : (s : List ℕ) → NoSlash s → before_last_slash s ≡ none
before_last_slash-NoSlash [] h = refl
before_last_slash-NoSlash (c ∷ s) h = ground (arith, h.0, before_last_slash-NoSlash s h.1)

pub before_last_slash-append :
    (xs s : List ℕ) → NoSlash s → before_last_slash (xs ++ 47 ∷ s) ≡ some xs
before_last_slash-append [] s h = ground (arith, before_last_slash-NoSlash s h)
before_last_slash-append (x ∷ xs) s h = ground (arith, before_last_slash-append xs s h)
