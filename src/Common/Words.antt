-- ===== src/Common/Words.antt =====
-- A 32-bit number as four bytes in memory.
use Prim.Native.Nat.{ℕ, ◌+◌, ◌*◌, ◌/◌, ◌%◌, ◌^◌, ◌<◌}
use mathlib.Core.Path.{◌≡◌}
use mathlib.Core.List.{List, [], ◌∷◌}
use native.Mathlib.Omega.{arith}

-- Least significant byte first.
abbrev pub int_bytes : ℕ → List ℕ
int_bytes n = (n % 256) ∷ (n / 256 % 256) ∷ (n / 65536 % 256) ∷ (n / 16777216 % 256) ∷ []

abbrev pub int_value : List ℕ → ℕ
int_value [] = 0
int_value (b ∷ bs) = b + 256 * int_value bs

pub int_value-int_bytes : (n : ℕ) → n < 2 ^ 32 → int_value (int_bytes n) ≡ n
int_value-int_bytes n h = omega arith
