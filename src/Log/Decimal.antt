-- ===== src/Log/Decimal.antt =====
-- app/src/plc_rte_log.c: decimal numbers as they are printed and read.
use beremiz4u_c.Common.{
  ℕ, zero, suc, ◌+◌, ◌*◌, ◌/◌, ◌%◌, ◌<◌, ◌≡◌, true, Bool-cases, inl, inr, List, [], ◌∷◌, ◌++◌,
  append_assoc, ltb, arith,
}
use beremiz4u_c.Log.{digits, is_digit, read_digits}

read_one :
    (value n : ℕ) (rest : List ℕ)
    → n < 10
    → read_digits value ((48 + n) ∷ rest) ≡ read_digits (value * 10 + n) rest
unfolding read_digits
read_one value n rest small = ground arith

-- Reading the digits of a number and going on is going on from the number.
pub read_digits-digits :
    (fuel n : ℕ) (rest : List ℕ)
    → n < fuel
    → read_digits 0 (digits fuel n ++ rest) ≡ read_digits n rest
unfolding digits
read_digits-digits zero n rest small = elim small [ ]
read_digits-digits (suc fuel) n rest small = elim (Bool-cases (ltb n 10)) [
  | inl one ↦ ground (arith, one, read_one 0 n rest)
  | inr more ↦
      let last = (48 + n % 10) ∷ [] in
      ground (
        arith,
        more,
        append_assoc (digits fuel (n / 10)) last rest,
        read_digits-digits fuel (n / 10) ((48 + n % 10) ∷ rest),
        read_one (n / 10) (n % 10) rest,
      )
]

-- What is printed starts with a digit.
pub digits_start :
    (fuel n : ℕ) (rest : List ℕ)
    → n < fuel
    → (d : ℕ) × (ds : List ℕ) × (digits fuel n ++ rest ≡ d ∷ ds) × (is_digit d ≡ true)
unfolding digits
digits_start zero n rest small = elim small [ ]
digits_start (suc fuel) n rest small = elim (Bool-cases (ltb n 10)) [
  | inl one ↦ (48 + n, rest, ground (arith, one), ground (arith, one))
  | inr more ↦
      let first = digits_start fuel (n / 10) ((48 + n % 10) ∷ rest) (ground (arith, more)) in
      (
        first.0,
        first.1,
        ground
            (arith, more, append_assoc (digits fuel (n / 10)) ((48 + n % 10) ∷ []) rest, first.2),
        first.3,
      )
]
