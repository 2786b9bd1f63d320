-- ===== src/Log.antt =====
-- app/src/plc_rte_log.c: the messages that a program logs.
-- The log file is a list of bytes. `localBuf` has 256 bytes: a text that is longer with its brackets is
-- written over what lies behind it, which is left out here.
pub mod Decimal
pub mod Lines
pub mod Calls
pub mod Lookup
pub mod Checks
use beremiz4u_c.Common.{
  ℕ, zero, suc, ◌+◌, ◌-◌, ◌*◌, ◌/◌, ◌%◌, ◌^◌, Bool, true, false, ◌&&◌, ◌||◌, List, [], ◌∷◌, ◌++◌,
  Option, none, some, ltb, leb, ◌==◌, if◌then◌else◌, length, take, drop, replicate, set, get_or,
  codes,
}

-- The decimal digits of a number, on fuel.
unfoldable pub digits : ℕ → ℕ → List ℕ
digits zero n = []
digits (suc fuel) n =
    let rest = digits fuel (n / 10) in
    if ltb n 10 then (48 + n) ∷ [] else rest ++ (48 + n % 10) ∷ []

-- %u and %ld, of a number that is not negative.
abbrev pub print_number : ℕ → List ℕ
print_number n = digits (suc n) n

abbrev pub is_digit : ℕ → Bool
is_digit c = leb 48 c && leb c 57

unfoldable pub read_digits : ℕ → List ℕ → ℕ × List ℕ
read_digits value [] = (value, [])
read_digits value (c ∷ cs) =
    let rest = read_digits (value * 10 + (c - 48)) cs in
    if is_digit c then rest else (value, c ∷ cs)

-- One line of the log: what stands in its five brackets, and the message.
pub record Entry : Type 0 where
  pub id : ℕ
  pub tick : ℕ
  pub sec : ℕ
  pub nsec : ℕ
  pub level : ℕ
  pub msg : List ℕ

-- "[%u] "
abbrev pub bracket : ℕ → List ℕ → List ℕ
bracket n rest = 91 ∷ (print_number n ++ (93 ∷ 32 ∷ rest))

-- The line that `LogMessage` writes.
abbrev pub line_of : Entry → List ℕ
line_of e =
    bracket e.id
      (bracket e.tick (bracket e.sec (bracket e.nsec (bracket e.level (e.msg ++ 10 ∷ [])))))

-- A field of the pattern of `sscanf`, "[%u" of 32 bits, on text without spaces or signs in front of the number.
unfoldable pub scan_field : List ℕ → Option (ℕ × List ℕ)
unfolding read_digits
scan_field [] = none
scan_field (c ∷ []) = none
scan_field (c ∷ d ∷ cs) =
    let value = read_digits 0 (d ∷ cs) in
    if (c == 91) && is_digit d then some (value.0 % 2 ^ 32, value.1) else none

-- "] " between two fields.
abbrev pub scan_gap : List ℕ → Option (List ℕ)
scan_gap [] = none
scan_gap (c ∷ []) = if c == 93 then some [] else none
scan_gap (c ∷ d ∷ cs) = if c == 93 then (if d == 32 then some cs else some (d ∷ cs)) else none

-- The numbers of the brackets, where there are as many as asked for.
unfoldable pub scan_fields : ℕ → List ℕ → Option (List ℕ)
unfolding scan_field
scan_fields zero text = some []
scan_fields (suc n) text = elim (scan_field text) [
  | none ↦ none
  | some field ↦ if n == 0 then some (field.0 ∷ []) else elim (scan_gap field.1) [
    | none ↦ none
    | some rest ↦ elim (scan_fields n rest) [ none ↦ none | some values ↦ some (field.0 ∷ values) ]
  ]
]

-- strchr(text, ']') + 2
unfoldable pub behind_bracket : List ℕ → Option (List ℕ)
behind_bracket [] = none
behind_bracket (c ∷ cs) = let rest = behind_bracket cs in if c == 93 then some (drop 1 cs) else rest

unfoldable pub message_start : ℕ → List ℕ → Option (List ℕ)
unfolding behind_bracket
message_start zero text = some text
message_start (suc n) text = elim (behind_bracket text) [
  | none ↦ none
  | some rest ↦ message_start n rest
]
