-- ===== src/Log/Lines.antt =====
-- app/src/plc_rte_log.c: what is read of a line that `LogMessage` writes.
use beremiz4u_c.Common.{
  ◌≤◌, ◌^◌, IsLine, length, ap, subst, false, ℕ, zero, suc, ◌+◌, ◌/◌, ◌%◌, ◌<◌, ◌≡◌, refl, ◌∙◌,
  true, Bool-cases, inl, inr, List, [], ◌∷◌, ◌++◌, append_assoc, some, ltb, arith,
}
use beremiz4u_c.Log.{
  digits, print_number, is_digit, read_digits, Entry, bracket, line_of, scan_field, scan_fields,
  behind_bracket, message_start,
}
use beremiz4u_c.Log.Decimal.{read_digits-digits, digits_start}

read_stops : (n : ℕ) (rest : List ℕ) → read_digits n (93 ∷ rest) ≡ (n, 93 ∷ rest)
unfolding read_digits
read_stops n rest = ground arith

scan_number :
    (text rest : List ℕ) (d : ℕ) (ds : List ℕ) (n : ℕ)
    → text ≡ d ∷ ds
    → is_digit d ≡ true
    → read_digits 0 text ≡ (n, rest)
    → n < 2 ^ 32
    → scan_field (91 ∷ text) ≡ some (n, rest)
unfolding scan_field
scan_number [] rest d ds n e digit read small = ground (arith, e)
scan_number (c ∷ cs) rest d ds n e digit read small = ground (arith, e, digit, read, small)

scan_field-bracket :
    (n : ℕ) (rest : List ℕ) → n < 2 ^ 32 → scan_field (bracket n rest) ≡ some (n, 93 ∷ 32 ∷ rest)
scan_field-bracket n rest small =
    let start = digits_start (suc n) n (93 ∷ 32 ∷ rest) (omega arith) in
    scan_number (print_number n ++ (93 ∷ 32 ∷ rest)) (93 ∷ 32 ∷ rest) start.0 start.1 n start.2
      start.3
      (read_digits-digits (suc n) n (93 ∷ 32 ∷ rest) (omega arith) ∙ read_stops n (32 ∷ rest)) small

scan_last : (n : ℕ) (rest : List ℕ) → n < 2 ^ 32 → scan_fields 1 (bracket n rest) ≡ some (n ∷ [])
unfolding scan_fields
scan_last n rest small = ground (arith, scan_field-bracket n rest small)

scan_more :
    (k n : ℕ) (rest values : List ℕ)
    → n < 2 ^ 32
    → scan_fields (suc k) rest ≡ some values
    → scan_fields (suc (suc k)) (bracket n rest) ≡ some (n ∷ values)
unfolding scan_fields
scan_more k n rest values small h = ground (arith, scan_field-bracket n rest small, h)

-- What a line can hold: numbers of 32 bits, and a text with no zero and no newline that fits into
-- `localBuf` with its brackets.
pub record IsLogged (e : Entry) : Type 0 where
  pub id_small : e.id < 2 ^ 32
  pub tick_small : e.tick < 2 ^ 32
  pub sec_small : e.sec < 2 ^ 32
  pub nsec_small : e.nsec < 2 ^ 32
  pub level_small : e.level < 2 ^ 32
  pub text : IsLine e.msg
  pub fits : length (line_of e) ≤ 256

pub scan_fields-line_of :
    (e : Entry)
    → IsLogged e
    → scan_fields 5 (line_of e) ≡ some (e.id ∷ e.tick ∷ e.sec ∷ e.nsec ∷ e.level ∷ [])
scan_fields-line_of e h = scan_more 3 e.id _ _ h.id_small (
    scan_more 2 e.tick _ _ h.tick_small (
      scan_more 1 e.sec _ _ h.sec_small
        (scan_more 0 e.nsec _ _ h.nsec_small (scan_last e.level (e.msg ++ 10 ∷ []) h.level_small))))

-- The line without its newline.
abbrev pub body_of : Entry → List ℕ
body_of e = bracket e.id (bracket e.tick (bracket e.sec (bracket e.nsec (bracket e.level e.msg))))

bracket-append : (n : ℕ) (rest : List ℕ) → bracket n rest ++ 10 ∷ [] ≡ bracket n (rest ++ 10 ∷ [])
bracket-append n rest = ap (◌∷◌ 91) (append_assoc (print_number n) (93 ∷ 32 ∷ rest) (10 ∷ []))

pub body_of_line : (e : Entry) → body_of e ++ 10 ∷ [] ≡ line_of e
body_of_line e =
    bracket-append e.id _
    ∙ ap (bracket e.id) (
        bracket-append e.tick _
        ∙ ap (bracket e.tick) (
            bracket-append e.sec _
            ∙ ap (bracket e.sec)
                (bracket-append e.nsec _ ∙ ap (bracket e.nsec) (bracket-append e.level e.msg))))

digits_one :
    (fuel n : ℕ) (rest : List ℕ) → ltb n 10 ≡ true → (48 + n) ∷ rest ≡ digits (suc fuel) n ++ rest
unfolding digits
digits_one fuel n rest one = ground (arith, one)

digits_more :
    (fuel n : ℕ) (rest : List ℕ)
    → ltb n 10 ≡ false
    → digits fuel (n / 10) ++ (48 + n % 10) ∷ rest ≡ digits (suc fuel) n ++ rest
unfolding digits
digits_more fuel n rest more =
    ground (arith, more, append_assoc (digits fuel (n / 10)) ((48 + n % 10) ∷ []) rest)

digits-IsLine : (fuel n : ℕ) (rest : List ℕ) → IsLine rest → IsLine (digits fuel n ++ rest)
unfolding digits
digits-IsLine zero n rest h = h
digits-IsLine (suc fuel) n rest h = elim (Bool-cases (ltb n 10)) [
  | inl one ↦ subst IsLine (digits_one fuel n rest one) (omega arith, ground arith, h)
  | inr more ↦
      subst IsLine (digits_more fuel n rest more)
        (digits-IsLine fuel (n / 10) ((48 + n % 10) ∷ rest) (omega arith, ground arith, h))
]

bracket-IsLine : (n : ℕ) (rest : List ℕ) → IsLine rest → IsLine (bracket n rest)
bracket-IsLine n rest h = (
  omega arith,
  refl,
  digits-IsLine (suc n) n (93 ∷ 32 ∷ rest) (omega arith, refl, (omega arith, refl, h)),
)

pub body_of-IsLine : (e : Entry) → IsLine e.msg → IsLine (body_of e)
body_of-IsLine e h = bracket-IsLine e.id _ (
    bracket-IsLine e.tick _
      (bracket-IsLine e.sec _ (bracket-IsLine e.nsec _ (bracket-IsLine e.level e.msg h))))

skips_digit : (c : ℕ) (rest : List ℕ) → c < 58 → behind_bracket (c ∷ rest) ≡ behind_bracket rest
unfolding behind_bracket
skips_digit c rest small = ground arith

skips_digits :
    (fuel n : ℕ) (rest : List ℕ) → behind_bracket (digits fuel n ++ rest) ≡ behind_bracket rest
unfolding digits
skips_digits zero n rest = refl
skips_digits (suc fuel) n rest = elim (Bool-cases (ltb n 10)) [
  | inl one ↦ ground (arith, one, skips_digit (48 + n) rest)
  | inr more ↦ ground (
    arith,
    more,
    append_assoc (digits fuel (n / 10)) ((48 + n % 10) ∷ []) rest,
    skips_digits fuel (n / 10) ((48 + n % 10) ∷ rest),
    skips_digit (48 + n % 10) rest,
  )
]

behind_bracket-bracket : (n : ℕ) (rest : List ℕ) → behind_bracket (bracket n rest) ≡ some rest
unfolding behind_bracket
behind_bracket-bracket n rest = ground (arith, skips_digits (suc n) n (93 ∷ 32 ∷ rest))

message_more :
    (k n : ℕ) (rest : List ℕ) → message_start (suc k) (bracket n rest) ≡ message_start k rest
unfolding message_start
message_more k n rest = ground (arith, behind_bracket-bracket n rest)

message_end : (text : List ℕ) → message_start 0 text ≡ some text
unfolding message_start
message_end text = refl

pub message_start-line_of : (e : Entry) → message_start 5 (line_of e) ≡ some (e.msg ++ 10 ∷ [])
message_start-line_of e =
    message_more 4 e.id _
    ∙ message_more 3 e.tick _
    ∙ message_more 2 e.sec _
    ∙ message_more 1 e.nsec _
    ∙ message_more 0 e.level (e.msg ++ 10 ∷ [])
    ∙ message_end (e.msg ++ 10 ∷ [])
