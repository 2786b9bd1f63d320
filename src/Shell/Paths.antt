-- ===== src/Shell/Paths.antt =====
-- app/src/plc_cli.c, `create_abs_path`: the path as a text.
use beremiz4u_c.Common.{
  ℕ, zero, suc, ◌+◌, ◌-◌, ◌≤◌, ◌≡◌, sym, ap, ◌∙◌, true, [], ◌∷◌, ◌++◌, append-nil, inl, inr, ◌==◌,
  leb, if◌then◌else◌, arith, length, take, take_le, Bool-cases, ==_iff,
}
use beremiz4u_c.Shell.{Bytes, starts_with_slash, attach, create_abs_path, max_path_len}

-- A text that may stand in the working directory: it starts with a slash and fits the array.
abbrev pub IsCwd : Bytes → Type 0
IsCwd s = (starts_with_slash s ≡ true) × (length s ≤ 127)

-- A path, absolute or below the working directory.
abbrev pub joined : Bytes → Bytes → Bytes
joined cwd name =
    if starts_with_slash name
    then name
    else if leb (length cwd) 1
    then 47 ∷ name
    else cwd ++ 47 ∷ name

take_over :
    (xs ys : Bytes) (n : ℕ) → length xs ≤ n → take n (xs ++ ys) ≡ xs ++ take (n - length xs) ys
take_over [] ys n h = ap (λ m. take m ys) (omega arith)
take_over (x ∷ xs) ys zero h = absurd (omega arith)
take_over (x ∷ xs) ys (suc n) h =
    ap (◌∷◌ x) (take_over xs ys n (omega arith) ∙ ap (λ m. xs ++ take m ys) (omega arith))

room :
    (cwd name : Bytes)
    → length cwd ≤ 126
    → take (127 - length cwd) (47 ∷ name) ≡ 47 ∷ take (128 - (length cwd + 1) - 1) name
room cwd name h =
    let size : 127 - length cwd ≡ suc (128 - (length cwd + 1) - 1) = omega arith in
    ap (λ m. take m (47 ∷ name)) size

attach_full : (cwd name : Bytes) → length cwd ≡ 127 → attach cwd name 128 ≡ cwd
unfolding attach
attach_full cwd name h = ground (arith, h)

attach_room :
    (cwd name : Bytes)
    → length cwd ≤ 126
    → attach cwd name 128 ≡ cwd ++ 47 ∷ take (128 - (length cwd + 1) - 1) name
unfolding attach
attach_room cwd name h = ground (arith, h)

attach_lem :
    (cwd name : Bytes) → length cwd ≤ 127 → attach cwd name 128 ≡ take 127 (cwd ++ 47 ∷ name)
attach_lem cwd name fits = elim (Bool-cases (length cwd == 127)) [
  | inl full ↦
      let size : length cwd ≡ 127 = (==_iff (length cwd) 127).0 full in
      let nothing : 127 - length cwd ≡ 0 = omega (arith, size) in
      attach_full cwd name size
      ∙ sym (append-nil cwd)
      ∙ ap (λ m. cwd ++ take m (47 ∷ name)) (sym nothing)
      ∙ sym (take_over cwd (47 ∷ name) 127 fits)
  | inr some_left ↦
      let short : length cwd ≤ 126 = ground (arith, some_left, fits) in
      attach_room cwd name short
      ∙ ap (λ s. cwd ++ s) (sym (room cwd name short))
      ∙ sym (take_over cwd (47 ∷ name) 127 fits)
]

-- For a working directory that is a text of its array, `create_abs_path` makes the first 127
-- characters of the path, whether the name is absolute, the directory is the root, or neither.
pub create_abs_path_lem :
    (cwd name : Bytes)
    → IsCwd cwd
    → create_abs_path cwd name max_path_len ≡ take 127 (joined cwd name)
unfolding create_abs_path
create_abs_path_lem cwd name h = elim (Bool-cases (starts_with_slash name)) [
  | inl absolute ↦ rw (absolute)
  | inr relative ↦ elim (Bool-cases (leb (length cwd) 1)) [
    | inl at_root ↦ rw (relative, at_root)
    | inr inside ↦
        rw (relative, inside)
          (ap (λ s. attach s name 128) (take_le 127 cwd h.1) ∙ attach_lem cwd name h.1)
  ]
]
