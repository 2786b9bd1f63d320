-- ===== src/Shell/Lines.antt =====
-- app/src/plc_cli.c, `cmd_run` and `cmd_cat`: the lines of a script and the parts of a printed file.
use beremiz4u_c.Common.{
  fgets, fgets-whole, fgets-shorter, fgets-line, IsLine, ℕ, zero, suc, ◌+◌, ◌≤◌, ◌<◌, ◌≡◌, refl, ap,
  ◌∙◌, Bool, false, joined, List, [], ◌∷◌, ◌++◌, map, Option, some, inl, inr, ◌==◌, if◌then◌else◌,
  arith, length, length-append, take, drop, take-append-drop, length-drop, Bool-cases, ℤ, pos,
  is_negative,
}
use beremiz4u_c.Settings.{c_string}
use beremiz4u_c.Settings.Bytes.{NoZero}
use beremiz4u_c.Shell.{Bytes, Vfs, Shell, create_full_path, max_path_len}
use beremiz4u_c.Shell.Commands.{print, cat_texts, cmd_cat}
use beremiz4u_c.Shell.Script.{
  lines_of, without_newline, is_skipped, has_shebang, run_script, opened, run_lines, cmd_run,
}

lines_of-joined : (fuel : ℕ) (s : Bytes) → length s ≤ fuel → joined (lines_of fuel s) ≡ s
unfolding lines_of
lines_of-joined zero [] h = refl
lines_of-joined zero (b ∷ s) h = absurd (omega arith)
lines_of-joined (suc fuel) [] h = refl
lines_of-joined (suc fuel) (b ∷ s) h =
    ap (◌++◌ (fgets 127 (b ∷ s)).0)
      (lines_of-joined fuel (fgets 127 (b ∷ s)).1 (omega (arith, fgets-shorter 126 b s, h)))
    ∙ fgets-whole 127 (b ∷ s)

lines_of_next :
    (fuel : ℕ) (s : Bytes)
    → 0 < length s
    → lines_of (suc fuel) s ≡ (fgets 127 s).0 ∷ lines_of fuel (fgets 127 s).1
unfolding lines_of
lines_of_next fuel [] h = elim h [ ]
lines_of_next fuel (b ∷ s) h = refl

-- Lines that are short enough for one read.
abbrev pub AreLines : List Bytes → Type 0
AreLines [] = Unit {0}
AreLines (l ∷ ls) = (IsLine l × (length l ≤ 126)) × AreLines ls

-- The text of a file whose lines these are.
abbrev pub unlines : List Bytes → Bytes
unlines [] = []
unlines (l ∷ ls) = (l ++ 10 ∷ []) ++ unlines ls

c_string-line : (l : Bytes) → IsLine l → c_string (l ++ 10 ∷ []) ≡ l ++ 10 ∷ []
c_string-line [] h = refl
c_string-line (zero ∷ l) h = absurd (omega (arith, h.0))
c_string-line (suc c ∷ l) h = ap (◌∷◌ (suc c)) (c_string-line l h.2)

without_newline-line : (l : Bytes) → without_newline (l ++ 10 ∷ []) ≡ l
unfolding without_newline
without_newline-line [] = refl
without_newline-line (c ∷ []) = refl
without_newline-line (c ∷ d ∷ l) = ap (◌∷◌ c) (without_newline-line (d ∷ l))

lines_of-unlines :
    (fuel : ℕ) (ls : List Bytes)
    → AreLines ls
    → length (unlines ls) ≤ fuel
    → lines_of fuel (unlines ls) ≡ map (λ l. l ++ 10 ∷ []) ls
unfolding lines_of
lines_of-unlines zero [] h enough = refl
lines_of-unlines (suc fuel) [] h enough = refl
lines_of-unlines zero (l ∷ ls) h enough =
    absurd
      (omega (arith, enough, length-append (l ++ 10 ∷ []) (unlines ls), length-append l (10 ∷ [])))
lines_of-unlines (suc fuel) (l ∷ ls) h enough =
    let whole : length (unlines (l ∷ ls)) ≡ length l + 1 + length (unlines ls) =
      omega (arith, length-append (l ++ 10 ∷ []) (unlines ls), length-append l (10 ∷ [])) in
    lines_of_next fuel (unlines (l ∷ ls)) (omega (arith, whole))
    ∙ ap (λ r. r.0 ∷ lines_of fuel r.1) (fgets-line 127 l (unlines ls) h.0.0 (omega (arith, h.0.1)))
    ∙ ap (◌∷◌ (l ++ 10 ∷ [])) (lines_of-unlines fuel ls h.1 (omega (arith, whole, enough)))

abbrev pub starts_with_hash : Bytes → Bool
starts_with_hash [] = false
starts_with_hash (c ∷ s) = c == 35

skipped-line : (l : Bytes) → is_skipped (l ++ 10 ∷ []) ≡ starts_with_hash l
unfolding is_skipped
skipped-line [] = refl
skipped-line (c ∷ l) = refl

-- The lines that are no comment.
abbrev pub commands : List Bytes → List Bytes
commands [] = []
commands (l ∷ ls) = if starts_with_hash l then commands ls else l ∷ commands ls

module _ {S : Type 0} (shell_execute_cmd : Bytes → S → S × ℤ) where
  -- Commands one after the other, up to the first that answers an error.
  abbrev pub in_order : List Bytes → ℤ → S → S × ℤ
  in_order [] ret s = (s, ret)
  in_order (c ∷ cs) ret s =
      let done = shell_execute_cmd c s in
      let further = in_order cs done.1 done.0 in if is_negative done.1 then done else further

  run_lines-in_order :
      (ls : List Bytes) (ret : ℤ) (s : S)
      → AreLines ls
      → run_lines shell_execute_cmd (map (λ l. l ++ 10 ∷ []) ls) ret s
        ≡ in_order (commands ls) ret s
  unfolding run_lines
  run_lines-in_order [] ret s h = refl
  run_lines-in_order (l ∷ ls) ret s h =
      let kept = run_lines-in_order ls ret s h.1 in
      let done = shell_execute_cmd l s in
      let further = run_lines-in_order ls done.1 done.0 h.1 in
      elim (Bool-cases (starts_with_hash l)) [
        | inl comment ↦
            rw (c_string-line l h.0.0, without_newline-line l, skipped-line l, comment) kept
        | inr command ↦ elim (Bool-cases (is_negative done.1)) [
          | inl failed ↦
              rw (c_string-line l h.0.0, without_newline-line l, skipped-line l, command, failed)
          | inr went_on ↦
              rw (c_string-line l h.0.0, without_newline-line l, skipped-line l, command, went_on)
                further
        ]
      ]

  -- For a file that starts with a line "#!…" and whose lines have at most 126 characters, none of
  -- them zero: `cmd_run` executes the lines that do not start with "#", in order and empty lines
  -- included, until one answers a negative code or the file ends, and answers the last code.
  pub cmd_run-in_order :
      (fopen : Bytes → S → Option Bytes) (script_path first : Bytes) (ls : List Bytes) (s : S)
      → AreLines ((35 ∷ 33 ∷ first) ∷ ls)
      → fopen script_path s ≡ some (unlines ((35 ∷ 33 ∷ first) ∷ ls))
      → cmd_run shell_execute_cmd fopen (script_path ∷ []) s ≡ in_order (commands ls) (pos 0) s
  unfolding cmd_run opened run_script run_lines has_shebang
  cmd_run-in_order fopen script_path first ls s h found =
      let all = (35 ∷ 33 ∷ first) ∷ ls in
      ap (λ o. opened shell_execute_cmd o s) found
      ∙ ap (λ l. run_script shell_execute_cmd l s)
          (lines_of-unlines (length (unlines all)) all h (omega arith))
      ∙ run_lines-in_order ls (pos 0) s h.1

c_string-NoZero : (s : Bytes) → NoZero s → c_string s ≡ s
c_string-NoZero [] h = refl
c_string-NoZero (zero ∷ s) h = absurd (omega (arith, h.0))
c_string-NoZero (suc c ∷ s) h = ap (◌∷◌ (suc c)) (c_string-NoZero s h.1)

take-NoZero : (n : ℕ) (s : Bytes) → NoZero s → NoZero (take n s)
take-NoZero zero s h = tt
take-NoZero (suc n) [] h = tt
take-NoZero (suc n) (c ∷ s) h = (h.0, take-NoZero n s h.1)

drop-NoZero : (n : ℕ) (s : Bytes) → NoZero s → NoZero (drop n s)
drop-NoZero zero s h = h
drop-NoZero (suc n) [] h = tt
drop-NoZero (suc n) (c ∷ s) h = drop-NoZero n s h.1

cat_texts-joined :
    (fuel : ℕ) (s : Bytes) → NoZero s → length s ≤ fuel → joined (cat_texts fuel s) ≡ s
unfolding cat_texts
cat_texts-joined zero [] h enough = refl
cat_texts-joined zero (b ∷ s) h enough = absurd (omega arith)
cat_texts-joined (suc fuel) [] h enough = refl
cat_texts-joined (suc fuel) (b ∷ s) h enough =
    let text = c_string-NoZero (take 127 (b ∷ s)) (take-NoZero 127 (b ∷ s) h) in
    let left : length (drop 127 (b ∷ s)) ≤ fuel = omega (arith, length-drop 127 (b ∷ s), enough) in
    ap (λ t. t ++ joined (cat_texts fuel (drop 127 (b ∷ s)))) text
    ∙ ap (◌++◌ (take 127 (b ∷ s)))
        (cat_texts-joined fuel (drop 127 (b ∷ s)) (drop-NoZero 127 (b ∷ s) h) left)
    ∙ take-append-drop 127 (b ∷ s)

-- Where the file can be opened and holds no zero, `cat` prints texts that make up the whole file, and
-- changes nothing else.
pub cmd_cat-joined :
    {F : Type 0} (k : Vfs F) (arg : Bytes) (s : Shell F)
    → k.fs_open_read (create_full_path s.cwd arg max_path_len) s.files ≡ pos 0
    → NoZero (k.content (create_full_path s.cwd arg max_path_len) s.files)
    → (texts : List Bytes) × (cmd_cat k (arg ∷ []) s ≡ (print texts s, pos 0))
      × (joined texts ≡ k.content (create_full_path s.cwd arg max_path_len) s.files)
unfolding cmd_cat
cmd_cat-joined k arg s opens h =
    let bytes = k.content (create_full_path s.cwd arg max_path_len) s.files in
    (
      cat_texts (length bytes) bytes,
      rw (opens),
      cat_texts-joined (length bytes) bytes h (omega arith),
    )
