-- ===== src/Shell/Script.antt =====
-- app/src/plc_cli.c, `cmd_run`: the commands in a file. The file is taken as it is when it is opened.
-- The execution of one command by the shell of the kernel is a parameter.
use beremiz4u_c.Common.{
  fgets, ℕ, zero, suc, Bool, true, false, List, [], ◌∷◌, Option, none, some, ◌==◌, if◌then◌else◌,
  length, ℤ, pos, minus, is_negative, einval, enoent,
}
use beremiz4u_c.Settings.{c_string}
use beremiz4u_c.Shell.{Bytes}

-- The lines that a loop of `fgets` into an array of 128 bytes gives.
unfoldable pub lines_of : ℕ → Bytes → List Bytes
lines_of zero bytes = []
lines_of (suc fuel) [] = []
lines_of (suc fuel) (b ∷ bytes) = let line = fgets 127 (b ∷ bytes) in line.0 ∷ lines_of fuel line.1

-- A text with no newline at its end.
unfoldable pub without_newline : Bytes → Bytes
without_newline [] = []
without_newline (c ∷ []) = if c == 10 then [] else c ∷ []
without_newline (c ∷ d ∷ s) = c ∷ without_newline (d ∷ s)

-- A comment, or no text.
unfoldable pub is_skipped : Bytes → Bool
is_skipped [] = true
is_skipped (c ∷ s) = c == 35

unfoldable pub has_shebang : Bytes → Bool
has_shebang [] = false
has_shebang (c ∷ []) = false
has_shebang (c ∷ d ∷ s) = if c == 35 then d == 33 else false

module _ {S : Type 0} (shell_execute_cmd : Bytes → S → S × ℤ) where
  -- The loop over the lines, from the last code `ret`.
  unfoldable pub run_lines : List Bytes → ℤ → S → S × ℤ
  run_lines [] ret s = (s, ret)
  run_lines (line ∷ lines) ret s =
      let done = shell_execute_cmd (without_newline (c_string line)) s in
      let skipped = run_lines lines ret s in
      let further = run_lines lines done.1 done.0 in
      if is_skipped (c_string line) then skipped else if is_negative done.1 then done else further

  unfoldable pub run_script : List Bytes → S → S × ℤ
  run_script [] s = (s, minus einval)
  run_script (line ∷ lines) s =
      let rest = run_lines lines (pos 0) s in
      if has_shebang (c_string line) then rest else (s, minus einval)

  unfoldable pub opened : Option Bytes → S → S × ℤ
  opened none s = (s, minus enoent)
  opened (some bytes) s = run_script (lines_of (length bytes) bytes) s

  -- `cmd_run`: `fopen` gives the bytes of the file, or none.
  unfoldable pub cmd_run : (Bytes → S → Option Bytes) → List Bytes → S → S × ℤ
  cmd_run fopen [] s = (s, minus einval)
  cmd_run fopen (script_path ∷ []) s = opened (fopen script_path s) s
  cmd_run fopen (script_path ∷ other ∷ args) s = (s, minus einval)
