-- ===== src/Shell.antt =====
-- app/src/plc_cli.c: the working directory of the shell, and the paths that its commands make.
-- A text is its bytes without the zero at its end. The calls of the kernel on files are a parameter.
pub mod Commands
pub mod Script
pub mod Registered
pub mod Paths
pub mod Directory
pub mod Lines
pub mod Checks
use beremiz4u_c.Common.{
  ℕ, ◌+◌, ◌-◌, Bool, true, false, List, [], ◌∷◌, ◌++◌, Option, none, some, ◌==◌, leb, ltb,
  if◌then◌else◌, length, take, codes, before_last_slash, ℤ, pos, minus, enoexec,
}
use beremiz4u_c.Settings.{Memory}
use beremiz4u_c.Settings.Access.{Stored}
use beremiz4u_c.Uploads.{same_bytes}

abbrev pub Bytes : Type 0
Bytes = List ℕ

-- `fs_stat` answers `none` for an error, and whether the entry is a directory. The others answer a
-- code; `fs_create` is `fs_open` for creation, closed again, and `fs_open_read` one for reading,
-- whose bytes are `content`. `entries` are the names that `fs_readdir` gives.
pub record Vfs (F : Type 0) : Type 0 where
  pub fs_stat : Bytes → F → Option Bool
  pub fs_create : Bytes → F → F × ℤ
  pub fs_unlink : Bytes → F → F × ℤ
  pub fs_mkdir : Bytes → F → F × ℤ
  pub fs_rename : Bytes → Bytes → F → F × ℤ
  pub fs_open_read : Bytes → F → ℤ
  pub content : Bytes → F → Bytes
  pub fs_opendir : Bytes → F → ℤ
  pub entries : Bytes → F → List Bytes

-- The working directory, the files, the settings and what was stored of them, and what was printed.
pub record Shell (F : Type 0) : Type 0 where
  pub cwd : Bytes
  pub files : F
  pub memory : Memory
  pub stored : Stored
  pub output : List Bytes

abbrev pub max_path_len : ℕ
max_path_len = 128

abbrev pub root : Bytes
root = 47 ∷ []

-- strncpy(path, s, len) with the last byte of the array set to zero: the text that is read back.
abbrev pub copy_text : Bytes → ℕ → Bytes
copy_text s len = take (len - 1) s

-- snprintf into max_len bytes.
unfoldable pub create_full_path : Bytes → Bytes → ℕ → Bytes
create_full_path base_path name max_len =
    if same_bytes base_path root
    then take (max_len - 1) (47 ∷ name)
    else take (max_len - 1) (base_path ++ 47 ∷ name)

abbrev pub starts_with_slash : Bytes → Bool
starts_with_slash [] = false
starts_with_slash (c ∷ s) = c == 47

-- What follows the working directory in `path`. Where that fills the array but for one byte, the
-- slash takes the last byte, the rest has no room, and the zero is written in place of the slash.
unfoldable pub attach : Bytes → Bytes → ℕ → Bytes
attach path name len =
    let plen = length path in
    if ltb plen len
    then (if len - (plen + 1) == 0 then path else path ++ 47 ∷ copy_text name (len - (plen + 1)))
    else path

-- `create_abs_path`. The test of cwd[1] asks whether the text has at most one character.
unfoldable pub create_abs_path : Bytes → Bytes → ℕ → Bytes
unfolding attach
create_abs_path cwd name len =
    if starts_with_slash name
    then copy_text name len
    else if leb (length cwd) 1
    then 47 ∷ copy_text name (len - 1)
    else attach (copy_text cwd len) name len

abbrev pub parent : Option Bytes → Bytes
parent none = root
parent (some []) = root
parent (some (c ∷ s)) = c ∷ s

module _ {F : Type 0} (k : Vfs F) where
  unfoldable pub enter : Bytes → Option Bool → Shell F → Shell F × ℤ
  enter path none s = (s, minus enoexec)
  enter path (some false) s = (s, minus enoexec)
  enter path (some true) s = (record s { cwd = copy_text path max_path_len }, pos 0)

  -- The arguments are those behind the name of the command.
  unfoldable pub cmd_cd : List Bytes → Shell F → Shell F × ℤ
  unfolding enter create_abs_path
  cmd_cd [] s = (record s { cwd = root }, pos 0)
  cmd_cd (arg ∷ args) s =
      if same_bytes arg (codes "..")
      then (record s { cwd = parent (before_last_slash s.cwd) }, pos 0)
      else (let path = create_abs_path s.cwd arg max_path_len in
          enter path (k.fs_stat path s.files) s)
