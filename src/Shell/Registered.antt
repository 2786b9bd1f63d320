-- ===== src/Shell/Registered.antt =====
-- app/src/plc_cli.c: the table of the commands, and a call of one by the shell of the kernel.
-- The commands `free` and `show_ip`, which only show something, are left out.
use beremiz4u_c.Common.{
  ℕ, suc, ◌+◌, ◌≡◌, refl, sym, subst, ap₂, ◌∙◌, Bool, false, ◌&&◌, List, [], ◌∷◌, Option, none,
  some, inl, inr, leb, if◌then◌else◌, arith, length, Bool-cases, ℤ, pos,
}
use beremiz4u_c.Filesys.{Files, Kind}
use beremiz4u_c.Filesys.Volumes.{Volumes}
use beremiz4u_c.Shell.{Bytes, Vfs, Shell, cmd_cd}
use beremiz4u_c.Shell.Commands.{
  cmd_pwd, cmd_touch, cmd_rm, cmd_mkdir, cmd_rmdir, cmd_mv, cmd_cat, cmd_ls, list_directory,
  cmd_check_path, cmd_check_file, cmd_format_lfs, cmd_mount, cmd_unmount, cmd_show_or_set_settings,
}
use beremiz4u_c.Shell.Script.{cmd_run}
use beremiz4u_c.Shell.Paths.{IsCwd}
use beremiz4u_c.Shell.Directory.{either, cmd_cd-IsCwd}

pub data Command : Type 0 where
  ls format pwd touch rm cat cd mount unmount : Command
  check_path check_file settings mkdir rmdir mv run : Command

-- How many arguments a command must have, its name among them, and how many more it may have.
unfoldable pub mandatory : Command → ℕ
mandatory ls = 1
mandatory format = 1
mandatory pwd = 1
mandatory touch = 2
mandatory rm = 2
mandatory cat = 2
mandatory cd = 2
mandatory mount = 1
mandatory unmount = 1
mandatory check_path = 2
mandatory check_file = 2
mandatory settings = 1
mandatory mkdir = 1
mandatory rmdir = 1
mandatory mv = 1
mandatory run = 1

unfoldable pub optional : Command → ℕ
optional ls = 1
optional format = 0
optional pwd = 0
optional touch = 0
optional rm = 0
optional cat = 0
optional cd = 0
optional mount = 0
optional unmount = 0
optional check_path = 0
optional check_file = 0
optional settings = 0
optional mkdir = 0
optional rmdir = 0
optional mv = 0
optional run = 0

-- A command registered with its name alone, but for those that need no argument.
pub data TakesNone : Command → Type 0 where
  settings_alone : TakesNone settings
  mkdir_alone : TakesNone mkdir
  rmdir_alone : TakesNone rmdir
  mv_alone : TakesNone mv
  run_alone : TakesNone run

-- What the commands stand on. `accepts` is the test of the kernel's shell on the number of arguments,
-- and `refusal` its answer; `shell_execute_cmd` executes a line.
pub record Kernel (F : Type 0) : Type 0 where
  pub vfs : Vfs F
  pub posix : Files F
  pub volumes : Volumes F
  pub name_max : ℕ
  pub unset : Kind
  pub alloc : Bool
  pub fopen : Bytes → Shell F → Option Bytes
  pub shell_execute_cmd : Bytes → Shell F → Shell F × ℤ
  pub accepts : ℕ → ℕ → ℕ → Bool
  pub refusal : ℤ
  pub accepts_range : (m o argc : ℕ) → accepts m o argc ≡ (leb m argc && leb argc (m + o))

module _ {F : Type 0} (k : Kernel F) where
  abbrev pub first : List Bytes → Option Bytes
  first [] = none
  first (arg ∷ args) = some arg

  -- `check_file` is not called without an argument.
  abbrev pub checked_file : Option Bytes → Shell F → Shell F × ℤ
  checked_file none s = (s, pos 0)
  checked_file (some arg) s = cmd_check_file k.posix k.unset k.alloc arg s

  unfoldable pub handler : Command → List Bytes → Shell F → Shell F × ℤ
  handler ls args s = cmd_ls k.vfs k.posix k.name_max args s
  handler format args s = cmd_format_lfs k.volumes args s
  handler pwd args s = cmd_pwd k.vfs args s
  handler touch args s = cmd_touch k.vfs args s
  handler rm args s = cmd_rm k.vfs args s
  handler cat args s = cmd_cat k.vfs args s
  handler cd args s = cmd_cd k.vfs args s
  handler mount args s = cmd_mount k.volumes args s
  handler unmount args s = cmd_unmount k.volumes args s
  handler check_path args s = cmd_check_path k.posix k.unset k.alloc (first args) s
  handler check_file args s = checked_file (first args) s
  handler settings args s = cmd_show_or_set_settings args s
  handler mkdir args s = cmd_mkdir k.vfs args s
  handler rmdir args s = cmd_rmdir k.vfs args s
  handler mv args s = cmd_mv k.vfs args s
  handler run args s = cmd_run k.shell_execute_cmd k.fopen args s

  -- The shell calls the handler where the number of arguments is in range.
  unfoldable pub call : Command → List Bytes → Shell F → Shell F × ℤ
  call c args s =
      if k.accepts (mandatory c) (optional c) (suc (length args))
      then handler c args s
      else (s, k.refusal)

  unfoldable pub calls : List (Command × List Bytes) → Shell F → Shell F
  calls [] s = s
  calls ((c, args) ∷ more) s = calls more (call c args s).0

  registered : (c : Command) → TakesNone c → (mandatory c ≡ 1) × (optional c ≡ 0)
  unfolding mandatory optional
  registered c settings_alone = (refl, refl)
  registered c mkdir_alone = (refl, refl)
  registered c rmdir_alone = (refl, refl)
  registered c mv_alone = (refl, refl)
  registered c run_alone = (refl, refl)

  out_of_range : (n : ℕ) → (leb 1 (suc (suc n)) && leb (suc (suc n)) (1 + 0)) ≡ false
  out_of_range n = ground arith

  refused :
      (c : Command) (arg : Bytes) (args : List Bytes)
      → TakesNone c
      → k.accepts (mandatory c) (optional c) (suc (suc (length args))) ≡ false
  refused c arg args h =
      let size = suc (suc (length args)) in
      ap₂ (λ m o. k.accepts m o size) (registered c h).0 (registered c h).1
      ∙ k.accepts_range 1 0 size
      ∙ out_of_range (length args)

  does_nothing : (c : Command) (s : Shell F) → TakesNone c → (handler c [] s).0 ≡ s
  unfolding handler cmd_show_or_set_settings cmd_mkdir cmd_rmdir cmd_mv cmd_run
  does_nothing c s settings_alone = refl
  does_nothing c s mkdir_alone = refl
  does_nothing c s rmdir_alone = refl
  does_nothing c s mv_alone = refl
  does_nothing c s run_alone = refl

  -- `settings`, `mkdir`, `rmdir`, `mv` and `run` change nothing, whatever their arguments: they are
  -- registered with no argument, and with none their handlers do nothing.
  pub call-TakesNone :
      (c : Command) (args : List Bytes) (s : Shell F) → TakesNone c → (call c args s).0 ≡ s
  unfolding call
  call-TakesNone c [] s h = elim (Bool-cases (k.accepts (mandatory c) (optional c) 1)) [
    | inl taken ↦ rw (taken) (does_nothing c s h)
    | inr turned_away ↦ rw (turned_away)
  ]
  call-TakesNone c (arg ∷ args) s h = rw (refused c arg args h)

  unchanged :
      (c : Command) (args : List Bytes) (s : Shell F)
      → TakesNone c
      → IsCwd s.cwd
      → IsCwd (call c args s).0.cwd
  unchanged c args s h = subst (λ t. IsCwd t.cwd) (sym (call-TakesNone c args s h))

  call-IsCwd :
      (c : Command) (args : List Bytes) (s : Shell F) → IsCwd s.cwd → IsCwd (call c args s).0.cwd
  unfolding call handler cmd_ls list_directory cmd_format_lfs cmd_pwd cmd_touch cmd_rm cmd_cat
      cmd_mount cmd_unmount cmd_check_path cmd_check_file
  call-IsCwd ls [] s i = either _ (handler ls [] s) (s, k.refusal) (either _ _ _ i i) i
  call-IsCwd ls (arg ∷ args) s i =
      either _ (handler ls (arg ∷ args) s) (s, k.refusal) (either _ _ _ i i) i
  call-IsCwd format args s i = either _ (handler format args s) (s, k.refusal) (either _ _ _ i i) i
  call-IsCwd pwd args s i = either _ (handler pwd args s) (s, k.refusal) i i
  call-IsCwd touch [] s i = either _ (handler touch [] s) (s, k.refusal) i i
  call-IsCwd touch (arg ∷ args) s i = either _ (handler touch (arg ∷ args) s) (s, k.refusal) i i
  call-IsCwd rm [] s i = either _ (handler rm [] s) (s, k.refusal) i i
  call-IsCwd rm (arg ∷ args) s i = either _ (handler rm (arg ∷ args) s) (s, k.refusal) i i
  call-IsCwd cat [] s i = either _ (handler cat [] s) (s, k.refusal) i i
  call-IsCwd cat (arg ∷ args) s i =
      either _ (handler cat (arg ∷ args) s) (s, k.refusal) (either _ _ _ i i) i
  call-IsCwd cd args s i =
      either _ (handler cd args s) (s, k.refusal) (cmd_cd-IsCwd k.vfs args s i) i
  call-IsCwd mount args s i = either _ (handler mount args s) (s, k.refusal) (either _ _ _ i i) i
  call-IsCwd unmount args s i = either _ (handler unmount args s) (s, k.refusal) i i
  call-IsCwd check_path args s i = either _ (handler check_path args s) (s, k.refusal) i i
  call-IsCwd check_file [] s i = either _ (handler check_file [] s) (s, k.refusal) i i
  call-IsCwd check_file (arg ∷ args) s i =
      either _ (handler check_file (arg ∷ args) s) (s, k.refusal) i i
  call-IsCwd settings args s i = unchanged settings args s settings_alone i
  call-IsCwd mkdir args s i = unchanged mkdir args s mkdir_alone i
  call-IsCwd rmdir args s i = unchanged rmdir args s rmdir_alone i
  call-IsCwd mv args s i = unchanged mv args s mv_alone i
  call-IsCwd run args s i = unchanged run args s run_alone i

  -- Whatever commands are called, the working directory stays a text that starts with a slash and
  -- fits its array.
  pub calls-IsCwd :
      (cs : List (Command × List Bytes)) (s : Shell F) → IsCwd s.cwd → IsCwd (calls cs s).cwd
  unfolding calls
  calls-IsCwd [] s h = h
  calls-IsCwd ((c, args) ∷ cs) s h = calls-IsCwd cs (call c args s).0 (call-IsCwd c args s h)
