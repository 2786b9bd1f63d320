-- ===== src/Shell/Checks.antt =====
-- The shell at concrete states, in a file system at work.
use beremiz4u_c.Common.{
  ◌+◌, ◌≡◌, refl, Bool, true, false, ◌&&◌, List, [], ◌∷◌, ◌++◌, Option, none, some, leb, arith,
  codes, map, ℤ, pos, minus, enoent, einval,
}
use beremiz4u_c.Settings.{initial}
use beremiz4u_c.Filesys.{Kind, directory, regular, other}
use beremiz4u_c.Filesys.Volumes.{Volumes}
use beremiz4u_c.Filesys.Example.{look, listed}
use beremiz4u_c.Shell.{Bytes, Vfs, Shell, root, cmd_cd}
use beremiz4u_c.Shell.Script.{cmd_run}
use beremiz4u_c.Shell.Paths.{IsCwd}
use beremiz4u_c.Shell.Directory.{cmd_cd-up}
use beremiz4u_c.Shell.Lines.{cmd_run-in_order}
use beremiz4u_c.Shell.Registered.{
  cd, mv, touch, Kernel, mv_alone, call, calls, call-TakesNone, calls-IsCwd,
}

abbrev Paths : Type 0
Paths = List (Bytes × Kind)

abbrev is_dir : Option Kind → Option Bool
is_dir none = none
is_dir (some directory) = some true
is_dir (some regular) = some false
is_dir (some other) = some false

unfoldable vfs : Vfs Paths
vfs = record {
  fs_stat = λ p f. is_dir (look p f);
  fs_create = λ p f. ((p, regular) ∷ f, pos 0);
  fs_unlink = λ p f. (f, minus enoent);
  fs_mkdir = λ p f. ((p, directory) ∷ f, pos 0);
  fs_rename = λ p q f. ((q, regular) ∷ f, pos 0);
  fs_open_read = λ p f. pos 0;
  content = λ p f. codes "on";
  fs_opendir = λ p f. pos 0;
  entries = λ p f. map (λ e. e.0) f;
}

abbrev card : Volumes Paths
card = record {
  disk_access_init = λ f. (f, pos 0);
  fs_mount = λ p f. ((p, directory) ∷ f, pos 0);
  fs_unmount = λ p f. (f, pos 0);
  fs_mkfs = λ f. ([], pos 0);
  device_is_ready = λ f. true;
  gpio_pin_get = λ f. 1;
}

abbrev fresh : Shell Paths
fresh = record {
  cwd = root;
  files = (codes "/web", directory) ∷ [];
  memory = initial;
  stored = [];
  output = [];
}

cmd_cd-up_example :
    cmd_cd vfs (codes ".." ∷ []) (cmd_cd vfs (codes "web" ∷ []) fresh).0 ≡ (fresh, pos 0)
unfolding vfs
cmd_cd-up_example =
    cmd_cd-up vfs (codes "web") fresh (refl, omega arith) (refl, (refl, (refl, tt))) refl
      (omega arith) refl

-- A shell that notes each command, and fails at "stop".
abbrev note : Bytes → List Bytes → List Bytes × ℤ
note line done = (done ++ line ∷ [], pos 0)

abbrev script : Bytes
script = codes "#!x" ++ 10 ∷ codes "ls" ++ 10 ∷ codes "#no" ++ 10 ∷ codes "pwd" ++ 10 ∷ []

cmd_run-in_order_example :
    cmd_run note (λ p s. some script) (codes "/s" ∷ []) [] ≡ (codes "ls" ∷ codes "pwd" ∷ [], pos 0)
cmd_run-in_order_example =
    cmd_run-in_order note (λ p s. some script) (codes "/s") (codes "x")
      (codes "ls" ∷ codes "#no" ∷ codes "pwd" ∷ []) []
      (
        ((omega arith, refl, (omega arith, refl, (omega arith, refl, tt))), omega arith),
        (
          ((omega arith, refl, (omega arith, refl, tt)), omega arith),
          (
            ((omega arith, refl, (omega arith, refl, (omega arith, refl, tt))), omega arith),
            (((omega arith, refl, (omega arith, refl, (omega arith, refl, tt))), omega arith), tt),
          ),
        ),
      )
      refl

abbrev kernel : Kernel Paths
kernel = record {
  vfs = vfs;
  posix = listed;
  volumes = card;
  name_max = 32;
  unset = directory;
  alloc = true;
  fopen = λ p s. none;
  shell_execute_cmd = λ line s. (s, pos 0);
  accepts = λ m o argc. leb m argc && leb argc (m + o);
  refusal = minus einval;
  accepts_range = λ m o argc. refl;
}

call-TakesNone_example : (call kernel mv (codes "a" ∷ codes "b" ∷ []) fresh).0 ≡ fresh
call-TakesNone_example = call-TakesNone kernel mv (codes "a" ∷ codes "b" ∷ []) fresh mv_alone

calls-IsCwd_example :
    IsCwd (calls kernel ((cd, codes "web" ∷ []) ∷ (touch, codes "a" ∷ []) ∷ []) fresh).cwd
calls-IsCwd_example =
    calls-IsCwd kernel ((cd, codes "web" ∷ []) ∷ (touch, codes "a" ∷ []) ∷ []) fresh
      (refl, omega arith)
