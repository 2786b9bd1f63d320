-- ===== src/Filesys.antt =====
-- app/src/plc_filesys.c: the creation of the directories along a path and of a file.
-- The calls of the C library on files are a parameter.
pub mod Directories
pub mod Unmade
pub mod Volumes
pub mod Example
pub mod Checks
use beremiz4u_c.Common.{
  ℕ, zero, suc, ◌≡◌, ◌≢◌, Bool, true, false, List, [], ◌∷◌, ◌++◌, Option, none, some, ◌==◌,
  if◌then◌else◌, take, before_last_slash, ℤ, pos, minus, is_negative, enomem, eexist, enotdir,
  einval,
}

abbrev pub Bytes : Type 0
Bytes = List ℕ

-- What `stat` tells of the mode.
pub data Kind : Type 0 where
  directory regular other : Kind

-- `stat` answers `none` where it answers -1. `mkdir` and `fopen` (for writing, and closed again)
-- answer 0 or the error number.
pub record Files (F : Type 0) : Type 0 where
  pub stat : Bytes → F → Option Kind
  pub mkdir : Bytes → F → F × ℕ
  pub create : Bytes → F → F × ℕ
  pub stat-mkdir :
      (path : Bytes) (f : F) → (mkdir path f).1 ≡ 0 → stat path (mkdir path f).0 ≡ some directory
  pub stat-mkdir_other : (path p : Bytes) (f : F) → path ≢ p → stat p (mkdir path f).0 ≡ stat p f
  pub stat-mkdir_kept :
      (path p : Bytes) (f : F) (kind : Kind)
      → stat p f ≡ some kind
      → stat p (mkdir path f).0 ≡ some kind
  pub mkdir_fails : (path : Bytes) (f : F) → (mkdir path f).1 ≢ 0 → (mkdir path f).0 ≡ f

-- `directoryCreated`: 0, 1 or -1.
pub data Created : Type 0 where
  not_created was_created already_there : Created

abbrev pub is_directory : Kind → Bool
is_directory directory = true
is_directory regular = false
is_directory other = false

-- What a round of the loop leaves: the files, with an error to return, or with `directoryCreated` and
-- the mode in `st`.
pub data Round (F : Type 0) : Type 0 where
  stop : F → ℤ → Round F
  go : F → Created → Kind → Round F

module _ {F : Type 0} (k : Files F) where
  unfoldable pub made : F → Kind → F × ℕ → Round F
  made f st (g, zero) = go g was_created st
  made f st (g, suc e) = if suc e == eexist then go g already_there st else stop g (minus (suc e))

  -- The body of the loop at a slash, with the path in front of it.
  unfoldable pub check_directory : Bytes → F → Created → Kind → Round F
  unfolding made
  check_directory path f created st = elim (k.stat path f) [
    | none ↦ made f st (k.mkdir path f)
    | some kind ↦ if is_directory kind then go f created kind else stop f (minus enotdir)
  ]

  -- The loop, with what it has passed and what is left.
  unfoldable pub along : Bytes → Bytes → Round F → Round F
  along before [] round = round
  along before (c ∷ rest) (stop f e) = stop f e
  along before (c ∷ rest) (go f created st) =
      let here = check_directory before f created st in
      let next = along (before ++ c ∷ []) rest (if c == 47 then here else go f created st) in next

  unfoldable pub last_made : F × ℕ → F × ℤ
  last_made (g, zero) = (g, pos 0)
  last_made (g, suc e) = if suc e == eexist then (g, pos 1) else (g, minus (suc e))

  abbrev pub verdict : Created → ℤ
  verdict was_created = pos 0
  verdict not_created = pos 1
  verdict already_there = pos 1

  -- Behind the loop: the whole path, where no directory was created on the way, and the test of `st`.
  unfoldable pub finish_path : Bytes → Round F → F × ℤ
  unfolding last_made
  finish_path path (stop f e) = (f, e)
  finish_path path (go f not_created st) = elim (k.stat path f) [
    | none ↦ last_made (k.mkdir path f)
    | some kind ↦ (f, if is_directory kind then verdict not_created else minus enotdir)
  ]
  finish_path path (go f was_created st) =
      (f, if is_directory st then verdict was_created else minus enotdir)
  finish_path path (go f already_there st) =
      (f, if is_directory st then verdict already_there else minus enotdir)

  -- `create_directories`. The mode in `st` that is not set is an argument. The loop starts behind the
  -- first character; what the code reads behind an empty path is taken to be a zero.
  unfoldable pub create_directories : Kind → Bytes → F → F × ℤ
  unfolding finish_path along
  create_directories unset [] f = finish_path [] (go f not_created unset)
  create_directories unset (c ∷ path) f =
      finish_path (c ∷ take 254 path) (along (c ∷ []) (take 254 path) (go f not_created unset))

  unfoldable pub check_and_create_path : Kind → Option Bytes → F → F × ℤ
  unfolding create_directories
  check_and_create_path unset none f = (f, minus einval)
  check_and_create_path unset (some []) f = (f, minus einval)
  check_and_create_path unset (some (c ∷ path)) f = create_directories unset (c ∷ path) f

  write_file : F × ℕ → F × ℤ
  write_file (g, zero) = (g, pos 1)
  write_file (g, suc e) = (g, minus (suc e))

  in_directory : Bytes → F × ℤ → F × ℤ
  unfolding write_file
  in_directory filepath (g, e) = if is_negative e then (g, e) else write_file (k.create filepath g)

  -- `check_and_create_file`; `alloc` tells whether `plc_strdup` has memory.
  unfoldable pub check_and_create_file : Kind → Bool → Bytes → F → F × ℤ
  unfolding in_directory
  check_and_create_file unset alloc filepath f = elim (k.stat filepath f) [
    | some regular ↦ (f, pos 0)
    | some directory ↦ (f, minus eexist)
    | some other ↦ (f, minus eexist)
    | none ↦
        if alloc
        then elim (before_last_slash filepath) [
          | some dir_path ↦ in_directory filepath (create_directories unset dir_path f)
          | none ↦ write_file (k.create filepath f)
        ]
        else (f, minus enomem)
  ]
