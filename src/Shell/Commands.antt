-- ===== src/Shell/Commands.antt =====
-- app/src/plc_cli.c: the commands on files, volumes and settings. Of what they print, the working
-- directory, the names of a listing and the bytes of a file are kept.
use beremiz4u_c.Common.{
  ℕ, zero, suc, ◌+◌, Bool, List, [], ◌∷◌, ◌++◌, Option, none, some, if◌then◌else◌, length, take,
  drop, codes, ℤ, pos, minus, is_zero, is_negative, einval, enoexec,
}
use beremiz4u_c.Settings.{Memory, c_string}
use beremiz4u_c.Settings.Access.{
  Stored, plc_settings_save, set_mount_sd_card_setting, set_plc_autostart_setting,
}
use beremiz4u_c.Filesys.{Files, Kind, check_and_create_path, check_and_create_file}
use beremiz4u_c.Filesys.Volumes.{Volumes, disk_mount_pt}
use beremiz4u_c.Uploads.{same_bytes}
use beremiz4u_c.Shell.{Bytes, Vfs, Shell, copy_text, create_full_path, max_path_len}

-- A call on files, with the code that it answers.
abbrev pub on_files : {F : Type 0} → Shell F → F × ℤ → Shell F × ℤ
on_files s (f, e) = (record s { files = f }, e)

abbrev pub print : {F : Type 0} → List Bytes → Shell F → Shell F
print texts s = record s { output = s.output ++ texts }

-- The names up to the first that is empty.
abbrev pub names_of : List Bytes → List Bytes
names_of [] = []
names_of ([] ∷ ns) = []
names_of ((c ∷ n) ∷ ns) = (c ∷ n) ∷ names_of ns

-- The loop of `cmd_cat` over reads of 127 bytes: what is printed of each is the text up to a zero.
unfoldable pub cat_texts : ℕ → Bytes → List Bytes
cat_texts zero bytes = []
cat_texts (suc fuel) [] = []
cat_texts (suc fuel) (b ∷ bytes) =
    c_string (take 127 (b ∷ bytes)) ∷ cat_texts fuel (drop 127 (b ∷ bytes))

module _ {F : Type 0} (k : Vfs F) where
  unfoldable pub cmd_pwd : List Bytes → Shell F → Shell F × ℤ
  cmd_pwd args s = (print (s.cwd ∷ []) s, pos 0)

  unfoldable pub cmd_touch : List Bytes → Shell F → Shell F × ℤ
  cmd_touch [] s = (s, minus einval)
  cmd_touch (arg ∷ args) s =
      on_files s (k.fs_create (create_full_path s.cwd arg max_path_len) s.files)

  unfoldable pub cmd_rm : List Bytes → Shell F → Shell F × ℤ
  cmd_rm [] s = (s, minus einval)
  cmd_rm (arg ∷ args) s = on_files s (k.fs_unlink (create_full_path s.cwd arg max_path_len) s.files)

  unfoldable pub cmd_mkdir : List Bytes → Shell F → Shell F × ℤ
  cmd_mkdir [] s = (s, minus einval)
  cmd_mkdir (arg ∷ args) s =
      on_files s (k.fs_mkdir (create_full_path s.cwd arg max_path_len) s.files)

  unfoldable pub cmd_rmdir : List Bytes → Shell F → Shell F × ℤ
  cmd_rmdir [] s = (s, minus einval)
  cmd_rmdir (arg ∷ args) s =
      on_files s (k.fs_unlink (create_full_path s.cwd arg max_path_len) s.files)

  -- The paths are taken as they are given.
  unfoldable pub cmd_mv : List Bytes → Shell F → Shell F × ℤ
  cmd_mv [] s = (s, minus einval)
  cmd_mv (source_path ∷ []) s = (s, minus einval)
  cmd_mv (source_path ∷ destination_path ∷ args) s =
      on_files s (k.fs_rename source_path destination_path s.files)

  unfoldable pub cmd_cat : List Bytes → Shell F → Shell F × ℤ
  unfolding cat_texts
  cmd_cat [] s = (s, minus einval)
  cmd_cat (arg ∷ args) s =
      let full_path = create_full_path s.cwd arg max_path_len in
      let err = k.fs_open_read full_path s.files in
      let bytes = k.content full_path s.files in
      if is_zero err then (print (cat_texts (length bytes) bytes) s, pos 0) else (s, err)

  module _ (c : Files F) (name_max : ℕ) where
    -- The entries of a listing that `stat` finds.
    abbrev pub shown : Bytes → List Bytes → F → List Bytes
    shown path [] f = []
    shown path (name ∷ names) f =
        let rest = shown path names f in
        elim (c.stat (create_full_path path name (max_path_len + name_max)) f) [
          | none ↦ rest
          | some kind ↦ name ∷ rest
        ]

    unfoldable pub list_directory : Bytes → Shell F → Shell F × ℤ
    list_directory path s =
        if is_zero (k.fs_opendir path s.files)
        then (print (shown path (names_of (k.entries path s.files)) s.files) s, pos 0)
        else (s, minus enoexec)

    unfoldable pub cmd_ls : List Bytes → Shell F → Shell F × ℤ
    unfolding list_directory
    cmd_ls [] s = list_directory (copy_text s.cwd max_path_len) s
    cmd_ls (arg ∷ args) s = list_directory (copy_text arg max_path_len) s

-- `check_path` and `check_file`, with the mode that `stat` leaves unset and whether there is memory.
module _ {F : Type 0} (c : Files F) (unset : Kind) (alloc : Bool) where
  unfoldable pub cmd_check_path : Option Bytes → Shell F → Shell F × ℤ
  cmd_check_path arg s = (record s { files = (check_and_create_path c unset arg s.files).0 }, pos 0)

  unfoldable pub cmd_check_file : Bytes → Shell F → Shell F × ℤ
  cmd_check_file arg s =
      (record s { files = (check_and_create_file c unset alloc arg s.files).0 }, pos 0)

module _ {F : Type 0} (v : Volumes F) where
  unfoldable pub cmd_format_lfs : List Bytes → Shell F → Shell F × ℤ
  cmd_format_lfs args s =
      let made = v.fs_mkfs s.files in
      if is_negative made.1 then on_files s made else (record s { files = made.0 }, pos 0)

  unfoldable pub cmd_mount : List Bytes → Shell F → Shell F × ℤ
  cmd_mount args s =
      let ready = v.disk_access_init s.files in
      if is_zero ready.1
      then on_files s (v.fs_mount disk_mount_pt ready.0)
      else (record s { files = ready.0 }, minus 1)

  unfoldable pub cmd_unmount : List Bytes → Shell F → Shell F × ℤ
  cmd_unmount args s = on_files s (v.fs_unmount disk_mount_pt s.files)

abbrev pub with_settings : {F : Type 0} → Shell F → Memory × Stored → Shell F
with_settings s (m, stored) = record s { memory = m; stored = stored }

abbrev pub is_true : Bytes → Bool
is_true value = same_bytes value (codes "true")

-- The settings once the named one is set. Its setter saves, and the command saves again, also where
-- the name is not known.
unfoldable pub updated : Bytes → Bytes → Memory → Memory × Stored
updated name value m =
    let sd = set_mount_sd_card_setting (is_true value) m in
    let boot = set_plc_autostart_setting (is_true value) m in
    if same_bytes name (codes "mount_sd_card")
    then plc_settings_save sd.0
    else if same_bytes name (codes "start_plc_at_boot")
    then plc_settings_save boot.0
    else plc_settings_save m

-- With two arguments a setting is set; with none the settings are shown; else the usage.
unfoldable pub cmd_show_or_set_settings : {F : Type 0} → List Bytes → Shell F → Shell F × ℤ
unfolding updated
cmd_show_or_set_settings [] s = (s, pos 0)
cmd_show_or_set_settings (name ∷ []) s = (s, pos 0)
cmd_show_or_set_settings (name ∷ value ∷ []) s =
    (with_settings s (updated name value s.memory), pos 0)
cmd_show_or_set_settings (name ∷ value ∷ other ∷ args) s = (s, pos 0)
