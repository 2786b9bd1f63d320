-- ===== src/Uploads/Install.antt =====
-- app/src/plc_rpc.c: `NewPLC`, which installs an uploaded program and its extra files.
use beremiz4u_c.Common.{
  Bool, true, false, List, [], ◌∷◌, ◌++◌, Option, none, some, ◌==◌, ◌||◌, if◌then◌else◌, length,
  take, codes,
}
use beremiz4u_c.Uploads.{
  Bytes, same_bytes, Disk, Uploads, finish_file_upload, get_filename_from_blob_id,
}

-- The paths that app/include/config.h makes of the path of the file system.
pub record Paths : Type 0 where
  pub tmp_file_path : Bytes
  pub plc_md5_file : Bytes
  pub plc_bin_file : Bytes
  pub plc_root_path : Bytes
  pub http_root : Bytes

-- An extra file: its name, its id, and whether `k_malloc` gives the memory for the id.
pub record ExtraFile : Type 0 where
  pub fname : Bytes
  pub blob_id : Bytes
  pub alloc : Bool

-- strrchr(fname, '.')
abbrev pub file_extension : Bytes → Option Bytes
file_extension [] = none
file_extension (c ∷ cs) = elim (file_extension cs) [
  | some extension ↦ some extension
  | none ↦ if c == 46 then some (c ∷ cs) else none
]

abbrev pub is_web_extension : Option Bytes → Bool
is_web_extension none = false
is_web_extension (some extension) =
    same_bytes extension (codes ".htm")
    || same_bytes extension (codes ".html")
    || same_bytes extension (codes ".js")
    || same_bytes extension (codes ".json")
    || same_bytes extension (codes ".css")

module _ {D : Type 0} (k : Disk D) (paths : Paths) (md5 : Bytes → Bytes) where
  abbrev pub destination : Bytes → Bytes
  destination fname =
      (if is_web_extension (file_extension fname)
        then paths.http_root ++ codes "/"
        else paths.plc_root_path)
      ++ fname

  -- The loop over the extra files, and whether it went through.
  unfoldable pub move_extra_files : List ExtraFile → Uploads D → Uploads D × Bool
  move_extra_files [] s = (s, true)
  move_extra_files (file ∷ files) s =
      let ex_tmp_file = get_filename_from_blob_id k paths.tmp_file_path file.blob_id s in
      if file.alloc
      then elim (k.fs_rename ex_tmp_file (destination file.fname) s.disk) [
        | none ↦ (s, false)
        | some d ↦ move_extra_files files (record s { disk = d })
      ]
      else (s, false)

  -- A call of the file system whose failure is logged only.
  abbrev pub or_same : D → Option D → D
  or_same d none = d
  or_same d (some e) = e

  -- The md5 file, and whether it was written.
  unfoldable pub write_md5_file : Bytes → Uploads D → Uploads D × Bool
  write_md5_file md5sum s =
      let d =
        if k.fs_stat paths.plc_md5_file s.disk
        then or_same s.disk (k.fs_unlink paths.plc_md5_file s.disk)
        else s.disk in
      elim (k.fopen paths.plc_md5_file d) [
        | none ↦ (record s { disk = d }, false)
        | some (fp_md5, e) ↦
            let after = k.fwrite fp_md5 (take 33 md5sum) e in
            if after.1 == 33
            then (record s { disk = k.fclose fp_md5 after.0; reload_plc_file = 1 }, true)
            else (record s { disk = after.0 }, false)
      ]

  unfoldable pub after_extra_files : Bytes → Uploads D × Bool → Uploads D × Bool
  after_extra_files md5sum (s, false) = (s, false)
  after_extra_files md5sum (s, true) = write_md5_file md5sum s

  -- The program is told to stop, and the uploaded file becomes the program's.
  unfoldable pub replace_program : Bytes → Uploads D → Uploads D
  replace_program blob_id s =
      let plc_tmp_file = get_filename_from_blob_id k paths.tmp_file_path blob_id s in
      let cleared =
        if k.fs_stat paths.plc_md5_file s.disk
        then or_same s.disk (k.fs_unlink paths.plc_bin_file s.disk)
        else s.disk in
      record s {
        plc_run = 0;
        disk = or_same cleared (k.fs_rename plc_tmp_file paths.plc_bin_file cleared);
      }

  -- What follows a digest that matches.
  unfoldable pub install : Bytes → Bytes → List ExtraFile → Uploads D → Uploads D × Bool
  unfolding after_extra_files replace_program
  install md5sum blob_id extra_files s =
      after_extra_files md5sum (move_extra_files extra_files (replace_program blob_id s))

  -- `NewPLC`: the state and `success`. The comparison reads as many bytes of the digest as the host
  -- gives, up to the 16 that it has.
  unfoldable pub new_plc : Bytes → Bytes → List ExtraFile → Uploads D → Uploads D × Bool
  new_plc md5sum blob_id extra_files s =
      let finished = (finish_file_upload k paths.tmp_file_path blob_id s).0 in
      let consumed = record finished { complete_ctx = k.finished_ctx finished.complete_ctx } in
      if same_bytes (take (length blob_id) (md5 finished.complete_ctx)) blob_id
      then install md5sum blob_id extra_files consumed
      else (consumed, false)
