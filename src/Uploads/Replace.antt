-- ===== src/Uploads/Replace.antt =====
-- app/src/plc_rpc.c, `NewPLC`: when the running program is stopped and replaced.
use beremiz4u_c.Common.{
  ◌≤◌, ◌≡◌, ◌≢◌, refl, ap, sym, ◌∙◌, Bool, true, false, Bool-cases, inl, inr, List, [], ◌∷◌,
  Option-cases, if◌then◌else◌, arith, length, take,
}
use beremiz4u_c.Uploads.{
  Bytes, same_bytes, Disk, Uploads, update_last_blob_id, get_filename_from_blob_id, close_file,
  finish_file_upload,
}
use beremiz4u_c.Uploads.Install.{
  Paths, ExtraFile, destination, move_extra_files, write_md5_file, after_extra_files,
  replace_program, install, new_plc,
}
use beremiz4u_c.Uploads.Bytes.{same_bytes_refl, same_bytes_sound}

module _ {D : Type 0} (k : Disk D) (paths : Paths) (md5 : Bytes → Bytes) where
  moved :
      (files : List ExtraFile) (s : Uploads D)
      → (move_extra_files k paths md5 files s).0.plc_run ≡ s.plc_run
  unfolding move_extra_files
  moved [] s = refl
  moved (file ∷ files) s =
      let tmp_file = get_filename_from_blob_id k paths.tmp_file_path file.blob_id s in
      elim (Option-cases (k.fs_rename tmp_file (destination k paths md5 file.fname) s.disk)) [
        | inl failed ↦ ground (arith, failed)
        | inr (d, renamed) ↦ ground (arith, renamed, moved files (record s { disk = d }))
      ]

  written_md5 :
      (md5sum : Bytes) (s : Uploads D)
      → ((write_md5_file k paths md5 md5sum s).0.plc_run ≡ s.plc_run)
        × ((write_md5_file k paths md5 md5sum s).1 ≡ true
            → (write_md5_file k paths md5 md5sum s).0.reload_plc_file ≡ 1)
  unfolding write_md5_file
  written_md5 md5sum s = ground arith

  finished :
      (blob_id : Bytes) (s : Uploads D)
      → (let f = (finish_file_upload k paths.tmp_file_path blob_id s).0 in
          (f.plc_run ≡ s.plc_run)
          × (f.reload_plc_file ≡ s.reload_plc_file)
          × (f.complete_ctx ≡ s.complete_ctx)
          × (f.num_uploads ≡ s.num_uploads))
  unfolding finish_file_upload close_file update_last_blob_id
  finished blob_id s = ground arith

  after :
      (md5sum : Bytes) (x : Uploads D × Bool)
      → ((after_extra_files k paths md5 md5sum x).0.plc_run ≡ x.0.plc_run)
        × ((after_extra_files k paths md5 md5sum x).1 ≡ true
            → (after_extra_files k paths md5 md5sum x).0.reload_plc_file ≡ 1)
  unfolding after_extra_files
  after md5sum (s, false) = ground arith
  after md5sum (s, true) = written_md5 md5sum s

  replaced : (blob_id : Bytes) (s : Uploads D) → (replace_program k paths md5 blob_id s).plc_run ≡ 0
  unfolding replace_program
  replaced blob_id s = refl

  installed :
      (md5sum blob_id : Bytes) (files : List ExtraFile) (s : Uploads D)
      → ((install k paths md5 md5sum blob_id files s).0.plc_run ≡ 0)
        × ((install k paths md5 md5sum blob_id files s).1 ≡ true
            → (install k paths md5 md5sum blob_id files s).0.reload_plc_file ≡ 1)
  unfolding install
  installed md5sum blob_id files s =
      let program = replace_program k paths md5 blob_id s in
      let all = after md5sum (move_extra_files k paths md5 files program) in
      (all.0 ∙ moved files program ∙ replaced blob_id s, all.1)

  pub new_plc-checks :
      (md5sum blob_id : Bytes) (files : List ExtraFile) (s : Uploads D)
      → length blob_id ≤ 33
      → ((new_plc k paths md5 md5sum blob_id files s).1 ≡ true
          → (take (length blob_id) (md5 s.complete_ctx) ≡ blob_id)
            × ((new_plc k paths md5 md5sum blob_id files s).0.reload_plc_file ≡ 1))
        × (take (length blob_id) (md5 s.complete_ctx) ≡ blob_id
            → (new_plc k paths md5 md5sum blob_id files s).0.plc_run ≡ 0)
        × (take (length blob_id) (md5 s.complete_ctx) ≢ blob_id
            → ((new_plc k paths md5 md5sum blob_id files s).0.plc_run ≡ s.plc_run)
              × ((new_plc k paths md5 md5sum blob_id files s).0.reload_plc_file
                  ≡ s.reload_plc_file))
  unfolding new_plc
  new_plc-checks md5sum blob_id files s fits =
      let f = (finish_file_upload k paths.tmp_file_path blob_id s).0 in
      let c = record f { complete_ctx = k.finished_ctx f.complete_ctx } in
      let kept = finished blob_id s in
      let start = take (length blob_id) (md5 f.complete_ctx) in
      let same_start : start ≡ take (length blob_id) (md5 s.complete_ctx) =
        ap (λ c. take (length blob_id) (md5 c)) kept.2 in
      elim (Bool-cases (same_bytes start blob_id)) [
        | inl matches ↦
            let equal = sym same_start ∙ same_bytes_sound start blob_id matches in
            let all = installed md5sum blob_id files c in
            let there =
              ap (λ b. if b then install k paths md5 md5sum blob_id files c else (c, false))
                matches in
            (
              λ success. (
                equal,
                ap (λ x. x.0.reload_plc_file) there ∙ all.1 (sym (ap (λ x. x.1) there) ∙ success),
              ),
              λ e. ap (λ x. x.0.plc_run) there ∙ all.0,
              λ e. absurd (e equal),
            )
        | inr differs ↦
            let there =
              ap (λ b. if b then install k paths md5 md5sum blob_id files c else (c, false))
                differs in
            let unequal : start ≢ blob_id = λ e.
              ground (arith, differs, ap (λ b. same_bytes b blob_id) e, same_bytes_refl blob_id) in
            (
              λ success. absurd (ground (arith, sym (ap (λ x. x.1) there) ∙ success)),
              λ e. absurd (unequal (same_start ∙ e)),
              λ e. (
                ap (λ x. x.0.plc_run) there ∙ kept.0,
                ap (λ x. x.0.reload_plc_file) there ∙ kept.1,
              ),
            )
      ]
