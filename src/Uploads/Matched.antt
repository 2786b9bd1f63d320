-- ===== src/Uploads/Matched.antt =====
-- app/src/plc_rpc.c: `MatchMD5` behind `NewPLC`.
use beremiz4u_c.Common.{
  ◌≤◌, ◌≡◌, sym, ap, ◌∙◌, Bool, true, false, List, some, inl, inr, ◌==◌, ==_iff, if◌then◌else◌,
  arith, length, take, take_le, length-take, Bool-cases, Option-cases,
}
use beremiz4u_c.Uploads.{Bytes, same_bytes, Disk, Uploads, finish_file_upload}
use beremiz4u_c.Uploads.Install.{
  Paths, ExtraFile, or_same, move_extra_files, write_md5_file, after_extra_files, replace_program,
  install, new_plc,
}
use beremiz4u_c.Uploads.Bytes.{same_bytes_refl}
use beremiz4u_c.Uploads.Match.{Reading, match_md5}

module _ {D : Type 0} (k : Disk D) (r : Reading D k) (paths : Paths) (md5 : Bytes → Bytes) where
  -- The md5 file holds the digest.
  Holds : Bytes → D → Type 0
  Holds md5sum d = r.read_file paths.plc_md5_file d ≡ some (take 33 md5sum)

  write_md5_file-Holds :
      (md5sum : Bytes) (s : Uploads D)
      → 33 ≤ length md5sum
      → (write_md5_file k paths md5 md5sum s).1 ≡ true
      → Holds md5sum (write_md5_file k paths md5 md5sum s).0.disk
  unfolding write_md5_file Holds
  write_md5_file-Holds md5sum s long h =
      let path = paths.plc_md5_file in
      let d =
        if k.fs_stat path s.disk
        then or_same k paths md5 s.disk (k.fs_unlink path s.disk)
        else s.disk in
      elim (Option-cases (k.fopen path d)) [
        | inl shut ↦ absurd (ground (arith, shut, h))
        | inr ((fp_md5, e), opened) ↦
            elim (Bool-cases ((k.fwrite fp_md5 (take 33 md5sum) e).1 == 33)) [
              | inr short ↦ absurd (ground (arith, opened, short, h))
              | inl all ↦
                  let size : (k.fwrite fp_md5 (take 33 md5sum) e).1 ≡ length (take 33 md5sum) =
                    omega (
                      arith,
                      (==_iff (k.fwrite fp_md5 (take 33 md5sum) e).1 33).0 all,
                      length-take 33 md5sum,
                      long,
                    ) in
                  let same : (write_md5_file k paths md5 md5sum s).0.disk
                      ≡ k.fclose fp_md5 (k.fwrite fp_md5 (take 33 md5sum) e).0 =
                    ground (arith, opened, all) in
                  ap (r.read_file path) same
                  ∙ r.read-written path (take 33 md5sum) d e fp_md5 opened size
            ]
      ]

  after-Holds :
      (md5sum : Bytes) (x : Uploads D × Bool)
      → 33 ≤ length md5sum
      → (after_extra_files k paths md5 md5sum x).1 ≡ true
      → Holds md5sum (after_extra_files k paths md5 md5sum x).0.disk
  unfolding after_extra_files
  after-Holds md5sum (s, false) long h = absurd (ground (arith, h))
  after-Holds md5sum (s, true) long h = write_md5_file-Holds md5sum s long h

  Holds-match :
      (md5sum : Bytes) (d : D)
      → 33 ≤ length md5sum
      → Holds md5sum d
      → match_md5 k r paths.plc_md5_file md5sum d ≡ some true
  unfolding match_md5 Holds
  Holds-match md5sum d long h =
      let size : length (take 33 md5sum) ≡ 33 = omega (arith, length-take 33 md5sum, long) in
      let whole : take 33 (take 33 md5sum) ≡ take 33 md5sum =
        take_le 33 (take 33 md5sum) (omega (arith, size)) in
      ground (arith, h, whole, size, same_bytes_refl (take 33 md5sum))

  -- Where `NewPLC` answers true for a digest of at least 33 bytes, its end among them, `MatchMD5` of
  -- that digest answers true afterwards.
  pub match_md5-new_plc :
      (md5sum blob_id : Bytes) (extra_files : List ExtraFile) (s : Uploads D)
      → 33 ≤ length md5sum
      → (new_plc k paths md5 md5sum blob_id extra_files s).1 ≡ true
      → match_md5 k r paths.plc_md5_file md5sum
          (new_plc k paths md5 md5sum blob_id extra_files s).0.disk
        ≡ some true
  unfolding new_plc install
  match_md5-new_plc md5sum blob_id extra_files s long h =
      let finished = (finish_file_upload k paths.tmp_file_path blob_id s).0 in
      elim (Bool-cases (same_bytes (take (length blob_id) (md5 finished.complete_ctx)) blob_id)) [
        | inr differs ↦ absurd (ground (arith, differs, h))
        | inl equal ↦
            let x = move_extra_files k paths md5 extra_files (
              replace_program k paths md5 blob_id
                (record finished { complete_ctx = k.finished_ctx finished.complete_ctx })) in
            let same : new_plc k paths md5 md5sum blob_id extra_files s
                ≡ after_extra_files k paths md5 md5sum x =
              ground (arith, equal) in
            let succeeded = sym (ap (λ t. t.1) same) ∙ h in
            ap (λ t. match_md5 k r paths.plc_md5_file md5sum t.0.disk) same
            ∙ Holds-match md5sum (after_extra_files k paths md5 md5sum x).0.disk long
                (after-Holds md5sum x long succeeded)
      ]
