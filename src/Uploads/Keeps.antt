-- ===== src/Uploads/Keeps.antt =====
-- app/src/plc_rpc.c: the array of uploads keeps its shape under every call.
use beremiz4u_c.Common.{
  ℕ, zero, suc, ◌-◌, ◌≤◌, ◌≡◌, refl, sym, subst, Bool, true, false, Bool-cases, inl, inr, List, [],
  ◌∷◌, ◌++◌, Option, none, some, Option-cases, if◌then◌else◌, arith, length, take, replicate,
}
use beremiz4u_c.Uploads.{
  Bytes, same_bytes, Disk, FileUpload, Uploads, copy_blob, init_file_upload,
  generate_random_filename, add_file_upload, update_last_blob_id, get_filename_from_blob_id,
  is_last_file_pointer_valid, close_file, finish_file_upload, register, prepare_file_upload,
}
use beremiz4u_c.Uploads.Calls.{seed_blob, write_chunk, append_chunk_to_blob, purge_blobs}
use beremiz4u_c.Uploads.Install.{
  Paths, ExtraFile, destination, move_extra_files, write_md5_file, after_extra_files,
  replace_program, install, new_plc,
}
use beremiz4u_c.Uploads.Bytes.{length-modify}
use beremiz4u_c.Uploads.Sized.{AreSized, modify-AreSized, copy_blob-FitsBlob}
use beremiz4u_c.Uploads.Upload.{finish_last-keeps}

module _ {D : Type 0} (k : Disk D) (tmp_file_path : Bytes) where
  -- 20 entries, at most as many registered, and every id within its array.
  abbrev pub IsUploads : Uploads D → Type 0
  IsUploads s = (length s.file_uploads ≡ 20) × (s.num_uploads ≤ 20) × AreSized s.file_uploads

  update-IsUploads :
      (b : Bytes) (s : Uploads D)
      → length b ≤ 33
      → IsUploads s
      → IsUploads (update_last_blob_id k tmp_file_path b s)
  unfolding update_last_blob_id
  update-IsUploads b s small h =
      let f : FileUpload → FileUpload = λ u. record u { blob_id = copy_blob b u.blob_id } in
      ground (
        arith,
        h,
        length-modify (s.num_uploads - 1) f s.file_uploads,
        modify-AreSized (s.num_uploads - 1) f s.file_uploads
            (λ u fits. copy_blob-FitsBlob b u.blob_id small fits.0) h.2,
      )

  add-IsUploads :
      (name b : Bytes) (p : Option ℕ) (s : Uploads D)
      → length b ≤ 33
      → IsUploads s
      → IsUploads (add_file_upload k tmp_file_path name b p s)
  unfolding add_file_upload
  add-IsUploads name b p s small h =
      let f : FileUpload → FileUpload = λ u. record {
        filename = take 32 name;
        blob_id = copy_blob b u.blob_id;
        file_pointer = p;
      } in
      ground (
        arith,
        h,
        length-modify s.num_uploads f s.file_uploads,
        modify-AreSized s.num_uploads f s.file_uploads
            (λ u fits. copy_blob-FitsBlob b u.blob_id small fits.0) h.2,
      )

  register-IsUploads :
      (name b : Bytes) (o : Option (ℕ × D)) (s : Uploads D)
      → length b ≤ 33
      → IsUploads s
      → IsUploads (register k tmp_file_path name b o s)
  unfolding register
  register-IsUploads name b none s small h = add-IsUploads name b none s small h
  register-IsUploads name b (some (fp, d)) s small h =
      add-IsUploads name b (some fp) (record s { disk = d }) small h

  prepare-IsUploads :
      (random : List ℕ) (b : Bytes) (s : Uploads D)
      → length b ≤ 33
      → IsUploads s
      → IsUploads (prepare_file_upload k tmp_file_path random b s)
  unfolding prepare_file_upload
  prepare-IsUploads random b s small h =
      let last =
        finish_last-keeps k tmp_file_path (λ x. x) (is_last_file_pointer_valid k tmp_file_path s) s
          h.2 in
      let name = generate_random_filename random tmp_file_path in
      subst (λ f. IsUploads (register k tmp_file_path name b (k.fopen name f.disk) f)) (sym last.1)
        (register-IsUploads name b (k.fopen name last.0) (record s { disk = last.0 }) small h)

  pub fresh-AreSized : (n : ℕ) → AreSized (replicate n init_file_upload)
  unfolding init_file_upload
  fresh-AreSized zero = tt
  fresh-AreSized (suc n) = ((refl, omega arith), fresh-AreSized n)

  purge-IsUploads : (s : Uploads D) → IsUploads s → IsUploads (purge_blobs k tmp_file_path s).0
  unfolding purge_blobs
  purge-IsUploads s h = (refl, h.1, fresh-AreSized 20)

  finish-IsUploads :
      (b : Bytes) (s : Uploads D)
      → length b ≤ 33
      → IsUploads s
      → IsUploads (finish_file_upload k tmp_file_path b s).0
  unfolding finish_file_upload close_file
  finish-IsUploads b s small h = ground (arith, update-IsUploads b s small h)

  module _ (md5 : Bytes → Bytes) (sixteen : (b : Bytes) → length (md5 b) ≡ 16) where
    seed-IsUploads :
        (random : List ℕ) (alloc : Bool) (seed : Option Bytes) (s : Uploads D)
        → IsUploads s
        → IsUploads (seed_blob k tmp_file_path md5 random alloc seed s).0
    unfolding seed_blob
    seed-IsUploads random alloc none s h = h
    seed-IsUploads random true (some seed) s h =
        prepare-IsUploads random (md5 seed) (record s { complete_ctx = seed })
          (omega (arith, sixteen seed)) h
    seed-IsUploads random false (some seed) s h = h

    append-IsUploads :
        (alloc : Bool) (chunk : Option Bytes) (s : Uploads D)
        → IsUploads s
        → IsUploads (append_chunk_to_blob k tmp_file_path md5 alloc chunk s).0
    unfolding append_chunk_to_blob write_chunk
    append-IsUploads alloc none s h = h
    append-IsUploads false (some chunk) s h = h
    append-IsUploads true (some chunk) s h =
        let complete = s.complete_ctx ++ chunk in
        ground (
          arith,
          update-IsUploads (md5 complete) (record s { complete_ctx = complete })
              (omega (arith, sixteen complete)) h,
        )

module _ {D : Type 0} (k : Disk D) (paths : Paths) (md5 : Bytes → Bytes) where
  move-IsUploads :
      (files : List ExtraFile) (s : Uploads D)
      → IsUploads k paths.tmp_file_path s
      → IsUploads k paths.tmp_file_path (move_extra_files k paths md5 files s).0
  unfolding move_extra_files
  move-IsUploads [] s h = h
  move-IsUploads (file ∷ files) s h =
      let tmp_file = get_filename_from_blob_id k paths.tmp_file_path file.blob_id s in
      elim (Option-cases (k.fs_rename tmp_file (destination k paths md5 file.fname) s.disk)) [
        | inl failed ↦ ground (arith, failed, h)
        | inr (d, renamed) ↦
            ground (arith, renamed, h, move-IsUploads files (record s { disk = d }))
      ]

  after-IsUploads :
      (md5sum : Bytes) (x : Uploads D × Bool)
      → IsUploads k paths.tmp_file_path x.0
      → IsUploads k paths.tmp_file_path (after_extra_files k paths md5 md5sum x).0
  unfolding after_extra_files write_md5_file
  after-IsUploads md5sum (s, false) h = h
  after-IsUploads md5sum (s, true) h = ground (arith, h)

  new_plc-IsUploads :
      (md5sum blob_id : Bytes) (files : List ExtraFile) (s : Uploads D)
      → length blob_id ≤ 33
      → IsUploads k paths.tmp_file_path s
      → IsUploads k paths.tmp_file_path (new_plc k paths md5 md5sum blob_id files s).0
  unfolding new_plc install replace_program
  new_plc-IsUploads md5sum blob_id files s small h =
      let f = (finish_file_upload k paths.tmp_file_path blob_id s).0 in
      let kept = finish-IsUploads k paths.tmp_file_path blob_id s small h in
      let start = take (length blob_id) (md5 f.complete_ctx) in
      let c = record f { complete_ctx = k.finished_ctx f.complete_ctx } in
      let program = replace_program k paths md5 blob_id c in
      let installed =
        after-IsUploads md5sum (move_extra_files k paths md5 files program)
          (move-IsUploads files program kept) in
      elim (Bool-cases (same_bytes start blob_id)) [
        | inl matches ↦
            subst
              (λ b.
                IsUploads k paths.tmp_file_path
                  (if b then install k paths md5 md5sum blob_id files c else (c, false)).0)
              (sym matches) installed
        | inr differs ↦
            subst
              (λ b.
                IsUploads k paths.tmp_file_path
                  (if b then install k paths md5 md5sum blob_id files c else (c, false)).0)
              (sym differs) kept
      ]

  -- With a digest of 16 bytes, and an id of at most 33 bytes for `NewPLC`, every call, whatever its
  -- outcome, leaves 20 entries, at most 20 registered ones, and every id within its array.
  pub calls-IsUploads :
      ((b : Bytes) → length (md5 b) ≡ 16)
      → (s : Uploads D) → IsUploads k paths.tmp_file_path s
      → IsUploads k paths.tmp_file_path (purge_blobs k paths.tmp_file_path s).0
        × ((random : List ℕ) (alloc : Bool) (seed : Option Bytes)
            → IsUploads k paths.tmp_file_path
                (seed_blob k paths.tmp_file_path md5 random alloc seed s).0)
        × ((alloc : Bool) (chunk : Option Bytes)
            → IsUploads k paths.tmp_file_path
                (append_chunk_to_blob k paths.tmp_file_path md5 alloc chunk s).0)
        × ((md5sum blob_id : Bytes) (files : List ExtraFile)
            → length blob_id ≤ 33
            → IsUploads k paths.tmp_file_path (new_plc k paths md5 md5sum blob_id files s).0)
  calls-IsUploads sixteen s h = (
    purge-IsUploads k paths.tmp_file_path s h,
    λ random alloc seed. seed-IsUploads k paths.tmp_file_path md5 sixteen random alloc seed s h,
    λ alloc chunk. append-IsUploads k paths.tmp_file_path md5 sixteen alloc chunk s h,
    λ md5sum blob_id files small. new_plc-IsUploads md5sum blob_id files s small h,
  )
