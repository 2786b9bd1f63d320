-- ===== src/Uploads/Upload.antt =====
-- app/src/plc_rpc.c: one upload of a host, from `SeedBlob` to the last `AppendChunkToBlob`.
use beremiz4u_c.Common.{
  ℕ, ◌+◌, ◌-◌, ◌<◌, ◌≡◌, refl, ap, ◌∙◌, true, List, [], ◌++◌, Option, none, Bool-cases, inl, inr,
  some, ltb, arith, length, take, get_or, get_elem?,
}
use beremiz4u_c.Uploads.{
  Bytes, Disk, FileUpload, Uploads, copy_blob, modify, filename_of, pointer_of, init_file_upload,
  generate_random_filename, add_file_upload, update_last_blob_id, get_filename_from_blob_id,
  get_file_pointer_from_blob_id, get_last_blob_id, is_last_file_pointer_valid, close_file,
  finish_file_upload, finish_last, register, prepare_file_upload,
}
use beremiz4u_c.Uploads.Calls.{seed_blob}
use beremiz4u_c.Uploads.Bytes.{take-modify, get_elem?-modify, entry_at}
use beremiz4u_c.Uploads.Sized.{AreSized, modify-own}
use native.Mathlib.Numerals.{add-one}
use beremiz4u_c.Uploads.Session.{
  joined_chunks, upload, append_chunks, Fresh, Current, found_now, all_appended,
}

module _ {D : Type 0} (k : Disk D) (tmp_file_path : Bytes) (md5 : Bytes → Bytes) where
  -- Finishing the last upload touches its file only.
  closes :
      (p : Option ℕ) (s : Uploads D)
      → (d : D) × ((close_file k tmp_file_path p s).0 ≡ record s { disk = d })
  unfolding close_file
  closes none s = (s.disk, refl)
  closes (some fp) s = (k.fclose fp s.disk, refl)

  own_id :
      (s : Uploads D)
      → AreSized s.file_uploads
      → (let blob = get_last_blob_id k tmp_file_path s in
          update_last_blob_id k tmp_file_path (take blob.data_length blob.bytes) s)
        ≡ s
  unfolding update_last_blob_id get_last_blob_id
  own_id s sized = elim (Bool-cases (ltb 0 s.num_uploads)) [
    | inl some_upload ↦ ground (
      arith,
      modify-own (s.num_uploads - 1) s.file_uploads
          (get_or s.file_uploads (s.num_uploads - 1) init_file_upload).blob_id sized refl,
    )
    | inr no_upload ↦ ground arith
  ]

  pub finish_last-keeps :
      (p : Option ℕ) (s : Uploads D)
      → AreSized s.file_uploads
      → (d : D) × (finish_last k tmp_file_path p s ≡ record s { disk = d })
  unfolding finish_last finish_file_upload
  finish_last-keeps none s sized = (s.disk, refl)
  finish_last-keeps (some fp) s sized =
      let blob = get_last_blob_id k tmp_file_path s in
      let bytes = take blob.data_length blob.bytes in
      let closed = closes (get_file_pointer_from_blob_id k tmp_file_path bytes s) s in
      (
        closed.0,
        ap
              (λ u.
                (close_file k tmp_file_path (get_file_pointer_from_blob_id k tmp_file_path bytes u)
                  u).0)
              (own_id s sized)
            ∙ closed.1,
      )

  -- The state with a new entry.
  abbrev entered : Bytes → Bytes → ℕ → Uploads D → Uploads D
  entered name blob_id fp s = record s {
    file_uploads =
        modify s.num_uploads
          (λ u. record {
            filename = take 32 name;
            blob_id = copy_blob blob_id u.blob_id;
            file_pointer = some fp;
          })
          s.file_uploads;
    num_uploads = s.num_uploads + 1;
  }

  added :
      (name blob_id : Bytes) (fp : ℕ) (s : Uploads D)
      → s.num_uploads < 20
      → add_file_upload k tmp_file_path name blob_id (some fp) s ≡ entered name blob_id fp s
  unfolding add_file_upload
  added name blob_id fp s room = ground arith

  starts :
      (random : List ℕ) (seed : Bytes) (s : Uploads D) (fp : ℕ) (u : FileUpload)
      → get_elem? s.file_uploads s.num_uploads ≡ some u
      → Current k tmp_file_path md5
          (take s.num_uploads s.file_uploads)
          s.num_uploads
          fp
          (take 32 (generate_random_filename random tmp_file_path))
          seed
          (entered
            (generate_random_filename random tmp_file_path)
            (md5 seed)
            fp
            (record s { complete_ctx = seed }))
  starts random seed s fp u at = record {
    counted = add-one s.num_uploads;
    older = take-modify s.num_uploads _ s.file_uploads;
    upload = record {
      filename = take 32 (generate_random_filename random tmp_file_path);
      blob_id = copy_blob (md5 seed) u.blob_id;
      file_pointer = some fp;
    };
    at = get_elem?-modify s.num_uploads _ s.file_uploads u at;
    old = u.blob_id;
    id = refl;
    pointer = refl;
    named = refl;
    context = refl;
  }

  -- The state behind a seed.
  seeded :
      (random : List ℕ) (seed : Bytes) (s : Uploads D)
      → AreSized s.file_uploads
      → length s.file_uploads ≡ 20
      → s.num_uploads < 20
      → ((path : Bytes) (d : D) → (h : ℕ) × (e : D) × (k.fopen path d ≡ some (h, e)))
      → (h : ℕ) × (t : Uploads D) × (seed_blob k tmp_file_path md5 random true (some seed) s
          ≡ (t, 0, md5 seed))
        × Current k tmp_file_path md5
            (take s.num_uploads s.file_uploads)
            s.num_uploads
            h
            (take 32 (generate_random_filename random tmp_file_path))
            seed
            t
        × (k.written t.disk h ≡ [])
  unfolding seed_blob prepare_file_upload register
  seeded random seed s sized size room opens =
      let begun = record s { complete_ctx = seed } in
      let finished =
        finish_last-keeps (is_last_file_pointer_valid k tmp_file_path begun) begun sized in
      let opened = opens (generate_random_filename random tmp_file_path) finished.0 in
      let entry = entry_at s.num_uploads s.file_uploads (omega arith) in
      let name = generate_random_filename random tmp_file_path in
      let t = entered name (md5 seed) opened.0 (record begun { disk = opened.1 }) in
      (
        opened.0,
        t,
        ap (λ f. (register k tmp_file_path name (md5 seed) (k.fopen name f.disk) f, 0, md5 seed))
              finished.1
            ∙ ap
                (λ o. (
                  register k tmp_file_path name (md5 seed) o (record begun { disk = finished.0 }),
                  0,
                  md5 seed,
                ))
                opened.2
            ∙ ap (λ u. (u, 0, md5 seed))
                (added name (md5 seed) opened.0 (record begun { disk = opened.1 }) room),
        starts random seed (record s { disk = opened.1 }) opened.0 entry.0 entry.1,
        k.written-fopen name finished.0 opened.1 opened.0 opened.2,
      )

  -- Where fewer than 20 uploads are registered, files open and take all bytes, memory is given, and
  -- no registered upload has one of the ids that come up: every call of the upload answers 0, the
  -- last id is the digest of the seed and all chunks, the file holds exactly the chunks, and the id
  -- leads to this file and to its name.
  pub upload-stores :
      (random : List ℕ) (seed : Bytes) (chunks : List Bytes) (s : Uploads D)
      → AreSized s.file_uploads
      → length s.file_uploads ≡ 20
      → s.num_uploads < 20
      → ((path : Bytes) (d : D) → (h : ℕ) × (e : D) × (k.fopen path d ≡ some (h, e)))
      → ((fp : ℕ) (bytes : Bytes) (d : D) → (k.fwrite fp bytes d).1 ≡ length bytes)
      → Fresh k tmp_file_path md5 (take s.num_uploads s.file_uploads) seed chunks
      → (after : Uploads D) × (h : ℕ) × (upload k tmp_file_path md5 random seed chunks s
          ≡ (after, 0, md5 (seed ++ joined_chunks chunks)))
        × (k.written after.disk h ≡ joined_chunks chunks)
        × (get_file_pointer_from_blob_id k tmp_file_path (md5 (seed ++ joined_chunks chunks)) after
            ≡ some h)
        × (get_filename_from_blob_id k tmp_file_path (md5 (seed ++ joined_chunks chunks)) after
            ≡ some (take 32 (generate_random_filename random tmp_file_path)))
  unfolding get_file_pointer_from_blob_id get_filename_from_blob_id
  upload-stores random seed chunks s sized size room opens whole fresh =
      let begun = seeded random seed s sized size room opens in
      let sent = all_appended k tmp_file_path md5 chunks begun.3 whole fresh in
      let found = found_now k tmp_file_path md5 sent.2 sent.4 in
      (
        sent.0,
        begun.0,
        ap (append_chunks k tmp_file_path md5 chunks) begun.2 ∙ sent.1,
        sent.3 ∙ ap (λ w. w ++ joined_chunks chunks) begun.4,
        ap pointer_of found ∙ sent.2.pointer,
        ap filename_of found ∙ ap some sent.2.named,
      )
