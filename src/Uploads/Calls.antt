-- ===== src/Uploads/Calls.antt =====
-- app/src/plc_rpc.c: `PurgeBlobs`, `SeedBlob` and `AppendChunkToBlob`.
use beremiz4u_c.Common.{
  ℕ, Bool, true, false, List, [], ◌∷◌, ◌++◌, Option, none, some, ◌==◌, ◌&&◌, if◌then◌else◌, length,
  replicate, codes,
}
use beremiz4u_c.Uploads.{
  Bytes, Disk, Uploads, max_file_uploads, init_file_upload, update_last_blob_id,
  get_file_pointer_from_blob_id, prepare_file_upload,
}

module _ {D : Type 0} (k : Disk D) (tmp_file_path : Bytes) where
  starts_with_bytes : Bytes → Bytes → Bool
  starts_with_bytes [] ys = true
  starts_with_bytes (x ∷ xs) [] = false
  starts_with_bytes (x ∷ xs) (y ∷ ys) = (x == y) && starts_with_bytes xs ys

  -- strstr(name, needle) != NULL
  contains : Bytes → Bytes → Bool
  unfolding starts_with_bytes
  contains needle [] = starts_with_bytes needle []
  contains needle (c ∷ cs) = if starts_with_bytes needle (c ∷ cs) then true else contains needle cs

  unlinked : D → Option D → D
  unlinked d none = d
  unlinked d (some e) = e

  -- The loop of `delete_tmp_files` over the entries.
  unfoldable pub delete_entries : Bytes → List (Bytes × Bool) → D → D
  unfolding contains unlinked
  delete_entries directory [] d = d
  delete_entries directory ((name, is_file) ∷ rest) d =
      let file_path = directory ++ codes "/" ++ name in
      let next =
        if is_file && contains (codes ".tmp") name
        then unlinked d (k.fs_unlink file_path d)
        else d in
      delete_entries directory rest next

  unfoldable pub delete_tmp_files : Bytes → Option (List (Bytes × Bool)) → D → D
  delete_tmp_files directory none d = d
  delete_tmp_files directory (some list) d = delete_entries directory list d

  unfoldable pub purge_blobs : Uploads D → Uploads D × ℕ
  unfolding init_file_upload
  purge_blobs s = (
    record s {
      disk = delete_tmp_files tmp_file_path (k.entries tmp_file_path s.disk) s.disk;
      file_uploads = replicate max_file_uploads init_file_upload;
    },
    0,
  )

  module _ (md5 : Bytes → Bytes) where
    -- `SeedBlob`: the answer and the id. `none` for the seed: a pointer is NULL.
    unfoldable pub seed_blob : List ℕ → Bool → Option Bytes → Uploads D → Uploads D × ℕ × Bytes
    seed_blob random alloc none s = (record s { complete_ctx = [] }, 1, [])
    seed_blob random alloc (some seed) s =
        if alloc
        then (
          prepare_file_upload k tmp_file_path random (md5 seed) (record s { complete_ctx = seed }),
          0,
          md5 seed,
        )
        else (record s { complete_ctx = [] }, 1, [])

    unfoldable pub write_chunk : Bytes → Option ℕ → Uploads D → Uploads D × ℕ
    write_chunk chunk none s = (s, 3)
    write_chunk chunk (some file) s =
        let after = k.fwrite file chunk s.disk in
        (record s { disk = after.0 }, if after.1 == length chunk then 0 else 4)

    -- `AppendChunkToBlob`: the answer and the new id. The id that the host gives is not read.
    unfoldable pub append_chunk_to_blob : Bool → Option Bytes → Uploads D → Uploads D × ℕ × Bytes
    append_chunk_to_blob alloc none s = (s, 2, [])
    append_chunk_to_blob alloc (some chunk) s =
        let complete = s.complete_ctx ++ chunk in
        let digest = md5 complete in
        let updated =
          update_last_blob_id k tmp_file_path digest (record s { complete_ctx = complete }) in
        let written =
          write_chunk chunk (get_file_pointer_from_blob_id k tmp_file_path digest updated)
            updated in
        if alloc then (written.0, written.1, digest) else (s, 1, [])
