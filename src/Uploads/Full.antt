-- ===== src/Uploads/Full.antt =====
-- app/src/plc_rpc.c: the uploads behind `PurgeBlobs` once 20 were registered, since `num_uploads` is
-- not reset.
use beremiz4u_c.Common.{
  ℕ, zero, suc, ◌≡◌, refl, sym, subst, true, List, [], ◌∷◌, ◌++◌, Option, none, some, arith, take,
  get_or, replicate,
}
use beremiz4u_c.Uploads.{
  Bytes, Disk, FileUpload, Uploads, copy_blob, modify, find_upload, pointer_of, init_file_upload,
  generate_random_filename, add_file_upload, update_last_blob_id, get_file_pointer_from_blob_id,
  is_last_file_pointer_valid, finish_last, register, prepare_file_upload,
}
use beremiz4u_c.Uploads.Calls.{seed_blob, write_chunk, append_chunk_to_blob, purge_blobs}

-- No entry has a file.
abbrev pub NoFiles : List FileUpload → Type 0
NoFiles [] = Unit {0}
NoFiles (u ∷ us) = (u.file_pointer ≡ none) × NoFiles us

pointer_of-NoFiles :
    (b : Bytes) (n : ℕ) (us : List FileUpload)
    → NoFiles us
    → pointer_of (find_upload b (take n us)) ≡ none
unfolding find_upload
pointer_of-NoFiles b zero us h = refl
pointer_of-NoFiles b (suc n) [] h = refl
pointer_of-NoFiles b (suc n) (u ∷ us) h = ground (arith, pointer_of-NoFiles b n us)

last-NoFiles :
    (i : ℕ) (us : List FileUpload) → NoFiles us → (get_or us i init_file_upload).file_pointer ≡ none
unfolding init_file_upload
last-NoFiles i [] h = refl
last-NoFiles zero (u ∷ us) h = h.0
last-NoFiles (suc i) (u ∷ us) h = last-NoFiles i us h.1

renew-NoFiles :
    (b : Bytes) (i : ℕ) (us : List FileUpload)
    → NoFiles us
    → NoFiles (modify i (λ u. record u { blob_id = copy_blob b u.blob_id }) us)
renew-NoFiles b i [] h = tt
renew-NoFiles b zero (u ∷ us) h = h
renew-NoFiles b (suc i) (u ∷ us) h = (h.0, renew-NoFiles b i us h.1)

fresh-NoFiles : (n : ℕ) → NoFiles (replicate n init_file_upload)
unfolding init_file_upload
fresh-NoFiles zero = tt
fresh-NoFiles (suc n) = (refl, fresh-NoFiles n)

-- What a host sends to upload files.
pub data Request : Type 0 where
  seed : List ℕ → Bytes → Request
  chunk : Bytes → Request

module _ {D : Type 0} (k : Disk D) (tmp_file_path : Bytes) (md5 : Bytes → Bytes) where
  -- The answer to a request, and the state behind it, where memory is given.
  abbrev pub serve : Request → Uploads D → Uploads D × ℕ
  serve (seed random bytes) s =
      let after = seed_blob k tmp_file_path md5 random true (some bytes) s in (after.0, after.1)
  serve (chunk bytes) s =
      let after = append_chunk_to_blob k tmp_file_path md5 true (some bytes) s in (after.0, after.1)

  abbrev pub serve_all : List Request → Uploads D → Uploads D
  serve_all [] s = s
  serve_all (r ∷ rs) s = serve_all rs (serve r s).0

  IsStuck : Uploads D → Type 0
  IsStuck s = (s.num_uploads ≡ 20) × NoFiles s.file_uploads

  registers_none :
      (name blob_id : Bytes) (o : Option (ℕ × D)) (s : Uploads D)
      → IsStuck s
      → IsStuck (register k tmp_file_path name blob_id o s)
  unfolding IsStuck register add_file_upload
  registers_none name blob_id none s h = ground (arith, h)
  registers_none name blob_id (some fp) s h = ground (arith, h)

  nothing_open : (s : Uploads D) → IsStuck s → is_last_file_pointer_valid k tmp_file_path s ≡ none
  unfolding IsStuck is_last_file_pointer_valid
  nothing_open s h = ground (arith, last-NoFiles 19 s.file_uploads h.1)

  seed-IsStuck :
      (random : List ℕ) (bytes : Bytes) (s : Uploads D)
      → IsStuck s
      → IsStuck (seed_blob k tmp_file_path md5 random true (some bytes) s).0
  unfolding IsStuck seed_blob prepare_file_upload finish_last
  seed-IsStuck random bytes s h =
      let begun = record s { complete_ctx = bytes } in
      let name = generate_random_filename random tmp_file_path in
      subst
        (λ p. IsStuck (
          let f = finish_last k tmp_file_path p begun in
          register k tmp_file_path name (md5 bytes) (k.fopen name f.disk) f))
        (sym (nothing_open begun h))
        (registers_none name (md5 bytes) (k.fopen name begun.disk) begun h)

  chunk-IsStuck :
      (bytes : Bytes) (s : Uploads D)
      → IsStuck s
      → IsStuck (append_chunk_to_blob k tmp_file_path md5 true (some bytes) s).0
        × ((append_chunk_to_blob k tmp_file_path md5 true (some bytes) s).1 ≡ 3)
  unfolding IsStuck append_chunk_to_blob update_last_blob_id get_file_pointer_from_blob_id
      write_chunk
  chunk-IsStuck bytes s h =
      let digest = md5 (s.complete_ctx ++ bytes) in
      ground (
        arith,
        renew-NoFiles digest 19 s.file_uploads h.1,
        pointer_of-NoFiles digest 20
            (modify 19 (λ u. record u { blob_id = copy_blob digest u.blob_id }) s.file_uploads),
      )

  served : (r : Request) (s : Uploads D) → IsStuck s → IsStuck (serve r s).0
  unfolding IsStuck
  served (seed random bytes) s h = seed-IsStuck random bytes s h
  served (chunk bytes) s h = (chunk-IsStuck bytes s h).0

  all_served : (rs : List Request) (s : Uploads D) → IsStuck s → IsStuck (serve_all rs s)
  all_served [] s h = h
  all_served (r ∷ rs) s h = all_served rs (serve r s).0 (served r s h)

  -- Where every allocation succeeds: once 20 uploads were registered, nothing can be uploaded behind a
  -- purge: whatever seeds and chunks the host sends behind it, each further seed is answered with 0 and
  -- each further chunk with 3, for want of a file.
  pub purge_blobs-full :
      (s : Uploads D) (rs : List Request) (random : List ℕ) (bytes : Bytes)
      → s.num_uploads ≡ 20
      → (let after = serve_all rs (purge_blobs k tmp_file_path s).0 in
          ((serve (seed random bytes) after).1 ≡ 0) × ((serve (chunk bytes) after).1 ≡ 3))
  unfolding purge_blobs IsStuck seed_blob
  purge_blobs-full s rs random bytes counted =
      let purged = (purge_blobs k tmp_file_path s).0 in
      (
        refl,
        (chunk-IsStuck bytes (serve_all rs purged)
            (all_served rs purged (counted, fresh-NoFiles 20))).1,
      )
