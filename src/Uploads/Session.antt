-- ===== src/Uploads/Session.antt =====
-- app/src/plc_rpc.c: an upload under way, over the calls of `AppendChunkToBlob`.
use beremiz4u_c.Common.{
  ℕ, suc, ◌≡◌, refl, ap, sym, ◌∙◌, true, List, [], ◌∷◌, ◌++◌, Option, none, some, ◌==◌,
  if◌then◌else◌, arith, length, take, take_all, subst, get_elem?, append-nil, append_assoc,
}
use beremiz4u_c.Uploads.{
  Bytes, Disk, Blob, FileUpload, Uploads, copy_blob, modify, find_upload, pointer_of,
  update_last_blob_id, get_file_pointer_from_blob_id,
}
use beremiz4u_c.Uploads.Calls.{seed_blob, write_chunk, append_chunk_to_blob}
use beremiz4u_c.Uploads.Bytes.{has_blob-copy_blob, take-modify, get_elem?-modify, find_upload-last}

abbrev pub joined_chunks : List Bytes → Bytes
joined_chunks [] = []
joined_chunks (c ∷ cs) = c ++ joined_chunks cs

module _ {D : Type 0} (k : Disk D) (tmp_file_path : Bytes) (md5 : Bytes → Bytes) where
  -- The host sends the chunks while the answers are 0.
  unfoldable pub append_chunks : List Bytes → Uploads D × ℕ × Bytes → Uploads D × ℕ × Bytes
  append_chunks [] answer = answer
  append_chunks (c ∷ cs) (s, code, blob_id) =
      let rest = append_chunks cs (append_chunk_to_blob k tmp_file_path md5 true (some c) s) in
      if code == 0 then rest else (s, code, blob_id)

  abbrev pub upload : List ℕ → Bytes → List Bytes → Uploads D → Uploads D × ℕ × Bytes
  upload random seed chunks s =
      append_chunks chunks (seed_blob k tmp_file_path md5 random true (some seed) s)

  -- No earlier upload has one of the ids that this one gets.
  abbrev pub Fresh : List FileUpload → Bytes → List Bytes → Type 0
  Fresh us fed [] = find_upload (md5 fed) us ≡ none
  Fresh us fed (c ∷ cs) = (find_upload (md5 fed) us ≡ none) × Fresh us (fed ++ c) cs

  -- An upload under way as the entry n, behind the entries `us`.
  pub record Current (us : List FileUpload) (n h : ℕ) (name fed : Bytes) (s : Uploads D)
      : Type 0 where
    pub counted : s.num_uploads ≡ suc n
    pub older : take n s.file_uploads ≡ us
    pub upload : FileUpload
    pub at : get_elem? s.file_uploads n ≡ some upload
    pub old : Blob
    pub id : upload.blob_id ≡ copy_blob (md5 fed) old
    pub pointer : upload.file_pointer ≡ some h
    pub named : upload.filename ≡ name
    pub context : s.complete_ctx ≡ fed

  pub found_now :
      {us : List FileUpload} {n h : ℕ} {name fed : Bytes} {s : Uploads D}
      (c : Current us n h name fed s)
      → find_upload (md5 fed) us ≡ none
      → find_upload (md5 fed) (take s.num_uploads s.file_uploads) ≡ some c.upload
  found_now {us} {n} {h} {name} {fed} {s} c fresh =
      ap (λ m. find_upload (md5 fed) (take m s.file_uploads)) c.counted
      ∙ find_upload-last (md5 fed) n s.file_uploads c.upload
          (ap (find_upload (md5 fed)) c.older ∙ fresh) c.at
          (has_blob-copy_blob (md5 fed) c.upload c.old c.id)

  -- The state behind a chunk.
  abbrev renewed : ℕ → Bytes → Uploads D → Uploads D
  renewed n fed s = record s {
    complete_ctx = fed;
    file_uploads =
        modify n (λ u. record u { blob_id = copy_blob (md5 fed) u.blob_id }) s.file_uploads;
  }

  abbrev chunk_written : ℕ → ℕ → Bytes → Bytes → Uploads D → Uploads D
  chunk_written n h fed chunk s = record (renewed n (fed ++ chunk) s) {
    disk = (k.fwrite h chunk s.disk).0;
  }

  renewed-Current :
      {us : List FileUpload} {n h : ℕ} {name fed : Bytes} {s : Uploads D}
      → Current us n h name fed s
      → (chunk : Bytes) (d : D)
      → Current us n h name (fed ++ chunk) (record (renewed n (fed ++ chunk) s) { disk = d })
  renewed-Current {us} {n} {h} {name} {fed} {s} c chunk d = record {
    counted = c.counted;
    older = take-modify n _ s.file_uploads ∙ c.older;
    upload = record c.upload { blob_id = copy_blob (md5 (fed ++ chunk)) c.upload.blob_id };
    at = get_elem?-modify n _ s.file_uploads c.upload c.at;
    old = c.upload.blob_id;
    id = refl;
    pointer = c.pointer;
    named = c.named;
    context = refl;
  }

  update_last :
      (n : ℕ) (fed : Bytes) (s : Uploads D)
      → s.num_uploads ≡ suc n
      → s.complete_ctx ≡ fed
      → update_last_blob_id k tmp_file_path (md5 fed) s ≡ renewed n fed s
  unfolding update_last_blob_id
  update_last n fed s counted context = ground arith

  appended :
      {us : List FileUpload} {n h : ℕ} {name fed : Bytes} {s : Uploads D}
      → Current us n h name fed s
      → (chunk : Bytes) → ((k.fwrite h chunk s.disk).1 ≡ length chunk)
      → find_upload (md5 (fed ++ chunk)) us ≡ none
      → append_chunk_to_blob k tmp_file_path md5 true (some chunk) s
        ≡ (chunk_written n h fed chunk s, 0, md5 (fed ++ chunk))
  unfolding append_chunk_to_blob write_chunk get_file_pointer_from_blob_id
  appended {us} {n} {h} {name} {fed} {s} c chunk whole fresh =
      let next = renewed-Current c chunk s.disk in
      let found = found_now next fresh in
      let last =
        update_last n (fed ++ chunk) (record s { complete_ctx = fed ++ chunk }) c.counted refl in
      ap
        (λ f. answer f (
          update_last_blob_id k tmp_file_path (md5 (f ++ chunk))
            (record s { complete_ctx = f ++ chunk })))
        c.context
      ∙ ap (answer fed) last
      ∙ ap (written_to fed (renewed n (fed ++ chunk) s)) (ap pointer_of found ∙ next.pointer)
      ∙ ground (arith, whole)
    where
      written_to : Bytes → Uploads D → Option ℕ → Uploads D × ℕ × Bytes
      written_to f updated p =
          let w = write_chunk k tmp_file_path md5 chunk p updated in (w.0, w.1, md5 (f ++ chunk))

      answer : Bytes → Uploads D → Uploads D × ℕ × Bytes
      answer f updated =
          written_to f updated
            (get_file_pointer_from_blob_id k tmp_file_path (md5 (f ++ chunk)) updated)

  Fresh-now :
      (us : List FileUpload) (fed : Bytes) (chunks : List Bytes)
      → Fresh us fed chunks
      → find_upload (md5 fed) us ≡ none
  Fresh-now us fed [] h = h
  Fresh-now us fed (c ∷ cs) h = h.0

  -- All chunks, one after the other.
  pub all_appended :
      (chunks : List Bytes) {us : List FileUpload} {n h : ℕ} {name fed : Bytes} {s : Uploads D}
      → Current us n h name fed s
      → ((fp : ℕ) (bytes : Bytes) (d : D) → (k.fwrite fp bytes d).1 ≡ length bytes)
      → Fresh us fed chunks
      → (after : Uploads D) × (append_chunks chunks (s, 0, md5 fed)
          ≡ (after, 0, md5 (fed ++ joined_chunks chunks)))
        × Current us n h name (fed ++ joined_chunks chunks) after
        × (k.written after.disk h ≡ k.written s.disk h ++ joined_chunks chunks)
        × (find_upload (md5 (fed ++ joined_chunks chunks)) us ≡ none)
  unfolding append_chunks
  all_appended [] {us} {n} {h} {name} {fed} {s} c whole fresh =
      let nothing = sym (append-nil fed) in
      (
        s,
        ap (λ f. (s, 0, md5 f)) nothing,
        subst (λ f. Current us n h name f s) nothing c,
        sym (append-nil (k.written s.disk h)),
        ap (λ f. find_upload (md5 f) us) (append-nil fed) ∙ fresh,
      )
  all_appended (chunk ∷ chunks) {us} {n} {h} {name} {fed} {s} c whole fresh =
      let first =
        appended c chunk (whole h chunk s.disk) (Fresh-now us (fed ++ chunk) chunks fresh.1) in
      let next = renewed-Current c chunk (k.fwrite h chunk s.disk).0 in
      let rest = all_appended chunks next whole fresh.1 in
      let assoc = append_assoc fed chunk (joined_chunks chunks) in
      (
        rest.0,
        ap (append_chunks chunks) first ∙ rest.1 ∙ ap (λ f. (rest.0, 0, md5 f)) assoc,
        subst (λ f. Current us n h name f rest.0) assoc rest.2,
        rest.3
            ∙ ap (λ w. w ++ joined_chunks chunks)
                (k.written-fwrite h chunk s.disk
                  ∙ ap (λ m. k.written s.disk h ++ take m chunk) (whole h chunk s.disk)
                  ∙ ap (λ l. k.written s.disk h ++ l) (take_all chunk))
            ∙ append_assoc (k.written s.disk h) chunk (joined_chunks chunks),
        ap (λ f. find_upload (md5 f) us) (sym assoc) ∙ rest.4,
      )
