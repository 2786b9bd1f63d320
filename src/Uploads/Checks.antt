-- ===== src/Uploads/Checks.antt =====
-- Uploads to a disk in memory with a digest that tells the length only, and the theorems on them.
use beremiz4u_c.Common.{
  false, true, ℕ, ◌+◌, ◌-◌, ◌≡◌, ◌≤◌, refl, ap, sym, ◌∙◌, Bool, true, List, [], ◌∷◌, ◌++◌, Option,
  none, some, ◌==◌, if◌then◌else◌, arith, length, replicate, codes,
}
use beremiz4u_c.Uploads.Serve.{
  Turn, success, connection_closed, other_status, poll_loop, serve_turn, rpc_server_task,
  held_after, all_held, left_by, rpc_server_task-held,
}
use beremiz4u_c.Uploads.{
  Bytes, Uploads, get_file_pointer_from_blob_id, get_filename_from_blob_id,
  generate_random_filename, find_upload,
}
use beremiz4u_c.Uploads.Calls.{purge_blobs, seed_blob, append_chunk_to_blob}
use beremiz4u_c.Uploads.Install.{ExtraFile, install, move_extra_files, write_md5_file, new_plc}
use beremiz4u_c.Uploads.Session.{upload}
use beremiz4u_c.Uploads.Upload.{upload-stores}
use beremiz4u_c.Uploads.Full.{serve, serve_all, seed, chunk, purge_blobs-full}
use beremiz4u_c.Uploads.Keeps.{IsUploads, fresh-AreSized, calls-IsUploads}
use beremiz4u_c.Uploads.{finish_file_upload, update_last_blob_id}
use beremiz4u_c.Uploads.Match.{Reading, match_md5}
use beremiz4u_c.Uploads.Matched.{match_md5-new_plc}
use beremiz4u_c.Uploads.Example.{Streams, opened, memory, md5, none_yet, paths}

abbrev random : List ℕ
random = 0 ∷ 1 ∷ 2 ∷ 3 ∷ 4 ∷ 5 ∷ 6 ∷ 7 ∷ []

sized : IsUploads memory (codes "/tmp/") none_yet
sized = (refl, omega arith, fresh-AreSized memory (codes "/tmp/") 20)

upload-stores_example :
    (after : Uploads Streams) × (h : ℕ) × (upload memory
        (codes "/tmp/")
        md5
        random
        (9 ∷ [])
        ((2 ∷ 3 ∷ []) ∷ (4 ∷ []) ∷ [])
        none_yet
      ≡ (after, 0, md5 (9 ∷ 2 ∷ 3 ∷ 4 ∷ [])))
    × (memory.written after.disk h ≡ 2 ∷ 3 ∷ 4 ∷ [])
    × (get_file_pointer_from_blob_id memory (codes "/tmp/") (md5 (9 ∷ 2 ∷ 3 ∷ 4 ∷ [])) after
        ≡ some h)
    × (get_filename_from_blob_id memory (codes "/tmp/") (md5 (9 ∷ 2 ∷ 3 ∷ 4 ∷ [])) after
        ≡ some (codes "/tmp/abcdefgh.tmp"))
unfolding generate_random_filename find_upload memory
upload-stores_example =
    upload-stores memory (codes "/tmp/") md5 random (9 ∷ []) ((2 ∷ 3 ∷ []) ∷ (4 ∷ []) ∷ []) none_yet
      sized.2 refl (omega arith) (λ path d. (d.0, (opened d).1, refl)) (λ fp bytes d. refl)
      (refl, (refl, refl))

purge_blobs-full_example :
    (let after =
        serve_all memory
          (codes "/tmp/")
          md5
          []
          (purge_blobs memory (codes "/tmp/") (record none_yet { num_uploads = 20 })).0 in
      ((serve memory (codes "/tmp/") md5 (seed random (9 ∷ [])) after).1 ≡ 0)
      × ((serve memory (codes "/tmp/") md5 (chunk (9 ∷ [])) after).1 ≡ 3))
purge_blobs-full_example =
    purge_blobs-full memory (codes "/tmp/") md5 (record none_yet { num_uploads = 20 }) [] random
      (9 ∷ []) refl

calls-IsUploads_example :
    IsUploads memory (codes "/tmp/") (purge_blobs memory (codes "/tmp/") none_yet).0
    × ((random : List ℕ) (alloc : Bool) (seed : Option Bytes)
        → IsUploads memory
            (codes "/tmp/")
            (seed_blob memory (codes "/tmp/") md5 random alloc seed none_yet).0)
    × ((alloc : Bool) (chunk : Option Bytes)
        → IsUploads memory
            (codes "/tmp/")
            (append_chunk_to_blob memory (codes "/tmp/") md5 alloc chunk none_yet).0)
    × ((md5sum blob_id : Bytes) (files : List ExtraFile)
        → length blob_id ≤ 33
        → IsUploads memory
            (codes "/tmp/")
            (new_plc memory paths md5 md5sum blob_id files none_yet).0)
calls-IsUploads_example = calls-IsUploads memory paths md5 (λ b. refl) none_yet sized

-- Reading what the last stream holds.
abbrev last_stream : Streams → Option Bytes
last_stream d = some (d.1 (d.0 - 1))

abbrev after_write : Bytes → Option (ℕ × Streams) → Option Bytes
after_write bytes none = none
after_write bytes (some (h, e)) = last_stream (e.0, λ i. if i == h then e.1 i ++ bytes else e.1 i)

fresh_stream : (bytes : Bytes) (d : Streams) → after_write bytes (some (opened d)) ≡ some bytes
fresh_stream bytes d = let last : d.0 + 1 - 1 ≡ d.0 = omega arith in ground (arith, last)

read_back :
    (bytes : Bytes) (d e : Streams) (h : ℕ)
    → some (opened d) ≡ some (h, e)
    → last_stream (e.0, λ i. if i == h then e.1 i ++ bytes else e.1 i) ≡ some bytes
read_back bytes d e h open_now = sym (ap (after_write bytes) open_now) ∙ fresh_stream bytes d

reading : Reading Streams memory
unfolding memory
reading = record {
  read_file = λ path d. last_stream d;
  read-written = λ path bytes d e h open_now all. read_back bytes d e h open_now;
}

abbrev digest : Bytes
digest = replicate 33 65

abbrev filled : Uploads Streams
filled = record none_yet { complete_ctx = replicate 3 1 }

installs : (new_plc memory paths md5 digest (3 ∷ []) [] filled).1 ≡ true
unfolding memory new_plc finish_file_upload get_file_pointer_from_blob_id find_upload
    update_last_blob_id install move_extra_files write_md5_file
installs = refl

match_md5-new_plc_example :
    match_md5 memory reading
      (codes "/plc/md5.txt")
      digest
      (new_plc memory paths md5 digest (3 ∷ []) [] filled).0.disk
    ≡ some true
match_md5-new_plc_example =
    match_md5-new_plc memory reading paths md5 digest (3 ∷ []) [] filled (omega arith) installs

-- A turn without a server, one that ends in an error, and one that serves.
abbrev turns : List Turn
turns =
    record {
      has_transport = true;
      has_factory = true;
      has_server = false;
      has_service = true;
      polls = [];
    }
    ∷ record {
      has_transport = true;
      has_factory = true;
      has_server = true;
      has_service = true;
      polls = success ∷ other_status ∷ success ∷ [];
    }
    ∷ record {
      has_transport = true;
      has_factory = true;
      has_server = true;
      has_service = true;
      polls = connection_closed ∷ [];
    }
    ∷ []

rpc_server_task-held_example :
    held_after (rpc_server_task turns 1).actions []
    ≡ some (left_by (rpc_server_task turns 1).serving)
rpc_server_task-held_example = rpc_server_task-held turns 1

serves_on : left_by (rpc_server_task turns 1).serving ≡ all_held
unfolding rpc_server_task serve_turn poll_loop
serves_on = refl
