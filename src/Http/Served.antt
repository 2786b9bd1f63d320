-- ===== src/Http/Served.antt =====
-- app/src/plc_http.c: what a client gets for a request.
use beremiz4u_c.Common.{
  ◌≡◌, true, List, ◌∷◌, some, arith, length, take, codes, joined, chunks-joined,
}
use beremiz4u_c.Uploads.{Bytes}
use beremiz4u_c.Http.Files.{Store, response_head, get_content_type, blocks_of, send_file}

-- For a regular file that can be opened, the client gets the head with the content type of the path,
-- and then the file as a whole in blocks.
pub send_file-joined :
    (store : Store) (file_path bytes : Bytes)
    → store.is_regular file_path ≡ true
    → store.fopen file_path ≡ some bytes
    → (blocks : List Bytes) × (send_file store file_path
        ≡ take 511 (response_head (codes "200 OK") (get_content_type file_path)) ∷ blocks)
      × (joined blocks ≡ bytes)
unfolding send_file
send_file-joined store file_path bytes regular opened = (
  blocks_of bytes,
  ground (arith, regular, opened),
  chunks-joined 1024 (length bytes) bytes (omega arith) (omega arith),
)
