-- ===== src/Uploads.antt =====
-- app/src/plc_rpc.c: the calls by which the host uploads files and installs a new program.
-- The file system of the kernel and the digest of mbedtls are parameters. A digest context is the
-- bytes that it was fed. The answers of `k_malloc` are part of each call.
pub mod Calls
pub mod Install
pub mod Match
pub mod Matched
pub mod Bytes
pub mod Sized
pub mod Session
pub mod Upload
pub mod Full
pub mod Replace
pub mod Keeps
pub mod Example
pub mod Serve
pub mod Checks
use beremiz4u_c.Common.{
  ℕ, zero, suc, ◌+◌, ◌-◌, ◌%◌, ◌≤◌, ◌<◌, ◌≡◌, Bool, true, false, List, [], ◌∷◌, ◌++◌, Option, none,
  some, ltb, ◌==◌, ◌&&◌, if◌then◌else◌, length, take, drop, replicate, get_or, codes,
}
use beremiz4u_c.Settings.{overlay}

abbrev pub Bytes : Type 0
Bytes = List ℕ

-- memcmp and strcmp against a whole text.
abbrev pub same_bytes : Bytes → Bytes → Bool
same_bytes [] [] = true
same_bytes [] (y ∷ ys) = false
same_bytes (x ∷ xs) [] = false
same_bytes (x ∷ xs) (y ∷ ys) = (x == y) && same_bytes xs ys

-- The file system: streams by a number, files by their path. `fopen` opens for writing; `some` of
-- `fs_unlink` and `fs_rename` is their answer 0, and `fs_stat` tells whether it answers 0. A path
-- that is NULL cannot be renamed. `entries` are the names in a directory, with whether each is a
-- file. `written` are the bytes that went through a stream.
-- `finished_ctx` is of mbedtls: what `mbedtls_md5_finish` leaves in the context, as bytes that give the
-- same digests.
pub record Disk (D : Type 0) : Type 0 where
  pub fopen : Bytes → D → Option (ℕ × D)
  pub fwrite : ℕ → Bytes → D → D × ℕ
  pub fclose : ℕ → D → D
  pub fs_stat : Bytes → D → Bool
  pub fs_unlink : Bytes → D → Option D
  pub fs_rename : Option Bytes → Bytes → D → Option D
  pub finished_ctx : Bytes → Bytes
  pub entries : Bytes → D → Option (List (Bytes × Bool))
  pub written : D → ℕ → Bytes
  pub written-fopen :
      (name : Bytes) (d e : D) (h : ℕ) → fopen name d ≡ some (h, e) → written e h ≡ []
  pub written-fwrite :
      (h : ℕ) (bytes : Bytes) (d : D)
      → written (fwrite h bytes d).0 h ≡ written d h ++ take (fwrite h bytes d).1 bytes

-- `struct blob_t` and `struct file_upload`. `bytes` is the array (`data`) of 33 bytes.
pub record Blob : Type 0 where
  pub bytes : Bytes
  pub data_length : ℕ

pub record FileUpload : Type 0 where
  pub filename : Bytes
  pub blob_id : Blob
  pub file_pointer : Option ℕ

abbrev pub max_file_uploads : ℕ
max_file_uploads = 20

pub record Uploads (D : Type 0) : Type 0 where
  pub file_uploads : List FileUpload
  pub num_uploads : ℕ
  pub complete_ctx : Bytes
  pub disk : D
  pub plc_run : ℕ
  pub reload_plc_file : ℕ

unfoldable pub init_file_upload : FileUpload
init_file_upload = record {
  filename = [];
  blob_id = record { bytes = replicate 33 0; data_length = 0 };
  file_pointer = none;
}

-- memcpy into the array, and the length. An id of more than the 33 bytes is written over what lies
-- behind the array; the theorems on the array keep to shorter ones.
abbrev pub copy_blob : Bytes → Blob → Blob
copy_blob bytes blob = record { bytes = overlay bytes blob.bytes; data_length = length bytes }

abbrev pub modify {ℓ} : {A : Type ℓ} → ℕ → (A → A) → List A → List A
modify i f [] = []
modify zero f (x ∷ xs) = f x ∷ xs
modify (suc i) f (x ∷ xs) = x ∷ modify i f xs

-- The test of the loops that look for an upload.
abbrev pub has_blob : Bytes → FileUpload → Bool
has_blob bytes u =
    same_bytes (take (length bytes) u.blob_id.bytes) bytes
    && (u.blob_id.data_length == length bytes)

-- The first of the uploads with the given id.
unfoldable pub find_upload : Bytes → List FileUpload → Option FileUpload
find_upload bytes [] = none
find_upload bytes (u ∷ us) = if has_blob bytes u then some u else find_upload bytes us

abbrev pub filename_of : Option FileUpload → Option Bytes
filename_of none = none
filename_of (some u) = some u.filename

abbrev pub pointer_of : Option FileUpload → Option ℕ
pointer_of none = none
pointer_of (some u) = u.file_pointer

-- The name of a temporary file, from the random numbers.
abbrev charset : Bytes
charset = codes "abcdefghijklmnopqrstuvwxyzABCDEFGHIJKLMNOPQRSTUVWXYZ0123456789"

abbrev random_chars : List ℕ → Bytes
random_chars [] = []
random_chars (n ∷ ns) = get_or charset (n % 62) 0 ∷ random_chars ns

-- A slash that is appended to the path is overwritten by the first random character, so it is in
-- no branch part of the name.
unfoldable pub generate_random_filename : List ℕ → Bytes → Bytes
generate_random_filename random path = path ++ random_chars (take 8 random) ++ codes ".tmp"

module _ {D : Type 0} (k : Disk D) (tmp_file_path : Bytes) where
  unfoldable pub add_file_upload : Bytes → Bytes → Option ℕ → Uploads D → Uploads D
  add_file_upload filename blob_id file_pointer s =
      if ltb s.num_uploads max_file_uploads
      then record s {
        file_uploads =
            modify s.num_uploads
              (λ u. record {
                filename = take 32 filename;
                blob_id = copy_blob blob_id u.blob_id;
                file_pointer = file_pointer;
              })
              s.file_uploads;
        num_uploads = s.num_uploads + 1;
      }
      else s

  unfoldable pub update_last_blob_id : Bytes → Uploads D → Uploads D
  update_last_blob_id blob_id s =
      if ltb 0 s.num_uploads
      then record s {
        file_uploads =
            modify (s.num_uploads - 1) (λ u. record u { blob_id = copy_blob blob_id u.blob_id })
              s.file_uploads;
      }
      else s

  unfoldable pub get_filename_from_blob_id : Bytes → Uploads D → Option Bytes
  get_filename_from_blob_id blob_id s =
      filename_of (find_upload blob_id (take s.num_uploads s.file_uploads))

  unfoldable pub get_file_pointer_from_blob_id : Bytes → Uploads D → Option ℕ
  get_file_pointer_from_blob_id blob_id s =
      pointer_of (find_upload blob_id (take s.num_uploads s.file_uploads))

  -- The entry of the last upload. With none, the id is empty and the pointer is NULL.
  abbrev pub last_upload : Uploads D → FileUpload
  last_upload s = get_or s.file_uploads (s.num_uploads - 1) init_file_upload

  unfoldable pub get_last_blob_id : Uploads D → Blob
  unfolding init_file_upload
  get_last_blob_id s =
      if ltb 0 s.num_uploads then (last_upload s).blob_id else init_file_upload.blob_id

  unfoldable pub is_last_file_pointer_valid : Uploads D → Option ℕ
  is_last_file_pointer_valid s = if ltb 0 s.num_uploads then (last_upload s).file_pointer else none

  unfoldable pub close_file : Option ℕ → Uploads D → Uploads D × ℕ
  close_file none s = (s, 1)
  close_file (some fp) s = (record s { disk = k.fclose fp s.disk }, 0)

  unfoldable pub finish_file_upload : Bytes → Uploads D → Uploads D × ℕ
  unfolding close_file
  finish_file_upload blob_id s =
      let updated = update_last_blob_id blob_id s in
      close_file (get_file_pointer_from_blob_id blob_id updated) updated

  unfoldable pub finish_last : Option ℕ → Uploads D → Uploads D
  finish_last none s = s
  finish_last (some fp) s =
      let blob = get_last_blob_id s in (finish_file_upload (take blob.data_length blob.bytes) s).0

  unfoldable pub register : Bytes → Bytes → Option (ℕ × D) → Uploads D → Uploads D
  register filename blob_id none s = add_file_upload filename blob_id none s
  register filename blob_id (some (fp, d)) s =
      add_file_upload filename blob_id (some fp) (record s { disk = d })

  -- `prepare_fileUpload`, which answers 0.
  unfoldable pub prepare_file_upload : List ℕ → Bytes → Uploads D → Uploads D
  prepare_file_upload random blob_id s =
      let finished = finish_last (is_last_file_pointer_valid s) s in
      let filename = generate_random_filename random tmp_file_path in
      register filename blob_id (k.fopen filename finished.disk) finished
