-- ===== src/Uploads/Match.antt =====
-- app/src/plc_rpc.c: `MatchMD5`, which compares a digest with the one of the installed program, and
-- `GetPLCID`.
use beremiz4u_c.Common.{
  ℕ, ◌≡◌, Bool, false, ◌&&◌, Option, none, some, ◌==◌, if◌then◌else◌, length, take,
}
use beremiz4u_c.Uploads.{Bytes, same_bytes, Disk}

-- Reading a file as a whole, `none` where `fopen` gives NULL. What is written to a file that was
-- opened for writing is read once it is closed.
pub record Reading (D : Type 0) (k : Disk D) : Type 0 where
  pub read_file : Bytes → D → Option Bytes
  pub read-written :
      (path bytes : Bytes) (d e : D) (h : ℕ)
      → k.fopen path d ≡ some (h, e)
      → (k.fwrite h bytes e).1 ≡ length bytes
      → read_file path (k.fclose h (k.fwrite h bytes e).0) ≡ some bytes

module _ {D : Type 0} (k : Disk D) (r : Reading D k) where
  -- What `fread` of 33 bytes leads to.
  abbrev pub compared : Bytes → Bytes → Bool
  compared md5 file =
      let plc_md5sum = take 33 file in
      if length plc_md5sum == 33 then same_bytes plc_md5sum (take 33 md5) else false

  -- `MatchMD5`: the value of `match`. `none`: with no file, `fclose` is called with NULL.
  unfoldable pub match_md5 : Bytes → Bytes → D → Option Bool
  match_md5 plc_md5_file md5 d = elim (r.read_file plc_md5_file d) [
    | none ↦ none
    | some file ↦ some (compared md5 file)
  ]

-- `GetPLCID`, from the outcome of the two allocations. `none`: a text is copied to NULL.
unfoldable pub get_plc_id : Bytes → Bytes → Bool → Bool → Option (Bytes × Bytes)
get_plc_id plc_id plc_psk alloc_id alloc_psk =
    if alloc_id && alloc_psk then some (plc_id, plc_psk) else none
