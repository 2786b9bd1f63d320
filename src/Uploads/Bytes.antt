-- ===== src/Uploads/Bytes.antt =====
-- app/src/plc_rpc.c: looking for an upload by its id, in the array of uploads.
use beremiz4u_c.Common.{
  ℕ, zero, suc, ◌<◌, ◌≡◌, refl, ap, ◌∙◌, true, List, [], ◌∷◌, none, some, ◌==◌, ◌&&◌, arith, length,
  take, drop, take-append, get_elem?,
}
use beremiz4u_c.Uploads.{
  Bytes, same_bytes, Blob, FileUpload, copy_blob, modify, has_blob, find_upload,
}

pub same_bytes_refl : (b : Bytes) → same_bytes b b ≡ true
same_bytes_refl [] = refl
same_bytes_refl (x ∷ b) = ground (arith, same_bytes_refl b)

pub same_bytes_sound : (a b : Bytes) → same_bytes a b ≡ true → a ≡ b
same_bytes_sound [] [] h = refl
same_bytes_sound [] (y ∷ b) h = ground arith
same_bytes_sound (x ∷ a) [] h = ground arith
same_bytes_sound (x ∷ a) (y ∷ b) h = ground (arith, same_bytes_sound a b)

-- An entry whose id was copied from some bytes is found by them.
pub has_blob-copy_blob :
    (b : Bytes) (u : FileUpload) (old : Blob) → u.blob_id ≡ copy_blob b old → has_blob b u ≡ true
has_blob-copy_blob b u old e =
    ap (λ blob. same_bytes (take (length b) blob.bytes) b && (blob.data_length == length b)) e
    ∙ ground (arith, take-append b (drop (length b) old.bytes), same_bytes_refl b)

pub length-modify :
    (i : ℕ) (f : FileUpload → FileUpload) (us : List FileUpload)
    → length (modify i f us) ≡ length us
length-modify i f [] = refl
length-modify zero f (u ∷ us) = refl
length-modify (suc i) f (u ∷ us) = ap suc (length-modify i f us)

pub take-modify :
    (n : ℕ) (f : FileUpload → FileUpload) (us : List FileUpload)
    → take n (modify n f us) ≡ take n us
take-modify zero f us = refl
take-modify (suc n) f [] = refl
take-modify (suc n) f (u ∷ us) = ap (◌∷◌ u) (take-modify n f us)

pub get_elem?-modify :
    (n : ℕ) (f : FileUpload → FileUpload) (us : List FileUpload) (u : FileUpload)
    → get_elem? us n ≡ some u
    → get_elem? (modify n f us) n ≡ some (f u)
get_elem?-modify n f [] u e = ground arith
get_elem?-modify zero f (v ∷ us) u e = ground arith
get_elem?-modify (suc n) f (v ∷ us) u e = get_elem?-modify n f us u e

pub entry_at :
    (n : ℕ) (us : List FileUpload) → n < length us → (u : FileUpload) × (get_elem? us n ≡ some u)
entry_at n [] lt = elim lt [ ]
entry_at zero (u ∷ us) lt = (u, refl)
entry_at (suc n) (u ∷ us) lt = entry_at n us (omega arith)

-- The search meets the entry n where no earlier one has the id.
pub find_upload-last :
    (b : Bytes) (n : ℕ) (us : List FileUpload) (u : FileUpload)
    → find_upload b (take n us) ≡ none
    → get_elem? us n ≡ some u
    → has_blob b u ≡ true
    → find_upload b (take (suc n) us) ≡ some u
unfolding find_upload
find_upload-last b n [] u none_before at has = ground arith
find_upload-last b zero (v ∷ us) u none_before at has = ground arith
find_upload-last b (suc n) (v ∷ us) u none_before at has = ground (arith, find_upload-last b n us u)
