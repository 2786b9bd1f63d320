-- ===== src/Uploads/Sized.antt =====
-- app/src/plc_rpc.c: no id of an upload goes past its array.
use beremiz4u_c.Common.{
  ℕ, zero, suc, ◌≤◌, ◌≡◌, refl, ap, ap₂, sym, ◌∙◌, List, [], ◌∷◌, ◌++◌, arith, length, take, drop,
  take-append-drop, length-take, length-append, length-drop, get_or,
}
use beremiz4u_c.Uploads.{Bytes, Blob, FileUpload, copy_blob, modify, init_file_upload}

abbrev pub FitsBlob : FileUpload → Type 0
FitsBlob u = (length u.blob_id.bytes ≡ 33) × (u.blob_id.data_length ≤ 33)

abbrev pub AreSized : List FileUpload → Type 0
AreSized [] = Unit {0}
AreSized (u ∷ us) = FitsBlob u × AreSized us

pub modify-AreSized :
    (i : ℕ) (f : FileUpload → FileUpload) (us : List FileUpload)
    → ((u : FileUpload) → FitsBlob u → FitsBlob (f u))
    → AreSized us
    → AreSized (modify i f us)
modify-AreSized i f [] keeps h = tt
modify-AreSized zero f (u ∷ us) keeps h = (keeps u h.0, h.1)
modify-AreSized (suc i) f (u ∷ us) keeps h = (h.0, modify-AreSized i f us keeps h.1)

pub copy_blob-FitsBlob :
    (b : Bytes) (blob : Blob)
    → length b ≤ 33
    → length blob.bytes ≡ 33
    → (length (copy_blob b blob).bytes ≡ 33) × ((copy_blob b blob).data_length ≤ 33)
copy_blob-FitsBlob b blob small size =
    ground (arith, length-append b (drop (length b) blob.bytes), length-drop (length b) blob.bytes)

-- Copying its own id into an entry leaves it as it is.
copy_blob-own :
    (blob : Blob)
    → blob.data_length ≤ length blob.bytes
    → copy_blob (take blob.data_length blob.bytes) blob ≡ blob
copy_blob-own blob small =
    ap₂ (λ b n. record { bytes = b; data_length = n })
      (ap (λ n. take blob.data_length blob.bytes ++ drop n blob.bytes) same_length
        ∙ take-append-drop blob.data_length blob.bytes)
      same_length
  where
    same_length : length (take blob.data_length blob.bytes) ≡ blob.data_length
    same_length = omega (arith, length-take blob.data_length blob.bytes)

pub modify-own :
    (i : ℕ) (us : List FileUpload) (blob : Blob)
    → AreSized us
    → (get_or us i init_file_upload).blob_id ≡ blob
    → modify i
        (λ u. record u { blob_id = copy_blob (take blob.data_length blob.bytes) u.blob_id })
        us
      ≡ us
modify-own i [] blob h e = refl
modify-own zero (u ∷ us) blob h e =
    ap (λ b. record u { blob_id = b } ∷ us)
      (ap (λ b. copy_blob (take b.data_length b.bytes) u.blob_id) (sym e)
        ∙ copy_blob-own u.blob_id (omega (arith, h.0)))
modify-own (suc i) (u ∷ us) blob h e = ap (◌∷◌ u) (modify-own i us blob h.1 e)
