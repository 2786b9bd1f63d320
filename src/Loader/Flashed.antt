-- ===== src/Loader/Flashed.antt =====
-- app/src/plc_loader.c: what `cmd_plc_flash_module` leaves in the partition, and its load.
use beremiz4u_c.Common.{
  ℕ, zero, suc, ◌+◌, ◌≤◌, ◌≡◌, ◌≢◌, refl, sym, ap, ap₂, ◌∙◌, true, joined, chunks-joined, List, [],
  ◌∷◌, ◌++◌, append_assoc, append-nil, Option, none, some, inl, inr, ltb, ◌==◌, arith, length, take,
  drop, length-append, length-take, length-drop, take-append, take-append-drop, Bool-cases,
  Option-cases, int_value, ℤ, pos,
}
use beremiz4u_c.Loader.{Linker, Loader, load_flash, take_symbols, enoexec}
use beremiz4u_c.Loader.Flashing.{
  Bytes, poke, FlashArea, sign, parts, write_parts, write_module, flash_file, cmd_plc_flash_module,
}

-- The front of a partition once data is written behind it.
take-poke :
    (chunk bytes : Bytes) (offset : ℕ)
    → offset + length chunk ≤ length bytes
    → take (offset + length chunk) (poke offset chunk bytes) ≡ take offset bytes ++ chunk
take-poke chunk bytes offset h =
    let front = take offset bytes in
    let rest = drop (offset + length chunk) bytes in
    let size : offset + length chunk ≡ length (front ++ chunk) =
      omega (arith, length-append front chunk, length-take offset bytes) in
    ap (λ n. take n (poke offset chunk bytes)) size
    ∙ ap (take (length (front ++ chunk))) (sym (append_assoc front chunk rest))
    ∙ take-append (front ++ chunk) rest

length-poke :
    (chunk bytes : Bytes) (offset : ℕ)
    → offset + length chunk ≤ length bytes
    → length (poke offset chunk bytes) ≡ length bytes
length-poke chunk bytes offset h = omega (
  arith,
  length-append (take offset bytes) (chunk ++ drop (offset + length chunk) bytes),
  length-append chunk (drop (offset + length chunk) bytes),
  length-take offset bytes,
  length-drop (offset + length chunk) bytes,
)

module _ {P : Type 0} (k : FlashArea P) where
  write_parts-joined :
      (ps : List Bytes) (offset : ℕ) (p : P) (front : Bytes)
      → take offset (k.bytes p) ≡ front
      → offset ≤ length (k.bytes p)
      → (write_parts k ps offset p).1 ≡ pos 0
      → take (offset + length (joined ps)) (k.bytes (write_parts k ps offset p).0)
        ≡ front ++ joined ps
  unfolding write_parts
  write_parts-joined [] offset p front start within h =
      ap (λ n. take n (k.bytes p)) (omega arith) ∙ start ∙ sym (append-nil front)
  write_parts-joined (part ∷ ps) offset p front start within h =
      elim (Option-cases (k.write offset part p)) [
        | inl failed ↦ absurd (ground (arith, failed, h))
        | inr (q, wrote) ↦
            let fits = k.write_within offset part p q wrote in
            let became = k.bytes-write offset part p q wrote in
            let start' : take (offset + length part) (k.bytes q) ≡ front ++ part =
              ap (take (offset + length part)) became
              ∙ take-poke part (k.bytes p) offset fits
              ∙ ap (λ f. f ++ part) start in
            let size : length (k.bytes q) ≡ length (k.bytes p) =
              ap length became ∙ length-poke part (k.bytes p) offset fits in
            let goes_on : write_parts k (part ∷ ps) offset p
                ≡ write_parts k ps (offset + length part) q =
              rw (wrote, write_parts) in
            let rest =
              write_parts-joined ps (offset + length part) q (front ++ part) start'
                (omega (arith, size, fits)) (sym (ap (λ r. r.1) goes_on) ∙ h) in
            let total : offset + length (joined (part ∷ ps))
                ≡ offset + length part + length (joined ps) =
              omega (arith, length-append part (joined ps)) in
            ap₂ (λ n r. take n (k.bytes r.0)) total goes_on
            ∙ rest
            ∙ append_assoc front part (joined ps)
      ]

  -- What was read of a file: its header, and what the loop reads.
  abbrev pub read_of : Option ℕ → Bytes → Bytes
  read_of fails content = take 8 content ++ joined (parts fails (drop 8 content))

  write_module-joined :
      (fails : Option ℕ) (content : Bytes) (p : P)
      → 8 ≤ length content
      → (write_module k fails content p).1 ≡ pos 0
      → take (length (read_of fails content)) (k.bytes (write_module k fails content p).0)
        ≡ read_of fails content
  unfolding write_module
  write_module-joined fails content p long h = elim (Option-cases (k.write 0 (take 8 content) p)) [
    | inl failed ↦ absurd (ground (arith, failed, h))
    | inr (q, wrote) ↦
        let ps = parts fails (drop 8 content) in
        let header : length (take 8 content) ≡ 8 = omega (arith, length-take 8 content, long) in
        let fits = k.write_within 0 (take 8 content) p q wrote in
        let became = k.bytes-write 0 (take 8 content) p q wrote in
        let eight : 8 ≡ 0 + length (take 8 content) = omega (arith, header) in
        let start : take 8 (k.bytes q) ≡ take 8 content =
          ap₂ take eight became ∙ take-poke (take 8 content) (k.bytes p) 0 fits in
        let room : 8 ≤ length (k.bytes q) = omega (
          arith,
          header,
          fits,
          ap length became,
          length-poke (take 8 content) (k.bytes p) 0 fits,
        ) in
        let goes_on : write_module k fails content p ≡ write_parts k ps 8 q =
          rw (wrote, write_module) in
        let total : length (read_of fails content) ≡ 8 + length (joined ps) =
          omega (arith, length-append (take 8 content) (joined ps), header) in
        ap₂ (λ n r. take n (k.bytes r.0)) total goes_on
        ∙ write_parts-joined ps 8 q (take 8 content) start room (sym (ap (λ r. r.1) goes_on) ∙ h)
  ]

  -- What a successful flash has tested and done.
  abbrev HasWritten : Option ℕ → Bytes → P × ℤ → Type 0
  HasWritten fails content r =
      (8 ≤ length content)
      × ((int_value (take 4 content) == sign) ≡ true)
      × (take (length (read_of fails content)) (k.bytes r.0) ≡ read_of fails content)

  flash_file-HasWritten :
      (fails : Option ℕ) (content : Bytes) (p : P)
      → (flash_file k fails content p).1 ≡ pos 0
      → HasWritten fails content (flash_file k fails content p)
  unfolding flash_file
  flash_file-HasWritten fails content p h = elim (Bool-cases (ltb (length content) 8)) [
    | inl short ↦ absurd (ground (arith, short, h))
    | inr long ↦ elim (Bool-cases (int_value (take 4 content) == sign)) [
      | inr unsigned ↦ absurd (ground (arith, long, unsigned, h))
      | inl signed ↦ elim (Bool-cases (k.opens p)) [
        | inr shut ↦ absurd (ground (arith, long, signed, shut, h))
        | inl opened ↦ elim (Option-cases (k.erase p)) [
          | inl failed ↦ absurd (ground (arith, long, signed, opened, failed, h))
          | inr (q, erased) ↦
              let size : 8 ≤ length content = ground (arith, long) in
              let same : flash_file k fails content p ≡ write_module k fails content q =
                ground (arith, long, signed, opened, erased) in
              (
                size,
                signed,
                ap (λ r. take (length (read_of fails content)) (k.bytes r.0)) same
                    ∙ write_module-joined fails content q size (sym (ap (λ r. r.1) same) ∙ h),
              )
        ]
      ]
    ]
  ]

  take_front : (n m : ℕ) (s : Bytes) → n ≤ m → take n (take m s) ≡ take n s
  take_front zero m s h = refl
  take_front (suc n) zero s h = absurd (omega arith)
  take_front (suc n) (suc m) [] h = refl
  take_front (suc n) (suc m) (x ∷ s) h = ap (◌∷◌ x) (take_front n m s (omega arith))

  front_of : (n : ℕ) (s t : Bytes) → n ≤ length s → take n (s ++ t) ≡ take n s
  front_of zero s t h = refl
  front_of (suc n) [] t h = absurd (omega (arith, h))
  front_of (suc n) (x ∷ s) t h = ap (◌∷◌ x) (front_of n s t (omega (arith, h)))

  all_read : (content : Bytes) → read_of none content ≡ content
  all_read content =
      ap (◌++◌ (take 8 content))
        (chunks-joined 128 (length (drop 8 content)) (drop 8 content) (omega arith) (omega arith))
      ∙ take-append-drop 8 content

  -- Where a flash of a file answers 0, the partition holds what was read of the file from its start
  -- on, which is the whole file if no read failed; and a load of "FLASH" that reads the partition takes
  -- it for a module: it does not answer ENOEXEC.
  pub cmd_plc_flash_module-loads :
      {M : Type 0} (l : Linker M) (crc32_ieee : List ℕ → ℕ) (fails : Option ℕ) (content : Bytes)
      (p : P) (s : Loader M)
      → (cmd_plc_flash_module k fails (some content) p).1 ≡ pos 0
      → (let image = k.bytes (cmd_plc_flash_module k fails (some content) p).0 in
          (take (length (read_of fails content)) image ≡ read_of fails content)
          × (read_of none content ≡ content)
          × ((load_flash l crc32_ieee sign
                (record { opens = true; read_answer = 0; image = image })
                s).1
              ≢ enoexec))
  unfolding cmd_plc_flash_module load_flash take_symbols
  cmd_plc_flash_module-loads l crc32_ieee fails content p s h =
      let w = flash_file-HasWritten fails content p h in
      let image = k.bytes (flash_file k fails content p).0 in
      let read = read_of fails content in
      let header : length (take 8 content) ≡ 8 = omega (arith, length-take 8 content, w.0) in
      let long : 4 ≤ length read =
        omega
          (arith, header, length-append (take 8 content) (joined (parts fails (drop 8 content)))) in
      let front : take 4 image ≡ take 4 content =
        sym (take_front 4 (length read) image long)
        ∙ ap (take 4) w.2
        ∙ front_of 4 (take 8 content) (joined (parts fails (drop 8 content)))
            (omega (arith, header))
        ∙ take_front 4 8 content (omega arith) in
      let signed : (int_value (take 4 image) == sign) ≡ true =
        ap (λ t. int_value t == sign) front ∙ w.1 in
      (w.2, all_read content, λ e. ground (arith, signed, e))
