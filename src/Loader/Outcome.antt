-- ===== src/Loader/Outcome.antt =====
-- app/src/plc_loader.c, `load_plc_module`: when it answers 0 and what it leaves otherwise.
use beremiz4u_c.Common.{
  ℕ, ◌<◌, ◌≡◌, ◌≢◌, true, false, Bool-cases, ◌⊎◌, inl, inr, List, [], if◌then◌else◌, arith, length,
}
use beremiz4u_c.Settings.{overlay}
use beremiz4u_c.Loader.{
  File, Flash, Linker, Loader, check_crc, read_blocks, has_symbols, take_symbols, link_file,
  load_file, load_flash, load_plc_module, minus_one, eagain, enotsup,
}

module _ {M : Type 0} (k : Linker M) (crc32_ieee : List ℕ → ℕ) (sign : ℕ) where
  -- The buffer with the bytes of a file.
  abbrev pub filled : File → Loader M → List ℕ
  filled file s = overlay (read_blocks (length s.elf_buffer) file.blocks []) s.elf_buffer

  -- A file whose bytes are in the buffer and have the sum that its header says.
  abbrev pub IsRead : File → Loader M → Type 0
  IsRead file s =
      (file.stat ≡ 0)
      × (file.size < length s.elf_buffer)
      × (file.open_answer ≡ 0)
      × (check_crc crc32_ieee (filled file s)
            (length (read_blocks (length s.elf_buffer) file.blocks []))
          ≡ true)

  link_file_lem :
      (buffer : List ℕ) (s : Loader M)
      → (has_symbols k crc32_ieee sign (k.load_module buffer s.linked_module).0 ≡ true
          → ((link_file k crc32_ieee sign buffer s).1 ≡ 0)
            × ((link_file k crc32_ieee sign buffer s).0.plc_initialized ≡ 1))
        × (has_symbols k crc32_ieee sign (k.load_module buffer s.linked_module).0 ≡ false
            → ((link_file k crc32_ieee sign buffer s).1 ≡ eagain)
              × ((link_file k crc32_ieee sign buffer s).0.plc_initialized ≡ s.plc_initialized))
  unfolding link_file take_symbols
  link_file_lem buffer s = ground arith

  -- A file is loaded, with the answer 0, only where it is found, shorter than the buffer, can be
  -- opened and has the sum that its header says, and where the linker's module has the symbols that a
  -- program needs; whether the linker could load the module is not asked. With any other answer
  -- `plc_initialized` is as it was.
  pub load_file_lem :
      (file : File) (s : Loader M)
      → ((load_file k crc32_ieee sign file s).1 ≡ 0
          → IsRead file s
            × (has_symbols k crc32_ieee sign (k.load_module (filled file s) s.linked_module).0
                ≡ true)
            × ((load_file k crc32_ieee sign file s).0.plc_initialized ≡ 1))
        × (IsRead file s
            → has_symbols k crc32_ieee sign (k.load_module (filled file s) s.linked_module).0 ≡ true
            → (load_file k crc32_ieee sign file s).1 ≡ 0)
        × ((load_file k crc32_ieee sign file s).1 ≢ 0
            → (load_file k crc32_ieee sign file s).0.plc_initialized ≡ s.plc_initialized)
  unfolding load_file
  load_file_lem file s =
      let s' = record s { elf_buffer = filled file s } in
      let linked = link_file_lem (filled file s) s' in
      let symbols =
        Bool-cases
          (has_symbols k crc32_ieee sign (k.load_module (filled file s) s.linked_module).0) in
      (
        λ answer. ground (arith, linked, symbols),
        λ read all. ground (arith, linked, read, all),
        λ answer. ground (arith, linked, symbols),
      )

  take_symbols-supported :
      (a b : ℕ) (s : Loader M)
      → (a ≢ 0) ⊎ (b ≢ 0)
      → (take_symbols k crc32_ieee sign a b s).1 ≢ enotsup
  unfolding take_symbols
  take_symbols-supported a b s h e = ground (arith, h, e)

  -- Unless the file system gives that very answer, a load never answers `ENOTSUP`, the answer that is
  -- meant for a module that the linker cannot load, since the two results start from -1.
  pub load_plc_module-supported :
      (filename : List ℕ) (file : File) (flash : Flash) (s : Loader M)
      → file.stat ≢ enotsup
      → file.open_answer ≢ enotsup
      → (load_plc_module k crc32_ieee sign filename file flash s).1 ≢ enotsup
  unfolding load_plc_module load_file load_flash link_file
  load_plc_module-supported filename file flash s stat open_answer e =
      let buffer = filled file s in
      let of_file = k.load_module buffer s.linked_module in
      let of_flash = k.load_module flash.image s.linked_module in
      ground (
        arith,
        e,
        stat,
        open_answer,
        take_symbols-supported (if of_file.1 then 1 else minus_one) minus_one
            (record s { elf_buffer = buffer; linked_module = of_file.0 })
            (inr (λ z. omega (arith, z))),
        take_symbols-supported minus_one (if of_flash.1 then 1 else minus_one)
            (record s { linked_module = of_flash.0 }) (inl (λ z. omega (arith, z))),
      )
