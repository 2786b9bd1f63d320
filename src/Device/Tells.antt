-- ===== src/Device/Tells.antt =====
-- app/src/plc_loader.c, `load_plc_module`: what its answer tells of the flag of the loaded module.
use beremiz4u_c.Common.{ℕ, ◌≡◌, ◌≢◌, if◌then◌else◌, arith, List}
use beremiz4u_c.Uploads.{Bytes}
use beremiz4u_c.Loader.{
  File, Flash, minus_one, Linker, Loader, take_symbols, load_file, load_flash, load_plc_module,
}
use beremiz4u_c.Loader.Outcome.{load_file_lem}

module _ {M : Type 0} (k : Linker M) (crc32_ieee : List ℕ → ℕ) (sign : ℕ) where
  -- What an answer tells of the flag.
  abbrev pub Tells : ℕ → Loader M × ℕ → Type 0
  Tells before r = (r.1 ≡ 0 → r.0.plc_initialized ≡ 1) × (r.1 ≢ 0 → r.0.plc_initialized ≡ before)

  take_symbols-Tells :
      (a b : ℕ) (s : Loader M) → Tells s.plc_initialized (take_symbols k crc32_ieee sign a b s)
  unfolding take_symbols
  take_symbols-Tells a b s = ground arith

  load_file-Tells :
      (file : File) (s : Loader M) → Tells s.plc_initialized (load_file k crc32_ieee sign file s)
  load_file-Tells file s =
      let lem = load_file_lem k crc32_ieee sign file s in (λ e. (lem.0 e).2, lem.2)

  load_flash-Tells :
      (flash : Flash) (s : Loader M)
      → Tells s.plc_initialized (load_flash k crc32_ieee sign flash s)
  unfolding load_flash
  load_flash-Tells flash s =
      let linked = k.load_module flash.image s.linked_module in
      ground (
        arith,
        take_symbols-Tells minus_one (if linked.1 then 1 else minus_one)
            (record s { linked_module = linked.0 }),
      )

  pub load_plc_module-Tells :
      (filename : Bytes) (file : File) (flash : Flash) (s : Loader M)
      → Tells s.plc_initialized (load_plc_module k crc32_ieee sign filename file flash s)
  unfolding load_plc_module
  load_plc_module-Tells filename file flash s =
      ground (arith, load_file-Tells file s, load_flash-Tells flash s)
