-- ===== src/Loader/Checks.antt =====
-- A small file in a buffer of two blocks, and the theorems on it.
use beremiz4u_c.Common.{
  none, length, codes, ◌↔◌, chunks, ℕ, ◌≡◌, ◌≢◌, refl, true, List, [], ◌∷◌, replicate,
}
use beremiz4u_c.Loader.{read_blocks, has_symbols, load_file}
use beremiz4u_c.Common.{some, take, pos}
use beremiz4u_c.Loader.Flashing.{Bytes, sign, write_parts, cmd_plc_flash_module}
use beremiz4u_c.Loader.Symbols.{
  udynlink_external_resolve_symbol, memcpy, name_of, udynlink_external_resolve_symbol-name_of,
}
use beremiz4u_c.Loader.Flashed.{cmd_plc_flash_module-loads, read_of}
use beremiz4u_c.Loader.{load_flash, enoexec}
use beremiz4u_c.Loader.Example.{area, write_within, file, first_byte, linker, loader}

abbrev blocks : List (List ℕ)
blocks = (1 ∷ 2 ∷ []) ∷ (3 ∷ []) ∷ []

-- The file is loaded.
loaded : (load_file linker first_byte 7 file loader).1 ≡ 0
unfolding load_file read_blocks has_symbols
loaded = refl

abbrev module_file : Bytes
module_file = 85 ∷ 68 ∷ 76 ∷ 77 ∷ 0 ∷ 0 ∷ 0 ∷ 0 ∷ 1 ∷ 2 ∷ 3 ∷ []

abbrev blank : Bytes
blank = replicate 16 0

flashes : (cmd_plc_flash_module area none (some module_file) blank).1 ≡ pos 0
unfolding area write_within cmd_plc_flash_module chunks write_parts
flashes = refl

cmd_plc_flash_module-loads_example :
    (let image = area.bytes (cmd_plc_flash_module area none (some module_file) blank).0 in
      (take (length (read_of area none module_file)) image ≡ read_of area none module_file)
      × (read_of area none module_file ≡ module_file)
      × ((load_flash linker first_byte sign
            (record { opens = true; read_answer = 0; image = image })
            loader).1
          ≢ enoexec))
cmd_plc_flash_module-loads_example =
    cmd_plc_flash_module-loads area linker first_byte none module_file blank loader flashes

udynlink_external_resolve_symbol-name_of_example :
    (udynlink_external_resolve_symbol (codes "memcpy") ≡ some memcpy)
    ↔ (codes "memcpy" ≡ name_of memcpy)
udynlink_external_resolve_symbol-name_of_example =
    udynlink_external_resolve_symbol-name_of (codes "memcpy") memcpy
