-- ===== src/Loader.antt =====
-- app/src/plc_loader.c, `load_plc_module`: a program is read, checked and linked.
-- Files, the flash partition, the sum of a file and the linker are parameters. An answer is 0, or the
-- number whose negative the code returns.
pub mod Reading
pub mod Outcome
pub mod Flashing
pub mod Flashed
pub mod Symbols
pub mod Example
pub mod Checks
use beremiz4u_c.Common.{
  ℕ, zero, suc, ◌+◌, ◌-◌, ◌%◌, ◌^◌, ◌≤◌, ◌<◌, Bool, true, false, ◌||◌, not, List, [], ◌∷◌, ◌++◌,
  Option, none, some, ltb, ◌==◌, if◌then◌else◌, length, take, drop, int_value, String, codes,
}
use beremiz4u_c.Settings.{overlay}
use beremiz4u_c.Uploads.{same_bytes}

abbrev pub eio : ℕ
eio = 5

abbrev pub enoexec : ℕ
enoexec = 8

abbrev pub eagain : ℕ
eagain = 11

abbrev pub efbig : ℕ
efbig = 27

abbrev pub enotsup : ℕ
enotsup = 134

abbrev pub read_block_size : ℕ
read_block_size = 1024

-- What a file answers: `fs_stat`, the size, `fs_open`, and what the calls of `fs_read` give until one
-- gives nothing or fails.
pub record File : Type 0 where
  pub stat : ℕ
  pub size : ℕ
  pub open_answer : ℕ
  pub blocks : List (List ℕ)

-- The partition: whether it opens, the answer of the read, and the bytes from its start on.
pub record Flash : Type 0 where
  pub opens : Bool
  pub read_answer : ℕ
  pub image : List ℕ

-- The linker, over what it keeps of a module: whether a module loads, which symbols it has, and the
-- cycle time that it holds.
pub record Linker (M : Type 0) : Type 0 where
  pub load_module : List ℕ → M → M × Bool
  pub lookup_symbol : M → String → Bool
  pub common_ticktime : M → ℕ

pub record Loader (M : Type 0) : Type 0 where
  pub elf_buffer : List ℕ
  pub linked_module : M
  pub plc_initialized : ℕ
  pub cycle_time_ns : ℕ

-- `check_crc` over the buffer: whether the sum behind the header is the one in the header. A size
-- below that of the header wraps around.
unfoldable pub check_crc : (List ℕ → ℕ) → List ℕ → ℕ → Bool
check_crc crc32_ieee buffer size =
    crc32_ieee (take ((size + 2 ^ 32 - 8) % 2 ^ 32) (drop 8 buffer))
    == int_value (take 4 (drop 4 buffer))

-- The loop that reads: the bytes that went into the buffer, behind those that are there.
unfoldable pub read_blocks : ℕ → List (List ℕ) → List ℕ → List ℕ
read_blocks capacity [] bytes = bytes
read_blocks capacity (block ∷ blocks) bytes =
    let more = bytes ++ block in
    let rest = read_blocks capacity blocks more in
    if ltb (length bytes) capacity
    then (if ltb capacity (length more + read_block_size) then more else rest)
    else bytes

-- `file_loader_ret` and `flash_loader_ret` are 32-bit numbers that start from -1.
abbrev pub minus_one : ℕ
minus_one = 2 ^ 32 - 1

module _ {M : Type 0} (k : Linker M) (crc32_ieee : List ℕ → ℕ) (sign : ℕ) where
  -- The symbols without which a module is refused.
  unfoldable pub has_symbols : M → Bool
  has_symbols m =
      if not (k.lookup_symbol m "config_init__")
      then false
      else if not (k.lookup_symbol m "config_run__")
      then false
      else if not (k.lookup_symbol m "GetDebugVariable")
      then false
      else if not (k.lookup_symbol m "set_trace")
      then false
      else if not (k.lookup_symbol m "trace_reset")
      then false
      else if not (k.lookup_symbol m "common_ticktime__")
      then false
      else true

  -- What follows the two ways to load.
  unfoldable pub take_symbols : ℕ → ℕ → Loader M → Loader M × ℕ
  unfolding has_symbols
  take_symbols file_loader_ret flash_loader_ret s =
      if not (file_loader_ret == 0) || not (flash_loader_ret == 0)
      then (if has_symbols s.linked_module
          then (
            record s { cycle_time_ns = k.common_ticktime s.linked_module; plc_initialized = 1 },
            0,
          )
          else (s, eagain))
      else (s, enotsup)

  unfoldable pub link_file : List ℕ → Loader M → Loader M × ℕ
  unfolding take_symbols
  link_file buffer s =
      let linked = k.load_module buffer s.linked_module in
      take_symbols (if linked.1 then 1 else minus_one) minus_one
        (record s { linked_module = linked.0 })

  unfoldable pub load_file : File → Loader M → Loader M × ℕ
  unfolding link_file read_blocks check_crc
  load_file file s =
      let bytes = read_blocks (length s.elf_buffer) file.blocks [] in
      let buffer = overlay bytes s.elf_buffer in
      let filled = record s { elf_buffer = buffer } in
      if not (file.stat == 0)
      then (s, file.stat)
      else if not (ltb file.size (length s.elf_buffer))
      then (s, efbig)
      else if not (file.open_answer == 0)
      then (s, file.open_answer)
      else if not (check_crc crc32_ieee buffer (length bytes))
      then (filled, eio)
      else link_file buffer filled

  unfoldable pub load_flash : Flash → Loader M → Loader M × ℕ
  unfolding take_symbols
  load_flash flash s =
      let linked = k.load_module flash.image s.linked_module in
      if not flash.opens
      then (s, eio)
      else if not (flash.read_answer == 0)
      then (s, enoexec)
      else if not (int_value (take 4 flash.image) == sign)
      then (s, enoexec)
      else take_symbols minus_one (if linked.1 then 1 else minus_one)
          (record s { linked_module = linked.0 })

  unfoldable pub load_plc_module : List ℕ → File → Flash → Loader M → Loader M × ℕ
  unfolding load_file load_flash
  load_plc_module filename file flash s =
      if same_bytes filename (codes "FLASH") then load_flash flash s else load_file file s
