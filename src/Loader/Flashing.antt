-- ===== src/Loader/Flashing.antt =====
-- app/src/plc_loader.c, `cmd_plc_flash_module`: a module is copied from a file into the partition.
-- The flash area of the kernel is a parameter.
use beremiz4u_c.Common.{
  ℕ, ◌+◌, ◌*◌, ◌^◌, ◌≤◌, ◌≡◌, Bool, not, chunks, List, [], ◌∷◌, ◌++◌, Option, none, some, ltb, ◌==◌,
  if◌then◌else◌, length, take, drop, int_value, ℤ, pos, minus,
}

abbrev pub Bytes : Type 0
Bytes = List ℕ

-- Bytes written over others from an offset on.
abbrev pub poke : ℕ → Bytes → Bytes → Bytes
poke offset chunk bytes = take offset bytes ++ (chunk ++ drop (offset + length chunk) bytes)

-- `some` where the call answers 0. An erase keeps the size, and a write stays within it.
pub record FlashArea (P : Type 0) : Type 0 where
  pub opens : P → Bool
  pub erase : P → Option P
  pub write : ℕ → Bytes → P → Option P
  pub bytes : P → Bytes
  pub write_within :
      (offset : ℕ) (chunk : Bytes) (p q : P)
      → write offset chunk p ≡ some q
      → offset + length chunk ≤ length (bytes p)
  pub bytes-write :
      (offset : ℕ) (chunk : Bytes) (p q : P)
      → write offset chunk p ≡ some q
      → bytes q ≡ poke offset chunk (bytes p)

abbrev pub max_ram_buffer_size : ℕ
max_ram_buffer_size = 128

-- The letters "MLDU".
abbrev pub sign : ℕ
sign = 77 * 2 ^ 24 + 76 * 2 ^ 16 + 68 * 2 ^ 8 + 85

-- What the reads of the loop give: it ends with the file, or with the first read that fails, which
-- stands behind as many reads as the number tells.
abbrev pub up_to : Option ℕ → List Bytes → List Bytes
up_to none ps = ps
up_to (some n) ps = take n ps

abbrev pub parts : Option ℕ → Bytes → List Bytes
parts fails bytes = up_to fails (chunks max_ram_buffer_size (length bytes) bytes)

module _ {P : Type 0} (k : FlashArea P) where
  -- The loop that writes, and its code.
  unfoldable pub write_parts : List Bytes → ℕ → P → P × ℤ
  write_parts [] offset p = (p, pos 0)
  write_parts (part ∷ more) offset p = elim (k.write offset part p) [
    | none ↦ (p, minus 7)
    | some q ↦ write_parts more (offset + length part) q
  ]

  unfoldable pub write_module : Option ℕ → Bytes → P → P × ℤ
  write_module fails content p = elim (k.write 0 (take 8 content) p) [
    | none ↦ (p, minus 6)
    | some q ↦ write_parts (parts fails (drop 8 content)) 8 q
  ]

  unfoldable pub flash_file : Option ℕ → Bytes → P → P × ℤ
  unfolding write_module
  flash_file fails content p =
      if ltb (length content) 8
      then (p, minus 2)
      else if not (int_value (take 4 content) == sign)
      then (p, minus 3)
      else if not (k.opens p)
      then (p, minus 4)
      else elim (k.erase p) [ none ↦ (p, minus 5) | some q ↦ write_module fails content q ]

  -- `cmd_plc_flash_module`: the file as its bytes, or none where it cannot be opened, and the read of
  -- the loop that fails, if one does. A header that cannot be read is one of a short file.
  unfoldable pub cmd_plc_flash_module : Option ℕ → Option Bytes → P → P × ℤ
  unfolding flash_file
  cmd_plc_flash_module fails none p = (p, minus 1)
  cmd_plc_flash_module fails (some content) p = flash_file fails content p
