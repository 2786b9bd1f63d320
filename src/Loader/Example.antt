-- ===== src/Loader/Example.antt =====
-- A file in a small buffer, and a linker that finds every symbol.
use beremiz4u_c.Common.{ℕ, ◌+◌, ◌≤◌, ◌≡◌, true, false, List, [], ◌∷◌, arith, length, replicate}
use beremiz4u_c.Common.{Option, none, some, leb, if◌then◌else◌}
use beremiz4u_c.Loader.Flashing.{Bytes, poke, FlashArea}
use beremiz4u_c.Loader.{File, Flash, Linker, Loader, read_blocks}
use beremiz4u_c.Loader.Reading.{read_blocks_lem}

abbrev blocks : List (List ℕ)
blocks = (1 ∷ 2 ∷ []) ∷ (3 ∷ []) ∷ []

read_blocks_lem_example :
    (length (read_blocks 2048 blocks []) ≤ 2048)
    × (1027 ≤ 2048 → read_blocks 2048 blocks [] ≡ 1 ∷ 2 ∷ 3 ∷ [])
read_blocks_lem_example = read_blocks_lem 2048 blocks (omega arith, (omega arith, tt)) (omega arith)

-- A header whose sum is 5, and one byte behind it.
abbrev pub file : File
file = record {
  stat = 0;
  size = 9;
  open_answer = 0;
  blocks = (0 ∷ 0 ∷ 0 ∷ 0 ∷ 5 ∷ 0 ∷ 0 ∷ 0 ∷ 5 ∷ []) ∷ [];
}

abbrev pub flash : Flash
flash = record { opens = false; read_answer = 0; image = [] }

abbrev pub first_byte : List ℕ → ℕ
first_byte [] = 0
first_byte (b ∷ bs) = b

-- A linker that counts the modules and finds every symbol.
abbrev pub linker : Linker ℕ
linker = record {
  load_module = λ bytes n. (n + 1, true);
  lookup_symbol = λ n name. true;
  common_ticktime = λ n. 1000000;
}

abbrev pub loader : Loader ℕ
loader = record {
  elf_buffer = replicate 16 0;
  linked_module = 0;
  plc_initialized = 0;
  cycle_time_ns = 0;
}

-- A partition that is its bytes, and takes a write that stays within it.
unfoldable pub write_within : Bytes → ℕ → Bytes → Option Bytes
write_within p offset chunk =
    if leb (offset + length chunk) (length p) then some (poke offset chunk p) else none

pub write_within-le :
    (offset : ℕ) (chunk p q : Bytes)
    → write_within p offset chunk ≡ some q
    → offset + length chunk ≤ length p
unfolding write_within
write_within-le offset chunk p q e = ground (arith, e)

pub write_within-poke :
    (offset : ℕ) (chunk p q : Bytes)
    → write_within p offset chunk ≡ some q
    → q ≡ poke offset chunk p
unfolding write_within
write_within-poke offset chunk p q e = ground (arith, e)

unfoldable pub area : FlashArea Bytes
area = record {
  opens = λ p. true;
  erase = λ p. some (replicate (length p) 255);
  write = λ offset chunk p. write_within p offset chunk;
  bytes = λ p. p;
  write_within = write_within-le;
  bytes-write = write_within-poke;
}
