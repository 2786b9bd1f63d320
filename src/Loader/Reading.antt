-- ===== src/Loader/Reading.antt =====
-- app/src/plc_loader.c: reading a program into the buffer.
use beremiz4u_c.Common.{
  ℕ, ◌+◌, ◌≤◌, ◌≡◌, sym, List, [], ◌∷◌, ◌++◌, append-nil, append_assoc, arith, length,
  length-append,
}
use beremiz4u_c.Loader.{read_block_size, read_blocks}

-- What `fs_read` gives is no longer than what it is asked for.
abbrev pub AreBlocks : List (List ℕ) → Type 0
AreBlocks [] = Unit {0}
AreBlocks (b ∷ bs) = (length b ≤ read_block_size) × AreBlocks bs

abbrev pub all_bytes : List (List ℕ) → List ℕ
all_bytes [] = []
all_bytes (b ∷ bs) = b ++ all_bytes bs

read_blocks-le :
    (capacity : ℕ) (blocks : List (List ℕ)) (bytes : List ℕ)
    → AreBlocks blocks
    → length bytes + read_block_size ≤ capacity
    → length (read_blocks capacity blocks bytes) ≤ capacity
unfolding read_blocks
read_blocks-le capacity [] bytes h room = omega arith
read_blocks-le capacity (b ∷ bs) bytes h room =
    ground (arith, h, length-append bytes b, read_blocks-le capacity bs (bytes ++ b))

read_blocks_whole :
    (capacity : ℕ) (blocks : List (List ℕ)) (bytes : List ℕ)
    → length (bytes ++ all_bytes blocks) + read_block_size ≤ capacity
    → read_blocks capacity blocks bytes ≡ bytes ++ all_bytes blocks
unfolding read_blocks
read_blocks_whole capacity [] bytes room = sym (append-nil bytes)
read_blocks_whole capacity (b ∷ bs) bytes room = ground (
  arith,
  append_assoc bytes b (all_bytes bs),
  length-append bytes (b ++ all_bytes bs),
  length-append b (all_bytes bs),
  length-append bytes b,
  read_blocks_whole capacity bs (bytes ++ b),
)

-- With a buffer of at least one block, and blocks that are no longer than asked for, the loop never
-- writes past the end of the buffer, however long the file is; and a file that is at least a block
-- shorter than the buffer is read whole.
pub read_blocks_lem :
    (capacity : ℕ) (blocks : List (List ℕ))
    → AreBlocks blocks
    → read_block_size ≤ capacity
    → (length (read_blocks capacity blocks []) ≤ capacity)
      × (length (all_bytes blocks) + read_block_size ≤ capacity
          → read_blocks capacity blocks [] ≡ all_bytes blocks)
read_blocks_lem capacity blocks h room =
    (read_blocks-le capacity blocks [] h room, λ small. read_blocks_whole capacity blocks [] small)
