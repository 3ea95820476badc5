-- ===== src/Buffer/Faults.antt =====
-- Where the buffer leaves its memory.
use libff.Prelude.{
  ◌>>=◌, ℕ, ◌+◌, ◌-◌, ◌^◌, ◌≤◌, ◌<◌, ◌≡◌, none, some, List, arith, length, take, drop,
  length-replicate, length-written,
}
use libff.Buffer.{Cell, Buffer, cells, new_block, capcity_adj, append, resize, read, set_capacity}
use libff.Buffer.Valid.{IsValid, contents}
use libff.Buffer.Append.{length-contents}

capcity_adj_wraps : (n : ℕ) → 2 ^ 32 ≤ n + 4096 → n < 2 ^ 32 → capcity_adj n ≡ n + 4096 - 2 ^ 32
unfolding capcity_adj
capcity_adj_wraps n lo hi = ground arith

-- `CapcityAdj` wraps within 4096 bytes of 2 ^ 32: an append that must grow to such a size copies
-- past the end of a block that is too small.
pub append_wraps :
    (src : List Cell) {b : Buffer}
    → IsValid b
    → 0 < length src
    → b.capacity < b.size + length src
    → 2 ^ 32 ≤ b.size + length src + 4096
    → b.size + length src < 2 ^ 32
    → append src b ≡ none
unfolding append
append_wraps src {b} v pos full lo hi = ground (
  arith,
  capcity_adj_wraps (b.size + length src),
  length-contents v,
  length-replicate {A = Cell} (capcity_adj (b.size + length src)) none,
  length-written (new_block (capcity_adj (b.size + length src))) 0 (contents b),
)

-- `setCapacity` below the size of a valid buffer leaves the size as it is, so that `capacity -
-- size` wraps in the next `append`: that one does not grow the block, and writes past its end where
-- the data does not fit it. Size and data are below 2 ^ 31 bytes, and the data is not empty.
pub append-set_capacity :
    (cap : ℕ) (src : List Cell) {b : Buffer}
    → IsValid b
    → cap < b.size
    → 0 < length src
    → length src < 2 ^ 31
    → b.size < 2 ^ 31
    → length (cells b.block) < b.size + length src
    → set_capacity cap b >>= append src ≡ none
unfolding set_capacity append
append-set_capacity cap src {b} v less pos small size full = ground arith

-- `resize` of a valid buffer below the read position leaves that as it is, so that `size - readPos`
-- wraps in the next `read`: it returns as many bytes as were asked for, from behind the size. At
-- least one byte is asked for, they lie inside the capacity, and that is below 2 ^ 31.
pub read-resize :
    (n m : ℕ) {b : Buffer}
    → IsValid b
    → n < b.read_pos
    → 0 < m
    → b.read_pos + m ≤ b.capacity
    → m < 2 ^ 31
    → b.capacity < 2 ^ 31
    → resize n b >>= read m
      ≡ some (
        take m (drop b.read_pos (cells b.block)),
        record b { size = n; read_pos = b.read_pos + m },
      )
unfolding resize read
read-resize n m {b} v less pos room small cap = ground arith
