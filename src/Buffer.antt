-- ===== src/Buffer.antt =====
-- ff/src/buffer/Buffer.cpp: the growable byte buffer with a read position.
pub mod Valid
pub mod Append
mod Reading
pub mod Sizes
mod Faults
mod Tests
use libff.Prelude.{
  ◌>>=◌, ℕ, zero, suc, ◌*◌, ◌%◌, ◌^◌, Bool, true, false, not, ◌&&◌, Option, none, some, List, [],
  ◌∷◌, map, ltb, leb, ◌==◌, if◌then◌else◌, length, get_elem?, replicate, add32, le_bytes, sub32,
  copy_out, copy_in,
}

-- A byte of memory; `none` is one that `new` left indeterminate.
abbrev pub Cell : Type 0
Cell = Option ℕ

-- `data` is null or points to a block of its own, the list. The other members are uint32_t. A method
-- that accesses memory outside the block gives `none`, and leaves the rest undone.
pub record Buffer : Type 0 where
  pub block : Option (List Cell)
  pub size : ℕ
  pub capacity : ℕ
  pub read_pos : ℕ

-- `CapcityAdj`, on uint32_t
unfoldable pub capcity_adj : ℕ → ℕ
capcity_adj buf_size =
    if buf_size == 0
    then 0
    else if leb buf_size 32
    then add32 buf_size 4
    else if leb buf_size 4096
    then buf_size * 2 % 2 ^ 32
    else add32 buf_size 4096

-- `Buffer::Buffer()`
abbrev pub empty : Buffer
empty = record { block = none; size = 0; capacity = 0; read_pos = 0 }

-- `new unsigned char[cap]`
abbrev pub new_block : ℕ → List Cell
new_block cap = replicate cap none

-- The cells behind `data`, none behind a null one.
abbrev pub cells : Option (List Cell) → List Cell
cells none = []
cells (some block) = block

-- `Buffer::resetReadPos`
unfoldable pub reset_read_pos : Buffer → Buffer
reset_read_pos b = record b { read_pos = 0 }

-- `Buffer::clear`
unfoldable pub clear : Buffer → Buffer
clear b = elim b.block [ none ↦ b | some block ↦ empty ]

-- `Buffer::isEmpty`
unfoldable pub is_empty : Buffer → Bool
is_empty b = elim b.block [ none ↦ true | some block ↦ false ]

-- `Buffer::attach`; the block is the caller's, of `size` bytes.
unfoldable pub attach : List Cell → ℕ → Buffer → Buffer
unfolding clear
attach block size b = record (clear b) {
  block = some block;
  capacity = size;
  size = size;
  read_pos = 0;
}

-- A new block of `cap` cells that starts with the buffer's first `n`.
abbrev pub grown : Buffer → ℕ → ℕ → Option (List Cell)
grown b n cap = do old ← copy_out (cells b.block) 0 n; copy_in (new_block cap) 0 old

-- `Buffer::append(const void *, uint32_t)`; the data is not null, and `size` is its length.
unfoldable pub append : List Cell → Buffer → Option Buffer
unfolding capcity_adj
append src b =
    let n = length src in
    let cap = capcity_adj (add32 b.size n) in
    if n == 0
    then some b
    else if leb n (sub32 b.capacity b.size)
    then (copy_in (cells b.block) b.size src >>= λ block.
        some (record b { block = some block; size = add32 b.size n }))
    else (grown b b.size cap >>= λ start. copy_in start b.size src >>= λ block.
        some (record b { block = some block; size = add32 b.size n; capacity = cap }))

-- `append(buffer.data, buffer.size)`: a null pointer appends nothing.
unfoldable pub append_block : Option (List Cell) → ℕ → Buffer → Option Buffer
unfolding append
append_block none n b = some b
append_block (some block) n b = copy_out block 0 n >>= λ src. append src b

-- `Buffer::append(const Buffer &)`, `operator<<(const Buffer &)` and `operator+=`
unfoldable pub append_buffer : Buffer → Buffer → Option Buffer
unfolding append_block
append_buffer other b = append_block other.block other.size b

-- `Buffer::operator+`
unfoldable pub plus : Buffer → Buffer → Option Buffer
unfolding append_buffer
plus a b = append_buffer a empty >>= append_buffer b

-- `Buffer::at`: the reference it returns, here the cell.
pub data Access : Type 0 where
  cell : Cell → Access
  index_error : Access
  outside : Access

unfoldable pub at : ℕ → Buffer → Access
at index b =
    if leb b.size index
    then index_error
    else elim (get_elem? (cells b.block) index) [ none ↦ outside | some c ↦ cell c ]

-- `Buffer::resize`
unfoldable pub resize : ℕ → Buffer → Option Buffer
unfolding capcity_adj
resize size b =
    if leb size b.capacity
    then some (record b { size = size })
    else (grown b b.size (capcity_adj size) >>= λ block.
        some (record b { block = some block; size = size; capacity = capcity_adj size }))

-- `Buffer::setData`; `none` is a null pointer.
unfoldable pub set_data : Option (List Cell) → Buffer → Option Buffer
unfolding capcity_adj
set_data none b = some empty
set_data (some src) b =
    let n = length src in
    let cap = capcity_adj n in
    if n == 0
    then some empty
    else (copy_in (new_block cap) 0 src >>= λ block.
        some (record { block = some block; size = n; capacity = cap; read_pos = 0 }))

-- The copy constructor, on `empty`, and the copy assignment: `setData` of the other buffer's bytes.
unfoldable pub copy_from : Buffer → Buffer → Option Buffer
unfolding set_data
copy_from other b = elim other.block [
  | none ↦ set_data none b
  | some block ↦ copy_out block 0 other.size >>= λ src. set_data (some src) b
]

-- `Buffer::zero`: `memset` over the capacity.
unfoldable pub zero_fill : Buffer → Option Buffer
zero_fill b =
    if b.capacity == 0
    then some b
    else (copy_in (cells b.block) 0 (replicate b.capacity (some 0)) >>= λ block.
        some (record b { block = some block }))

-- `Buffer::alloc`
unfoldable pub alloc : ℕ → Buffer → Option Buffer
unfolding zero_fill reset_read_pos clear capcity_adj
alloc size b =
    let cap = capcity_adj size in
    if size == 0
    then some b
    else if leb size b.capacity
    then (zero_fill b >>= λ b'. some (reset_read_pos b'))
    else (zero_fill (record (clear b) { block = some (new_block cap); size = size; capacity = cap })
        >>= λ b'. some (reset_read_pos b'))

-- `Buffer::setCapacity`
unfoldable pub set_capacity : ℕ → Buffer → Option Buffer
unfolding clear
set_capacity capacity b =
    let n = if ltb capacity b.size then capacity else b.size in
    if leb capacity b.capacity
    then some (record b { capacity = capacity })
    else (grown b n capacity >>= λ block.
        some (record (clear b) { block = some block; size = n; capacity = capacity }))

-- `Buffer::read`: the cells that it copies out; their number is what it returns, as an int, in which one of
-- 2^31 or more is negative.
unfoldable pub read : ℕ → Buffer → Option (List Cell × Buffer)
read size b =
    let available = sub32 b.size b.read_pos in
    let n = if ltb size available then size else available in
    if available == 0
    then some ([], b)
    else (copy_out (cells b.block) b.read_pos n >>= λ out.
        some (out, record b { read_pos = add32 b.read_pos n }))

-- `Buffer::operator==` on two objects: `memcmp` over the size. What an indeterminate byte compares to
-- is not specified; here it equals none.
unfoldable pub cells_eq : List Cell → List Cell → Bool
cells_eq [] [] = true
cells_eq (some x ∷ xs) (some y ∷ ys) = let rest = cells_eq xs ys in x == y && rest
cells_eq xs ys = false

unfoldable pub equals : Buffer → Buffer → Option Bool
unfolding cells_eq
equals a b = if not (a.size == b.size) then some false else do
  x ← copy_out (cells a.block) 0 a.size
  y ← copy_out (cells b.block) 0 a.size
  some (cells_eq x y)

-- The move constructor: the new buffer and what is left of the old one.
unfoldable pub move_from : Buffer → Buffer × Buffer
move_from b = (b, empty)

-- The move assignment between two objects: the target and what is left of the source.
unfoldable pub move_assign : Buffer → Buffer → Buffer × Buffer
unfolding clear
move_assign source target = (
  record (clear target) {
    block = source.block;
    size = source.size;
    capacity = source.capacity;
    read_pos = source.read_pos;
  },
  empty,
)

-- `operator<<(const T &)` of BUF_IN_OPERATOR_IMPL, for a type of `size` bytes, on the bit pattern
unfoldable pub put_value : ℕ → ℕ → Buffer → Option Buffer
unfolding append
put_value size v b = append (map some (le_bytes size v)) b

-- `operator>>(T &)` of BUF_OUT_OPERATOR_IMPL: the bytes that it fills of the value, and the buffer
unfoldable pub get_value : ℕ → Buffer → Option (List Cell × Buffer)
unfolding read
get_value size b = read size b
