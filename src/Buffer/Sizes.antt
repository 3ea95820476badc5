-- ===== src/Buffer/Sizes.antt =====
-- The operations that set the contents, the size or the capacity.
use libff.Prelude.{
  ℕ, ◌+◌, ◌^◌, ◌≤◌, ◌<◌, min, ◌≡◌, refl, ◌∙◌, none, some, List, [], ◌∷◌, arith, leb, if◌then◌else◌,
  length, take, drop, replicate, length-append, length-replicate, take-length_append,
  take-replicate_append, written, copy_in-written, length-written, copy_out-inside, Returns,
}
use libff.Buffer.{
  Cell, Buffer, cells, new_block, capcity_adj, clear, set_data, alloc, resize, set_capacity,
}
use libff.Buffer.Valid.{IsValid, contents, empty-IsValid}
use libff.Buffer.Append.{capcity_adj_bounds, length-contents}
use native.Mathlib.Decide.{dec_le}

-- `clear` of a valid buffer is the empty buffer, or a null one that it leaves alone.
clear_lem :
    {b : Buffer}
    → IsValid b
    → ((clear b).size ≡ 0) × ((clear b).capacity ≡ 0) × ((clear b).read_pos ≡ 0)
unfolding clear
clear_lem v = ground arith

-- A block of `cap` cells that begins with `start`.
started_block :
    (start : List Cell) (cap : ℕ)
    → length start ≤ cap
    → let block = written (new_block cap) 0 start in
      (length block ≡ cap) × (take (length start) block ≡ start)
started_block start cap h = (
  length-written (new_block cap) 0 start (omega (arith, length-replicate {A = Cell} cap none))
      ∙ length-replicate cap none,
  take-length_append start (drop (0 + length start) (new_block cap)),
)

-- `setData`, from any buffer and for up to 2 ^ 32 - 4097 bytes: it stays inside the memory, the
-- buffer is valid, its contents are the data and its read position is 0.
pub set_data_lem :
    (src : List Cell) (b : Buffer)
    → length src + 4096 < 2 ^ 32
    → Returns (set_data (some src) b) (λ b'. IsValid b' × (contents b' ≡ src) × (b'.read_pos ≡ 0))
unfolding set_data
set_data_lem [] b h = (empty-IsValid, refl, refl)
set_data_lem (x ∷ xs) b h = ground (
  arith,
  capcity_adj_bounds (length (x ∷ xs)),
  length-replicate {A = Cell} (capcity_adj (length (x ∷ xs))) none,
  copy_in-written (new_block (capcity_adj (length (x ∷ xs)))) 0 (x ∷ xs),
  started_block (x ∷ xs) (capcity_adj (length (x ∷ xs))),
)

-- `resize` of a valid buffer, to at least its read position and at most 2 ^ 32 - 4097 bytes, stays
-- inside the memory and gives a valid buffer of the size asked for; the bytes up to the smaller of
-- the two sizes and the read position stay.
pub resize_lem :
    (n : ℕ) {b : Buffer}
    → IsValid b
    → b.read_pos ≤ n
    → n + 4096 < 2 ^ 32
    → Returns (resize n b) (λ b'.
      IsValid b'
      × (b'.size ≡ n)
      × (b'.read_pos ≡ b.read_pos)
      × (take (min n b.size) (cells b'.block) ≡ take (min n b.size) (cells b.block)))
unfolding resize
resize_lem n {b} v pos h = elim (dec_le n b.capacity) [
  | yes fits ↦ ground arith
  | no grows ↦ ground (
    arith,
    capcity_adj_bounds n,
    length-contents v,
    length-replicate {A = Cell} (capcity_adj n) none,
    copy_out-inside (cells b.block) 0 b.size,
    copy_in-written (new_block (capcity_adj n)) 0 (contents b),
    started_block (contents b) (capcity_adj n),
    length-append (contents b) (drop (0 + length (contents b)) (new_block (capcity_adj n))),
  )
]

-- `setCapacity` of a valid buffer to a uint32_t of at least the size stays inside the memory, gives
-- a valid buffer of that capacity, and keeps the contents.
pub set_capacity_lem :
    (cap : ℕ) {b : Buffer}
    → IsValid b
    → b.size ≤ cap
    → cap < 2 ^ 32
    → Returns
        (set_capacity cap b)
        (λ b'. IsValid b' × (b'.size ≡ b.size) × (b'.capacity ≡ cap) × (contents b' ≡ contents b))
unfolding set_capacity
set_capacity_lem cap {b} v pos h = elim (dec_le cap b.capacity) [
  | yes fits ↦ ground arith
  | no grows ↦ ground (
    arith,
    length-contents v,
    clear_lem v,
    length-replicate {A = Cell} cap none,
    copy_out-inside (cells b.block) 0 b.size,
    copy_in-written (new_block cap) 0 (contents b),
    started_block (contents b) cap,
  )
]

-- `alloc` of 1 to 2 ^ 32 - 4097 bytes in a valid buffer gives a valid one of zeros with the read
-- position 0. Where the capacity was too small its size is the one asked for; where it was large
-- enough the buffer keeps its old size.
pub alloc_lem :
    (n : ℕ) {b : Buffer}
    → IsValid b
    → 0 < n
    → n + 4096 < 2 ^ 32
    → Returns (alloc n b) (λ b'.
      IsValid b'
      × (b'.read_pos ≡ 0)
      × (contents b' ≡ replicate b'.size (some 0))
      × (b'.size ≡ (if leb n b.capacity then b.size else n)))
unfolding alloc
alloc_lem n {b} v pos h = elim (dec_le n b.capacity) [
  | yes fits ↦ ground (
    arith,
    length-replicate {A = Cell} b.capacity (some 0),
    copy_in-written (cells b.block) 0 (replicate b.capacity (some 0)),
    length-written (cells b.block) 0 (replicate b.capacity (some 0)),
    take-replicate_append b.size b.capacity (some 0)
        (drop (0 + length (replicate {A = Cell} b.capacity (some 0))) (cells b.block)),
  )
  | no grows ↦ ground (
    arith,
    capcity_adj_bounds n,
    length-replicate {A = Cell} (capcity_adj n) none,
    length-replicate {A = Cell} (capcity_adj n) (some 0),
    copy_in-written (new_block (capcity_adj n)) 0 (replicate (capcity_adj n) (some 0)),
    length-written (new_block (capcity_adj n)) 0 (replicate (capcity_adj n) (some 0)),
    take-replicate_append n (capcity_adj n) (some 0) (
        drop (0 + length (replicate {A = Cell} (capcity_adj n) (some 0)))
          (new_block (capcity_adj n))),
  )
]
