-- ===== src/Buffer/Append.antt =====
-- `append`: within the capacity, and growing.
use libff.Prelude.{
  ℕ, ◌+◌, ◌^◌, ◌≤◌, ◌<◌, ◌≡◌, refl, sym, ap, ◌∙◌, none, some, List, [], ◌∷◌, ◌++◌, append-nil,
  arith, length, take, drop, length-take, length-replicate, take-length_append, written,
  copy_in-written, length-written, take-written, copy_out-inside, Returns,
}
use libff.Buffer.{Cell, Buffer, cells, new_block, capcity_adj, append}
use libff.Buffer.Valid.{IsValid, contents}
use native.Mathlib.Decide.{dec_le}

-- The capacity is the next one up, as long as that is a uint32_t.
pub capcity_adj_bounds :
    (n : ℕ) → n + 4096 < 2 ^ 32 → (n ≤ capcity_adj n) × (capcity_adj n < 2 ^ 32)
unfolding capcity_adj
capcity_adj_bounds n h = ground arith

pub length-contents : {b : Buffer} → IsValid b → length (contents b) ≡ b.size
length-contents {b} v = omega (arith, length-take b.size (cells b.block), v)

append_fits :
    (src : List Cell) {b : Buffer}
    → IsValid b
    → 0 < length src
    → b.size + length src ≤ b.capacity
    → append src b
      ≡ some (record b {
        block = some (written (cells b.block) b.size src);
        size = b.size + length src;
      })
unfolding append
append_fits src {b} v pos room = ground (arith, copy_in-written (cells b.block) b.size src)

append_grows :
    (src : List Cell) {b : Buffer}
    → IsValid b
    → 0 < length src
    → b.capacity < b.size + length src
    → b.size + length src + 4096 < 2 ^ 32
    → append src b
      ≡ some (record b {
        block = some (
            written
              (written (new_block (capcity_adj (b.size + length src))) 0 (contents b))
              b.size
              src);
        size = b.size + length src;
        capacity = capcity_adj (b.size + length src);
      })
unfolding append
append_grows src {b} v pos full bound = ground (
  arith,
  capcity_adj_bounds (b.size + length src),
  length-contents v,
  length-replicate {A = Cell} (capcity_adj (b.size + length src)) none,
  copy_out-inside (cells b.block) 0 b.size,
  copy_in-written (new_block (capcity_adj (b.size + length src))) 0 (contents b),
  length-written (new_block (capcity_adj (b.size + length src))) 0 (contents b),
  copy_in-written (written (new_block (capcity_adj (b.size + length src))) 0 (contents b)) b.size
      src,
)

-- A block that grew: as long as its capacity, and with the new bytes behind the old ones.
grown_block :
    (src old : List Cell) (cap : ℕ)
    → length old + length src ≤ cap
    → let block = written (written (new_block cap) 0 old) (length old) src in
      (length block ≡ cap) × (take (length old + length src) block ≡ old ++ src)
grown_block src old cap h = (
  length-written start (length old) src (omega (arith, start_length)) ∙ start_length,
  take-written start (length old) src (omega (arith, start_length))
      ∙ ap (λ t. t ++ src) (take-length_append old (drop (0 + length old) (new_block cap))),
)
  where
    start : List Cell
    start = written (new_block cap) 0 old

    start_length : length start ≡ cap
    start_length =
        length-written (new_block cap) 0 old (omega (arith, length-replicate {A = Cell} cap none))
        ∙ length-replicate cap none

-- Appending to a valid buffer whose new size plus 4096 is a uint32_t stays inside the memory and
-- keeps the buffer valid; the data goes behind what the buffer held, the read position stays, and
-- the capacity does not fall.
pub append_lem :
    (src : List Cell) {b : Buffer}
    → IsValid b
    → b.size + length src + 4096 < 2 ^ 32
    → Returns (append src b) (λ b'.
      IsValid b'
      × (contents b' ≡ contents b ++ src)
      × (b'.size ≡ b.size + length src)
      × (b'.read_pos ≡ b.read_pos)
      × (b.capacity ≤ b'.capacity))
append_lem [] {b} v bound =
    unfold append in (v, sym (append-nil (contents b)), omega arith, refl, omega arith)
append_lem (x ∷ xs) {b} v bound = elim (dec_le (b.size + length (x ∷ xs)) b.capacity) [
  | yes room ↦ rw (append_fits (x ∷ xs) v (omega arith) room) (
      ground (
        arith,
        length-written (cells b.block) b.size (x ∷ xs),
        take-written (cells b.block) b.size (x ∷ xs),
      ))
  | no full ↦ rw (append_grows (x ∷ xs) v (omega arith) (omega arith) bound) (
      ground (
        arith,
        length-contents v,
        capcity_adj_bounds (b.size + length (x ∷ xs)),
        grown_block (x ∷ xs) (contents b) (capcity_adj (b.size + length (x ∷ xs))),
      ))
]
