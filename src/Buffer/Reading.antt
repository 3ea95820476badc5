-- ===== src/Buffer/Reading.antt =====
-- `read`, `at`, and values written and read back.
use libff.Prelude.{
  ◌>>=◌, ℕ, ◌+◌, ◌-◌, ◌^◌, ◌≤◌, ◌<◌, min, ◌≡◌, refl, ap, ◌∙◌, Option, none, some, List, [], ◌++◌,
  map, arith, le→leb, lt→leb, length, get_elem?, take, drop, length-take, length-drop, take_all,
  drop_all, drop-append_le, get_elem?-none, take_nil, take-take, drop-take, get_elem?-take,
  get_elem?-some, drop-drop, drop-min, length-map, le_bytes, length-le_bytes, copy_out-inside,
  Returns, Returns_weaken,
}
use native.Mathlib.Decide.{dec_lt}
use libff.Buffer.{
  Cell, Buffer, cells, append, append_buffer, append_block, plus, empty, read, cell, index_error,
  at, put_value, get_value,
}
use libff.Buffer.Valid.{IsValid, contents, Returns-bind, empty-IsValid}
use libff.Buffer.Append.{append_lem, length-contents}

read_moves :
    (n : ℕ) {b : Buffer}
    → IsValid b
    → let k = min n (b.size - b.read_pos) in
      read n b
      ≡ some (take k (drop b.read_pos (cells b.block)), record b { read_pos = b.read_pos + k })
unfolding read
read_moves n {b} v =
    ground (arith, copy_out-inside (cells b.block) b.read_pos (min n (b.size - b.read_pos)))

-- On a valid buffer `read` stays inside the contents: it hands out the next bytes, as many as were
-- asked for or as are left, and moves the position behind them; all else stays.
pub read_lem :
    (n : ℕ) {b : Buffer}
    → IsValid b
    → Returns (read n b) (λ (out, b').
      IsValid b'
      × (out ≡ take n (drop b.read_pos (contents b)))
      × (b'.read_pos ≡ b.read_pos + length out)
      × (contents b' ≡ contents b))
read_lem n {b} v = rw (read_moves n v) (
    ground (
      arith,
      drop-take b.read_pos b.size (cells b.block),
      take-take n (b.size - b.read_pos) (drop b.read_pos (cells b.block)),
      length-take (min n (b.size - b.read_pos)) (drop b.read_pos (cells b.block)),
      length-drop b.read_pos (cells b.block),
    ))

-- On a valid buffer `at` gives the byte of the contents at the index, and throws exactly behind them: it
-- never reads outside the memory.
pub at_lem :
    (i : ℕ) {b : Buffer}
    → IsValid b
    → at i b ≡ elim (get_elem? (contents b) i) [ none ↦ index_error | some c ↦ cell c ]
unfolding at
at_lem i {b} v = elim (dec_lt i b.size) [
  | yes h ↦
      let (c, e) = get_elem?-some (cells b.block) i (omega arith) in
      rw (lt→leb b.size i h, get_elem?-take b.size i (cells b.block) h, e)
  | no h ↦ rw (
    le→leb b.size i (omega arith),
    get_elem?-none (contents b) i (omega (arith, length-contents v)),
  )
]

append_block_lem :
    (o : Option (List Cell)) (n : ℕ) (b : Buffer)
    → n ≤ length (cells o)
    → append_block o n b ≡ append (take n (cells o)) b
append_block_lem none n b h = unfold append_block append in rw take_nil
append_block_lem (some block) n b h =
    unfold append_block in rw (copy_out-inside block 0 n (omega arith))

-- `operator+=` puts the other buffer's bytes behind its own, and keeps the buffer valid.
pub append_buffer_lem :
    {a b : Buffer}
    → IsValid a
    → IsValid b
    → b.size + a.size + 4096 < 2 ^ 32
    → Returns
        (append_buffer a b)
        (λ b'. IsValid b' × (contents b' ≡ contents b ++ contents a) × (b'.size ≡ b.size + a.size))
append_buffer_lem {a} {b} va vb bound = rw (whole a b va) (
    Returns_weaken _ _ (append (contents a) b)
      (append_lem (contents a) vb (omega (arith, length-contents va)))
      (λ b' h. (h.0, h.1, h.2 ∙ ap (λ n. b.size + n) (length-contents va))))
  where
    whole : (a b : Buffer) → IsValid a → append_buffer a b ≡ append (contents a) b
    whole a b va = unfold append_buffer in append_block_lem a.block a.size b (omega arith)

-- `operator+` of two valid buffers stays inside the memory and gives a valid buffer that holds the
-- bytes of both in order. The sum of the sizes plus 4096 must be a uint32_t.
pub plus_lem :
    {a b : Buffer}
    → IsValid a
    → IsValid b
    → a.size + b.size + 4096 < 2 ^ 32
    → Returns (plus a b) (λ c. IsValid c × (contents c ≡ contents a ++ contents b))
unfolding plus
plus_lem {a} {b} va vb bound =
    Returns-bind _ _ (append_buffer a empty) (append_buffer b)
      (append_buffer_lem va empty-IsValid (omega arith))
      (λ c h.
        Returns_weaken _ _ (append_buffer b c) (append_buffer_lem vb h.0 (omega (arith, h.2)))
          (λ d k. (k.0, k.1 ∙ ap (λ t. t ++ contents b) h.1)))

-- The bytes that `read` has not handed out.
abbrev pub unread : Buffer → List Cell
unread b = drop b.read_pos (contents b)

-- The buffer is a queue of bytes: `read` on a valid buffer takes from the front of what is unread,
-- as many bytes as were asked for or as are left, and leaves the others and a valid buffer.
pub unread-read :
    (n : ℕ) {b : Buffer}
    → IsValid b
    → Returns
        (read n b)
        (λ (out, b'). IsValid b' × (out ≡ take n (unread b)) × (unread b' ≡ drop n (unread b)))
unread-read n {b} v =
    Returns_weaken _ _ (read n b) (read_lem n v) (λ r k. (k.0, k.1, rest n r b k.1 k.2 k.3))
  where
    rest :
        (n : ℕ) (r : List Cell × Buffer) (b : Buffer)
        → r.0 ≡ take n (unread b)
        → r.1.read_pos ≡ b.read_pos + length r.0
        → contents r.1 ≡ contents b
        → unread r.1 ≡ drop n (unread b)
    rest n r b out pos same =
        rw (same, pos, out, length-take n (unread b), ← drop-drop, drop-min) refl

-- The buffer is a queue of bytes: `append` to a valid buffer adds behind what is unread, and leaves
-- a valid buffer. The new size plus 4096 must be a uint32_t.
unread-append :
    (src : List Cell) {b : Buffer}
    → IsValid b
    → b.size + length src + 4096 < 2 ^ 32
    → Returns (append src b) (λ b'. IsValid b' × (unread b' ≡ unread b ++ src))
unread-append src {b} v bound = Returns_weaken _ _ (append src b) (append_lem src v bound) (λ c h. (
  h.0,
  rw (h.3, h.1) (drop-append_le b.read_pos (contents b) src (omega (arith, length-contents v))),
))

length-values : (size v : ℕ) → length (map {B = Cell} some (le_bytes size v)) ≡ size
length-values size v = length-map (le_bytes size v) some ∙ length-le_bytes size v

-- A value that `<<` wrote into a valid buffer whose bytes have all been read is what `>>` reads
-- next, and after it nothing is left to read. The new size plus 4096 must be a uint32_t.
pub get_value-put_value :
    (size v : ℕ) {b : Buffer}
    → IsValid b
    → b.read_pos ≡ b.size
    → b.size + size + 4096 < 2 ^ 32
    → Returns
        (put_value size v b >>= get_value size)
        (λ (out, b'). (out ≡ map some (le_bytes size v)) × IsValid b' × (unread b' ≡ []))
unfolding put_value get_value
get_value-put_value size v {b} valid all bound =
    Returns-bind _ _ (append new b) (read size)
      (unread-append new valid (omega (arith, length-values size v)))
      (λ c h. Returns_weaken _ _ (read size c) (unread-read size h.0) (λ r k. (
        k.1 ∙ rw (h.1, nothing_left) (take_all size new (omega (arith, length-values size v))),
        k.0,
        k.2 ∙ rw (h.1, nothing_left) (drop_all size new (omega (arith, length-values size v))),
      )))
  where
    new : List Cell
    new = map some (le_bytes size v)

    nothing_left : unread b ≡ []
    nothing_left = drop_all b.read_pos (contents b) (omega (arith, length-contents valid))
