-- ===== src/CycleBuffer.antt =====
-- ff/include/ff/CycleBuffer.h: the ring buffer `CycleBuffer<T>`.
mod Window
mod Queue
mod Tests
use libff.Prelude.{
  ℕ, zero, suc, ◌+◌, ◌-◌, ◌*◌, ◌/◌, ◌%◌, ◌^◌, ◌≤◌, ◌<◌, min, bit_and, bit_or, bit_xor, ◌≡◌, ◌>>=◌,
  refl, sym, ap, ◌∙◌, ◌≢◌, ◌↔◌, ◌⊎◌, inl, inr, Bool, true, false, not, ◌&&◌, ◌||◌, Option, none,
  some, List, [], ◌∷◌, ◌++◌, map, append-nil, append_assoc, arith, ltb, leb, ◌==◌, if◌then◌else◌,
  ltb→lt, lt→ltb, le→ltb, leb→le, le→leb, lt→leb, ==_iff, ==_refl, Bool-cases, Option-cases, length,
  get_elem?, get_or, set, take, drop, replicate, All, length-append, length-set, take-append-drop,
  length-take, length-drop, length-replicate, take-length_append, drop-length_append,
  drop-length_add_append, take_all, drop_all, take-append_le, drop-append_le,
  get_elem?-length_append, get_elem?-none, take_nil, drop_nil, take-take, drop-take, get_elem?-take,
  get_elem?-some, drop-drop, drop-min, length-map, take-replicate_append, take-length_add_append,
  drop_pos, Bytes, IsByte, add32, le_bytes, le_value, length-le_bytes, le_value-le_bytes,
  le_bytes-IsByte, sub32, copy_out, copy_in, written, copy_in-written, copy_in-outside,
  length-written, take-written, copy_out-inside, copy_out-outside, Returns, Returns_weaken,
  same_table, agree_below, bit_and_low4, bit_or_nibbles, bit_and_low2, bit_and_low6, bit_and_mid2,
  bit_or_low2, bit_or_low6,
}

-- The members; a cell that `new T[capacity]` left as it was is `none`. Sizes are uint32_t.
pub record CycleBuffer (A : Type 0) : Type 0 where
  pub capacity : ℕ
  pub size : ℕ
  pub pos : ℕ
  pub buf : List (Option A)

-- `m_buf[i] = o`: `none` where `i` is outside the memory.
abbrev pub store : {A : Type 0} → List (Option A) → ℕ → Option A → Option (List (Option A))
store buf i o = if ltb i (length buf) then some (set buf i o) else none

-- `CycleBuffer(SizeType capacity)`
unfoldable pub new_cycle_buffer : {A : Type 0} → ℕ → CycleBuffer A
new_cycle_buffer capacity = record {
  capacity = capacity;
  size = 0;
  pos = 0;
  buf = replicate capacity none;
}

-- `isFull` and `isEmpty`
abbrev pub is_full : {A : Type 0} → CycleBuffer A → Bool
is_full b = b.size == b.capacity

abbrev pub is_empty : {A : Type 0} → CycleBuffer A → Bool
is_empty b = leb b.size 0

-- `tail`
unfoldable pub tail : {A : Type 0} → CycleBuffer A → ℕ
tail b = add32 b.pos b.size % b.capacity

-- `put`
unfoldable pub put : {A : Type 0} → A → CycleBuffer A → Option (Bool × CycleBuffer A)
unfolding tail
put o b =
    if is_full b
    then some (false, b)
    else (store b.buf (tail b) (some o) >>= λ buf.
        some (true, record b { buf = buf; size = add32 b.size 1 }))

-- `get`: the element that it hands out, if any
unfoldable pub get : {A : Type 0} → CycleBuffer A → Option (Option (Option A) × CycleBuffer A)
get b =
    if is_empty b
    then some (none, b)
    else (get_elem? b.buf b.pos >>= λ o.
        some (some o, record b { pos = add32 b.pos 1 % b.capacity; size = b.size - 1 }))

-- The loop of `read` for the `n` rounds from `i` on.
unfoldable pub read_loop : {A : Type 0} → CycleBuffer A → ℕ → ℕ → Option (List (Option A))
read_loop b i zero = some []
read_loop b i (suc n) = elim (get_elem? b.buf (add32 b.pos i % b.capacity)) [
  | none ↦ none
  | some o ↦ read_loop b (i + 1) n >>= λ os. some (o ∷ os)
]

-- `read`: the elements; their number is what it returns.
unfoldable pub read : {A : Type 0} → ℕ → CycleBuffer A → Option (List (Option A) × CycleBuffer A)
unfolding read_loop
read size b =
    let n = min size b.size in
    if is_empty b
    then some ([], b)
    else (read_loop b 0 n >>= λ os.
        some (os, record b { pos = add32 b.pos n % b.capacity; size = b.size - n }))

-- The loop of `write` over the elements, from the tail on.
unfoldable pub write_loop :
    {A : Type 0} → ℕ → List A → ℕ → List (Option A) → Option (List (Option A))
write_loop capacity [] tail_pos buf = some buf
write_loop capacity (o ∷ os) tail_pos buf =
    store buf tail_pos (some o) >>= write_loop capacity os (add32 tail_pos 1 % capacity)

-- `write` of the elements behind a pointer: their number that it returns, and the buffer
unfoldable pub write : {A : Type 0} → List A → CycleBuffer A → Option (ℕ × CycleBuffer A)
unfolding write_loop tail
write os b =
    let n = min (length os) (sub32 b.capacity b.size) in
    if leb n 0
    then some (0, b)
    else (write_loop b.capacity (take n os) (tail b) b.buf >>= λ buf.
        some (n, record b { buf = buf; size = add32 b.size n }))
