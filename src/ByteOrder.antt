-- ===== src/ByteOrder.antt =====
-- Buffer::ReverseBytes of ff/src/buffer/Buffer.cpp, which Buffer::reverse and the conversions of
-- ff/include/ff/Endian.h call.
mod Reversal
mod Conversion
mod Tests
use libff.Prelude.{
  ℕ, zero, suc, ◌+◌, ◌-◌, ◌*◌, ◌/◌, ◌%◌, ◌^◌, ◌≤◌, ◌<◌, min, bit_and, bit_or, bit_xor, ◌≡◌, refl,
  sym, ap, ◌∙◌, ◌≢◌, ◌↔◌, ◌⊎◌, inl, inr, Bool, true, false, not, ◌&&◌, ◌||◌, Option, none, some,
  List, [], ◌∷◌, ◌++◌, map, append-nil, append_assoc, arith, ltb, leb, ◌==◌, if◌then◌else◌, ltb→lt,
  lt→ltb, le→ltb, leb→le, le→leb, lt→leb, ==_iff, ==_refl, Bool-cases, Option-cases, length,
  get_elem?, get_or, set, take, drop, replicate, All, length-append, length-set, take-append-drop,
  length-take, length-drop, length-replicate, take-length_append, drop-length_append,
  drop-length_add_append, take_all, drop_all, take-append_le, drop-append_le,
  get_elem?-length_append, get_elem?-none, take_nil, drop_nil, take-take, drop-take, get_elem?-take,
  get_elem?-some, drop-drop, drop-min, length-map, take-replicate_append, take-length_add_append,
  drop_pos, Bytes, IsByte, add32, le_bytes, le_value, length-le_bytes, le_value-le_bytes,
  le_bytes-IsByte, sub32, copy_out, copy_in, written, copy_in-written, copy_in-outside,
  length-written, take-written, copy_out-inside, copy_out-outside, Returns, Returns_weaken,
  same_table, agree_below, bit_and_low4, bit_or_nibbles, bit_and_low2, bit_and_low6, bit_and_mid2,
  bit_or_low2, bit_or_low6, bit_or_comm, pow2, ones, bit_or-side, pow2_pos, bit_and-ones, codes,
  digit, numeral_loop, numeral, padded,
}

-- `swap(*pH, *pE)` at two places of the memory
abbrev pub swap_bytes : Bytes → ℕ → ℕ → Bytes
swap_bytes mem h e = set (set mem h (get_or mem e 0)) e (get_or mem h 0)

-- The loop of `ReverseBytes`, with the two pointers as places; `none` is no result of the code: the fuel
-- of the model ran out.
unfoldable pub reverse_loop : ℕ → ℕ → ℕ → Bytes → Option Bytes
reverse_loop zero h e mem = none
reverse_loop (suc fuel) h e mem =
    let rest = reverse_loop fuel (h + 1) (e - 1) (swap_bytes mem h e) in
    if ltb h e then rest else some mem

-- `Buffer::ReverseBytes` of the bytes at a pointer that is not null
unfoldable pub reverse_bytes : ℕ → Bytes → Option Bytes
unfolding reverse_loop
reverse_bytes fuel mem =
    if length mem == 0 then some mem else reverse_loop fuel 0 (length mem - 1) mem

-- `EndianType`
pub data EndianType : Type 0 where
  big : EndianType
  small : EndianType

abbrev pub same_endian : EndianType → EndianType → Bool
same_endian big big = true
same_endian small small = true
same_endian a b = false

-- `Endian::GetHostEndian` of a machine whose short 0x1234 begins with the byte `first`
unfoldable pub get_host_endian : ℕ → EndianType
get_host_endian first = if first == 0x34 then small else big

-- `Endian::GetDefEndian`: the other one
unfoldable pub get_def_endian : EndianType → EndianType
get_def_endian small = big
get_def_endian big = small

-- `__REVERSE_T` on the bytes of a value
abbrev pub reversed : Bytes → Option Bytes
reversed val = reverse_bytes (length val + 1) val

-- `Endian::toBig` and `Endian::toSmall`, of an Endian of the type that comes first
unfoldable pub to_big : EndianType → Bytes → Option Bytes
unfolding reverse_bytes
to_big endian_type val = if same_endian big endian_type then some val else reversed val

unfoldable pub to_small : EndianType → Bytes → Option Bytes
unfolding reverse_bytes
to_small endian_type val = if same_endian small endian_type then some val else reversed val

-- `Endian::toHost` and `Endian::to`
unfoldable pub to_host : EndianType → EndianType → Bytes → Option Bytes
unfolding reverse_bytes
to_host host endian_type val = if same_endian host endian_type then some val else reversed val

unfoldable pub to : EndianType → EndianType → Bytes → Option Bytes
unfolding reverse_bytes
to endian_type e val = if same_endian e endian_type then some val else reversed val
