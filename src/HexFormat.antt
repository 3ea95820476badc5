-- ===== src/HexFormat.antt =====
-- ff/src/numeric/HexNumberFormater.cpp: numbers as hexadecimal text.
pub mod RoundTrip
mod Tests
use libff.Prelude.{
  ℕ, zero, suc, ◌+◌, ◌-◌, ◌*◌, ◌/◌, ◌%◌, ◌^◌, ◌≤◌, ◌<◌, min, bit_and, bit_or, bit_xor, ◌≡◌, refl,
  sym, ap, ◌∙◌, ◌≢◌, ◌↔◌, ◌⊎◌, inl, inr, Bool, true, false, not, ◌&&◌, ◌||◌, Option, none, some,
  List, [], ◌∷◌, ◌++◌, map, append-nil, append_assoc, arith, ltb, leb, ◌==◌, if◌then◌else◌, ltb→lt,
  lt→ltb, le→ltb, leb→le, le→leb, lt→leb, ==_iff, ==_refl, Bool-cases, Option-cases, length,
  get_elem?, get_or, set, take, drop, replicate, All, length-append, length-set, take-append-drop,
  length-take, length-drop, length-replicate, take-length_append, drop-length_append,
  drop-length_add_append, take_all, drop_all, take-append_le, drop-append_le,
  get_elem?-length_append, get_elem?-none, take_nil, drop_nil, take-take, drop-take, get_elem?-take,
  get_elem?-some, drop-drop, drop-min, length-map, take-replicate_append, take-length_add_append,
  drop_pos, Bytes, IsByte, add32, le_bytes, le_value, length-le_bytes, le_value-le_bytes,
  le_bytes-IsByte, sub32, copy_out, copy_in, written, copy_in-written, copy_in-outside,
  length-written, take-written, copy_out-inside, copy_out-outside, Returns, Returns_weaken,
  same_table, agree_below, bit_and_low4, bit_or_nibbles, bit_and_low2, bit_and_low6, bit_and_mid2,
  bit_or_low2, bit_or_low6, bit_or_comm, pow2, ones, bit_or-side, pow2_pos, bit_and-ones, codes,
  digit, numeral_loop, numeral, padded,
}
use libff.Strings.{trim, to_lower, to_upper, find}

pub record HexNumberFormater : Type 0 where
  pub fill_zero : Bool
  pub use_prefix : Bool
  pub uppercase : Bool

-- What `<< hex` writes, in the case that is set
unfoldable pub hex_digits : HexNumberFormater → ℕ → Bytes
unfolding numeral to_upper
hex_digits f value = if f.uppercase then to_upper (numeral 16 value) else numeral 16 value

-- `Format`, and `format` of a number of `width / 2` bytes
unfoldable pub format : HexNumberFormater → ℕ → ℕ → Bytes
unfolding hex_digits
format f width value =
    let digits = hex_digits f value in
    (if f.use_prefix then codes "0x" else [])
    ++ ((if f.fill_zero then replicate (width - length digits) b'0' else []) ++ digits)

-- `str.substr(2)`, where `0x` stands anywhere in the text
unfoldable pub without_prefix : Bytes → Bytes
unfolding find
without_prefix str = elim (find (codes "0x") str) [ none ↦ str | some pos ↦ drop 2 str ]

-- `parse`; the first argument is what a stream reads from a text under `hex`, as a `uint64_t`.
unfoldable pub parse_hex : (Bytes → ℕ) → Bytes → ℕ
unfolding trim to_lower without_prefix
parse_hex read_hex hex_str = read_hex (without_prefix (trim (to_lower hex_str)))
