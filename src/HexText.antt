-- ===== src/HexText.antt =====
-- ff/src/buffer/Buffer.cpp: the bytes of a Buffer as hexadecimal and binary text, and back.
mod Digits
mod RoundTrip
mod Tests
use libff.Prelude.{
  ℕ, zero, suc, ◌+◌, ◌-◌, ◌*◌, ◌/◌, ◌%◌, ◌^◌, ◌≤◌, ◌<◌, min, bit_and, bit_or, bit_xor, ◌≡◌, refl,
  sym, ap, ◌∙◌, ◌≢◌, ◌↔◌, ◌⊎◌, inl, inr, Bool, true, false, not, ◌&&◌, ◌||◌, Option, none, some,
  List, [], ◌∷◌, ◌++◌, map, append-nil, append_assoc, arith, ltb, leb, ◌==◌, if◌then◌else◌, ltb→lt,
  lt→ltb, le→ltb, leb→le, le→leb, lt→leb, ==_iff, ==_refl, Bool-cases, Option-cases, ◌>>=◌, length,
  get_elem?, get_or, set, take, drop, replicate, All, length-append, length-set, take-append-drop,
  length-take, length-drop, length-replicate, take-length_append, drop-length_append,
  drop-length_add_append, take_all, drop_all, take-append_le, drop-append_le,
  get_elem?-length_append, get_elem?-none, take_nil, drop_nil, take-take, drop-take, get_elem?-take,
  get_elem?-some, drop-drop, drop-min, length-map, take-replicate_append, take-length_add_append,
  drop_pos, Bytes, IsByte, add32, le_bytes, le_value, length-le_bytes, le_value-le_bytes,
  le_bytes-IsByte, sub32, copy_out, copy_in, written, copy_in-written, copy_in-outside,
  length-written, take-written, copy_out-inside, copy_out-outside, Returns, Returns_weaken,
  same_table, agree_below, bit_and_low4, bit_or_nibbles, bit_and_low2, bit_and_low6, bit_and_mid2,
  bit_or_low2, bit_or_low6, bit_or_comm, pow2, ones, bit_or-side, pow2_pos, bit_and-ones, codes,
  digit, numeral_loop, numeral, padded,
}
use libff.Strings.{trim, to_lower, replace_all}
use libff.Buffer.{Buffer, append, clear}

-- The loop of `Buffer::ToHexString`
unfoldable pub hex_loop : Bytes → Bytes → Bytes
hex_loop separator [] = []
hex_loop separator (b ∷ bs) = padded 16 2 b ++ (separator ++ hex_loop separator bs)

-- `Buffer::toHexString` and `ToHexString`, whose `size` is an int: where the buffer's size becomes
-- negative in it, the text is empty.
unfoldable pub to_hex_string : Bytes → Bytes → Bytes
unfolding hex_loop
to_hex_string separator bs = if ltb (length bs % 2 ^ 32) (2 ^ 31) then hex_loop separator bs else []

-- The inner loop of `Buffer::toBinaryString`, from the bit `j - 1` down
unfoldable pub bits_text : ℕ → ℕ → Bytes
bits_text zero b = []
bits_text (suc j) b = (b'0' + b / 2 ^ j % 2) ∷ bits_text j b

-- `Buffer::toBinaryString`
unfoldable pub to_binary_string : Bytes → Bytes
unfolding bits_text
to_binary_string [] = []
to_binary_string (b ∷ bs) = bits_text 8 b ++ b' ' ∷ to_binary_string bs

-- The lines that `std::getline` gives up to the end of the stream
unfoldable pub lines_from : Bytes → Bytes → List Bytes
lines_from line [] = line ∷ []
lines_from line (c ∷ s) = elim (c == 10) [
  | true ↦ line ∷ lines_from [] s
  | false ↦ lines_from (line ++ c ∷ []) s
]

-- What a stream under `hex` reads is a parameter.
module _ (read_hex : Bytes → ℕ) where
  -- The loop of `parseLine`: a byte for each two characters
  unfoldable pub pairs : Bytes → Bytes
  pairs [] = []
  pairs (c ∷ []) = []
  pairs (c ∷ d ∷ s) = (read_hex (c ∷ d ∷ []) % 256) ∷ pairs s

  -- `parseLine`: the bytes that it appends
  unfoldable pub parse_line : Bytes → Option Bytes
  unfolding pairs
  parse_line line = do
    s ← replace_all (length line + 1) line (codes " ") [] false
    s ← replace_all (length s + 1) s (codes "0x") [] false
    some (pairs s)

  unfoldable pub append_bytes : Buffer → Bytes → Option Buffer
  append_bytes b [] = some b
  append_bytes b (c ∷ bs) = append (some c ∷ []) b >>= λ b. append_bytes b bs

  unfoldable pub append_lines : Buffer → List Bytes → Option Buffer
  unfolding parse_line append_bytes
  append_lines b [] = some b
  append_lines b (line ∷ lines) = do
    bs ← parse_line line
    b ← append_bytes b bs
    append_lines b lines

  -- `Buffer::fromHexString`
  unfoldable pub from_hex_string : Buffer → Bytes → Option Buffer
  unfolding append_lines lines_from
  from_hex_string b text = append_lines (clear b) (lines_from [] (to_lower (trim text)))
