-- ===== src/Uuid.antt =====
-- ff/src/random/UUID.cpp: the sixteen bytes of a UUID, its fields, and its text.
pub mod Digits
mod RoundTrip
mod Tests
use libff.Prelude.{
  ◌>>=◌, ℕ, zero, suc, ◌+◌, ◌-◌, ◌*◌, ◌/◌, ◌%◌, ◌^◌, ◌≤◌, ◌<◌, min, bit_and, bit_or, bit_xor, ◌≡◌,
  refl, sym, ap, ◌∙◌, ◌≢◌, ◌↔◌, ◌⊎◌, inl, inr, Bool, true, false, not, ◌&&◌, ◌||◌, Option, none,
  some, List, [], ◌∷◌, ◌++◌, map, append-nil, append_assoc, arith, ltb, leb, ◌==◌, if◌then◌else◌,
  ltb→lt, lt→ltb, le→ltb, leb→le, le→leb, lt→leb, ==_iff, ==_refl, Bool-cases, Option-cases, length,
  get_elem?, get_or, set, take, drop, replicate, All, length-append, length-set, take-append-drop,
  length-take, length-drop, length-replicate, take-length_append, drop-length_append,
  drop-length_add_append, take_all, drop_all, take-append_le, drop-append_le,
  get_elem?-length_append, get_elem?-none, take_nil, drop_nil, take-take, drop-take, get_elem?-take,
  get_elem?-some, drop-drop, drop-min, length-map, take-replicate_append, take-length_add_append,
  drop_pos, Bytes, IsByte, add32, le_bytes, le_value, length-le_bytes, le_value-le_bytes,
  le_bytes-IsByte, sub32, copy_out, copy_in, written, copy_in-written, copy_in-outside,
  length-written, take-written, copy_out-inside, copy_out-outside, Returns, Returns_weaken,
  same_table, agree_below, bit_and_low4, bit_or_nibbles, bit_and_low2, bit_and_low6, bit_and_mid2,
  bit_or_low2, bit_or_low6, bit_or_comm, pow2, ones, bit_or-side, bit_and-ones, codes, digit,
  numeral_loop, numeral, padded,
}

-- `uuid_t`
pub record UuidBytes : Type 0 where
  pub out_0 : ℕ
  pub out_1 : ℕ
  pub out_2 : ℕ
  pub out_3 : ℕ
  pub out_4 : ℕ
  pub out_5 : ℕ
  pub out_6 : ℕ
  pub out_7 : ℕ
  pub out_8 : ℕ
  pub out_9 : ℕ
  pub out_10 : ℕ
  pub out_11 : ℕ
  pub out_12 : ℕ
  pub out_13 : ℕ
  pub out_14 : ℕ
  pub out_15 : ℕ

-- `struct uuid`
pub record UuidFields : Type 0 where
  pub time_low : ℕ
  pub time_mid : ℕ
  pub time_hi_and_version : ℕ
  pub clock_seq : ℕ
  pub node_0 : ℕ
  pub node_1 : ℕ
  pub node_2 : ℕ
  pub node_3 : ℕ
  pub node_4 : ℕ
  pub node_5 : ℕ

-- `uuid_pack`
unfoldable pub uuid_pack : UuidFields → UuidBytes
uuid_pack uu = record {
  out_0 = uu.time_low / 256 / 256 / 256 % 256;
  out_1 = uu.time_low / 256 / 256 % 256;
  out_2 = uu.time_low / 256 % 256;
  out_3 = uu.time_low % 256;
  out_4 = uu.time_mid / 256 % 256;
  out_5 = uu.time_mid % 256;
  out_6 = uu.time_hi_and_version / 256 % 256;
  out_7 = uu.time_hi_and_version % 256;
  out_8 = uu.clock_seq / 256 % 256;
  out_9 = uu.clock_seq % 256;
  out_10 = uu.node_0;
  out_11 = uu.node_1;
  out_12 = uu.node_2;
  out_13 = uu.node_3;
  out_14 = uu.node_4;
  out_15 = uu.node_5;
}

-- `(tmp << 8) | *ptr++` on a uint32_t
abbrev pub shift_in : ℕ → ℕ → ℕ
shift_in tmp b = bit_or (tmp * 256 % 2 ^ 32) b

-- `uuid_unpack`
unfoldable pub uuid_unpack : UuidBytes → UuidFields
uuid_unpack u = record {
  time_low = shift_in (shift_in (shift_in u.out_0 u.out_1) u.out_2) u.out_3;
  time_mid = shift_in u.out_4 u.out_5 % 2 ^ 16;
  time_hi_and_version = shift_in u.out_6 u.out_7 % 2 ^ 16;
  clock_seq = shift_in u.out_8 u.out_9 % 2 ^ 16;
  node_0 = u.out_10;
  node_1 = u.out_11;
  node_2 = u.out_12;
  node_3 = u.out_13;
  node_4 = u.out_14;
  node_5 = u.out_15;
}

-- The version and the variant
unfoldable pub stamped : UuidFields → UuidFields
stamped uu = record uu {
  clock_seq = bit_or (bit_and uu.clock_seq 0x3fff) 0x8000;
  time_hi_and_version = bit_or (bit_and uu.time_hi_and_version 0x0fff) 0x4000;
}

-- `uuidRandom`, on the random bytes
unfoldable pub uuid_random : UuidBytes → UuidBytes
unfolding uuid_pack uuid_unpack stamped
uuid_random buf = uuid_pack (stamped (uuid_unpack buf))

-- `isxdigit`, and the value of such a digit
unfoldable pub is_xdigit : ℕ → Bool
is_xdigit c = leb b'0' c && leb c b'9' || leb b'a' c && leb c b'f' || leb b'A' c && leb c b'F'

unfoldable pub xdigit_value : ℕ → ℕ
xdigit_value c =
    if leb c b'9' then c - b'0' else if leb c b'F' then c - b'A' + 10 else c - b'a' + 10

-- `strtoul(s, NULL, 16)` of a text that starts with such digits, with what was read before it
unfoldable pub strtoul_hex : ℕ → Bytes → ℕ
unfolding is_xdigit xdigit_value
strtoul_hex n [] = n
strtoul_hex n (c ∷ cs) =
    let rest = strtoul_hex (n * 16 + xdigit_value c) cs in if is_xdigit c then rest else n

-- The loop of `uuid_parse` from the place `i` on
unfoldable pub check_text : ℕ → Bytes → Bool
unfolding is_xdigit
check_text i [] = true
check_text i (c ∷ cs) =
    let rest = check_text (i + 1) cs in
    if i == 8 || i == 13 || i == 18 || i == 23 then c == b'-' && rest else is_xdigit c && rest

-- `uuid_parse` of a text without NULs; `none` is -1.
unfoldable pub uuid_parse : Bytes → Option UuidBytes
unfolding check_text strtoul_hex uuid_pack
uuid_parse s =
    if not (length s == 36)
    then none
    else if not (check_text 0 s)
    then none
    else some (
        uuid_pack (record {
          time_low = strtoul_hex 0 s % 2 ^ 32;
          time_mid = strtoul_hex 0 (drop 9 s) % 2 ^ 16;
          time_hi_and_version = strtoul_hex 0 (drop 14 s) % 2 ^ 16;
          clock_seq = strtoul_hex 0 (drop 19 s) % 2 ^ 16;
          node_0 = strtoul_hex 0 (take 2 (drop 24 s)) % 256;
          node_1 = strtoul_hex 0 (take 2 (drop 26 s)) % 256;
          node_2 = strtoul_hex 0 (take 2 (drop 28 s)) % 256;
          node_3 = strtoul_hex 0 (take 2 (drop 30 s)) % 256;
          node_4 = strtoul_hex 0 (take 2 (drop 32 s)) % 256;
          node_5 = strtoul_hex 0 (take 2 (drop 34 s)) % 256;
        }))

-- `sprintf` with `fmt_lower`
unfoldable pub fields_text : UuidFields → Bytes
unfolding padded
fields_text uu =
    padded 16 8 uu.time_low
    ++ b'-' ∷ padded 16 4 uu.time_mid
    ++ b'-' ∷ padded 16 4 uu.time_hi_and_version
    ++ b'-' ∷ padded 16 2 (uu.clock_seq / 256)
    ++ padded 16 2 (bit_and uu.clock_seq 0xff)
    ++ b'-' ∷ padded 16 2 uu.node_0
    ++ padded 16 2 uu.node_1
    ++ padded 16 2 uu.node_2
    ++ padded 16 2 uu.node_3
    ++ padded 16 2 uu.node_4
    ++ padded 16 2 uu.node_5

-- `uuid_unparse` and `Uuid::toString`
unfoldable pub uuid_unparse : UuidBytes → Bytes
unfolding uuid_unpack fields_text
uuid_unparse u = fields_text (uuid_unpack u)
