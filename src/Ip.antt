-- ===== src/Ip.antt =====
-- ff/src/network/IP.cpp, ff/include/ff/IP.h: addresses and their texts. Version 6 is here as far as it is
-- printed.
pub mod Octets
mod RoundTrip
mod Tests
use libff.Prelude.{
  ℕ, zero, suc, ◌+◌, ◌-◌, ◌*◌, ◌/◌, ◌%◌, ◌^◌, ◌≤◌, ◌<◌, min, bit_and, bit_or, bit_xor, ◌≡◌, refl,
  sym, ap, ◌∙◌, ◌≢◌, ◌↔◌, ◌⊎◌, inl, inr, Bool, true, false, not, ◌&&◌, ◌||◌, Option, none, some,
  List, [], ◌∷◌, ◌++◌, map, append-nil, append_assoc, arith, ltb, leb, ◌==◌, if◌then◌else◌, ltb→lt,
  lt→ltb, le→ltb, leb→le, le→leb, lt→leb, ==_iff, ==_refl, Bool-cases, Option-cases, length,
  get_elem?, get_or, set, take, drop, replicate, All, length-append, length-set, take-append-drop,
  length-take, length-drop, length-replicate, take-length_append, drop-length_append,
  drop-length_add_append, take_all, drop_all, take-append_le, drop-append_le,
  get_elem?-length_append, get_elem?-none, take_nil, drop_nil, take-take, drop-take, get_elem?-take,
  get_elem?-some, drop-drop, drop-min, length-map, take-replicate_append, take-length_add_append,
  drop_pos, Bytes, IsByte, add32, le_bytes, le_value, length-le_bytes, le_value-le_bytes,
  le_bytes-IsByte, sub32, copy_out, copy_in, written, copy_in-written, copy_in-outside,
  length-written, take-written, copy_out-inside, copy_out-outside, Returns, Returns_weaken,
  same_table, agree_below, bit_and_low4, bit_or_nibbles, bit_and_low2, bit_and_low6, bit_and_mid2,
  bit_or_low2, bit_or_low6, bit_or_comm, pow2, ones, bit_or-side, pow2_pos, bit_and-ones, codes,
  digit, numeral_loop, numeral, padded,
}
use libff.Strings.{trim}
use libff.Cli.{until_nul}

pub data VersionType : Type 0 where
  version_unknown v4 v6 : VersionType

pub record Ip : Type 0 where
  pub version : VersionType
  pub addr_buffer : Bytes

-- `clear`
abbrev pub new_ip : Ip
new_ip = record { version = version_unknown; addr_buffer = replicate 32 0 }

-- `isdigit`
unfoldable pub is_digit : ℕ → Bool
is_digit c = leb b'0' c && leb c b'9'

-- The first loop of `parseV4`, and the test behind it
unfoldable pub check_v4 : ℕ → Bool → Bytes → Bool
unfolding is_digit
check_v4 dot_count last_char_was_dot [] = dot_count == 3 && not last_char_was_dot
check_v4 dot_count last_char_was_dot (c ∷ cs) =
    let dot = check_v4 (dot_count + 1) true cs in
    let digit = check_v4 dot_count false cs in
    if c == b'.'
    then (if last_char_was_dot then false else dot)
    else if is_digit c
    then digit
    else false

abbrev pub add_token : ℕ → ℕ → Bool × Bytes → Bool × Bytes
add_token number digits rest =
    if ltb 3 digits
    then (false, [])
    else if ltb 255 number
    then (false, [])
    else (rest.0, number ∷ rest.1)

-- The second loop, for a text that has passed the first: whether it comes to the end, and the numbers
-- that it stores
unfoldable pub read_tokens : ℕ → ℕ → Bytes → Bool × Bytes
read_tokens number digits [] = add_token number digits (true, [])
read_tokens number digits (c ∷ cs) =
    let next = read_tokens 0 0 cs in
    let more = read_tokens (number * 10 + c - b'0') (digits + 1) cs in
    if c == b'.' then add_token number digits next else more

-- The tokens at the front of a buffer of zeros
abbrev pub store_tokens : Bool × Bytes → Bool × Ip
store_tokens (ok, tokens) = (
  ok,
  record {
    version = if ok then v4 else version_unknown;
    addr_buffer = tokens ++ drop (length tokens) (replicate 32 0);
  },
)

-- `parseV4`
unfoldable pub parse_v4 : Bytes → Bool × Ip
unfolding trim until_nul check_v4 read_tokens
parse_v4 ip =
    let tmp_ip = trim ip in
    if length tmp_ip == 0 || ltb 15 (length tmp_ip)
    then (false, new_ip)
    else if not (check_v4 0 true (until_nul tmp_ip))
    then (false, new_ip)
    else store_tokens (read_tokens 0 0 (until_nul tmp_ip))

-- `%d.%d.%d.%d`
unfoldable pub dotted : Bytes → Bytes
unfolding numeral
dotted [] = []
dotted (a ∷ []) = numeral 10 a
dotted (a ∷ b ∷ cs) = numeral 10 a ++ b'.' ∷ dotted (b ∷ cs)

-- `%02x%02x:` ... `%02x%02x`
unfoldable pub grouped : Bytes → Bytes
unfolding padded
grouped [] = []
grouped (a ∷ []) = padded 16 2 a
grouped (a ∷ b ∷ []) = padded 16 2 a ++ padded 16 2 b
grouped (a ∷ b ∷ c ∷ cs) = padded 16 2 a ++ (padded 16 2 b ++ b':' ∷ grouped (c ∷ cs))

-- `getV6Scope`: four bytes in network order
unfoldable pub get_v6_scope : Ip → ℕ
get_v6_scope ip =
    ((get_or ip.addr_buffer 16 0 * 256 + get_or ip.addr_buffer 17 0) * 256
        + get_or ip.addr_buffer 18 0)
      * 256
    + get_or ip.addr_buffer 19 0

-- `toString`
unfoldable pub ip_text : Ip → Bytes
unfolding dotted grouped get_v6_scope numeral
ip_text ip = elim ip.version [
  | version_unknown ↦ []
  | v4 ↦ dotted (take 4 ip.addr_buffer)
  | v6 ↦
      let address = grouped (take 16 ip.addr_buffer) in
      if not (0 == get_v6_scope ip) then address ++ b'%' ∷ numeral 10 (get_v6_scope ip) else address
]
