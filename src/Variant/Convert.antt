-- ===== src/Variant/Convert.antt =====
-- The conversions of a `Variant`. What the standard library's streams and conversions between floats and
-- integers give is a parameter.
use libff.Prelude.{
  ◌>>=◌, ℕ, ◌+◌, ◌-◌, ◌*◌, ◌/◌, ◌%◌, ◌^◌, Bool, true, false, not, ◌&&◌, ◌||◌, Option, some, [], ◌∷◌,
  map, ltb, leb, ◌==◌, if◌then◌else◌, length, take, Bytes, le_bytes, le_value, copy_out, codes,
  numeral,
}
use libff.Buffer.{Buffer, empty, set_data}
use libff.Strings.{trim, to_lower, bytes_eq}
use libff.Variant.{Variant, block, has_block}
use libff.Variant.Types.{
  unknown, boolean, uchar, ushort, uint, ulong, ulonglong, char, short, int, long, longlong, float,
  double, carray, string, type_code, is_block, CppInt, cpp_size, cpp_ushort, cpp_uchar,
}

-- `fixed << setprecision(...)` of a float and of a double, a float or a double as an integer of the
-- type, an integer of the type in a text with the base, and how a float is compared with 0.
pub record Streams : Type 0 where
  pub float_text : ℕ → Bytes
  pub double_text : ℕ → Bytes
  pub float_to_int : CppInt → ℕ → ℕ
  pub double_to_int : CppInt → ℕ → ℕ
  pub read_int : CppInt → ℕ → Bytes → ℕ
  pub float_is_zero : ℕ → Bool
  pub double_is_zero : ℕ → Bool

-- `to_string` of an integer with a sign, on a bit pattern of `size` bytes
unfoldable pub signed_text : ℕ → ℕ → Bytes
unfolding numeral
signed_text size v =
    if ltb v (256 ^ size / 2) then numeral 10 v else b'-' ∷ numeral 10 (256 ^ size - v)

-- An integer converted to one of `to` bytes: the sign is extended, or what does not fit is cut off.
unfoldable pub extend : Bool → ℕ → ℕ → ℕ → ℕ
extend signed from to v =
    if signed && leb (256 ^ from / 2) v
    then (v + 256 ^ to * 256 ^ from - 256 ^ from) % 256 ^ to
    else v % 256 ^ to

-- The sign that is cut off, the base that the prefix names
unfoldable pub without_sign : Bytes → Bytes
without_sign [] = []
without_sign (c ∷ cs) = if c == b'+' || c == b'-' then cs else c ∷ cs

unfoldable pub number_base : Bytes → ℕ
unfolding without_sign to_lower trim
number_base s = elim (without_sign (to_lower (trim s))) [
  | [] ↦ 10
  | a ∷ [] ↦ 10
  | a ∷ b ∷ cs ↦ if a == b'0' then (if b == b'x' then 16 else 8) else 10
]

-- `val.empty() || "0" == val || "false" == val`, negated
unfoldable pub is_true_text : Bytes → Bool
unfolding bytes_eq
is_true_text s = not (length s == 0 || bytes_eq s (codes "0") || bytes_eq s (codes "false"))

module _ (io : Streams) where
  -- `toString`; a block holds `size` bytes at least, or there is none.
  unfoldable pub to_string : Variant → Bytes
  unfolding signed_text numeral is_block
  to_string v = elim v.vt [
    | unknown ↦ []
    | boolean ↦ if v.bits == 0 then b'0' ∷ [] else b'1' ∷ []
    | uchar ↦ numeral 10 v.bits
    | ushort ↦ numeral 10 v.bits
    | uint ↦ numeral 10 v.bits
    | ulong ↦ numeral 10 v.bits
    | ulonglong ↦ numeral 10 v.bits
    | char ↦ signed_text 1 v.bits
    | short ↦ signed_text 2 v.bits
    | int ↦ signed_text 4 v.bits
    | long ↦ signed_text 8 v.bits
    | longlong ↦ signed_text 8 v.bits
    | float ↦ io.float_text v.bits
    | double ↦ io.double_text v.bits
    | carray ↦ take v.size (block v)
    | string ↦ take v.size (block v)
  ]

  -- `toValue<T>` for an integer type; `none` is a read outside the block.
  unfoldable pub to_value : CppInt → Variant → Option ℕ
  unfolding extend number_base cpp_size
  to_value t v = elim v.vt [
    | unknown ↦ some 0
    | boolean ↦ some (extend false 1 (cpp_size t) v.bits)
    | uchar ↦ some (extend false 1 (cpp_size t) v.bits)
    | ushort ↦ some (extend false 2 (cpp_size t) v.bits)
    | uint ↦ some (extend false 4 (cpp_size t) v.bits)
    | ulong ↦ some (extend false 8 (cpp_size t) v.bits)
    | ulonglong ↦ some (extend false 8 (cpp_size t) v.bits)
    | char ↦ some (extend true 1 (cpp_size t) v.bits)
    | short ↦ some (extend true 2 (cpp_size t) v.bits)
    | int ↦ some (extend true 4 (cpp_size t) v.bits)
    | long ↦ some (extend true 8 (cpp_size t) v.bits)
    | longlong ↦ some (extend true 8 (cpp_size t) v.bits)
    | float ↦ some (io.float_to_int t v.bits)
    | double ↦ some (io.double_to_int t v.bits)
    | carray ↦
        if ltb (cpp_size t) v.size
        then (copy_out (block v) 0 (cpp_size t) >>= λ bytes. some (le_value bytes))
        else some 0
    | string ↦
        if has_block v && ltb 0 v.size
        then some (io.read_int t (number_base (take v.size (block v))) (take v.size (block v)))
        else some 0
  ]

  -- `operator T`; that for `unsigned char` goes by way of `unsigned short`.
  unfoldable pub to_int : CppInt → Variant → Option ℕ
  unfolding to_value
  to_int t v = elim t [
    | cpp_uchar ↦ to_value cpp_ushort v >>= λ n. some (n % 256)
    | other ↦ to_value other v
  ]

  -- `operator bool`
  unfoldable pub to_bool : Variant → Bool
  unfolding to_string is_true_text
  to_bool v = elim v.vt [
    | unknown ↦ false
    | float ↦ not (io.float_is_zero v.bits)
    | double ↦ not (io.double_is_zero v.bits)
    | carray ↦ is_true_text (to_string v)
    | string ↦ is_true_text (to_string v)
    | number ↦ not (v.bits == 0)
  ]

  -- `operator==(const Variant &)`
  unfoldable pub equals : Variant → Variant → Bool
  unfolding to_string bytes_eq
  equals a b = bytes_eq (to_string a) (to_string b)

-- `toBuffer`
unfoldable pub to_buffer : Variant → Option Buffer
unfolding set_data is_block
to_buffer v =
    if type_code v.vt == type_code unknown
    then some empty
    else if is_block v.vt
    then if has_block v && ltb 0 v.size
      then (copy_out (block v) 0 v.size >>= λ b. set_data (some (map some b)) empty)
      else some empty
    else set_data (some (map some (le_bytes v.size v.bits))) empty
