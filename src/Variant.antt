-- ===== src/Variant.antt =====
-- ff/src/variant/Variant.cpp and ff/include/ff/Variant.h: a value of one of fifteen types, on LP64.
pub mod Types
pub mod Convert
mod RoundTrip
mod Text
mod Tests
use libff.Prelude.{
  ◌>>=◌, ℕ, zero, suc, ◌+◌, ◌-◌, ◌*◌, ◌/◌, ◌%◌, ◌^◌, ◌≤◌, ◌<◌, min, bit_and, bit_or, bit_xor, ◌≡◌,
  refl, sym, ap, ◌∙◌, ◌≢◌, ◌↔◌, ◌⊎◌, inl, inr, Bool, true, false, not, ◌&&◌, ◌||◌, Option, none,
  some, List, [], ◌∷◌, ◌++◌, map, append-nil, append_assoc, arith, ltb, leb, ◌==◌, if◌then◌else◌,
  ltb→lt, lt→ltb, le→ltb, leb→le, le→leb, lt→leb, ==_iff, ==_refl, Bool-cases, Option-cases, length,
  get_elem?, get_or, set, take, drop, replicate, All, length-append, length-set, take-append-drop,
  length-take, length-drop, length-replicate, take-length_append, drop-length_append,
  drop-length_add_append, take_all, drop_all, take-append_le, drop-append_le,
  get_elem?-length_append, get_elem?-none, take_nil, drop_nil, take-take, drop-take, get_elem?-take,
  get_elem?-some, drop-drop, drop-min, length-map, take-replicate_append, take-length_add_append,
  drop_pos, Bytes, IsByte, add32, le_bytes, le_value, length-le_bytes, le_value-le_bytes,
  le_bytes-IsByte, sub32, copy_out, copy_in, written, copy_in-written, copy_in-outside,
  length-written, take-written, copy_out-inside, copy_out-outside, Returns, Returns_weaken,
  same_table, agree_below, bit_and_low4, bit_or_nibbles, bit_and_low2, bit_and_low6, bit_and_mid2,
  bit_or_low2, bit_or_low6, codes, digit, numeral_loop, numeral, padded,
}
use libff.Variant.Types.{
  VariantType, unknown, carray, string, CppInt, type_size, is_block, stored_as,
  type_info_from_string, VariantTypeInfo,
}

-- `vt`, `size` and the union: for a number the `size` bytes of it that are in use, as a number, and
-- for CARRAY and STRING `valPtr`, null or a block of its own. A step through a null pointer, or outside a block, gives `none`.
pub record Variant : Type 0 where
  pub vt : VariantType
  pub size : ℕ
  pub bits : ℕ
  pub val_ptr : Option Bytes

-- The bytes behind a pointer, none behind a null one.
abbrev pub behind : Option Bytes → Bytes
behind none = []
behind (some b) = b

abbrev pub block : Variant → Bytes
block v = behind v.val_ptr

-- The same pointer with other bytes behind it
abbrev pub repointed : Option Bytes → Bytes → Option Bytes
repointed none b = none
repointed (some old) b = some b

-- Is `valPtr` not null?
abbrev pub has_block : Variant → Bool
has_block v = elim v.val_ptr [ none ↦ false | some b ↦ true ]

-- `Variant::Variant()`
abbrev pub new_unknown : Variant
new_unknown = record { vt = unknown; size = 0; bits = 0; val_ptr = none }

-- The constructors from numbers, on bit patterns
unfoldable pub new_int : CppInt → ℕ → Variant
unfolding type_size stored_as
new_int t v = record {
  vt = stored_as t;
  size = type_size (stored_as t);
  bits = v % 256 ^ type_size (stored_as t);
  val_ptr = none;
}

unfoldable pub new_bool : Bool → Variant
new_bool v = record {
  vt = VariantType.boolean;
  size = 1;
  bits = if v then 1 else 0;
  val_ptr = none;
}

-- `Variant(float)` and `Variant(double)`
unfoldable pub new_float : ℕ → Variant
new_float v = record { vt = VariantType.float; size = 4; bits = v; val_ptr = none }

unfoldable pub new_double : ℕ → Variant
new_double v = record { vt = VariantType.double; size = 8; bits = v; val_ptr = none }

-- `Variant(const string &)`; `Variant(const char *)` of the text in front of the NUL
unfoldable pub new_string : Bytes → Variant
new_string v = record {
  vt = string;
  size = length v;
  bits = 0;
  val_ptr = if length v == 0 then none else some v;
}

-- `Variant(const Variant &)`
unfoldable pub copy_of : Variant → Option Variant
unfolding is_block
copy_of v =
    if is_block v.vt
    then (copy_out (block v) 0 v.size >>= λ b. some (record v { val_ptr = some b }))
    else some v

-- `Variant(Variant &&)`: the new object and what is left of the old one
unfoldable pub move_from : Variant → Variant × Variant
move_from v = (v, record v { vt = unknown })

-- `operator=(const Variant &)` of another object; one of size 0 shares its pointer.
unfoldable pub assign : Variant → Option Variant
unfolding is_block
assign v =
    if is_block v.vt && ltb 0 v.size
    then (copy_out (block v) 0 v.size >>= λ b. some (record v { val_ptr = some b }))
    else some v

-- `clear`
unfoldable pub clear : Variant → Variant
clear v = new_unknown

-- `zero`
unfoldable pub zero_fill : Variant → Option Variant
unfolding is_block
zero_fill v =
    if is_block v.vt
    then elim v.val_ptr [
      | none ↦ some v
      | some b ↦ copy_in b 0 (replicate v.size 0) >>= λ b'. some (record v { val_ptr = some b' })
    ]
    else some (record v { bits = 0 })

-- `setSize`
unfoldable pub set_size : ℕ → Variant → Variant
unfolding is_block clear
set_size size v =
    if is_block v.vt && not (v.size == size)
    then record (clear v) {
      vt = v.vt;
      size = size;
      val_ptr = if size == 0 then none else some (replicate size 0);
    }
    else v

-- `VariantType` values are compared as their codes.
unfoldable pub set_vt : VariantType → Variant → Variant
unfolding clear type_size
set_vt vt v =
    let v' = if Types.type_code v.vt == Types.type_code vt then v else clear v in
    record v' { vt = vt; size = type_size vt }

-- `setVt(const string &)`; the last argument reads the number in `char[n]`.
unfoldable pub set_vt_named : (Bytes → ℕ) → Bytes → Variant → Variant
unfolding clear
set_vt_named read_long name v =
    let info = type_info_from_string read_long name in
    record (clear v) { vt = info.vt; size = info.size }

-- `strlen` of the bytes from a pointer on; `none` where no NUL ends them.
unfoldable pub strlen : Bytes → Option ℕ
strlen [] = none
strlen (c ∷ cs) = let rest = strlen cs in if c == 0 then some 0 else (rest >>= λ n. some (n + 1))

-- `memcpy(this->value.valPtr, v, n)`
abbrev pub copy_to_block : Bytes → ℕ → Variant → Option Variant
copy_to_block mem n v = copy_out mem 0 n >>= λ bytes.
    copy_in (block v) 0 bytes >>= λ b. some (record v { val_ptr = repointed v.val_ptr b })

-- `memcpy(&this->value, v, n)`, with the bytes behind the `n` as they are
abbrev pub copy_to_value : Bytes → ℕ → Variant → Option Variant
copy_to_value mem n v = copy_out mem 0 n >>= λ bytes.
    copy_in (le_bytes v.size v.bits) 0 bytes >>= λ all. some (record v { bits = le_value all })

-- `setValue(const void *)` of the memory behind the pointer
unfoldable pub set_value : Bytes → Variant → Option Variant
unfolding strlen set_size is_block
set_value mem v =
    if Types.type_code v.vt == Types.type_code unknown
    then some v
    else if Types.type_code v.vt == Types.type_code carray
    then copy_to_block mem v.size v
    else if Types.type_code v.vt == Types.type_code string
    then (strlen mem >>= λ n.
        let v' = if n == v.size then v else set_size n v in copy_to_block mem v'.size v')
    else copy_to_value mem v.size v

-- `setValue(const void *, unsigned long)`
unfoldable pub set_value_sized : Bytes → ℕ → Variant → Option Variant
unfolding zero_fill set_size is_block
set_value_sized mem size v =
    let s = min v.size size % 2 ^ 32 in
    if Types.type_code v.vt == Types.type_code unknown
    then some v
    else (zero_fill v >>= λ z.
        if Types.type_code z.vt == Types.type_code carray
        then copy_to_block mem s z
        else if Types.type_code z.vt == Types.type_code string
        then (let z' = if size == z.size then z else set_size size z in
            if ltb 0 z'.size then copy_to_block mem z'.size z' else some z')
        else copy_to_value mem s z)

-- `setValue(const void *, VariantType)` and `setValue(const void *, const string &)`
unfoldable pub set_value_typed : Bytes → VariantType → Variant → Option Variant
unfolding set_vt set_value
set_value_typed mem vt v = set_value mem (set_vt vt v)

unfoldable pub set_value_named : (Bytes → ℕ) → Bytes → Bytes → Variant → Option Variant
unfolding set_vt set_size set_value
set_value_named read_long mem name v =
    let info = type_info_from_string read_long name in
    set_value mem (set_size info.size (set_vt info.vt v))
