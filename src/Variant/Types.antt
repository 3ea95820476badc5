-- ===== src/Variant/Types.antt =====
-- The types of a `Variant`, and their names.
use libff.Prelude.{
  ℕ, ◌-◌, Bool, true, false, ◌&&◌, ◌||◌, List, [], ◌∷◌, ◌==◌, if◌then◌else◌, length, take, drop,
  Bytes, codes,
}
use libff.Strings.{trim, to_lower, bytes_eq, is_prefix}

-- `enum class VariantType`
pub data VariantType : Type 0 where
  unknown boolean uchar ushort uint ulong ulonglong char short int long longlong float double carray
        string :
      VariantType

-- The value of an enumerator
abbrev pub type_code : VariantType → ℕ
type_code unknown = 0
type_code boolean = 1
type_code uchar = 2
type_code ushort = 3
type_code uint = 4
type_code ulong = 5
type_code ulonglong = 6
type_code char = 7
type_code short = 8
type_code int = 9
type_code long = 10
type_code longlong = 11
type_code float = 12
type_code double = 13
type_code carray = 14
type_code string = 15

-- `TypeInfo(type).size`
unfoldable pub type_size : VariantType → ℕ
type_size boolean = 1
type_size uchar = 1
type_size ushort = 2
type_size uint = 4
type_size ulong = 8
type_size ulonglong = 8
type_size char = 1
type_size short = 2
type_size int = 4
type_size long = 8
type_size longlong = 8
type_size float = 4
type_size double = 8
type_size unknown = 0
type_size carray = 0
type_size string = 0

-- `CARRAY == vt || STRING == vt`
unfoldable pub is_block : VariantType → Bool
is_block carray = true
is_block string = true
is_block t = false

-- The integer types of C++ that a `Variant` is made from and converts to
pub data CppInt : Type 0 where
  cpp_char cpp_short cpp_int cpp_long cpp_long_long : CppInt
  cpp_uchar cpp_ushort cpp_uint cpp_ulong cpp_ulong_long : CppInt

-- The type that the constructor gives
unfoldable pub stored_as : CppInt → VariantType
stored_as cpp_char = char
stored_as cpp_short = short
stored_as cpp_int = int
stored_as cpp_long = int
stored_as cpp_long_long = longlong
stored_as cpp_uchar = uchar
stored_as cpp_ushort = ushort
stored_as cpp_uint = uint
stored_as cpp_ulong = uint
stored_as cpp_ulong_long = longlong

-- `sizeof(T)`
unfoldable pub cpp_size : CppInt → ℕ
cpp_size cpp_char = 1
cpp_size cpp_short = 2
cpp_size cpp_int = 4
cpp_size cpp_long = 8
cpp_size cpp_long_long = 8
cpp_size cpp_uchar = 1
cpp_size cpp_ushort = 2
cpp_size cpp_uint = 4
cpp_size cpp_ulong = 8
cpp_size cpp_ulong_long = 8

pub record VariantTypeInfo : Type 0 where
  pub vt : VariantType
  pub size : ℕ

abbrev pub info_of : VariantType → VariantTypeInfo
unfolding type_size
info_of t = record { vt = t; size = type_size t }

-- Is the name one of these?
unfoldable pub named : Bytes → List Bytes → Bool
unfolding bytes_eq
named name [] = false
named name (x ∷ xs) = let rest = named name xs in bytes_eq x name || rest

-- `']' == type[type.length() - 1]`, on a text that is not empty
unfoldable pub ends_in_bracket : Bytes → Bool
ends_in_bracket [] = false
ends_in_bracket (c ∷ []) = c == b']'
ends_in_bracket (c ∷ d ∷ cs) = ends_in_bracket (d ∷ cs)

-- `TypeInfoFromString`; the first argument is what a stream reads from the text as a `long`, which
-- is not negative.
unfoldable pub type_info_from_string : (Bytes → ℕ) → Bytes → VariantTypeInfo
unfolding named ends_in_bracket type_size trim to_lower is_prefix
type_info_from_string read_long name =
    let type = to_lower (trim name) in
    if named type (codes "boolean" ∷ codes "bool" ∷ [])
    then info_of boolean
    else if named type (codes "uchar" ∷ codes "uint8" ∷ codes "unsigned char" ∷ [])
    then info_of uchar
    else if named type (codes "ushort" ∷ codes "uint16" ∷ codes "unsigned short" ∷ [])
    then info_of ushort
    else if named type
        (codes "uint" ∷ codes "uint32" ∷ codes "unsigned" ∷ codes "unsigned int" ∷ [])
    then info_of uint
    else if named type (codes "ulong" ∷ codes "unsigned long" ∷ [])
    then info_of ulong
    else if named type (
        codes "ulonglong"
        ∷ codes "uint64"
        ∷ codes "unsigned long long"
        ∷ codes "unsigned longlong"
        ∷ [])
    then info_of ulonglong
    else if named type (codes "char" ∷ codes "int8" ∷ [])
    then info_of char
    else if named type (codes "short" ∷ codes "uint16" ∷ [])
    then info_of short
    else if named type (codes "int" ∷ codes "int32" ∷ [])
    then info_of int
    else if named type (codes "long" ∷ [])
    then info_of long
    else if named type (codes "long long" ∷ codes "longlong" ∷ codes "int64" ∷ [])
    then info_of longlong
    else if named type (codes "string" ∷ [])
    then record { vt = string; size = 0 }
    else if is_prefix (codes "char[") type && ends_in_bracket type
    then record { vt = carray; size = read_long (take (length type - 6) (drop 5 type)) }
    else record { vt = unknown; size = 0 }
