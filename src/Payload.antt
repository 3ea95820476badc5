-- ===== src/Payload.antt =====
-- ff/src/buffer/Payload.cpp and ff/include/ff/Payload.h: the self-describing payload, one flag byte
-- (type in the high nibble, length in the low one) before each value.
pub mod Reader
pub mod Flag
mod RoundTrip
mod Text
mod Array
mod Truncated
mod Items
pub mod Printer
mod PrintRun
mod PrintItems
mod Tests
use libff.Prelude.{
  ℕ, ◌+◌, ◌*◌, ◌/◌, ◌%◌, ◌<◌, ◌^◌, Bool, true, false, List, [], ◌∷◌, ◌++◌, ltb, ◌==◌, bit_and,
  bit_or, if◌then◌else◌, length, Bytes, le_bytes,
}

-- `enum class PayloadDataType : uint8_t`. The cast from a flag's high nibble also makes values that
-- the enum has no name for.
pub data PayloadDataType : Type 0 where
  unknown boolean sint uint float string c_array : PayloadDataType
  unnamed : ℕ → PayloadDataType

-- `uint8_t(type)`
unfoldable pub type_code : PayloadDataType → ℕ
type_code unknown = 0
type_code boolean = 1
type_code sint = 2
type_code uint = 3
type_code float = 4
type_code string = 5
type_code c_array = 6
type_code (unnamed n) = n

-- `PayloadDataType(n)`
unfoldable pub type_of_code : ℕ → PayloadDataType
type_of_code n =
    if n == 0
    then unknown
    else if n == 1
    then boolean
    else if n == 2
    then sint
    else if n == 3
    then uint
    else if n == 4
    then float
    else if n == 5
    then string
    else if n == 6
    then c_array
    else unnamed n

-- `PayloadWriter::MakeFlag`, on a uint8_t length
unfoldable pub make_flag : PayloadDataType → ℕ → ℕ
unfolding type_code
make_flag type len = bit_or (type_code type * 16 % 256) (bit_and len 0x0f)

-- `PayloadReader::ParseFlag`
unfoldable pub parse_flag : ℕ → PayloadDataType × ℕ
parse_flag flag = (type_of_code (flag / 16), bit_and flag 0x0f)

-- The types at which INT_WR_FUNC_DEF and INT_READ_FUNC_DEF define `write` and `read`.
pub data IntType : Type 0 where
  int8 int16 int32 int64 uint8 uint16 uint32 uint64 : IntType

-- The macro's second argument.
unfoldable pub int_data_type : IntType → PayloadDataType
int_data_type int8 = sint
int_data_type int16 = sint
int_data_type int32 = sint
int_data_type int64 = sint
int_data_type uint8 = uint
int_data_type uint16 = uint
int_data_type uint32 = uint
int_data_type uint64 = uint

-- `sizeof(VT)`
unfoldable pub int_size : IntType → ℕ
int_size int8 = 1
int_size int16 = 2
int_size int32 = 4
int_size int64 = 8
int_size uint8 = 1
int_size uint16 = 2
int_size uint32 = 4
int_size uint64 = 8

-- A write returns its result and the vector `m_payload` after it.
abbrev pub Written : Type 0
Written = Bool × Bytes

-- `PayloadWriter::write(const bool &)`
unfoldable pub write_bool : Bool → Bytes → Written
unfolding make_flag
write_bool val payload = (true, payload ++ make_flag boolean (if val then 1 else 0) ∷ [])

-- `PayloadWriter::write(const float &)` on the bit pattern of the value
unfoldable pub write_float : ℕ → Bytes → Written
unfolding make_flag
write_float val payload = (true, payload ++ make_flag float 4 ∷ le_bytes 4 val)

-- `PayloadWriter::write(const double &)` on the bit pattern of the value
unfoldable pub write_double : ℕ → Bytes → Written
unfolding make_flag
write_double val payload = (true, payload ++ make_flag float 8 ∷ le_bytes 8 val)

-- `PayloadWriter::write(const VT &)` of INT_WR_FUNC_DEF on the bit pattern of the value
unfoldable pub write_int : IntType → ℕ → Bytes → Written
unfolding make_flag int_data_type int_size
write_int t val payload =
    (true, payload ++ make_flag (int_data_type t) (int_size t) ∷ le_bytes (int_size t) val)

-- The length after a flag: four bytes where it does not fit the nibble.
abbrev pub long_length : ℕ → Bytes
long_length n = if ltb 15 n then le_bytes 4 n else []

-- `PayloadWriter::write(const std::string &)`; `valSize` counts the closing NUL in a uint32_t.
unfoldable pub write_string : Bytes → Bytes → Written
unfolding make_flag
write_string val payload =
    let val_size = (length val + 1) % 2 ^ 32 in
    (
      true,
      payload
          ++ make_flag string (if ltb 15 val_size then 0 else val_size % 256)
            ∷ (long_length val_size ++ (val ++ 0 ∷ [])),
    )

-- `PayloadWriter::write(const void *, uint32_t)`; `buf` is not null and holds `len` bytes, its
-- length. Nothing is written for an empty one.
unfoldable pub write_array : Bytes → Bytes → Written
unfolding make_flag
write_array buf payload =
    let len = length buf in
    if len == 0 then (false, payload) else (
      true,
      payload ++ make_flag c_array (if ltb 15 len then 0 else len % 256) ∷ (long_length len ++ buf),
    )
