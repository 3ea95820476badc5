-- ===== src/Payload/Reader.antt =====
-- `PayloadReader`: reads over the memory that holds the payload. A read outside that memory, which
-- C++ leaves undefined, is `fault`.
use libff.Prelude.{
  ℕ, zero, suc, ◌+◌, ◌-◌, ◌%◌, ◌^◌, Bool, not, ◌||◌, Option, none, some, [], ◌∷◌, ◌++◌, ltb, leb,
  ◌==◌, if◌then◌else◌, get_elem?, Bytes, add32, le_value, copy_out,
}
use libff.Payload.{
  PayloadDataType, boolean, string, float, c_array, type_code, parse_flag, IntType, int_data_type,
  int_size,
}

-- `m_payload` points to the bytes `payload`; `m_payloadLen` is what the constructor was given.
pub record PayloadReader : Type 0 where
  pub payload : Bytes
  pub payload_len : ℕ
  pub rpos : ℕ

-- What a read does: returns false and leaves the reader and the output alone, hands out a value, or
-- reads outside the payload's memory.
pub data Read (A : Type 0) : Type 0 where
  refused : Read A
  done : A → PayloadReader → Read A
  fault : Read A

infixl 5 ◌>>=◌
abbrev pub ◌>>=◌ : {A B : Type 0} → Option A → (A → Read B) → Read B
none >>= f = fault
some a >>= f = f a

-- `PayloadReader::PayloadReader`
unfoldable pub new_reader : Bytes → ℕ → PayloadReader
new_reader payload len = record { payload = payload; payload_len = len; rpos = 0 }

-- `PayloadReader::reset`
unfoldable pub reset : PayloadReader → PayloadReader
reset r = record r { rpos = 0 }

-- `PayloadDataType` values are compared as their codes.
abbrev pub is_type : PayloadDataType → PayloadDataType → Bool
is_type a b = type_code a == type_code b

-- Moves `m_rpos`, a uint32_t.
abbrev pub advance : PayloadReader → ℕ → PayloadReader
advance r n = record r { rpos = add32 r.rpos n }

-- `bool nextDataType(PayloadDataType &, uint32_t &) const`: the inner `none` is false, the outer one
-- a read outside the memory.
unfoldable pub next_data_type : PayloadReader → Option (Option (PayloadDataType × ℕ))
unfolding parse_flag
next_data_type r =
    if leb r.payload_len r.rpos then some none else elim (get_elem? r.payload r.rpos) [
      | none ↦ none
      | some flag ↦
          if (parse_flag flag).1 == 0
          then elim (copy_out r.payload (add32 r.rpos 1) 4) [
            | none ↦ none
            | some bytes ↦ some (some ((parse_flag flag).0, le_value bytes))
          ]
          else some (some (parse_flag flag))
    ]

-- The test of every fixed-size `read`: `size` bytes from `m_rpos` on must fit, the flag must be
-- right, and `size` bytes after the flag are copied out.
abbrev pub read_fixed : PayloadDataType → ℕ → PayloadReader → Read ℕ
read_fixed type size r = if ltb r.payload_len (r.rpos + size) then refused else do
  flag ← get_elem? r.payload r.rpos
  if not (is_type type (parse_flag flag).0) || not (size == (parse_flag flag).1)
      then refused
      else do
        bytes ← copy_out r.payload (add32 r.rpos 1) size
        done (le_value bytes) (advance (advance r 1) size)

-- `read(VT &)` of INT_READ_FUNC_DEF, on bit patterns
unfoldable pub read_int : IntType → PayloadReader → Read ℕ
unfolding parse_flag int_data_type int_size type_code
read_int t r = read_fixed (int_data_type t) (int_size t) r

-- `read(float &)` and `read(double &)`, on bit patterns
unfoldable pub read_float : PayloadReader → Read ℕ
unfolding parse_flag type_code
read_float r = read_fixed float 4 r

unfoldable pub read_double : PayloadReader → Read ℕ
unfolding parse_flag type_code
read_double r = read_fixed float 8 r

-- `const VT *read<VT>()` of UINT_PTR_R_FUNC_DEF: it hands out the address of the value's first
-- byte, here its offset, and reads no byte but the flag.
unfoldable pub read_pointer : IntType → PayloadReader → Read ℕ
unfolding parse_flag int_data_type int_size type_code
read_pointer t r = if ltb r.payload_len (r.rpos + int_size t) then refused else do
  flag ← get_elem? r.payload r.rpos
  if not (is_type (int_data_type t) (parse_flag flag).0) || not (int_size t == (parse_flag flag).1)
      then refused
      else done (add32 r.rpos 1) (advance (advance r 1) (parse_flag flag).1)

-- `read(bool &)`
unfoldable pub read_bool : PayloadReader → Read Bool
unfolding parse_flag type_code
read_bool r = if leb r.payload_len r.rpos then refused else do
  flag ← get_elem? r.payload r.rpos
  if not (is_type boolean (parse_flag flag).0)
      then refused
      else done (not ((parse_flag flag).1 == 0)) (advance r 1)

-- `val.push_back(m_payload[m_rpos + i])` for the `n` rounds from `i` on; the index is a uint32_t.
unfoldable pub push_bytes : Bytes → ℕ → ℕ → Bytes → Option Bytes
push_bytes mem pos zero acc = some acc
push_bytes mem pos (suc n) acc = elim (get_elem? mem pos) [
  | none ↦ none
  | some c ↦ push_bytes mem (add32 pos 1) n (acc ++ c ∷ [])
]

-- The body of `read(std::string &)` once the length is known: `strLen - 1` wraps at 0.
unfoldable pub read_chars : ℕ → PayloadReader → Read Bytes
unfolding push_bytes
read_chars str_len r = do
  val ← push_bytes r.payload r.rpos ((str_len + (2 ^ 32 - 1)) % 2 ^ 32) []
  done val (advance r str_len)

-- `read(std::string &)`
unfoldable pub read_string : PayloadReader → Read Bytes
unfolding read_chars parse_flag type_code
read_string r = if leb r.payload_len r.rpos then refused else do
  flag ← get_elem? r.payload r.rpos
  if not (is_type string (parse_flag flag).0)
      then refused
      else if (parse_flag flag).1 == 0
      then (copy_out r.payload (add32 r.rpos 1) 4 >>= λ bytes.
          read_chars (le_value bytes) (advance (advance r 1) 4))
      else read_chars (parse_flag flag).1 (advance r 1)

-- `read(void *, uint32_t &)` into a buffer of `buf_len` bytes
unfoldable pub read_array : ℕ → PayloadReader → Read Bytes
unfolding next_data_type type_code
read_array buf_len r = if leb r.payload_len r.rpos then refused else do
  next ← next_data_type r
  elim next [
    | none ↦ refused
    | some (type, len) ↦ if not (is_type c_array type) || ltb buf_len len then refused else do
      let r' = if ltb 15 len then advance (advance r 1) 4 else advance r 1
      bytes ← copy_out r'.payload r'.rpos len
      done bytes (advance r' len)
  ]
