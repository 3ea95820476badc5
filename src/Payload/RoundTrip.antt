-- ===== src/Payload/RoundTrip.antt =====
-- What the writer appends, the reader gives back, at any place of a longer payload.
use libff.Prelude.{
  ℕ, ◌+◌, ◌^◌, ◌≤◌, ◌<◌, ◌≡◌, refl, Bool, true, false, not, some, [], ◌∷◌, ◌++◌, append_assoc,
  arith, ◌==◌, if◌then◌else◌, le→leb, length, length-append, take-length_append,
  drop-length_add_append, get_elem?-length_append, Bytes, le_bytes, le_value, length-le_bytes,
  le_value-le_bytes, copy_out,
}
use libff.Payload.{
  PayloadDataType, boolean, float, make_flag, IntType, int8, int16, int32, int64, uint8, uint16,
  uint32, uint64, int_data_type, int_size, write_bool, write_float, write_double, write_int,
}
use libff.Payload.Flag.{IsNibbleType, parse_flag-make_flag}
use libff.Payload.Reader.{
  PayloadReader, done, read_fixed, read_int, read_float, read_double, read_bool,
}

-- A reader over the whole of `mem`, at offset `pos`.
abbrev pub reader_at : Bytes → ℕ → PayloadReader
reader_at mem pos = record { payload = mem; payload_len = length mem; rpos = pos }

pub copy_out_lem :
    (pre bytes post : Bytes) (x : ℕ)
    → copy_out (pre ++ x ∷ (bytes ++ post)) (length pre + 1) (length bytes) ≡ some bytes
copy_out_lem pre bytes post x = rw (le→leb _ _ inside, drop-length_add_append, take-length_append)
  where
    inside : length pre + 1 + length bytes ≤ length (pre ++ x ∷ (bytes ++ post))
    inside = omega (arith, length-append pre (x ∷ (bytes ++ post)), length-append bytes post)

-- A fixed-size read over a flag and its value.
read_fixed_lem :
    (type : PayloadDataType) (size : ℕ) (pre bytes post : Bytes)
    → IsNibbleType type
    → size < 16
    → length bytes ≡ size
    → length pre + 1 + size < 2 ^ 32
    → let mem = pre ++ make_flag type size ∷ (bytes ++ post) in
      read_fixed type size (reader_at mem (length pre))
      ≡ done (le_value bytes) (reader_at mem (length pre + 1 + size))
read_fixed_lem type size pre bytes post h s e fits = ground (
  arith,
  get_elem?-length_append pre (bytes ++ post) (make_flag type size),
  parse_flag-make_flag type size h s,
  length-append pre (make_flag type size ∷ (bytes ++ post)),
  length-append bytes post,
  copy_out_lem pre bytes post (make_flag type size),
)

-- The bytes that a fixed-size write appends, read in place.
read_fixed-le_bytes :
    (type : PayloadDataType) (size v : ℕ) (pre post : Bytes)
    → IsNibbleType type
    → size < 16
    → v < 256 ^ size
    → length pre + 1 + size < 2 ^ 32
    → let mem = (pre ++ make_flag type size ∷ le_bytes size v) ++ post in
      read_fixed type size (reader_at mem (length pre))
      ≡ done v (reader_at mem (length (pre ++ make_flag type size ∷ le_bytes size v)))
read_fixed-le_bytes type size v pre post h s b fits = rw (
  append_assoc,
  read_fixed_lem type size pre (le_bytes size v) post h s (length-le_bytes size v) fits,
  le_value-le_bytes size v b,
  after,
)
  where
    after : length pre + 1 + size ≡ length (pre ++ make_flag type size ∷ le_bytes size v)
    after =
        omega
          (arith, length-append pre (make_flag type size ∷ le_bytes size v), length-le_bytes size v)

pub int_IsNibbleType : (t : IntType) → IsNibbleType (int_data_type t)
unfolding int_data_type
int_IsNibbleType int8 = tt
int_IsNibbleType int16 = tt
int_IsNibbleType int32 = tt
int_IsNibbleType int64 = tt
int_IsNibbleType uint8 = tt
int_IsNibbleType uint16 = tt
int_IsNibbleType uint32 = tt
int_IsNibbleType uint64 = tt

pub int_size-le : (t : IntType) → (0 < int_size t) × (int_size t ≤ 8)
unfolding int_size
int_size-le int8 = omega arith
int_size-le t = omega arith

-- An integer of the type's range that `write` appended behind `pre` is read back at that place,
-- whatever follows it, and the reader then stands behind it. Nine bytes more than `pre` must stay
-- below 2 ^ 32.
pub read_int-write_int :
    (t : IntType) (v : ℕ) (pre post : Bytes)
    → v < 256 ^ int_size t
    → length pre + 9 < 2 ^ 32
    → let out = (write_int t v pre).1 in
      read_int t (reader_at (out ++ post) (length pre))
      ≡ done v (reader_at (out ++ post) (length out))
unfolding read_int write_int
read_int-write_int t v pre post b fits =
    read_fixed-le_bytes (int_data_type t) (int_size t) v pre post (int_IsNibbleType t)
      (omega (arith, int_size-le t)) b (omega (arith, int_size-le t))

-- A `float` and a `double`, as bit patterns of 32 and 64 bits, that `write` appended behind `pre`
-- are read back at that place, whatever follows, and the reader then stands behind them. Nine bytes
-- more than `pre` must stay below 2 ^ 32.
pub read_float-write_float :
    (v w : ℕ) (pre post : Bytes)
    → v < 2 ^ 32
    → w < 2 ^ 64
    → length pre + 9 < 2 ^ 32
    → let f = (write_float v pre).1 in
      let d = (write_double w pre).1 in
      (read_float (reader_at (f ++ post) (length pre)) ≡ done v (reader_at (f ++ post) (length f)))
      × (read_double (reader_at (d ++ post) (length pre))
          ≡ done w (reader_at (d ++ post) (length d)))
unfolding read_float read_double write_float write_double
read_float-write_float v w pre post hv hw fits = (
  read_fixed-le_bytes float 4 v pre post tt (omega arith) (omega arith) (omega arith),
  read_fixed-le_bytes float 8 w pre post tt (omega arith) (omega arith) (omega arith),
)

flag_value : (b : Bool) → (not ((if b then 1 else 0) == 0)) ≡ b
flag_value true = refl
flag_value false = refl

-- A `bool` that `write` appended behind `pre` is read back at that place, whatever follows it, and
-- the reader then stands behind it. One byte more than `pre` must stay below 2 ^ 32.
pub read_bool-write_bool :
    (b : Bool) (pre post : Bytes)
    → length pre + 1 < 2 ^ 32
    → let out = (write_bool b pre).1 in
      read_bool (reader_at (out ++ post) (length pre))
      ≡ done b (reader_at (out ++ post) (length out))
unfolding read_bool write_bool
read_bool-write_bool b pre post fits = rw append_assoc (
    ground (
      arith,
      get_elem?-length_append pre post flag,
      parse_flag-make_flag boolean (if b then 1 else 0) tt (ground arith),
      length-append pre (flag ∷ post),
      length-append pre (flag ∷ []),
    ))
  where
    flag : ℕ
    flag = make_flag boolean (if b then 1 else 0)
