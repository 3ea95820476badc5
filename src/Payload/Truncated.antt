-- ===== src/Payload/Truncated.antt =====
-- Payloads that end inside a value.
use libff.Prelude.{
  ◌+◌, ◌^◌, ◌<◌, ◌≡◌, ◌∷◌, ◌++◌, arith, length, length-append, get_elem?-length_append, Bytes,
}
use libff.Payload.{make_flag, IntType, int_data_type, int_size}
use libff.Payload.Flag.{parse_flag-make_flag}
use libff.Payload.Reader.{refused, fault, read_int}
use libff.Payload.RoundTrip.{reader_at, int_IsNibbleType, int_size-le}

-- The test `m_rpos + sizeof(val) > m_payloadLen` forgets the flag: where the payload ends one byte
-- before the integer does, the `read` of every integer type copies a byte from behind the payload.
-- Nine bytes more than `pre` stay below 2 ^ 32.
pub read_int-cut_by_one :
    (t : IntType) (pre bytes : Bytes)
    → length bytes + 1 ≡ int_size t
    → length pre + 9 < 2 ^ 32
    → read_int t (reader_at (pre ++ make_flag (int_data_type t) (int_size t) ∷ bytes) (length pre))
      ≡ fault
unfolding read_int
read_int-cut_by_one t pre bytes e fits = ground (
  arith,
  get_elem?-length_append pre bytes (make_flag (int_data_type t) (int_size t)),
  parse_flag-make_flag (int_data_type t) (int_size t) (int_IsNibbleType t),
  int_size-le t,
  length-append pre (make_flag (int_data_type t) (int_size t) ∷ bytes),
)

-- A payload that ends two bytes or more before an integer does is refused by the `read` of its
-- type, which leaves the reader where it is.
pub read_int-cut :
    (t : IntType) (pre bytes : Bytes)
    → length bytes + 1 < int_size t
    → read_int t (reader_at (pre ++ make_flag (int_data_type t) (int_size t) ∷ bytes) (length pre))
      ≡ refused
unfolding read_int
read_int-cut t pre bytes e =
    ground (arith, length-append pre (make_flag (int_data_type t) (int_size t) ∷ bytes))
