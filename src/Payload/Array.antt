-- ===== src/Payload/Array.antt =====
-- Byte arrays: `write(const void *, uint32_t)` and `read(void *, uint32_t &)`.
use libff.Prelude.{
  ℕ, ◌+◌, ◌^◌, ◌≤◌, ◌<◌, ◌≡◌, true, some, [], ◌∷◌, ◌++◌, append_assoc, arith, le→leb, length,
  length-append, take-length_append, drop-length_append, get_elem?-length_append, Bytes, le_bytes,
  length-le_bytes, le_value-le_bytes, copy_out,
}
use libff.Payload.{c_array, make_flag, write_array}
use libff.Payload.Flag.{parse_flag-make_flag}
use libff.Payload.Reader.{done, read_array}
use libff.Payload.RoundTrip.{reader_at, copy_out_lem}
use native.Mathlib.Decide.{dec_lt}

copy_out_at :
    (pre mid bytes post : Bytes)
    → copy_out (pre ++ (mid ++ (bytes ++ post))) (length pre + length mid) (length bytes)
      ≡ some bytes
copy_out_at pre mid bytes post =
    rw (← append_assoc pre mid (bytes ++ post), ← length-append pre mid)
      (rw (le→leb _ _ inside, drop-length_append, take-length_append))
  where
    inside : length (pre ++ mid) + length bytes ≤ length ((pre ++ mid) ++ (bytes ++ post))
    inside = omega (arith, length-append (pre ++ mid) (bytes ++ post), length-append bytes post)

read_array_short :
    (buf_len : ℕ) (buf pre post : Bytes)
    → 0 < length buf
    → length buf ≤ 15
    → length buf ≤ buf_len
    → length pre + length buf + 5 < 2 ^ 32
    → let mem = pre ++ make_flag c_array (length buf) ∷ (buf ++ post) in
      read_array buf_len (reader_at mem (length pre))
      ≡ done buf (reader_at mem (length pre + 1 + length buf))
unfolding read_array
read_array_short buf_len buf pre post pos short room fits = ground (
  arith,
  get_elem?-length_append pre (buf ++ post) flag,
  parse_flag-make_flag c_array (length buf) tt,
  length-append pre (flag ∷ (buf ++ post)),
  copy_out_at pre (flag ∷ []) buf post,
)
  where
    flag : ℕ
    flag = make_flag c_array (length buf)

read_array_long :
    (buf_len : ℕ) (buf pre post : Bytes)
    → 15 < length buf
    → length buf ≤ buf_len
    → length pre + length buf + 5 < 2 ^ 32
    → let mem = pre ++ make_flag c_array 0 ∷ (le_bytes 4 (length buf) ++ (buf ++ post)) in
      read_array buf_len (reader_at mem (length pre))
      ≡ done buf (reader_at mem (length pre + 5 + length buf))
unfolding read_array
read_array_long buf_len buf pre post long room fits = ground (
  arith,
  get_elem?-length_append pre (size ++ (buf ++ post)) flag,
  parse_flag-make_flag c_array 0 tt,
  length-append pre (flag ∷ (size ++ (buf ++ post))),
  length-le_bytes 4 (length buf),
  le_value-le_bytes 4 (length buf),
  copy_out_lem pre size (buf ++ post) flag,
  copy_out_at pre (flag ∷ size) buf post,
)
  where
    flag : ℕ
    flag = make_flag c_array 0

    size : Bytes
    size = le_bytes 4 (length buf)

pub write_array_short :
    (buf pre : Bytes)
    → 0 < length buf
    → length buf ≤ 15
    → write_array buf pre ≡ (true, pre ++ make_flag c_array (length buf) ∷ buf)
unfolding write_array
write_array_short buf pre pos short = ground arith

pub write_array_long :
    (buf pre : Bytes)
    → 15 < length buf
    → write_array buf pre ≡ (true, pre ++ make_flag c_array 0 ∷ (le_bytes 4 (length buf) ++ buf))
unfolding write_array
write_array_long buf pre long = ground arith

-- An array of at least one byte that `write` appended behind `pre` is read back at that place into
-- any buffer that is large enough, whatever follows it, and the reader then stands behind it. Five
-- bytes more than both must stay below 2 ^ 32.
pub read_array-write_array :
    (buf_len : ℕ) (buf pre post : Bytes)
    → 0 < length buf
    → length buf ≤ buf_len
    → length pre + length buf + 5 < 2 ^ 32
    → let out = (write_array buf pre).1 in
      read_array buf_len (reader_at (out ++ post) (length pre))
      ≡ done buf (reader_at (out ++ post) (length out))
read_array-write_array buf_len buf pre post pos room fits = elim (dec_lt 15 (length buf)) [
  | no short ↦ rw (write_array_short buf pre pos (omega arith)) (
      ground (
        arith,
        append_assoc pre (make_flag c_array (length buf) ∷ buf) post,
        length-append pre (make_flag c_array (length buf) ∷ buf),
        read_array_short buf_len buf pre post pos,
      ))
  | yes long ↦ rw (write_array_long buf pre long) (
      ground (
        arith,
        append_assoc pre (make_flag c_array 0 ∷ (le_bytes 4 (length buf) ++ buf)) post,
        append_assoc (le_bytes 4 (length buf)) buf post,
        length-append pre (make_flag c_array 0 ∷ (le_bytes 4 (length buf) ++ buf)),
        length-append (le_bytes 4 (length buf)) buf,
        length-le_bytes 4 (length buf),
        read_array_long buf_len buf pre post long,
      ))
]
