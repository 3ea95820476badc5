-- ===== src/Payload/Text.antt =====
-- Strings and byte arrays: with the length in the flag up to 15 bytes, in four bytes above.
use libff.Prelude.{
  ℕ, ◌+◌, ◌-◌, ◌%◌, ◌^◌, ◌≤◌, ◌<◌, ◌≡◌, true, some, [], ◌∷◌, ◌++◌, append-nil, append_assoc, arith,
  length, length-append, get_elem?-length_append, Bytes, add32, le_bytes, length-le_bytes,
  le_value-le_bytes,
}
use libff.Payload.{string, make_flag, write_string}
use libff.Payload.Flag.{parse_flag-make_flag}
use libff.Payload.Reader.{done, push_bytes, read_chars, read_string}
use libff.Payload.RoundTrip.{reader_at, copy_out_lem}
use native.Mathlib.Decide.{dec_lt}

-- The loop of `push_back`s takes the bytes from its place on.
push_bytes_lem :
    (bytes pre post acc : Bytes)
    → length pre + length bytes < 2 ^ 32
    → push_bytes (pre ++ (bytes ++ post)) (length pre) (length bytes) acc ≡ some (acc ++ bytes)
unfolding push_bytes
push_bytes_lem [] pre post acc fits = rw append-nil
push_bytes_lem (c ∷ cs) pre post acc fits = ground (
  arith,
  get_elem?-length_append pre (cs ++ post) c,
  append_assoc pre (c ∷ []) (cs ++ post),
  append_assoc acc (c ∷ []) cs,
  length-append pre (c ∷ []),
  push_bytes_lem cs (pre ++ c ∷ []) post (acc ++ c ∷ []),
)

read_chars_lem :
    (val pre post : Bytes)
    → length pre + length val + 1 < 2 ^ 32
    → let mem = pre ++ (val ++ 0 ∷ post) in
      read_chars (length val + 1) (reader_at mem (length pre))
      ≡ done val (reader_at mem (length pre + (length val + 1)))
unfolding read_chars
read_chars_lem val pre post fits =
    rw (rounds, push_bytes_lem val pre (0 ∷ post) [] (omega arith), after)
  where
    rounds : (length val + 1 + (2 ^ 32 - 1)) % 2 ^ 32 ≡ length val
    rounds = omega arith

    after : add32 (length pre) (length val + 1) ≡ length pre + (length val + 1)
    after = omega arith

-- The same behind `mid`.
read_chars_at :
    (val pre mid post : Bytes)
    → length pre + length mid + length val + 1 < 2 ^ 32
    → let mem = pre ++ (mid ++ (val ++ 0 ∷ post)) in
      read_chars (length val + 1) (reader_at mem (length pre + length mid))
      ≡ done val (reader_at mem (length pre + length mid + (length val + 1)))
read_chars_at val pre mid post fits =
    rw (← append_assoc pre mid (val ++ 0 ∷ post), ← length-append pre mid)
      (read_chars_lem val (pre ++ mid) post (omega (arith, length-append pre mid)))

read_string_short :
    (val pre post : Bytes)
    → length val < 15
    → length pre + length val + 2 < 2 ^ 32
    → let mem = pre ++ make_flag string (length val + 1) ∷ (val ++ 0 ∷ post) in
      read_string (reader_at mem (length pre))
      ≡ done val (reader_at mem (length pre + 1 + (length val + 1)))
unfolding read_string
read_string_short val pre post short fits = ground (
  arith,
  get_elem?-length_append pre (val ++ 0 ∷ post) flag,
  parse_flag-make_flag string (length val + 1) tt,
  length-append pre (flag ∷ (val ++ 0 ∷ post)),
  read_chars_at val pre (flag ∷ []) post,
)
  where
    flag : ℕ
    flag = make_flag string (length val + 1)

read_string_long :
    (val pre post : Bytes)
    → length pre + length val + 6 < 2 ^ 32
    → let mem = pre ++ make_flag string 0 ∷ (le_bytes 4 (length val + 1) ++ (val ++ 0 ∷ post)) in
      read_string (reader_at mem (length pre))
      ≡ done val (reader_at mem (length pre + 5 + (length val + 1)))
unfolding read_string
read_string_long val pre post fits = ground (
  arith,
  get_elem?-length_append pre (size ++ (val ++ 0 ∷ post)) flag,
  parse_flag-make_flag string 0 tt,
  length-append pre (flag ∷ (size ++ (val ++ 0 ∷ post))),
  length-le_bytes 4 (length val + 1),
  le_value-le_bytes 4 (length val + 1),
  copy_out_lem pre size (val ++ 0 ∷ post) flag,
  read_chars_at val pre (flag ∷ size) post,
)
  where
    flag : ℕ
    flag = make_flag string 0

    size : Bytes
    size = le_bytes 4 (length val + 1)

-- The bytes that a string is written as.
pub write_string_short :
    (val pre : Bytes)
    → length val < 15
    → write_string val pre ≡ (true, pre ++ make_flag string (length val + 1) ∷ (val ++ 0 ∷ []))
unfolding write_string
write_string_short val pre short = ground arith

pub write_string_long :
    (val pre : Bytes)
    → 15 ≤ length val
    → length val + 1 < 2 ^ 32
    → write_string val pre
      ≡ (true, pre ++ make_flag string 0 ∷ (le_bytes 4 (length val + 1) ++ (val ++ 0 ∷ [])))
unfolding write_string
write_string_long val pre long fits = ground arith

-- A string that `write` appended behind `pre` is read back at that place, whatever follows it, and
-- the reader then stands behind it: short strings and strings with a four-byte length alike. Six
-- bytes more than both must stay below 2 ^ 32.
pub read_string-write_string :
    (val pre post : Bytes)
    → length pre + length val + 6 < 2 ^ 32
    → let out = (write_string val pre).1 in
      read_string (reader_at (out ++ post) (length pre))
      ≡ done val (reader_at (out ++ post) (length out))
read_string-write_string val pre post fits = elim (dec_lt (length val) 15) [
  | yes short ↦ rw (write_string_short val pre short) (
      ground (
        arith,
        append_assoc pre (make_flag string (length val + 1) ∷ (val ++ 0 ∷ [])) post,
        append_assoc val (0 ∷ []) post,
        length-append pre (make_flag string (length val + 1) ∷ (val ++ 0 ∷ [])),
        length-append val (0 ∷ []),
        read_string_short val pre post short,
      ))
  | no long ↦ rw (write_string_long val pre (omega arith) (omega arith)) (
      ground (
        arith,
        append_assoc pre (make_flag string 0 ∷ (le_bytes 4 (length val + 1) ++ (val ++ 0 ∷ [])))
            post,
        append_assoc (le_bytes 4 (length val + 1)) (val ++ 0 ∷ []) post,
        append_assoc val (0 ∷ []) post,
        length-append pre (make_flag string 0 ∷ (le_bytes 4 (length val + 1) ++ (val ++ 0 ∷ []))),
        length-append (le_bytes 4 (length val + 1)) (val ++ 0 ∷ []),
        length-append val (0 ∷ []),
        length-le_bytes 4 (length val + 1),
        read_string_long val pre post,
      ))
]
