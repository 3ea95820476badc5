-- ===== src/Payload/PrintRun.antt =====
-- The loop of `print`, round by round.
use libff.Prelude.{
  ℕ, zero, suc, ◌+◌, ◌^◌, ◌<◌, ◌≡◌, refl, ◌∙◌, ◌≢◌, none, some, List, [], ◌∷◌, ◌++◌, arith, length,
  length-append, get_elem?-length_append, Bytes, le_value,
}
use libff.Payload.{PayloadDataType, boolean, sint, make_flag}
use libff.Payload.Flag.{IsNibbleType, parse_flag-make_flag}
use libff.Payload.Reader.{PayloadReader, next_data_type, new_reader}
use libff.Payload.RoundTrip.{reader_at, copy_out_lem}
use libff.Payload.Printer.{
  Insertion, type_name, print_value, shown, unfinished, printed, out_of_bounds, print_loop, print,
}

-- A flag with a length: the type and the length are those of the flag.
pub next_data_type_short :
    (type : PayloadDataType) (len : ℕ) (pre rest : Bytes)
    → IsNibbleType type
    → 0 < len
    → len < 16
    → next_data_type (reader_at (pre ++ make_flag type len ∷ rest) (length pre))
      ≡ some (some (type, len))
unfolding next_data_type
next_data_type_short type len pre rest h p l = ground (
  arith,
  get_elem?-length_append pre rest (make_flag type len),
  parse_flag-make_flag type len h l,
  length-append pre (make_flag type len ∷ rest),
)

-- A flag with length 0: the length is taken from the next four bytes, whatever the type.
pub next_data_type_long :
    (type : PayloadDataType) (pre four rest : Bytes)
    → IsNibbleType type
    → length four ≡ 4
    → length pre + 1 < 2 ^ 32
    → next_data_type (reader_at (pre ++ make_flag type 0 ∷ (four ++ rest)) (length pre))
      ≡ some (some (type, le_value four))
unfolding next_data_type
next_data_type_long type pre four rest h e fits = ground (
  arith,
  get_elem?-length_append pre (four ++ rest) (make_flag type 0),
  parse_flag-make_flag type 0 h,
  length-append pre (make_flag type 0 ∷ (four ++ rest)),
  copy_out_lem pre four rest (make_flag type 0),
)

pub next_data_type_end : (mem : Bytes) → next_data_type (reader_at mem (length mem)) ≡ some none
unfolding next_data_type
next_data_type_end mem = ground arith

pub print_loop_end :
    (fuel : ℕ) (mem : Bytes) (acc : List Insertion)
    → print_loop (suc fuel) (reader_at mem (length mem)) acc ≡ printed acc
unfolding print_loop
print_loop_end fuel mem acc = ground (arith, next_data_type_end mem)

-- One round that goes on.
pub print_loop_step :
    (fuel : ℕ) (r r' : PayloadReader) (acc more : List Insertion) (type : PayloadDataType) (len : ℕ)
    → next_data_type r ≡ some (some (type, len))
    → print_value type len r ≡ shown more r'
    → print_loop (suc fuel) r acc ≡ print_loop fuel r' (acc ++ type_name type ∷ more)
unfolding print_loop
print_loop_step fuel r r' acc more type len e s = ground arith

-- A reader on which a round moves nothing is never left.
no_progress :
    (fuel : ℕ) (r : PayloadReader) (acc more : List Insertion) (type : PayloadDataType) (len : ℕ)
    → next_data_type r ≡ some (some (type, len))
    → print_value type len r ≡ shown more r
    → print_loop fuel r acc ≡ unfinished
no_progress zero r acc more type len e s = unfold print_loop in refl
no_progress (suc fuel) r acc more type len e s =
    print_loop_step fuel r r acc more type len e s
    ∙ no_progress fuel r (acc ++ type_name type ∷ more) more type len e s

no_case :
    (len : ℕ) (r : PayloadReader)
    → len ≢ 1
    → len ≢ 2
    → len ≢ 4
    → len ≢ 8
    → print_value sint len r ≡ shown [] r
unfolding print_value
no_case len r n₁ n₂ n₄ n₈ = ground arith

-- A signed-integer flag whose length is none of 1, 2, 4 and 8 has no case in the inner switch:
-- `print` never returns on a payload that starts with one, whatever follows.
pub print-unfinished :
    (fuel len : ℕ) (rest : Bytes)
    → 0 < len
    → len < 16
    → len ≢ 1
    → len ≢ 2
    → len ≢ 4
    → len ≢ 8
    → print fuel (reader_at (make_flag sint len ∷ rest) 0) ≡ unfinished
unfolding print new_reader
print-unfinished fuel len rest p l n₁ n₂ n₄ n₈ =
    no_progress fuel _ [] [] sint len (next_data_type_short sint len [] rest tt p l)
      (no_case len _ n₁ n₂ n₄ n₈)

-- `nextDataType` takes the low nibble of a `false` for a long length: `print` reads behind a payload
-- that starts with `false` and has fewer than four bytes after it.
pub print-false_at_end :
    (fuel : ℕ) (rest : Bytes)
    → length rest < 4
    → print (suc fuel) (reader_at (make_flag boolean 0 ∷ rest) 0) ≡ out_of_bounds
unfolding print new_reader print_loop next_data_type
print-false_at_end fuel rest short = ground (arith, parse_flag-make_flag boolean 0 tt)
