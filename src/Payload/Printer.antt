-- ===== src/Payload/Printer.antt =====
-- `PayloadReader::print`: the loop over the values, with what it inserts into its stream. The text
-- that a stream makes of an insertion is the standard library's and stays abstract.
use libff.Prelude.{
  ℕ, zero, suc, ◌*◌, Bool, false, none, some, List, [], ◌∷◌, ◌++◌, map, ◌==◌, if◌then◌else◌,
  replicate, Bytes,
}
use libff.Payload.{
  PayloadDataType, unknown, boolean, sint, uint, float, string, c_array, unnamed, IntType, int8,
  int16, int32, int64, uint8, uint16, uint32, uint64,
}
use libff.Payload.Reader.{
  PayloadReader, Read, refused, done, fault, new_reader, next_data_type, read_int, read_float,
  read_double, read_bool, read_string, read_array,
}

-- One `<<` on the stream; the literal `": "` before a value and the `endl` after it go with it.
pub data Insertion : Type 0 where
  type_name : PayloadDataType → Insertion
  bits : ℕ → Insertion
  bool_text : Bool → Insertion
  int_text : IntType → ℕ → Insertion
  float_text : ℕ → Insertion
  double_text : ℕ → Insertion
  chars : Bytes → Insertion
  array_size : ℕ → Insertion
  hex_byte : ℕ → Insertion

-- What one round of the `switch` does: it inserts and leaves the reader at its new place, makes
-- `print` return the empty text, or reads outside the payload.
pub data Round : Type 0 where
  shown : List Insertion → PayloadReader → Round
  dropped : Round
  crashed : Round

-- `T v = default; reader.read(v);` with the result ignored.
abbrev pub ignoring : {A : Type 0} → A → (A → List Insertion) → PayloadReader → Read A → Round
ignoring default show r refused = shown (show default) r
ignoring default show r (done a r') = shown (show a) r'
ignoring default show r fault = crashed

show_int : ℕ → IntType → PayloadReader → Round
show_int len t r = ignoring 0 (λ v. bits (len * 8) ∷ int_text t v ∷ []) r (read_int t r)

-- `case PayloadDataType::Sint` and `Uint`: other lengths have no case and read nothing.
show_sint : ℕ → PayloadReader → Round
unfolding show_int
show_sint len r =
    if len == 1
    then show_int len int8 r
    else if len == 2
    then show_int len int16 r
    else if len == 4
    then show_int len int32 r
    else if len == 8
    then show_int len int64 r
    else shown [] r

show_uint : ℕ → PayloadReader → Round
unfolding show_int
show_uint len r =
    if len == 1
    then show_int len uint8 r
    else if len == 2
    then show_int len uint16 r
    else if len == 4
    then show_int len uint32 r
    else if len == 8
    then show_int len uint64 r
    else shown [] r

show_float : ℕ → PayloadReader → Round
show_float len r =
    if len == 4
    then ignoring 0 (λ v. bits (len * 8) ∷ float_text v ∷ []) r (read_float r)
    else if len == 8
    then ignoring 0 (λ v. bits (len * 8) ∷ double_text v ∷ []) r (read_double r)
    else shown [] r

-- `std::vector<uint8_t> buf(len); reader.read(&buf[0], len);`
show_array : ℕ → PayloadReader → Round
show_array len r =
    ignoring (replicate len 0) (λ buf. array_size len ∷ map hex_byte buf) r (read_array len r)

-- The body of the `while` after `str << type`.
unfoldable pub print_value : PayloadDataType → ℕ → PayloadReader → Round
unfolding show_sint show_uint show_float show_array
print_value boolean len r = ignoring false (λ b. bool_text b ∷ []) r (read_bool r)
print_value sint len r = show_sint len r
print_value uint len r = show_uint len r
print_value float len r = show_float len r
print_value string len r = ignoring [] (λ s. chars s ∷ []) r (read_string r)
print_value c_array len r = show_array len r
print_value unknown len r = dropped
print_value (unnamed n) len r = dropped

-- What `print` returns. `unfinished` is no result of the code: the fuel of the model ran out.
pub data Printed : Type 0 where
  printed : List Insertion → Printed
  nothing : Printed
  out_of_bounds : Printed
  unfinished : Printed

-- `while (reader.nextDataType(type, len))`; `acc` is what the stream holds.
unfoldable pub print_loop : ℕ → PayloadReader → List Insertion → Printed
print_loop zero r acc = unfinished
print_loop (suc fuel) r acc = elim (next_data_type r) [
  | none ↦ out_of_bounds
  | some none ↦ printed acc
  | some (some (type, len)) ↦ elim (print_value type len r) [
    | shown more r' ↦ print_loop fuel r' (acc ++ type_name type ∷ more)
    | dropped ↦ nothing
    | crashed ↦ out_of_bounds
  ]
]

-- `PayloadReader::print` makes a reader of its own, at the start of the payload.
unfoldable pub print : ℕ → PayloadReader → Printed
unfolding print_loop
print fuel r = print_loop fuel (new_reader r.payload r.payload_len) []
