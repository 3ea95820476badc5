-- ===== src/Payload/PrintItems.antt =====
-- `print` on what the writer made.
use libff.Prelude.{
  ℕ, zero, suc, ◌+◌, ◌*◌, ◌^◌, ◌≤◌, ◌<◌, ◌≡◌, refl, ap, ◌∙◌, true, false, some, List, [], ◌∷◌, ◌++◌,
  map, append-nil, append_assoc, arith, length, take, drop, All, length-append, take-append-drop,
  length-take, Bytes, le_bytes, le_value, length-le_bytes, le_value-le_bytes,
}
use libff.Payload.{
  PayloadDataType, boolean, float, string, c_array, IntType, int8, int_data_type, int_size,
  make_flag, write_bool, write_float, write_double, write_int, write_string, write_array,
}
use libff.Payload.Flag.{IsNibbleType}
use libff.Payload.Reader.{PayloadReader, next_data_type, new_reader, read_int}
use libff.Payload.RoundTrip.{
  reader_at, int_size-le, int_IsNibbleType, read_int-write_int, read_float-write_float,
  read_bool-write_bool,
}
use libff.Payload.Text.{read_string-write_string, write_string_short, write_string_long}
use libff.Payload.Array.{read_array-write_array, write_array_short, write_array_long}
use libff.Payload.Items.{
  Item, flag, int, single, double, text, array, IsItem, item_room, items_room, write_item,
  write_items, write_item_append, write_items_append, length-write_item,
}
use libff.Payload.Printer.{
  Insertion, type_name, bits, bool_text, int_text, float_text, double_text, chars, array_size,
  hex_byte, print_value, shown, printed, print_loop, print, ignoring,
}
use libff.Payload.PrintRun.{
  next_data_type_short, next_data_type_long, print_loop_end, print_loop_step,
}
use native.Mathlib.Decide.{dec_lt}

unfoldable pub item_type : Item → PayloadDataType
item_type (flag b) = boolean
item_type (int t v) = int_data_type t
item_type (single v) = float
item_type (double v) = float
item_type (text s) = string
item_type (array s) = c_array

-- What `print` shall insert for a value after its type.
unfoldable pub item_text : Item → List Insertion
item_text (flag b) = bool_text b ∷ []
item_text (int t v) = bits (int_size t * 8) ∷ int_text t v ∷ []
item_text (single v) = bits 32 ∷ float_text v ∷ []
item_text (double v) = bits 64 ∷ double_text v ∷ []
item_text (text s) = chars s ∷ []
item_text (array s) = array_size (length s) ∷ map hex_byte s

unfoldable pub items_text : List Item → List Insertion
unfolding item_type item_text
items_text [] = []
items_text (x ∷ xs) = (type_name (item_type x) ∷ item_text x) ++ items_text xs

-- A `false` needs four bytes after it.
abbrev pub HasRoom : Item → ℕ → Type 0
HasRoom (flag false) n = 4 ≤ n
HasRoom x n = Unit {0}

abbrev pub IsPrintable : List Item → Type 0
IsPrintable [] = Unit {0}
IsPrintable (x ∷ xs) = HasRoom x (length (write_items xs [])) × IsPrintable xs

-- The length that `nextDataType` hands to the switch.
unfoldable pub item_len : Item → Bytes → ℕ
item_len (flag true) post = 1
item_len (flag false) post = le_value (take 4 post)
item_len (int t v) post = int_size t
item_len (single v) post = 4
item_len (double v) post = 8
item_len (text s) post = length s + 1
item_len (array s) post = length s

next_false :
    (pre post : Bytes)
    → 4 ≤ length post
    → length pre + 1 < 2 ^ 32
    → next_data_type (reader_at (pre ++ make_flag boolean 0 ∷ post) (length pre))
      ≡ some (some (boolean, le_value (take 4 post)))
next_false pre post room fits =
    rw (take-append-drop 4 post) at
      (next_data_type_long boolean pre (take 4 post) (drop 4 post) tt four fits)
  where
    four : length (take 4 post) ≡ 4
    four = omega (arith, length-take 4 post)

-- A long length in front of `body`.
next_long :
    (type : PayloadDataType) (n : ℕ) (pre body post : Bytes)
    → IsNibbleType type
    → n < 2 ^ 32
    → length pre + 1 < 2 ^ 32
    → next_data_type
        (reader_at ((pre ++ make_flag type 0 ∷ (le_bytes 4 n ++ body)) ++ post) (length pre))
      ≡ some (some (type, n))
next_long type n pre body post h b fits = rw (
  append_assoc pre (make_flag type 0 ∷ (le_bytes 4 n ++ body)) post,
  append_assoc (le_bytes 4 n) body post,
  next_data_type_long type pre (le_bytes 4 n) (body ++ post) h (length-le_bytes 4 n) fits,
  le_value-le_bytes 4 n b,
)

next_text :
    (s pre post : Bytes)
    → length pre + (length s + 9) < 2 ^ 32
    → next_data_type (reader_at ((write_string s pre).1 ++ post) (length pre))
      ≡ some (some (string, length s + 1))
next_text s pre post fits = elim (dec_lt (length s) 15) [
  | yes short ↦
      rw (write_string_short s pre short, append_assoc)
        (next_data_type_short string (length s + 1) pre ((s ++ 0 ∷ []) ++ post) tt (omega arith)
          (omega arith))
  | no long ↦
      rw (write_string_long s pre (omega arith) (omega arith))
        (next_long string (length s + 1) pre (s ++ 0 ∷ []) post tt (omega arith) (omega arith))
]

next_array :
    (s pre post : Bytes)
    → 0 < length s
    → length pre + (length s + 9) < 2 ^ 32
    → next_data_type (reader_at ((write_array s pre).1 ++ post) (length pre))
      ≡ some (some (c_array, length s))
next_array s pre post h fits = elim (dec_lt 15 (length s)) [
  | no short ↦
      rw (write_array_short s pre h (omega arith), append_assoc)
        (next_data_type_short c_array (length s) pre (s ++ post) tt h (omega arith))
  | yes long ↦
      rw (write_array_long s pre long)
        (next_long c_array (length s) pre s post tt (omega arith) (omega arith))
]

next_item :
    (x : Item) (pre post : Bytes)
    → IsItem x
    → HasRoom x (length post)
    → length pre + item_room x < 2 ^ 32
    → next_data_type (reader_at (write_item x pre ++ post) (length pre))
      ≡ some (some (item_type x, item_len x post))
unfolding write_item item_type item_len write_bool write_int write_float write_double
next_item (flag true) pre post h room fits =
    rw append_assoc (next_data_type_short boolean 1 pre post tt (omega arith) (omega arith))
next_item (flag false) pre post h room fits =
    rw append_assoc (next_false pre post room (omega arith))
next_item (int t v) pre post h room fits = rw append_assoc (
    next_data_type_short (int_data_type t) (int_size t) pre (le_bytes (int_size t) v ++ post)
      (int_IsNibbleType t) (omega (arith, int_size-le t)) (omega (arith, int_size-le t)))
next_item (single v) pre post h room fits =
    rw append_assoc
      (next_data_type_short float 4 pre (le_bytes 4 v ++ post) tt (omega arith) (omega arith))
next_item (double v) pre post h room fits =
    rw append_assoc
      (next_data_type_short float 8 pre (le_bytes 8 v ++ post) tt (omega arith) (omega arith))
next_item (text s) pre post h room fits = next_text s pre post fits
next_item (array s) pre post h room fits = next_array s pre post h fits

print_int :
    (t : IntType) (r : PayloadReader)
    → print_value (int_data_type t) (int_size t) r
      ≡ ignoring 0 (λ v. bits (int_size t * 8) ∷ int_text t v ∷ []) r (read_int t r)
unfolding print_value int_data_type int_size
print_int int8 r = refl
print_int t r = refl

print_item :
    (x : Item) (pre post : Bytes)
    → IsItem x
    → length pre + item_room x < 2 ^ 32
    → let out = write_item x pre in
      print_value (item_type x) (item_len x post) (reader_at (out ++ post) (length pre))
      ≡ shown (item_text x) (reader_at (out ++ post) (length out))
unfolding print_value write_item item_type item_len item_text
print_item (flag true) pre post h fits = rw (read_bool-write_bool true pre post (omega arith))
print_item (flag false) pre post h fits = rw (read_bool-write_bool false pre post (omega arith))
print_item (int t v) pre post h fits = print_int t _ ∙ rw (read_int-write_int t v pre post h fits)
print_item (single v) pre post h fits =
    rw ((read_float-write_float v 0 pre post h (omega arith) fits).0)
print_item (double v) pre post h fits =
    rw ((read_float-write_float 0 v pre post (omega arith) h fits).1)
print_item (text s) pre post h fits = rw (read_string-write_string s pre post (omega arith))
print_item (array s) pre post h fits =
    rw (read_array-write_array (length s) s pre post h (omega arith) (omega arith))

print_first :
    (x : Item) (xs : List Item) (fuel : ℕ) (pre : Bytes) (acc : List Insertion)
    → IsItem x
    → HasRoom x (length (write_items xs []))
    → length pre + item_room x < 2 ^ 32
    → let mem = write_items xs (write_item x pre) in
      print_loop (suc fuel) (reader_at mem (length pre)) acc
      ≡ print_loop fuel
          (reader_at mem (length (write_item x pre)))
          (acc ++ type_name (item_type x) ∷ item_text x)
print_first x xs fuel pre acc h room fits = rw (write_items_append xs (write_item x pre)) (
    print_loop_step fuel _ _ acc (item_text x) (item_type x) (item_len x (write_items xs []))
      (next_item x pre (write_items xs []) h room fits)
      (print_item x pre (write_items xs []) h fits))

print_loop-write_items :
    (xs : List Item) (fuel : ℕ) (pre : Bytes) (acc : List Insertion)
    → All IsItem xs
    → IsPrintable xs
    → length pre + items_room xs < 2 ^ 32
    → length xs < fuel
    → print_loop fuel (reader_at (write_items xs pre) (length pre)) acc
      ≡ printed (acc ++ items_text xs)
unfolding items_text write_items
print_loop-write_items xs zero pre acc h room fits more = absurd (omega arith)
print_loop-write_items [] (suc fuel) pre acc h room fits more =
    rw append-nil (print_loop_end fuel pre acc)
print_loop-write_items (x ∷ xs) (suc fuel) pre acc (hx, hxs) (room, rooms) fits more =
    print_first x xs fuel pre acc hx room (omega arith)
    ∙ print_loop-write_items xs fuel (write_item x pre) _ hxs rooms
        (omega (
          arith,
          ap length (write_item_append x pre),
          length-append pre (write_item x []),
          length-write_item x,
        ))
        (omega arith)
    ∙ ap printed (append_assoc acc (type_name (item_type x) ∷ item_text x) (items_text xs))

-- On a payload of written values (no empty array) `print` returns, with one round for each value
-- and one more, and shows the type and the value of each in order. The room for the values must be
-- below 2 ^ 32, and each `false` among them must have four bytes after it.
pub print-write_items :
    (xs : List Item) (fuel : ℕ)
    → All IsItem xs
    → IsPrintable xs
    → items_room xs < 2 ^ 32
    → length xs < fuel
    → print fuel (reader_at (write_items xs []) 0) ≡ printed (items_text xs)
unfolding print new_reader
print-write_items xs fuel h room fits more =
    print_loop-write_items xs fuel [] [] h room (omega arith) more
