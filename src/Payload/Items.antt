-- ===== src/Payload/Items.antt =====
-- Whole payloads: a client's sequence of writes, and the same sequence of reads.
use libff.Prelude.{
  ℕ, ◌+◌, ◌%◌, ◌^◌, ◌≤◌, ◌<◌, ◌≡◌, refl, sym, ap, Bool, List, [], ◌∷◌, ◌++◌, append-nil,
  append_assoc, arith, length, All, length-append, Bytes, length-le_bytes,
}
use libff.Payload.{
  IntType, int_size, write_bool, write_float, write_double, write_int, write_string, write_array,
  long_length,
}
use libff.Payload.Reader.{
  PayloadReader, Read, refused, done, fault, read_int, read_float, read_double, read_bool,
  read_string, read_array,
}
use libff.Payload.RoundTrip.{
  reader_at, read_int-write_int, read_float-write_float, read_bool-write_bool, int_size-le,
}
use libff.Payload.Text.{read_string-write_string}
use libff.Payload.Array.{read_array-write_array}

-- A value that a client writes; numbers are bit patterns.
pub data Item : Type 0 where
  flag : Bool → Item
  int : IntType → ℕ → Item
  single : ℕ → Item
  double : ℕ → Item
  text : Bytes → Item
  array : Bytes → Item

-- The values that the C++ types hold; `write` refuses an empty array.
abbrev pub IsItem : Item → Type 0
IsItem (flag b) = Unit {0}
IsItem (int t v) = v < 256 ^ int_size t
IsItem (single v) = v < 2 ^ 32
IsItem (double v) = v < 2 ^ 64
IsItem (text s) = Unit {0}
IsItem (array s) = 0 < length s

-- An upper bound on the bytes that a value takes.
abbrev pub item_room : Item → ℕ
item_room (flag b) = 9
item_room (int t v) = 9
item_room (single v) = 9
item_room (double v) = 9
item_room (text s) = length s + 9
item_room (array s) = length s + 9

abbrev pub items_room : List Item → ℕ
items_room [] = 0
items_room (x ∷ xs) = item_room x + items_room xs

unfoldable pub write_item : Item → Bytes → Bytes
write_item (flag b) p = (write_bool b p).1
write_item (int t v) p = (write_int t v p).1
write_item (single v) p = (write_float v p).1
write_item (double v) p = (write_double v p).1
write_item (text s) p = (write_string s p).1
write_item (array s) p = (write_array s p).1

unfoldable pub write_items : List Item → Bytes → Bytes
write_items [] p = p
write_items (x ∷ xs) p = write_items xs (write_item x p)

abbrev pub map_read : {A B : Type 0} → (A → B) → Read A → Read B
map_read f refused = refused
map_read f (done a r) = done (f a) r
map_read f fault = fault

-- The read that fits the value: its type, and for an array a buffer of its size.
unfoldable pub read_like : Item → PayloadReader → Read Item
read_like (flag b) r = map_read flag (read_bool r)
read_like (int t v) r = map_read (int t) (read_int t r)
read_like (single v) r = map_read single (read_float r)
read_like (double v) r = map_read double (read_double r)
read_like (text s) r = map_read text (read_string r)
read_like (array s) r = map_read array (read_array (length s) r)

abbrev pub then_read : {A B : Type 0} → Read A → (A → PayloadReader → Read B) → Read B
then_read refused f = refused
then_read (done a r) f = f a r
then_read fault f = fault

unfoldable pub read_all_like : List Item → PayloadReader → Read (List Item)
unfolding read_like
read_all_like [] r = done [] r
read_all_like (x ∷ xs) r =
    then_read (read_like x r) (λ y r'. map_read (λ ys. y ∷ ys) (read_all_like xs r'))

pub read_like-write_item :
    (x : Item) (pre post : Bytes)
    → IsItem x
    → length pre + item_room x < 2 ^ 32
    → let out = write_item x pre in
      read_like x (reader_at (out ++ post) (length pre))
      ≡ done x (reader_at (out ++ post) (length out))
unfolding read_like write_item
read_like-write_item (flag b) pre post h fits = rw (read_bool-write_bool b pre post (omega arith))
read_like-write_item (int t v) pre post h fits = rw (read_int-write_int t v pre post h fits)
read_like-write_item (single v) pre post h fits =
    rw ((read_float-write_float v 0 pre post h (omega arith) fits).0)
read_like-write_item (double v) pre post h fits =
    rw ((read_float-write_float 0 v pre post (omega arith) h fits).1)
read_like-write_item (text s) pre post h fits =
    rw (read_string-write_string s pre post (omega arith))
read_like-write_item (array s) pre post h fits =
    rw (read_array-write_array (length s) s pre post h (omega arith) (omega arith))

-- Every write appends: what was there stays in front.
pub write_item_append : (x : Item) (pre : Bytes) → write_item x pre ≡ pre ++ write_item x []
unfolding write_item write_bool write_int write_float write_double write_string write_array
write_item_append (flag b) pre = refl
write_item_append (int t v) pre = refl
write_item_append (single v) pre = refl
write_item_append (double v) pre = refl
write_item_append (text s) pre = refl
write_item_append (array s) pre = ground (arith, append-nil pre)

length-long_length : (n : ℕ) → length (long_length n) ≤ 4
length-long_length n = ground (arith, length-le_bytes 4 n)

pub length-write_item : (x : Item) → length (write_item x []) ≤ item_room x
unfolding write_item write_bool write_int write_float write_double write_string write_array
length-write_item (flag b) = omega arith
length-write_item (int t v) = omega (arith, length-le_bytes (int_size t) v, int_size-le t)
length-write_item (single v) = omega (arith, length-le_bytes 4 v)
length-write_item (double v) = omega (arith, length-le_bytes 8 v)
length-write_item (text s) = omega (
  arith,
  length-append (long_length ((length s + 1) % 2 ^ 32)) (s ++ 0 ∷ []),
  length-append s (0 ∷ []),
  length-long_length ((length s + 1) % 2 ^ 32),
)
length-write_item (array s) =
    ground (arith, length-append (long_length (length s)) s, length-long_length (length s))

pub write_items_append :
    (xs : List Item) (pre : Bytes) → write_items xs pre ≡ pre ++ write_items xs []
unfolding write_items
write_items_append [] pre = sym (append-nil pre)
write_items_append (x ∷ xs) pre = cc (
  write_items_append xs (write_item x pre),
  write_items_append xs (write_item x []),
  write_item_append x pre,
  append_assoc pre (write_item x []) (write_items xs []),
)

-- The step of the round trip: the writes after `x` are what follows it.
read_first :
    (x : Item) (xs : List Item) (pre post : Bytes)
    → IsItem x
    → length pre + item_room x < 2 ^ 32
    → let mem = write_items xs (write_item x pre) ++ post in
      read_like x (reader_at mem (length pre)) ≡ done x (reader_at mem (length (write_item x pre)))
read_first x xs pre post h fits =
    rw (write_items_append xs (write_item x pre), append_assoc)
      (read_like-write_item x pre (write_items xs [] ++ post) h fits)

-- A sequence of values of any types and lengths (no empty array) that was written behind `pre` is
-- read back whole by the reads of the same types, whatever follows it, and the reader then stands
-- behind it; no read leaves the payload. The room for the whole, nine bytes for each value and
-- those of its text, must stay below 2 ^ 32.
pub read_all_like-write_items :
    (xs : List Item) (pre post : Bytes)
    → All IsItem xs
    → length pre + items_room xs < 2 ^ 32
    → let out = write_items xs pre in
      read_all_like xs (reader_at (out ++ post) (length pre))
      ≡ done xs (reader_at (out ++ post) (length out))
unfolding read_all_like write_items
read_all_like-write_items [] pre post h fits = refl
read_all_like-write_items (x ∷ xs) pre post (hx, hxs) fits = rw (
  read_first x xs pre post hx (omega arith),
  read_all_like-write_items xs (write_item x pre) post hxs (
      omega (
        arith,
        ap length (write_item_append x pre),
        length-append pre (write_item x []),
        length-write_item x,
      )),
)
