-- ===== src/Payload/Tests.antt =====
-- The payload's theorems at concrete values.
use libff.Prelude.{
  ◌≡◌, refl, true, false, List, [], ◌∷◌, ◌++◌, arith, length, replicate, All, Bytes, le_bytes,
}
use libff.Payload.{
  boolean, int16, uint32, make_flag, write_bool, write_int, write_float, write_string, write_array,
  int_data_type, int_size,
}
use libff.Payload.Reader.{done, fault, read_int}
use libff.Payload.RoundTrip.{reader_at}
use libff.Payload.Truncated.{read_int-cut_by_one}
use libff.Payload.Items.{
  Item, flag, int, single, text, array, IsItem, write_item, write_items, read_all_like,
  read_all_like-write_items,
}
use libff.Payload.Printer.{print, printed, out_of_bounds}
use libff.Payload.PrintRun.{print-false_at_end}
use libff.Payload.PrintItems.{items_text, IsPrintable, print-write_items}

abbrev word : Bytes
word = b'h' ∷ b'i' ∷ []

abbrev long_word : Bytes
long_word = replicate 20 b'x'

abbrev items : List Item
items =
    flag false ∷ int int16 513 ∷ single 7 ∷ text long_word ∷ array (1 ∷ 2 ∷ 3 ∷ []) ∷ flag true ∷ []

items-IsItem : All IsItem items
unfolding int_size
items-IsItem = (tt, (omega arith, (omega arith, (tt, (omega arith, (tt, tt))))))

items-IsPrintable : IsPrintable items
unfolding write_items write_item write_bool write_int write_float write_string write_array le_bytes
    make_flag int_data_type int_size
items-IsPrintable = (omega arith, (tt, (tt, (tt, (tt, (tt, tt))))))

read_all_like-write_items_example :
    read_all_like items (reader_at (write_items items (9 ∷ []) ++ word) 1)
    ≡ done items
        (reader_at (write_items items (9 ∷ []) ++ word) (length (write_items items (9 ∷ []))))
read_all_like-write_items_example =
    read_all_like-write_items items (9 ∷ []) word items-IsItem (omega arith)

print-write_items_example :
    print 7 (reader_at (write_items items []) 0) ≡ printed (items_text items)
print-write_items_example =
    print-write_items items 7 items-IsItem items-IsPrintable (omega arith) (omega arith)

read_int-cut_by_one_example :
    read_int uint32
      (reader_at (word ++ make_flag (int_data_type uint32) (int_size uint32) ∷ (1 ∷ 2 ∷ 3 ∷ [])) 2)
    ≡ fault
read_int-cut_by_one_example =
    read_int-cut_by_one uint32 word (1 ∷ 2 ∷ 3 ∷ []) (unfold int_size in refl) (omega arith)

print-false_at_end_example : print 100 (reader_at (make_flag boolean 0 ∷ word) 0) ≡ out_of_bounds
print-false_at_end_example = print-false_at_end 99 word (omega arith)
