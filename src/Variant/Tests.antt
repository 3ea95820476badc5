-- ===== src/Variant/Tests.antt =====
-- Variants with numbers and texts, with streams that read and write whole numbers only.
use libff.Prelude.{
  ◌>>=◌, ◌-◌, ◌^◌, ◌≤◌, ◌<◌, ◌≡◌, refl, ◌↔◌, ◌⊎◌, true, none, some, [], ◌∷◌, map, arith, length,
  Returns, codes,
}
use libff.Variant.{new_int, new_unknown, set_vt_named, set_value, set_value_typed}
use libff.Variant.Types.{
  unknown, uint, carray, type_info_from_string, cpp_int, cpp_long, cpp_ulong, is_block, type_size,
}
use libff.Variant.Convert.{Streams, to_int, to_buffer, to_value}
use libff.Variant.RoundTrip.{to_int-new_int_long, to_buffer-set_value_typed}
use libff.Buffer.Valid.{contents}

abbrev io : Streams
io = record {
  float_text = λ v. codes "0.0";
  double_text = λ v. codes "0.0";
  float_to_int = λ t v. 0;
  double_to_int = λ t v. 0;
  read_int = λ t base s. length s;
  float_is_zero = λ v. true;
  double_is_zero = λ v. true;
}

to_int-new_int_long_example :
    ((to_int io cpp_long (new_int cpp_long 5000000000) ≡ some 5000000000)
      ↔ ((5000000000 < 2 ^ 31) ⊎ (2 ^ 64 - 2 ^ 31 ≤ 5000000000)))
    × ((to_int io cpp_ulong (new_int cpp_ulong 5000000000) ≡ some 5000000000)
        ↔ (5000000000 < 2 ^ 32))
to_int-new_int_long_example = to_int-new_int_long io 5000000000 (omega arith)

to_buffer-set_value_typed_example :
    Returns
      (set_value_typed (1 ∷ 2 ∷ 3 ∷ 4 ∷ 5 ∷ []) uint new_unknown >>= to_buffer)
      (λ b. contents b ≡ map some (1 ∷ 2 ∷ 3 ∷ 4 ∷ []))
unfolding is_block type_size
to_buffer-set_value_typed_example =
    to_buffer-set_value_typed uint new_unknown (1 ∷ 2 ∷ 3 ∷ 4 ∷ 5 ∷ []) (λ e. grind arith) refl
      (omega arith) (omega arith)

-- The size `char[4]` comes without memory, and the next `setValue` writes through the null pointer.
carray_without_memory :
    set_value (1 ∷ 2 ∷ 3 ∷ 4 ∷ []) (set_vt_named (λ s. 4) (codes "char[4]") new_unknown) ≡ none
unfolding set_value set_vt_named type_info_from_string
carray_without_memory = refl

-- A CARRAY of exactly the width of the integer converts to 0.
carray_exact :
    to_value io cpp_int
      (record { vt = carray; size = 4; bits = 0; val_ptr = some (1 ∷ 0 ∷ 0 ∷ 0 ∷ []) })
    ≡ some 0
unfolding to_value
carray_exact = refl

-- `int16` names no type.
int16_unknown : (type_info_from_string (λ s. 0) (codes "int16")).vt ≡ unknown
unfolding type_info_from_string
int16_unknown = refl
