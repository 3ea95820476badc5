-- ===== src/Maps.antt =====
-- `std::map<std::string, V>` as its entries in the order of the keys, which `Settings` and `CliPacket`
-- keep. Keys are compared as `std::less` does, and equal if neither is less.
pub mod Laws
use libff.Prelude.{
  ℕ, zero, suc, ◌+◌, ◌-◌, ◌*◌, ◌/◌, ◌%◌, ◌^◌, ◌≤◌, ◌<◌, min, bit_and, bit_or, bit_xor, ◌≡◌, refl,
  sym, ap, ◌∙◌, ◌≢◌, ◌↔◌, ◌⊎◌, inl, inr, Bool, true, false, not, ◌&&◌, ◌||◌, Option, none, some,
  List, [], ◌∷◌, ◌++◌, map, append-nil, append_assoc, arith, ltb, leb, ◌==◌, if◌then◌else◌, ltb→lt,
  lt→ltb, le→ltb, leb→le, le→leb, lt→leb, ==_iff, ==_refl, Bool-cases, Option-cases, length,
  get_elem?, get_or, set, take, drop, replicate, All, length-append, length-set, take-append-drop,
  length-take, length-drop, length-replicate, take-length_append, drop-length_append,
  drop-length_add_append, take_all, drop_all, take-append_le, drop-append_le,
  get_elem?-length_append, get_elem?-none, take_nil, drop_nil, take-take, drop-take, get_elem?-take,
  get_elem?-some, drop-drop, drop-min, length-map, take-replicate_append, take-length_add_append,
  drop_pos, Bytes, IsByte, add32, le_bytes, le_value, length-le_bytes, le_value-le_bytes,
  le_bytes-IsByte, sub32, copy_out, copy_in, written, copy_in-written, copy_in-outside,
  length-written, take-written, copy_out-inside, copy_out-outside, Returns, Returns_weaken,
  same_table, agree_below, bit_and_low4, bit_or_nibbles, bit_and_low2, bit_and_low6, bit_and_mid2,
  bit_or_low2, bit_or_low6, codes, digit, numeral_loop, numeral, padded,
}

-- `std::string`'s `<`
unfoldable pub bytes_lt : Bytes → Bytes → Bool
bytes_lt [] [] = false
bytes_lt [] (y ∷ ys) = true
bytes_lt (x ∷ xs) [] = false
bytes_lt (x ∷ xs) (y ∷ ys) = let rest = bytes_lt xs ys in ltb x y || (x == y && rest)

abbrev pub Map {ℓ} : Type ℓ → Type ℓ
Map V = List (Bytes × V)

module _ {ℓ} {V : Type ℓ} where
  -- `find`
  unfoldable pub lookup : Bytes → Map V → Option V
  lookup k [] = none
  lookup k (e ∷ m) =
      let rest = lookup k m in
      if bytes_lt e.0 k then rest else if bytes_lt k e.0 then none else some e.1

  -- `insert`, which keeps a value that is there
  unfoldable pub insert : Bytes → V → Map V → Map V
  insert k v [] = (k, v) ∷ []
  insert k v (e ∷ m) =
      let rest = insert k v m in
      if bytes_lt e.0 k then e ∷ rest else if bytes_lt k e.0 then (k, v) ∷ e ∷ m else e ∷ m

  -- `[k] = v`
  unfoldable pub assign : Bytes → V → Map V → Map V
  assign k v [] = (k, v) ∷ []
  assign k v (e ∷ m) =
      let rest = assign k v m in
      if bytes_lt e.0 k then e ∷ rest else if bytes_lt k e.0 then (k, v) ∷ e ∷ m else (k, v) ∷ m

  -- `erase`
  unfoldable pub erase : Bytes → Map V → Map V
  erase k [] = []
  erase k (e ∷ m) =
      let rest = erase k m in
      if bytes_lt e.0 k then e ∷ rest else if bytes_lt k e.0 then e ∷ m else m

  -- The keys are in strict order.
  unfoldable pub Ascending : Map V → Type ℓ
  Ascending [] = Unit
  Ascending (e ∷ m) = All (λ d. bytes_lt e.0 d.0 ≡ true) m × Ascending m
