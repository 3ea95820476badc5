-- ===== src/Variant/RoundTrip.antt =====
-- What goes into a `Variant` and what comes out.
use libff.Prelude.{
  ◌>>=◌, ℕ, zero, suc, ◌+◌, ◌-◌, ◌*◌, ◌/◌, ◌%◌, ◌^◌, ◌≤◌, ◌<◌, ◌≡◌, refl, sym, ap, ◌∙◌, ◌≢◌, ◌↔◌,
  ◌⊎◌, inl, inr, false, some, [], ◌∷◌, ◌++◌, map, append-nil, arith, ◌==◌, length, take, drop, All,
  length-take, drop_all, length-map, Bytes, IsByte, le_bytes, le_value, length-le_bytes,
  copy_in-written, copy_out-inside, Returns, Returns_weaken,
}
use native.Mathlib.Decide.{dec_lt}
use libff.Buffer.{empty, set_data}
use libff.Buffer.Valid.{contents}
use libff.Buffer.Sizes.{set_data_lem}
use libff.Variant.{Variant, new_int, set_value, set_value_typed, set_vt, copy_to_value}
use libff.Variant.Types.{
  VariantType, unknown, carray, string, type_code, type_size, is_block, CppInt, cpp_char, cpp_short,
  cpp_int, cpp_long, cpp_long_long, cpp_uchar, cpp_ushort, cpp_uint, cpp_ulong, cpp_ulong_long,
  cpp_size,
}
use libff.Variant.Convert.{Streams, extend, to_int, to_buffer}

-- An integer of any type but `long` and `unsigned long` that goes into a `Variant` comes out of it
-- unchanged, as a value of the same type.
pub to_int-new_int :
    (io : Streams) (t : CppInt) (v : ℕ)
    → t ≢ cpp_long
    → t ≢ cpp_ulong
    → v < 256 ^ cpp_size t
    → to_int io t (new_int t v) ≡ some v
unfolding to_int new_int
to_int-new_int io cpp_char v l u h = ground arith
to_int-new_int io cpp_short v l u h = ground arith
to_int-new_int io cpp_int v l u h = ground arith
to_int-new_int io cpp_long v l u h = absurd (l refl)
to_int-new_int io cpp_long_long v l u h = ground arith
to_int-new_int io cpp_uchar v l u h = ground arith
to_int-new_int io cpp_ushort v l u h = ground arith
to_int-new_int io cpp_uint v l u h = ground arith
to_int-new_int io cpp_ulong v l u h = absurd (u refl)
to_int-new_int io cpp_ulong_long v l u h = ground arith

-- A `long` comes out unchanged exactly when it fits 32 bits, and an `unsigned long` likewise: the
-- constructors keep them as INT and UINT.
pub to_int-new_int_long :
    (io : Streams) (v : ℕ)
    → v < 2 ^ 64
    → ((to_int io cpp_long (new_int cpp_long v) ≡ some v) ↔ ((v < 2 ^ 31) ⊎ (2 ^ 64 - 2 ^ 31 ≤ v)))
      × ((to_int io cpp_ulong (new_int cpp_ulong v) ≡ some v) ↔ (v < 2 ^ 32))
unfolding to_int new_int extend
to_int-new_int_long io v h = (
  (
    λ e. elim (dec_lt v (2 ^ 31)) [ yes low ↦ inl low | no high ↦ inr (ground arith) ],
    λ c. elim c [ inl low ↦ ground arith | inr high ↦ ground arith ],
  ),
  (λ e. ground arith, λ c. ground arith),
)

le_bytes-le_value :
    (bytes : Bytes) → All IsByte bytes → le_bytes (length bytes) (le_value bytes) ≡ bytes
unfolding le_bytes le_value
le_bytes-le_value [] h = refl
le_bytes-le_value (c ∷ cs) (hc, h) = cc (le_bytes-le_value cs h, low, high)
  where
    low : (c + 256 * le_value cs) % 256 ≡ c
    low = omega arith

    high : (c + 256 * le_value cs) / 256 ≡ le_value cs
    high = omega arith

take-IsByte : (n : ℕ) (bytes : Bytes) → All IsByte bytes → All IsByte (take n bytes)
take-IsByte zero [] h = tt
take-IsByte (suc n) [] h = tt
take-IsByte zero (c ∷ cs) h = tt
take-IsByte (suc n) (c ∷ cs) h = (h.0, take-IsByte n cs h.1)

-- `memcpy` of a whole number into the union
copy_to_value_lem :
    (v : Variant) (mem : Bytes)
    → v.size ≤ length mem
    → copy_to_value mem v.size v ≡ some (record v { bits = le_value (take v.size mem) })
copy_to_value_lem v mem fits =
    rw
      (
        copy_out-inside mem 0 v.size (omega (arith, fits)),
        copy_in-written (le_bytes v.size v.bits) 0 (take v.size mem) whole,
        all,
      )
      refl
  where
    n : length (take v.size mem) ≡ v.size
    n = omega (arith, length-take v.size mem)

    whole : 0 + length (take v.size mem) ≤ length (le_bytes v.size v.bits)
    whole = omega (arith, n, length-le_bytes v.size v.bits)

    all :
        take v.size mem ++ drop (0 + length (take v.size mem)) (le_bytes v.size v.bits)
        ≡ take v.size mem
    all =
        rw
          (drop_all (0 + length (take v.size mem)) (le_bytes v.size v.bits)
            (omega (arith, n, length-le_bytes v.size v.bits)))
          (append-nil (take v.size mem))

number_to_buffer :
    (v : Variant)
    → type_code v.vt ≢ 0
    → is_block v.vt ≡ false
    → to_buffer v ≡ set_data (some (map some (le_bytes v.size v.bits))) empty
unfolding to_buffer
number_to_buffer v known number = ground arith

number_codes :
    (t : VariantType)
    → type_code t ≢ 0
    → is_block t ≡ false
    → ((type_code t == 0) ≡ false) × ((type_code t == 14) ≡ false) × ((type_code t == 15) ≡ false)
unfolding is_block
number_codes unknown known h = absurd (known refl)
number_codes carray known h = absurd (ground arith)
number_codes string known h = absurd (ground arith)
number_codes t known h = (refl, refl, refl)

number_set_value :
    (v : Variant) (mem : Bytes)
    → type_code v.vt ≢ 0
    → is_block v.vt ≡ false
    → v.size ≤ length mem
    → set_value mem v ≡ some (record v { bits = le_value (take v.size mem) })
unfolding set_value
number_set_value v mem known number fits =
    rw
      (
        (number_codes v.vt known number).0,
        (number_codes v.vt known number).1,
        (number_codes v.vt known number).2,
      )
      (copy_to_value_lem v mem fits)

type_code-known : (t : VariantType) → t ≢ unknown → type_code t ≢ 0
type_code-known unknown h e = h refl
type_code-known t h e = absurd (omega (arith, e))

type_size_bound : (t : VariantType) → type_size t ≤ 8
unfolding type_size
type_size_bound t = ground arith

-- For every type that is a number `setValue(v, type)` copies as many bytes as the type has, from memory
-- that holds them, and `toBuffer` gives them back.
pub to_buffer-set_value_typed :
    (t : VariantType) (v : Variant) (mem : Bytes)
    → t ≢ unknown
    → is_block t ≡ false
    → type_size t ≤ length mem
    → All IsByte mem
    → Returns
        (set_value_typed mem t v >>= to_buffer)
        (λ b. contents b ≡ map some (take (type_size t) mem))
unfolding set_value_typed set_vt
to_buffer-set_value_typed t v mem known number fits bytes =
    rw
      (
        number_set_value (set_vt t v) mem (type_code-known t known) number fits,
        number_to_buffer w (type_code-known t known) number,
        whole,
      )
      (Returns_weaken _ _ (set_data (some (map some (take n mem))) empty)
        (set_data_lem (map some (take n mem)) empty small) (λ b h. h.1))
  where
    n : ℕ
    n = type_size t

    w : Variant
    w = record (set_vt t v) { bits = le_value (take n mem) }

    n_bytes : length (take n mem) ≡ n
    n_bytes = omega (arith, length-take n mem)

    small : length (map some (take n mem)) + 4096 < 2 ^ 32
    small = omega (arith, length-map (take n mem) (λ x. some x), n_bytes, type_size_bound t)

    whole : le_bytes n (le_value (take n mem)) ≡ take n mem
    whole =
        ap (λ m. le_bytes m (le_value (take n mem))) (sym n_bytes)
        ∙ le_bytes-le_value (take n mem) (take-IsByte n mem bytes)
