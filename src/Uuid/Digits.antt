-- ===== src/Uuid/Digits.antt =====
-- The fields of the bytes, and the digits of the text.
use libff.Prelude.{
  ℕ, zero, suc, ◌+◌, ◌*◌, ◌/◌, ◌%◌, ◌^◌, ◌<◌, bit_or, ◌≡◌, refl, ap, ◌∙◌, true, [], ◌∷◌, ◌++◌,
  append_assoc, arith, Bytes, bit_or-side, digit, padded,
}
use libff.Uuid.{UuidBytes, uuid_unpack, shift_in, is_xdigit, xdigit_value, strtoul_hex}

-- Sixteen bytes
abbrev pub AreBytes : UuidBytes → Type 0
AreBytes u =
    (u.out_0 < 256)
    × (u.out_1 < 256)
    × (u.out_2 < 256)
    × (u.out_3 < 256)
    × (u.out_4 < 256)
    × (u.out_5 < 256)
    × (u.out_6 < 256)
    × (u.out_7 < 256)
    × (u.out_8 < 256)
    × (u.out_9 < 256)
    × (u.out_10 < 256)
    × (u.out_11 < 256)
    × (u.out_12 < 256)
    × (u.out_13 < 256)
    × (u.out_14 < 256)
    × (u.out_15 < 256)

shift_in_lem : (tmp b : ℕ) → tmp < 2 ^ 24 → b < 256 → shift_in tmp b ≡ tmp * 256 + b
shift_in_lem tmp b h k = ap (λ x. bit_or x b) e ∙ bit_or-side 8 tmp b k
  where
    e : tmp * 256 % 2 ^ 32 ≡ tmp * 256
    e = omega (arith, h)

mid : (a b : ℕ) → a < 256 → b < 256 → shift_in a b % 2 ^ 16 ≡ a * 256 + b
mid a b h k = rw (shift_in_lem a b (omega (arith, h)) k) (omega (arith, h, k))

-- The fields as numbers
pub uuid_unpack_lem :
    (u : UuidBytes)
    → AreBytes u
    → uuid_unpack u ≡ record {
      time_low = u.out_0 * 2 ^ 24 + u.out_1 * 2 ^ 16 + u.out_2 * 256 + u.out_3;
      time_mid = u.out_4 * 256 + u.out_5;
      time_hi_and_version = u.out_6 * 256 + u.out_7;
      clock_seq = u.out_8 * 256 + u.out_9;
      node_0 = u.out_10;
      node_1 = u.out_11;
      node_2 = u.out_12;
      node_3 = u.out_13;
      node_4 = u.out_14;
      node_5 = u.out_15;
    }
unfolding uuid_unpack
uuid_unpack_lem u h =
    rw (low, mid u.out_4 u.out_5 h.4 h.5, mid u.out_6 u.out_7 h.6 h.7, mid u.out_8 u.out_9 h.8 h.9)
      refl
  where
    low :
        shift_in (shift_in (shift_in u.out_0 u.out_1) u.out_2) u.out_3
        ≡ u.out_0 * 2 ^ 24 + u.out_1 * 2 ^ 16 + u.out_2 * 256 + u.out_3
    low =
        rw
          (
            shift_in_lem u.out_0 u.out_1 (omega (arith, h.0)) h.1,
            shift_in_lem (u.out_0 * 256 + u.out_1) u.out_2 (omega (arith, h.0, h.1)) h.2,
            shift_in_lem ((u.out_0 * 256 + u.out_1) * 256 + u.out_2) u.out_3
                (omega (arith, h.0, h.1, h.2)) h.3,
          )
          (omega arith)

pub is_xdigit-digit : (n : ℕ) → is_xdigit (digit (n % 16)) ≡ true
unfolding is_xdigit
is_xdigit-digit n = ground arith

pub xdigit_value-digit : (n : ℕ) → xdigit_value (digit (n % 16)) ≡ n % 16
unfolding xdigit_value
xdigit_value-digit n = ground arith

pub strtoul_hex-padded :
    (w n : ℕ) (rest : Bytes)
    → n < 16 ^ w
    → strtoul_hex 0 (padded 16 w n ++ rest) ≡ strtoul_hex n rest
unfolding strtoul_hex padded
strtoul_hex-padded zero n rest h = ap (λ x. strtoul_hex x rest) (omega arith)
strtoul_hex-padded (suc w) n rest h =
    rw
      (
        append_assoc (padded 16 w (n / 16)) (digit (n % 16) ∷ []) rest,
        strtoul_hex-padded w (n / 16) (digit (n % 16) ∷ rest) (omega arith),
      )
      (rw (is_xdigit-digit n, xdigit_value-digit n) (ap (λ x. strtoul_hex x rest) (omega arith)))
