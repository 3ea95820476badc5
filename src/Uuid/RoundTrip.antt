-- ===== src/Uuid/RoundTrip.antt =====
-- `uuid_parse` of what `uuid_unparse` gives, and what `uuidRandom` makes of random bytes.
use libff.Prelude.{
  ℕ, ◌+◌, ◌*◌, ◌/◌, ◌%◌, ◌^◌, ◌≤◌, ◌<◌, bit_and, bit_or, ◌≡◌, refl, sym, ap, ◌∙◌, true, some, [],
  ◌∷◌, ◌++◌, arith, drop, Bytes, bit_or_comm, pow2, ones, bit_or-side, pow2_pos, bit_and-ones,
  padded,
}
use native.Mathlib.Nat.{mod-eq_of_lt, mod-lt}
use mathlib.Core.Path.{subst}
use libff.Uuid.{
  UuidBytes, UuidFields, uuid_pack, uuid_unpack, uuid_random, strtoul_hex, check_text, uuid_parse,
  fields_text, uuid_unparse, stamped,
}
use libff.Uuid.Digits.{AreBytes, uuid_unpack_lem, is_xdigit-digit, strtoul_hex-padded}

-- A number of two bytes, and one of four, taken apart
high : (a b : ℕ) → a < 256 → b < 256 → (a * 256 + b) / 256 % 256 ≡ a
high a b h k = omega arith

low : (a b : ℕ) → b < 256 → (a * 256 + b) % 256 ≡ b
low a b k = omega arith

module _ (a b c d : ℕ) (ha : a < 256) (hb : b < 256) (hc : c < 256) (hd : d < 256) where
  fourth : (a * 2 ^ 24 + b * 2 ^ 16 + c * 256 + d) % 256 ≡ d
  fourth = omega (arith, hd)

  third : (a * 2 ^ 24 + b * 2 ^ 16 + c * 256 + d) / 256 % 256 ≡ c
  third = omega (arith, hc, hd)

  second : (a * 2 ^ 24 + b * 2 ^ 16 + c * 256 + d) / 256 / 256 % 256 ≡ b
  second = omega (arith, hb, hc, hd)

  first : (a * 2 ^ 24 + b * 2 ^ 16 + c * 256 + d) / 256 / 256 / 256 % 256 ≡ a
  first = omega (arith, ha, hb, hc, hd)

uuid_pack-uuid_unpack : (u : UuidBytes) → AreBytes u → uuid_pack (uuid_unpack u) ≡ u
unfolding uuid_pack
uuid_pack-uuid_unpack u h =
    rw
      (
        uuid_unpack_lem u h,
        first u.out_0 u.out_1 u.out_2 u.out_3 h.0 h.1 h.2 h.3,
        second u.out_0 u.out_1 u.out_2 u.out_3 h.0 h.1 h.2 h.3,
        third u.out_0 u.out_1 u.out_2 u.out_3 h.0 h.1 h.2 h.3,
        fourth u.out_0 u.out_1 u.out_2 u.out_3 h.0 h.1 h.2 h.3,
        high u.out_4 u.out_5 h.4 h.5,
        low u.out_4 u.out_5 h.5,
        high u.out_6 u.out_7 h.6 h.7,
        low u.out_6 u.out_7 h.7,
        high u.out_8 u.out_9 h.8 h.9,
        low u.out_8 u.out_9 h.9,
      )
      refl

abbrev pub IsFields : UuidFields → Type 0
IsFields f =
    (f.time_low < 2 ^ 32)
    × (f.time_mid < 2 ^ 16)
    × (f.time_hi_and_version < 2 ^ 16)
    × (f.clock_seq < 2 ^ 16)
    × (f.node_0 < 256)
    × (f.node_1 < 256)
    × (f.node_2 < 256)
    × (f.node_3 < 256)
    × (f.node_4 < 256)
    × (f.node_5 < 256)

check_text-fields : (f : UuidFields) → check_text 0 (fields_text f) ≡ true
unfolding check_text fields_text padded
check_text-fields f = simp is_xdigit-digit refl

seq_text :
    (n : ℕ) (rest : Bytes)
    → padded 16 2 (n / 256) ++ (padded 16 2 (bit_and n 0xff) ++ rest) ≡ padded 16 4 n ++ rest
unfolding padded
seq_text n rest = rw (bit_and-ones 8 n, a, b, c, d) refl
  where
    a : n / 256 / 16 % 16 ≡ n / 16 / 16 / 16 % 16
    a = omega arith

    b : n / 256 % 16 ≡ n / 16 / 16 % 16
    b = omega arith

    c : n % 256 / 16 % 16 ≡ n / 16 % 16
    c = omega arith

    d : n % 256 % 16 ≡ n % 16
    d = omega arith

byte_text : (n : ℕ) → n < 256 → strtoul_hex 0 (padded 16 2 n) ≡ n
unfolding strtoul_hex padded
byte_text n h = strtoul_hex-padded 2 n [] h

pub uuid_parse-fields_text :
    (f : UuidFields) → IsFields f → uuid_parse (fields_text f) ≡ some (uuid_pack f)
unfolding uuid_parse fields_text padded strtoul_hex
uuid_parse-fields_text f h =
    rw
      (
        check_text-fields f,
        time_low,
        time_mid,
        time_hi,
        clock_seq,
        byte_text f.node_0 h.4,
        byte_text f.node_1 h.5,
        byte_text f.node_2 h.6,
        byte_text f.node_3 h.7,
        byte_text f.node_4 h.8,
        byte_text f.node_5 h.9,
        mod-eq_of_lt h.0,
        mod-eq_of_lt h.1,
        mod-eq_of_lt h.2,
        mod-eq_of_lt h.3,
        mod-eq_of_lt h.4,
        mod-eq_of_lt h.5,
        mod-eq_of_lt h.6,
        mod-eq_of_lt h.7,
        mod-eq_of_lt h.8,
        mod-eq_of_lt h.9,
      )
      refl
  where
    node_text : Bytes
    node_text =
        padded 16 2 f.node_0
        ++ padded 16 2 f.node_1
        ++ padded 16 2 f.node_2
        ++ padded 16 2 f.node_3
        ++ padded 16 2 f.node_4
        ++ padded 16 2 f.node_5

    clock_text : Bytes
    clock_text =
        padded 16 2 (f.clock_seq / 256)
        ++ (padded 16 2 (bit_and f.clock_seq 0xff) ++ b'-' ∷ node_text)

    time_low : strtoul_hex 0 (fields_text f) ≡ f.time_low
    time_low =
        strtoul_hex-padded 8 f.time_low
          (b'-' ∷ padded 16 4 f.time_mid
            ++ b'-' ∷ padded 16 4 f.time_hi_and_version
            ++ b'-' ∷ clock_text)
          h.0

    time_mid : strtoul_hex 0 (drop 9 (fields_text f)) ≡ f.time_mid
    time_mid =
        strtoul_hex-padded 4 f.time_mid
          (b'-' ∷ padded 16 4 f.time_hi_and_version ++ b'-' ∷ clock_text) h.1

    time_hi : strtoul_hex 0 (drop 14 (fields_text f)) ≡ f.time_hi_and_version
    time_hi = strtoul_hex-padded 4 f.time_hi_and_version (b'-' ∷ clock_text) h.2

    clock_seq : strtoul_hex 0 (drop 19 (fields_text f)) ≡ f.clock_seq
    clock_seq =
        ap (λ t. strtoul_hex 0 t) (seq_text f.clock_seq (b'-' ∷ node_text))
        ∙ strtoul_hex-padded 4 f.clock_seq (b'-' ∷ node_text) h.3

-- The text of any sixteen bytes is a UUID's, and `uuid_parse` gives the bytes back.
pub uuid_parse-uuid_unparse : (u : UuidBytes) → AreBytes u → uuid_parse (uuid_unparse u) ≡ some u
unfolding uuid_unparse
uuid_parse-uuid_unparse u h =
    uuid_parse-fields_text (uuid_unpack u)
      (subst IsFields (sym (uuid_unpack_lem u h)) (omega (arith, h)))
    ∙ ap some (uuid_pack-uuid_unpack u h)

-- A mask that keeps `k` bits, and a bit above it
masked : (k j n : ℕ) → pow2 k ≤ pow2 j → bit_or (bit_and n (ones k)) (pow2 j) ≡ pow2 j + n % pow2 k
masked k j n h =
    rw (bit_and-ones k n, bit_or_comm (n % pow2 k) (pow2 j))
      (ap (λ x. bit_or x (n % pow2 k)) one
        ∙ bit_or-side j 1 (n % pow2 k) below
        ∙ ap (λ x. x + n % pow2 k) (sym one))
  where
    one : pow2 j ≡ 1 * pow2 j
    one = omega arith

    below : n % pow2 k < pow2 j
    below = omega (arith, h, mod-lt n (pow2_pos k))

version :
    (a b : ℕ)
    → a < 256
    → b < 256
    → bit_or (bit_and (a * 256 + b) 0x0fff) 0x4000 ≡ (4 * 16 + a % 16) * 256 + b
version a b h k = omega (arith, masked 12 14 (a * 256 + b) (omega arith), h, k)

variant :
    (a b : ℕ)
    → a < 256
    → b < 256
    → bit_or (bit_and (a * 256 + b) 0x3fff) 0x8000 ≡ (2 * 64 + a % 64) * 256 + b
variant a b h k = omega (arith, masked 14 15 (a * 256 + b) (omega arith), h, k)

-- Of any sixteen random bytes `uuidRandom` makes a UUID of version 4 and of the variant of RFC 4122, and
-- it leaves the other 122 bits as they are.
pub uuid_random_lem :
    (u : UuidBytes)
    → AreBytes u
    → uuid_random u ≡ record u { out_6 = 4 * 16 + u.out_6 % 16; out_8 = 2 * 64 + u.out_8 % 64 }
unfolding uuid_random uuid_pack stamped
uuid_random_lem u h =
    ap (λ f. uuid_pack (stamped f)) (uuid_unpack_lem u h)
    ∙ rw
        (
          version u.out_6 u.out_7 h.6 h.7,
          variant u.out_8 u.out_9 h.8 h.9,
          first u.out_0 u.out_1 u.out_2 u.out_3 h.0 h.1 h.2 h.3,
          second u.out_0 u.out_1 u.out_2 u.out_3 h.0 h.1 h.2 h.3,
          third u.out_0 u.out_1 u.out_2 u.out_3 h.0 h.1 h.2 h.3,
          fourth u.out_0 u.out_1 u.out_2 u.out_3 h.0 h.1 h.2 h.3,
          high u.out_4 u.out_5 h.4 h.5,
          low u.out_4 u.out_5 h.5,
          high (4 * 16 + u.out_6 % 16) u.out_7 (omega arith) h.7,
          low (4 * 16 + u.out_6 % 16) u.out_7 h.7,
          high (2 * 64 + u.out_8 % 64) u.out_9 (omega arith) h.9,
          low (2 * 64 + u.out_8 % 64) u.out_9 h.9,
        )
        refl
