-- ===== src/Payload/Flag.antt =====
-- The flag byte: `ParseFlag` undoes `MakeFlag`.
use libff.Prelude.{
  ℕ, ◌+◌, ◌*◌, ◌/◌, ◌%◌, ◌<◌, ◌≡◌, refl, ap, arith, bit_and, bit_or, bit_and_low4, bit_or_nibbles,
}
use libff.Payload.{
  PayloadDataType, unknown, unnamed, type_code, type_of_code, make_flag, parse_flag,
}

-- What a flag's high nibble can stand for.
abbrev pub IsNibbleType : PayloadDataType → Type 0
IsNibbleType (unnamed n) = (6 < n) × (n < 16)
IsNibbleType t = Unit

type_code_lt : (t : PayloadDataType) → IsNibbleType t → type_code t < 16
unfolding type_code
type_code_lt unknown h = omega arith
type_code_lt (unnamed n) h = omega arith
type_code_lt t h = omega arith

pub type_of_code-type_code : (t : PayloadDataType) → IsNibbleType t → type_of_code (type_code t) ≡ t
unfolding type_of_code type_code
type_of_code-type_code unknown h = refl
type_of_code-type_code (unnamed n) h = ground arith
type_of_code-type_code t h = refl

pub make_flag_lem :
    (t : PayloadDataType) (len : ℕ)
    → IsNibbleType t
    → len < 16
    → make_flag t len ≡ type_code t * 16 + len
unfolding make_flag
make_flag_lem t len h l = omega (
  arith,
  type_code_lt t h,
  bit_and_low4 len (omega arith),
  ap (bit_or (type_code t * 16 % 256)) (bit_and_low4 len (omega arith)),
  ap (λ x. bit_or x (len % 16)) (byte (type_code t) (type_code_lt t h)),
  ap (bit_or (type_code t * 16)) (low len l),
  bit_or_nibbles (type_code t) len (type_code_lt t h) l,
)
  where
    byte : (n : ℕ) → n < 16 → n * 16 % 256 ≡ n * 16
    byte n p = omega arith

    low : (n : ℕ) → n < 16 → n % 16 ≡ n
    low n p = omega arith

-- `ParseFlag` gives back the type and the length from which `MakeFlag` made the flag, for each type
-- that a nibble holds and each length below 16.
pub parse_flag-make_flag :
    (t : PayloadDataType) (len : ℕ)
    → IsNibbleType t
    → len < 16
    → parse_flag (make_flag t len) ≡ (t, len)
unfolding parse_flag
parse_flag-make_flag t len h l = rw (make_flag_lem t len h l, hi, type_of_code-type_code t h, lo)
  where
    small : type_code t < 16
    small = type_code_lt t h

    hi : (type_code t * 16 + len) / 16 ≡ type_code t
    hi = omega (arith, small)

    lo : bit_and (type_code t * 16 + len) 0x0f ≡ len
    lo = omega (arith, small, bit_and_low4 (type_code t * 16 + len) (omega (arith, small)))
