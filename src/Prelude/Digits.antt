-- ===== src/Prelude/Digits.antt =====
-- `&` and `|` of numbers of any width: by their lowest digits, and as `%` and `+` where the digits of
-- the two do not meet.
use Prim.Native.Nat.{
  ℕ, zero, suc, ◌+◌, ◌*◌, ◌/◌, ◌%◌, ◌≤◌, ◌<◌, min, max, bit_and, bit_or, digits, bit_and-bitwise,
  bit_or-bitwise,
}
use mathlib.Core.Path.{◌≡◌, refl, ap, ◌∙◌}
use native.Mathlib.Omega.{arith}
use native.Mathlib.Nat.{mul-add-mod_self_left, mod-eq_of_lt, div-add-mod, mod-lt}

-- The count of digits does not matter once it covers the first number.
digits_count :
    (z : ℕ → ℕ) (f : ℕ → ℕ → ℕ) (n m a b : ℕ) → a ≤ n → a ≤ m → digits z f n a b ≡ digits z f m a b
digits_count z f zero zero a b p q = refl
digits_count z f (suc n) (suc m) zero b p q = refl
digits_count z f (suc n) (suc m) (suc a) b p q =
    ap (λ d. d * 2 + f (suc a % 2) (b % 2))
      (digits_count z f n m (suc a / 2) (b / 2) (omega arith) (omega arith))
digits_count z f zero (suc m) zero b p q = refl
digits_count z f (suc n) zero zero b p q = refl
digits_count z f zero (suc m) (suc a) b p q = absurd (omega arith)
digits_count z f (suc n) zero (suc a) b p q = absurd (omega arith)

bit_and-digit : (a b : ℕ) → bit_and a b ≡ bit_and (a / 2) (b / 2) * 2 + min (a % 2) (b % 2)
bit_and-digit zero b = omega (arith, bit_and-bitwise 0 b, bit_and-bitwise 0 (b / 2))
bit_and-digit (suc a) b = omega (
  arith,
  bit_and-bitwise (suc a) b,
  bit_and-bitwise (suc a / 2) (b / 2),
  digits_count (λ b. 0) min a (suc a / 2) (suc a / 2) (b / 2) (omega arith) (omega arith),
)

bit_or-digit : (a b : ℕ) → bit_or a b ≡ bit_or (a / 2) (b / 2) * 2 + max (a % 2) (b % 2)
bit_or-digit zero b = omega (arith, bit_or-bitwise 0 b, bit_or-bitwise 0 (b / 2))
bit_or-digit (suc a) b = omega (
  arith,
  bit_or-bitwise (suc a) b,
  bit_or-bitwise (suc a / 2) (b / 2),
  digits_count (λ b. b) max a (suc a / 2) (suc a / 2) (b / 2) (omega arith) (omega arith),
)

zero-bit_or : (b : ℕ) → bit_or 0 b ≡ b
zero-bit_or b = bit_or-bitwise 0 b

bit_or_comm_count : (n a b : ℕ) → a ≤ n → b ≤ n → bit_or a b ≡ bit_or b a
bit_or_comm_count zero zero zero p q = refl
bit_or_comm_count zero zero (suc b) p q = absurd (omega arith)
bit_or_comm_count zero (suc a) b p q = absurd (omega arith)
bit_or_comm_count (suc n) a b p q = omega (
  arith,
  bit_or-digit a b,
  bit_or-digit b a,
  bit_or_comm_count n (a / 2) (b / 2) (omega arith) (omega arith),
)

pub bit_or_comm : (a b : ℕ) → bit_or a b ≡ bit_or b a
bit_or_comm a b = bit_or_comm_count (a + b) a b (omega arith) (omega arith)

abbrev pub pow2 : ℕ → ℕ
pow2 zero = 1
pow2 (suc k) = 2 * pow2 k

-- `k` ones
abbrev pub ones : ℕ → ℕ
ones zero = 0
ones (suc k) = 2 * ones k + 1

-- Digits side by side
pub bit_or-side : (k a b : ℕ) → b < pow2 k → bit_or (a * pow2 k) b ≡ a * pow2 k + b
bit_or-side zero a b h =
    rw (bit_or_comm (a * 1) b)
      (omega (arith, low, zero-bit_or (a * 1), ap (λ x. bit_or x (a * 1)) low))
  where
    low : b ≡ 0
    low = omega (arith, h)
bit_or-side (suc k) a b h =
    bit_or-digit (a * (2 * pow2 k)) b
    ∙ rw (half, even) (omega (arith, bit_or-side k a (b / 2) (omega (arith, h)), double))
  where
    double : a * (2 * pow2 k) ≡ 2 * (a * pow2 k)
    double = omega arith

    half : a * (2 * pow2 k) / 2 ≡ a * pow2 k
    half = omega (arith, double)

    even : a * (2 * pow2 k) % 2 ≡ 0
    even = omega (arith, double)

mod_double : (a p : ℕ) → 0 < p → a % (2 * p) ≡ a / 2 % p * 2 + a % 2
mod_double a p h =
    ap (λ x. x % (2 * p)) split
    ∙ (mul-add-mod_self_left (2 * p) (a / 2 / p) (a / 2 % p * 2 + a % 2) ∙ mod-eq_of_lt small)
  where
    split : a ≡ 2 * p * (a / 2 / p) + (a / 2 % p * 2 + a % 2)
    split = omega (arith, div-add-mod (a / 2) p)

    small : a / 2 % p * 2 + a % 2 < 2 * p
    small = omega (arith, mod-lt (a / 2) h)

pub pow2_pos : (k : ℕ) → 0 < pow2 k
pow2_pos zero = omega arith
pow2_pos (suc k) = omega (arith, pow2_pos k)

bit_and-zero_count : (n a : ℕ) → a ≤ n → bit_and a 0 ≡ 0
bit_and-zero_count n zero h = refl
bit_and-zero_count zero (suc a) h = absurd (omega arith)
bit_and-zero_count (suc n) (suc a) h =
    omega (arith, bit_and-digit (suc a) 0, bit_and-zero_count n (suc a / 2) (omega arith))

-- A mask of ones
pub bit_and-ones : (k a : ℕ) → bit_and a (ones k) ≡ a % pow2 k
bit_and-ones zero a = omega (arith, bit_and-zero_count a a (omega arith))
bit_and-ones (suc k) a =
    bit_and-digit a (2 * ones k + 1)
    ∙ rw (half, odd) (omega (arith, bit_and-ones k (a / 2), mod_double a (pow2 k) (pow2_pos k)))
  where
    half : (2 * ones k + 1) / 2 ≡ ones k
    half = omega arith

    odd : (2 * ones k + 1) % 2 ≡ 1
    odd = omega arith
