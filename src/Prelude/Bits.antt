-- ===== src/Prelude/Bits.antt =====
-- Masks and combinations of bits as arithmetic.
use Prim.Native.Nat.{bit_and, bit_or, ℕ, zero, suc, ◌+◌, ◌*◌, ◌/◌, ◌%◌, ◌<◌}
use mathlib.Core.Path.{◌≡◌, refl, sym}
use mathlib.Core.Bool.{Bool, true, ◌&&◌}
use native.Mathlib.Omega.{arith}
use native.Mathlib.Decide.{dec_lt}
use libff.Prelude.Tests.{◌==◌, ==_iff}

-- Do `f` and `g` give the same number for every argument below `n`?
unfoldable pub same_table : (ℕ → ℕ) → (ℕ → ℕ) → ℕ → Bool
same_table f g zero = true
same_table f g (suc n) = same_table f g n && f n == g n

same_table-at : (f g : ℕ → ℕ) (n : ℕ) → same_table f g n ≡ true → (x : ℕ) → x < n → f x ≡ g x
unfolding same_table
same_table-at f g zero h x lt = absurd (omega arith)
same_table-at f g (suc n) h x lt = elim (dec_lt x n) [
  | yes below ↦ same_table-at f g n (ground (arith, h)) x below
  | no last ↦ ground (arith, h, ==_iff (f n) (g n))
]

-- Two functions that agree on a table.
pub agree_below : (n : ℕ) (f g : ℕ → ℕ) → same_table f g n ≡ true → (x : ℕ) → x < n → f x ≡ g x
agree_below n f g h = same_table-at f g n h

pub bit_and_low4 : (x : ℕ) → x < 256 → bit_and x 0x0f ≡ x % 16
unfolding same_table
bit_and_low4 = agree_below 256 (λ x. bit_and x 0x0f) (λ x. x % 16) refl

bit_or_nibbles_table : (x : ℕ) → x < 256 → bit_or (x / 16 * 16) (x % 16) ≡ x
unfolding same_table
bit_or_nibbles_table = agree_below 256 (λ x. bit_or (x / 16 * 16) (x % 16)) (λ x. x) refl

-- Two nibbles side by side.
pub bit_or_nibbles : (hi lo : ℕ) → hi < 16 → lo < 16 → bit_or (hi * 16) lo ≡ hi * 16 + lo
bit_or_nibbles hi lo h l =
    rw (sym e₁, sym e₂) at (bit_or_nibbles_table (hi * 16 + lo) (omega arith))
  where
    e₁ : hi ≡ (hi * 16 + lo) / 16
    e₁ = omega arith

    e₂ : lo ≡ (hi * 16 + lo) % 16
    e₂ = omega arith

pub bit_and_low2 : (x : ℕ) → x < 256 → bit_and x 0x03 ≡ x % 4
unfolding same_table
bit_and_low2 = agree_below 256 (λ x. bit_and x 0x03) (λ x. x % 4) refl

pub bit_and_low6 : (x : ℕ) → x < 256 → bit_and x 0x3f ≡ x % 64
unfolding same_table
bit_and_low6 = agree_below 256 (λ x. bit_and x 0x3f) (λ x. x % 64) refl

pub bit_and_mid2 : (x : ℕ) → x < 64 → bit_and x 0x30 ≡ x / 16 * 16
unfolding same_table
bit_and_mid2 = agree_below 64 (λ x. bit_and x 0x30) (λ x. x / 16 * 16) refl

bit_or_4_table : (x : ℕ) → x < 256 → bit_or (x / 4 * 4) (x % 4) ≡ x
unfolding same_table
bit_or_4_table = agree_below 256 (λ x. bit_or (x / 4 * 4) (x % 4)) (λ x. x) refl

bit_or_64_table : (x : ℕ) → x < 256 → bit_or (x / 64 * 64) (x % 64) ≡ x
unfolding same_table
bit_or_64_table = agree_below 256 (λ x. bit_or (x / 64 * 64) (x % 64)) (λ x. x) refl

-- Six bits over two, and two bits over six.
pub bit_or_low2 : (hi lo : ℕ) → hi < 64 → lo < 4 → bit_or (hi * 4) lo ≡ hi * 4 + lo
bit_or_low2 hi lo h l = rw (sym e₁, sym e₂) at (bit_or_4_table (hi * 4 + lo) (omega arith))
  where
    e₁ : hi ≡ (hi * 4 + lo) / 4
    e₁ = omega arith

    e₂ : lo ≡ (hi * 4 + lo) % 4
    e₂ = omega arith

pub bit_or_low6 : (hi lo : ℕ) → hi < 4 → lo < 64 → bit_or (hi * 64) lo ≡ hi * 64 + lo
bit_or_low6 hi lo h l = rw (sym e₁, sym e₂) at (bit_or_64_table (hi * 64 + lo) (omega arith))
  where
    e₁ : hi ≡ (hi * 64 + lo) / 64
    e₁ = omega arith

    e₂ : lo ≡ (hi * 64 + lo) % 64
    e₂ = omega arith
