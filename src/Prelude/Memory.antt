-- ===== src/Prelude/Memory.antt =====
-- Bytes of memory as numbers below 256, and little-endian words: the object representation of an
-- unsigned w-byte integer on the host, which is little-endian. A signed integer, a `float` or a
-- `double` is its bit pattern.
use Prim.Native.Nat.{ℕ, zero, suc, ◌+◌, ◌-◌, ◌*◌, ◌/◌, ◌%◌, ◌^◌, ◌≤◌, ◌<◌}
use mathlib.Core.Path.{◌≡◌, refl, ap}
use mathlib.Core.List.{List, [], ◌∷◌, ◌++◌, append_assoc}
use mathlib.Core.Option.{Option, none, some}
use native.Mathlib.Omega.{arith}
use libff.Prelude.Tests.{leb, if◌then◌else◌, le→leb, lt→leb}
use libff.Prelude.Lists.{
  length, take, drop, All, length-append, length-take, length-drop, take-length_append,
}

abbrev pub Bytes : Type 0
Bytes = List ℕ

abbrev pub IsByte : ℕ → Type 0
IsByte b = b < 256

-- uint32_t addition
abbrev pub add32 : ℕ → ℕ → ℕ
add32 a b = (a + b) % 2 ^ 32

unfoldable pub le_bytes : ℕ → ℕ → Bytes
le_bytes zero v = []
le_bytes (suc n) v = v % 256 ∷ le_bytes n (v / 256)

unfoldable pub le_value : Bytes → ℕ
le_value [] = 0
le_value (b ∷ bs) = b + 256 * le_value bs

pub length-le_bytes : (n v : ℕ) → length (le_bytes n v) ≡ n
unfolding le_bytes
length-le_bytes zero v = refl
length-le_bytes (suc n) v = ap suc (length-le_bytes n (v / 256))

pub le_value-le_bytes : (n v : ℕ) → v < 256 ^ n → le_value (le_bytes n v) ≡ v
unfolding le_bytes le_value
le_value-le_bytes zero v h = omega arith
le_value-le_bytes (suc n) v h = omega (arith, le_value-le_bytes n (v / 256) (omega arith))

pub le_bytes-IsByte : (n v : ℕ) → All IsByte (le_bytes n v)
unfolding le_bytes
le_bytes-IsByte zero v = tt
le_bytes-IsByte (suc n) v = (omega arith, le_bytes-IsByte n (v / 256))

-- uint32_t subtraction
abbrev pub sub32 : ℕ → ℕ → ℕ
sub32 a b = (a + 2 ^ 32 - b) % 2 ^ 32

-- `memcpy` of `n` elements from offset `pos`: `none` is an access outside the memory.
abbrev pub copy_out {ℓ} : {A : Type ℓ} → List A → ℕ → ℕ → Option (List A)
copy_out mem pos n = if leb (pos + n) (length mem) then some (take n (drop pos mem)) else none

-- `memcpy` of `src` to offset `pos`: `none` is an access outside the memory.
abbrev pub copy_in {ℓ} : {A : Type ℓ} → List A → ℕ → List A → Option (List A)
copy_in mem pos src =
    if leb (pos + length src) (length mem)
    then some (take pos mem ++ (src ++ drop (pos + length src) mem))
    else none

-- The memory after a `memcpy` that stays inside it.
abbrev pub written {ℓ} : {A : Type ℓ} → List A → ℕ → List A → List A
written mem pos src = take pos mem ++ (src ++ drop (pos + length src) mem)

module _ {ℓ} {A : Type ℓ} (mem : List A) (pos : ℕ) where
  pub copy_in-written :
      (src : List A)
      → pos + length src ≤ length mem
      → copy_in mem pos src ≡ some (written mem pos src)
  copy_in-written src h = rw (le→leb _ _ h)

  pub copy_in-outside : (src : List A) → length mem < pos + length src → copy_in mem pos src ≡ none
  copy_in-outside src h = rw (lt→leb _ _ h)

  pub length-written :
      (src : List A) → pos + length src ≤ length mem → length (written mem pos src) ≡ length mem
  length-written src h = omega (
    arith,
    length-append (take pos mem) (src ++ drop (pos + length src) mem),
    length-append src (drop (pos + length src) mem),
    length-take pos mem,
    length-drop (pos + length src) mem,
  )

  -- Up to the end of what was written.
  pub take-written :
      (src : List A)
      → pos + length src ≤ length mem
      → take (pos + length src) (written mem pos src) ≡ take pos mem ++ src
  take-written src h =
      rw (← append_assoc (take pos mem) src (drop (pos + length src) mem), e)
        (take-length_append _ _)
    where
      e : pos + length src ≡ length (take pos mem ++ src)
      e = omega (arith, length-append (take pos mem) src, length-take pos mem)

  pub copy_out-inside :
      (n : ℕ) → pos + n ≤ length mem → copy_out mem pos n ≡ some (take n (drop pos mem))
  copy_out-inside n h = rw (le→leb _ _ h)

  pub copy_out-outside : (n : ℕ) → length mem < pos + n → copy_out mem pos n ≡ none
  copy_out-outside n h = rw (lt→leb _ _ h)

-- `o` holds something, and that satisfies `P`.
abbrev pub Returns {ℓ} : {A : Type ℓ} → Option A → (A → Type 0) → Type 0
Returns none P = ⊥
Returns (some a) P = P a

pub Returns_weaken {ℓ} :
    {A : Type ℓ} (P Q : A → Type 0) (o : Option A)
    → Returns o P
    → ((a : A) → P a → Q a)
    → Returns o Q
Returns_weaken P Q none h k = absurd h
Returns_weaken P Q (some a) h k = k a h
