-- ===== src/ByteOrder/Conversion.antt =====
-- Conversions between the two orders of bytes.
use libff.Prelude.{ℕ, le_bytes, ◌+◌, ◌≡◌, refl, ap, ◌∙◌, some, arith, length, Bytes}
use mathlib.Core.List.{reverse, reverse-reverse}
use libff.ByteOrder.Reversal.{reverse_bytes_lem}
use libff.ByteOrder.{EndianType, big, small, reversed, to, to_host, to_big, to_small}

reversed_lem : (val : Bytes) → reversed val ≡ some (reverse val)
reversed_lem val = reverse_bytes_lem (length val + 1) val (omega arith)

-- The bytes of the number `v` in memory: the low byte first, or the high one
unfoldable pub encoded : EndianType → ℕ → ℕ → Bytes
encoded small n v = le_bytes n v
encoded big n v = reverse (le_bytes n v)

reversed_small_lem : (n v : ℕ) → reversed (encoded small n v) ≡ some (encoded big n v)
unfolding encoded
reversed_small_lem n v = reversed_lem (le_bytes n v)

reversed_big_lem : (n v : ℕ) → reversed (encoded big n v) ≡ some (encoded small n v)
unfolding encoded
reversed_big_lem n v =
    reversed_lem (reverse (le_bytes n v)) ∙ ap some (reverse-reverse (le_bytes n v))

to_lem : (a b : EndianType) (n v : ℕ) → to a b (encoded a n v) ≡ some (encoded b n v)
unfolding to
to_lem big big n v = refl
to_lem small small n v = refl
to_lem big small n v = reversed_big_lem n v
to_lem small big n v = reversed_small_lem n v

to_host_lem :
    (a host : EndianType) (n v : ℕ) → to_host host a (encoded a n v) ≡ some (encoded host n v)
unfolding to_host
to_host_lem big big n v = refl
to_host_lem small small n v = refl
to_host_lem big small n v = reversed_big_lem n v
to_host_lem small big n v = reversed_small_lem n v

to_big_lem : (a : EndianType) (n v : ℕ) → to_big a (encoded a n v) ≡ some (encoded big n v)
unfolding to_big
to_big_lem big n v = refl
to_big_lem small n v = reversed_small_lem n v

to_small_lem : (a : EndianType) (n v : ℕ) → to_small a (encoded a n v) ≡ some (encoded small n v)
unfolding to_small
to_small_lem small n v = refl
to_small_lem big n v = reversed_big_lem n v

-- A number of any number of bytes, stored in the order of an Endian, is turned by its `to` into the bytes
-- of the same number in the other Endian's order, by `toHost` into those in the host's order, and by `toBig`
-- and `toSmall` into those with the high and with the low byte first.
pub converts_to :
    (a b : EndianType) (n v : ℕ)
    → (to a b (encoded a n v) ≡ some (encoded b n v))
      × (to_host b a (encoded a n v) ≡ some (encoded b n v))
      × (to_big a (encoded a n v) ≡ some (encoded big n v))
      × (to_small a (encoded a n v) ≡ some (encoded small n v))
converts_to a b n v = (to_lem a b n v, to_host_lem a b n v, to_big_lem a n v, to_small_lem a n v)
