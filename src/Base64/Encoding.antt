-- ===== src/Base64/Encoding.antt =====
-- `Encrypt` against the plain encoding, and the sizes for which its vector is too small.
use libff.Prelude.{
  ℕ, zero, suc, ◌+◌, ◌-◌, ◌*◌, ◌/◌, ◌%◌, ◌^◌, ◌≤◌, ◌<◌, ◌≡◌, refl, ap, ◌≢◌, ◌⊎◌, none, some, [],
  ◌∷◌, ◌++◌, append-nil, append_assoc, arith, length, set, replicate, All, length-append, Bytes,
  IsByte,
}
use libff.Base64.{char_of, sextets, Output, put, put_all, encrypt_from, c_string, encrypt}
use libff.Base64.Groups.{sextets_lem, char_of-ne}

-- Base64 with padding, by arithmetic.
unfoldable pub encoding : Bytes → Bytes
encoding [] = []
encoding (a ∷ []) = char_of (a / 4) ∷ char_of (a % 4 * 16) ∷ b'=' ∷ b'=' ∷ []
encoding (a ∷ b ∷ []) =
    char_of (a / 4) ∷ char_of (a % 4 * 16 + b / 16) ∷ char_of (b % 16 * 4) ∷ b'=' ∷ []
encoding (a ∷ b ∷ c ∷ rest) =
    char_of (a / 4)
    ∷ char_of (a % 4 * 16 + b / 16)
    ∷ char_of (b % 16 * 4 + c / 64)
    ∷ char_of (c % 64)
    ∷ encoding rest

pub length-encoding : (s : Bytes) → length (encoding s) ≡ (length s + 2) / 3 * 4
unfolding encoding
length-encoding [] = omega arith
length-encoding (a ∷ []) = omega arith
length-encoding (a ∷ b ∷ []) = omega arith
length-encoding (a ∷ b ∷ c ∷ rest) = omega (arith, length-encoding rest)

-- The vector with `out` written and `k` elements left.
abbrev at : Bytes → ℕ → Output
at out k = record { re = out ++ replicate k 0; index = length out }

set_next : (out zs : Bytes) (c : ℕ) → set (out ++ 0 ∷ zs) (length out) c ≡ (out ++ c ∷ []) ++ zs
set_next [] zs c = refl
set_next (x ∷ out) zs c = ap (λ t. x ∷ t) (set_next out zs c)

put_next : (c : ℕ) (out : Bytes) (k : ℕ) → put c (at out (suc k)) ≡ some (at (out ++ c ∷ []) k)
unfolding put
put_next c out k = ground (
  arith,
  set_next out (replicate k 0) c,
  length-append out (0 ∷ replicate k 0),
  length-append out (c ∷ []),
)

put_all_lem :
    (cs out : Bytes) (n k : ℕ) → n ≡ length cs + k → put_all cs (at out n) ≡ some (at (out ++ cs) k)
unfolding put_all
put_all_lem [] out n k e = rw (append-nil, e') refl
  where
    e' : n ≡ k
    e' = omega arith
put_all_lem (c ∷ cs) out zero k e = absurd (omega arith)
put_all_lem (c ∷ cs) out (suc n) k e = rw (
  put_next c out n,
  put_all_lem cs (out ++ c ∷ []) n k (omega arith),
  append_assoc out (c ∷ []) cs,
)

-- The characters of a whole group.
abbrev group : ℕ → ℕ → ℕ → Bytes
group a b c =
    char_of (a / 4)
    ∷ char_of (a % 4 * 16 + b / 16)
    ∷ char_of (b % 16 * 4 + c / 64)
    ∷ char_of (c % 64)
    ∷ []

-- With room for it the encoder writes the encoding behind what is there.
encrypt_from_lem :
    (s out : Bytes) (n k : ℕ)
    → All IsByte s
    → n ≡ length (encoding s) + k
    → encrypt_from s (at out n) ≡ some (at (out ++ encoding s) k)
unfolding encrypt_from encoding
encrypt_from_lem [] out n k h e = rw (append-nil, e') refl
  where
    e' : n ≡ k
    e' = omega arith
encrypt_from_lem (a ∷ []) out n k h e =
    rw (sextets_lem a 0 0 h.0 (omega arith) (omega arith), pad, put_all_lem _ out n k e)
  where
    pad : a % 4 * 16 + 0 / 16 ≡ a % 4 * 16
    pad = omega arith
encrypt_from_lem (a ∷ b ∷ []) out n k h e =
    rw (sextets_lem a b 0 h.0 h.1.0 (omega arith), pad, put_all_lem _ out n k e)
  where
    pad : b % 16 * 4 + 0 / 64 ≡ b % 16 * 4
    pad = omega arith
encrypt_from_lem (a ∷ b ∷ c ∷ rest) out n k h e = rw (
  sextets_lem a b c h.0 h.1.0 h.1.1.0,
  put_all_lem (group a b c) out n (length (encoding rest) + k) (omega arith),
  encrypt_from_lem rest (out ++ group a b c) (length (encoding rest) + k) k h.1.1.1 refl,
  append_assoc out (group a b c) (encoding rest),
)

encoding_ne_nul : (s : Bytes) → All IsByte s → All (λ c. c ≢ 0) (encoding s)
unfolding encoding
encoding_ne_nul [] h = tt
encoding_ne_nul (a ∷ []) h =
    ground (arith, char_of-ne (a / 4) (omega (arith, h.0)), char_of-ne (a % 4 * 16) (omega arith))
encoding_ne_nul (a ∷ b ∷ []) h = ground (
  arith,
  char_of-ne (a / 4) (omega (arith, h.0)),
  char_of-ne (a % 4 * 16 + b / 16) (omega (arith, h.1)),
  char_of-ne (b % 16 * 4) (omega arith),
)
encoding_ne_nul (a ∷ b ∷ c ∷ rest) h = ground (
  arith,
  char_of-ne (a / 4) (omega (arith, h.0)),
  char_of-ne (a % 4 * 16 + b / 16) (omega (arith, h.1)),
  char_of-ne (b % 16 * 4 + c / 64) (omega (arith, h.1.1)),
  char_of-ne (c % 64) (omega arith),
  encoding_ne_nul rest h.1.1.1,
)

c_string_lem : (s zs : Bytes) → All (λ c. c ≢ 0) s → c_string (s ++ 0 ∷ zs) ≡ some s
unfolding c_string
c_string_lem [] zs h = refl
c_string_lem (c ∷ s) zs h = ground (arith, c_string_lem s zs h.1)

c_string-none : (s : Bytes) → All (λ c. c ≢ 0) s → c_string s ≡ none
unfolding c_string
c_string-none [] h = refl
c_string-none (c ∷ s) h = ground (arith, c_string-none s h.1)

encrypt_run :
    (s : Bytes) (k : ℕ)
    → All IsByte s
    → length s < 2 ^ 31
    → length s * 2 ≡ length (encoding s) + k
    → encrypt s ≡ c_string (encoding s ++ replicate k 0)
unfolding encrypt
encrypt_run s k h small e = rw (size, encrypt_from_lem s [] (length s * 2) k h e) refl
  where
    size : length s * 2 % 2 ^ 32 ≡ length s * 2
    size = omega arith

-- `Encrypt` gives the padded encoding of three bytes, and of five or more (below 2 ^ 31).
pub encrypt_lem :
    (s : Bytes)
    → All IsByte s
    → length s < 2 ^ 31
    → 3 ≤ length s
    → length s ≢ 4
    → encrypt s ≡ some (encoding s)
encrypt_lem s h small long other =
    rw (encrypt_run s (suc k) h small room) (c_string_lem _ _ (encoding_ne_nul s h))
  where
    k : ℕ
    k = length s * 2 - length (encoding s) - 1

    room : length s * 2 ≡ length (encoding s) + suc k
    room = omega (arith, length-encoding s)

encrypt_one : (a : ℕ) → encrypt (a ∷ []) ≡ none
unfolding encrypt encrypt_from put_all put sextets
encrypt_one a = refl

encrypt_exact :
    (s : Bytes)
    → All IsByte s
    → length s < 2 ^ 31
    → length s * 2 ≡ length (encoding s)
    → encrypt s ≡ none
encrypt_exact s h small e =
    rw (encrypt_run s 0 h small (omega arith), append-nil) (c_string-none _ (encoding_ne_nul s h))

-- The vector of `2 * len` elements is too small for one, two and four bytes: `Encrypt` writes
-- outside it, or leaves it with no NUL at its end and reads on behind it.
pub encrypt_overrun :
    (s : Bytes) → All IsByte s → (length s ≡ 1) ⊎ (length s ≡ 2) ⊎ (length s ≡ 4) → encrypt s ≡ none
encrypt_overrun [] h n = ground arith
encrypt_overrun (a ∷ []) h n = encrypt_one a
encrypt_overrun (a ∷ b ∷ rest) h n =
    encrypt_exact (a ∷ b ∷ rest) h (ground arith) (ground (arith, length-encoding (a ∷ b ∷ rest)))
