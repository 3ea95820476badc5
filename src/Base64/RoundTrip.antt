-- ===== src/Base64/RoundTrip.antt =====
-- `Decrypt` undoes the encoding.
use libff.Prelude.{
  ◌>>=◌, ℕ, ◌+◌, ◌*◌, ◌/◌, ◌%◌, ◌^◌, ◌≤◌, ◌<◌, ◌≡◌, refl, ap, ◌≢◌, false, lt→leb, some, [], ◌∷◌,
  map, arith, ◌==◌, length, All, Bytes, IsByte,
}
use libff.Base64.{char_of, fill_all, decrypt_groups, before_padding, decrypt, encrypt}
use libff.Base64.Groups.{triple-sextets, triple_lem, fill_buf-char_of, char_of-ne}
use libff.Base64.Encoding.{encoding, encrypt_lem, length-encoding}

-- The sextets of a text, without padding.
unfoldable pub sextets_of : Bytes → Bytes
sextets_of [] = []
sextets_of (a ∷ []) = a / 4 ∷ (a % 4 * 16) ∷ []
sextets_of (a ∷ b ∷ []) = a / 4 ∷ (a % 4 * 16 + b / 16) ∷ (b % 16 * 4) ∷ []
sextets_of (a ∷ b ∷ c ∷ rest) =
    a / 4 ∷ (a % 4 * 16 + b / 16) ∷ (b % 16 * 4 + c / 64) ∷ c % 64 ∷ sextets_of rest

abbrev IsSextet : ℕ → Type 0
IsSextet n = n < 64

sextets_of-IsSextet : (s : Bytes) → All IsByte s → All IsSextet (sextets_of s)
unfolding sextets_of
sextets_of-IsSextet [] h = tt
sextets_of-IsSextet (a ∷ []) h = omega arith
sextets_of-IsSextet (a ∷ b ∷ []) h = omega arith
sextets_of-IsSextet (a ∷ b ∷ c ∷ rest) h =
    (omega arith, (omega arith, (omega arith, (omega arith, sextets_of-IsSextet rest h.1.1.1))))

fill_all-char_of : (ns : Bytes) → All IsSextet ns → fill_all (map char_of ns) ≡ some ns
unfolding fill_all
fill_all-char_of [] h = refl
fill_all-char_of (n ∷ ns) h = rw (fill_buf-char_of n h.0, fill_all-char_of ns h.1)

before_padding_char :
    (n : ℕ) (cs : Bytes) → n < 64 → before_padding (char_of n ∷ cs) ≡ char_of n ∷ before_padding cs
unfolding before_padding
before_padding_char n cs h = ground (arith, char_of-ne n h)

before_padding-encoding :
    (s : Bytes) → All IsByte s → before_padding (encoding s) ≡ map char_of (sextets_of s)
unfolding encoding sextets_of
before_padding-encoding [] h = unfold before_padding in refl
before_padding-encoding (a ∷ []) h =
    rw
      (
        before_padding_char (a / 4) _ (omega (arith, h.0)),
        before_padding_char (a % 4 * 16) _ (omega arith),
      )
      (unfold before_padding in refl)
before_padding-encoding (a ∷ b ∷ []) h =
    rw
      (
        before_padding_char (a / 4) _ (omega (arith, h.0)),
        before_padding_char (a % 4 * 16 + b / 16) _ (omega (arith, h.1)),
        before_padding_char (b % 16 * 4) _ (omega arith),
      )
      (unfold before_padding in refl)
before_padding-encoding (a ∷ b ∷ c ∷ rest) h = rw (
  before_padding_char (a / 4) _ (omega (arith, h.0)),
  before_padding_char (a % 4 * 16 + b / 16) _ (omega (arith, h.1)),
  before_padding_char (b % 16 * 4 + c / 64) _ (omega (arith, h.1.1)),
  before_padding_char (c % 64) _ (omega arith),
  before_padding-encoding rest h.1.1.1,
)

decrypt_groups-sextets_of : (s : Bytes) → All IsByte s → decrypt_groups (sextets_of s) ≡ s
unfolding decrypt_groups sextets_of
decrypt_groups-sextets_of [] h = refl
decrypt_groups-sextets_of (a ∷ []) h =
    rw
      (triple_lem (a / 4) (a % 4 * 16) 0 0 (omega (arith, h.0)) (omega arith) (omega arith)
        (omega arith))
      (ap (λ x. x ∷ []) first)
  where
    first : a / 4 * 4 + a % 4 * 16 / 16 ≡ a
    first = omega arith
decrypt_groups-sextets_of (a ∷ b ∷ []) h = rw (
  triple_lem (a / 4) (a % 4 * 16 + b / 16) (b % 16 * 4) 0 (omega (arith, h.0)) (omega (arith, h.1))
      (omega arith) (omega arith),
  first,
  second,
)
  where
    first : a / 4 * 4 + (a % 4 * 16 + b / 16) / 16 ≡ a
    first = omega (arith, h.1)

    second : (a % 4 * 16 + b / 16) % 16 * 16 + b % 16 * 4 / 4 ≡ b
    second = omega (arith, h.1)
decrypt_groups-sextets_of (a ∷ b ∷ c ∷ rest) h =
    rw (triple-sextets a b c h.0 h.1.0 h.1.1.0, decrypt_groups-sextets_of rest h.1.1.1)

-- `Decrypt` of the padded Base64 encoding of some bytes gives them back, for every text that is not
-- empty and whose encoding has fewer than 2^31 characters.
pub decrypt-encoding :
    (s : Bytes)
    → All IsByte s
    → 0 < length s
    → length (encoding s) < 2 ^ 31
    → decrypt (encoding s) ≡ some (some s)
unfolding decrypt
decrypt-encoding s h pos small = rw (
  nonempty,
  lt→leb (2 ^ 31) (length (encoding s)) small,
  before_padding-encoding s h,
  fill_all-char_of (sextets_of s) (sextets_of-IsSextet s h),
  decrypt_groups-sextets_of s h,
)
  where
    nonempty : (length (encoding s) == 0) ≡ false
    nonempty = ground (arith, length-encoding s)

-- What `Encrypt` returns for three bytes or for five and more, `Decrypt` turns back into the bytes. The
-- text between them has fewer than 2 ^ 31 characters: there are at most 3 * 2 ^ 29 - 3 bytes.
pub decrypt-encrypt :
    (s : Bytes)
    → All IsByte s
    → length s + 2 < 3 * 2 ^ 29
    → 3 ≤ length s
    → length s ≢ 4
    → encrypt s >>= decrypt ≡ some (some s)
decrypt-encrypt s h small long other =
    rw (encrypt_lem s h (omega arith) long other)
      (decrypt-encoding s h (omega arith) (omega (arith, length-encoding s)))
