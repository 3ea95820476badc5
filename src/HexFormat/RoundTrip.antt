-- ===== src/HexFormat/RoundTrip.antt =====
-- `parse` of what `format` gives.
use libff.Prelude.{
  ℕ, zero, suc, ◌+◌, ◌-◌, ◌*◌, ◌/◌, ◌%◌, ◌^◌, ◌≤◌, ◌<◌, ◌≡◌, refl, ap, ◌∙◌, ◌≢◌, inl, inr, Bool,
  true, false, none, [], ◌∷◌, ◌++◌, arith, ltb, if◌then◌else◌, ltb→lt, Bool-cases, length,
  replicate, All, length-append, Bytes, codes, digit, numeral_loop, numeral,
}
use libff.Strings.{trim, to_lower, to_upper, lower_char, upper_char, find, is_prefix, is_blank}
use libff.Cli.Words.{trim-solid}
use libff.Uuid.{is_xdigit, xdigit_value, strtoul_hex}
use libff.Uuid.Digits.{is_xdigit-digit, xdigit_value-digit}
use libff.HexFormat.{HexNumberFormater, hex_digits, format, parse_hex, without_prefix}

-- Of a text of hexadecimal digits whose number fits 64 bits, a stream under `hex` reads the number.
abbrev pub ReadsHex : (Bytes → ℕ) → Type 0
ReadsHex read_hex =
    (s : Bytes)
    → All (λ c. is_xdigit c ≡ true) s
    → 0 < length s
    → strtoul_hex 0 s < 2 ^ 64
    → read_hex s ≡ strtoul_hex 0 s

-- A digit in lower case
abbrev pub IsDigit : ℕ → Type 0
IsDigit c = ((n : ℕ) × (c ≡ digit (n % 16)))

digit_facts :
    (n : ℕ)
    → (is_blank (digit (n % 16)) ≡ false)
      × (lower_char (digit (n % 16)) ≡ digit (n % 16))
      × (lower_char (upper_char (digit (n % 16))) ≡ digit (n % 16))
      × (digit (n % 16) ≢ b'x')
unfolding is_blank lower_char upper_char
digit_facts n = ground arith

digit_small : (n : ℕ) → n < 16 → digit n ≡ digit (n % 16)
digit_small n h = ap digit (omega (arith, h))

numeral_loop-IsDigit :
    (fuel n : ℕ) (acc : Bytes)
    → n ≤ fuel
    → All IsDigit acc
    → All IsDigit (numeral_loop fuel 16 n acc)
unfolding numeral_loop
numeral_loop-IsDigit zero n acc h k = ((n, digit_small n (omega arith)), k)
numeral_loop-IsDigit (suc fuel) n acc h k = elim (Bool-cases (ltb n 16)) [
  | inl small ↦ rw small ((n, digit_small n (ltb→lt n 16 small)), k)
  | inr large ↦ rw large (
      numeral_loop-IsDigit fuel (n / 16) (digit (n % 16) ∷ acc) (ground (arith, large, h))
        ((n, refl), k))
]

strtoul_hex-digit :
    (m n : ℕ) (s : Bytes) → strtoul_hex m (digit (n % 16) ∷ s) ≡ strtoul_hex (m * 16 + n % 16) s
unfolding strtoul_hex
strtoul_hex-digit m n s = rw (is_xdigit-digit n, xdigit_value-digit n) refl

strtoul_hex-numeral_loop :
    (fuel n : ℕ) (acc : Bytes)
    → n ≤ fuel
    → strtoul_hex 0 (numeral_loop fuel 16 n acc) ≡ strtoul_hex n acc
unfolding numeral_loop
strtoul_hex-numeral_loop zero n acc h =
    ap (λ d. strtoul_hex 0 (d ∷ acc)) (digit_small n (omega arith))
    ∙ (strtoul_hex-digit 0 n acc ∙ ap (λ m. strtoul_hex m acc) (omega arith))
strtoul_hex-numeral_loop (suc fuel) n acc h = elim (Bool-cases (ltb n 16)) [
  | inl small ↦ rw small (
      ap (λ d. strtoul_hex 0 (d ∷ acc)) (digit_small n (ltb→lt n 16 small))
      ∙ (strtoul_hex-digit 0 n acc ∙ ap (λ m. strtoul_hex m acc) (ground (arith, small))))
  | inr large ↦ rw large (
      strtoul_hex-numeral_loop fuel (n / 16) (digit (n % 16) ∷ acc) (ground (arith, large, h))
      ∙ (strtoul_hex-digit (n / 16) n acc ∙ ap (λ m. strtoul_hex m acc) (omega arith)))
]

zeros-IsDigit : (k : ℕ) (s : Bytes) → All IsDigit s → All IsDigit (replicate k b'0' ++ s)
zeros-IsDigit zero s h = h
zeros-IsDigit (suc k) s h = ((0, refl), zeros-IsDigit k s h)

strtoul_hex-zeros : (k : ℕ) (s : Bytes) → strtoul_hex 0 (replicate k b'0' ++ s) ≡ strtoul_hex 0 s
unfolding strtoul_hex is_xdigit xdigit_value
strtoul_hex-zeros zero s = refl
strtoul_hex-zeros (suc k) s = strtoul_hex-zeros k s

-- Digits are no blanks, and hexadecimal digits for the parser.
digits-solid : (s : Bytes) → All IsDigit s → All (λ c. is_blank c ≡ false) s
digits-solid [] h = tt
digits-solid (c ∷ s) ((n, e), h) = (rw e (digit_facts n).0, digits-solid s h)

digits-is_xdigit : (s : Bytes) → All IsDigit s → All (λ c. is_xdigit c ≡ true) s
digits-is_xdigit [] h = tt
digits-is_xdigit (c ∷ s) ((n, e), h) = (rw e (is_xdigit-digit n), digits-is_xdigit s h)

to_lower-digits : (s : Bytes) → All IsDigit s → to_lower s ≡ s
unfolding to_lower
to_lower-digits [] h = refl
to_lower-digits (c ∷ s) ((n, e), h) = rw (e, (digit_facts n).1, to_lower-digits s h) refl

to_lower-to_upper : (s : Bytes) → All IsDigit s → to_lower (to_upper s) ≡ s
unfolding to_lower to_upper
to_lower-to_upper [] h = refl
to_lower-to_upper (c ∷ s) ((n, e), h) = rw (e, (digit_facts n).2, to_lower-to_upper s h) refl

to_lower-zeros :
    (k : ℕ) (s : Bytes) → to_lower (replicate k b'0' ++ s) ≡ replicate k b'0' ++ to_lower s
unfolding to_lower lower_char
to_lower-zeros zero s = refl
to_lower-zeros (suc k) s = ap (λ t. b'0' ∷ t) (to_lower-zeros k s)

is_prefix-digits : (s : Bytes) → All IsDigit s → is_prefix (codes "0x") s ≡ false
unfolding is_prefix
is_prefix-digits [] h = refl
is_prefix-digits (c ∷ []) h = ground arith
is_prefix-digits (c ∷ d ∷ s) (hc, ((n, e), h)) = rw e (ground (arith, (digit_facts n).3))

pub without_prefix-digits : (s : Bytes) → All IsDigit s → find (codes "0x") s ≡ none
unfolding find
without_prefix-digits [] h = unfold is_prefix in refl
without_prefix-digits (c ∷ s) h = rw (is_prefix-digits (c ∷ s) h, without_prefix-digits s h.1) refl

module _ (read_hex : Bytes → ℕ) (reads : ReadsHex read_hex) (s t : Bytes) (lower : to_lower s ≡ t)
    (h : All IsDigit t) (pos : 0 < length t) (fits : strtoul_hex 0 t < 2 ^ 64) where
  parse_hex-bare : parse_hex read_hex s ≡ strtoul_hex 0 t
  unfolding parse_hex
  parse_hex-bare = ap read_hex bare ∙ reads t (digits-is_xdigit t h) pos fits
    where
      bare : without_prefix (trim (to_lower s)) ≡ t
      bare =
          ap (λ x. without_prefix (trim x)) lower
          ∙ (ap without_prefix (trim-solid t (digits-solid t h))
              ∙ rw (without_prefix, without_prefix-digits t h) refl)

  parse_hex-prefix : parse_hex read_hex (codes "0x" ++ s) ≡ strtoul_hex 0 t
  unfolding parse_hex to_lower lower_char
  parse_hex-prefix = ap read_hex bare ∙ reads t (digits-is_xdigit t h) pos fits
    where
      solid : All (λ c. is_blank c ≡ false) (codes "0x" ++ t)
      solid = unfold is_blank in (refl, (refl, digits-solid t h))

      lowered : to_lower (codes "0x" ++ s) ≡ codes "0x" ++ t
      lowered = ap (λ x. codes "0x" ++ x) lower

      behind : without_prefix (codes "0x" ++ t) ≡ t
      behind = unfold without_prefix in unfold find in unfold is_prefix in refl

      bare : without_prefix (trim (to_lower (codes "0x" ++ s))) ≡ t
      bare =
          ap (λ x. without_prefix (trim x)) lowered
          ∙ (ap without_prefix (trim-solid (codes "0x" ++ t) solid) ∙ behind)

  parse_hex-any :
      (prefix : Bool)
      → parse_hex read_hex ((if prefix then codes "0x" else []) ++ s) ≡ strtoul_hex 0 t
  parse_hex-any true = parse_hex-prefix
  parse_hex-any false = parse_hex-bare

numeral-IsDigit : (v : ℕ) → All IsDigit (numeral 16 v)
unfolding numeral
numeral-IsDigit v = numeral_loop-IsDigit v v [] (omega arith) tt

strtoul_hex-numeral : (v : ℕ) → strtoul_hex 0 (numeral 16 v) ≡ v
unfolding numeral strtoul_hex
strtoul_hex-numeral v = strtoul_hex-numeral_loop v v [] (omega arith)

-- The digits of a number in the case that is set, and in lower case
to_lower-hex_digits : (f : HexNumberFormater) (v : ℕ) → to_lower (hex_digits f v) ≡ numeral 16 v
unfolding hex_digits
to_lower-hex_digits f v = elim (Bool-cases f.uppercase) [
  | inl upper ↦ rw (hex_digits, upper) (to_lower-to_upper (numeral 16 v) (numeral-IsDigit v))
  | inr lower ↦ rw (hex_digits, lower) (to_lower-digits (numeral 16 v) (numeral-IsDigit v))
]

length-numeral_loop : (fuel n : ℕ) (acc : Bytes) → 0 < length (numeral_loop fuel 16 n acc)
unfolding numeral_loop
length-numeral_loop zero n acc = omega arith
length-numeral_loop (suc fuel) n acc =
    ground (arith, length-numeral_loop fuel (n / 16) (digit (n % 16) ∷ acc))

length-numeral : (v : ℕ) → 0 < length (numeral 16 v)
unfolding numeral
length-numeral v = length-numeral_loop v v []

zeros :
    (fill : Bool) (k : ℕ)
    → (if fill then replicate {A = ℕ} k b'0' else []) ≡ replicate (if fill then k else 0) b'0'
zeros true k = refl
zeros false k = refl

-- `parse` gives back any number below 2 ^ 64 that `format` wrote, for a number of any width, with zeros in
-- front of it or without, with the prefix or without, and in either case. It takes a stream that reads
-- the number of a text of hexadecimal digits.
pub parse_hex-format :
    (read_hex : Bytes → ℕ) (f : HexNumberFormater) (width v : ℕ)
    → ReadsHex read_hex
    → v < 2 ^ 64
    → parse_hex read_hex (format f width v) ≡ v
unfolding format
parse_hex-format read_hex f width v reads fits =
    rw (format, zeros f.fill_zero (width - length (hex_digits f v)))
      (parse_hex-any read_hex reads (replicate k b'0' ++ hex_digits f v)
          (replicate k b'0' ++ numeral 16 v) lower
          (zeros-IsDigit k (numeral 16 v) (numeral-IsDigit v)) pos (rw value fits) f.use_prefix
        ∙ value)
  where
    k : ℕ
    k = if f.fill_zero then width - length (hex_digits f v) else 0

    value : strtoul_hex 0 (replicate k b'0' ++ numeral 16 v) ≡ v
    value = strtoul_hex-zeros k (numeral 16 v) ∙ strtoul_hex-numeral v

    lower : to_lower (replicate k b'0' ++ hex_digits f v) ≡ replicate k b'0' ++ numeral 16 v
    lower =
        to_lower-zeros k (hex_digits f v)
        ∙ ap (λ s. replicate k b'0' ++ s) (to_lower-hex_digits f v)

    pos : 0 < length (replicate k b'0' ++ numeral 16 v)
    pos = omega (arith, length-append (replicate k b'0') (numeral 16 v), length-numeral v)
