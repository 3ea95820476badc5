-- ===== src/HexText/Digits.antt =====
-- The characters of a hexadecimal text.
use libff.Prelude.{
  ℕ, ◌+◌, ◌/◌, ◌%◌, ◌^◌, ◌≤◌, ◌<◌, ◌≡◌, refl, sym, ap, ◌∙◌, false, some, [], ◌∷◌, ◌++◌, append-nil,
  append_assoc, arith, ◌==◌, length, All, Bytes, IsByte, codes, digit, padded,
}
use libff.Strings.{
  trim, trim_left, trim_right, to_lower, lower_char, is_blank, is_prefix, replace_all,
}
use libff.Strings.Trim.{trim_left-IsTightLeft, trim_right-IsTightRight, IsTightRight}
use libff.Strings.ReplaceAll.{substitute, substitute-none, replace_all_lem}
use libff.Uuid.{strtoul_hex}
use libff.Uuid.Digits.{is_xdigit-digit, strtoul_hex-padded}
use libff.HexFormat.RoundTrip.{ReadsHex, IsDigit, without_prefix-digits}
use libff.HexText.{hex_loop, to_hex_string, lines_from, pairs, parse_line}

-- The digits alone
abbrev pub digits : Bytes → Bytes
digits [] = []
digits (b ∷ bs) = digit (b / 16 % 16) ∷ digit (b % 16) ∷ digits bs

-- The digits with a blank between two bytes
abbrev pub spaced : ℕ → Bytes → Bytes
spaced b [] = digit (b / 16 % 16) ∷ digit (b % 16) ∷ []
spaced b (c ∷ bs) = digit (b / 16 % 16) ∷ digit (b % 16) ∷ b' ' ∷ spaced c bs

digit_facts :
    (n : ℕ)
    → (is_blank (digit (n % 16)) ≡ false)
      × (lower_char (digit (n % 16)) ≡ digit (n % 16))
      × ((b'0' ≤ digit (n % 16)) × (digit (n % 16) ≤ b'f'))
unfolding is_blank lower_char
digit_facts n = ground arith

hex_loop-spaced : (b : ℕ) (bs : Bytes) → hex_loop (codes " ") (b ∷ bs) ≡ spaced b bs ++ b' ' ∷ []
unfolding hex_loop padded
hex_loop-spaced b [] = refl
hex_loop-spaced b (c ∷ bs) =
    ap (λ t. digit (b / 16 % 16) ∷ digit (b % 16) ∷ b' ' ∷ t) (hex_loop-spaced c bs)

-- Where the size is an int
pub to_hex_string-short :
    (separator bs : Bytes) → length bs < 2 ^ 31 → to_hex_string separator bs ≡ hex_loop separator bs
unfolding to_hex_string
to_hex_string-short separator bs h = ground arith

trim_right-blank : (s : Bytes) → trim_right (s ++ b' ' ∷ []) ≡ trim_right s
unfolding trim_right is_blank
trim_right-blank [] = refl
trim_right-blank (c ∷ s) = rw (trim_right-blank s) refl

spaced-IsTightRight : (b : ℕ) (bs : Bytes) → IsTightRight (spaced b bs)
spaced-IsTightRight b [] = (digit_facts b).0
spaced-IsTightRight b (c ∷ []) = (digit_facts c).0
spaced-IsTightRight b (c ∷ d ∷ bs) = spaced-IsTightRight c (d ∷ bs)

trim_left-spaced :
    (b : ℕ) (bs : Bytes) → trim_left (spaced b bs ++ b' ' ∷ []) ≡ spaced b bs ++ b' ' ∷ []
trim_left-spaced b [] = trim_left-IsTightLeft _ (digit_facts (b / 16)).0
trim_left-spaced b (c ∷ bs) = trim_left-IsTightLeft _ (digit_facts (b / 16)).0

pub trim-hex_loop : (b : ℕ) (bs : Bytes) → trim (hex_loop (codes " ") (b ∷ bs)) ≡ spaced b bs
unfolding trim
trim-hex_loop b bs =
    rw (hex_loop-spaced b bs, trim_left-spaced b bs)
      (trim_right-blank (spaced b bs)
        ∙ trim_right-IsTightRight (spaced b bs) (spaced-IsTightRight b bs))

pub to_lower-spaced : (b : ℕ) (bs : Bytes) → to_lower (spaced b bs) ≡ spaced b bs
unfolding to_lower
to_lower-spaced b [] = simp ((digit_facts (b / 16)).1, (digit_facts b).1)
to_lower-spaced b (c ∷ bs) =
    rw ((digit_facts (b / 16)).1, (digit_facts b).1, to_lower-spaced c bs) refl

pub lines_from-one :
    (line s : Bytes) → All (λ c. (c == 10) ≡ false) s → lines_from line s ≡ (line ++ s) ∷ []
unfolding lines_from
lines_from-one line [] h = ap (λ t. t ∷ []) (sym (append-nil line))
lines_from-one line (c ∷ s) h =
    rw (h.0, lines_from)
      (lines_from-one (line ++ c ∷ []) s h.1 ∙ ap (λ t. t ∷ []) (append_assoc line (c ∷ []) s))

pub spaced-lines : (b : ℕ) (bs : Bytes) → All (λ c. (c == 10) ≡ false) (spaced b bs)
spaced-lines b [] = (other (b / 16), (other b, tt))
  where
    other : (n : ℕ) → (digit (n % 16) == 10) ≡ false
    other n = ground arith
spaced-lines b (c ∷ bs) = (other (b / 16), (other b, (refl, spaced-lines c bs)))
  where
    other : (n : ℕ) → (digit (n % 16) == 10) ≡ false
    other n = ground arith

substitute-digit :
    (n : ℕ) (u t : Bytes)
    → substitute (codes " ") [] 0 (digit (n % 16) ∷ u) (digit (n % 16) ∷ t)
      ≡ digit (n % 16) ∷ substitute (codes " ") [] 0 u t
unfolding substitute is_prefix
substitute-digit n u t = rw (different, substitute) refl
  where
    different : (b' ' == digit (n % 16)) ≡ false
    different = ground arith

blank :
    (u : Bytes)
    → substitute (codes " ") [] 0 (b' ' ∷ u) (b' ' ∷ u) ≡ substitute (codes " ") [] 0 u u
unfolding substitute is_prefix
blank u = refl

nothing : substitute (codes " ") [] 0 [] [] ≡ []
unfolding substitute
nothing = refl

substitute-spaced :
    (b : ℕ) (bs : Bytes) → substitute (codes " ") [] 0 (spaced b bs) (spaced b bs) ≡ digits (b ∷ bs)
substitute-spaced b [] =
    substitute-digit (b / 16) _ _
    ∙ ap (λ t. digit (b / 16 % 16) ∷ t)
        (substitute-digit b [] [] ∙ ap (λ t. digit (b % 16) ∷ t) nothing)
substitute-spaced b (c ∷ bs) =
    substitute-digit (b / 16) _ _
    ∙ ap (λ t. digit (b / 16 % 16) ∷ t)
        (substitute-digit b _ _
          ∙ ap (λ t. digit (b % 16) ∷ t) (blank (spaced c bs) ∙ substitute-spaced c bs))

digits-IsDigit : (bs : Bytes) → All IsDigit (digits bs)
digits-IsDigit [] = tt
digits-IsDigit (b ∷ bs) = ((b / 16, refl), ((b, refl), digits-IsDigit bs))

byte_read :
    (read_hex : Bytes → ℕ) (b : ℕ)
    → ReadsHex read_hex
    → IsByte b
    → read_hex (digit (b / 16 % 16) ∷ digit (b % 16) ∷ []) ≡ b
unfolding padded strtoul_hex
byte_read read_hex b h k =
    h (digit (b / 16 % 16) ∷ digit (b % 16) ∷ [])
      (is_xdigit-digit (b / 16), (is_xdigit-digit b, tt)) (omega arith)
      (rw value (omega (arith, k)))
    ∙ value
  where
    value : strtoul_hex 0 (digit (b / 16 % 16) ∷ digit (b % 16) ∷ []) ≡ b
    value = strtoul_hex-padded 2 b [] (omega (arith, k))

pairs-digits :
    (read_hex : Bytes → ℕ) (bs : Bytes)
    → ReadsHex read_hex
    → All IsByte bs
    → pairs read_hex (digits bs) ≡ bs
unfolding pairs
pairs-digits read_hex [] h k = refl
pairs-digits read_hex (b ∷ bs) h k =
    rw (byte_read read_hex b h k.0, pairs-digits read_hex bs h k.1)
      (ap (λ c. c ∷ bs) (omega (arith, k.0)))

-- What `parseLine` makes of the line
pub parse_line-spaced :
    (read_hex : Bytes → ℕ) (b : ℕ) (bs : Bytes)
    → ReadsHex read_hex
    → All IsByte (b ∷ bs)
    → parse_line read_hex (spaced b bs) ≡ some (b ∷ bs)
unfolding parse_line
parse_line-spaced read_hex b bs h k =
    rw (spaces_gone, prefix_kept) (ap some (pairs-digits read_hex (b ∷ bs) h k))
  where
    spaces_gone :
        replace_all (length (spaced b bs) + 1) (spaced b bs) (codes " ") [] false
        ≡ some (digits (b ∷ bs))
    spaces_gone =
        replace_all_lem (length (spaced b bs) + 1) (spaced b bs) (codes " ") [] false (omega arith)
          (omega arith)
        ∙ ap some (substitute-spaced b bs)

    prefix_kept :
        replace_all (length (digits (b ∷ bs)) + 1) (digits (b ∷ bs)) (codes "0x") [] false
        ≡ some (digits (b ∷ bs))
    prefix_kept =
        replace_all_lem (length (digits (b ∷ bs)) + 1) (digits (b ∷ bs)) (codes "0x") [] false
          (omega arith) (omega arith)
        ∙ ap some (
            substitute-none (codes "0x") [] (digits (b ∷ bs)) (digits (b ∷ bs)) refl
              (without_prefix-digits (digits (b ∷ bs)) (digits-IsDigit (b ∷ bs))))
