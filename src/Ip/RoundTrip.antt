-- ===== src/Ip/RoundTrip.antt =====
-- `parseV4` of what `toString` gives.
use libff.Prelude.{
  ℕ, ◌+◌, ◌≤◌, ◌<◌, ◌≡◌, refl, sym, ap, ◌∙◌, ◌≢◌, Bool, true, false, [], ◌∷◌, ◌++◌, append-nil,
  arith, ◌==◌, le→ltb, length, replicate, All, length-append, Bytes, numeral,
}
use libff.Strings.{is_blank}
use libff.Cli.Words.{trim-solid, until_nul_lem}
use libff.Ip.{Ip, v4, is_digit, check_v4, add_token, read_tokens, parse_v4, dotted, ip_text}
use libff.Ip.Octets.{IsToken, numeral-IsToken, check_v4-token, read_tokens-digits}

add_token_lem :
    (n k : ℕ) (rest : Bool × Bytes) → n < 256 → k ≤ 3 → add_token n k rest ≡ (rest.0, n ∷ rest.1)
add_token_lem n k rest h few = rw (le→ltb 3 k few, le→ltb 255 n (omega (arith, h))) refl

read_tokens-dot :
    (n : ℕ) (s rest : Bytes)
    → IsToken n s
    → n < 256
    → read_tokens 0 0 (s ++ b'.' ∷ rest) ≡ ((read_tokens 0 0 rest).0, n ∷ (read_tokens 0 0 rest).1)
unfolding read_tokens
read_tokens-dot n s rest t h =
    read_tokens-digits s (b'.' ∷ rest) 0 0 t.digits
    ∙ rw t.number
        (add_token_lem n (0 + length s) (read_tokens 0 0 rest) h (omega (arith, t.few_digits)))

read_tokens-end : (n : ℕ) (s : Bytes) → IsToken n s → n < 256 → read_tokens 0 0 s ≡ (true, n ∷ [])
unfolding read_tokens
read_tokens-end n s t h =
    ap (read_tokens 0 0) (sym (append-nil s))
    ∙ (read_tokens-digits s [] 0 0 t.digits
        ∙ rw t.number (add_token_lem n (0 + length s) (true, []) h (omega (arith, t.few_digits))))

-- What `trim` and `c_str` leave alone
abbrev IsPlain : ℕ → Type 0
IsPlain c = (is_blank c ≡ false) × (c ≢ 0)

digits-IsPlain : (s : Bytes) → All (λ c. is_digit c ≡ true) s → All IsPlain s
digits-IsPlain [] h = tt
digits-IsPlain (c ∷ s) h = (plain c h.0, digits-IsPlain s h.1)
  where
    plain : (c : ℕ) → is_digit c ≡ true → IsPlain c
    plain c h = unfold is_digit in unfold is_blank in ground arith

dot-IsPlain : (s rest : Bytes) → All IsPlain s → All IsPlain rest → All IsPlain (s ++ b'.' ∷ rest)
dot-IsPlain [] rest h k = ((unfold is_blank in refl, λ e. omega arith), k)
dot-IsPlain (c ∷ s) rest h k = (h.0, dot-IsPlain s rest h.1 k)

plain-solid : (s : Bytes) → All IsPlain s → All (λ c. is_blank c ≡ false) s
plain-solid [] h = tt
plain-solid (c ∷ s) h = (h.0.0, plain-solid s h.1)

plain-nonzero : (s : Bytes) → All IsPlain s → All (λ c. c ≢ 0) s
plain-nonzero [] h = tt
plain-nonzero (c ∷ s) h = (h.0.1, plain-nonzero s h.1)

module _ (a b c d : ℕ) (s t u v : Bytes) (hs : IsToken a s) (ht : IsToken b t) (hu : IsToken c u)
    (hv : IsToken d v) where
  abbrev four : Bytes
  four = s ++ b'.' ∷ (t ++ b'.' ∷ (u ++ b'.' ∷ v))

  four-IsPlain : All IsPlain four
  four-IsPlain = dot-IsPlain s _ (digits-IsPlain s hs.digits) (
      dot-IsPlain t _ (digits-IsPlain t ht.digits)
        (dot-IsPlain u v (digits-IsPlain u hu.digits) (digits-IsPlain v hv.digits)))

  length-four : length four ≡ length s + length t + length u + length v + 3
  length-four = omega (
    arith,
    length-append s (b'.' ∷ (t ++ b'.' ∷ (u ++ b'.' ∷ v))),
    length-append t (b'.' ∷ (u ++ b'.' ∷ v)),
    length-append u (b'.' ∷ v),
  )

  check_v4-four : check_v4 0 true four ≡ true
  unfolding check_v4
  check_v4-four =
      check_v4-token s (b'.' ∷ (t ++ b'.' ∷ (u ++ b'.' ∷ v))) 0 true hs.digits hs.some_digits
      ∙ (check_v4-token t (b'.' ∷ (u ++ b'.' ∷ v)) 1 true ht.digits ht.some_digits
          ∙ (check_v4-token u (b'.' ∷ v) 2 true hu.digits hu.some_digits
              ∙ (ap (check_v4 3 true) (sym (append-nil v))
                  ∙ check_v4-token v [] 3 true hv.digits hv.some_digits)))

  read_tokens-four :
      (a < 256) × (b < 256) × (c < 256) × (d < 256)
      → read_tokens 0 0 four ≡ (true, a ∷ b ∷ c ∷ d ∷ [])
  read_tokens-four h =
      rw
        (
          read_tokens-dot a s (t ++ b'.' ∷ (u ++ b'.' ∷ v)) hs h.0,
          read_tokens-dot b t (u ++ b'.' ∷ v) ht h.1,
          read_tokens-dot c u v hu h.2,
          read_tokens-end d v hv h.3,
        )
        refl

  parse_v4-four :
      (a < 256) × (b < 256) × (c < 256) × (d < 256)
      → parse_v4 four
        ≡ (true, record { version = v4; addr_buffer = a ∷ b ∷ c ∷ d ∷ replicate 28 0 })
  unfolding parse_v4
  parse_v4-four h =
      rw
        (
          parse_v4,
          trim-solid four (plain-solid four four-IsPlain),
          until_nul_lem four (plain-nonzero four four-IsPlain),
          check_v4-four,
          read_tokens-four h,
          not_empty,
          le→ltb 15 (length four) (
              omega
                (arith, length-four, hs.few_digits, ht.few_digits, hu.few_digits, hv.few_digits)),
        )
        refl
    where
      not_empty : (length four == 0) ≡ false
      not_empty = ground (arith, length-four)

abbrev pub v4_address : ℕ → ℕ → ℕ → ℕ → Ip
v4_address a b c d = record { version = v4; addr_buffer = a ∷ b ∷ c ∷ d ∷ replicate 28 0 }

-- `parseV4` gives back every address of version 4 that `toString` printed.
pub parse_v4-ip_text :
    (a b c d : ℕ)
    → a < 256
    → b < 256
    → c < 256
    → d < 256
    → parse_v4 (ip_text (v4_address a b c d)) ≡ (true, v4_address a b c d)
unfolding ip_text dotted
parse_v4-ip_text a b c d ha hb hc hd =
    parse_v4-four a b c d (numeral 10 a) (numeral 10 b) (numeral 10 c) (numeral 10 d)
      (numeral-IsToken a ha) (numeral-IsToken b hb) (numeral-IsToken c hc) (numeral-IsToken d hd)
      (ha, hb, hc, hd)
