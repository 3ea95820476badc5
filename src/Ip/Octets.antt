-- ===== src/Ip/Octets.antt =====
-- The texts of four numbers.
use libff.Prelude.{
  ℕ, zero, suc, ◌+◌, ◌-◌, ◌*◌, ◌/◌, ◌%◌, ◌≤◌, ◌<◌, ◌≡◌, refl, sym, ap, ◌∙◌, Bool, true, false, [],
  ◌∷◌, ◌++◌, arith, ◌==◌, lt→ltb, le→ltb, length, All, Bytes, digit, numeral_loop, numeral,
}
use native.Mathlib.Decide.{dec_lt}
use mathlib.Core.Path.{subst}
use libff.Ip.{is_digit, check_v4, read_tokens}

-- The number of a text of digits, behind one that was read
unfoldable pub value : ℕ → Bytes → ℕ
value n [] = n
value n (c ∷ cs) = value (n * 10 + c - b'0') cs

-- One to three digits that stand for `n`
pub record IsToken (n : ℕ) (s : Bytes) : Type 0 where
  pub digits : All (λ c. is_digit c ≡ true) s
  pub some_digits : 0 < length s
  pub few_digits : length s ≤ 3
  pub number : value 0 s ≡ n

digit_loop : (fuel n : ℕ) (acc : Bytes) → n < 10 → numeral_loop fuel 10 n acc ≡ digit n ∷ acc
unfolding numeral_loop
digit_loop zero n acc h = refl
digit_loop (suc fuel) n acc h = rw (lt→ltb n 10 h) refl

loop_step :
    (fuel n : ℕ) (acc : Bytes)
    → 0 < fuel
    → 10 ≤ n
    → numeral_loop fuel 10 n acc ≡ numeral_loop (fuel - 1) 10 (n / 10) (digit (n % 10) ∷ acc)
unfolding numeral_loop
loop_step zero n acc pos h = absurd (omega arith)
loop_step (suc fuel) n acc pos h =
    rw (le→ltb n 10 h) (ap (λ k. numeral_loop k 10 (n / 10) (digit (n % 10) ∷ acc)) (omega arith))

is_digit-digit : (n : ℕ) → n < 10 → is_digit (digit n) ≡ true
unfolding is_digit
is_digit-digit n h = ground arith

digit_small : (n : ℕ) → n < 10 → digit n ≡ b'0' + n
digit_small n h = ground arith

one_digit : (n : ℕ) → n < 10 → IsToken n (digit n ∷ [])
unfolding value
one_digit n h = record {
  digits = (is_digit-digit n h, tt);
  some_digits = omega arith;
  few_digits = omega arith;
  number = omega (arith, digit_small n h);
}

two_digits : (n : ℕ) → n < 100 → IsToken n (digit (n / 10) ∷ digit (n % 10) ∷ [])
unfolding value
two_digits n h = record {
  digits =
      (is_digit-digit (n / 10) (omega (arith, h)), (is_digit-digit (n % 10) (omega arith), tt));
  some_digits = omega arith;
  few_digits = omega arith;
  number =
      omega (arith, digit_small (n / 10) (omega (arith, h)), digit_small (n % 10) (omega arith));
}

three_digits :
    (n : ℕ) → n < 1000 → IsToken n (digit (n / 10 / 10) ∷ digit (n / 10 % 10) ∷ digit (n % 10) ∷ [])
unfolding value
three_digits n h = record {
  digits = (
    is_digit-digit (n / 10 / 10) (omega (arith, h)),
    (is_digit-digit (n / 10 % 10) (omega arith), (is_digit-digit (n % 10) (omega arith), tt)),
  );
  some_digits = omega arith;
  few_digits = omega arith;
  number = omega (
    arith,
    digit_small (n / 10 / 10) (omega (arith, h)),
    digit_small (n / 10 % 10) (omega arith),
    digit_small (n % 10) (omega arith),
  );
}

pub numeral-IsToken : (n : ℕ) → n < 256 → IsToken n (numeral 10 n)
unfolding numeral
numeral-IsToken n h = elim (dec_lt n 10) [
  | yes one ↦ subst (IsToken n) (sym (digit_loop n n [] one)) (one_digit n one)
  | no ten ↦ elim (dec_lt n 100) [
    | yes two ↦
        subst (IsToken n)
          (sym (
            loop_step n n [] (omega arith) (omega arith)
            ∙ digit_loop (n - 1) (n / 10) _ (omega arith)))
          (two_digits n two)
    | no hundred ↦
        subst (IsToken n)
          (sym (
            loop_step n n [] (omega arith) (omega arith)
            ∙ (loop_step (n - 1) (n / 10) (digit (n % 10) ∷ []) (omega arith) (omega arith)
                ∙ digit_loop (n - 1 - 1) (n / 10 / 10) (digit (n / 10 % 10) ∷ digit (n % 10) ∷ [])
                    (omega (arith, h)))))
          (three_digits n (omega (arith, h)))
  ]
]

not_dot : (c : ℕ) → is_digit c ≡ true → (c == b'.') ≡ false
unfolding is_digit
not_dot c h = ground arith

pub check_v4-token :
    (s rest : Bytes) (dots : ℕ) (last : Bool)
    → All (λ c. is_digit c ≡ true) s
    → 0 < length s
    → check_v4 dots last (s ++ rest) ≡ check_v4 dots false rest
unfolding check_v4
check_v4-token [] rest dots last h pos = absurd (omega arith)
check_v4-token (c ∷ []) rest dots last h pos = rw (not_dot c h.0, h.0) refl
check_v4-token (c ∷ d ∷ s) rest dots last h pos =
    rw (not_dot c h.0, h.0) (check_v4-token (d ∷ s) rest dots false h.1 (omega arith))

pub read_tokens-digits :
    (s rest : Bytes) (n k : ℕ)
    → All (λ c. is_digit c ≡ true) s
    → read_tokens n k (s ++ rest) ≡ read_tokens (value n s) (k + length s) rest
unfolding read_tokens value
read_tokens-digits [] rest n k h = ap (λ j. read_tokens n j rest) (omega arith)
read_tokens-digits (c ∷ s) rest n k h = rw (not_dot c h.0) (
    read_tokens-digits s rest (n * 10 + c - b'0') (k + 1) h.1
    ∙ ap (λ j. read_tokens (value (n * 10 + c - b'0') s) j rest) (omega arith))
