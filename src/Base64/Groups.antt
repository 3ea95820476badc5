-- ===== src/Base64/Groups.antt =====
-- One group of three bytes and its four characters.
use libff.Prelude.{
  ℕ, ◌+◌, ◌*◌, ◌/◌, ◌%◌, ◌<◌, ◌≡◌, refl, ap, ◌∙◌, ◌≢◌, ◌||◌, Option, none, some, [], ◌∷◌, arith,
  ◌==◌, if◌then◌else◌, Bytes, same_table, agree_below, bit_and_low4, bit_or_nibbles, bit_and_low2,
  bit_and_low6, bit_and_mid2, bit_or_low2, bit_or_low6,
}
use libff.Base64.{char_of, sextets, triple, fill_buf, find_code}

pub sextets_lem :
    (a b c : ℕ)
    → a < 256
    → b < 256
    → c < 256
    → sextets a b c ≡ a / 4 ∷ (a % 4 * 16 + b / 16) ∷ (b % 16 * 4 + c / 64) ∷ c % 64 ∷ []
unfolding sextets
sextets_lem a b c ha hb hc = rw (
  bit_and_low2 a ha,
  bit_and_low4 b hb,
  bit_and_low6 c hc,
  bit_or_nibbles (a % 4) (b / 16) (omega arith) (omega arith),
  bit_or_low2 (b % 16) (c / 64) (omega arith) (omega arith),
)

pub triple_lem :
    (a b c d : ℕ)
    → a < 64
    → b < 64
    → c < 64
    → d < 64
    → triple a b c d ≡ (a * 4 + b / 16) ∷ (b % 16 * 16 + c / 4) ∷ (c % 4 * 64 + d) ∷ []
unfolding triple
triple_lem a b c d ha hb hc hd = rw (
  bit_and_mid2 b hb,
  bit_and_low4 b (omega arith),
  e₀,
  e₁,
  e₂,
  e₃,
  bit_or_low2 a (b / 16) ha (omega arith),
  bit_or_nibbles (b % 16) (c / 4) (omega arith) (omega arith),
  bit_or_low6 (c % 4) d (omega arith) hd,
)
  where
    e₀ : a * 4 % 256 ≡ a * 4
    e₀ = omega arith

    e₁ : b / 16 * 16 / 16 ≡ b / 16
    e₁ = omega arith

    e₂ : b % 16 * 16 % 256 ≡ b % 16 * 16
    e₂ = omega arith

    e₃ : c * 64 % 256 ≡ c % 4 * 64
    e₃ = omega arith

-- The bytes of a group come back from its sextets.
pub triple-sextets :
    (a b c : ℕ)
    → a < 256
    → b < 256
    → c < 256
    → triple (a / 4) (a % 4 * 16 + b / 16) (b % 16 * 4 + c / 64) (c % 64) ≡ a ∷ b ∷ c ∷ []
triple-sextets a b c ha hb hc =
    triple_lem (a / 4) (a % 4 * 16 + b / 16) (b % 16 * 4 + c / 64) (c % 64) (omega arith)
      (omega arith) (omega arith) (omega arith)
    ∙ ap₃ e₀ e₁ e₂
  where
    ap₃ :
        {x y z x' y' z' : ℕ}
        → x ≡ x'
        → y ≡ y'
        → z ≡ z'
        → ◌≡◌ {A = Bytes} (x ∷ y ∷ z ∷ []) (x' ∷ y' ∷ z' ∷ [])
    ap₃ p q r = cc

    e₀ : a / 4 * 4 + (a % 4 * 16 + b / 16) / 16 ≡ a
    e₀ = omega arith

    e₁ : (a % 4 * 16 + b / 16) % 16 * 16 + (b % 16 * 4 + c / 64) / 4 ≡ b
    e₁ = omega arith

    e₂ : (b % 16 * 4 + c / 64) % 4 * 64 + c % 64 ≡ c
    e₂ = omega arith

abbrev code_or_none : Option ℕ → ℕ
code_or_none none = 64
code_or_none (some m) = m

code_or_none-eq : (o : Option ℕ) (n : ℕ) → n < 64 → code_or_none o ≡ n → o ≡ some n
code_or_none-eq none n h e = absurd (omega arith)
code_or_none-eq (some m) n h e = ap some e

-- `fillBuf` finds the number of each character of the table.
pub fill_buf-char_of : (n : ℕ) → n < 64 → fill_buf (char_of n) ≡ some n
fill_buf-char_of n h = code_or_none-eq _ n h (
    agree_below 64 (λ k. code_or_none (fill_buf (char_of k))) (λ k. k)
      (unfold same_table fill_buf find_code char_of in refl) n h)

abbrev is_flaw : ℕ → ℕ
is_flaw k = if char_of k == 0 || char_of k == b'=' then 1 else 0

-- No character of the table is NUL or `=`.
pub char_of-ne : (n : ℕ) → n < 64 → (char_of n ≢ 0) × (char_of n ≢ b'=')
char_of-ne n h =
    ground (arith, agree_below 64 is_flaw (λ k. 0) (unfold same_table char_of in refl) n h)
