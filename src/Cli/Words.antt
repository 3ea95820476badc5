-- ===== src/Cli/Words.antt =====
-- The words of a command line, and what `trim` and the skipping leave alone.
use libff.Prelude.{ℕ, ◌≡◌, refl, ap, ◌≢◌, true, false, none, some, [], ◌∷◌, ◌++◌, arith, All, Bytes}
use libff.Strings.{is_space, is_blank, trim, trim_left, trim_right}
use libff.Cli.{is_valid_char, until_nul, skip_spaces, take_word, without_semicolon}

pub valid_IsSolid : (c : ℕ) → is_valid_char c ≡ true → (is_blank c ≡ false) × (is_space c ≡ false)
unfolding is_valid_char is_blank
valid_IsSolid c h = ground arith

pub solid_space : (c : ℕ) → is_blank c ≡ false → is_space c ≡ false
unfolding is_blank
solid_space c h = ground arith

-- Nothing follows, or a space.
abbrev pub Ends : Bytes → Type 0
Ends [] = Unit {0}
Ends (c ∷ cs) = is_space c ≡ true

take_word-Ends : (rest : Bytes) → Ends rest → take_word rest ≡ some ([], rest)
unfolding take_word
take_word-Ends [] h = refl
take_word-Ends (c ∷ cs) h = rw h refl

pub take_word-append :
    (word rest : Bytes)
    → All (λ c. is_valid_char c ≡ true) word
    → Ends rest
    → take_word (word ++ rest) ≡ some (word, rest)
unfolding take_word
take_word-append [] rest h e = take_word-Ends rest e
take_word-append (c ∷ cs) rest h e =
    rw ((valid_IsSolid c h.0).1, h.0, take_word-append cs rest h.1 e) refl

-- Before the first equals sign there is no space: this is no object.
pub take_word-name :
    (name rest : Bytes)
    → All (λ c. is_blank c ≡ false) name
    → take_word (name ++ b'=' ∷ rest) ≡ none
unfolding take_word
take_word-name [] rest h = refl
take_word-name (c ∷ cs) rest h = rw (solid_space c h.0, take_word-name cs rest h.1) (ground arith)

pub until_nul_lem : (s : Bytes) → All (λ c. c ≢ 0) s → until_nul s ≡ s
unfolding until_nul
until_nul_lem [] h = refl
until_nul_lem (c ∷ cs) h = ground (arith, h.0, until_nul_lem cs h.1)

pub skip_spaces_solid : (c : ℕ) (s : Bytes) → is_space c ≡ false → skip_spaces (c ∷ s) ≡ c ∷ s
unfolding skip_spaces
skip_spaces_solid c s h = rw h refl

trim_right_cons :
    (c : ℕ) (s : Bytes) (d : ℕ) (ds : Bytes)
    → trim_right s ≡ d ∷ ds
    → trim_right (c ∷ s) ≡ c ∷ d ∷ ds
unfolding trim_right
trim_right_cons c s d ds h = rw h refl

trim_right-snoc : (s : Bytes) (d : ℕ) → is_blank d ≡ false → trim_right (s ++ d ∷ []) ≡ s ++ d ∷ []
trim_right-snoc [] d h = unfold trim_right in rw h refl
trim_right-snoc (c ∷ []) d h = trim_right_cons c (d ∷ []) d [] (trim_right-snoc [] d h)
trim_right-snoc (c ∷ e ∷ s) d h =
    trim_right_cons c (e ∷ (s ++ d ∷ [])) e (s ++ d ∷ []) (trim_right-snoc (e ∷ s) d h)

-- A text between two characters that are no blanks
pub trim-tight :
    (c : ℕ) (s : Bytes) (d : ℕ)
    → is_blank c ≡ false
    → is_blank d ≡ false
    → trim (c ∷ (s ++ d ∷ [])) ≡ c ∷ (s ++ d ∷ [])
unfolding trim trim_left
trim-tight c s d hc hd = rw hc (trim_right-snoc (c ∷ s) d hd)

trim_left-solid : (s : Bytes) → All (λ c. is_blank c ≡ false) s → trim_left s ≡ s
unfolding trim_left
trim_left-solid [] h = refl
trim_left-solid (c ∷ s) h = rw (h.0) refl

trim_right-solid : (s : Bytes) → All (λ c. is_blank c ≡ false) s → trim_right s ≡ s
unfolding trim_right
trim_right-solid [] h = refl
trim_right-solid (c ∷ []) h = rw (h.0) refl
trim_right-solid (c ∷ d ∷ s) h = rw (trim_right-solid (d ∷ s) h.1) refl

pub trim-solid : (s : Bytes) → All (λ c. is_blank c ≡ false) s → trim s ≡ s
unfolding trim
trim-solid s h = rw (trim_left-solid s h) (trim_right-solid s h)

pub without_semicolon-snoc : (s : Bytes) → without_semicolon (s ++ b';' ∷ []) ≡ s
unfolding without_semicolon
without_semicolon-snoc [] = refl
without_semicolon-snoc (c ∷ []) = refl
without_semicolon-snoc (c ∷ d ∷ s) = ap (λ t. c ∷ t) (without_semicolon-snoc (d ∷ s))
