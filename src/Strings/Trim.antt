-- ===== src/Strings/Trim.antt =====
-- `Trim`.
use libff.Prelude.{
  ℕ, ◌≡◌, refl, ap, ◌∙◌, inl, inr, true, false, [], ◌∷◌, ◌++◌, Bool-cases, All, Bytes,
}
use libff.Strings.{is_blank, trim_left, trim_right, trim}

abbrev pub IsBlank : ℕ → Type 0
IsBlank c = is_blank c ≡ true

-- No blank at the front, and none at the end.
abbrev pub IsTightLeft : Bytes → Type 0
IsTightLeft [] = Unit {0}
IsTightLeft (c ∷ cs) = is_blank c ≡ false

abbrev pub IsTightRight : Bytes → Type 0
IsTightRight [] = Unit {0}
IsTightRight (c ∷ []) = is_blank c ≡ false
IsTightRight (c ∷ d ∷ ds) = IsTightRight (d ∷ ds)

trim_left_lem :
    (s : Bytes) → ((l : Bytes) × (s ≡ l ++ trim_left s) × All IsBlank l) × IsTightLeft (trim_left s)
unfolding trim_left
trim_left_lem [] = (([], refl, tt), tt)
trim_left_lem (c ∷ cs) = elim (Bool-cases (is_blank c)) [
  | inl blank ↦
      let ((l, e, h), tight) = trim_left_lem cs in
      rw blank ((c ∷ l, ap (λ t. c ∷ t) e, (blank, h)), tight)
  | inr solid ↦ rw solid (([], refl, tt), solid)
]

-- What `TrimRight` does with a character in front of a rest that it has trimmed to `t`.
trim_right_next :
    (c : ℕ) (cs t r : Bytes)
    → trim_right cs ≡ t
    → cs ≡ t ++ r
    → All IsBlank r
    → IsTightRight t
    → ((r' : Bytes) × (c ∷ cs ≡ trim_right (c ∷ cs) ++ r') × All IsBlank r')
      × IsTightRight (trim_right (c ∷ cs))
      × (is_blank c ≡ false → IsTightLeft (trim_right (c ∷ cs)))
unfolding trim_right
trim_right_next c cs [] r e split h tight = elim (Bool-cases (is_blank c)) [
  | inl blank ↦ rw (e, blank) ((c ∷ r, ap (λ t. c ∷ t) split, (blank, h)), tt, λ no. tt)
  | inr solid ↦ rw (e, solid) ((r, ap (λ t. c ∷ t) split, h), solid, λ no. solid)
]
trim_right_next c cs (d ∷ ds) r e split h tight =
    rw e ((r, ap (λ t. c ∷ t) split, h), tight, λ no. no)

trim_right_lem :
    (s : Bytes)
    → ((r : Bytes) × (s ≡ trim_right s ++ r) × All IsBlank r) × IsTightRight (trim_right s)
trim_right_lem [] = unfold trim_right in (([], refl, tt), tt)
trim_right_lem (c ∷ cs) =
    let ((r, e, h), tight) = trim_right_lem cs in
    let out = trim_right_next c cs (trim_right cs) r refl e h tight in (out.0, out.1)

-- `TrimRight` does not open the front.
trim_right-IsTightLeft : (s : Bytes) → IsTightLeft s → IsTightLeft (trim_right s)
trim_right-IsTightLeft [] h = unfold trim_right in tt
trim_right-IsTightLeft (c ∷ cs) solid =
    let ((r, e, h), tight) = trim_right_lem cs in
    (trim_right_next c cs (trim_right cs) r refl e h tight).2 solid

-- `Trim` takes blanks (spaces and NULs) off both ends and nothing else, and leaves none there.
pub trim_lem :
    (s : Bytes)
    → ((l : Bytes) × (r : Bytes) × (s ≡ l ++ (trim s ++ r)) × All IsBlank l × All IsBlank r)
      × IsTightLeft (trim s)
      × IsTightRight (trim s)
unfolding trim
trim_lem s =
    let ((l, e, hl), left) = trim_left_lem s in
    let ((r, e', hr), right) = trim_right_lem (trim_left s) in
    ((l, r, e ∙ ap (λ t. l ++ t) e', hl, hr), trim_right-IsTightLeft (trim_left s) left, right)

pub trim_left-IsTightLeft : (s : Bytes) → IsTightLeft s → trim_left s ≡ s
unfolding trim_left
trim_left-IsTightLeft [] h = refl
trim_left-IsTightLeft (c ∷ s) h = rw h refl

pub trim_right-IsTightRight : (s : Bytes) → IsTightRight s → trim_right s ≡ s
unfolding trim_right
trim_right-IsTightRight [] h = refl
trim_right-IsTightRight (c ∷ []) h = rw h refl
trim_right-IsTightRight (c ∷ d ∷ s) h = rw (trim_right-IsTightRight (d ∷ s) h, trim_right) refl

pub trim-IsTight : (s : Bytes) → IsTightLeft s → IsTightRight s → trim s ≡ s
unfolding trim
trim-IsTight s l r = rw (trim_left-IsTightLeft s l) (trim_right-IsTightRight s r)
