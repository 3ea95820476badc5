-- ===== src/Strings/Search.antt =====
-- Searching: `find` gives the first occurrence.
use libff.Prelude.{
  ℕ, zero, suc, ◌+◌, ◌-◌, ◌≤◌, ◌<◌, ◌≡◌, refl, sym, ap, ◌∙◌, ◌↔◌, Bool, true, false, none, some, [],
  ◌∷◌, ◌++◌, arith, length, Option-cases, inl, inr, ◌^◌, take, drop, length-append,
  take-append-drop, length-drop, take-length_append, drop-length_append, drop-drop, length-map,
  Bytes,
}
use libff.Strings.{
  as_int, to_lower, lower_char, is_prefix, find, bytes_eq, starts_with, ends_with, index_of, folded,
}

pub is_prefix-append : (f t : Bytes) → is_prefix f (f ++ t) ≡ true
unfolding is_prefix
is_prefix-append [] t = refl
is_prefix-append (x ∷ f) t = ground (arith, is_prefix-append f t)

pub is_prefix-eq : (f s : Bytes) → is_prefix f s ≡ true → s ≡ f ++ drop (length f) s
unfolding is_prefix
is_prefix-eq [] s h = refl
is_prefix-eq (x ∷ f) [] h = cc
is_prefix-eq (x ∷ f) (y ∷ s) h = ground (arith, is_prefix-eq f s)

pub is_prefix-length : (f s : Bytes) → is_prefix f s ≡ true → length f ≤ length s
is_prefix-length f s h =
    omega (arith, ap length (is_prefix-eq f s h), length-append f (drop (length f) s))

pub bytes_eq_iff : (a b : Bytes) → (bytes_eq a b ≡ true) ↔ (a ≡ b)
unfolding bytes_eq
bytes_eq_iff [] [] = (λ h. refl, λ h. refl)
bytes_eq_iff [] (y ∷ b) = (λ h. cc, λ h. cc)
bytes_eq_iff (x ∷ a) [] = (λ h. cc, λ h. cc)
bytes_eq_iff (x ∷ a) (y ∷ b) =
    (λ h. ground (arith, (bytes_eq_iff a b).0), λ h. ground (arith, (bytes_eq_iff a b).1))

pub find-some :
    (f s : Bytes) (i : ℕ) → find f s ≡ some i → (is_prefix f (drop i s) ≡ true) × (i ≤ length s)
unfolding find
find-some f [] zero h = ground arith
find-some f [] (suc i) h = ground arith
find-some f (c ∷ s) zero h = ground arith
find-some f (c ∷ s) (suc i) h = ground (arith, find-some f s i)

-- An occurrence fits the text.
pub find_room : (f s : Bytes) (i : ℕ) → find f s ≡ some i → i + length f ≤ length s
find_room f s i h = omega (
  arith,
  (find-some f s i h).1,
  is_prefix-length f (drop i s) ((find-some f s i h).0),
  length-drop i s,
)

pub find_first :
    (f s : Bytes) (i j : ℕ) → find f s ≡ some i → j < i → is_prefix f (drop j s) ≡ false
unfolding find
find_first f [] i j h l = ground arith
find_first f (c ∷ s) zero j h l = absurd (omega arith)
find_first f (c ∷ s) (suc i) zero h l = ground arith
find_first f (c ∷ s) (suc i) (suc j) h l = ground (arith, find_first f s i j)

pub find-none :
    (f s : Bytes) (j : ℕ) → find f s ≡ none → j ≤ length s → is_prefix f (drop j s) ≡ false
unfolding find
find-none f [] zero h l = ground arith
find-none f [] (suc j) h l = absurd (omega arith)
find-none f (c ∷ s) zero h l = ground arith
find-none f (c ∷ s) (suc j) h l = ground (arith, find-none f s j)

pub as_int-find : (f s : Bytes) → length s < 2 ^ 31 → as_int (find f s) ≡ find f s
as_int-find f s small = elim (Option-cases (find f s)) [
  | inl e ↦ rw e refl
  | inr (i, e) ↦ rw e (ground (arith, (find-some f s i e).1))
]

length-folded : (ignore_case : Bool) (s : Bytes) → length (folded ignore_case s) ≡ length s
unfolding to_lower
length-folded true s = length-map s lower_char
length-folded false s = refl

-- The position that `IndexOf` gives is a place at which the text stands, upper and lower case being the
-- same under `ignoreCase`, and the text stands nowhere before it.
pub index_of-found :
    (src f : Bytes) (ignore_case : Bool) (i : ℕ)
    → length src < 2 ^ 31
    → index_of src f ignore_case ≡ some i
    → let s = folded ignore_case src in
      let g = folded ignore_case f in
      (s ≡ take i s ++ (g ++ drop (i + length g) s))
      × ((j : ℕ) → j < i → is_prefix g (drop j s) ≡ false)
unfolding index_of
index_of-found src f ignore_case i small h' =
    let s = folded ignore_case src in
    let g = folded ignore_case f in
    let h : find g s ≡ some i =
      sym (as_int-find g s (ground (arith, length-folded ignore_case src))) ∙ h' in
    (
      sym (take-append-drop i s)
          ∙ ap (λ u. take i s ++ u)
              (is_prefix-eq g (drop i s) ((find-some g s i h).0)
                ∙ ap (λ u. g ++ u) (drop-drop (length g) i s)),
      λ j l. find_first g s i j h l,
    )

-- Where `IndexOf` gives -1 for a text shorter than 2^31, the other stands at no place, upper and lower case being the same under
-- `ignoreCase`.
pub index_of-missing :
    (src f : Bytes) (ignore_case : Bool) (j : ℕ)
    → length src < 2 ^ 31
    → index_of src f ignore_case ≡ none
    → j ≤ length src
    → is_prefix (folded ignore_case f) (drop j (folded ignore_case src)) ≡ false
unfolding index_of
index_of-missing src f ignore_case j small h l =
    find-none (folded ignore_case f) (folded ignore_case src) j
      (sym (
          as_int-find (folded ignore_case f) (folded ignore_case src)
            (ground (arith, length-folded ignore_case src)))
        ∙ h)
      (ground (arith, length-folded ignore_case src))

-- `StartsWith` answers true exactly for the texts that begin with the one searched for.
pub starts_with_iff :
    (src f : Bytes) → (starts_with src f false ≡ true) ↔ (src ≡ f ++ drop (length f) src)
unfolding starts_with
starts_with_iff src f = (
  λ h.
      sym (take-append-drop (length f) src)
      ∙ ap (λ u. u ++ drop (length f) src)
          (ground (arith, (bytes_eq_iff (take (length f) src) f).0)),
  λ e. ground (
    arith,
    ap length e,
    length-append f (drop (length f) src),
    ap (take (length f)) e,
    take-length_append f (drop (length f) src),
    (bytes_eq_iff (take (length f) src) f).1,
  ),
)

-- `EndsWith` answers true exactly for the texts that end in it.
pub ends_with_iff :
    (src f : Bytes) → (ends_with src f false ≡ true) ↔ ((t : Bytes) × (src ≡ t ++ f))
unfolding ends_with
ends_with_iff src f = (
  λ h. (
    take (length src - length f) src,
    sym (take-append-drop (length src - length f) src)
        ∙ ap (λ u. take (length src - length f) src ++ u)
            (ground (arith, (bytes_eq_iff (drop (length src - length f) src) f).0)),
  ),
  λ (t, e). ground (
    arith,
    ap length e,
    length-append t f,
    ap (drop (length t)) e,
    drop-length_append t f,
    (bytes_eq_iff (drop (length src - length f) src) f).1,
  ),
)
