-- ===== src/Strings/Split.antt =====
-- `Split` against a relation between a text and its pieces.
use libff.Prelude.{
  ℕ, zero, suc, ◌+◌, ◌≤◌, ◌<◌, ◌≡◌, refl, sym, ap, ◌∙◌, ◌≢◌, ◌⊎◌, inl, inr, true, false, none, some,
  List, [], ◌∷◌, ◌++◌, append-nil, append_assoc, arith, Option-cases, Option, ◌-◌, ◌^◌, length-take,
  length, take, drop, take-append-drop, length-drop, drop-drop, drop_pos, Bytes, Returns,
  Returns_weaken,
}
use libff.Strings.{
  is_prefix, find, Delimiter, is_any_of, is_string_of, has_char, find_any, delimiter_find,
  delimiter_size, StringCompressType, with_empty_string, pushed, split_loop, split, join,
}
use libff.Strings.Search.{
  as_int-find, is_prefix-append, is_prefix-eq, find-some, find_room, find_first, find-none,
}

-- A text that a delimiter stands for.
abbrev pub IsSeparator : Delimiter → Bytes → Type 0
IsSeparator (is_any_of cs) sep = (c : ℕ) × (sep ≡ c ∷ []) × (has_char cs c ≡ true)
IsSeparator (is_string_of d) sep = sep ≡ d

-- No separator starts at one of the first `n` places.
abbrev pub NoneBefore : Delimiter → Bytes → ℕ → Type 0
NoneBefore d s n = (i : ℕ) (sep rest : Bytes) → i < n → IsSeparator d sep → drop i s ≢ sep ++ rest

-- The pieces of a text: each ends at the first separator after its start, and what follows the last
-- separator is a piece, unless it is empty, and is pushed as it is.
pub data Splits (d : Delimiter) (type : StringCompressType) : Bytes → List Bytes → Type 0 where
  empty : Splits d type [] []
  last : (s : Bytes) → 0 < length s → NoneBefore d s (length s) → Splits d type s (s ∷ [])
  more :
      (s piece sep rest : Bytes) (ps out : List Bytes)
      → s ≡ piece ++ (sep ++ rest)
      → out ≡ pushed type piece ++ ps
      → NoneBefore d s (length piece)
      → IsSeparator d sep
      → Splits d type rest ps
      → Splits d type s out

-- What `Find` finds, before it becomes an int
abbrev found : Delimiter → Bytes → Option ℕ
found (is_any_of cs) s = find_any cs s
found (is_string_of f) s = find f s

find_any_lem :
    (cs s : Bytes) (i : ℕ)
    → find_any cs s ≡ some i
    → ((c : ℕ) × (drop i s ≡ c ∷ drop (i + 1) s) × (has_char cs c ≡ true)) × (i + 1 ≤ length s)
unfolding find_any
find_any_lem cs [] i h = cc
find_any_lem cs (c ∷ s) zero h = ((c, refl, ground arith), omega arith)
find_any_lem cs (c ∷ s) (suc i) h =
    let ((x, e, hx), room) = find_any_lem cs s i (ground arith) in
    ((x, e ∙ ap (λ t. x ∷ t) (sym (later i c s)), hx), omega arith)
  where
    later : (i c : ℕ) (s : Bytes) → drop (suc i + 1) (c ∷ s) ≡ drop (i + 1) s
    later i c s = drop_pos (suc i + 1) c s (omega arith) ∙ ap (λ k. drop k s) (omega arith)

find_any-none :
    (cs s : Bytes) (i c : ℕ) (rest : Bytes)
    → find_any cs s ≡ none
    → drop i s ≡ c ∷ rest
    → has_char cs c ≡ false
unfolding find_any
find_any-none cs [] zero c rest h e = cc
find_any-none cs [] (suc i) c rest h e = cc
find_any-none cs (x ∷ s) zero c rest h e = ground arith
find_any-none cs (x ∷ s) (suc i) c rest h e = ground (arith, find_any-none cs s i c rest)

find_any-first :
    (cs s : Bytes) (k i c : ℕ) (rest : Bytes)
    → find_any cs s ≡ some k
    → i < k
    → drop i s ≡ c ∷ rest
    → has_char cs c ≡ false
unfolding find_any
find_any-first cs [] k i c rest h l e = cc
find_any-first cs (x ∷ s) zero i c rest h l e = absurd (omega arith)
find_any-first cs (x ∷ s) (suc k) zero c rest h l e = ground arith
find_any-first cs (x ∷ s) (suc k) (suc i) c rest h l e =
    ground (arith, find_any-first cs s k i c rest)

found-first : (d : Delimiter) (s : Bytes) (k : ℕ) → found d s ≡ some k → NoneBefore d s k
found-first (is_any_of cs) s k h i sep rest l (c, e, hc) at =
    cc (hc, find_any-first cs s k i c rest h l (at ∙ ap (λ t. t ++ rest) e))
found-first (is_string_of f) s k h i sep rest l e at =
    cc (
      find_first f s k i h l,
      ap (is_prefix f) (at ∙ ap (λ t. t ++ rest) e),
      is_prefix-append f rest,
    )

found-none : (d : Delimiter) (s : Bytes) → found d s ≡ none → NoneBefore d s (length s)
found-none (is_any_of cs) s h i sep rest l (c, e, hc) at =
    cc (hc, find_any-none cs s i c rest h (at ∙ ap (λ t. t ++ rest) e))
found-none (is_string_of f) s h i sep rest l e at = cc (
  find-none f s i h (omega (arith, l)),
  ap (is_prefix f) (at ∙ ap (λ t. t ++ rest) e),
  is_prefix-append f rest,
)

delimiter_find-found :
    (d : Delimiter) (s : Bytes) → length s < 2 ^ 31 → delimiter_find d s ≡ found d s
unfolding delimiter_find
delimiter_find-found (is_any_of cs) s small = elim (Option-cases (find_any cs s)) [
  | inl e ↦ rw e refl
  | inr (i, e) ↦ rw e (ground (arith, (find_any_lem cs s i e).1))
]
delimiter_find-found (is_string_of f) s small = as_int-find f s small

-- Where a delimiter is found, it is a separator.
delimiter_cut :
    (d : Delimiter) (s : Bytes) (i : ℕ)
    → found d s ≡ some i
    → ((sep : Bytes) × (drop i s ≡ sep ++ drop (i + delimiter_size d) s) × IsSeparator d sep)
      × (i + delimiter_size d ≤ length s)
unfolding delimiter_size
delimiter_cut (is_any_of cs) s i h =
    let ((c, e, hc), room) = find_any_lem cs s i h in ((c ∷ [], e, (c, refl, hc)), room)
delimiter_cut (is_string_of f) s i h = (
  (
    f,
    is_prefix-eq f (drop i s) ((find-some f s i h).0) ∙ ap (λ t. f ++ t) (drop-drop (length f) i s),
    refl,
  ),
  find_room f s i h,
)

split_loop-none :
    (fuel : ℕ) (d : Delimiter) (type : StringCompressType) (c : ℕ) (s : Bytes) (texts : List Bytes)
    → delimiter_find d (c ∷ s) ≡ none
    → split_loop (suc fuel) d type (c ∷ s) texts ≡ some (texts ++ (c ∷ s) ∷ [])
unfolding split_loop
split_loop-none fuel d type c s texts h = ground arith

split_loop-some :
    (fuel : ℕ) (d : Delimiter) (type : StringCompressType) (c i : ℕ) (s : Bytes)
    (texts : List Bytes)
    → delimiter_find d (c ∷ s) ≡ some i
    → i + delimiter_size d < 2 ^ 31
    → split_loop (suc fuel) d type (c ∷ s) texts
      ≡ split_loop fuel d type
          (drop (i + delimiter_size d) (c ∷ s))
          (texts ++ pushed type (take i (c ∷ s)))
unfolding split_loop
split_loop-some fuel d type c i s texts h small = ground arith

split_loop_lem :
    (fuel : ℕ) (d : Delimiter) (type : StringCompressType) (s : Bytes) (texts : List Bytes)
    → 0 < delimiter_size d
    → length s < 2 ^ 31
    → length s ≤ fuel
    → Returns
        (split_loop fuel d type s texts)
        (λ out. (ps : List Bytes) × (out ≡ texts ++ ps) × Splits d type s ps)
split_loop_lem zero d type [] texts p small enough =
    unfold split_loop in ([], sym (append-nil texts), empty)
split_loop_lem (suc fuel) d type [] texts p small enough =
    unfold split_loop in ([], sym (append-nil texts), empty)
split_loop_lem zero d type (c ∷ s) texts p small enough = absurd (omega arith)
split_loop_lem (suc fuel) d type (c ∷ s) texts p small enough =
    elim (Option-cases (found d (c ∷ s))) [
      | inl h ↦
          rw (split_loop-none fuel d type c s texts (delimiter_find-found d (c ∷ s) small ∙ h))
            ((c ∷ s) ∷ [], refl, last (c ∷ s) (omega arith) (found-none d (c ∷ s) h))
      | inr (i, h) ↦
          let ((sep, e, is_sep), room) = delimiter_cut d (c ∷ s) i h in
          let piece : Bytes = take i (c ∷ s) in
          let rest : Bytes = drop (i + delimiter_size d) (c ∷ s) in
          let left : length rest ≡ length (c ∷ s) - (i + delimiter_size d) =
            length-drop (i + delimiter_size d) (c ∷ s) in
          let place : i ≡ length piece = omega (arith, length-take i (c ∷ s), room) in
          rw
            (split_loop-some fuel d type c i s texts (delimiter_find-found d (c ∷ s) small ∙ h)
              (omega (arith, room, small)))
            (Returns_weaken _ _ (split_loop fuel d type rest (texts ++ pushed type piece))
              (split_loop_lem fuel d type rest (texts ++ pushed type piece) p
                (omega (arith, left, small)) (omega (arith, left, enough, p)))
              (λ out (ps, eq, parts). (
                pushed type piece ++ ps,
                eq ∙ append_assoc texts (pushed type piece) ps,
                more (c ∷ s) piece sep rest ps (pushed type piece ++ ps)
                    (sym (take-append-drop i (c ∷ s)) ∙ ap (λ t. piece ++ t) e) refl
                    (λ k sep rest l. found-first d (c ∷ s) i h k sep rest (omega (arith, l, place)))
                    is_sep parts,
              )))
    ]

-- With a delimiter of at least one character `Split` of a text shorter than 2^31 ends, in at most one
-- round for each character of the text, and gives the pieces of the text.
pub split_lem :
    (fuel : ℕ) (text : Bytes) (d : Delimiter) (type : StringCompressType)
    → 0 < delimiter_size d
    → length text < 2 ^ 31
    → length text ≤ fuel
    → Returns (split fuel text d type) (Splits d type text)
unfolding split
split_lem fuel text d type p small enough =
    Returns_weaken _ _ (split_loop fuel d type text [])
      (split_loop_lem fuel d type text [] p small enough) (λ out (ps, e, parts). rw e parts)

find-empty : (c : ℕ) (s : Bytes) → delimiter_find (is_string_of []) (c ∷ s) ≡ some 0
unfolding delimiter_find find is_prefix
find-empty c s = refl

split_loop-empty :
    (fuel c : ℕ) (s : Bytes) (type : StringCompressType) (texts : List Bytes)
    → split_loop fuel (is_string_of []) type (c ∷ s) texts ≡ none
unfolding delimiter_size
split_loop-empty zero c s type texts = unfold split_loop in refl
split_loop-empty (suc fuel) c s type texts =
    split_loop-some fuel (is_string_of []) type c 0 s texts (find-empty c s) (omega arith)
    ∙ split_loop-empty fuel c s type (texts ++ pushed type [])

-- With the empty text as delimiter it never ends, unless there is nothing to split.
pub split-empty :
    (fuel c : ℕ) (text : Bytes) (type : StringCompressType)
    → split fuel (c ∷ text) (is_string_of []) type ≡ none
unfolding split
split-empty fuel c text type = split_loop-empty fuel c text type []

no_pieces :
    {d : Delimiter} {s : Bytes} {ps : List Bytes}
    → Splits d with_empty_string s ps
    → ps ≡ []
    → s ≡ []
unfolding pushed
no_pieces empty h = refl
no_pieces (last s p n) h = cc
no_pieces (more s piece sep rest ps out e eo n is_sep parts) h = cc

join_cons : (d x : Bytes) (ps : List Bytes) → ps ≢ [] → join d (x ∷ ps) ≡ x ++ (d ++ join d ps)
unfolding join
join_cons d x [] h = absurd (h refl)
join_cons d x (y ∷ ps) h = refl

join_single : (d x : Bytes) → join d (x ∷ []) ≡ x
unfolding join
join_single d x = refl

List-cases {ℓ} : {A : Type ℓ} (xs : List A) → (xs ≡ []) ⊎ (xs ≢ [])
List-cases [] = inl refl
List-cases (x ∷ xs) = inr (λ e. cc)

-- The pieces that `Split` makes at a text, joined by it, are the text, but for a delimiter at its end,
-- which leaves no trace.
pub join-Splits :
    {d : Bytes} {s : Bytes} {ps : List Bytes}
    → Splits (is_string_of d) with_empty_string s ps
    → (s ≡ join d ps) ⊎ (s ≡ join d ps ++ d)
unfolding pushed
join-Splits empty = unfold join in inl refl
join-Splits (last s p n) = unfold join in inl refl
join-Splits {d} (more s piece sep rest ps out e eo n is_sep parts) = elim (List-cases ps) [
  | inl none_left ↦ inr (cc (no_pieces parts none_left, append-nil d, join_single d piece))
  | inr some_left ↦ elim (join-Splits parts) [
    | inl all ↦ inl (cc (join_cons d piece ps some_left))
    | inr cut ↦ inr (
        cc (
          join_cons d piece ps some_left,
          append_assoc piece (d ++ join d ps) d,
          append_assoc d (join d ps) d,
        ))
  ]
]
