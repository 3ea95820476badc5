-- ===== src/Strings/ReplaceAll.antt =====
-- `ReplaceAll` against a substitution in one pass, and when it does not end.
use libff.Prelude.{
  ℕ, zero, suc, ◌+◌, ◌-◌, ◌≤◌, ◌<◌, ◌≡◌, refl, sym, ap, ◌∙◌, inl, inr, Bool, true, false, none,
  some, [], ◌∷◌, ◌++◌, append_assoc, arith, Option-cases, length, take, drop, length-append,
  length-take, length-drop, drop-length_append, drop-length_add_append, length-map,
  take-length_add_append, drop_pos, Bytes,
}
use libff.Strings.{
  is_prefix, find, find_from, splice, replace_loop, replace_all, folded, to_lower, lower_char,
}
use libff.Strings.Search.{find_room}

-- Replaces the occurrences of `f` in `u` by `r`, from the left and none inside another, in the text
-- `t` that stands for `u`; `skip` characters are still part of the last one.
unfoldable pub substitute : Bytes → Bytes → ℕ → Bytes → Bytes → Bytes
substitute f r skip [] t = []
substitute f r skip (c ∷ u) [] = []
substitute f r (suc skip) (c ∷ u) (d ∷ t) = substitute f r skip u t
substitute f r zero (c ∷ u) (d ∷ t) = elim (is_prefix f (c ∷ u)) [
  | true ↦ r ++ substitute f r (length f - 1) u t
  | false ↦ d ∷ substitute f r zero u t
]

pub substitute-none :
    (f r u t : Bytes) → length u ≡ length t → find f u ≡ none → substitute f r 0 u t ≡ t
unfolding substitute find
substitute-none f r [] [] e h = refl
substitute-none f r [] (d ∷ t) e h = absurd (omega arith)
substitute-none f r (c ∷ u) [] e h = absurd (omega arith)
substitute-none f r (c ∷ u) (d ∷ t) e h = ground (arith, substitute-none f r u t)

substitute_skip :
    (f r : Bytes) (k : ℕ) (u t : Bytes)
    → length u ≡ length t
    → substitute f r k u t ≡ substitute f r 0 (drop k u) (drop k t)
unfolding substitute
substitute_skip f r zero u t e = refl
substitute_skip f r (suc k) [] [] e = refl
substitute_skip f r (suc k) [] (d ∷ t) e = absurd (omega arith)
substitute_skip f r (suc k) (c ∷ u) [] e = absurd (omega arith)
substitute_skip f r (suc k) (c ∷ u) (d ∷ t) e = substitute_skip f r k u t (omega arith)

find_nil : (f : Bytes) → 0 < length f → find f [] ≡ none
unfolding find is_prefix
find_nil [] h = absurd (omega arith)
find_nil (x ∷ f) h = refl

substitute-some :
    (f r u t : Bytes) (i : ℕ)
    → length u ≡ length t
    → 0 < length f
    → find f u ≡ some i
    → substitute f r 0 u t
      ≡ take i t ++ (r ++ substitute f r 0 (drop (i + length f) u) (drop (i + length f) t))
unfolding substitute find
substitute-some f r [] [] i e p h = ground (arith, find_nil f p)
substitute-some f r [] (d ∷ t) i e p h = absurd (omega arith)
substitute-some f r (c ∷ u) [] i e p h = absurd (omega arith)
substitute-some f r (c ∷ u) (d ∷ t) zero e p h = ground (
  arith,
  substitute_skip f r (length f - 1) u t,
  drop_pos (length f) c u,
  drop_pos (length f) d t,
)
substitute-some f r (c ∷ u) (d ∷ t) (suc i) e p h = ground (
  arith,
  substitute-some f r u t i,
  drop_pos (suc i + length f) c u,
  drop_pos (suc i + length f) d t,
)

find_from-none :
    (f pre u : Bytes) (pos : ℕ)
    → length pre ≡ pos
    → find f u ≡ none
    → find_from f (pre ++ u) pos ≡ none
unfolding find_from
find_from-none f pre u pos e h =
    rw (← e, drop-length_append, h) (ground (arith, length-append pre u))

find_from-some :
    (f pre u : Bytes) (pos i : ℕ)
    → length pre ≡ pos
    → find f u ≡ some i
    → find_from f (pre ++ u) pos ≡ some (pos + i)
unfolding find_from
find_from-some f pre u pos i e h =
    rw (← e, drop-length_append, h) (ground (arith, length-append pre u))

splice_append :
    (pre t r : Bytes) (pos i n : ℕ)
    → length pre ≡ pos
    → splice (pre ++ t) (pos + i) n r ≡ (pre ++ (take i t ++ r)) ++ drop (i + n) t
splice_append pre t r pos i n e = rw (
  ← e,
  take-length_add_append,
  after,
  drop-length_add_append,
  append_assoc pre (take i t) (r ++ drop (i + n) t),
  append_assoc pre (take i t ++ r) (drop (i + n) t),
  append_assoc (take i t) r (drop (i + n) t),
)
  where
    after : length pre + i + n ≡ length pre + (i + n)
    after = omega arith

replace_loop-none :
    (fuel n pos : ℕ) (f r src s : Bytes)
    → find_from f s pos ≡ none
    → replace_loop (suc fuel) n f r src s pos ≡ some src
unfolding replace_loop
replace_loop-none fuel n pos f r src s h = ground arith

replace_loop-some :
    (fuel n pos i : ℕ) (f r src s : Bytes)
    → find_from f s pos ≡ some i
    → replace_loop (suc fuel) n f r src s pos
      ≡ replace_loop fuel n f r (splice src i n r) (splice s i n r) (i + length r)
unfolding replace_loop
replace_loop-some fuel n pos i f r src s h = ground arith

length-head :
    (pre t r : Bytes) (pos i : ℕ)
    → length pre ≡ pos
    → i ≤ length t
    → length (pre ++ (take i t ++ r)) ≡ pos + i + length r
length-head pre t r pos i e l =
    omega (arith, length-append pre (take i t ++ r), length-append (take i t) r, length-take i t)

-- The loop from a state in which `done` and `done'` stand in front of what is to be searched.
replace_loop_lem :
    (fuel : ℕ) (f r done done' u t : Bytes) (n pos : ℕ)
    → length u ≡ length t
    → n ≡ length f
    → 0 < n
    → length done ≡ pos
    → length done' ≡ pos
    → length u < fuel
    → replace_loop fuel n f r (done ++ t) (done' ++ u) pos ≡ some (done ++ substitute f r 0 u t)
replace_loop_lem zero f r done done' u t n pos e en pn ed ed' more = absurd (omega arith)
replace_loop_lem (suc fuel) f r done done' u t n pos e en pn ed ed' more =
    elim (Option-cases (find f u)) [
      | inl h ↦
          replace_loop-none fuel n pos f r _ _ (find_from-none f done' u pos ed' h)
          ∙ ap (λ x. some (done ++ x)) (sym (substitute-none f r u t e h))
      | inr (i, h) ↦
          let inside : i + length f ≤ length u = find_room f u i h in
          let rest : Bytes = substitute f r 0 (drop (i + n) u) (drop (i + n) t) in
          replace_loop-some fuel n pos (pos + i) f r _ _ (find_from-some f done' u pos i ed' h)
          ∙ rw (splice_append done t r pos i n ed, splice_append done' u r pos i n ed')
              (replace_loop_lem fuel f r (done ++ (take i t ++ r)) (done' ++ (take i u ++ r))
                (drop (i + n) u) (drop (i + n) t) n (pos + i + length r)
                (omega (arith, length-drop (i + n) u, length-drop (i + n) t)) en pn
                (length-head done t r pos i ed (omega arith))
                (length-head done' u r pos i ed' (omega arith))
                (omega (arith, length-drop (i + n) u)))
          ∙ ap some (
              append_assoc done (take i t ++ r) rest
              ∙ ap (λ x. done ++ x)
                  (append_assoc (take i t) r rest
                    ∙ sym (rw en (substitute-some f r u t i e (omega arith) h))))
    ]

length-folded : (b : Bool) (s : Bytes) → length (folded b s) ≡ length s
length-folded true s = unfold to_lower in length-map s lower_char
length-folded false s = refl

-- `ReplaceAll` of a text that is not empty ends, in at most one round for each character and one
-- more, and its result is the substitution in one pass from the left; under `ignoreCase` it finds
-- the occurrences in lower case, and the parts that stay keep their case.
pub replace_all_lem :
    (fuel : ℕ) (src f r : Bytes) (ignore_case : Bool)
    → 0 < length f
    → length src < fuel
    → replace_all fuel src f r ignore_case
      ≡ some (substitute (folded ignore_case f) r 0 (folded ignore_case src) src)
unfolding replace_all
replace_all_lem fuel src f r ignore_case p more =
    replace_loop_lem fuel (folded ignore_case f) r [] [] (folded ignore_case src) src (length f) 0
      (length-folded ignore_case src) (sym (length-folded ignore_case f)) p refl refl
      (omega (arith, length-folded ignore_case src))

find-empty : (s : Bytes) → find [] s ≡ some 0
unfolding find is_prefix
find-empty [] = refl
find-empty (c ∷ s) = refl

find_from-empty : (s : Bytes) (pos : ℕ) → pos ≤ length s → find_from [] s pos ≡ some pos
unfolding find_from
find_from-empty s pos h = rw find-empty (ground arith)

replace_loop-empty :
    (fuel : ℕ) (r src s : Bytes) (pos : ℕ)
    → pos ≤ length s
    → replace_loop fuel 0 [] r src s pos ≡ none
replace_loop-empty zero r src s pos h = unfold replace_loop in refl
replace_loop-empty (suc fuel) r src s pos h =
    replace_loop-some fuel 0 pos pos [] r src s (find_from-empty s pos h)
    ∙ replace_loop-empty fuel r _ (splice s pos 0 r) (pos + length r) (
        omega (
          arith,
          length-append (take pos s) (r ++ drop (pos + 0) s),
          length-append r (drop (pos + 0) s),
          length-take pos s,
        ))

-- With an empty text to search for `ReplaceAll` never ends.
pub replace_all-empty :
    (fuel : ℕ) (src r : Bytes) (ignore_case : Bool) → replace_all fuel src [] r ignore_case ≡ none
unfolding replace_all to_lower
replace_all-empty fuel src r true = replace_loop-empty fuel r src (to_lower src) 0 (omega arith)
replace_all-empty fuel src r false = replace_loop-empty fuel r src src 0 (omega arith)
