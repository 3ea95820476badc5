-- ===== src/ByteOrder/Reversal.antt =====
-- The loop of `ReverseBytes` reverses.
use libff.Prelude.{
  ℕ, zero, suc, ◌+◌, ◌-◌, ◌*◌, ◌≤◌, ◌<◌, ◌≡◌, refl, sym, ap, ◌∙◌, false, some, [], ◌∷◌, ◌++◌,
  append-nil, append_assoc, arith, ◌==◌, lt→ltb, le→ltb, length, get_or, set, length-append, Bytes,
}
use mathlib.Core.Path.{subst}
use mathlib.Core.List.{reverse, reverse-cons, reverse-append}
use libff.ByteOrder.{swap_bytes, reverse_loop, reverse_bytes}

get_or-behind : (pre : Bytes) (c : ℕ) (rest : Bytes) → get_or (pre ++ c ∷ rest) (length pre) 0 ≡ c
get_or-behind [] c rest = refl
get_or-behind (p ∷ pre) c rest = get_or-behind pre c rest

set-behind :
    (pre : Bytes) (c d : ℕ) (rest : Bytes) → set (pre ++ c ∷ rest) (length pre) d ≡ pre ++ d ∷ rest
set-behind [] c d rest = refl
set-behind (p ∷ pre) c d rest = ap (λ t. p ∷ t) (set-behind pre c d rest)

-- A text of one byte or more, by its last
split_last :
    (c : ℕ) (m : Bytes) → (i : Bytes) × (y : ℕ) × (c ∷ m ≡ i ++ y ∷ []) × (length i ≡ length m)
split_last c [] = ([], c, refl, refl)
split_last c (d ∷ m) = let (i, y, e, l) = split_last d m in (c ∷ i, y, ap (λ t. c ∷ t) e, ap suc l)

module _ (pre : Bytes) (x : ℕ) (mid : Bytes) (y : ℕ) (suf : Bytes) where
  place : length pre + 1 + length mid ≡ length (pre ++ x ∷ mid)
  place = omega (arith, length-append pre (x ∷ mid))

  get_or-end : get_or (pre ++ x ∷ (mid ++ y ∷ suf)) (length pre + 1 + length mid) 0 ≡ y
  get_or-end =
      rw (← append_assoc pre (x ∷ mid) (y ∷ suf), place) (get_or-behind (pre ++ x ∷ mid) y suf)

  set-end :
      (z : ℕ)
      → set (pre ++ x ∷ (mid ++ y ∷ suf)) (length pre + 1 + length mid) z
        ≡ pre ++ x ∷ (mid ++ z ∷ suf)
  set-end z =
      rw (← append_assoc pre (x ∷ mid) (y ∷ suf), place) (set-behind (pre ++ x ∷ mid) y z suf)
      ∙ append_assoc pre (x ∷ mid) (z ∷ suf)

swap_ends :
    (pre : Bytes) (x : ℕ) (mid : Bytes) (y : ℕ) (suf : Bytes)
    → swap_bytes (pre ++ x ∷ (mid ++ y ∷ suf)) (length pre) (length pre + 1 + length mid)
      ≡ pre ++ y ∷ (mid ++ x ∷ suf)
swap_ends pre x mid y suf =
    rw
      (
        get_or-end pre x mid y suf,
        get_or-behind pre x (mid ++ y ∷ suf),
        set-behind pre x y (mid ++ y ∷ suf),
      )
      (set-end pre y mid y suf x)

reverse_loop-stop :
    (fuel h e : ℕ) (mem : Bytes) → e ≤ h → reverse_loop (suc fuel) h e mem ≡ some mem
unfolding reverse_loop
reverse_loop-stop fuel h e mem le = rw (le→ltb h e le) refl

reverse_loop-swap :
    (fuel h e : ℕ) (mem : Bytes)
    → h < e
    → reverse_loop (suc fuel) h e mem ≡ reverse_loop fuel (h + 1) (e - 1) (swap_bytes mem h e)
unfolding reverse_loop
reverse_loop-swap fuel h e mem lt = rw (lt→ltb h e lt) refl

-- One round, on a text of two bytes or more
swap_round :
    (fuel : ℕ) (pre : Bytes) (x : ℕ) (i : Bytes) (y : ℕ) (suf : Bytes)
    → reverse_loop fuel
        (length (pre ++ y ∷ []))
        (length (pre ++ y ∷ []) + length i - 1)
        ((pre ++ y ∷ []) ++ (i ++ x ∷ suf))
      ≡ some ((pre ++ y ∷ []) ++ (reverse i ++ x ∷ suf))
    → reverse_loop
        (suc fuel)
        (length pre)
        (length pre + length (x ∷ (i ++ y ∷ [])) - 1)
        (pre ++ (x ∷ (i ++ y ∷ []) ++ suf))
      ≡ some (pre ++ (reverse (x ∷ (i ++ y ∷ [])) ++ suf))
swap_round fuel pre x i y suf rest =
    rw (end, append_assoc i (y ∷ []) suf)
      (reverse_loop-swap fuel (length pre) (length pre + 1 + length i) _ (omega arith)
        ∙ (rw (swap_ends pre x i y suf, next, ← append_assoc pre (y ∷ []) (i ++ x ∷ suf)) rest
            ∙ ap some (
                append_assoc pre (y ∷ []) (reverse i ++ x ∷ suf)
                ∙ ap (λ t. pre ++ t) (sym turned))))
  where
    end : length pre + length (x ∷ (i ++ y ∷ [])) - 1 ≡ length pre + 1 + length i
    end = omega (arith, length-append i (y ∷ []))

    next : length pre + 1 ≡ length (pre ++ y ∷ [])
    next = omega (arith, length-append pre (y ∷ []))

    turned : reverse (x ∷ (i ++ y ∷ [])) ++ suf ≡ y ∷ (reverse i ++ x ∷ suf)
    turned =
        rw (reverse-cons x (i ++ y ∷ []), reverse-append i (y ∷ []))
          (ap (λ t. y ∷ t) (append_assoc (reverse i) (x ∷ []) suf))

pub reverse_loop_lem :
    (fuel : ℕ) (pre mid suf : Bytes)
    → length mid < 2 * fuel
    → reverse_loop fuel (length pre) (length pre + length mid - 1) (pre ++ (mid ++ suf))
      ≡ some (pre ++ (reverse mid ++ suf))
reverse_loop_lem zero pre mid suf h = absurd (omega arith)
reverse_loop_lem (suc fuel) pre [] suf h = reverse_loop-stop fuel _ _ _ (omega arith)
reverse_loop_lem (suc fuel) pre (x ∷ []) suf h = reverse_loop-stop fuel _ _ _ (omega arith)
reverse_loop_lem (suc fuel) pre (x ∷ d ∷ mid) suf h =
    let (i, y, e, l) = split_last d mid in
    subst
      (λ m.
        reverse_loop (suc fuel) (length pre) (length pre + length (x ∷ m) - 1)
          (pre ++ (x ∷ m ++ suf))
        ≡ some (pre ++ (reverse (x ∷ m) ++ suf)))
      (sym e)
      (swap_round fuel pre x i y suf
        (reverse_loop_lem fuel (pre ++ y ∷ []) i (x ∷ suf) (omega (arith, h, l))))

-- When twice the rounds are more than the bytes, `ReverseBytes` ends and has reversed the bytes.
pub reverse_bytes_lem :
    (fuel : ℕ) (mem : Bytes) → length mem < 2 * fuel → reverse_bytes fuel mem ≡ some (reverse mem)
unfolding reverse_bytes
reverse_bytes_lem fuel [] h = refl
reverse_bytes_lem fuel (c ∷ mem) h = rw positive (
    ap (λ m. reverse_loop fuel 0 (suc (length mem) - 1) m) (sym (append-nil (c ∷ mem)))
    ∙ (ap (λ e. reverse_loop fuel 0 e ((c ∷ mem) ++ [])) (omega arith)
        ∙ (reverse_loop_lem fuel [] (c ∷ mem) [] h ∙ ap some (append-nil (reverse (c ∷ mem))))))
  where
    positive : (suc (length mem) == 0) ≡ false
    positive = ground arith
