-- ===== src/ThreadPool/Sets.antt =====
-- Sets of addresses.
use libff.Prelude.{
  ℕ, ◌+◌, ◌≡◌, refl, Bool, true, false, not, ◌&&◌, ◌||◌, List, [], ◌∷◌, arith, ◌==◌, length,
}
use libff.ThreadPool.{insert, erase}

abbrev pub mem : ℕ → List ℕ → Bool
mem a [] = false
mem a (b ∷ xs) = (a == b) || mem a xs

-- No address twice
abbrev pub IsDistinct : List ℕ → Type 0
IsDistinct [] = Unit {0}
IsDistinct (a ∷ xs) = (mem a xs ≡ false) × IsDistinct xs

pub mem-insert : (b a : ℕ) (xs : List ℕ) → mem b (insert a xs) ≡ ((b == a) || mem b xs)
unfolding insert
mem-insert b a [] = refl
mem-insert b a (c ∷ xs) = ground (arith, mem-insert b a xs)

pub length-insert : (a : ℕ) (xs : List ℕ) → mem a xs ≡ false → length (insert a xs) ≡ length xs + 1
unfolding insert
length-insert a [] h = refl
length-insert a (c ∷ xs) h = ground (arith, length-insert a xs)

pub insert-IsDistinct :
    (a : ℕ) (xs : List ℕ) → mem a xs ≡ false → IsDistinct xs → IsDistinct (insert a xs)
unfolding insert
insert-IsDistinct a [] out h = (refl, tt)
insert-IsDistinct a (c ∷ xs) out h =
    ground (arith, insert-IsDistinct a xs (ground arith) h.1, mem-insert c a xs)

pub mem-erase :
    (b a : ℕ) (xs : List ℕ) → IsDistinct xs → mem b (erase a xs) ≡ (not (b == a) && mem b xs)
unfolding erase
mem-erase b a [] h = ground arith
mem-erase b a (c ∷ xs) h = ground (arith, mem-erase b a xs h.1)

pub length-erase : (a : ℕ) (xs : List ℕ) → mem a xs ≡ true → length (erase a xs) + 1 ≡ length xs
unfolding erase
length-erase a [] h = cc
length-erase a (c ∷ xs) h = ground (arith, length-erase a xs)

pub erase-IsDistinct : (a : ℕ) (xs : List ℕ) → IsDistinct xs → IsDistinct (erase a xs)
unfolding erase
erase-IsDistinct a [] h = tt
erase-IsDistinct a (c ∷ xs) h = ground (arith, erase-IsDistinct a xs h.1, mem-erase c a xs h.1)
