-- ===== src/Timer/Chain.antt =====
-- What the links of a Timer stand for: the tasks with their addresses, in the order of the list.
use libff.Prelude.{ℕ, ◌≡◌, Bool, true, false, ◌||◌, none, some, List, [], ◌∷◌, arith, ◌==◌}
use libff.Timer.Nodes.{Ptr, TimerTask, Heap}

abbrev pub Cells : Type 0
Cells = List (ℕ × TimerTask)

abbrev pub first : Cells → Ptr
first [] = none
first ((a, _) ∷ xs) = some a

abbrev pub has : ℕ → Cells → Bool
has a [] = false
has a ((b, _) ∷ xs) = (a == b) || has a xs

-- A task with its two links
abbrev pub linked : TimerTask → Ptr → Ptr → TimerTask
linked t next prev = record t { next = next; prev = prev }

-- From `first xs` the links lead through the distinct tasks `xs` to nullptr, and back to `prev`. The
-- links in `xs` itself do not count.
abbrev pub Chain : Heap → Ptr → Cells → Type 0
Chain h prev [] = Unit
Chain h prev ((a, t) ∷ xs) =
    (h a ≡ some (linked t (first xs) prev)) × (has a xs ≡ false) × Chain h (some a) xs

abbrev pub SameOutside : Cells → Heap → Heap → Type 0
SameOutside xs h g = (b : ℕ) → has b xs ≡ false → g b ≡ h b

pub frame :
    {h g : Heap} (prev : Ptr) (xs : Cells)
    → Chain h prev xs
    → ((b : ℕ) → has b xs ≡ true → g b ≡ h b)
    → Chain g prev xs
frame prev [] c same = tt
frame prev ((a, t) ∷ xs) c same =
    (ground (arith, same a), c.1, frame (some a) xs c.2 (λ b i. ground (arith, same b)))

-- The first task with another `prev`
pub frame-first :
    {h g : Heap} (prev q : Ptr) (a : ℕ) (t : TimerTask) (xs : Cells)
    → Chain h prev ((a, t) ∷ xs)
    → g a ≡ some (linked t (first xs) q)
    → ((b : ℕ) → has b xs ≡ true → g b ≡ h b)
    → Chain g q ((a, t) ∷ xs)
frame-first prev q a t xs c new same = (new, c.1, frame (some a) xs c.2 same)
