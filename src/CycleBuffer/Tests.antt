-- ===== src/CycleBuffer/Tests.antt =====
-- The theorems on the ring buffer at a concrete one.
use libff.Prelude.{ℕ, ◌≡◌, none, some, [], ◌∷◌, ◌++◌, map, arith, take, Returns}
use libff.CycleBuffer.{CycleBuffer, write}
use libff.CycleBuffer.Queue.{IsValid, contents, contents-write}

-- Three cells; the two elements 1 and 2 go around the end.
abbrev ring : CycleBuffer ℕ
ring = record { capacity = 3; size = 2; pos = 2; buf = some 2 ∷ none ∷ some 1 ∷ [] }

ring-IsValid : IsValid ring
ring-IsValid = omega arith

contents-write_example : Returns (write (7 ∷ 8 ∷ []) ring) (λ (n, b').
    (n ≡ 1) × IsValid b' × (contents b' ≡ contents ring ++ map some (take n (7 ∷ 8 ∷ []))))
contents-write_example = contents-write (7 ∷ 8 ∷ []) ring-IsValid
