-- ===== src/Timer/Pending.antt =====
-- A whole pass of `processNewTasks`, and the wait it leads to.
use libff.Prelude.{
  ℕ, zero, suc, ◌+◌, ◌≤◌, ◌≡◌, refl, inl, inr, true, false, Option, none, some, List, [], ◌∷◌,
  arith, leb, Bool-cases, length,
}
use libff.Timer.Nodes.{Ptr, TimerTask, Heap, write}
use libff.Timer.Chain.{Cells, first, has, linked, Chain, SameOutside, frame}
use libff.Timer.Insertion.{insert_cell, has-insert_cell, insert_loop-Inserted, Inserted}
use libff.Timer.{insert_loop, process_new_task, insert_all}

abbrev Outcome : Heap → ℕ → TimerTask → Cells → Option (Heap × Ptr) → Type 0
Outcome h a t xs r =
    (g : Heap) × (r ≡ some (g, first (insert_cell a t xs)))
    × Chain g none (insert_cell a t xs)
    × SameOutside ((a, t) ∷ xs) h g

-- The loop at the first task, when the new one belongs in front of it
before_first :
    (fuel : ℕ) (h : Heap) (a : ℕ) (t : TimerTask) (c : ℕ) (v : TimerTask) (xs : Cells)
    → Chain h none ((c, v) ∷ xs)
    → h a ≡ some t
    → has a ((c, v) ∷ xs) ≡ false
    → leb t.deadline v.deadline ≡ true
    → Outcome h a t ((c, v) ∷ xs) (insert_loop (suc fuel) h (some c) (some a) (some c))
unfolding insert_loop write insert_cell
before_first fuel h a t c v xs ch ha ia le =
    let h1 = write h a (some (record t { next = some c })) in
    let h2 = write h1 a (some (linked t (some c) none)) in
    let g = write h2 c (some (linked v (first xs) (some a))) in
    let rest : Chain g (some c) xs = frame (some c) xs ch.2 (λ d i. ground arith) in
    rw (ch.0, ha, le)
      (
        g,
        ground arith,
        (ground arith, ground arith, (ground arith, ch.1, rest)),
        λ d o. ground arith,
      )

only_two :
    (fuel : ℕ) (h : Heap) (a : ℕ) (t : TimerTask) (c : ℕ) (v : TimerTask)
    → Chain h none ((c, v) ∷ [])
    → h a ≡ some t
    → has a ((c, v) ∷ []) ≡ false
    → leb t.deadline v.deadline ≡ false
    → Outcome h a t ((c, v) ∷ []) (insert_loop (suc fuel) h (some c) (some a) (some c))
unfolding insert_loop write insert_cell
only_two fuel h a t c v ch ha ia gt =
    let h1 = write h c (some (linked v (some a) none)) in
    let h2 = write h1 a (some (record t { prev = some c })) in
    let g = write h2 a (some (linked t none (some c))) in
    rw (ch.0, ha, gt)
      (g, ground arith, (ground arith, ground arith, (ground arith, refl, tt)), λ d o. ground arith)

later :
    {h : Heap} {r : Option (Heap × Ptr)} (a : ℕ) (t : TimerTask) (c : ℕ) (v : TimerTask)
    (xs : Cells)
    → Chain h none ((c, v) ∷ xs)
    → has a ((c, v) ∷ xs) ≡ false
    → leb t.deadline v.deadline ≡ false
    → (g : Heap) × (r ≡ some (g, some c)) × Inserted h c (linked v (first xs) none) a t xs g
    → Outcome h a t ((c, v) ∷ xs) r
unfolding insert_cell
later a t c v xs ch ia gt (g, e, i) =
    rw gt (g, e, (i.0, ground (arith, has-insert_cell c a t xs), i.1), λ d o. i.2 d (ground arith))

pub process_new_task-Chain :
    (fuel : ℕ) (h : Heap) (a : ℕ) (t : TimerTask) (xs : Cells)
    → Chain h none xs
    → h a ≡ some t
    → has a xs ≡ false
    → length xs ≤ fuel
    → (g : Heap) × (process_new_task fuel h (first xs) (some a)
        ≡ some (g, first (insert_cell a t xs)))
      × Chain g none (insert_cell a t xs)
      × SameOutside ((a, t) ∷ xs) h g
unfolding process_new_task write insert_cell
process_new_task-Chain fuel h a t [] ch ha ia f =
    let h1 = write h a (some (record t { next = none })) in
    let g = write h1 a (some (linked t none none)) in
    (g, ground arith, (ground arith, refl, tt), λ d o. ground arith)
process_new_task-Chain zero h a t ((c, v) ∷ xs) ch ha ia f = absurd (omega arith)
process_new_task-Chain (suc fuel) h a t ((c, v) ∷ []) ch ha ia f =
    elim (Bool-cases (leb t.deadline v.deadline)) [
      | inl le ↦ before_first fuel h a t c v [] ch ha ia le
      | inr gt ↦ only_two fuel h a t c v ch ha ia gt
    ]
process_new_task-Chain (suc fuel) h a t ((c, v) ∷ (d, w) ∷ xs) ch ha ia f =
    elim (Bool-cases (leb t.deadline v.deadline)) [
      | inl le ↦ before_first fuel h a t c v ((d, w) ∷ xs) ch ha ia le
      | inr gt ↦ later a t c v ((d, w) ∷ xs) ch ia gt (
          rw (ch.0, ha, gt)
            (insert_loop-Inserted fuel h c a (linked v (some d) none) t ch.0 ha (ground arith)
              (some c) d w xs refl ch.2 (ground arith) ch.1 (omega arith)))
    ]

-- The abstract pass
unfoldable pub insert_cells : Cells → Cells → Cells
insert_cells [] xs = xs
insert_cells ((a, t) ∷ new) xs = insert_cells new (insert_cell a t xs)

-- Tasks in memory that are not on the list, each of them once
abbrev pub Waiting : Heap → Cells → Cells → Type 0
Waiting h xs [] = Unit
Waiting h xs ((a, t) ∷ new) =
    (h a ≡ some t) × (has a xs ≡ false) × (has a new ≡ false) × Waiting h xs new

abbrev pub places : Cells → List ℕ
places [] = []
places ((a, _) ∷ xs) = a ∷ places xs

length-insert_cell :
    (a : ℕ) (t : TimerTask) (xs : Cells) → length (insert_cell a t xs) ≡ length xs + 1
unfolding insert_cell
length-insert_cell a t [] = refl
length-insert_cell a t ((c, v) ∷ xs) = ground (arith, length-insert_cell a t xs)

still_Waiting :
    (h g : Heap) (a : ℕ) (t : TimerTask) (xs new : Cells)
    → SameOutside ((a, t) ∷ xs) h g
    → has a new ≡ false
    → Waiting h xs new
    → Waiting g (insert_cell a t xs) new
still_Waiting h g a t xs [] same ia w = tt
still_Waiting h g a t xs ((b, u) ∷ new) same ia w = (
  ground (arith, same b),
  ground (arith, has-insert_cell b a t xs),
  w.2,
  still_Waiting h g a t xs new same (ground arith) w.3,
)

-- The loop over the new tasks, with a round for every task
pub insert_all-Chain :
    (fuel : ℕ) (h : Heap) (xs new : Cells)
    → Chain h none xs
    → Waiting h xs new
    → length xs + length new ≤ fuel
    → (g : Heap) × (insert_all fuel h (first xs) (places new)
        ≡ some (g, first (insert_cells new xs)))
      × Chain g none (insert_cells new xs)
unfolding insert_all insert_cells
insert_all-Chain fuel h xs [] ch w f = (h, refl, ch)
insert_all-Chain fuel h xs ((a, t) ∷ new) ch w f =
    let (g, e, ch', same) = process_new_task-Chain fuel h a t xs ch w.0 w.1 (omega arith) in
    rw e (
      insert_all-Chain fuel g (insert_cell a t xs) new ch'
        (still_Waiting h g a t xs new same w.2 w.3) (omega (arith, length-insert_cell a t xs)))

abbrev pub AllFrom : ℕ → Cells → Type 0
AllFrom n [] = Unit
AllFrom n ((a, t) ∷ xs) = (n ≤ t.deadline) × AllFrom n xs

-- In the order of the deadlines
abbrev pub IsSorted : Cells → Type 0
IsSorted [] = Unit
IsSorted ((a, t) ∷ xs) = AllFrom t.deadline xs × IsSorted xs

AllFrom-weaken : (n m : ℕ) (xs : Cells) → n ≤ m → AllFrom m xs → AllFrom n xs
AllFrom-weaken n m [] le all = tt
AllFrom-weaken n m ((a, t) ∷ xs) le all = (omega arith, AllFrom-weaken n m xs le all.1)

AllFrom-insert_cell :
    (n a : ℕ) (t : TimerTask) (xs : Cells)
    → n ≤ t.deadline
    → AllFrom n xs
    → AllFrom n (insert_cell a t xs)
unfolding insert_cell
AllFrom-insert_cell n a t [] le all = (le, tt)
AllFrom-insert_cell n a t ((c, v) ∷ xs) le all =
    ground (arith, AllFrom-insert_cell n a t xs le all.1)

insert_cell-IsSorted :
    (a : ℕ) (t : TimerTask) (xs : Cells) → IsSorted xs → IsSorted (insert_cell a t xs)
unfolding insert_cell
insert_cell-IsSorted a t [] s = (tt, tt)
insert_cell-IsSorted a t ((c, v) ∷ xs) s = ground (
  arith,
  insert_cell-IsSorted a t xs s.1,
  AllFrom-insert_cell v.deadline a t xs,
  AllFrom-weaken t.deadline v.deadline xs,
)

pub insert_cells-IsSorted : (new xs : Cells) → IsSorted xs → IsSorted (insert_cells new xs)
unfolding insert_cells
insert_cells-IsSorted [] xs s = s
insert_cells-IsSorted ((a, t) ∷ new) xs s =
    insert_cells-IsSorted new (insert_cell a t xs) (insert_cell-IsSorted a t xs s)
