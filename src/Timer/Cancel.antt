-- ===== src/Timer/Cancel.antt =====
-- `cancelTimeout` of a task that is not repeated.
use libff.Prelude.{
  ℕ, zero, suc, ◌≤◌, ◌≡◌, refl, sym, ap, ◌∙◌, inl, inr, true, false, Option, none, some, [], ◌∷◌,
  arith, ◌==◌, if◌then◌else◌, Bool-cases, Option-cases, ◌>>=◌, length,
}
use libff.Timer.Nodes.{Ptr, TimerTask, Heap, write}
use libff.Timer.Chain.{Cells, first, has, linked, Chain, frame}
use libff.Timer.Pending.{Waiting, places, IsSorted, AllFrom}
use libff.Timer.Invariant.{IsTimer, Waiting-frame}
use libff.Timer.{Timer, find_task, find_linked, set_cancled, cancel_new, cancel_timeout}

-- The place of the first task with an identifier
unfoldable pub place_of : ℕ → Cells → Ptr
place_of id [] = none
place_of id ((a, t) ∷ xs) = if t.id == id then some a else place_of id xs

-- The same task cancelled
unfoldable pub cancel_first : ℕ → Cells → Cells
cancel_first id [] = []
cancel_first id ((a, t) ∷ xs) =
    if t.id == id then (a, record t { cancled = true }) ∷ xs else (a, t) ∷ cancel_first id xs

find_linked-Chain :
    (fuel : ℕ) (h : Heap) (id : ℕ) (prev : Ptr) (xs : Cells)
    → Chain h prev xs
    → length xs ≤ fuel
    → find_linked fuel h id (first xs) ≡ some (place_of id xs)
unfolding find_linked place_of
find_linked-Chain zero h id prev [] ch f = refl
find_linked-Chain (suc fuel) h id prev [] ch f = refl
find_linked-Chain zero h id prev ((a, t) ∷ xs) ch f = absurd (omega arith)
find_linked-Chain (suc fuel) h id prev ((a, t) ∷ xs) ch f =
    ground (arith, find_linked-Chain fuel h id (some a) xs ch.2)

find_task-Waiting :
    (h : Heap) (id : ℕ) (xs new : Cells)
    → Waiting h xs new
    → find_task h id (places new) ≡ some (place_of id new)
unfolding find_task place_of
find_task-Waiting h id xs [] w = refl
find_task-Waiting h id xs ((a, t) ∷ new) w = ground (arith, find_task-Waiting h id xs new w.3)

has-cancel_first : (b id : ℕ) (xs : Cells) → has b (cancel_first id xs) ≡ has b xs
unfolding cancel_first
has-cancel_first b id [] = refl
has-cancel_first b id ((a, t) ∷ xs) = ground (arith, has-cancel_first b id xs)

first-cancel_first : (id : ℕ) (xs : Cells) → first (cancel_first id xs) ≡ first xs
unfolding cancel_first
first-cancel_first id [] = refl
first-cancel_first id ((a, t) ∷ xs) = ground arith

AllFrom-cancel_first : (n id : ℕ) (xs : Cells) → AllFrom n xs → AllFrom n (cancel_first id xs)
unfolding cancel_first
AllFrom-cancel_first n id [] all = tt
AllFrom-cancel_first n id ((a, t) ∷ xs) all = ground (arith, AllFrom-cancel_first n id xs all.1)

cancel_first-IsSorted : (id : ℕ) (xs : Cells) → IsSorted xs → IsSorted (cancel_first id xs)
unfolding cancel_first
cancel_first-IsSorted id [] s = tt
cancel_first-IsSorted id ((a, t) ∷ xs) s =
    ground (arith, cancel_first-IsSorted id xs s.1, AllFrom-cancel_first t.deadline id xs s.0)

cancel_first-none : (id : ℕ) (xs : Cells) → place_of id xs ≡ none → cancel_first id xs ≡ xs
unfolding cancel_first place_of
cancel_first-none id [] e = refl
cancel_first-none id ((a, t) ∷ xs) e = ground (arith, cancel_first-none id xs)

-- What the write at the place found does
Cancelled : Heap → ℕ → (Heap → Type 0) → Type 0
Cancelled h a P =
    (t : TimerTask) × (h a ≡ some t) × P (write h a (some (record t { cancled = true })))

has-place_of : (id a : ℕ) (xs : Cells) → place_of id xs ≡ some a → has a xs ≡ true
unfolding place_of
has-place_of id a [] e = cc
has-place_of id a ((b, t) ∷ xs) e = ground (arith, has-place_of id a xs)

apart : (a b : ℕ) (xs : Cells) → has a xs ≡ true → has b xs ≡ false → (b == a) ≡ false
apart a b xs i o = ground arith

Chain-cancel_behind :
    (h : Heap) (id a b : ℕ) (t : TimerTask) (prev : Ptr) (xs : Cells)
    → Chain h prev ((b, t) ∷ xs)
    → (t.id == id) ≡ false
    → (b == a) ≡ false
    → Cancelled h a (λ g. Chain g (some b) (cancel_first id xs))
    → Cancelled h a (λ g. Chain g prev (cancel_first id ((b, t) ∷ xs)))
unfolding cancel_first Cancelled write
Chain-cancel_behind h id a b t prev xs ch there ba (u, ha, ch') = (
  u,
  ha,
  rw there (rw (ba, first-cancel_first id xs) ch.0, rw (has-cancel_first b id xs) ch.1, ch'),
)

Chain-cancel :
    (h : Heap) (id a : ℕ) (prev : Ptr) (xs : Cells)
    → Chain h prev xs
    → place_of id xs ≡ some a
    → Cancelled h a (λ g. Chain g prev (cancel_first id xs))
unfolding cancel_first place_of Cancelled write
Chain-cancel h id a prev [] ch e = cc
Chain-cancel h id a prev ((b, t) ∷ xs) ch e = elim (Bool-cases (t.id == id)) [
  | inl here ↦ (
    linked t (first xs) prev,
    ground arith,
    rw here (ground arith, ch.1, frame (some b) xs ch.2 (λ i o. ground arith)),
  )
  | inr there ↦
      let e' : place_of id xs ≡ some a = ground arith in
      Chain-cancel_behind h id a b t prev xs ch there (apart a b xs (has-place_of id a xs e') ch.1)
        (Chain-cancel h id a (some b) xs ch.2 e')
]

Waiting-apart :
    (h g : Heap) (a : ℕ) (xs new : Cells)
    → Waiting h xs new
    → has a new ≡ false
    → ((b : ℕ) → (b == a) ≡ false → g b ≡ h b)
    → Waiting g xs new
Waiting-apart h g a xs [] w out same = tt
Waiting-apart h g a xs ((b, t) ∷ new) w out same =
    (ground (arith, same b), w.1, w.2, Waiting-apart h g a xs new w.3 (ground arith) same)

Waiting-cancel_behind :
    (h : Heap) (id a b : ℕ) (t : TimerTask) (xs new : Cells)
    → Waiting h xs ((b, t) ∷ new)
    → (t.id == id) ≡ false
    → (b == a) ≡ false
    → Cancelled h a (λ g. Waiting g xs (cancel_first id new))
    → Cancelled h a (λ g. Waiting g xs (cancel_first id ((b, t) ∷ new)))
unfolding cancel_first Cancelled write
Waiting-cancel_behind h id a b t xs new w there ba (u, ha, w') =
    (u, ha, rw there (rw ba w.0, w.1, rw (has-cancel_first b id new) w.2, w'))

Waiting-cancel :
    (h : Heap) (id a : ℕ) (xs new : Cells)
    → Waiting h xs new
    → place_of id new ≡ some a
    → Cancelled h a (λ g. Waiting g xs (cancel_first id new))
unfolding cancel_first place_of Cancelled write
Waiting-cancel h id a xs [] w e = cc
Waiting-cancel h id a xs ((b, t) ∷ new) w e = elim (Bool-cases (t.id == id)) [
  | inl here ↦ (
    t,
    ground arith,
    rw here (
      ground arith,
      w.1,
      w.2,
      Waiting-apart h (write h a (some (record t { cancled = true }))) a xs new w.3 (ground arith)
          (λ i o. ground arith),
    ),
  )
  | inr there ↦
      let e' : place_of id new ≡ some a = ground arith in
      Waiting-cancel_behind h id a b t xs new w there (apart a b new (has-place_of id a new e') w.2)
        (Waiting-cancel h id a xs new w.3 e')
]

places-cancel_first : (id : ℕ) (xs : Cells) → places (cancel_first id xs) ≡ places xs
unfolding cancel_first
places-cancel_first id [] = refl
places-cancel_first id ((a, t) ∷ xs) = ground (arith, places-cancel_first id xs)

write-apart : (h : Heap) (a b : ℕ) (c : Option TimerTask) → (b == a) ≡ false → write h a c b ≡ h b
unfolding write
write-apart h a b c o = rw o refl

write-absent :
    (h : Heap) (a : ℕ) (c : Option TimerTask) (xs : Cells)
    → Chain h none xs
    → has a xs ≡ false
    → Chain (write h a c) none xs
write-absent h a c xs ch out =
    frame none xs ch (λ b i. write-apart h a b c (ground (arith, apart b a xs i out)))

Waiting-absent :
    (h : Heap) (a : ℕ) (xs new : Cells) → Waiting h xs new → has a new ≡ true → has a xs ≡ false
Waiting-absent h a xs [] w i = cc
Waiting-absent h a xs ((b, t) ∷ new) w i = ground (arith, Waiting-absent h a xs new w.3)

-- The memory outside these tasks and all members but the memory are the same.
abbrev pub OnlyHeap : Timer → Timer → Cells → Cells → Type 0
OnlyHeap m m' xs new =
    (m' ≡ record m { heap = m'.heap })
    × ((b : ℕ) → has b xs ≡ false → has b new ≡ false → m'.heap b ≡ m.heap b)

cancel_chained :
    (m : Timer) (id a : ℕ) (xs new : Cells)
    → IsTimer m xs new
    → place_of id xs ≡ some a
    → (m' : Timer) × ((set_cancled m.heap (some a) >>= λ h. some (record m { heap = h })) ≡ some m')
      × IsTimer m' (cancel_first id xs) new
      × OnlyHeap m m' xs new
unfolding Cancelled
cancel_chained m id a xs new v found =
    let (t, ha, ch) = Chain-cancel m.heap id a none xs v.chain found in
    let g = write m.heap a (some (record t { cancled = true })) in
    (
      record m { heap = g },
      rw ha refl,
      record {
        chain = ch;
        tasks = v.tasks ∙ sym (first-cancel_first id xs);
        waiting =
            Waiting-frame xs (cancel_first id xs) new v.waiting
              (λ b o. rw (has-cancel_first b id xs) o)
              (λ b o. write-apart m.heap a b _ (apart a b xs (has-place_of id a xs found) o));
        inserted = v.inserted;
        sorted = cancel_first-IsSorted id xs v.sorted;
      },
      (refl, λ b o o'. write-apart m.heap a b _ (apart a b xs (has-place_of id a xs found) o)),
    )

cancel_waiting :
    (m : Timer) (id : ℕ) (xs new : Cells)
    → IsTimer m xs new
    → (m' : Timer) × (cancel_new m (place_of id new) ≡ some m')
      × IsTimer m' xs (cancel_first id new)
      × OnlyHeap m m' xs new
unfolding Cancelled
cancel_waiting m id xs new v = elim (Option-cases (place_of id new)) [
  | inl absent ↦ rw (absent, cancel_first-none id new absent) (m, refl, v, (refl, λ b o o'. refl))
  | inr (a, found) ↦
      let (t, ha, w) = Waiting-cancel m.heap id a xs new v.waiting found in
      let g = write m.heap a (some (record t { cancled = true })) in
      rw (found, ha)
        (
          record m { heap = g },
          refl,
          record {
            chain =
                write-absent m.heap a _ xs v.chain
                  (Waiting-absent m.heap a xs new v.waiting (has-place_of id a new found));
            tasks = v.tasks;
            waiting = w;
            inserted = v.inserted ∙ sym (places-cancel_first id new);
            sorted = v.sorted;
          },
          (
            refl,
            λ b o o'. write-apart m.heap a b _ (apart a b new (has-place_of id a new found) o'),
          ),
        )
]

-- When no repeated task has the identifier, `cancelTimeout` on a valid timer ends and leaves a valid
-- timer. The first task of the list with the identifier is cancelled, and when the list has none, the
-- first of the waiting ones. The other members of the timer and the memory outside its tasks stay as they
-- are. As many rounds as the list has tasks are enough.
pub cancel_timeout-IsTimer :
    (fuel : ℕ) (m : Timer) (id : ℕ) (xs new : Cells)
    → IsTimer m xs new
    → find_task m.heap id m.repeat_tasks ≡ some none
    → length xs ≤ fuel
    → (m' : Timer) × (cancel_timeout fuel m id ≡ some m')
      × IsTimer m'
          (cancel_first id xs)
          (elim (place_of id xs) [ none ↦ cancel_first id new | some a ↦ new ])
      × OnlyHeap m m' xs new
unfolding cancel_timeout
cancel_timeout-IsTimer fuel m id xs new v r f =
    let listed : find_linked fuel m.heap id m.tasks ≡ some (place_of id xs) =
      ap (find_linked fuel m.heap id) v.tasks
      ∙ find_linked-Chain fuel m.heap id none xs v.chain f in
    let waiting : find_task m.heap id m.insert_tasks ≡ some (place_of id new) =
      ap (find_task m.heap id) v.inserted ∙ find_task-Waiting m.heap id xs new v.waiting in
    elim (Option-cases (place_of id xs)) [
      | inl absent ↦
          rw (r, listed, absent, waiting, cancel_first-none id xs absent)
            (cancel_waiting m id xs new v)
      | inr (a, found) ↦ rw (r, listed, found) (cancel_chained m id a xs new v found)
    ]
