-- ===== src/Timer/Insertion.antt =====
-- `processNewTask` inserts behind the tasks that are due earlier.
use libff.Prelude.{
  ℕ, zero, suc, ◌<◌, ◌≡◌, refl, inl, inr, true, false, ◌||◌, Option, none, some, [], ◌∷◌, arith,
  leb, ◌==◌, if◌then◌else◌, Bool-cases, length,
}
use libff.Timer.Nodes.{Ptr, TimerTask, Heap, write}
use libff.Timer.Chain.{Cells, first, has, linked, Chain, SameOutside, frame}
use libff.Timer.{insert_loop, link_between, link_last}

-- The abstract insertion
unfoldable pub insert_cell : ℕ → TimerTask → Cells → Cells
insert_cell a t [] = (a, t) ∷ []
insert_cell a t ((c, v) ∷ xs) =
    if leb t.deadline v.deadline then (a, t) ∷ (c, v) ∷ xs else (c, v) ∷ insert_cell a t xs

-- What the loop does behind the task at `b`
abbrev pub Inserted : Heap → ℕ → TimerTask → ℕ → TimerTask → Cells → Heap → Type 0
Inserted h b u a t xs g =
    (g b ≡ some (record u { next = first (insert_cell a t xs) }))
    × Chain g (some b) (insert_cell a t xs)
    × SameOutside ((b, u) ∷ (a, t) ∷ xs) h g

module _ (h : Heap) (b a : ℕ) (u t : TimerTask) (hb : h b ≡ some u) (ha : h a ≡ some t)
    (ab : (a == b) ≡ false) (tasks : Ptr) (c : ℕ) (v : TimerTask) where
  between :
      (xs : Cells)
      → Chain h (some b) ((c, v) ∷ xs)
      → has a ((c, v) ∷ xs) ≡ false
      → has b ((c, v) ∷ xs) ≡ false
      → leb t.deadline v.deadline ≡ true
      → (g : Heap) × (link_between h tasks (some b) (some a) (some c) ≡ some (g, tasks))
        × Inserted h b u a t ((c, v) ∷ xs) g
  unfolding write insert_cell
  between xs ch ia ib le =
      let h1 = write h b (some (record u { next = some a })) in
      let h2 = write h1 a (some (record t { prev = some b })) in
      let h3 = write h2 a (some (linked t (some c) (some b))) in
      let g = write h3 c (some (linked v (first xs) (some a))) in
      let rest : Chain g (some c) xs = frame (some c) xs ch.2 (λ d i. ground arith) in
      (
        g,
        ground arith,
        rw le (
          ground arith,
          (ground arith, ground arith, (ground arith, ch.1, rest)),
          λ d o. ground arith,
        ),
      )

  behind :
      u.next ≡ some c
      → Chain h (some b) ((c, v) ∷ [])
      → has a ((c, v) ∷ []) ≡ false
      → has b ((c, v) ∷ []) ≡ false
      → leb t.deadline v.deadline ≡ false
      → (g : Heap) × (link_last h tasks (some a) (some c) ≡ some (g, tasks))
        × Inserted h b u a t ((c, v) ∷ []) g
  unfolding write insert_cell
  behind hn ch ia ib gt =
      let h1 = write h c (some (linked v (some a) (some b))) in
      let h2 = write h1 a (some (record t { prev = some c })) in
      let g = write h2 a (some (linked t none (some c))) in
      (
        g,
        ground arith,
        rw gt (
          ground (arith, hn),
          (ground arith, ground arith, (ground arith, refl, tt)),
          λ d o. ground arith,
        ),
      )

pub has-insert_cell :
    (b a : ℕ) (t : TimerTask) (xs : Cells) → has b (insert_cell a t xs) ≡ ((b == a) || has b xs)
unfolding insert_cell
has-insert_cell b a t [] = refl
has-insert_cell b a t ((c, v) ∷ xs) = ground (arith, has-insert_cell b a t xs)

-- One round that goes on
further :
    {h : Heap} {r : Option (Heap × Ptr)} {tasks : Ptr} (b a : ℕ) (u t : TimerTask)
    → h b ≡ some u
    → (a == b) ≡ false
    → (c : ℕ) (v : TimerTask) (xs : Cells) → u.next ≡ some c
    → Chain h (some b) ((c, v) ∷ xs)
    → has a ((c, v) ∷ xs) ≡ false
    → has b ((c, v) ∷ xs) ≡ false
    → leb t.deadline v.deadline ≡ false
    → (g : Heap) × (r ≡ some (g, tasks)) × Inserted h c (linked v (first xs) (some b)) a t xs g
    → (g : Heap) × (r ≡ some (g, tasks)) × Inserted h b u a t ((c, v) ∷ xs) g
unfolding insert_cell
further b a u t hb ab c v xs hn ch ia ib gt (g, e, i) = (
  g,
  e,
  rw gt (
    ground (arith, i.2 b, hn),
    (i.0, ground (arith, has-insert_cell c a t xs), i.1),
    λ d o. i.2 d (ground arith),
  ),
)

pub insert_loop-Inserted :
    (fuel : ℕ) (h : Heap) (b a : ℕ) (u t : TimerTask)
    → h b ≡ some u
    → h a ≡ some t
    → (a == b) ≡ false
    → (tasks : Ptr) (c : ℕ) (v : TimerTask) (xs : Cells) → u.next ≡ some c
    → Chain h (some b) ((c, v) ∷ xs)
    → has a ((c, v) ∷ xs) ≡ false
    → has b ((c, v) ∷ xs) ≡ false
    → length xs < fuel
    → (g : Heap) × (insert_loop fuel h tasks (some a) (some c) ≡ some (g, tasks))
      × Inserted h b u a t ((c, v) ∷ xs) g
unfolding insert_loop
insert_loop-Inserted zero h b a u t hb ha ab tasks c v xs hn ch ia ib f = absurd (omega arith)
insert_loop-Inserted (suc fuel) h b a u t hb ha ab tasks c v [] hn ch ia ib f =
    elim (Bool-cases (leb t.deadline v.deadline)) [
      | inl le ↦ rw (ch.0, ha, le) (between h b a u t hb ha ab tasks c v [] ch ia ib le)
      | inr gt ↦ rw (ch.0, ha, gt) (behind h b a u t hb ha ab tasks c v hn ch ia ib gt)
    ]
insert_loop-Inserted (suc fuel) h b a u t hb ha ab tasks c v ((d, w) ∷ xs) hn ch ia ib f =
    elim (Bool-cases (leb t.deadline v.deadline)) [
      | inl le ↦ rw (ch.0, ha, le) (between h b a u t hb ha ab tasks c v ((d, w) ∷ xs) ch ia ib le)
      | inr gt ↦
          rw (ch.0, ha, gt)
            (further b a u t hb ab c v ((d, w) ∷ xs) hn ch ia ib gt (
              insert_loop-Inserted fuel h c a (linked v (some d) (some b)) t ch.0 ha (ground arith)
                tasks d w xs refl ch.2 (ground arith) ch.1 (omega arith)))
    ]
