-- ===== src/Timer/Expiry.antt =====
-- The pass over the tasks in `timerThreadFunc`.
use libff.Prelude.{
  ℕ, ◌≤◌, ◌≡◌, refl, ◌⊎◌, inl, inr, Bool, true, false, ◌||◌, none, some, List, [], ◌∷◌, arith, leb,
  if◌then◌else◌, Bool-cases, length,
}
use libff.Timer.Nodes.{Ptr, TimerTask, Heap, write}
use libff.Timer.Chain.{Cells, first, has, linked, Chain, SameOutside, frame-first}
use libff.Timer.{expire_loop, unlink_between}

abbrev pub is_due : ℕ → TimerTask → Bool
is_due now t = leb t.deadline now || t.cancled

-- The tasks that stay, with one reading of the clock for each task
unfoldable pub kept : List ℕ → Cells → Cells
kept [] xs = xs
kept (now ∷ readings) [] = []
kept (now ∷ readings) ((a, t) ∷ xs) =
    if is_due now t then kept readings xs else (a, t) ∷ kept readings xs

-- The tasks that are run
unfoldable pub fired : List ℕ → Cells → List ℕ
fired [] xs = []
fired (now ∷ readings) [] = []
fired (now ∷ readings) ((a, t) ∷ xs) =
    if is_due now t then a ∷ fired readings xs else fired readings xs

-- Is the last task of the list due?
unfoldable pub last_due : List ℕ → Cells → Bool
last_due [] xs = false
last_due (now ∷ readings) [] = false
last_due (now ∷ readings) ((a, t) ∷ []) = is_due now t
last_due (now ∷ readings) ((a, t) ∷ c ∷ xs) = last_due readings (c ∷ xs)

pub kept-nil : (rs : List ℕ) → kept rs [] ≡ []
unfolding kept
kept-nil [] = refl
kept-nil (now ∷ rs) = refl

last_due-nil : (rs : List ℕ) → last_due rs [] ≡ false
unfolding last_due
last_due-nil [] = refl
last_due-nil (now ∷ rs) = refl

pub has-kept : (b : ℕ) (rs : List ℕ) (xs : Cells) → has b xs ≡ false → has b (kept rs xs) ≡ false
unfolding kept
has-kept b [] xs out = out
has-kept b (now ∷ rs) [] out = refl
has-kept b (now ∷ rs) ((a, t) ∷ xs) out = ground (arith, has-kept b rs xs)

-- What the loop does behind a task at `b` that stays
abbrev Passed : List ℕ → Heap → Ptr → ℕ → TimerTask → Cells → Type 0
Passed rs h tasks b u xs =
    (g : Heap) × (expire_loop rs h tasks (first xs) ≡ some (g, tasks, fired rs xs))
    × (g b ≡ some (record u { next = first (kept rs xs) }))
    × Chain g (some b) (kept rs xs)
    × SameOutside ((b, u) ∷ xs) h g

Passed-due :
    (now : ℕ) (rs : List ℕ) (h : Heap) (tasks : Ptr) (b : ℕ) (u : TimerTask) (c : ℕ) (v : TimerTask)
    (d : ℕ) (w : TimerTask) (xs : Cells)
    → h b ≡ some u
    → Chain h (some b) ((c, v) ∷ (d, w) ∷ xs)
    → has b ((c, v) ∷ (d, w) ∷ xs) ≡ false
    → is_due now v ≡ true
    → ((g : Heap)
        → g b ≡ some (record u { next = some d })
        → Chain g (some b) ((d, w) ∷ xs)
        → Passed rs g tasks b (record u { next = some d }) ((d, w) ∷ xs))
    → Passed (now ∷ rs) h tasks b u ((c, v) ∷ (d, w) ∷ xs)
unfolding expire_loop write kept fired
Passed-due now rs h tasks b u c v d w xs hb ch ib due rec =
    let h1 = write h b (some (record u { next = some d })) in
    let h2 = write h1 d (some (linked w (first xs) (some b))) in
    let unlinked : unlink_between h (some b) (some d) ≡ some h2 = ground arith in
    let (g, e, gb, ch', same) =
      rec h2 (ground arith)
        (frame-first (some c) (some b) d w xs ch.2 (ground arith) (λ i o. ground arith)) in
    (g, rw (ch.0, due, unlinked, e) refl, rw due gb, rw due ch', λ i o. ground (arith, same i))

Passed-stays :
    (now : ℕ) (rs : List ℕ) (h : Heap) (tasks : Ptr) (b : ℕ) (u : TimerTask) (c : ℕ) (v : TimerTask)
    (xs : Cells)
    → h b ≡ some u
    → u.next ≡ some c
    → Chain h (some b) ((c, v) ∷ xs)
    → has b ((c, v) ∷ xs) ≡ false
    → is_due now v ≡ false
    → Passed rs h tasks c (linked v (first xs) (some b)) xs
    → Passed (now ∷ rs) h tasks b u ((c, v) ∷ xs)
unfolding expire_loop kept fired
Passed-stays now rs h tasks b u c v xs hb hn ch ib stays (g, e, gc, ch', same) = (
  g,
  rw (ch.0, stays) e,
  rw stays (ground (arith, same b, hn)),
  rw stays (gc, has-kept c rs xs ch.1, ch'),
  λ i o. ground (arith, same i),
)

pass-Passed :
    (rs : List ℕ) (h : Heap) (tasks : Ptr) (b : ℕ) (u : TimerTask) (xs : Cells)
    → h b ≡ some u
    → u.next ≡ first xs
    → Chain h (some b) xs
    → has b xs ≡ false
    → length xs ≤ length rs
    → last_due rs xs ≡ false
    → Passed rs h tasks b u xs
unfolding expire_loop kept fired last_due
pass-Passed [] h tasks b u [] hb hn ch ib f s = (h, refl, ground arith, tt, λ i o. refl)
pass-Passed (now ∷ rs) h tasks b u [] hb hn ch ib f s = (h, refl, ground arith, tt, λ i o. refl)
pass-Passed [] h tasks b u ((c, v) ∷ xs) hb hn ch ib f s = absurd (omega arith)
pass-Passed (now ∷ rs) h tasks b u ((c, v) ∷ []) hb hn ch ib f s =
    Passed-stays now rs h tasks b u c v [] hb hn ch ib s (
      pass-Passed rs h tasks c (linked v none (some b)) [] ch.0 refl tt refl (omega arith)
        (last_due-nil rs))
pass-Passed (now ∷ rs) h tasks b u ((c, v) ∷ (d, w) ∷ xs) hb hn ch ib f s =
    elim (Bool-cases (is_due now v)) [
      | inl due ↦ Passed-due now rs h tasks b u c v d w xs hb ch ib due (λ g gb ch'.
          pass-Passed rs g tasks b (record u { next = some d }) ((d, w) ∷ xs) gb refl ch'
            (ground arith) (omega arith) s)
      | inr stays ↦ Passed-stays now rs h tasks b u c v ((d, w) ∷ xs) hb hn ch ib stays (
          pass-Passed rs h tasks c (linked v (some d) (some b)) ((d, w) ∷ xs) ch.0 refl ch.2 ch.1
            (omega arith) s)
    ]

abbrev Expired : List ℕ → Heap → Cells → Type 0
Expired rs h xs =
    (g : Heap) × (expire_loop rs h (first xs) (first xs)
      ≡ some (g, first (kept rs xs), fired rs xs))
    × Chain g none (kept rs xs)
    × SameOutside xs h g

first_due :
    (now : ℕ) (rs : List ℕ) (h : Heap) (a : ℕ) (t : TimerTask) (d : ℕ) (w : TimerTask) (xs : Cells)
    → Chain h none ((a, t) ∷ (d, w) ∷ xs)
    → is_due now t ≡ true
    → ((g : Heap) → Chain g none ((d, w) ∷ xs) → Expired rs g ((d, w) ∷ xs))
    → Expired (now ∷ rs) h ((a, t) ∷ (d, w) ∷ xs)
unfolding expire_loop write kept fired
first_due now rs h a t d w xs ch due rec =
    let g1 = write h d (some (linked w (first xs) none)) in
    let (g, e, ch', same) =
      rec g1 (frame-first (some a) none d w xs ch.2 (ground arith) (λ i o. ground arith)) in
    (g, rw (ch.0, due, ch.2.0) (rw e refl), rw due ch', λ i o. ground (arith, same i))

last_of_all :
    (now : ℕ) (rs : List ℕ) (h : Heap) (a : ℕ) (t : TimerTask)
    → Chain h none ((a, t) ∷ [])
    → is_due now t ≡ true
    → Expired (now ∷ rs) h ((a, t) ∷ [])
unfolding expire_loop kept fired
last_of_all now [] h a t ch due = (h, rw (ch.0, due) refl, rw due tt, λ i o. refl)
last_of_all now (r ∷ rs) h a t ch due = (h, rw (ch.0, due) refl, rw due tt, λ i o. refl)

first_stays :
    (now : ℕ) (rs : List ℕ) (h : Heap) (a : ℕ) (t : TimerTask) (xs : Cells)
    → Chain h none ((a, t) ∷ xs)
    → is_due now t ≡ false
    → length xs ≤ length rs
    → last_due rs xs ≡ false
    → Expired (now ∷ rs) h ((a, t) ∷ xs)
unfolding expire_loop kept fired
first_stays now rs h a t xs ch stays f s =
    let (g, e, ga, ch', same) =
      pass-Passed rs h (some a) a (linked t (first xs) none) xs ch.0 refl ch.2 ch.1 f s in
    (g, rw (ch.0, stays) e, rw stays (ga, has-kept a rs xs ch.1, ch'), same)

-- With a reading of the clock for every task, the pass runs the tasks that are due or cancelled, in
-- the order of the list, and leaves the others on a list that is linked both ways, unless the last
-- task is due while another one stays.
pub expire_loop-Chain :
    (rs : List ℕ) (h : Heap) (xs : Cells)
    → Chain h none xs
    → length xs ≤ length rs
    → (last_due rs xs ≡ false) ⊎ (kept rs xs ≡ [])
    → (g : Heap) × (expire_loop rs h (first xs) (first xs)
        ≡ some (g, first (kept rs xs), fired rs xs))
      × Chain g none (kept rs xs)
      × SameOutside xs h g
unfolding expire_loop kept fired last_due
expire_loop-Chain [] h [] ch f s = (h, refl, tt, λ i o. refl)
expire_loop-Chain (now ∷ rs) h [] ch f s = (h, refl, tt, λ i o. refl)
expire_loop-Chain [] h ((a, t) ∷ xs) ch f s = absurd (omega arith)
expire_loop-Chain (now ∷ rs) h ((a, t) ∷ []) ch f s = elim (Bool-cases (is_due now t)) [
  | inl due ↦ last_of_all now rs h a t ch due
  | inr stays ↦ first_stays now rs h a t [] ch stays (omega arith) (last_due-nil rs)
]
expire_loop-Chain (now ∷ rs) h ((a, t) ∷ (d, w) ∷ xs) ch f s = elim (Bool-cases (is_due now t)) [
  | inl due ↦
      first_due now rs h a t d w xs ch due
        (λ g ch'. expire_loop-Chain rs g ((d, w) ∷ xs) ch' (omega arith) (ground arith))
  | inr stays ↦ first_stays now rs h a t ((d, w) ∷ xs) ch stays (omega arith) (ground arith)
]
