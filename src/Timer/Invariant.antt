-- ===== src/Timer/Invariant.antt =====
-- The invariant of a Timer, and the operations that keep it.
use libff.Prelude.{
  ℕ, ◌+◌, ◌%◌, ◌^◌, ◌≤◌, ◌≡◌, refl, ap, ◌⊎◌, false, ◌||◌, none, some, List, [], ◌∷◌, ◌++◌, arith,
  ◌==◌, length,
}
use libff.Timer.Nodes.{Ptr, TimerTask, Heap, write, once}
use libff.Timer.Chain.{Cells, first, has, Chain, SameOutside, frame}
use libff.Timer.Pending.{
  Waiting, places, IsSorted, AllFrom, insert_cells, insert_all-Chain, insert_cells-IsSorted,
}
use libff.Timer.Expiry.{kept, fired, last_due, has-kept, expire_loop-Chain}
use libff.Timer.{Timer, process_new_tasks, set_timeout, insert_task, new_task, expire_tasks}

-- `xs` are the tasks of the list, `new` those of m_insertTasks.
pub record IsTimer (m : Timer) (xs new : Cells) : Type 0 where
  pub chain : Chain m.heap none xs
  pub tasks : m.tasks ≡ first xs
  pub waiting : Waiting m.heap xs new
  pub inserted : m.insert_tasks ≡ places new
  pub sorted : IsSorted xs

-- In a valid timer `processNewTasks` ends without a fault when there are as many rounds as tasks. It
-- leaves a valid timer whose list has the new tasks inserted one after the other, each before the first
-- task that is not due earlier, and no new task waits any more.
pub process_new_tasks-IsTimer :
    (fuel : ℕ) (m : Timer) (xs new : Cells)
    → IsTimer m xs new
    → length xs + length new ≤ fuel
    → (m' : Timer) × (process_new_tasks fuel m ≡ some m') × IsTimer m' (insert_cells new xs) []
unfolding process_new_tasks insert_cells
process_new_tasks-IsTimer fuel m xs [] v f = (
  m,
  rw v.inserted refl,
  record {
    chain = v.chain;
    tasks = v.tasks;
    waiting = tt;
    inserted = v.inserted;
    sorted = v.sorted;
  },
)
process_new_tasks-IsTimer fuel m xs ((a, t) ∷ new) v f =
    let (g, e, ch) = insert_all-Chain fuel m.heap xs ((a, t) ∷ new) v.chain v.waiting f in
    (
      record m { heap = g; tasks = first (insert_cells ((a, t) ∷ new) xs); insert_tasks = [] },
      rw (v.inserted, v.tasks, e) (ground arith),
      record {
        chain = ch;
        tasks = refl;
        waiting = tt;
        inserted = refl;
        sorted = insert_cells-IsSorted ((a, t) ∷ new) xs v.sorted;
      },
    )

pub Waiting-frame :
    {h g : Heap} (xs ys new : Cells)
    → Waiting h xs new
    → ((b : ℕ) → has b xs ≡ false → has b ys ≡ false)
    → SameOutside xs h g
    → Waiting g ys new
Waiting-frame xs ys [] w sub same = tt
Waiting-frame xs ys ((a, t) ∷ new) w sub same =
    (ground (arith, same a), sub a w.1, w.2, Waiting-frame xs ys new w.3 sub same)

kept-AllFrom : (n : ℕ) (rs : List ℕ) (xs : Cells) → AllFrom n xs → AllFrom n (kept rs xs)
unfolding kept
kept-AllFrom n [] xs all = all
kept-AllFrom n (now ∷ rs) [] all = tt
kept-AllFrom n (now ∷ rs) ((a, t) ∷ xs) all = ground (arith, kept-AllFrom n rs xs all.1)

kept-IsSorted : (rs : List ℕ) (xs : Cells) → IsSorted xs → IsSorted (kept rs xs)
unfolding kept
kept-IsSorted [] xs s = s
kept-IsSorted (now ∷ rs) [] s = tt
kept-IsSorted (now ∷ rs) ((a, t) ∷ xs) s =
    ground (arith, kept-IsSorted rs xs s.1, kept-AllFrom t.deadline rs xs s.0)

-- In a valid timer, and with a reading of the clock for every task, the pass of the timer's thread hands
-- the tasks that are due or cancelled to the thread pool, in the order of the list, and leaves a valid
-- timer with the others. The condition is that the last task is not due or that all of them are.
pub expire_tasks-IsTimer :
    (rs : List ℕ) (m : Timer) (xs new : Cells)
    → IsTimer m xs new
    → length xs ≤ length rs
    → (last_due rs xs ≡ false) ⊎ (kept rs xs ≡ [])
    → (m' : Timer) × (expire_tasks rs m ≡ some m')
      × IsTimer m' (kept rs xs) new
      × (m'.jobs ≡ m.jobs ++ fired rs xs)
unfolding expire_tasks
expire_tasks-IsTimer rs m xs new v f s =
    let (g, e, ch, same) = expire_loop-Chain rs m.heap xs v.chain f s in
    (
      record m { heap = g; tasks = first (kept rs xs); jobs = m.jobs ++ fired rs xs },
      rw (v.tasks, e) refl,
      record {
        chain = ch;
        tasks = refl;
        waiting = Waiting-frame xs (kept rs xs) new v.waiting (λ b o. has-kept b rs xs o) same;
        inserted = v.inserted;
        sorted = kept-IsSorted rs xs v.sorted;
      },
      refl,
    )

has-snoc :
    (b a : ℕ) (t : TimerTask) (new : Cells) → has b (new ++ (a, t) ∷ []) ≡ (has b new || (b == a))
has-snoc b a t [] = ground arith
has-snoc b a t (c ∷ new) = ground (arith, has-snoc b a t new)

-- A task comes to live at `a`.
module _ (h g : Heap) (a : ℕ) (t : TimerTask) (e : h a ≡ none) (ga : g a ≡ some t)
    (same : (b : ℕ) → (b == a) ≡ false → g b ≡ h b) where
  Chain-fresh : (prev : Ptr) (xs : Cells) → Chain h prev xs → has a xs ≡ false
  Chain-fresh prev [] ch = refl
  Chain-fresh prev ((b, t) ∷ xs) ch = ground (arith, Chain-fresh (some b) xs ch.2)

  Chain-alive : (prev : Ptr) (xs : Cells) → Chain h prev xs → Chain g prev xs
  Chain-alive prev xs ch = frame prev xs ch (λ b i. ground (arith, same b, Chain-fresh prev xs ch))

  Waiting-alive :
      (xs new : Cells) → has a xs ≡ false → Waiting h xs new → Waiting g xs (new ++ (a, t) ∷ [])
  Waiting-alive xs [] ia w = (ga, ia, refl, tt)
  Waiting-alive xs ((b, u) ∷ new) ia w =
      (ground (arith, same b), w.1, ground (arith, has-snoc b a t new), Waiting-alive xs new ia w.3)

places-snoc :
    (a : ℕ) (t : TimerTask) (new : Cells) → places (new ++ (a, t) ∷ []) ≡ places new ++ a ∷ []
places-snoc a t [] = refl
places-snoc a t (c ∷ new) = ap (λ ps. c.0 ∷ ps) (places-snoc a t new)

-- The new task of `setTimeout`
abbrev pub timeout_task : Timer → ℕ → ℕ → ℕ → TimerTask
timeout_task m func timeout_ms tock = record (new_task m once func timeout_ms) {
  deadline = (tock + timeout_ms % 2 ^ 32) % 2 ^ 64;
}

-- `setTimeout` on a valid timer that is not stopping, with a new task at an address where none lives,
-- returns the next identifier and leaves a valid timer. The new task waits behind the others, with the
-- time now and the low 32 bits of the timeout as its deadline.
pub set_timeout-IsTimer :
    (m : Timer) (task func timeout_ms tock : ℕ) (xs new : Cells)
    → IsTimer m xs new
    → m.heap task ≡ none
    → m.stop ≡ false
    → (m' : Timer) × (set_timeout m task func timeout_ms tock ≡ some (m', m.next_id))
      × IsTimer m' xs (new ++ (task, timeout_task m func timeout_ms tock) ∷ [])
unfolding set_timeout insert_task write
set_timeout-IsTimer m task func timeout_ms tock xs new v e s =
    let t = timeout_task m func timeout_ms tock in
    let g = write (write m.heap task (some (new_task m once func timeout_ms))) task (some t) in
    let ga : g task ≡ some t = ground arith in
    let same : (b : ℕ) → (b == task) ≡ false → g b ≡ m.heap b = λ b o. ground arith in
    (
      record m {
        heap = g;
        insert_tasks = m.insert_tasks ++ task ∷ [];
        next_id = (m.next_id + 1) % 2 ^ 64;
      },
      ground arith,
      record {
        chain = Chain-alive m.heap g task t e ga same none xs v.chain;
        tasks = v.tasks;
        waiting =
            Waiting-alive m.heap g task t e ga same xs new
              (Chain-fresh m.heap g task t e ga same none xs v.chain) v.waiting;
        inserted = rw (v.inserted, places-snoc task t new) refl;
        sorted = v.sorted;
      },
    )
