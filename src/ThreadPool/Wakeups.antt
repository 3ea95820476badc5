-- ===== src/ThreadPool/Wakeups.antt =====
-- Callers that sleep in `getThread` while a thread is idle.
use libff.Prelude.{
  ℕ, suc, ◌+◌, ◌≤◌, ◌≡◌, refl, sym, ap, ◌∙◌, ◌⊎◌, inl, inr, true, some, List, [], ◌∷◌, arith,
  length,
}
use mathlib.Core.Path.{subst}
use libff.ThreadPool.Sets.{mem, mem-insert}
use libff.ThreadPool.Bounds.{take_idel_inv, get_thread_inv}
use libff.ThreadPool.Steps.{
  Step, calls, sleeps, wakes, takes, sleeps_again, gives_up, puts, puts_and_wakes,
  puts_and_wakes_all, returns_all, ReachAll, Reach,
}
use libff.ThreadPool.{
  insert, erase, ThreadPool, new_pool, got, waits, get_thread, take_idel, put_thread,
}

-- When a caller sleeps, at least as many have been woken and not yet run as threads are idle.
abbrev pub IsServed : ThreadPool → Type 0
IsServed m = (m.sleeping ≡ 0) ⊎ (length m.idel_threads ≤ m.woken)

waits_inv : (m : ThreadPool) (fresh : ℕ) → get_thread m fresh ≡ waits → m.idel_threads ≡ []
unfolding get_thread take_idel
waits_inv m fresh e = ground arith

length-insert_le : (a : ℕ) (xs : List ℕ) → length (insert a xs) ≤ length xs + 1
unfolding insert
length-insert_le a [] = omega arith
length-insert_le a (b ∷ xs) = ground (arith, length-insert_le a xs)

-- What `take_idel` leaves of the counters
taken :
    (m m' : ThreadPool) (t : ℕ)
    → take_idel m ≡ some (t, m')
    → (m'.sleeping ≡ m.sleeping)
      × (m'.woken ≡ m.woken)
      × (length m'.idel_threads + 1 ≡ length m.idel_threads)
taken m m' t e =
    let (rest, idel, eq) = take_idel_inv m m' t e in
    (
      ap (λ (k : ThreadPool). k.sleeping) eq,
      ap (λ (k : ThreadPool). k.woken) eq,
      omega (arith, ap (λ (k : ThreadPool). length k.idel_threads) eq, ap length idel),
    )

calls-IsServed :
    (m m' : ThreadPool) (fresh t : ℕ) → get_thread m fresh ≡ got t m' → IsServed m → IsServed m'
calls-IsServed m m' fresh t e v = elim (get_thread_inv m m' fresh t e) [
  | inl idel ↦ fewer (taken m m' t idel) v
  | inr (same, eq, room) ↦ subst IsServed (sym eq) v
]
  where
    fewer :
        (m'.sleeping ≡ m.sleeping)
          × (m'.woken ≡ m.woken)
          × (length m'.idel_threads + 1 ≡ length m.idel_threads)
        → IsServed m
        → IsServed m'
    fewer (s, w, l) (inl nobody) = inl (s ∙ nobody)
    fewer (s, w, l) (inr enough) = inr (omega arith)

takes-IsServed :
    (m m' : ThreadPool) (n t : ℕ)
    → m.woken ≡ suc n
    → take_idel m ≡ some (t, m')
    → IsServed m
    → IsServed (record m' { woken = n })
takes-IsServed m m' n t w e (inl nobody) = inl ((taken m m' t e).0 ∙ nobody)
takes-IsServed m m' n t w e (inr enough) = inr (omega (arith, taken m m' t e))

enough_woken :
    (m : ThreadPool) (n : ℕ) → m.sleeping ≡ suc n → IsServed m → length m.idel_threads ≤ m.woken
enough_woken m n e (inl nobody) = absurd (omega arith)
enough_woken m n e (inr enough) = enough

Step-IsServed : {m m' : ThreadPool} → Step m m' → IsServed m → IsServed m'
unfolding put_thread
Step-IsServed (calls {m} {m'} fresh t fi fb e) v = calls-IsServed m m' fresh t e v
Step-IsServed (sleeps {m} fresh e) v = inr (omega (arith, ap length (waits_inv m fresh e)))
Step-IsServed (wakes {m} n e) v = inr (omega (arith, enough_woken m n e v))
Step-IsServed (takes {m} {m'} n t w e) v = takes-IsServed m m' n t w e v
Step-IsServed (sleeps_again {m} n w e) v = inr (omega (arith, ap length e))
Step-IsServed (gives_up {m} n w e) v = inr (omega (arith, ap length e))
Step-IsServed (puts {m} p i s sa) v = inl s
Step-IsServed (puts_and_wakes {m} p n i s) v =
    inr (omega (arith, enough_woken m n s v, length-insert_le p m.idel_threads))

-- While nobody calls `waitAll`, a new pool loses no wakeup: whenever a caller sleeps in `getThread`, at
-- least as many callers have been woken and not yet run as there are idle threads.
pub Reach-IsServed :
    (max_size : ℕ) {m : ThreadPool}
    → Reach (new_pool max_size) m
    → (m.sleeping ≡ 0) ⊎ (length m.idel_threads ≤ m.woken)
Reach-IsServed max_size Reach.here = inl refl
Reach-IsServed max_size (Reach.next r s) = Step-IsServed s (Reach-IsServed max_size r)

-- With `waitAll` a wakeup is lost. From every state in which one caller sleeps in `getThread`, another in
-- `waitAll`, none has been woken, and one thread is busy, the pool gets to a state in which no thread is
-- busy, some thread is idle, and the caller in `getThread` still sleeps with nobody left to wake it.
pub lost_wakeup :
    (m : ThreadPool) (t n : ℕ)
    → m.busy_threads ≡ t ∷ []
    → m.sleeping ≡ 1
    → m.woken ≡ 0
    → m.sleeping_all ≡ suc n
    → m.woken_all ≡ 0
    → (m' : ThreadPool) × ReachAll m m'
      × (m'.busy_threads ≡ [])
      × (mem t m'.idel_threads ≡ true)
      × (m'.sleeping ≡ 1)
      × (m'.woken ≡ 0)
      × (m'.woken_all ≡ 0)
unfolding put_thread erase
lost_wakeup m t n busy s w sa wa =
    let m1 : ThreadPool = record (put_thread m t) {
      sleeping_all = n;
      woken_all = m.woken_all + 1;
    } in
    let none_busy : m1.busy_threads ≡ [] = rw busy (ground arith) in
    (
      record m1 { woken_all = 0 },
      ReachAll.next
          (ReachAll.next ReachAll.here (puts_and_wakes_all t n (rw busy (ground arith)) sa))
          (returns_all 0 (omega arith) none_busy),
      none_busy,
      rw (mem-insert t t m.idel_threads) (ground arith),
      s,
      w,
      refl,
    )
