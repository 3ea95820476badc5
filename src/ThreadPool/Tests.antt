-- ===== src/ThreadPool/Tests.antt =====
-- A pool of one thread.
use libff.Prelude.{ℕ, ◌≤◌, ◌≡◌, refl, ◌⊎◌, true, List, [], ◌∷◌, length}
use libff.ThreadPool.Sets.{mem}
use libff.ThreadPool.Bounds.{IsPool, ReachAll-IsPool}
use libff.ThreadPool.Wakeups.{Reach-IsServed, lost_wakeup}
use libff.ThreadPool.Steps.{calls, sleeps, puts_and_wakes, step, waits_all, Reach, ReachAll}
use libff.ThreadPool.{ThreadPool, new_pool, get_thread, put_thread}

abbrev counted : List ℕ → List ℕ → ℕ → ℕ → ℕ → ThreadPool
counted idel busy sleeping woken sleeping_all = record {
  max_size = 1;
  idel_threads = idel;
  busy_threads = busy;
  sleeping = sleeping;
  woken = woken;
  sleeping_all = sleeping_all;
  woken_all = 0;
}

-- One caller has the thread, another one sleeps.
one_sleeps : Reach (new_pool 1) (counted [] (40 ∷ []) 1 0 0)
unfolding get_thread
one_sleeps = Reach.next (Reach.next Reach.here (calls 40 40 refl refl refl)) (sleeps 41 refl)

-- A third one waits for all threads.
all_wait : ReachAll (new_pool 1) (counted [] (40 ∷ []) 1 0 1)
unfolding get_thread
all_wait =
    ReachAll.next
      (ReachAll.next (ReachAll.next ReachAll.here (step (calls 40 40 refl refl refl)))
        (step (sleeps 41 refl)))
      (waits_all 40 refl)

ReachAll-IsPool_example : IsPool (counted [] (40 ∷ []) 1 0 1)
ReachAll-IsPool_example = ReachAll-IsPool 1 all_wait

-- The thread comes back and the caller that sleeps is woken.
Reach-IsServed_example : ◌≡◌ {A = ℕ} 0 0 ⊎ (length {A = ℕ} (40 ∷ []) ≤ 1)
unfolding put_thread
Reach-IsServed_example =
    Reach-IsServed 1 {m = counted (40 ∷ []) [] 0 1 0}
      (Reach.next one_sleeps (puts_and_wakes 40 0 refl refl))

lost_wakeup_example :
    (m' : ThreadPool) × ReachAll (counted [] (40 ∷ []) 1 0 1) m'
    × (m'.busy_threads ≡ [])
    × (mem 40 m'.idel_threads ≡ true)
    × (m'.sleeping ≡ 1)
    × (m'.woken ≡ 0)
    × (m'.woken_all ≡ 0)
lost_wakeup_example = lost_wakeup (counted [] (40 ∷ []) 1 0 1) 40 0 refl refl refl refl refl
