-- ===== src/ThreadPool/Bounds.antt =====
-- The threads of a pool are never more than its size, and none of them is idle and busy.
use libff.Prelude.{
  ℕ, ◌+◌, ◌≤◌, ◌<◌, ◌≡◌, refl, sym, ap, ◌⊎◌, inl, inr, true, false, some, List, [], ◌∷◌, arith,
  Option-cases, length,
}
use libff.ThreadPool.Sets.{
  mem, IsDistinct, mem-insert, length-insert, insert-IsDistinct, mem-erase, length-erase,
  erase-IsDistinct,
}
use libff.ThreadPool.Steps.{
  Step, calls, sleeps, wakes, takes, sleeps_again, gives_up, puts, puts_and_wakes, StepAll, step,
  waits_all, puts_and_wakes_all, wakes_all, sleeps_all_again, returns_all, ReachAll, here, next,
}
use mathlib.Core.Path.{subst}
use libff.ThreadPool.{insert, ThreadPool, new_pool, got, get_thread, take_idel, put_thread}

pub record IsPool (m : ThreadPool) : Type 0 where
  pub idel : IsDistinct m.idel_threads
  pub busy : IsDistinct m.busy_threads
  pub apart : (a : ℕ) → mem a m.idel_threads ≡ true → mem a m.busy_threads ≡ false
  pub bounded : length m.idel_threads + length m.busy_threads ≤ m.max_size

List-cases : (xs : List ℕ) → (xs ≡ []) ⊎ ((x : ℕ) × (rest : List ℕ) × (xs ≡ x ∷ rest))
List-cases [] = inl refl
List-cases (x ∷ rest) = inr (x, rest, refl)

pub take_idel_inv :
    (m m' : ThreadPool) (t : ℕ)
    → take_idel m ≡ some (t, m')
    → (rest : List ℕ) × (m.idel_threads ≡ t ∷ rest)
      × (m' ≡ record m { idel_threads = rest; busy_threads = insert t m.busy_threads })
unfolding take_idel
take_idel_inv m m' t e = elim (List-cases m.idel_threads) [
  | inl absent ↦ absurd (ground arith)
  | inr (x, rest, eq) ↦ (rest, ground arith, ground arith)
]

-- One thread becomes busy.
grown-IsPool :
    (m : ThreadPool) (rest : List ℕ) (t : ℕ)
    → IsPool m
    → IsDistinct rest
    → mem t rest ≡ false
    → mem t m.busy_threads ≡ false
    → ((a : ℕ) → mem a rest ≡ true → mem a m.idel_threads ≡ true)
    → length rest + length m.busy_threads < m.max_size
    → IsPool (record m { idel_threads = rest; busy_threads = insert t m.busy_threads })
grown-IsPool m rest t v d out free sub room = record {
  idel = d;
  busy = insert-IsDistinct t m.busy_threads free v.busy;
  apart = λ a h. ground (arith, v.apart a, sub a, mem-insert a t m.busy_threads);
  bounded = omega (arith, length-insert t m.busy_threads free);
}

take_idel-IsPool : (m m' : ThreadPool) (t : ℕ) → IsPool m → take_idel m ≡ some (t, m') → IsPool m'
take_idel-IsPool m m' t v e =
    let (rest, idel, eq) = take_idel_inv m m' t e in
    let d : IsDistinct (t ∷ rest) = subst IsDistinct idel v.idel in
    subst IsPool (sym eq) (
      grown-IsPool m rest t v d.1 d.0 (v.apart t (rw idel (ground arith)))
        (λ a h. rw idel (ground arith)) (omega (arith, v.bounded, ap length idel)))

pub get_thread_inv :
    (m m' : ThreadPool) (fresh t : ℕ)
    → get_thread m fresh ≡ got t m'
    → (take_idel m ≡ some (t, m'))
      ⊎ ((t ≡ fresh)
          × (m' ≡ record m { busy_threads = insert fresh m.busy_threads })
          × (length m.idel_threads + length m.busy_threads < m.max_size))
unfolding get_thread
get_thread_inv m m' fresh t e = elim (Option-cases (take_idel m)) [
  | inl absent ↦ inr (ground arith, ground arith, ground arith)
  | inr (r, eq) ↦ inl (ground arith)
]

get_thread-IsPool :
    (m m' : ThreadPool) (fresh t : ℕ)
    → IsPool m
    → mem fresh m.idel_threads ≡ false
    → mem fresh m.busy_threads ≡ false
    → get_thread m fresh ≡ got t m'
    → IsPool m'
get_thread-IsPool m m' fresh t v fi fb e = elim (get_thread_inv m m' fresh t e) [
  | inl taken ↦ take_idel-IsPool m m' t v taken
  | inr (same, eq, room) ↦
      subst IsPool (sym eq) (grown-IsPool m m.idel_threads fresh v v.idel fi fb (λ a h. h) room)
]

put_thread-IsPool :
    (m : ThreadPool) (p : ℕ) → IsPool m → mem p m.busy_threads ≡ true → IsPool (put_thread m p)
unfolding put_thread
put_thread-IsPool m p v i = record {
  idel = insert-IsDistinct p m.idel_threads (out v) v.idel;
  busy = erase-IsDistinct p m.busy_threads v.busy;
  apart = λ a h.
      ground (arith, v.apart a, mem-insert a p m.idel_threads, mem-erase a p m.busy_threads v.busy);
  bounded =
      omega
        (arith, v.bounded, length-insert p m.idel_threads (out v), length-erase p m.busy_threads i);
}
  where
    out : IsPool m → mem p m.idel_threads ≡ false
    out v = ground (arith, v.apart p)

-- A change of the counters only
counted-IsPool :
    (m : ThreadPool) (s w sa wa : ℕ)
    → IsPool m
    → IsPool (record m { sleeping = s; woken = w; sleeping_all = sa; woken_all = wa })
counted-IsPool m s w sa wa v = record {
  idel = v.idel;
  busy = v.busy;
  apart = v.apart;
  bounded = v.bounded;
}

Step-IsPool : {m m' : ThreadPool} → Step m m' → IsPool m → IsPool m'
Step-IsPool (calls {m} {m'} fresh t fi fb e) v = get_thread-IsPool m m' fresh t v fi fb e
Step-IsPool (sleeps {m} fresh e) v = counted-IsPool m _ _ _ _ v
Step-IsPool (wakes {m} n e) v = counted-IsPool m _ _ _ _ v
Step-IsPool (takes {m} {m'} n t w e) v = counted-IsPool m' _ _ _ _ (take_idel-IsPool m m' t v e)
Step-IsPool (sleeps_again {m} n w e) v = counted-IsPool m _ _ _ _ v
Step-IsPool (gives_up {m} n w e) v = counted-IsPool m _ _ _ _ v
Step-IsPool (puts {m} p i s sa) v = put_thread-IsPool m p v i
Step-IsPool (puts_and_wakes {m} p n i s) v =
    counted-IsPool (put_thread m p) _ _ _ _ (put_thread-IsPool m p v i)

StepAll-IsPool : {m m' : ThreadPool} → StepAll m m' → IsPool m → IsPool m'
StepAll-IsPool (step s) v = Step-IsPool s v
StepAll-IsPool (waits_all {m} p i) v = counted-IsPool m _ _ _ _ v
StepAll-IsPool (puts_and_wakes_all {m} p n i s) v =
    counted-IsPool (put_thread m p) _ _ _ _ (put_thread-IsPool m p v i)
StepAll-IsPool (wakes_all {m} n e) v = counted-IsPool m _ _ _ _ v
StepAll-IsPool (sleeps_all_again {m} p n w i) v = counted-IsPool m _ _ _ _ v
StepAll-IsPool (returns_all {m} n w e) v = counted-IsPool m _ _ _ _ v

-- Whatever the threads that use a new pool do, and in any order: no thread is twice in a set, none is idle
-- and busy at once, and there are never more of them than the size of the pool.
pub ReachAll-IsPool : (max_size : ℕ) {m : ThreadPool} → ReachAll (new_pool max_size) m → IsPool m
ReachAll-IsPool max_size here = record {
  idel = tt;
  busy = tt;
  apart = λ a h. refl;
  bounded = omega arith;
}
ReachAll-IsPool max_size (next r s) = StepAll-IsPool s (ReachAll-IsPool max_size r)
