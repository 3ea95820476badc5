-- ===== src/ThreadPool/Steps.antt =====
-- The steps of the threads that use a ThreadPool, one for each stretch under m_mutex.
use libff.Prelude.{ℕ, suc, ◌+◌, ◌≡◌, true, false, some, []}
use libff.ThreadPool.Sets.{mem}
use libff.ThreadPool.{ThreadPool, got, waits, get_thread, take_idel, put_thread}

-- The steps without `waitAll`. A caller in `getThread` that sleeps is woken by a notification, by the end
-- of its time or without a cause.
pub data Step : ThreadPool → ThreadPool → Type 0 where
  calls :
      {m m' : ThreadPool} (fresh t : ℕ)
      → mem fresh m.idel_threads ≡ false
      → mem fresh m.busy_threads ≡ false
      → get_thread m fresh ≡ got t m'
      → Step m m'
  sleeps :
      {m : ThreadPool} (fresh : ℕ)
      → get_thread m fresh ≡ waits
      → Step m (record m { sleeping = m.sleeping + 1 })
  wakes :
      {m : ThreadPool} (n : ℕ)
      → m.sleeping ≡ suc n
      → Step m (record m { sleeping = n; woken = m.woken + 1 })
  takes :
      {m m' : ThreadPool} (n t : ℕ)
      → m.woken ≡ suc n
      → take_idel m ≡ some (t, m')
      → Step m (record m' { woken = n })
  sleeps_again :
      {m : ThreadPool} (n : ℕ)
      → m.woken ≡ suc n
      → m.idel_threads ≡ []
      → Step m (record m { woken = n; sleeping = m.sleeping + 1 })
  gives_up :
      {m : ThreadPool} (n : ℕ)
      → m.woken ≡ suc n
      → m.idel_threads ≡ []
      → Step m (record m { woken = n })
  puts :
      {m : ThreadPool} (p : ℕ)
      → mem p m.busy_threads ≡ true
      → m.sleeping ≡ 0
      → m.sleeping_all ≡ 0
      → Step m (put_thread m p)
  puts_and_wakes :
      {m : ThreadPool} (p n : ℕ)
      → mem p m.busy_threads ≡ true
      → m.sleeping ≡ suc n
      → Step m (record (put_thread m p) { sleeping = n; woken = m.woken + 1 })

-- With `waitAll`, whose callers sleep on the same m_cond: `notify_one` may wake one of
-- them. They too wake without a cause.
pub data StepAll : ThreadPool → ThreadPool → Type 0 where
  step : {m m' : ThreadPool} → Step m m' → StepAll m m'
  waits_all :
      {m : ThreadPool} (p : ℕ)
      → mem p m.busy_threads ≡ true
      → StepAll m (record m { sleeping_all = m.sleeping_all + 1 })
  puts_and_wakes_all :
      {m : ThreadPool} (p n : ℕ)
      → mem p m.busy_threads ≡ true
      → m.sleeping_all ≡ suc n
      → StepAll m (record (put_thread m p) { sleeping_all = n; woken_all = m.woken_all + 1 })
  wakes_all :
      {m : ThreadPool} (n : ℕ)
      → m.sleeping_all ≡ suc n
      → StepAll m (record m { sleeping_all = n; woken_all = m.woken_all + 1 })
  sleeps_all_again :
      {m : ThreadPool} (p n : ℕ)
      → m.woken_all ≡ suc n
      → mem p m.busy_threads ≡ true
      → StepAll m (record m { woken_all = n; sleeping_all = m.sleeping_all + 1 })
  returns_all :
      {m : ThreadPool} (n : ℕ)
      → m.woken_all ≡ suc n
      → m.busy_threads ≡ []
      → StepAll m (record m { woken_all = n })

pub data Reach (s : ThreadPool) : ThreadPool → Type 0 where
  here : Reach s s
  next : {m m' : ThreadPool} → Reach s m → Step m m' → Reach s m'

pub data ReachAll (s : ThreadPool) : ThreadPool → Type 0 where
  here : ReachAll s s
  next : {m m' : ThreadPool} → ReachAll s m → StepAll m m' → ReachAll s m'
