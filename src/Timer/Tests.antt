-- ===== src/Timer/Tests.antt =====
-- A timer with two tasks on its list, a third one cancelled behind them, and one that waits.
use libff.Prelude.{
  ℕ, ◌+◌, ◌^◌, ◌≡◌, refl, inr, Bool, true, false, Option, none, some, List, [], ◌∷◌, ◌++◌, arith,
  ◌==◌, if◌then◌else◌, ◌>>=◌,
}
use libff.Timer.Nodes.{Ptr, TimerTask, Heap, write, once}
use libff.Timer.Chain.{Cells}
use libff.Timer.Pending.{insert_cells}
use libff.Timer.Expiry.{kept, fired, last_due}
use libff.Timer.Faults.{expire_loop_faults}
use libff.Timer.Invariant.{
  IsTimer, process_new_tasks-IsTimer, expire_tasks-IsTimer, set_timeout-IsTimer, timeout_task,
}
use libff.Timer.NextWait.{next_wait-process_new_tasks, time_until, sooner, earliest}
use libff.Timer.Cancel.{place_of, cancel_first, OnlyHeap, cancel_timeout-IsTimer}
use libff.Timer.{
  Timer, process_new_tasks, set_timeout, exec_task, set_interval, cancel_timeout, expire_tasks,
  expire_loop, get_next_wait_ms, find_task,
}

abbrev task_at : Ptr → Ptr → ℕ → ℕ → Bool → TimerTask
task_at next prev id deadline cancled = record {
  next = next;
  prev = prev;
  id = id;
  type = once;
  timeout = 50;
  deadline = deadline;
  func = id + 20;
  cancled = cancled;
}

abbrev listed : Cells
listed = (1, task_at none none 4 100 false) ∷ (2, task_at none none 5 200 true) ∷ []

abbrev waiting : Cells
waiting = (3, task_at none none 6 150 false) ∷ []

abbrev small_heap : Heap
small_heap a =
    if a == 1
    then some (task_at (some 2) none 4 100 false)
    else if a == 2
    then some (task_at none (some 1) 5 200 true)
    else if a == 3
    then some (task_at none none 6 150 false)
    else none

abbrev small : Timer
small = record {
  heap = small_heap;
  tasks = some 1;
  insert_tasks = 3 ∷ [];
  repeat_tasks = [];
  next_id = 7;
  stop = false;
  jobs = [];
}

small-IsTimer : IsTimer small listed waiting
small-IsTimer = record {
  chain = (refl, refl, (refl, refl, tt));
  tasks = refl;
  waiting = (refl, refl, refl, tt);
  inserted = refl;
  sorted = omega arith;
}

process_new_tasks-IsTimer_example :
    (m' : Timer) × (process_new_tasks 3 small ≡ some m')
    × IsTimer m' (insert_cells waiting listed) []
process_new_tasks-IsTimer_example =
    process_new_tasks-IsTimer 3 small listed waiting small-IsTimer (omega arith)

expire_tasks-IsTimer_example :
    (m' : Timer) × (expire_tasks (100 ∷ 100 ∷ []) small ≡ some m')
    × IsTimer m' (kept (100 ∷ 100 ∷ []) listed) waiting
    × (m'.jobs ≡ [] ++ fired (100 ∷ 100 ∷ []) listed)
unfolding kept
expire_tasks-IsTimer_example =
    expire_tasks-IsTimer (100 ∷ 100 ∷ []) small listed waiting small-IsTimer (omega arith)
      (inr refl)

-- The second task, which is cancelled, is the last one, and the first is not due at 99.
expire_loop_faults_example : expire_loop (99 ∷ 99 ∷ []) small_heap (some 1) (some 1) ≡ none
unfolding kept last_due
expire_loop_faults_example =
    expire_loop_faults (99 ∷ 99 ∷ []) small_heap listed (refl, refl, (refl, refl, tt)) refl
      (λ e. cc)

set_timeout-IsTimer_example :
    (m' : Timer) × (set_timeout small 9 77 (2 ^ 32 + 30) 60 ≡ some (m', 7))
    × IsTimer m' listed (waiting ++ (9, timeout_task small 77 (2 ^ 32 + 30) 60) ∷ [])
set_timeout-IsTimer_example =
    set_timeout-IsTimer small 9 77 (2 ^ 32 + 30) 60 listed waiting small-IsTimer refl refl

next_wait-process_new_tasks_example :
    (m' : Timer) × (process_new_tasks 3 small ≡ some m')
    × (get_next_wait_ms m'.heap m'.tasks 40
        ≡ some (time_until (sooner (earliest waiting) (earliest listed)) 40))
next_wait-process_new_tasks_example =
    next_wait-process_new_tasks 3 small listed waiting 40 small-IsTimer (omega arith)

the_earliest : time_until (sooner (earliest waiting) (earliest listed)) 40 ≡ 60
unfolding earliest sooner
the_earliest = refl

cancel_timeout-IsTimer_example :
    (m' : Timer) × (cancel_timeout 2 small 4 ≡ some m')
    × IsTimer m' (cancel_first 4 listed) waiting
    × OnlyHeap small m' listed waiting
unfolding find_task place_of
cancel_timeout-IsTimer_example =
    cancel_timeout-IsTimer 2 small 4 listed waiting small-IsTimer refl (omega arith)

-- A task that was cancelled is deleted and not called; an interval waits again.
exec_cancelled :
    (exec_task small 2 300 ≡ some (record small { heap = write small_heap 2 none }, []))
unfolding exec_task
exec_cancelled = refl

abbrev calls_and_waiting : Timer × List ℕ → Option (List ℕ × List ℕ)
calls_and_waiting (m, calls) = some (calls, m.insert_tasks)

exec_interval :
    (set_interval small 9 77 30 60 >>= λ r. exec_task r.0 9 100 >>= calls_and_waiting)
    ≡ some (77 ∷ [], 3 ∷ 9 ∷ 9 ∷ [])
unfolding set_interval exec_task write
exec_interval = refl
