-- ===== src/Timer.antt =====
-- ff/src/timer/Timer.cpp: the tasks in the order of their deadlines, a list linked both ways.
pub mod Nodes
mod Chain
mod Insertion
mod Pending
mod Expiry
mod Faults
mod Invariant
mod NextWait
mod Cancel
mod Tests
use libff.Prelude.{
  ℕ, zero, suc, ◌+◌, ◌-◌, ◌*◌, ◌/◌, ◌%◌, ◌^◌, ◌≤◌, ◌<◌, min, bit_and, bit_or, bit_xor, ◌≡◌, refl,
  sym, ap, ◌∙◌, ◌≢◌, ◌↔◌, ◌⊎◌, inl, inr, Bool, true, false, not, ◌&&◌, ◌||◌, Option, none, some,
  List, [], ◌∷◌, ◌++◌, map, append-nil, append_assoc, arith, ltb, leb, ◌==◌, if◌then◌else◌, ltb→lt,
  lt→ltb, le→ltb, leb→le, le→leb, lt→leb, ==_iff, ==_refl, Bool-cases, Option-cases, ◌>>=◌, length,
  get_elem?, get_or, set, take, drop, replicate, All, length-append, length-set, take-append-drop,
  length-take, length-drop, length-replicate, take-length_append, drop-length_append,
  drop-length_add_append, take_all, drop_all, take-append_le, drop-append_le,
  get_elem?-length_append, get_elem?-none, take_nil, drop_nil, take-take, drop-take, get_elem?-take,
  get_elem?-some, drop-drop, drop-min, length-map, take-replicate_append, take-length_add_append,
  drop_pos, Bytes, IsByte, add32, le_bytes, le_value, length-le_bytes, le_value-le_bytes,
  le_bytes-IsByte, sub32, copy_out, copy_in, written, copy_in-written, copy_in-outside,
  length-written, take-written, copy_out-inside, copy_out-outside, Returns, Returns_weaken,
  same_table, agree_below, bit_and_low4, bit_or_nibbles, bit_and_low2, bit_and_low6, bit_and_mid2,
  bit_or_low2, bit_or_low6, bit_or_comm, pow2, ones, bit_or-side, pow2_pos, bit_and-ones, codes,
  digit, numeral_loop, numeral, padded,
}
use libff.Timer.Nodes.{
  Ptr, TimerTaskType, once, repeat, TimerTask, Heap, write, load, modify, set_next, set_prev,
}

-- `p->prev` is nullptr: the new task becomes the first one.
abbrev pub link_first : Heap → Ptr → Ptr → Option (Heap × Ptr)
link_first h task p = do
  h ← set_next h task p
  h ← set_prev h task none
  h ← set_prev h p task
  some (h, task)

abbrev pub link_between : Heap → Ptr → Ptr → Ptr → Ptr → Option (Heap × Ptr)
link_between h tasks prev task p = do
  h ← set_next h prev task
  h ← set_prev h task prev
  h ← set_next h task p
  h ← set_prev h p task
  some (h, tasks)

abbrev pub link_before : Heap → Ptr → Ptr → Ptr → Ptr → Option (Heap × Ptr)
link_before h tasks none task p = link_first h task p
link_before h tasks (some q) task p = link_between h tasks (some q) task p

-- What stands behind the loop
abbrev pub link_last : Heap → Ptr → Ptr → Ptr → Option (Heap × Ptr)
link_last h tasks task p = do
  h ← set_next h p task
  h ← set_prev h task p
  h ← set_next h task none
  some (h, tasks)

-- The loop of `processNewTask` with what follows it. The result is the memory and `m_tasks`; it is
-- `none` where the code would read through nullptr or a dangling pointer, or where the fuel runs out.
unfoldable pub insert_loop : ℕ → Heap → Ptr → Ptr → Ptr → Option (Heap × Ptr)
insert_loop zero h tasks task p = none
insert_loop (suc fuel) h tasks task p = do
  n ← load h p
  t ← load h task
  let rest = insert_loop fuel h tasks task n.next
  if leb t.deadline n.deadline
      then link_before h tasks n.prev task p
      else elim n.next [ none ↦ link_last h tasks task p | some q ↦ rest ]

abbrev pub link_only : Heap → Ptr → Option (Heap × Ptr)
link_only h task = do h ← set_next h task none; h ← set_prev h task none; some (h, task)

-- `Timer::processNewTask`
unfoldable pub process_new_task : ℕ → Heap → Ptr → Ptr → Option (Heap × Ptr)
unfolding insert_loop
process_new_task fuel h none task = link_only h task
process_new_task fuel h (some p) task = insert_loop fuel h (some p) task (some p)

-- The loop of `Timer::processNewTasks` over `m_insertTasks`
unfoldable pub insert_all : ℕ → Heap → Ptr → List ℕ → Option (Heap × Ptr)
insert_all fuel h tasks [] = some (h, tasks)
insert_all fuel h tasks (a ∷ new) =
    process_new_task fuel h tasks (some a) >>= λ r. insert_all fuel r.0 r.1 new

-- `Timer::getNextWaitMs`: the bits of the int64_t, so that -1, no task to wait for, is 2^64 - 1. The
-- difference of two uint64_t keeps its bits as it becomes one. `none` is a dangling pointer.
unfoldable pub get_next_wait_ms : Heap → Ptr → ℕ → Option ℕ
get_next_wait_ms h none tock = some (2 ^ 64 - 1)
get_next_wait_ms h (some a) tock = do
  task ← h a
  some (if ltb tock task.deadline then task.deadline - tock else 0)

-- `prev->next = next; next->prev = prev;`
abbrev pub unlink_between : Heap → Ptr → Ptr → Option Heap
unlink_between h prev next = do h ← set_next h prev next; set_prev h next prev

-- `m_tasks = next; if (nullptr != m_tasks) m_tasks->prev = nullptr;`
abbrev pub unlink_first : Heap → Ptr → Option (Heap × Ptr)
unlink_first h none = some (h, none)
unlink_first h (some q) = set_prev h (some q) none >>= λ h. some (h, some q)

-- One task off the list: the memory and `m_tasks`
abbrev pub unlink : Heap → Ptr → TimerTask → Option (Heap × Ptr)
unlink h tasks task = elim task.prev [
  | none ↦ unlink_first h task.next
  | some q ↦ unlink_between h (some q) task.next >>= λ h. some (h, tasks)
]

-- The loop over the tasks in `timerThreadFunc`, with the readings of the clock in order, one for each
-- round. The result has the memory, `m_tasks` and the tasks that the thread pool was given. It is
-- `none` at a null pointer or a dangling one, and where there are too few readings.
unfoldable pub expire_loop : List ℕ → Heap → Ptr → Ptr → Option (Heap × Ptr × List ℕ)
expire_loop readings h tasks none = some (h, tasks, [])
expire_loop [] h tasks (some a) = none
expire_loop (now ∷ readings) h tasks (some a) = do
  task ← h a
  let stays = expire_loop readings h tasks task.next
  if leb task.deadline now || task.cancled
      then (do
        r ← unlink h tasks task
        e ← expire_loop readings r.0 r.1 task.next
        some (e.0, e.1, a ∷ e.2))
      else stays

-- The members, with the counter `s_id`. `jobs` has what `m_threadPool.exec` was given, the first one
-- first; `repeat_tasks` is m_reapetTasks.
pub record Timer : Type 0 where
  pub heap : Heap
  pub tasks : Ptr
  pub insert_tasks : List ℕ
  pub repeat_tasks : List ℕ
  pub next_id : ℕ
  pub stop : Bool
  pub jobs : List ℕ

-- `Timer::processNewTasks`
unfoldable pub process_new_tasks : ℕ → Timer → Option Timer
process_new_tasks fuel m =
    if length m.insert_tasks == 0
    then some m
    else (insert_all fuel m.heap m.tasks m.insert_tasks >>= λ r.
        some (record m { heap = r.0; tasks = r.1; insert_tasks = [] }))

-- `Timer::insertTask`, with the reading of the clock
unfoldable pub insert_task : Timer → ℕ → ℕ → Option Timer
insert_task m task tock = if m.stop then some (record m { heap = write m.heap task none }) else (do
  t ← m.heap task
  let t : TimerTask = record t { deadline = (tock + t.timeout) % 2 ^ 64 }
  some (record m { heap = write m.heap task (some t); insert_tasks = m.insert_tasks ++ task ∷ [] }))

-- What `new TimerTask` and the assignments behind it make. The field `timeout` is a uint32_t.
abbrev pub new_task : Timer → TimerTaskType → ℕ → ℕ → TimerTask
new_task m type func timeout_ms = record {
  next = none;
  prev = none;
  id = m.next_id;
  type = type;
  timeout = timeout_ms % 2 ^ 32;
  deadline = 0;
  func = func;
  cancled = false;
}

abbrev pub allocated : Timer → ℕ → TimerTask → Timer
allocated m task t = record m {
  heap = write m.heap task (some t);
  next_id = (m.next_id + 1) % 2 ^ 64;
}

-- `return task->id`, a read of the task that `insertTask` may have deleted
abbrev pub id_of_task : ℕ → Timer → Option (Timer × ℕ)
id_of_task task m = m.heap task >>= λ t. some (m, t.id)

-- `Timer::setTimeout`. `task` is the address that `new` gives.
unfoldable pub set_timeout : Timer → ℕ → ℕ → ℕ → ℕ → Option (Timer × ℕ)
unfolding insert_task
set_timeout m task func timeout_ms tock = do
  m ← insert_task (allocated m task (new_task m once func timeout_ms)) task tock
  id_of_task task m

-- `Timer::setInterval`
unfoldable pub set_interval : Timer → ℕ → ℕ → ℕ → ℕ → Option (Timer × ℕ)
unfolding insert_task
set_interval m task func timeout_ms tock = do
  let m' = allocated m task (new_task m repeat func timeout_ms)
  m ← insert_task (record m' { repeat_tasks = m.repeat_tasks ++ task ∷ [] }) task tock
  id_of_task task m

-- `Timer::execTask`: the timer and the functions that were called
unfoldable pub exec_task : Timer → ℕ → ℕ → Option (Timer × List ℕ)
unfolding insert_task
exec_task m task tock = do
  t ← m.heap task
  let deleted : Timer = record m { heap = write m.heap task none }
  if t.cancled then some (deleted, []) else elim t.type [
    | once ↦ some (deleted, t.func ∷ [])
    | repeat ↦ insert_task m task tock >>= λ m'. some (m', t.func ∷ [])
  ]

-- The search of `cancelTimeout` in one of the lists of pointers
unfoldable pub find_task : Heap → ℕ → List ℕ → Option Ptr
find_task h id [] = some none
find_task h id (a ∷ tasks) = do t ← h a; if t.id == id then some (some a) else find_task h id tasks

-- The search of `cancelTimeout` along `next`, on fuel
unfoldable pub find_linked : ℕ → Heap → ℕ → Ptr → Option Ptr
find_linked fuel h id none = some none
find_linked zero h id (some a) = none
find_linked (suc fuel) h id (some a) = do
  t ← h a
  let rest = find_linked fuel h id t.next
  if t.id == id then some (some a) else rest

abbrev pub erase : ℕ → List ℕ → List ℕ
erase a [] = []
erase a (b ∷ tasks) = if a == b then tasks else b ∷ erase a tasks

-- `p->cancled = true`
abbrev pub set_cancled : Heap → Ptr → Option Heap
set_cancled h p = modify h p (λ t. record t { cancled = true })

-- The last of the three searches
abbrev pub cancel_new : Timer → Ptr → Option Timer
cancel_new m none = some m
cancel_new m (some a) = set_cancled m.heap (some a) >>= λ h. some (record m { heap = h })

abbrev pub cancel_listed : Timer → ℕ → Ptr → Option Timer
cancel_listed m id none = find_task m.heap id m.insert_tasks >>= cancel_new m
cancel_listed m id (some a) = set_cancled m.heap (some a) >>= λ h. some (record m { heap = h })

abbrev pub cancel_repeated : ℕ → Timer → ℕ → Ptr → Option Timer
cancel_repeated fuel m id none = find_linked fuel m.heap id m.tasks >>= cancel_listed m id
cancel_repeated fuel m id (some a) = set_cancled m.heap (some a) >>= λ h.
    some (record m { heap = h; repeat_tasks = erase a m.repeat_tasks })

-- `Timer::cancelTimeout`
unfoldable pub cancel_timeout : ℕ → Timer → ℕ → Option Timer
unfolding find_task find_linked
cancel_timeout fuel m id = find_task m.heap id m.repeat_tasks >>= cancel_repeated fuel m id

-- One round of `timerThreadFunc` behind the wait, when `m_stop` is not set
unfoldable pub expire_tasks : List ℕ → Timer → Option Timer
unfolding expire_loop
expire_tasks readings m = do
  e ← expire_loop readings m.heap m.tasks m.tasks
  some (record m { heap = e.0; tasks = e.1; jobs = m.jobs ++ e.2 })
