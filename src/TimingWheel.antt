-- ===== src/TimingWheel.antt =====
-- ff/src/timer/TimingWheel.cpp: the timing wheel. What `doTick` and `addTask` do under the mutex is
-- one step; the threads that run the expired functions only take them from `m_expiredTaskFuncs`.
mod Rounds
mod Tests
use libff.Prelude.{
  ℕ, zero, suc, ◌+◌, ◌-◌, ◌/◌, ◌%◌, ◌^◌, Bool, false, Option, none, some, List, [], ◌∷◌, ◌++◌, ltb,
  ◌==◌, if◌then◌else◌,
}

abbrev pub wheel_size : ℕ
wheel_size = 100

-- `TimingTask`; `func` names its function.
pub record TimingTask : Type 0 where
  pub func : ℕ
  pub round : ℕ
  pub cancled : Bool

-- `m_wheel` at each position: the task list of the node. A `std::set` of pointers has no order that
-- the code relies on; here the last inserted comes first.
pub record TimingWheel : Type 0 where
  pub current_pos : ℕ
  pub wheel : ℕ → List TimingTask
  pub expired : List ℕ
  pub stoped : Bool
  pub last_tock : ℕ

-- The wheel with one node's list replaced.
abbrev pub update : (ℕ → List TimingTask) → ℕ → List TimingTask → ℕ → List TimingTask
update wheel pos tasks i = if i == pos then tasks else wheel i

-- `addTask` at the tick count `tock`; `none` is a null pointer. Sums are of uint64_t.
unfoldable pub add_task : ℕ → ℕ → ℕ → TimingWheel → Option TimingTask × TimingWheel
add_task func delay_ms tock w =
    let delay = (delay_ms + (tock + 2 ^ 64 - w.last_tock) % 2 ^ 64) % 2 ^ 64 in
    let pos = (w.current_pos + delay % wheel_size) % wheel_size in
    let task : TimingTask = record { func = func; round = delay / wheel_size; cancled = false } in
    if w.stoped
    then (none, w)
    else (some task, record w { wheel = update w.wheel pos (task ∷ w.wheel pos) })

-- What becomes of one task: it leaves the list and its function is queued, it leaves it, or it stays.
pub data Fate : Type 0 where
  fires : Fate
  leaves : Fate
  stays : ℕ → Fate

-- The body of the inner loop where whole rounds have passed.
unfoldable pub pass_rounds : ℕ → TimingTask → Fate
pass_rounds round task =
    if task.cancled
    then leaves
    else if task.round == 0
    then fires
    else if ltb task.round round
    then fires
    else stays (task.round - round)

-- The body of the inner loop where the hand passes the node.
unfoldable pub pass_hand : TimingTask → Fate
pass_hand task =
    if task.cancled
    then leaves
    else if task.round == 0
    then fires
    else if ltb 0 task.round
    then stays (task.round - 1)
    else stays task.round

-- The tasks that stay in a list, and the functions that are queued.
abbrev pub kept : Fate → TimingTask → List TimingTask → List TimingTask
kept fires task rest = rest
kept leaves task rest = rest
kept (stays r) task rest = record task { round = r } ∷ rest

abbrev pub queued : Fate → TimingTask → List ℕ → List ℕ
queued fires task rest = task.func ∷ rest
queued leaves task rest = rest
queued (stays r) task rest = rest

unfoldable pub remaining : (TimingTask → Fate) → List TimingTask → List TimingTask
remaining fate [] = []
remaining fate (t ∷ ts) = kept (fate t) t (remaining fate ts)

unfoldable pub fired : (TimingTask → Fate) → List TimingTask → List ℕ
fired fate [] = []
fired fate (t ∷ ts) = queued (fate t) t (fired fate ts)

-- One round of an outer loop: the node at `pos`.
unfoldable pub pass_node : (TimingTask → Fate) → ℕ → TimingWheel → TimingWheel
pass_node fate pos w = record w {
  wheel = update w.wheel pos (remaining fate (w.wheel pos));
  expired = w.expired ++ fired fate (w.wheel pos);
}

-- `for (i = 1; i <= n; ++i)` over the nodes `(m_currentPos + i) % WHEEL_SIZE`: the first `n` rounds
unfoldable pub pass_nodes : (TimingTask → Fate) → ℕ → TimingWheel → TimingWheel
pass_nodes fate zero w = w
pass_nodes fate (suc n) w =
    let before = pass_nodes fate n w in pass_node fate ((w.current_pos + suc n) % wheel_size) before

-- `doTick`
unfoldable pub do_tick : ℕ → TimingWheel → TimingWheel
do_tick tick_passed w =
    let round = tick_passed / wheel_size in
    let tick = tick_passed % wheel_size in
    let w' = if ltb 0 round then pass_nodes (pass_rounds round) wheel_size w else w in
    record (pass_nodes pass_hand tick w') {
      current_pos = if tick == 0 then w.current_pos else (w.current_pos + tick) % wheel_size;
    }

-- The loop of `getLastMs` from `i` on, for `n` rounds.
unfoldable pub last_ms_loop : ℕ → ℕ → TimingWheel → ℕ
last_ms_loop zero i w = 1000
last_ms_loop (suc n) i w =
    let rest = last_ms_loop n (i + 1) w in
    elim (w.wheel ((w.current_pos + i) % wheel_size)) [ [] ↦ rest | t ∷ ts ↦ i ]

-- `getLastMs`
unfoldable pub get_last_ms : TimingWheel → ℕ
unfolding last_ms_loop
get_last_ms w = last_ms_loop (wheel_size - 1) 1 w

-- One round of `run` after the wait, at the tick count `tock`
unfoldable pub run_round : ℕ → TimingWheel → TimingWheel
unfolding do_tick
run_round tock w =
    let passed = (tock + 2 ^ 64 - w.last_tock) % 2 ^ 64 in
    let w' = record w { last_tock = tock } in if passed == 0 then w' else do_tick passed w'
