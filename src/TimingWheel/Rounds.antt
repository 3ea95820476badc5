-- ===== src/TimingWheel/Rounds.antt =====
-- The wheel as a set of countdowns.
use libff.Prelude.{
  ℕ, zero, suc, ◌+◌, ◌-◌, ◌*◌, ◌/◌, ◌%◌, ◌^◌, ◌≤◌, ◌<◌, ◌≡◌, refl, false, List, [], ◌∷◌, arith, ltb,
  leb, ◌==◌, if◌then◌else◌, All,
}
use libff.TimingWheel.{
  wheel_size, TimingTask, TimingWheel, add_task, Fate, pass_rounds, pass_hand, remaining, pass_node,
  pass_nodes, do_tick,
}
use native.Mathlib.Decide.{dec_lt, dec_le}

-- The ticks until the hand, at `cur`, next passes the node `p`: 1 to 100.
abbrev pub ticks_to : ℕ → ℕ → ℕ
ticks_to cur p = (p + 99 - cur) % wheel_size + 1

-- The ticks until a task in the node `p` is due.
abbrev pub due : ℕ → ℕ → TimingTask → ℕ
due cur p t = t.round * wheel_size + ticks_to cur p

-- A list of countdowns after `k` ticks: those that are due are gone, and the others are due `k` ticks
-- sooner.
unfoldable pub countdown : ℕ → ℕ → ℕ → List TimingTask → List TimingTask
countdown k cur p [] = []
countdown k cur p (t ∷ ts) =
    if ltb k (due cur p t)
    then record t { round = (due cur p t - k - 1) / wheel_size } ∷ countdown k cur p ts
    else countdown k cur p ts

abbrev pub IsActive : TimingTask → Type 0
IsActive t = t.cancled ≡ false

pass_nodes-current_pos :
    (fate : TimingTask → Fate) (n : ℕ) (w : TimingWheel)
    → (pass_nodes fate n w).current_pos ≡ w.current_pos
unfolding pass_nodes pass_node
pass_nodes-current_pos fate zero w = refl
pass_nodes-current_pos fate (suc n) w = pass_nodes-current_pos fate n w

-- Up to 100 rounds of an outer loop treat each node that the hand reaches once.
pass_nodes_lem :
    (fate : TimingTask → Fate) (n : ℕ) (w : TimingWheel) (p : ℕ)
    → n ≤ 100
    → p < 100
    → w.current_pos < 100
    → (pass_nodes fate n w).wheel p
      ≡ (if leb (ticks_to w.current_pos p) n then remaining fate (w.wheel p) else w.wheel p)
unfolding pass_nodes pass_node
pass_nodes_lem fate zero w p hn hp hc = ground arith
pass_nodes_lem fate (suc n) w p hn hp hc = elim (dec_le (ticks_to w.current_pos p) n) [
  | yes before ↦ ground (arith, pass_nodes_lem fate n w p)
  | no after ↦
      ground
        (arith, pass_nodes_lem fate n w p, pass_nodes_lem fate n w ((w.current_pos + suc n) % 100))
]

module _ (k cur p : ℕ) where
  -- The four ways in which a tick reaches a node.
  reach_both :
      (ts : List TimingTask)
      → All IsActive ts
      → 0 < k / 100
      → ticks_to cur p ≤ k % 100
      → remaining pass_hand (remaining (pass_rounds (k / 100)) ts) ≡ countdown k cur p ts
  unfolding remaining pass_hand pass_rounds countdown
  reach_both [] h r t = refl
  reach_both (x ∷ ts) h r t = ground (arith, reach_both ts h.1 r t)

  reach_rounds :
      (ts : List TimingTask)
      → All IsActive ts
      → 0 < k / 100
      → k % 100 < ticks_to cur p
      → remaining (pass_rounds (k / 100)) ts ≡ countdown k cur p ts
  unfolding remaining pass_rounds countdown
  reach_rounds [] h r t = refl
  reach_rounds (x ∷ ts) h r t = ground (arith, reach_rounds ts h.1 r t)

  reach_hand :
      (ts : List TimingTask)
      → All IsActive ts
      → k / 100 ≡ 0
      → ticks_to cur p ≤ k % 100
      → remaining pass_hand ts ≡ countdown k cur p ts
  unfolding remaining pass_hand countdown
  reach_hand [] h r t = refl
  reach_hand (x ∷ ts) h r t = ground (arith, reach_hand ts h.1 r t)

  reach_none :
      (ts : List TimingTask) → k / 100 ≡ 0 → k % 100 < ticks_to cur p → ts ≡ countdown k cur p ts
  unfolding countdown
  reach_none [] r t = refl
  reach_none (x ∷ ts) r t = ground (arith, reach_none ts r t)

-- `doTick` counts every task of a node down by the ticks that passed, however many rounds those
-- are: a task that is due is taken off its list, no other is, and the hand moves on by the ticks.
-- The tasks of the node are not cancelled, and node and hand are below 100.
pub do_tick_lem :
    (k p : ℕ) (w : TimingWheel)
    → p < 100
    → w.current_pos < 100
    → All IsActive (w.wheel p)
    → ((do_tick k w).wheel p ≡ countdown k w.current_pos p (w.wheel p))
      × ((do_tick k w).current_pos ≡ (w.current_pos + k) % 100)
unfolding do_tick
do_tick_lem k p w hp hc h = elim (dec_lt 0 (k / 100)) [
  | yes rounds ↦ elim (dec_le (ticks_to w.current_pos p) (k % 100)) [
    | yes passed ↦ ground (
      arith,
      pass_nodes_lem (pass_rounds (k / 100)) 100 w p,
      pass_nodes_lem pass_hand (k % 100) (pass_nodes (pass_rounds (k / 100)) 100 w) p,
      pass_nodes-current_pos (pass_rounds (k / 100)) 100 w,
      reach_both k w.current_pos p (w.wheel p),
    )
    | no ahead ↦ ground (
      arith,
      pass_nodes_lem (pass_rounds (k / 100)) 100 w p,
      pass_nodes_lem pass_hand (k % 100) (pass_nodes (pass_rounds (k / 100)) 100 w) p,
      pass_nodes-current_pos (pass_rounds (k / 100)) 100 w,
      reach_rounds k w.current_pos p (w.wheel p),
    )
  ]
  | no none_passed ↦ elim (dec_le (ticks_to w.current_pos p) (k % 100)) [
    | yes passed ↦
        ground
          (arith, pass_nodes_lem pass_hand (k % 100) w p, reach_hand k w.current_pos p (w.wheel p))
    | no ahead ↦
        ground
          (arith, pass_nodes_lem pass_hand (k % 100) w p, reach_none k w.current_pos p (w.wheel p))
  ]
]

-- The task that `addTask` makes for a function that is due after `total` ticks.
abbrev pub task_for : ℕ → ℕ → TimingTask
task_for func total = record { func = func; round = total / wheel_size; cancled = false }

-- `addTask` on a wheel that runs puts one task into the node it names, and that task is due after
-- the delay and the ticks since the last round, unless their sum is a multiple of 100: then it is
-- due 100 ticks later than that. The hand is below 100, the last round is not in the future, and
-- delay and tick count have no overflow.
pub add_task-due :
    (func delay tock : ℕ) (w : TimingWheel)
    → w.current_pos < 100
    → w.stoped ≡ false
    → w.last_tock ≤ tock
    → delay + tock < 2 ^ 64
    → let total = delay + (tock - w.last_tock) in
      let pos = (w.current_pos + total % 100) % 100 in
      ((add_task func delay tock w).1.wheel pos ≡ task_for func total ∷ w.wheel pos)
      × (due w.current_pos pos (task_for func total)
          ≡ (if total % 100 == 0 then total + 100 else total))
unfolding add_task
add_task-due func delay tock w hc run past small = ground arith
