-- ===== src/Timer/NextWait.antt =====
-- The wait that `getNextWaitMs` gives behind `processNewTasks`.
use libff.Prelude.{
  ℕ, ◌+◌, ◌-◌, ◌^◌, ◌≤◌, ◌≡◌, refl, ap, ◌∙◌, inl, inr, Option, none, some, [], ◌∷◌, arith, leb,
  Bool-cases, length, min,
}
use libff.Timer.Nodes.{TimerTask}
use libff.Timer.Insertion.{insert_cell}
use libff.Timer.Chain.{Cells}
use libff.Timer.Pending.{insert_cells, AllFrom}
use libff.Timer.Invariant.{IsTimer, process_new_tasks-IsTimer}
use libff.Timer.{Timer, process_new_tasks, get_next_wait_ms}

-- The earlier of two deadlines, either of which may be missing
unfoldable pub sooner : Option ℕ → Option ℕ → Option ℕ
sooner none o = o
sooner (some a) none = some a
sooner (some a) (some b) = some (min a b)

-- The earliest deadline of some tasks
unfoldable pub earliest : Cells → Option ℕ
unfolding sooner
earliest [] = none
earliest ((_, t) ∷ xs) = sooner (some t.deadline) (earliest xs)

-- The milliseconds until a deadline, none of them if it has passed, and -1 as a uint64_t if there is none
abbrev pub time_until : Option ℕ → ℕ → ℕ
time_until none tock = 2 ^ 64 - 1
time_until (some n) tock = n - tock

sooner_swap :
    (a b : ℕ) (o : Option ℕ)
    → sooner (some a) (sooner (some b) o) ≡ sooner (some b) (sooner (some a) o)
unfolding sooner
sooner_swap a b none = ap some (omega arith)
sooner_swap a b (some c) = ap some (omega arith)

sooner_front :
    (a : ℕ) (o p : Option ℕ) → sooner o (sooner (some a) p) ≡ sooner (sooner (some a) o) p
unfolding sooner
sooner_front a none p = refl
sooner_front a (some b) none = ap some (omega arith)
sooner_front a (some b) (some c) = ap some (omega arith)

earliest-insert_cell :
    (a : ℕ) (t : TimerTask) (xs : Cells)
    → earliest (insert_cell a t xs) ≡ sooner (some t.deadline) (earliest xs)
unfolding insert_cell earliest
earliest-insert_cell a t [] = refl
earliest-insert_cell a t ((c, v) ∷ xs) = elim (Bool-cases (leb t.deadline v.deadline)) [
  | inl le ↦ rw le refl
  | inr gt ↦
      rw (gt, earliest, earliest-insert_cell a t xs)
        (sooner_swap v.deadline t.deadline (earliest xs))
]

earliest-insert_cells :
    (new xs : Cells) → earliest (insert_cells new xs) ≡ sooner (earliest new) (earliest xs)
unfolding insert_cells earliest sooner
earliest-insert_cells [] xs = refl
earliest-insert_cells ((a, t) ∷ new) xs =
    earliest-insert_cells new (insert_cell a t xs)
    ∙ (ap (sooner (earliest new)) (earliest-insert_cell a t xs)
        ∙ sooner_front t.deadline (earliest new) (earliest xs))

sooner-AllFrom : (n : ℕ) (xs : Cells) → AllFrom n xs → sooner (some n) (earliest xs) ≡ some n
unfolding earliest
sooner-AllFrom n [] all = unfold sooner in refl
sooner-AllFrom n ((a, t) ∷ xs) all =
    sooner_swap n t.deadline (earliest xs)
    ∙ (ap (sooner (some t.deadline)) (sooner-AllFrom n xs all.1)
        ∙ unfold sooner in ap some (omega (arith, all.0)))

get_next_wait_ms-earliest :
    (m : Timer) (xs new : Cells) (tock : ℕ)
    → IsTimer m xs new
    → get_next_wait_ms m.heap m.tasks tock ≡ some (time_until (earliest xs) tock)
unfolding get_next_wait_ms earliest
get_next_wait_ms-earliest m [] new tock v = rw v.tasks refl
get_next_wait_ms-earliest m ((a, t) ∷ xs) new tock v =
    rw (v.tasks, v.chain.0, sooner-AllFrom t.deadline xs v.sorted.0) (ground arith)

-- In a valid timer `processNewTasks` with `getNextWaitMs` behind it end without a fault, with as many rounds
-- as tasks. The 64 bits of the result are the time until the earliest deadline of all tasks, those of the
-- list and the new ones: 0 if it has passed, and those of -1 if there is no task.
pub next_wait-process_new_tasks :
    (fuel : ℕ) (m : Timer) (xs new : Cells) (tock : ℕ)
    → IsTimer m xs new
    → length xs + length new ≤ fuel
    → (m' : Timer) × (process_new_tasks fuel m ≡ some m')
      × (get_next_wait_ms m'.heap m'.tasks tock
          ≡ some (time_until (sooner (earliest new) (earliest xs)) tock))
next_wait-process_new_tasks fuel m xs new tock v f =
    let (m', e, v') = process_new_tasks-IsTimer fuel m xs new v f in
    (
      m',
      e,
      get_next_wait_ms-earliest m' (insert_cells new xs) [] tock v'
          ∙ ap (λ o. some (time_until o tock)) (earliest-insert_cells new xs),
    )
