-- ===== src/Timer/Nodes.antt =====
-- ff/include/ff/Timer.h: the tasks, and the memory they live in.
use libff.Prelude.{ℕ, Bool, Option, none, some, ◌==◌, if◌then◌else◌, ◌>>=◌}

-- A pointer: `none` is nullptr.
abbrev pub Ptr : Type 0
Ptr = Option ℕ

pub data TimerTaskType : Type 0 where
  once : TimerTaskType
  repeat : TimerTaskType

-- `func` is the name of a function.
pub record TimerTask : Type 0 where
  pub next : Ptr
  pub prev : Ptr
  pub id : ℕ
  pub type : TimerTaskType
  pub timeout : ℕ
  pub deadline : ℕ
  pub func : ℕ
  pub cancled : Bool

-- `none` is an address at which no task lives.
abbrev pub Heap : Type 0
Heap = ℕ → Option TimerTask

unfoldable pub write : Heap → ℕ → Option TimerTask → Heap
write h a c b = if b == a then c else h b

-- `*p`. A read through nullptr or a deleted task has no result.
abbrev pub load : Heap → Ptr → Option TimerTask
load h none = none
load h (some a) = h a

abbrev pub modify : Heap → Ptr → (TimerTask → TimerTask) → Option Heap
modify h none f = none
modify h (some a) f = h a >>= λ t. some (write h a (some (f t)))

-- `p->next = q`
abbrev pub set_next : Heap → Ptr → Ptr → Option Heap
set_next h p q = modify h p (λ t. record t { next = q })

-- `p->prev = q`
abbrev pub set_prev : Heap → Ptr → Ptr → Option Heap
set_prev h p q = modify h p (λ t. record t { prev = q })
