-- ===== src/Buffer/Valid.antt =====
-- The invariant of a buffer, and the bytes it stands for.
use libff.Prelude.{◌>>=◌, ◌^◌, ◌≤◌, ◌<◌, Option, none, some, List, arith, length, take, Returns}
use libff.Buffer.{Cell, Buffer, cells, empty}

pub record IsValid (b : Buffer) : Type 0 where
  pub owned : b.capacity ≤ length (cells b.block)
  pub fits : b.size ≤ b.capacity
  pub word : b.capacity < 2 ^ 32
  pub position : b.read_pos ≤ b.size

-- `getData()` up to `getSize()`.
abbrev pub contents : Buffer → List Cell
contents b = take b.size (cells b.block)

pub empty-IsValid : IsValid empty
empty-IsValid = omega arith

-- Total correctness of a sequence of two steps.
pub Returns-bind :
    {A B : Type 0} (P : A → Type 0) (Q : B → Type 0) (o : Option A) (f : A → Option B)
    → Returns o P
    → ((a : A) → P a → Returns (f a) Q)
    → Returns (o >>= f) Q
Returns-bind P Q none f h k = absurd h
Returns-bind P Q (some a) f h k = k a h
