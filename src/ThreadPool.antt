-- ===== src/ThreadPool.antt =====
-- ff/src/thread/ThreadPool.cpp, the class ThreadPool: who gets which thread, and who sleeps on m_cond.
mod Sets
mod Steps
mod Bounds
mod Wakeups
mod Tests
use libff.Prelude.{
  ℕ, zero, suc, ◌+◌, ◌-◌, ◌*◌, ◌/◌, ◌%◌, ◌^◌, ◌≤◌, ◌<◌, min, bit_and, bit_or, bit_xor, ◌≡◌, refl,
  sym, ap, ◌∙◌, ◌≢◌, ◌↔◌, ◌⊎◌, inl, inr, Bool, true, false, not, ◌&&◌, ◌||◌, Option, none, some,
  List, [], ◌∷◌, ◌++◌, map, append-nil, append_assoc, arith, ltb, leb, ◌==◌, if◌then◌else◌, ltb→lt,
  lt→ltb, le→ltb, leb→le, le→leb, lt→leb, ==_iff, ==_refl, Bool-cases, Option-cases, ◌>>=◌, length,
  get_elem?, get_or, set, take, drop, replicate, All, length-append, length-set, take-append-drop,
  length-take, length-drop, length-replicate, take-length_append, drop-length_append,
  drop-length_add_append, take_all, drop_all, take-append_le, drop-append_le,
  get_elem?-length_append, get_elem?-none, take_nil, drop_nil, take-take, drop-take, get_elem?-take,
  get_elem?-some, drop-drop, drop-min, length-map, take-replicate_append, take-length_add_append,
  drop_pos, Bytes, IsByte, add32, le_bytes, le_value, length-le_bytes, le_value-le_bytes,
  le_bytes-IsByte, sub32, copy_out, copy_in, written, copy_in-written, copy_in-outside,
  length-written, take-written, copy_out-inside, copy_out-outside, Returns, Returns_weaken,
  same_table, agree_below, bit_and_low4, bit_or_nibbles, bit_and_low2, bit_and_low6, bit_and_mid2,
  bit_or_low2, bit_or_low6, bit_or_comm, pow2, ones, bit_or-side, pow2_pos, bit_and-ones, codes,
  digit, numeral_loop, numeral, padded,
}

-- A std::set of addresses is the list of them in rising order.
unfoldable pub insert : ℕ → List ℕ → List ℕ
insert a [] = a ∷ []
insert a (b ∷ xs) = if ltb a b then a ∷ b ∷ xs else if a == b then b ∷ xs else b ∷ insert a xs

unfoldable pub erase : ℕ → List ℕ → List ℕ
erase a [] = []
erase a (b ∷ xs) = if a == b then xs else b ∷ erase a xs

-- `idel_threads` and `busy_threads` are the members of the class. The other fields count the callers that
-- sleep in `getThread`, those of them that m_cond has woken, and the same for `waitAll`.
pub record ThreadPool : Type 0 where
  pub max_size : ℕ
  pub idel_threads : List ℕ
  pub busy_threads : List ℕ
  pub sleeping : ℕ
  pub woken : ℕ
  pub sleeping_all : ℕ
  pub woken_all : ℕ

-- `ThreadPool::ThreadPool`
abbrev pub new_pool : ℕ → ThreadPool
new_pool max_size = record {
  max_size = max_size;
  idel_threads = [];
  busy_threads = [];
  sleeping = 0;
  woken = 0;
  sleeping_all = 0;
  woken_all = 0;
}

-- What `getThread` comes to before it sleeps
pub data Grant : Type 0 where
  got : ℕ → ThreadPool → Grant
  waits : Grant

-- The four lines that stand twice in `getThread`; `none` where no thread is idle.
unfoldable pub take_idel : ThreadPool → Option (ℕ × ThreadPool)
take_idel m = elim m.idel_threads [
  | [] ↦ none
  | t ∷ rest ↦ some (t, record m { idel_threads = rest; busy_threads = insert t m.busy_threads })
]

-- `ThreadPool::getThread` up to the wait. `fresh` is the address that `new TaskThread` gives.
unfoldable pub get_thread : ThreadPool → ℕ → Grant
unfolding take_idel insert
get_thread m fresh = elim (take_idel m) [
  | some (t, m') ↦ got t m'
  | none ↦
      if ltb (length m.idel_threads + length m.busy_threads) m.max_size
      then got fresh (record m { busy_threads = insert fresh m.busy_threads })
      else waits
]

-- `ThreadPool::PutTaskThreadPtr` without the notification
unfoldable pub put_thread : ThreadPool → ℕ → ThreadPool
unfolding insert erase
put_thread m p = record m {
  idel_threads = insert p m.idel_threads;
  busy_threads = erase p m.busy_threads;
}

-- `ThreadPool::getActiveThreadCount`
abbrev pub get_active_thread_count : ThreadPool → ℕ
get_active_thread_count m = length m.idel_threads + length m.busy_threads
