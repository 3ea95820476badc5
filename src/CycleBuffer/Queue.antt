-- ===== src/CycleBuffer/Queue.antt =====
-- The ring buffer as a bounded queue.
use libff.Prelude.{
  ◌>>=◌, ℕ, zero, suc, ◌+◌, ◌-◌, ◌%◌, ◌^◌, ◌≤◌, ◌<◌, min, ◌≡◌, refl, sym, ap, ◌∙◌, true, false,
  Option, none, some, List, [], ◌∷◌, ◌++◌, map, append-nil, append_assoc, arith, ◌==◌, lt→ltb,
  le→leb, lt→leb, length, get_or, set, take, length-set, length-take, add32, sub32, Returns,
  Returns_weaken,
}
use libff.CycleBuffer.{CycleBuffer, tail, put, get, read_loop, read, write_loop, write}
use libff.CycleBuffer.Window.{
  window, get_elem?-get_or, window_split, window-mod, length-window, window-push,
}
use native.Mathlib.Nat.{mod-eq_of_lt, mod-add-mod, mod-lt}
use native.Mathlib.Decide.{dec_lt}

-- The invariant; with twice the capacity below 2 ^ 32 no index wraps.
pub record IsValid {A : Type 0} (b : CycleBuffer A) : Type 0 where
  pub owned : b.capacity ≤ length b.buf
  pub fits : b.size ≤ b.capacity
  pub position : b.pos < b.capacity
  pub word : b.capacity + b.capacity < 2 ^ 32

-- The elements in the buffer, the oldest first.
abbrev pub contents : {A : Type 0} → CycleBuffer A → List (Option A)
contents b = window b.buf b.capacity b.pos b.size

-- The loop of `read` gives the cells from its place on.
read_loop_lem :
    {A : Type 0} {b : CycleBuffer A} (i n : ℕ)
    → IsValid b
    → i + n ≤ b.size
    → read_loop b i n ≡ some (window b.buf b.capacity (b.pos + i) n)
unfolding read_loop
read_loop_lem {b} i zero v h = refl
read_loop_lem {b} i (suc n) v h =
    rw
      (
        read_loop,
        no_wrap,
        get_elem?-get_or b.buf ((b.pos + i) % b.capacity) inside,
        read_loop_lem (i + 1) n v (omega arith),
        regroup,
      )
      refl
  where
    no_wrap : add32 b.pos i ≡ b.pos + i
    no_wrap = omega arith

    regroup : b.pos + (i + 1) ≡ b.pos + i + 1
    regroup = omega arith

    inside : (b.pos + i) % b.capacity < length b.buf
    inside = omega (arith, mod-lt (b.pos + i) {m = b.capacity} (omega arith))

-- `read` hands out the oldest elements of a valid ring buffer, as many as were asked for or as there
-- are, and leaves the others, in order, in a valid one: it stays inside the memory.
pub contents-read :
    {A : Type 0} (n : ℕ) {b : CycleBuffer A}
    → IsValid b
    → Returns
        (read n b)
        (λ (os, b'). IsValid b' × (length os ≡ min n b.size) × (contents b ≡ os ++ contents b'))
unfolding read
contents-read n {b} v = elim (dec_lt 0 b.size) [
  | yes some_left ↦
      rw (lt→leb b.size 0 some_left, read_loop_lem 0 (min n b.size) v (omega arith), no_wrap)
        (
          omega (arith, mod-lt (b.pos + min n b.size) {m = b.capacity} (omega arith)),
          length-window b.buf b.capacity (b.pos + 0) (min n b.size),
          cc (
            window_split b.buf b.capacity b.pos (min n b.size) (b.size - min n b.size),
            window-mod b.buf b.capacity (b.pos + min n b.size) (b.size - min n b.size),
            parts,
            start,
          ),
        )
  | no empty ↦ rw (le→leb b.size 0 (omega arith)) (v, omega arith, refl)
]
  where
    parts : min n b.size + (b.size - min n b.size) ≡ b.size
    parts = omega arith

    start : b.pos + 0 ≡ b.pos
    start = omega arith

    no_wrap : add32 b.pos (min n b.size) ≡ b.pos + min n b.size
    no_wrap = omega arith

-- `put` on a valid ring buffer that is not full stays inside the memory, returns true and adds the
-- element behind the others; the buffer stays valid.
pub contents-put :
    {A : Type 0} (o : A) {b : CycleBuffer A}
    → IsValid b
    → b.size < b.capacity
    → Returns
        (put o b)
        (λ (ok, b'). (ok ≡ true) × IsValid b' × (contents b' ≡ contents b ++ some o ∷ []))
unfolding put tail
contents-put o {b} v h =
    rw (not_full, no_wrap, lt→ltb _ _ inside, one_more)
      (
        refl,
        omega (arith, length-set b.buf ((b.pos + b.size) % b.capacity) (some o)),
        window-push b.buf b.capacity b.pos b.size (some o) v.position h v.owned,
      )
  where
    not_full : b.size == b.capacity ≡ false
    not_full = ground arith

    no_wrap : add32 b.pos b.size ≡ b.pos + b.size
    no_wrap = omega arith

    one_more : add32 b.size 1 ≡ b.size + 1
    one_more = omega arith

    inside : (b.pos + b.size) % b.capacity < length b.buf
    inside = omega (arith, mod-lt (b.pos + b.size) {m = b.capacity} (omega arith))

write_loop_lem :
    {A : Type 0} (c p : ℕ) (os : List A) (n : ℕ) (buf : List (Option A))
    → p < c
    → c + c < 2 ^ 32
    → n + length os ≤ c
    → c ≤ length buf
    → Returns (write_loop c os ((p + n) % c) buf) (λ buf'.
      (c ≤ length buf') × (window buf' c p (n + length os) ≡ window buf c p n ++ map some os))
unfolding write_loop
write_loop_lem c p [] n buf hp hc room owned =
    (owned, ap (window buf c p) (omega arith) ∙ sym (append-nil (window buf c p n)))
write_loop_lem c p (o ∷ os) n buf hp hc room owned =
    rw (lt→ltb _ _ inside, next_tail)
      (Returns_weaken _ _ (write_loop c os ((p + (n + 1)) % c) (set buf ((p + n) % c) (some o)))
        (write_loop_lem c p os (n + 1) (set buf ((p + n) % c) (some o)) hp hc (omega arith)
          (omega (arith, length-set buf ((p + n) % c) (some o))))
        (λ buf' (still, e). (
          still,
          ap (window buf' c p) (omega arith)
              ∙ e
              ∙ ap (λ w. w ++ map some os) (window-push buf c p n (some o) hp (omega arith) owned)
              ∙ append_assoc (window buf c p n) (some o ∷ []) (map some os),
        )))
  where
    inside : (p + n) % c < length buf
    inside = omega (arith, mod-lt (p + n) {m = c} (omega arith))

    next_tail : add32 ((p + n) % c) 1 % c ≡ (p + (n + 1)) % c
    next_tail =
        ap (λ q. q % c) (omega (arith, mod-lt (p + n) {m = c} (omega arith)))
        ∙ mod-add-mod (p + n) c 1
        ∙ ap (λ q. q % c) (omega arith)

then_some :
    {A B : Type 0} (P : A → Type 0) (Q : B → Type 0) (f : A → B) (o : Option A)
    → Returns o P
    → ((a : A) → P a → Q (f a))
    → Returns (o >>= λ a. some (f a)) Q
then_some P Q f none h k = absurd h
then_some P Q f (some a) h k = k a h

-- `write` to a valid ring buffer stays inside the memory, takes as many elements as there is room for,
-- returns their number and adds them in order behind the others; the buffer stays valid.
pub contents-write :
    {A : Type 0} (os : List A) {b : CycleBuffer A}
    → IsValid b
    → Returns (write os b) (λ (n, b').
      (n ≡ min (length os) (b.capacity - b.size))
      × IsValid b'
      × (contents b' ≡ contents b ++ map some (take n os)))
unfolding write tail
contents-write os {b} v = elim (dec_lt 0 (min (length os) (b.capacity - b.size))) [
  | yes some_room ↦
      let n = min (length os) (b.capacity - b.size) in
      rw (room, lt→leb n 0 some_room, no_wrap, sum)
        (then_some _ _ _ (write_loop b.capacity (take n os) ((b.pos + b.size) % b.capacity) b.buf)
          (write_loop_lem b.capacity b.pos (take n os) b.size b.buf v.position v.word
            (omega (arith, length-take n os)) v.owned)
          (λ buf (owned, e). (
            refl,
            omega arith,
            ap (window buf b.capacity b.pos) (omega (arith, length-take n os)) ∙ e,
          )))
  | no none_fits ↦
      rw (room, le→leb (min (length os) (b.capacity - b.size)) 0 (omega arith))
        (omega arith, v, sym (append-nil (contents b)))
]
  where
    room : sub32 b.capacity b.size ≡ b.capacity - b.size
    room = omega arith

    no_wrap : add32 b.pos b.size ≡ b.pos + b.size
    no_wrap = omega arith

    sum :
        add32 b.size (min (length os) (b.capacity - b.size))
        ≡ b.size + min (length os) (b.capacity - b.size)
    sum = omega arith

-- `get` on a valid ring buffer that is not empty stays inside the memory and takes the oldest element off
-- it; the buffer stays valid.
pub contents-get :
    {A : Type 0} {b : CycleBuffer A}
    → IsValid b
    → 0 < b.size
    → Returns
        (get b)
        (λ (o, b'). (x : Option A) × (o ≡ some x) × IsValid b' × (contents b ≡ x ∷ contents b'))
unfolding get
contents-get {b} v h =
    rw (lt→leb b.size 0 h, get_elem?-get_or b.buf b.pos (omega arith), no_wrap)
      (
        get_or b.buf b.pos none,
        refl,
        omega (arith, mod-lt (b.pos + 1) {m = b.capacity} (omega arith)),
        cc (
          window_split b.buf b.capacity b.pos 1 (b.size - 1),
          window-mod b.buf b.capacity (b.pos + 1) (b.size - 1),
          parts,
          mod-eq_of_lt v.position,
        ),
      )
  where
    no_wrap : add32 b.pos 1 ≡ b.pos + 1
    no_wrap = omega arith

    parts : 1 + (b.size - 1) ≡ b.size
    parts = omega arith
