-- ===== src/Snowflake/Order.antt =====
-- What a sequence of calls gives.
use libff.Prelude.{
  ℕ, zero, suc, ◌+◌, ◌%◌, ◌^◌, ◌≤◌, ◌<◌, bit_and, ◌≡◌, refl, inl, inr, Option, none, some, List, [],
  ◌∷◌, ◌++◌, arith, ltb, leb, ◌==◌, le→ltb, lt→leb, Bool-cases, All, Returns, bit_and-ones,
}
use libff.Snowflake.{
  Snowflake, to_next_ms, id_of, Outcome, generated, clock_moved_backwards, waits, finish_gen,
  next_ms, gen, gen_all,
}
use libff.Snowflake.Layout.{IsTime, IsValid, IsLater, id_of-IsLater}

-- What holds behind a call
Follows : Snowflake → Outcome → Type 0
Follows s (generated id s' clock) = (id ≡ id_of s') × IsValid s' × IsLater s s' × All IsTime clock
Follows s (clock_moved_backwards clock) = All IsTime clock
Follows s waits = Unit {0}

-- What the wait comes to
IsNext : ℕ → Option (ℕ × List ℕ) → Type 0
IsNext curr none = Unit {0}
IsNext curr (some (t, rest)) = (curr < t) × IsTime t × All IsTime rest

to_next_ms-IsNext :
    (curr : ℕ) (clock : List ℕ) → All IsTime clock → IsNext curr (to_next_ms curr clock)
unfolding to_next_ms IsNext
to_next_ms-IsNext curr [] h = tt
to_next_ms-IsNext curr (u ∷ clock) h = elim (Bool-cases (leb u curr)) [
  | inl low ↦ rw low (to_next_ms-IsNext curr clock h.1)
  | inr high ↦ rw high (ground (arith, high), h.0, h.1)
]

finish_gen-Follows :
    (s s' : Snowflake) (clock : List ℕ)
    → IsValid s'
    → IsLater s s'
    → All IsTime clock
    → Follows s (finish_gen s' clock)
unfolding finish_gen Follows
finish_gen-Follows s s' clock v later h = (refl, v, later, h)

waited-Follows :
    (curr : ℕ) (o : Option (ℕ × List ℕ)) (s : Snowflake)
    → IsValid s
    → s.last_timestamp ≤ curr
    → IsNext curr o
    → Follows s (elim o [
      | none ↦ waits
      | some (t, clock') ↦ finish_gen (record s { last_timestamp = t; sequence = 0 }) clock'
    ])
unfolding IsNext Follows
waited-Follows curr none s v le h = tt
waited-Follows curr (some (t, rest)) s v le h =
    finish_gen-Follows s (record s { last_timestamp = t; sequence = 0 }) rest
      (h.1, v.1, v.2, omega arith) (refl, refl, inl (omega (arith, h.0, le))) h.2

next_ms-Follows :
    (curr : ℕ) (clock : List ℕ) (s : Snowflake)
    → IsValid s
    → s.last_timestamp ≤ curr
    → All IsTime clock
    → Follows s (next_ms curr clock s)
unfolding next_ms
next_ms-Follows curr clock s v le h =
    waited-Follows curr (to_next_ms curr clock) s v le (to_next_ms-IsNext curr clock h)

next_sequence : (n : ℕ) → n < 4096 → bit_and ((n + 1) % 2 ^ 32) 4095 ≡ (n + 1) % 4096
next_sequence n h = omega (arith, bit_and-ones 12 ((n + 1) % 2 ^ 32), h)

gen-Follows :
    (clock : List ℕ) (s : Snowflake) → IsValid s → All IsTime clock → Follows s (gen clock s)
unfolding gen Follows
gen-Follows [] s v h = tt
gen-Follows (curr ∷ clock) s v h = elim (Bool-cases (ltb curr s.last_timestamp)) [
  | inl back ↦ rw back (h.1)
  | inr ahead ↦ elim (Bool-cases (curr == s.last_timestamp)) [
    | inl same ↦
        rw (ahead, same, next_sequence s.sequence v.3)
          (elim (Bool-cases (0 == (s.sequence + 1) % 4096)) [
            | inl full ↦ rw full (next_ms-Follows curr clock s v (ground (arith, same)) h.1)
            | inr free ↦ rw free (
                finish_gen-Follows s
                  (record s { last_timestamp = curr; sequence = (s.sequence + 1) % 4096 }) clock
                  (h.0, v.1, v.2, omega arith)
                  (refl, refl, inr (ground (arith, same), ground (arith, free))) h.1)
          ])
    | inr later ↦
        rw (ahead, later)
          (finish_gen-Follows s (record s { last_timestamp = curr; sequence = 0 }) clock
            (h.0, v.1, v.2, omega arith) (refl, refl, inl (ground (arith, ahead, later))) h.1)
  ]
]

-- Each number is larger than the one before it, and the first than `low`.
abbrev pub Increasing : ℕ → List ℕ → Type 0
Increasing low [] = Unit {0}
Increasing low (id ∷ ids) = (low < id) × Increasing id ids

gen_all-Follows :
    (n : ℕ) (o : Outcome) (s : Snowflake)
    → IsValid s
    → Follows s o
    → ((s' : Snowflake) (clock : List ℕ)
        → IsValid s'
        → All IsTime clock
        → Increasing (id_of s') (gen_all n clock s'))
    → Increasing (id_of s) (elim o [
      | generated id s' clock' ↦ id ∷ gen_all n clock' s'
      | clock_moved_backwards clock' ↦ gen_all n clock' s
      | waits ↦ []
    ])
unfolding Follows
gen_all-Follows n (generated id s' clock) s v (e, v', later, h) k =
    (rw e (id_of-IsLater s s' v v' later), rw e (k s' clock v' h))
gen_all-Follows n (clock_moved_backwards clock) s v h k = k s clock v h
gen_all-Follows n waits s v h k = tt

-- From a valid state on, and with a clock within 42 bits of milliseconds, which may stand still or go
-- backwards, the identifiers of any number of calls increase strictly, so no two are the same; they are
-- larger than what the time and the sequence number of the state stand for.
pub gen_all-Increasing :
    (n : ℕ) (clock : List ℕ) (s : Snowflake)
    → IsValid s
    → All IsTime clock
    → Increasing (id_of s) (gen_all n clock s)
unfolding gen_all
gen_all-Increasing zero clock s v h = tt
gen_all-Increasing (suc n) clock s v h =
    gen_all-Follows n (gen clock s) s v (gen-Follows clock s v h)
      (λ s' c v' h'. gen_all-Increasing n c s' v' h')

to_next_ms-later :
    (curr t : ℕ) (before after : List ℕ)
    → curr < t
    → Returns (to_next_ms curr (before ++ t ∷ after)) (λ r. curr < r.0)
unfolding to_next_ms
to_next_ms-later curr t [] after h = rw (lt→leb t curr h) h
to_next_ms-later curr t (u ∷ before) after h = elim (Bool-cases (leb u curr)) [
  | inl low ↦ rw low (to_next_ms-later curr t before after h)
  | inr high ↦ rw high (ground (arith, high))
]

abbrev pub IsGenerated : Outcome → Type 0
IsGenerated (generated id s clock) = Unit {0}
IsGenerated (clock_moved_backwards clock) = ⊥
IsGenerated waits = ⊥

waited-IsGenerated :
    (curr : ℕ) (o : Option (ℕ × List ℕ)) (s : Snowflake)
    → Returns o (λ r. curr < r.0)
    → IsGenerated (elim o [
      | none ↦ waits
      | some (t, clock') ↦ finish_gen (record s { last_timestamp = t; sequence = 0 }) clock'
    ])
unfolding finish_gen
waited-IsGenerated curr none s h = h
waited-IsGenerated curr (some r) s h = tt

-- A call ends and returns an identifier if the clock has not gone backwards and shows, sooner or later, a
-- time behind its first reading.
pub gen_ends :
    (curr t : ℕ) (before after : List ℕ) (s : Snowflake)
    → s.last_timestamp ≤ curr
    → curr < t
    → IsGenerated (gen (curr ∷ before ++ t ∷ after) s)
unfolding gen next_ms finish_gen
gen_ends curr t before after s le lt =
    rw (le→ltb curr s.last_timestamp le) (elim (Bool-cases (curr == s.last_timestamp)) [
      | inl same ↦ rw same (elim (Bool-cases (0 == bit_and ((s.sequence + 1) % 2 ^ 32) 4095)) [
        | inl full ↦ rw full (
            waited-IsGenerated curr (to_next_ms curr (before ++ t ∷ after)) s
              (to_next_ms-later curr t before after lt))
        | inr free ↦ rw free tt
      ])
      | inr later ↦ rw later tt
    ])
