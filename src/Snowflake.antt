-- ===== src/Snowflake.antt =====
-- ff/src/random/Snowflake.cpp: identifiers of 64 bits out of the time, two numbers of the machine and a
-- sequence number. What `Timestamp::Now()` gives at each of its calls is a list; a call that it is too
-- short for goes on waiting.
mod Layout
mod Order
mod Tests
use libff.Prelude.{
  ℕ, zero, suc, ◌+◌, ◌-◌, ◌*◌, ◌/◌, ◌%◌, ◌^◌, ◌≤◌, ◌<◌, min, bit_and, bit_or, bit_xor, ◌≡◌, refl,
  sym, ap, ◌∙◌, ◌≢◌, ◌↔◌, ◌⊎◌, inl, inr, Bool, true, false, not, ◌&&◌, ◌||◌, Option, none, some,
  List, [], ◌∷◌, ◌++◌, map, append-nil, append_assoc, arith, ltb, leb, ◌==◌, if◌then◌else◌, ltb→lt,
  lt→ltb, le→ltb, leb→le, le→leb, lt→leb, ==_iff, ==_refl, Bool-cases, Option-cases, length,
  get_elem?, get_or, set, take, drop, replicate, All, length-append, length-set, take-append-drop,
  length-take, length-drop, length-replicate, take-length_append, drop-length_append,
  drop-length_add_append, take_all, drop_all, take-append_le, drop-append_le,
  get_elem?-length_append, get_elem?-none, take_nil, drop_nil, take-take, drop-take, get_elem?-take,
  get_elem?-some, drop-drop, drop-min, length-map, take-replicate_append, take-length_add_append,
  drop_pos, Bytes, IsByte, add32, le_bytes, le_value, length-le_bytes, le_value-le_bytes,
  le_bytes-IsByte, sub32, copy_out, copy_in, written, copy_in-written, copy_in-outside,
  length-written, take-written, copy_out-inside, copy_out-outside, Returns, Returns_weaken,
  same_table, agree_below, bit_and_low4, bit_or_nibbles, bit_and_low2, bit_and_low6, bit_and_mid2,
  bit_or_low2, bit_or_low6, bit_or_comm, pow2, ones, bit_or-side, bit_and-ones, codes, digit,
  numeral_loop, numeral, padded,
}

abbrev pub start_time_stamp : ℕ
start_time_stamp = 1649226618508

pub record Snowflake : Type 0 where
  pub last_timestamp : ℕ
  pub datacenter_id : ℕ
  pub worker_id : ℕ
  pub sequence : ℕ

-- `Snowflake(lastTimestamp, lastSequence, datacenterId, workerId)`; the other constructor calls the
-- clock for the time and starts with 0. `none` is a `SnowflakeException`.
unfoldable pub new_snowflake : ℕ → ℕ → ℕ → ℕ → Option Snowflake
new_snowflake last_timestamp last_sequence datacenter_id worker_id =
    if ltb 31 datacenter_id
    then none
    else if ltb 31 worker_id
    then none
    else some (record {
      last_timestamp = last_timestamp;
      datacenter_id = datacenter_id;
      worker_id = worker_id;
      sequence = last_sequence;
    })

-- `ToNextMs`: the first reading that is larger, and the readings behind it
unfoldable pub to_next_ms : ℕ → List ℕ → Option (ℕ × List ℕ)
to_next_ms curr [] = none
to_next_ms curr (t ∷ clock) =
    let rest = to_next_ms curr clock in if leb t curr then rest else some (t, clock)

-- The value that `gen` returns: shifts of a `uint64_t` lose what is above 64 bits.
unfoldable pub id_of : Snowflake → ℕ
id_of s =
    bit_or
      (bit_or
        (bit_or ((s.last_timestamp + 2 ^ 64 - start_time_stamp) % 2 ^ 64 * 2 ^ 22 % 2 ^ 64)
          (s.datacenter_id * 2 ^ 17))
        (s.worker_id * 2 ^ 12))
      s.sequence

-- What a call comes to, with the readings that it leaves
pub data Outcome : Type 0 where
  generated : ℕ → Snowflake → List ℕ → Outcome
  clock_moved_backwards : List ℕ → Outcome
  waits : Outcome

unfoldable pub finish_gen : Snowflake → List ℕ → Outcome
unfolding id_of
finish_gen s clock = generated (id_of s) s clock

-- The wait for the next millisecond, when the sequence numbers of one are used up
unfoldable pub next_ms : ℕ → List ℕ → Snowflake → Outcome
unfolding to_next_ms finish_gen
next_ms curr clock s = elim (to_next_ms curr clock) [
  | none ↦ waits
  | some (t, clock') ↦ finish_gen (record s { last_timestamp = t; sequence = 0 }) clock'
]

-- `gen`
unfoldable pub gen : List ℕ → Snowflake → Outcome
unfolding next_ms finish_gen
gen [] s = waits
gen (curr ∷ clock) s =
    if ltb curr s.last_timestamp
    then clock_moved_backwards clock
    else if curr == s.last_timestamp
    then (let sequence = bit_and ((s.sequence + 1) % 2 ^ 32) 4095 in
        if 0 == sequence
        then next_ms curr clock s
        else finish_gen (record s { last_timestamp = curr; sequence = sequence }) clock)
    else finish_gen (record s { last_timestamp = curr; sequence = 0 }) clock

-- The identifiers of up to `n` calls; one that throws leaves the state as it was.
unfoldable pub gen_all : ℕ → List ℕ → Snowflake → List ℕ
unfolding gen
gen_all zero clock s = []
gen_all (suc n) clock s = elim (gen clock s) [
  | generated id s' clock' ↦ id ∷ gen_all n clock' s'
  | clock_moved_backwards clock' ↦ gen_all n clock' s
  | waits ↦ []
]
