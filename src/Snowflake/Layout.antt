-- ===== src/Snowflake/Layout.antt =====
-- The layout of the identifiers, and when one is larger.
use libff.Prelude.{
  ℕ, ◌+◌, ◌-◌, ◌*◌, ◌%◌, ◌^◌, ◌≤◌, ◌<◌, bit_or, ◌≡◌, refl, ◌⊎◌, inl, inr, arith, pow2, bit_or-side,
}
use libff.Snowflake.{start_time_stamp, Snowflake, id_of}

-- The millisecond counts from the start of the scale, and 42 bits hold it: until the year 2161.
abbrev pub IsTime : ℕ → Type 0
IsTime t = (start_time_stamp ≤ t) × (t < start_time_stamp + 2 ^ 42)

abbrev pub IsValid : Snowflake → Type 0
IsValid s =
    IsTime s.last_timestamp × (s.datacenter_id < 32) × (s.worker_id < 32) × (s.sequence < 4096)

id_of_time :
    (t : ℕ)
    → IsTime t
    → (t + 2 ^ 64 - start_time_stamp) % 2 ^ 64 * 2 ^ 22 % 2 ^ 64 ≡ (t - start_time_stamp) * 2 ^ 22
id_of_time t h = omega (arith, h)

beside : (k a b c : ℕ) → c ≡ a * pow2 k → b < pow2 k → bit_or c b ≡ c + b
beside k a b c e h = rw e (bit_or-side k a b h)

-- The four parts stand side by side: 42 bits of time, 5 and 5 of the machine and 12 of the sequence.
pub id_of_lem :
    (s : Snowflake)
    → IsValid s
    → id_of s
      ≡ (s.last_timestamp - start_time_stamp) * 2 ^ 22
        + s.datacenter_id * 2 ^ 17
        + s.worker_id * 2 ^ 12
        + s.sequence
unfolding id_of
id_of_lem s (time, dc, w, seq) =
    rw
      (
        id_of_time s.last_timestamp time,
        beside 22 t (s.datacenter_id * 2 ^ 17) (t * 2 ^ 22) refl (omega (arith, dc)),
        beside 17 (t * 32 + s.datacenter_id) (s.worker_id * 2 ^ 12)
            (t * 2 ^ 22 + s.datacenter_id * 2 ^ 17) (omega arith) (omega (arith, w)),
        beside 12 (t * 1024 + s.datacenter_id * 32 + s.worker_id) s.sequence
            (t * 2 ^ 22 + s.datacenter_id * 2 ^ 17 + s.worker_id * 2 ^ 12) (omega arith)
            (omega (arith, seq)),
      )
      refl
  where
    t : ℕ
    t = s.last_timestamp - start_time_stamp

-- The second state comes later: at a later time, or at the same with a larger sequence number.
abbrev pub IsLater : Snowflake → Snowflake → Type 0
IsLater s s' =
    (s'.datacenter_id ≡ s.datacenter_id)
    × (s'.worker_id ≡ s.worker_id)
    × ((s.last_timestamp < s'.last_timestamp)
        ⊎ ((s.last_timestamp ≡ s'.last_timestamp) × (s.sequence < s'.sequence)))

pub id_of-IsLater : (s s' : Snowflake) → IsValid s → IsValid s' → IsLater s s' → id_of s < id_of s'
id_of-IsLater s s' v v' (dc, w, later) = elim later [
  | inl lt ↦ omega (arith, id_of_lem s v, id_of_lem s' v', v, v', dc, w, lt)
  | inr same ↦ omega (arith, id_of_lem s v, id_of_lem s' v', v, v', dc, w, same)
]
