-- ===== src/Snowflake/Tests.antt =====
-- A clock that stands still, goes on and goes backwards.
use libff.Prelude.{ℕ, ◌+◌, ◌≡◌, refl, none, List, [], ◌∷◌, arith, length}
use libff.Snowflake.{Snowflake, start_time_stamp, gen, gen_all, id_of, new_snowflake}
use libff.Snowflake.Order.{gen_all-Increasing, Increasing, gen_ends, IsGenerated}

abbrev ms : ℕ → ℕ
ms n = start_time_stamp + n

-- The last sequence number of its millisecond
abbrev used_up : Snowflake
used_up = record { last_timestamp = ms 5; datacenter_id = 3; worker_id = 30; sequence = 4095 }

abbrev clock : List ℕ
clock = ms 5 ∷ ms 5 ∷ ms 6 ∷ ms 6 ∷ ms 2 ∷ ms 9 ∷ []

gen_all-Increasing_example : Increasing (id_of used_up) (gen_all 4 clock used_up)
gen_all-Increasing_example = gen_all-Increasing 4 clock used_up (omega arith) (omega arith)

four_calls : length (gen_all 4 clock used_up) ≡ 3
unfolding gen_all
four_calls = refl

gen_ends_example : IsGenerated (gen (ms 5 ∷ ms 5 ∷ ms 7 ∷ []) used_up)
gen_ends_example = gen_ends (ms 5) (ms 7) (ms 5 ∷ []) [] used_up (omega arith) (omega arith)

too_many_workers : new_snowflake (ms 5) 0 3 32 ≡ none
unfolding new_snowflake
too_many_workers = refl
