-- ===== src/Crc/Reflect.antt =====
-- The table `ReflectBitOrderTable` and the function `ReflectBits`.
use libff.Prelude.{ℕ, ◌<◌, ◌≡◌, refl, get_or, same_table, agree_below}
use libff.Crc.{reflect_bit_order_table, reflect_bits, reflect_loop}

-- The table that reflects the input's bytes holds what `ReflectBits` computes for eight bits, for
-- every byte.
pub table-reflect_bits : (c : ℕ) → c < 256 → get_or reflect_bit_order_table c 0 ≡ reflect_bits c 8
unfolding reflect_bits
table-reflect_bits =
    agree_below 256 (λ c. get_or reflect_bit_order_table c 0) (λ c. reflect_loop 8 0 8 c 0)
      (unfold same_table reflect_loop in refl)
