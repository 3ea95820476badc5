-- ===== src/Crc/Tests.antt =====
-- The table of reflected bytes at one byte.
use libff.Prelude.{◌≡◌, arith, get_or}
use libff.Crc.{reflect_bit_order_table, reflect_bits}
use libff.Crc.Reflect.{table-reflect_bits}

table-reflect_bits_example : get_or reflect_bit_order_table 0x13 0 ≡ reflect_bits 0x13 8
table-reflect_bits_example = table-reflect_bits 0x13 (omega arith)
