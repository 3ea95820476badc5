-- ===== src/Crc.antt =====
-- ff/src/encrypt/CRC.cpp, ff/include/ff/CRC.h: the table-driven CRC calculator and its parameter sets.
pub mod Parameters
mod Reflect
mod Checks
mod Tests
use libff.Prelude.{
  ℕ, zero, suc, ◌+◌, ◌-◌, ◌*◌, ◌/◌, ◌%◌, ◌^◌, ◌≤◌, ◌<◌, min, bit_and, bit_or, bit_xor, ◌≡◌, refl,
  sym, ap, ◌∙◌, ◌≢◌, ◌↔◌, ◌⊎◌, inl, inr, Bool, true, false, not, ◌&&◌, ◌||◌, Option, none, some,
  List, [], ◌∷◌, ◌++◌, map, append-nil, append_assoc, arith, ltb, leb, ◌==◌, if◌then◌else◌, ltb→lt,
  lt→ltb, le→ltb, leb→le, le→leb, lt→leb, ==_iff, ==_refl, Bool-cases, Option-cases, length,
  get_elem?, get_or, set, take, drop, replicate, All, length-append, length-set, take-append-drop,
  length-take, length-drop, length-replicate, take-length_append, drop-length_append,
  drop-length_add_append, take_all, drop_all, take-append_le, drop-append_le,
  get_elem?-length_append, get_elem?-none, take_nil, drop_nil, take-take, drop-take, get_elem?-take,
  get_elem?-some, drop-drop, drop-min, length-map, take-replicate_append, take-length_add_append,
  drop_pos, Bytes, IsByte, add32, le_bytes, le_value, length-le_bytes, le_value-le_bytes,
  le_bytes-IsByte, sub32, copy_out, copy_in, written, copy_in-written, copy_in-outside,
  length-written, take-written, copy_out-inside, copy_out-outside, Returns, Returns_weaken,
  same_table, agree_below, bit_and_low4, bit_or_nibbles, bit_and_low2, bit_and_low6, bit_and_mid2,
  bit_or_low2, bit_or_low6,
}

-- `enum class CrcAlgorithm`
pub data CrcAlgorithm : Type 0 where
  crc8 crc8_cdma2000 crc8_darc crc8_dvb_s2 crc8_ebu : CrcAlgorithm
  crc8_icode crc8_itu crc8_maxim crc8_rohc crc8_wcdma : CrcAlgorithm
  crc10 crc10_cdma2000 crc11 crc123_gpp crc12_cdma2000 : CrcAlgorithm
  crc12_dect crc13_bbc crc14_darc crc15 crc15_mpt1327 : CrcAlgorithm
  crc16_ccitt_false crc16_arc crc16_aug_ccitt crc16_buypass crc16_cdma2000 : CrcAlgorithm
  crc16_dds110 crc16_dect_r crc16_dect_x crc16_dnp crc16_en13757 : CrcAlgorithm
  crc16_genibus crc16_ibm crc16_maxim crc16_mcrf4_xx crc16_riello : CrcAlgorithm
  crc16_t10_dif crc16_teledisk crc16_tms37157 crc16_usb crc_a : CrcAlgorithm
  crc16_kermit crc16_modbus crc16_x25 crc16_xmodem crc24 : CrcAlgorithm
  crc24_flexray_a crc24_flexray_b crc31_philips crc32 crc32_bzip2 : CrcAlgorithm
  crc32_c crc32_d crc32_jamcrc crc32_mpeg2 crc32_posix : CrcAlgorithm
  crc32_q crc32_xfer crc40_gsm crc64 crc64_we : CrcAlgorithm
  crc64_xz : CrcAlgorithm

-- `ReflectBitOrderTable`
abbrev pub reflect_bit_order_table : Bytes
reflect_bit_order_table =
    0x00 ∷ 0x80 ∷ 0x40 ∷ 0xC0 ∷ 0x20 ∷ 0xA0 ∷ 0x60 ∷ 0xE0 ∷ 0x10 ∷ 0x90 ∷ 0x50 ∷ 0xD0 ∷ 0x30 ∷ 0xB0
    ∷ 0x70 ∷ 0xF0 ∷ 0x08 ∷ 0x88 ∷ 0x48 ∷ 0xC8 ∷ 0x28 ∷ 0xA8 ∷ 0x68 ∷ 0xE8 ∷ 0x18 ∷ 0x98 ∷ 0x58
    ∷ 0xD8 ∷ 0x38 ∷ 0xB8 ∷ 0x78 ∷ 0xF8 ∷ 0x04 ∷ 0x84 ∷ 0x44 ∷ 0xC4 ∷ 0x24 ∷ 0xA4 ∷ 0x64 ∷ 0xE4
    ∷ 0x14 ∷ 0x94 ∷ 0x54 ∷ 0xD4 ∷ 0x34 ∷ 0xB4 ∷ 0x74 ∷ 0xF4 ∷ 0x0C ∷ 0x8C ∷ 0x4C ∷ 0xCC ∷ 0x2C
    ∷ 0xAC ∷ 0x6C ∷ 0xEC ∷ 0x1C ∷ 0x9C ∷ 0x5C ∷ 0xDC ∷ 0x3C ∷ 0xBC ∷ 0x7C ∷ 0xFC ∷ 0x02 ∷ 0x82
    ∷ 0x42 ∷ 0xC2 ∷ 0x22 ∷ 0xA2 ∷ 0x62 ∷ 0xE2 ∷ 0x12 ∷ 0x92 ∷ 0x52 ∷ 0xD2 ∷ 0x32 ∷ 0xB2 ∷ 0x72
    ∷ 0xF2 ∷ 0x0A ∷ 0x8A ∷ 0x4A ∷ 0xCA ∷ 0x2A ∷ 0xAA ∷ 0x6A ∷ 0xEA ∷ 0x1A ∷ 0x9A ∷ 0x5A ∷ 0xDA
    ∷ 0x3A ∷ 0xBA ∷ 0x7A ∷ 0xFA ∷ 0x06 ∷ 0x86 ∷ 0x46 ∷ 0xC6 ∷ 0x26 ∷ 0xA6 ∷ 0x66 ∷ 0xE6 ∷ 0x16
    ∷ 0x96 ∷ 0x56 ∷ 0xD6 ∷ 0x36 ∷ 0xB6 ∷ 0x76 ∷ 0xF6 ∷ 0x0E ∷ 0x8E ∷ 0x4E ∷ 0xCE ∷ 0x2E ∷ 0xAE
    ∷ 0x6E ∷ 0xEE ∷ 0x1E ∷ 0x9E ∷ 0x5E ∷ 0xDE ∷ 0x3E ∷ 0xBE ∷ 0x7E ∷ 0xFE ∷ 0x01 ∷ 0x81 ∷ 0x41
    ∷ 0xC1 ∷ 0x21 ∷ 0xA1 ∷ 0x61 ∷ 0xE1 ∷ 0x11 ∷ 0x91 ∷ 0x51 ∷ 0xD1 ∷ 0x31 ∷ 0xB1 ∷ 0x71 ∷ 0xF1
    ∷ 0x09 ∷ 0x89 ∷ 0x49 ∷ 0xC9 ∷ 0x29 ∷ 0xA9 ∷ 0x69 ∷ 0xE9 ∷ 0x19 ∷ 0x99 ∷ 0x59 ∷ 0xD9 ∷ 0x39
    ∷ 0xB9 ∷ 0x79 ∷ 0xF9 ∷ 0x05 ∷ 0x85 ∷ 0x45 ∷ 0xC5 ∷ 0x25 ∷ 0xA5 ∷ 0x65 ∷ 0xE5 ∷ 0x15 ∷ 0x95
    ∷ 0x55 ∷ 0xD5 ∷ 0x35 ∷ 0xB5 ∷ 0x75 ∷ 0xF5 ∷ 0x0D ∷ 0x8D ∷ 0x4D ∷ 0xCD ∷ 0x2D ∷ 0xAD ∷ 0x6D
    ∷ 0xED ∷ 0x1D ∷ 0x9D ∷ 0x5D ∷ 0xDD ∷ 0x3D ∷ 0xBD ∷ 0x7D ∷ 0xFD ∷ 0x03 ∷ 0x83 ∷ 0x43 ∷ 0xC3
    ∷ 0x23 ∷ 0xA3 ∷ 0x63 ∷ 0xE3 ∷ 0x13 ∷ 0x93 ∷ 0x53 ∷ 0xD3 ∷ 0x33 ∷ 0xB3 ∷ 0x73 ∷ 0xF3 ∷ 0x0B
    ∷ 0x8B ∷ 0x4B ∷ 0xCB ∷ 0x2B ∷ 0xAB ∷ 0x6B ∷ 0xEB ∷ 0x1B ∷ 0x9B ∷ 0x5B ∷ 0xDB ∷ 0x3B ∷ 0xBB
    ∷ 0x7B ∷ 0xFB ∷ 0x07 ∷ 0x87 ∷ 0x47 ∷ 0xC7 ∷ 0x27 ∷ 0xA7 ∷ 0x67 ∷ 0xE7 ∷ 0x17 ∷ 0x97 ∷ 0x57
    ∷ 0xD7 ∷ 0x37 ∷ 0xB7 ∷ 0x77 ∷ 0xF7 ∷ 0x0F ∷ 0x8F ∷ 0x4F ∷ 0xCF ∷ 0x2F ∷ 0xAF ∷ 0x6F ∷ 0xEF
    ∷ 0x1F ∷ 0x9F ∷ 0x5F ∷ 0xDF ∷ 0x3F ∷ 0xBF ∷ 0x7F ∷ 0xFF ∷ []

-- `uint64_t` shift to the left by less than 64
abbrev pub shift_left : ℕ → ℕ → ℕ
shift_left a n = a * 2 ^ n % 2 ^ 64

-- The loop of `ReflectBits` for the `n` rounds from `bit` on.
unfoldable pub reflect_loop : ℕ → ℕ → ℕ → ℕ → ℕ → ℕ
reflect_loop zero bit width bits reflection = reflection
reflect_loop (suc n) bit width bits reflection = reflect_loop n (bit + 1) width (bits / 2) (
    if bit_and bits 0x01 == 0
    then reflection
    else bit_or reflection (shift_left 1 (width - 1 - bit)))

-- `ReflectBits`
unfoldable pub reflect_bits : ℕ → ℕ → ℕ
unfolding reflect_loop
reflect_bits bits width = reflect_loop width 0 width bits 0

-- `CrcParameter`; its table is `eflect_bit` below.
pub record CrcParameter : Type 0 where
  pub width : ℕ
  pub polynomial : ℕ
  pub initial_value : ℕ
  pub reflect_input : Bool
  pub reflect_output : Bool
  pub xor_output : ℕ
  pub check : ℕ
  pub mask : ℕ
  pub high_bit : ℕ

-- `CrcParameter::CrcParameter`: `none` where `1ull << m_width` shifts by 64 bits, which C++ leaves
-- undefined.
unfoldable pub new_parameter : ℕ → ℕ → ℕ → Bool → Bool → ℕ → ℕ → Option CrcParameter
new_parameter width polynomial init_value reflect_in reflect_out xor_out check =
    if ltb width 64
    then some (record {
      width = width;
      polynomial = polynomial;
      initial_value = init_value;
      reflect_input = reflect_in;
      reflect_output = reflect_out;
      xor_output = xor_out;
      check = check;
      mask = shift_left 1 width - 1;
      high_bit = shift_left 1 (width - 1);
    })
    else none

-- The inner loop of `updateTable`, `n` rounds.
unfoldable pub table_loop : ℕ → CrcParameter → ℕ → ℕ
table_loop zero p crc = crc
table_loop (suc n) p crc = table_loop n p (
    if bit_and crc p.high_bit == 0
    then shift_left crc 1
    else bit_xor (shift_left crc 1) p.polynomial)

-- `updateTable` and `eflectBit`: the entry `v` of the table
unfoldable pub eflect_bit : CrcParameter → ℕ → ℕ
unfolding table_loop
eflect_bit p v = table_loop 8 p (shift_left v (p.width - 8))

-- The loop of `CrcCalculator::update`
unfoldable pub update_loop : CrcParameter → Bytes → ℕ → ℕ
unfolding eflect_bit
update_loop p [] crc = crc
update_loop p (c ∷ cs) crc =
    let byte = if p.reflect_input then get_or reflect_bit_order_table c 0 else c in
    let index = bit_xor (crc / 2 ^ (p.width - 8)) byte in
    update_loop p cs (bit_xor (shift_left crc 8) (eflect_bit p (bit_and index 0xff)))

-- `CrcCalculator::update`: the new `m_currentValue`
unfoldable pub update : CrcParameter → Bytes → ℕ → ℕ
unfolding update_loop
update p bytes current = bit_and (update_loop p bytes current) p.mask

-- `CrcCalculator::finalize`
unfoldable pub finalize : CrcParameter → ℕ → ℕ
unfolding reflect_bits
finalize p current =
    let crc = if p.reflect_output then reflect_bits current p.width else current in
    bit_and (bit_xor crc p.xor_output) p.mask

-- `CrcCalculator::reset`
unfoldable pub reset : CrcParameter → ℕ
reset p = bit_and p.initial_value p.mask

-- `CrcCalculator::calc(const void *, uint64_t)`
unfoldable pub calc : CrcParameter → Bytes → ℕ
unfolding update finalize reset
calc p bytes = finalize p (update p bytes (reset p))

-- `CrcCalculator::calc(const void *, uint64_t, uint64_t)`
unfoldable pub calc_on : CrcParameter → Bytes → ℕ → ℕ
unfolding update finalize reflect_bits
calc_on p bytes prev_result =
    let prev = bit_xor (bit_and prev_result p.mask) p.xor_output in
    let start = if p.reflect_output then reflect_bits prev p.width else prev in
    finalize p (update p bytes start)
