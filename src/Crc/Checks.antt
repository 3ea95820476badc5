-- ===== src/Crc/Checks.antt =====
-- The check values of the parameter sets.
use libff.Prelude.{◌≡◌, refl, ◌≢◌, Option, none, some, [], ◌∷◌, Bytes}
use libff.Crc.{
  CrcAlgorithm, CrcParameter, new_parameter, calc, update, update_loop, eflect_bit, table_loop,
  finalize, reset, reflect_bits, reflect_loop, crc8, crc8_cdma2000, crc8_darc, crc8_dvb_s2,
  crc8_ebu, crc8_icode, crc8_itu, crc8_maxim, crc8_rohc, crc8_wcdma, crc10, crc10_cdma2000, crc11,
  crc123_gpp, crc12_cdma2000, crc12_dect, crc13_bbc, crc14_darc, crc15, crc15_mpt1327,
  crc16_ccitt_false, crc16_arc, crc16_aug_ccitt, crc16_buypass, crc16_cdma2000, crc16_dds110,
  crc16_dect_r, crc16_dect_x, crc16_dnp, crc16_en13757, crc16_genibus, crc16_ibm, crc16_maxim,
  crc16_mcrf4_xx, crc16_riello, crc16_t10_dif, crc16_teledisk, crc16_tms37157, crc16_usb, crc_a,
  crc16_kermit, crc16_modbus, crc16_x25, crc16_xmodem, crc24, crc24_flexray_a, crc24_flexray_b,
  crc31_philips, crc32, crc32_bzip2, crc32_c, crc32_d, crc32_jamcrc, crc32_mpeg2, crc32_posix,
  crc32_q, crc32_xfer, crc40_gsm, crc64, crc64_we, crc64_xz,
}
use libff.Crc.Parameters.{create}

-- The digits 1 to 9, the text whose CRC is the check value.
abbrev digits : Bytes
digits = 0x31 ∷ 0x32 ∷ 0x33 ∷ 0x34 ∷ 0x35 ∷ 0x36 ∷ 0x37 ∷ 0x38 ∷ 0x39 ∷ []

-- `calc` of the digits gives the check value of the set.
abbrev IsChecked : CrcParameter → Type 0
IsChecked p = calc p digits ≡ p.check

-- `P` of what an option holds.
abbrev WhereSome : {A : Type 0} → (A → Type 0) → Option A → Type 0
WhereSome P none = Unit {0}
WhereSome P (some a) = P a

-- The sweep over the parameter sets.
create-IsChecked : (a : CrcAlgorithm) → a ≢ crc16_ibm → WhereSome IsChecked (create a)
unfolding create new_parameter calc update update_loop eflect_bit table_loop finalize reset
    reflect_bits reflect_loop
create-IsChecked crc8 other = refl
create-IsChecked crc8_cdma2000 other = refl
create-IsChecked crc8_darc other = refl
create-IsChecked crc8_dvb_s2 other = refl
create-IsChecked crc8_ebu other = refl
create-IsChecked crc8_icode other = refl
create-IsChecked crc8_itu other = refl
create-IsChecked crc8_maxim other = refl
create-IsChecked crc8_rohc other = refl
create-IsChecked crc8_wcdma other = refl
create-IsChecked crc10 other = refl
create-IsChecked crc10_cdma2000 other = refl
create-IsChecked crc11 other = refl
create-IsChecked crc123_gpp other = refl
create-IsChecked crc12_cdma2000 other = refl
create-IsChecked crc12_dect other = refl
create-IsChecked crc13_bbc other = refl
create-IsChecked crc14_darc other = refl
create-IsChecked crc15 other = refl
create-IsChecked crc15_mpt1327 other = refl
create-IsChecked crc16_ccitt_false other = refl
create-IsChecked crc16_arc other = refl
create-IsChecked crc16_aug_ccitt other = refl
create-IsChecked crc16_buypass other = refl
create-IsChecked crc16_cdma2000 other = refl
create-IsChecked crc16_dds110 other = refl
create-IsChecked crc16_dect_r other = refl
create-IsChecked crc16_dect_x other = refl
create-IsChecked crc16_dnp other = refl
create-IsChecked crc16_en13757 other = refl
create-IsChecked crc16_genibus other = refl
create-IsChecked crc16_ibm other = absurd (other refl)
create-IsChecked crc16_maxim other = refl
create-IsChecked crc16_mcrf4_xx other = refl
create-IsChecked crc16_riello other = refl
create-IsChecked crc16_t10_dif other = refl
create-IsChecked crc16_teledisk other = refl
create-IsChecked crc16_tms37157 other = refl
create-IsChecked crc16_usb other = refl
create-IsChecked crc_a other = refl
create-IsChecked crc16_kermit other = refl
create-IsChecked crc16_modbus other = refl
create-IsChecked crc16_x25 other = refl
create-IsChecked crc16_xmodem other = refl
create-IsChecked crc24 other = refl
create-IsChecked crc24_flexray_a other = refl
create-IsChecked crc24_flexray_b other = refl
create-IsChecked crc31_philips other = refl
create-IsChecked crc32 other = refl
create-IsChecked crc32_bzip2 other = refl
create-IsChecked crc32_c other = refl
create-IsChecked crc32_d other = refl
create-IsChecked crc32_jamcrc other = refl
create-IsChecked crc32_mpeg2 other = refl
create-IsChecked crc32_posix other = refl
create-IsChecked crc32_q other = refl
create-IsChecked crc32_xfer other = refl
create-IsChecked crc40_gsm other = refl
create-IsChecked crc64 other = tt
create-IsChecked crc64_we other = tt
create-IsChecked crc64_xz other = tt

where_some : {A : Type 0} (P : A → Type 0) (o : Option A) (a : A) → o ≡ some a → WhereSome P o → P a
where_some P o a e h = rw e at h

-- The CRC that the calculator computes of the digits 1 to 9 is the check value of the parameter set, for
-- every algorithm whose parameters can be made (those below 64 bits) but CRC-16/IBM.
pub calc-digits :
    (a : CrcAlgorithm) (p : CrcParameter)
    → a ≢ crc16_ibm
    → create a ≡ some p
    → calc p digits ≡ p.check
calc-digits a p other e = where_some IsChecked (create a) p e (create-IsChecked a other)

-- What CRC-16/IBM gives on the digits is 0xbb3d, and not its check value 0xd64e.
ibm_differs : WhereSome (λ p. (calc p digits ≡ 0xbb3d) × (p.check ≡ 0xd64e)) (create crc16_ibm)
unfolding create new_parameter calc update update_loop eflect_bit table_loop finalize reset
    reflect_bits reflect_loop
ibm_differs = (refl, refl)
