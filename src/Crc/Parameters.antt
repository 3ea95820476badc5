-- ===== src/Crc/Parameters.antt =====
-- The parameter sets of `CrcParameter::Create(CrcAlgorithm)`.
use libff.Prelude.{true, false, Option}
use libff.Crc.{
  CrcAlgorithm, CrcParameter, new_parameter, crc8, crc8_cdma2000, crc8_darc, crc8_dvb_s2, crc8_ebu,
  crc8_icode, crc8_itu, crc8_maxim, crc8_rohc, crc8_wcdma, crc10, crc10_cdma2000, crc11, crc123_gpp,
  crc12_cdma2000, crc12_dect, crc13_bbc, crc14_darc, crc15, crc15_mpt1327, crc16_ccitt_false,
  crc16_arc, crc16_aug_ccitt, crc16_buypass, crc16_cdma2000, crc16_dds110, crc16_dect_r,
  crc16_dect_x, crc16_dnp, crc16_en13757, crc16_genibus, crc16_ibm, crc16_maxim, crc16_mcrf4_xx,
  crc16_riello, crc16_t10_dif, crc16_teledisk, crc16_tms37157, crc16_usb, crc_a, crc16_kermit,
  crc16_modbus, crc16_x25, crc16_xmodem, crc24, crc24_flexray_a, crc24_flexray_b, crc31_philips,
  crc32, crc32_bzip2, crc32_c, crc32_d, crc32_jamcrc, crc32_mpeg2, crc32_posix, crc32_q, crc32_xfer,
  crc40_gsm, crc64, crc64_we, crc64_xz,
}

-- `CrcParameter::Create(CrcAlgorithm)`: the entries of `algos`
unfoldable pub create : CrcAlgorithm → Option CrcParameter
unfolding new_parameter
create crc8 = new_parameter 8 0x7 0x0 false false 0x0 0xF4
create crc8_cdma2000 = new_parameter 8 0x9B 0xFF false false 0x0 0xDA
create crc8_darc = new_parameter 8 0x39 0x0 true true 0x0 0x15
create crc8_dvb_s2 = new_parameter 8 0xD5 0x0 false false 0x0 0xBC
create crc8_ebu = new_parameter 8 0x1D 0xFF true true 0x0 0x97
create crc8_icode = new_parameter 8 0x1D 0xFD false false 0x0 0x7E
create crc8_itu = new_parameter 8 0x7 0x0 false false 0x55 0xA1
create crc8_maxim = new_parameter 8 0x31 0x0 true true 0x0 0xA1
create crc8_rohc = new_parameter 8 0x7 0xFF true true 0x0 0xD0
create crc8_wcdma = new_parameter 8 0x9B 0x0 true true 0x0 0x25
create crc10 = new_parameter 10 0x233 0x0 false false 0x0 0x199
create crc10_cdma2000 = new_parameter 10 0x3D9 0x3FF false false 0x0 0x233
create crc11 = new_parameter 11 0x385 0x1A false false 0x0 0x5A3
create crc123_gpp = new_parameter 12 0x80F 0x0 false true 0x0 0xDAF
create crc12_cdma2000 = new_parameter 12 0xF13 0xFFF false false 0x0 0xD4D
create crc12_dect = new_parameter 12 0x80F 0x0 false false 0x0 0xF5B
create crc13_bbc = new_parameter 13 0x1CF5 0x0 false false 0x0 0x4FA
create crc14_darc = new_parameter 14 0x805 0x0 true true 0x0 0x82D
create crc15 = new_parameter 15 0x4599 0x0 false false 0x0 0x59E
create crc15_mpt1327 = new_parameter 15 0x6815 0x0 false false 0x1 0x2566
create crc16_ccitt_false = new_parameter 16 0x1021 0xFFFF false false 0x0 0x29B1
create crc16_arc = new_parameter 16 0x8005 0x0 true true 0x0 0xBB3D
create crc16_aug_ccitt = new_parameter 16 0x1021 0x1D0F false false 0x0 0xE5CC
create crc16_buypass = new_parameter 16 0x8005 0x0 false false 0x0 0xFEE8
create crc16_cdma2000 = new_parameter 16 0xC867 0xFFFF false false 0x0 0x4C06
create crc16_dds110 = new_parameter 16 0x8005 0x800D false false 0x0 0x9ECF
create crc16_dect_r = new_parameter 16 0x589 0x0 false false 0x1 0x7E
create crc16_dect_x = new_parameter 16 0x589 0x0 false false 0x0 0x7F
create crc16_dnp = new_parameter 16 0x3D65 0x0 true true 0xFFFF 0xEA82
create crc16_en13757 = new_parameter 16 0x3D65 0x0 false false 0xFFFF 0xC2B7
create crc16_genibus = new_parameter 16 0x1021 0xFFFF false false 0xFFFF 0xD64E
create crc16_ibm = new_parameter 16 0x8005 0x0 true true 0x0 0xD64E
create crc16_maxim = new_parameter 16 0x8005 0x0 true true 0xFFFF 0x44C2
create crc16_mcrf4_xx = new_parameter 16 0x1021 0xFFFF true true 0x0 0x6F91
create crc16_riello = new_parameter 16 0x1021 0xB2AA true true 0x0 0x63D0
create crc16_t10_dif = new_parameter 16 0x8BB7 0x0 false false 0x0 0xD0DB
create crc16_teledisk = new_parameter 16 0xA097 0x0 false false 0x0 0xFB3
create crc16_tms37157 = new_parameter 16 0x1021 0x89EC true true 0x0 0x26B1
create crc16_usb = new_parameter 16 0x8005 0xFFFF true true 0xFFFF 0xB4C8
create crc_a = new_parameter 16 0x1021 0xC6C6 true true 0x0 0xBF05
create crc16_kermit = new_parameter 16 0x1021 0x0 true true 0x0 0x2189
create crc16_modbus = new_parameter 16 0x8005 0xFFFF true true 0x0 0x4B37
create crc16_x25 = new_parameter 16 0x1021 0xFFFF true true 0xFFFF 0x906E
create crc16_xmodem = new_parameter 16 0x1021 0x0 false false 0x0 0x31C3
create crc24 = new_parameter 24 0x864CFB 0xB704CE false false 0x0 0x21CF02
create crc24_flexray_a = new_parameter 24 0x5D6DCB 0xFEDCBA false false 0x0 0x7979BD
create crc24_flexray_b = new_parameter 24 0x5D6DCB 0xABCDEF false false 0x0 0x1F23B8
create crc31_philips = new_parameter 31 0x4C11DB7 0x7FFFFFFF false false 0x7FFFFFFF 0xCE9E46C
create crc32 = new_parameter 32 0x04C11DB7 0xFFFFFFFF true true 0xFFFFFFFF 0xCBF43926
create crc32_bzip2 = new_parameter 32 0x04C11DB7 0xFFFFFFFF false false 0xFFFFFFFF 0xFC891918
create crc32_c = new_parameter 32 0x1EDC6F41 0xFFFFFFFF true true 0xFFFFFFFF 0xE3069283
create crc32_d = new_parameter 32 0xA833982B 0xFFFFFFFF true true 0xFFFFFFFF 0x87315576
create crc32_jamcrc = new_parameter 32 0x04C11DB7 0xFFFFFFFF true true 0x00000000 0x340BC6D9
create crc32_mpeg2 = new_parameter 32 0x04C11DB7 0xFFFFFFFF false false 0x00000000 0x0376E6E7
create crc32_posix = new_parameter 32 0x04C11DB7 0x00000000 false false 0xFFFFFFFF 0x765E7680
create crc32_q = new_parameter 32 0x814141AB 0x00000000 false false 0x00000000 0x3010BF7F
create crc32_xfer = new_parameter 32 0x000000AF 0x00000000 false false 0x00000000 0xBD0BE338
create crc40_gsm = new_parameter 40 0x4820009 0x0 false false 0xFFFFFFFFFF 0xD4164FC646
create crc64 =
    new_parameter 64 0x42F0E1EBA9EA3693 0x00000000 false false 0x00000000 0x6C40DF5F0B497347
create crc64_we =
    new_parameter 64 0x42F0E1EBA9EA3693 0xFFFFFFFFFFFFFFFF false false 0xFFFFFFFFFFFFFFFF
      0x62EC59E3F1A4F00A
create crc64_xz =
    new_parameter 64 0x42F0E1EBA9EA3693 0xFFFFFFFFFFFFFFFF true true 0xFFFFFFFFFFFFFFFF
      0x995DC9BBDF1939FA
