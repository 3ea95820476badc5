-- ===== src/Rtp/Tests.antt =====
-- The theorems on RTP packets at concrete packets.
use libff.Prelude.{◌+◌, ◌≤◌, ◌<◌, ◌≡◌, refl, true, some, [], ◌∷◌, arith, length, Bytes}
use libff.Rtp.{RtpHeader, header_of, accepts, payload_offset, get_payload_offset, csrc_end}
use libff.Rtp.Parse.{padding_count}

-- Version 2, one CSRC identifier and no extension: a header, the identifier and three bytes.
abbrev packet : Bytes
packet = 0x81 ∷ 8 ∷ 0 ∷ 1 ∷ 0 ∷ 0 ∷ 0 ∷ 2 ∷ 0 ∷ 0 ∷ 0 ∷ 3 ∷ 0 ∷ 0 ∷ 0 ∷ 4 ∷ 5 ∷ 6 ∷ 7 ∷ []

-- The header alone, with the count 15.
abbrev overlong : Bytes
overlong = 0x8f ∷ 8 ∷ 0 ∷ 1 ∷ 0 ∷ 0 ∷ 0 ∷ 2 ∷ 0 ∷ 0 ∷ 0 ∷ 3 ∷ []

-- The header alone, with the extension bit.
abbrev extended : Bytes
extended = 0x90 ∷ 8 ∷ 0 ∷ 1 ∷ 0 ∷ 0 ∷ 0 ∷ 2 ∷ 0 ∷ 0 ∷ 0 ∷ 3 ∷ []

abbrev header : RtpHeader
header = record {
  csrc_count = 1;
  extension = 0;
  padding = 0;
  version = 2;
  payload_type = 8;
  marker = 0;
  sequence_number = 256;
  timestamp = 3;
  ssrc = 4;
}

packet_accepted : accepts packet ≡ some true
unfolding accepts payload_offset header_of
packet_accepted = refl

overlong_end : length overlong < csrc_end (header_of overlong)
unfolding header_of
overlong_end = omega arith

extended_end : length extended < csrc_end (header_of extended) + 4
unfolding header_of
extended_end = omega arith

packet_offset : get_payload_offset packet ≡ some 16
unfolding get_payload_offset payload_offset header_of
packet_offset = refl

packet_fits : 16 + padding_count packet ≤ length packet
unfolding header_of
packet_fits = omega arith

packet_csrc : csrc_end (header_of packet) ≤ length packet
unfolding header_of
packet_csrc = omega arith
