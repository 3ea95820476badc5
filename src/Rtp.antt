-- ===== src/Rtp.antt =====
-- ff/src/rtp/RtpPacket.cpp and ff/include/ff/RtpPacket.h: the RTP header and the packet, a buffer
-- that starts with one. Bit-fields fill a byte from its low end, as on the little-endian host.
mod Header
mod Parse
mod Tests
use libff.Prelude.{
  ◌>>=◌, ℕ, zero, suc, ◌+◌, ◌-◌, ◌*◌, ◌/◌, ◌%◌, ◌^◌, Bool, true, false, not, ◌&&◌, ◌||◌, Option,
  none, some, ◌∷◌, ◌++◌, map, ltb, leb, ◌==◌, if◌then◌else◌, length, get_or, take, drop, Bytes,
  le_bytes, le_value, sub32, copy_out,
}
use libff.Buffer.{Buffer, Cell, cells, clear, set_data}

-- `RtpHeader`; the three last members are in network byte order.
pub record RtpHeader : Type 0 where
  pub csrc_count : ℕ
  pub extension : ℕ
  pub padding : ℕ
  pub version : ℕ
  pub payload_type : ℕ
  pub marker : ℕ
  pub sequence_number : ℕ
  pub timestamp : ℕ
  pub ssrc : ℕ

-- `ntohs` and `htons`, `ntohl` and `htonl`: the bytes in the other order.
unfoldable pub swap16 : ℕ → ℕ
swap16 x = x % 256 * 256 + x / 256 % 256

unfoldable pub swap32 : ℕ → ℕ
swap32 x = x % 256 * 16777216 + x / 256 % 256 * 65536 + x / 65536 % 256 * 256 + x / 16777216 % 256

-- `getSequenceNumber`, `setSequenceNumber`
unfoldable pub get_sequence_number : RtpHeader → ℕ
unfolding swap16
get_sequence_number h = swap16 h.sequence_number

unfoldable pub set_sequence_number : ℕ → RtpHeader → RtpHeader
unfolding swap16
set_sequence_number v h = record h { sequence_number = swap16 v }

-- `getSsrc`, `setSsrc`
unfoldable pub get_ssrc : RtpHeader → ℕ
unfolding swap32
get_ssrc h = swap32 h.ssrc

unfoldable pub set_ssrc : ℕ → RtpHeader → RtpHeader
unfolding swap32
set_ssrc v h = record h { ssrc = swap32 v }

-- `getTimestamp`, `setTimestamp`
unfoldable pub get_timestamp : RtpHeader → ℕ
unfolding swap32
get_timestamp h = swap32 h.timestamp

unfoldable pub set_timestamp : ℕ → RtpHeader → RtpHeader
unfolding swap32
set_timestamp v h = record h { timestamp = swap32 v }

-- The setters of the bit-fields keep the bits that fit.
unfoldable pub set_csrc_count : ℕ → RtpHeader → RtpHeader
set_csrc_count v h = record h { csrc_count = v % 16 }

unfoldable pub set_extension : ℕ → RtpHeader → RtpHeader
set_extension v h = record h { extension = v % 2 }

unfoldable pub set_marker : ℕ → RtpHeader → RtpHeader
set_marker v h = record h { marker = v % 2 }

unfoldable pub set_padding : ℕ → RtpHeader → RtpHeader
set_padding v h = record h { padding = v % 2 }

unfoldable pub set_payload_type : ℕ → RtpHeader → RtpHeader
set_payload_type v h = record h { payload_type = v % 128 }

unfoldable pub set_version : ℕ → RtpHeader → RtpHeader
set_version v h = record h { version = v % 4 }

-- The bytes of a header in memory, and the header that is read at the start of twelve or more bytes.
unfoldable pub header_bytes : RtpHeader → Bytes
header_bytes h =
    (h.csrc_count + 16 * h.extension + 32 * h.padding + 64 * h.version)
    ∷ (h.payload_type + 128 * h.marker)
    ∷ (le_bytes 2 h.sequence_number ++ (le_bytes 4 h.timestamp ++ le_bytes 4 h.ssrc))

unfoldable pub header_of : Bytes → RtpHeader
header_of bytes = record {
  csrc_count = get_or bytes 0 0 % 16;
  extension = get_or bytes 0 0 / 16 % 2;
  padding = get_or bytes 0 0 / 32 % 2;
  version = get_or bytes 0 0 / 64;
  payload_type = get_or bytes 1 0 % 128;
  marker = get_or bytes 1 0 / 128;
  sequence_number = le_value (take 2 (drop 2 bytes));
  timestamp = le_value (take 4 (drop 4 bytes));
  ssrc = le_value (take 4 (drop 8 bytes));
}

-- `sizeof(RtpHeader) + (int)(hdr->getCsrcCount() * sizeof(uint32_t))`
abbrev pub csrc_end : RtpHeader → ℕ
csrc_end h = 12 + h.csrc_count * 4

-- The offset of the payload: behind the extension, if there is one, whose header at `csrc_end` holds
-- its length in words. `none` is a read outside the packet.
unfoldable pub payload_offset : Bytes → Option ℕ
payload_offset bytes =
    let h = header_of bytes in
    if h.extension == 0
    then some (csrc_end h)
    else (copy_out bytes (csrc_end h + 2) 2 >>= λ len.
        some (csrc_end h + 4 + swap16 (le_value len) * 4))

-- size_t subtraction
abbrev pub sub64 : ℕ → ℕ → ℕ
sub64 a b = (a + 2 ^ 64 - b) % 2 ^ 64

-- The tests of `parse` on the bytes behind `buf`, of which there are `len`; the inner value is its
-- result. The last test compares a size_t with 0.
unfoldable pub accepts : Bytes → Option Bool
accepts bytes =
    let len = length bytes in
    let h = header_of bytes in
    let pad = if h.padding == 0 then 0 else get_or bytes (len - 1) 0 in
    if ltb len 12
    then some false
    else if not (h.version == 2)
    then some false
    else if not (h.marker == 0) && (h.payload_type == 200 % 128 || h.payload_type == 201 % 128)
    then some false
    else if not (h.padding == 0) && leb pad 0
    then some false
    else (payload_offset bytes >>= λ offset. some (not (ltb (sub64 (sub32 len pad) offset) 0)))

-- `RtpPacket::parse`: the packet is cleared first, and holds a copy of the bytes if they pass.
unfoldable pub parse : Bytes → Buffer → Option (Bool × Buffer)
unfolding clear set_data
parse bytes packet = accepts bytes >>= λ ok.
    if ok
    then (set_data (some (map some bytes)) (clear packet) >>= λ packet'. some (true, packet'))
    else some (false, clear packet)

-- `getPayloadOffset`, `getPayloadLength` and `getCSRC` of a packet that holds `bytes`, and of one
-- that is empty (`getRtpHeader` returns null).
unfoldable pub get_payload_offset : Bytes → Option ℕ
get_payload_offset bytes = if length bytes == 0 then some 0 else payload_offset bytes

unfoldable pub get_payload_length : Bytes → Option ℕ
get_payload_length bytes =
    let h = header_of bytes in
    let pad = if h.padding == 0 then 0 else get_or bytes (length bytes - 1) 0 in
    if length bytes == 0
    then some 0
    else (payload_offset bytes >>= λ offset.
        some (sub32 (sub32 (length bytes) pad) (offset % 2 ^ 32)))

-- `getPayload`: the address, as an offset in the packet; the inner `none` is null.
unfoldable pub get_payload : Bytes → Option (Option ℕ)
get_payload bytes =
    if length bytes == 0 then some none else (payload_offset bytes >>= λ offset. some (some offset))

-- `getRtpExtensionHeader`, likewise
unfoldable pub get_extension_header : Bytes → Option ℕ
get_extension_header bytes =
    let h = header_of bytes in
    if length bytes == 0 then none else if h.extension == 0 then none else some (csrc_end h)

-- `getCSRC` of an index that is not negative
unfoldable pub get_csrc : ℕ → Bytes → Option ℕ
get_csrc n bytes =
    if length bytes == 0
    then some 0
    else if leb (header_of bytes).csrc_count n
    then some 0
    else (copy_out bytes (12 + n * 4) 4 >>= λ four. some (swap32 (le_value four)))
