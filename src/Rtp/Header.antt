-- ===== src/Rtp/Header.antt =====
-- The RTP header: setters and getters, and its bytes.
use libff.Prelude.{ℕ, ◌%◌, ◌^◌, ◌<◌, ◌≡◌, arith}
use libff.Rtp.{
  RtpHeader, swap16, swap32, get_sequence_number, set_sequence_number, get_ssrc, set_ssrc,
  get_timestamp, set_timestamp, set_csrc_count, set_extension, set_marker, set_padding,
  set_payload_type, set_version,
}

swap16_twice : (v : ℕ) → v < 2 ^ 16 → swap16 (swap16 v) ≡ v
unfolding swap16
swap16_twice v h = omega arith

swap32_twice : (v : ℕ) → v < 2 ^ 32 → swap32 (swap32 v) ≡ v
unfolding swap32
swap32_twice v h = omega arith

-- The values that the members hold.
pub record IsHeader (h : RtpHeader) : Type 0 where
  pub csrc_count : h.csrc_count < 16
  pub extension : h.extension < 2
  pub padding : h.padding < 2
  pub version : h.version < 4
  pub payload_type : h.payload_type < 128
  pub marker : h.marker < 2
  pub sequence_number : h.sequence_number < 2 ^ 16
  pub timestamp : h.timestamp < 2 ^ 32
  pub ssrc : h.ssrc < 2 ^ 32

-- A header filled in by the setters, in the order of RFC 3550.
pub fill : ℕ → ℕ → ℕ → ℕ → ℕ → ℕ → ℕ → ℕ → ℕ → RtpHeader → RtpHeader
fill version padding extension csrc_count marker payload_type sequence_number timestamp ssrc h =
    set_ssrc ssrc (
      set_timestamp timestamp (
        set_sequence_number sequence_number (
          set_payload_type payload_type (
            set_marker marker (
              set_csrc_count csrc_count
                (set_extension extension (set_padding padding (set_version version h))))))))

swap16-lt : (v : ℕ) → swap16 v < 2 ^ 16
unfolding swap16
swap16-lt v = omega arith

swap32-lt : (v : ℕ) → swap32 v < 2 ^ 32
unfolding swap32
swap32-lt v = omega arith

-- The setters fill a header with what the getters give back, the bit-fields cut to their width, and
-- leave every member in its range, whatever the header held before.
pub fill_lem :
    (v p x cc_ m pt sn ts ss : ℕ) (h : RtpHeader)
    → sn < 2 ^ 16
    → ts < 2 ^ 32
    → ss < 2 ^ 32
    → let f = fill v p x cc_ m pt sn ts ss h in
      IsHeader f
      × (get_sequence_number f ≡ sn)
      × (get_timestamp f ≡ ts)
      × (get_ssrc f ≡ ss)
      × (f.version ≡ v % 4)
      × (f.padding ≡ p % 2)
      × (f.extension ≡ x % 2)
      × (f.csrc_count ≡ cc_ % 16)
      × (f.marker ≡ m % 2)
      × (f.payload_type ≡ pt % 128)
unfolding fill set_csrc_count set_extension set_marker set_padding set_payload_type set_version
fill_lem v p x cc_ m pt sn ts ss h hn ht hs =
    unfold set_sequence_number set_timestamp set_ssrc get_sequence_number get_timestamp get_ssrc in
    omega arith
