-- ===== src/Rtp/Parse.antt =====
-- What `parse` accepts, and what the accessors read.
use libff.Prelude.{
  ◌>>=◌, ℕ, ◌+◌, ◌-◌, ◌*◌, ◌^◌, ◌≤◌, ◌<◌, ◌≡◌, refl, ap, ◌≢◌, inl, inr, Bool, true, false, Option,
  none, some, [], map, arith, ltb, ◌==◌, if◌then◌else◌, Option-cases, length, Bool-cases, ◌⊎◌, ◌↔◌,
  not, ◌&&◌, ◌||◌, get_or, Returns_weaken, take, drop, take_nil, length-map, Bytes, le_value,
  copy_out-inside, Returns,
}
use libff.Buffer.{cells, Buffer, Cell, clear, set_data}
use libff.Buffer.Valid.{IsValid, contents, empty-IsValid}
use libff.Buffer.Sizes.{set_data_lem}
use libff.Rtp.{
  RtpHeader, swap32, header_of, csrc_end, payload_offset, accepts, parse, get_payload_offset,
  get_payload_length, get_csrc,
}

-- A cleared buffer holds nothing; one that has no block was empty.
clear_lem :
    {b : Buffer}
    → IsValid b
    → IsValid (clear b) × (contents (clear b) ≡ []) × ((clear b).read_pos ≡ 0)
unfolding clear
clear_lem {b} v = elim (Option-cases b.block) [
  | inl e ↦
      let none_owned : b.capacity ≤ 0 = ground (arith, ap (λ o. length (cells o)) e) in
      rw e (omega arith, take_nil Cell b.size, omega arith)
  | inr (block, e) ↦ rw e (empty-IsValid, refl, refl)
]

-- What a packet has to have, in the words of RFC 3550 as far as `parse` looks: room for the header,
-- version 2, a payload type that is none of RTCP's if the marker is set, and a number of bytes of padding
-- that is not zero if there is padding.
pub record IsPacket (bytes : Bytes) : Type 0 where
  pub room : 12 ≤ length bytes
  pub version : (header_of bytes).version ≡ 2
  pub no_rtcp :
      (header_of bytes).marker ≢ 0
      → ((header_of bytes).payload_type ≢ 72) × ((header_of bytes).payload_type ≢ 73)
  pub padding : (header_of bytes).padding ≢ 0 → get_or bytes (length bytes - 1) 0 ≢ 0

-- The extension header, if there is one, is in the packet.
abbrev pub HasExtension : Bytes → Type 0
HasExtension bytes = (header_of bytes).extension ≢ 0 → csrc_end (header_of bytes) + 4 ≤ length bytes

payload_offset_lem :
    (bytes : Bytes) → HasExtension bytes → (offset : ℕ) × (payload_offset bytes ≡ some offset)
unfolding payload_offset
payload_offset_lem bytes h = elim (Bool-cases ((header_of bytes).extension == 0)) [
  | inl e ↦ rw e (csrc_end (header_of bytes), refl)
  | inr e ↦
      let inside = copy_out-inside bytes (csrc_end (header_of bytes) + 2) 2 (ground arith) in
      rw (e, inside) (_, refl)
]

abbrev is_rtcp : RtpHeader → Bool
is_rtcp h = not (h.marker == 0) && (h.payload_type == 72 || h.payload_type == 73)

abbrev is_empty_padding : Bytes → Bool
is_empty_padding bytes =
    not ((header_of bytes).padding == 0) && (get_or bytes (length bytes - 1) 0 == 0)

accepts_lem :
    (bytes : Bytes)
    → HasExtension bytes
    → (accepts bytes ≡ some true) × IsPacket bytes
      ⊎ (accepts bytes ≡ some false) × (¬ IsPacket bytes)
unfolding accepts
accepts_lem bytes h =
    let (offset, e) = payload_offset_lem bytes h in
    elim (Bool-cases (ltb (length bytes) 12)) [
      | inl short ↦ inr (ground arith, λ p. ground (arith, p.room))
      | inr long ↦ elim (Bool-cases ((header_of bytes).version == 2)) [
        | inr other ↦ inr (ground arith, λ p. ground (arith, p.version))
        | inl two ↦ elim (Bool-cases (is_rtcp (header_of bytes))) [
          | inl rtcp ↦ inr (ground arith, λ p. ground (arith, p.no_rtcp))
          | inr plain ↦ elim (Bool-cases (is_empty_padding bytes)) [
            | inl nothing ↦ inr (ground arith, λ p. ground (arith, p.padding))
            | inr some_padding ↦ inl (
              ground arith,
              record {
                room = ground arith;
                version = ground arith;
                no_rtcp = λ m. (λ t. ground arith, λ t. ground arith);
                padding = λ m t. ground arith;
              },
            )
          ]
        ]
      ]
    ]

parsed :
    (bytes : Bytes) (packet : Buffer)
    → length bytes + 4096 < 2 ^ 32
    → accepts bytes ≡ some true
    → Returns
        (parse bytes packet)
        (λ (ok, p). (ok ≡ true) × IsValid p × (contents p ≡ map some bytes) × (p.read_pos ≡ 0))
parsed bytes packet h e =
    unfold parse in
    rw e (
      stored (set_data (some (map some bytes)) (clear packet)) (
        set_data_lem (map some bytes) (clear packet)
          (omega (arith, length-map {B = Cell} bytes some))))
  where
    stored :
        (o : Option Buffer)
        → Returns o (λ p. IsValid p × (contents p ≡ map some bytes) × (p.read_pos ≡ 0))
        → Returns
            (o >>= λ p. some (true, p))
            (λ (ok, p). (ok ≡ true) × IsValid p × (contents p ≡ map some bytes) × (p.read_pos ≡ 0))
    stored none r = absurd r
    stored (some p) r = (refl, r.0, r.1, r.2)

pub parse_lem :
    (bytes : Bytes) {packet : Buffer}
    → IsValid packet
    → length bytes + 4096 < 2 ^ 32
    → HasExtension bytes
    → Returns (parse bytes packet) (λ (ok, p).
      ((ok ≡ true) ↔ IsPacket bytes)
      × IsValid p
      × (contents p ≡ (if ok then map some bytes else []))
      × (p.read_pos ≡ 0))
parse_lem bytes {packet} v small h = elim (accepts_lem bytes h) [
  | inl (e, is) ↦
      Returns_weaken _ _ (parse bytes packet) (parsed bytes packet small e)
        (λ (ok, p) (t, v', held, pos). ((λ _. is, λ _. t), v', rw t held, pos))
  | inr (e, refused) ↦
      let (v', held, pos) = clear_lem v in
      unfold parse in rw e ((λ t. cc, λ is. absurd (refused is)), v', held, pos)
]

csrc_count-lt : (bytes : Bytes) → (header_of bytes).csrc_count < 16
unfolding header_of
csrc_count-lt bytes = omega arith

-- The test of the payload's length compares a number without sign with 0, and never fails: a packet
-- of version 2 with no padding, extension or marker whose CSRC list ends behind its last byte is
-- accepted, and its payload's length wraps.
pub accepts_overlong :
    (bytes : Bytes)
    → 12 ≤ length bytes
    → length bytes < csrc_end (header_of bytes)
    → (header_of bytes).version ≡ 2
    → (header_of bytes).padding ≡ 0
    → (header_of bytes).extension ≡ 0
    → (header_of bytes).marker ≡ 0
    → (accepts bytes ≡ some true)
      × (get_payload_length bytes ≡ some (2 ^ 32 + length bytes - csrc_end (header_of bytes)))
unfolding accepts get_payload_length payload_offset
accepts_overlong bytes long beyond v p x m = ground (arith, csrc_count-lt bytes)

-- With the extension bit set and no room for the extension header, `parse` reads behind the packet.
pub accepts_outside :
    (bytes : Bytes)
    → 12 ≤ length bytes
    → length bytes < csrc_end (header_of bytes) + 4
    → (header_of bytes).version ≡ 2
    → (header_of bytes).padding ≡ 0
    → (header_of bytes).extension ≢ 0
    → (header_of bytes).marker ≡ 0
    → accepts bytes ≡ none
unfolding accepts payload_offset
accepts_outside bytes long beyond v p x m = ground arith

-- The bytes of padding, of which the last gives the number.
abbrev pub padding_count : Bytes → ℕ
padding_count bytes =
    if (header_of bytes).padding == 0 then 0 else get_or bytes (length bytes - 1) 0

-- Where header and padding fit a packet of 1 to 2 ^ 32 - 1 bytes, they and the payload, by
-- `getPayloadOffset` and `getPayloadLength`, make it up.
pub get_payload_length_lem :
    (bytes : Bytes) (offset : ℕ)
    → 0 < length bytes
    → length bytes < 2 ^ 32
    → get_payload_offset bytes ≡ some offset
    → offset + padding_count bytes ≤ length bytes
    → Returns (get_payload_length bytes) (λ n. offset + n + padding_count bytes ≡ length bytes)
unfolding get_payload_length get_payload_offset
get_payload_length_lem bytes offset pos small e fits = ground arith

-- `getCSRC` reads the n-th word behind the header where the CSRC list is in the packet, and gives 0 for
-- an index that is not in the list.
pub get_csrc_lem :
    (n : ℕ) (bytes : Bytes)
    → 0 < length bytes
    → csrc_end (header_of bytes) ≤ length bytes
    → get_csrc n bytes
      ≡ some (
          if ltb n (header_of bytes).csrc_count
          then swap32 (le_value (take 4 (drop (12 + n * 4) bytes)))
          else 0)
unfolding get_csrc
get_csrc_lem n bytes pos fits = ground (arith, copy_out-inside bytes (12 + n * 4) 4)
