-- ===== src/HexText/Tests.antt =====
-- Three bytes.
use libff.Prelude.{◌≡◌, refl, some, [], ◌∷◌, map, arith, Bytes, Returns, codes, padded}
use libff.Uuid.{strtoul_hex}
use libff.HexFormat.RoundTrip.{ReadsHex}
use libff.Buffer.{empty}
use libff.Buffer.Valid.{IsValid, contents, empty-IsValid}
use libff.HexText.RoundTrip.{from_hex_string-to_hex_string}
use libff.HexText.{hex_loop, to_hex_string, to_binary_string, lines_from, from_hex_string}

abbrev three : Bytes
three = 0 ∷ 10 ∷ 255 ∷ []

reads : ReadsHex (strtoul_hex 0)
reads s digits pos fits = refl

from_hex_string-to_hex_string_example :
    Returns
      (from_hex_string (strtoul_hex 0) empty (to_hex_string (codes " ") three))
      (λ b'. IsValid b' × (contents b' ≡ map some three))
from_hex_string-to_hex_string_example =
    from_hex_string-to_hex_string (strtoul_hex 0) three empty reads (omega arith) (omega arith)
      empty-IsValid

hex_text : to_hex_string (codes " ") three ≡ codes "00 0a ff "
unfolding to_hex_string hex_loop padded
hex_text = refl

binary_text : to_binary_string (5 ∷ 255 ∷ []) ≡ codes "00000101 11111111 "
unfolding to_binary_string
binary_text = refl

two_lines : lines_from [] (0x61 ∷ 10 ∷ 0x62 ∷ []) ≡ (0x61 ∷ []) ∷ (0x62 ∷ []) ∷ []
unfolding lines_from
two_lines = refl
