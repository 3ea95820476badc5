-- ===== src/HexFormat/Tests.antt =====
-- Numbers in different forms, and a stream that reads hexadecimal digits.
use libff.Prelude.{◌≡◌, refl, true, arith, codes}
use libff.Strings.{find, is_prefix}
use libff.Uuid.{strtoul_hex}
use libff.HexFormat.{HexNumberFormater, format, parse_hex}
use libff.HexFormat.RoundTrip.{parse_hex-format}

abbrev formater : HexNumberFormater
formater = record { fill_zero = true; use_prefix = true; uppercase = true }

parse_hex-format_example : parse_hex (strtoul_hex 0) (format formater 8 48879) ≡ 48879
parse_hex-format_example =
    parse_hex-format (strtoul_hex 0) formater 8 48879 (λ s h pos fits. refl) (omega arith)

text_of_number : format formater 8 48879 ≡ codes "0x0000BEEF"
unfolding format
text_of_number = refl

-- An `0x` behind the digits cuts the first two of them off.
late_prefix : parse_hex (strtoul_hex 0) (codes "1230x") ≡ 0x30
unfolding parse_hex find is_prefix strtoul_hex
late_prefix = refl
