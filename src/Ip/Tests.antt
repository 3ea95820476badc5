-- ===== src/Ip/Tests.antt =====
-- Addresses and texts that are none.
use libff.Prelude.{◌≡◌, refl, true, false, arith, codes}
use libff.Ip.{parse_v4, ip_text, new_ip}
use libff.Ip.RoundTrip.{v4_address, parse_v4-ip_text}

parse_v4-ip_text_example :
    parse_v4 (ip_text (v4_address 192 168 0 1)) ≡ (true, v4_address 192 168 0 1)
parse_v4-ip_text_example =
    parse_v4-ip_text 192 168 0 1 (omega arith) (omega arith) (omega arith) (omega arith)

text_of_address : ip_text (v4_address 192 168 0 1) ≡ codes "192.168.0.1"
unfolding ip_text
text_of_address = refl

three_numbers : parse_v4 (codes "192.168.1") ≡ (false, new_ip)
unfolding parse_v4
three_numbers = refl

too_large : (parse_v4 (codes " 192.168.1.256")).0 ≡ false
unfolding parse_v4
too_large = refl
