-- ===== src/Cli/Tests.antt =====
-- A command with two members, and what does not come back.
use libff.Prelude.{◌≡◌, refl, true, List, [], ◌∷◌, arith, length, Bytes, Returns, codes}
use libff.Variant.Convert.{Streams}
use libff.Maps.{Ascending, bytes_lt}
use libff.Strings.{is_blank, find_from, find, is_prefix}
use libff.Cli.{is_valid_char, parse, packet_text}
use libff.Cli.Members.{Packet}
use libff.Cli.RoundTrip.{parse-packet_text}

abbrev io : Streams
io = record {
  float_text = λ v. codes "0.0";
  double_text = λ v. codes "0.0";
  float_to_int = λ t v. 0;
  double_to_int = λ t v. 0;
  read_int = λ t base s. length s;
  float_is_zero = λ v. true;
  double_is_zero = λ v. true;
}

abbrev members : List (Bytes × Bytes)
members = (codes "name", codes "a \"b\", c=d") ∷ (codes "x", []) ∷ []

parse-packet_text_example :
    Returns
      (packet_text io (Packet (codes "add") (codes "user_1") members))
      (λ s. parse s ≡ (true, Packet (codes "add") (codes "user_1") members))
unfolding Ascending is_valid_char is_blank bytes_lt
parse-packet_text_example =
    parse-packet_text io (codes "add") (codes "user_1") members (omega arith) (ground arith)
      (ground arith) (ground arith) (ground arith) (ground arith)

-- What a text with a backslash comes back as
backslash_lost :
    Returns
      (packet_text io (Packet (codes "set") [] ((codes "p", codes "a\\b") ∷ [])))
      (λ s. parse s ≡ (true, Packet (codes "set") [] ((codes "p", codes "ab") ∷ [])))
unfolding packet_text parse find_from find is_prefix
backslash_lost = refl

-- A quote that is not closed costs the last character of the text.
open_quote :
    parse (codes "set p=\"abc") ≡ (true, Packet (codes "set") [] ((codes "p", codes "ab") ∷ []))
unfolding parse
open_quote = refl
