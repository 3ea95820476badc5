-- ===== src/Uuid/Tests.antt =====
-- A UUID and its text.
use libff.Prelude.{◌≡◌, refl, none, some, arith, codes}
use libff.Uuid.{UuidBytes, uuid_parse, uuid_unparse}
use libff.Uuid.RoundTrip.{uuid_parse-uuid_unparse}

abbrev bytes : UuidBytes
bytes = record {
  out_0 = 201;
  out_1 = 238;
  out_2 = 19;
  out_3 = 56;
  out_4 = 93;
  out_5 = 130;
  out_6 = 167;
  out_7 = 204;
  out_8 = 241;
  out_9 = 22;
  out_10 = 59;
  out_11 = 96;
  out_12 = 133;
  out_13 = 170;
  out_14 = 207;
  out_15 = 244;
}

uuid_parse-uuid_unparse_example : uuid_parse (uuid_unparse bytes) ≡ some bytes
uuid_parse-uuid_unparse_example = uuid_parse-uuid_unparse bytes (omega arith)

text_of_bytes : uuid_unparse bytes ≡ codes "c9ee1338-5d82-a7cc-f116-3b6085aacff4"
unfolding uuid_unparse
text_of_bytes = refl

-- A text that is one digit too short, and one with a letter that is no digit
too_short : uuid_parse (codes "c9ee1338-5d82-a7cc-f116-3b6085aacff") ≡ none
unfolding uuid_parse
too_short = refl

no_digit : uuid_parse (codes "c9ee1338-5d82-a7cc-f116-3b6085aacffg") ≡ none
unfolding uuid_parse
no_digit = refl
