-- ===== src/Cli.antt =====
-- ff/src/cli/CliPacket.cpp: command lines `action obj key="value",...;` and the results of commands.
pub mod Words
pub mod Scanner
mod Members
mod RoundTrip
mod Tests
use libff.Prelude.{
  ◌>>=◌, ℕ, zero, suc, ◌+◌, ◌-◌, ◌*◌, ◌/◌, ◌%◌, ◌^◌, ◌≤◌, ◌<◌, min, bit_and, bit_or, bit_xor, ◌≡◌,
  refl, sym, ap, ◌∙◌, ◌≢◌, ◌↔◌, ◌⊎◌, inl, inr, Bool, true, false, not, ◌&&◌, ◌||◌, Option, none,
  some, List, [], ◌∷◌, ◌++◌, map, append-nil, append_assoc, arith, ltb, leb, ◌==◌, if◌then◌else◌,
  ltb→lt, lt→ltb, le→ltb, leb→le, le→leb, lt→leb, ==_iff, ==_refl, Bool-cases, Option-cases, length,
  get_elem?, get_or, set, take, drop, replicate, All, length-append, length-set, take-append-drop,
  length-take, length-drop, length-replicate, take-length_append, drop-length_append,
  drop-length_add_append, take_all, drop_all, take-append_le, drop-append_le,
  get_elem?-length_append, get_elem?-none, take_nil, drop_nil, take-take, drop-take, get_elem?-take,
  get_elem?-some, drop-drop, drop-min, length-map, take-replicate_append, take-length_add_append,
  drop_pos, Bytes, IsByte, add32, le_bytes, le_value, length-le_bytes, le_value-le_bytes,
  le_bytes-IsByte, sub32, copy_out, copy_in, written, copy_in-written, copy_in-outside,
  length-written, take-written, copy_out-inside, copy_out-outside, Returns, Returns_weaken,
  same_table, agree_below, bit_and_low4, bit_or_nibbles, bit_and_low2, bit_and_low6, bit_and_mid2,
  bit_or_low2, bit_or_low6, codes, digit, numeral_loop, numeral, padded,
}
use libff.Strings.{is_space, trim, replace_all}
use libff.Maps.{Map, insert}
use libff.Variant.{Variant, new_string}
use libff.Variant.Types.{carray, string, is_block}
use libff.Variant.Convert.{Streams, to_string}

pub record CliPacket : Type 0 where
  pub action : Bytes
  pub obj : Bytes
  pub members : Map Variant

-- `reset`
abbrev pub new_packet : CliPacket
new_packet = record { action = []; obj = []; members = [] }

-- `CliPacket(const std::string &, const std::string &, const CliMembers &)`
unfoldable pub inserted : Map Variant → Map Variant → Map Variant
unfolding trim insert
inserted m [] = m
inserted m (e ∷ es) = inserted (insert (trim e.0) e.1 m) es

unfoldable pub packet_of : Bytes → Bytes → Map Variant → CliPacket
unfolding trim inserted
packet_of action obj members = record {
  action = trim action;
  obj = trim obj;
  members = inserted [] members;
}

-- `isValidChar`
unfoldable pub is_valid_char : ℕ → Bool
is_valid_char c =
    leb b'a' c && leb c b'z' || leb b'A' c && leb c b'Z' || c == b'_' || leb b'0' c && leb c b'9'

-- What `c_str()` shows of a string: it ends at the first NUL.
unfoldable pub until_nul : Bytes → Bytes
until_nul [] = []
until_nul (c ∷ cs) = let rest = until_nul cs in if c == 0 then [] else c ∷ rest

-- `while(isspace(*p)) ++p`
unfoldable pub skip_spaces : Bytes → Bytes
skip_spaces [] = []
skip_spaces (c ∷ cs) = let rest = skip_spaces cs in if is_space c then rest else c ∷ cs

abbrev pub add_front : ℕ → Option (Bytes × Bytes) → Option (Bytes × Bytes)
add_front c none = none
add_front c (some (word, rest)) = some (c ∷ word, rest)

-- The loops that read the action and the object: the word and what follows it; `none` is a character
-- that is not valid.
unfoldable pub take_word : Bytes → Option (Bytes × Bytes)
unfolding is_valid_char
take_word [] = some ([], [])
take_word (c ∷ cs) =
    let rest = take_word cs in
    if is_space c
    then some ([], c ∷ cs)
    else if not (is_valid_char c)
    then none
    else add_front c rest

-- The variables of the last loop
pub record Scan : Type 0 where
  pub str : Bytes
  pub is_parsing_name : Bool
  pub is_quote_mode : Bool
  pub is_trans_mode : Bool
  pub key : Bytes
  pub value : Bytes
  pub members : Map Variant

abbrev pub add_member : Bytes → Bytes → Map Variant → Map Variant
add_member key value m = insert (trim key) (new_string value) m

-- One round of it, on the character `c`; `last` is `'\0' == *p` behind it.
unfoldable pub step : ℕ → Bool → Scan → Scan
unfolding trim insert new_string
step c last s =
    if s.is_parsing_name
    then if c == b'='
      then record s { str = []; is_parsing_name = false; key = s.str }
      else if is_space c
      then s
      else record s { str = s.str ++ c ∷ [] }
    else if s.is_quote_mode
    then if s.is_trans_mode
      then record s { str = s.str ++ c ∷ []; is_trans_mode = false }
      else if c == b'\\'
      then record s { is_trans_mode = true }
      else if c == b'"' || last
      then record s { is_quote_mode = false; value = s.str }
      else record s { str = s.str ++ c ∷ [] }
    else if is_space c
    then s
    else if c == b'"'
    then record s { is_quote_mode = true }
    else if c == b',' || last
    then record s {
      str = [];
      is_parsing_name = true;
      key = [];
      value = [];
      members = add_member s.key (if c == b',' then s.str else s.str ++ c ∷ []) s.members;
    }
    else record s { str = s.str ++ c ∷ [] }

abbrev pub is_nil : Bytes → Bool
is_nil [] = true
is_nil (c ∷ cs) = false

unfoldable pub run : Bytes → Scan → Scan
unfolding step
run [] s = s
run (c ∷ cs) s = run cs (step c (is_nil cs) s)

-- What is left when the text ends: a member with a key is still to be inserted.
unfoldable pub finish : Scan → Map Variant
unfolding trim insert new_string
finish s = if is_nil s.key then s.members else add_member s.key s.value s.members

-- The members, from the text behind the action and the object
unfoldable pub scan_members : Bytes → Map Variant
unfolding run finish
scan_members p = finish (
    run p (record {
      str = [];
      is_parsing_name = true;
      is_quote_mode = false;
      is_trans_mode = false;
      key = [];
      value = [];
      members = [];
    }))

-- The last character off, if it is a semicolon
unfoldable pub without_semicolon : Bytes → Bytes
without_semicolon [] = []
without_semicolon (c ∷ []) = if c == b';' then [] else c ∷ []
without_semicolon (c ∷ d ∷ cs) = c ∷ without_semicolon (d ∷ cs)

-- What `parse` does behind the action
unfoldable pub parse_rest : Bytes → Bytes → CliPacket
unfolding skip_spaces take_word scan_members
parse_rest action rest =
    let p = skip_spaces rest in
    elim (take_word p) [
      | none ↦ record { action = action; obj = []; members = scan_members p }
      | some (obj, rest') ↦ record {
        action = action;
        obj = obj;
        members = scan_members (skip_spaces rest');
      }
    ]

-- `parse`
unfoldable pub parse : Bytes → Bool × CliPacket
unfolding trim without_semicolon until_nul skip_spaces take_word parse_rest
parse cmd_line =
    let cmd_tmp = without_semicolon (trim cmd_line) in
    if is_nil cmd_tmp
    then (false, new_packet)
    else elim (take_word (skip_spaces (until_nul cmd_tmp))) [
      | none ↦ (false, new_packet)
      | some (action, rest) ↦ (true, parse_rest action rest)
    ]

-- What stands in front of the members
abbrev pub lead : Map Variant → Bytes
lead [] = []
lead (e ∷ m) = b' ' ∷ []

module _ (io : Streams) where
  -- A member as `toString` writes it
  unfoldable pub member_text : Bytes → Variant → Option Bytes
  unfolding replace_all is_block to_string
  member_text key value =
      let text = to_string io value in
      let quote = if is_block value.vt then b'"' ∷ [] else [] in
      replace_all (length text + 1) text (codes "\"") (codes "\\\"") false >>= λ val.
      some (key ++ b'=' ∷ (quote ++ (val ++ quote)))

  unfoldable pub members_text : Map Variant → Option Bytes
  unfolding member_text
  members_text [] = some []
  members_text (e ∷ []) = member_text e.0 e.1
  members_text (e ∷ d ∷ m) =
      let rest = members_text (d ∷ m) in
      member_text e.0 e.1 >>= λ text. rest >>= λ more. some (text ++ b',' ∷ more)

  -- `toString`
  unfoldable pub packet_text : CliPacket → Option Bytes
  unfolding members_text
  packet_text p =
      if is_nil p.action
      then some []
      else (members_text p.members >>= λ text. some (
          p.action
          ++ ((if is_nil p.obj then [] else b' ' ∷ p.obj)
              ++ (lead p.members ++ (text ++ b';' ∷ [])))))

-- `CliResult`
pub record CliResult : Type 0 where
  pub code : ℕ
  pub data_text : Bytes

-- `toString`
unfoldable pub result_text : CliResult → Option Bytes
unfolding replace_all numeral
result_text r =
    replace_all (length r.data_text + 1) r.data_text (codes "\n") (codes "\\n") false >>= λ text.
    some (numeral 10 r.code ++ b' ' ∷ text)
