-- ===== src/CmdLine.antt =====
-- ff/src/app/CmdLineParser.cpp: the options of a program, and its arguments as values of a `Settings`
-- of its own (or of the caller's, which is the same state here) that nothing else changes meanwhile.
mod Parse
mod Tests
use libff.Prelude.{
  ◌>>=◌, ℕ, zero, suc, ◌+◌, ◌-◌, ◌*◌, ◌/◌, ◌%◌, ◌^◌, ◌≤◌, ◌<◌, min, bit_and, bit_or, bit_xor, ◌≡◌,
  refl, sym, ap, ◌∙◌, ◌≢◌, ◌↔◌, ◌⊎◌, inl, inr, Bool, true, false, not, ◌&&◌, ◌||◌, Option, none,
  some, List, [], ◌∷◌, ◌++◌, map, append-nil, append_assoc, arith, ltb, leb, ◌==◌, if◌then◌else◌,
  ltb→lt, lt→ltb, le→ltb, leb→le, le→leb, lt→leb, ==_iff, ==_refl, Bool-cases, Option-cases, length,
  get_elem?, get_or, set, take, drop, replicate, All, length-append, length-set, take-append-drop,
  length-take, length-drop, length-replicate, take-length_append, drop-length_append,
  drop-length_add_append, take_all, drop_all, take-append_le, drop-append_le,
  get_elem?-length_append, get_elem?-none, take_nil, drop_nil, take-take, drop-take, get_elem?-take,
  get_elem?-some, drop-drop, drop-min, length-map, take-replicate_append, take-length_add_append,
  drop_pos, Bytes, IsByte, add32, le_bytes, le_value, length-le_bytes, le_value-le_bytes,
  le_bytes-IsByte, sub32, copy_out, copy_in, written, copy_in-written, copy_in-outside,
  length-written, take-written, copy_out-inside, copy_out-outside, Returns, Returns_weaken,
  same_table, agree_below, bit_and_low4, bit_or_nibbles, bit_and_low2, bit_and_low6, bit_and_mid2,
  bit_or_low2, bit_or_low6, codes, digit, numeral_loop, numeral, padded,
}
use libff.Strings.{
  Delimiter, is_any_of, StringCompressType, remove_empty_string, split, starts_with, is_prefix,
  find, bytes_eq,
}
use libff.Variant.{Variant, new_string}
use libff.Settings.{Settings, looking, set_value, get_value, has_value}

-- `CmdLineOption` and `_CmdLineOption`
pub record CmdLineOption : Type 0 where
  pub name : Bytes
  pub default_value : Bytes
  pub description : Bytes

pub record NamedOption : Type 0 where
  pub long_name : Bytes
  pub short_name : Bytes
  pub default_value : Bytes
  pub description : Bytes

pub record CmdLineParser : Type 0 where
  pub usage : Bytes
  pub named_options : List NamedOption
  pub positional_options : List NamedOption

abbrev pub is_text_empty : Bytes → Bool
is_text_empty [] = true
is_text_empty (c ∷ cs) = false

-- `init` of one option. `none` is a read behind the end of `names`, which are none for a name of commas
-- and blanks.
unfoldable pub add_named : Bytes → CmdLineOption → List Bytes → CmdLineParser → Option CmdLineParser
add_named short option [] p = none
add_named short option (long ∷ names) p = some (record p {
  usage =
      p.usage
      ++ (codes "\t"
          ++ ((if is_text_empty short
                then codes "--" ++ long
                else codes "-" ++ (short ++ (codes " [--" ++ (long ++ codes "]"))))
              ++ (codes "\t" ++ (option.description ++ codes "\n"))));
  named_options =
      p.named_options
      ++ record {
        long_name = long;
        short_name = short;
        default_value = option.default_value;
        description = option.description;
      }
        ∷ [];
})

-- `names.size() > 1 ? names[1] : ""`
abbrev pub second : List Bytes → Bytes
second [] = []
second (a ∷ []) = []
second (a ∷ b ∷ names) = b

unfoldable pub add_option : CmdLineOption → CmdLineParser → Option CmdLineParser
unfolding split starts_with add_named
add_option option p =
    if is_text_empty option.name
    then some p
    else if starts_with option.name (codes "@") false
    then some (record p {
      usage =
          p.usage
          ++ (codes "\t@"
              ++ (drop 1 option.name ++ (codes "\t" ++ (option.description ++ codes "\n"))));
      positional_options =
          p.positional_options
          ++ record {
            long_name = drop 1 option.name;
            short_name = [];
            default_value = option.default_value;
            description = option.description;
          }
            ∷ [];
    })
    else (split (length option.name + 1) option.name (is_any_of (codes ",")) remove_empty_string
        >>= λ names. add_named (second names) option names p)

unfoldable pub init_loop : List CmdLineOption → CmdLineParser → Option CmdLineParser
unfolding add_option
init_loop [] p = some p
init_loop (o ∷ os) p = add_option o p >>= init_loop os

-- `init`
unfoldable pub init : List CmdLineOption → Option CmdLineParser
unfolding init_loop
init options =
    init_loop options
      (record { usage = codes "Usage:\n"; named_options = []; positional_options = [] })

-- The functions registered at the store, if there are any, are taken to leave its values alone.
-- The loops over the named options: the first with the long (or short) name is set.
unfoldable pub set_named :
    (NamedOption → Bytes) → Bytes → Bytes → List NamedOption → Settings → Settings
unfolding bytes_eq set_value new_string
set_named name_of name value [] s = s
set_named name_of name value (o ∷ os) s =
    let rest = set_named name_of name value os s in
    if bytes_eq (name_of o) name
    then (set_value looking o.long_name (new_string value) s).0
    else rest

-- What follows the dashes: a name, or a name, an equals sign and a value.
unfoldable pub set_param : (NamedOption → Bytes) → Bytes → List NamedOption → Settings → Settings
unfolding find set_named
set_param name_of param named s = elim (find (b'=' ∷ []) param) [
  | none ↦ set_named name_of param [] named s
  | some pos ↦ set_named name_of (take pos param) (drop (pos + 1) param) named s
]

-- An argument without dashes goes to the next positional option, if there is one.
unfoldable pub take_positional : Bytes → List NamedOption → Settings → List NamedOption × Settings
unfolding set_value new_string
take_positional cmd [] s = ([], s)
take_positional cmd (o ∷ os) s = (os, (set_value looking o.long_name (new_string cmd) s).0)

-- `doParse`: the positional options that are left, and the settings
unfoldable pub do_parse :
    Bytes → List NamedOption → List NamedOption → Settings → List NamedOption × Settings
unfolding is_prefix set_param take_positional
do_parse cmd named positional s =
    if is_prefix (codes "--") cmd
    then (positional, set_param (λ o. o.long_name) (drop 2 cmd) named s)
    else if is_prefix (codes "-") cmd
    then (positional, set_param (λ o. o.short_name) (drop 1 cmd) named s)
    else take_positional cmd positional s

unfoldable pub parse_loop : List Bytes → List NamedOption → List NamedOption → Settings → Settings
unfolding do_parse
parse_loop [] named positional s = s
parse_loop (a ∷ args) named positional s =
    let (positional', s') = do_parse a named positional s in parse_loop args named positional' s'

-- `parse` of the arguments behind the program's name
unfoldable pub parse_args : List Bytes → CmdLineParser → Settings → Settings
unfolding parse_loop
parse_args args p s = parse_loop args p.named_options p.positional_options s
