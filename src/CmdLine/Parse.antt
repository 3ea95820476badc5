-- ===== src/CmdLine/Parse.antt =====
-- What the arguments of a program leave in its settings.
use libff.Prelude.{
  ◌≡◌, refl, ap, ◌∙◌, ◌≢◌, inl, inr, some, List, [], ◌∷◌, ◌++◌, arith, Bool-cases, length, All,
  take-length_append, drop-length_add_append, Bytes, codes,
}
use libff.Strings.Search.{bytes_eq_iff}
use libff.Strings.{find, is_prefix, bytes_eq}
use libff.Variant.{new_string}
use libff.Settings.{looking, Settings, get_value}
use libff.Settings.Values.{looking-IsQuiet, get_value-set_value}
use libff.CmdLine.{
  NamedOption, CmdLineParser, set_named, set_param, do_parse, parse_loop, parse_args,
}

module _ (key : Bytes) where
  -- No option has the key.
  abbrev pub NoOption : List NamedOption → Type 0
  NoOption os = All (λ o. key ≢ o.long_name) os

find-equals :
    (name value : Bytes)
    → All (λ c. c ≢ b'=') name
    → find (b'=' ∷ []) (name ++ b'=' ∷ value) ≡ some (length name)
unfolding find is_prefix
find-equals [] value h = refl
find-equals (c ∷ name) value h = ground (arith, h.0, find-equals name value h.1)

-- The option is the first with its long name, or another with the same name comes first.
set_named-long :
    (pre post : List NamedOption) (o : NamedOption) (value : Bytes) (s : Settings)
    → get_value o.long_name (set_named (λ x. x.long_name) o.long_name value (pre ++ o ∷ post) s)
      ≡ some (new_string value)
unfolding set_named
set_named-long [] post o value s =
    rw ((bytes_eq_iff o.long_name o.long_name).1 refl)
      (get_value-set_value looking looking-IsQuiet o.long_name [] (new_string value) s).0
set_named-long (p ∷ pre) post o value s = elim (Bool-cases (bytes_eq p.long_name o.long_name)) [
  | inl same ↦
      rw (same, ← (bytes_eq_iff p.long_name o.long_name).0 same)
        (get_value-set_value looking looking-IsQuiet p.long_name [] (new_string value) s).0
  | inr other ↦ rw other (set_named-long pre post o value s)
]

parse_loop-last :
    (args : List Bytes) (a : Bytes) (named positional : List NamedOption) (s : Settings)
    → (positional' : List NamedOption) × (s' : Settings) × (parse_loop
          (args ++ a ∷ [])
          named
          positional
          s
        ≡ (do_parse a named positional' s').1)
unfolding parse_loop
parse_loop-last [] a named positional s = (positional, s, refl)
parse_loop-last (b ∷ args) a named positional s = parse_loop-last args a named _ _

set_param-long :
    (named pre post : List NamedOption) (o : NamedOption) (value : Bytes) (s : Settings)
    → named ≡ pre ++ o ∷ post
    → All (λ c. c ≢ b'=') o.long_name
    → get_value o.long_name (set_param (λ x. x.long_name) (o.long_name ++ b'=' ∷ value) named s)
      ≡ some (new_string value)
unfolding set_param
set_param-long named pre post o value s e plain =
    rw
      (
        set_param,
        find-equals o.long_name value plain,
        take-length_append o.long_name (b'=' ∷ value),
        drop-length_add_append o.long_name (b'=' ∷ value) 1,
        e,
      )
      (set_named-long pre post o value s)

-- Whatever the arguments before it, a last argument `--name=value` of a declared option sets the option to
-- all of the text behind the first equals sign.
pub parse_args-last :
    (args : List Bytes) (pre post : List NamedOption) (o : NamedOption) (value : Bytes)
    (p : CmdLineParser) (s : Settings)
    → p.named_options ≡ pre ++ o ∷ post
    → All (λ c. c ≢ b'=') o.long_name
    → get_value o.long_name
        (parse_args (args ++ (codes "--" ++ (o.long_name ++ b'=' ∷ value)) ∷ []) p s)
      ≡ some (new_string value)
unfolding parse_args do_parse is_prefix
parse_args-last args pre post o value p s e plain =
    let a : Bytes = codes "--" ++ (o.long_name ++ b'=' ∷ value) in
    let (positional', s', last) = parse_loop-last args a p.named_options p.positional_options s in
    ap (get_value o.long_name) last ∙ set_param-long p.named_options pre post o value s' e plain
