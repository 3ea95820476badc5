-- ===== src/CmdLine/Tests.antt =====
-- A program with two named options and a positional one.
use libff.Prelude.{◌≡◌, refl, none, some, [], ◌∷◌, codes}
use libff.Strings.{bytes_eq, delimiter_find, find_any, delimiter_size, pushed, trim}
use libff.Settings.{new_settings, get_value}
use libff.CmdLine.{NamedOption, CmdLineParser, init, parse_args}

abbrev help_option : NamedOption
help_option = record {
  long_name = codes "help";
  short_name = codes "h";
  default_value = [];
  description = codes "shows this";
}

abbrev size_option : NamedOption
size_option = record {
  long_name = codes "size";
  short_name = [];
  default_value = codes "10";
  description = codes "in pixels";
}

abbrev file_option : NamedOption
file_option = record {
  long_name = codes "file";
  short_name = [];
  default_value = [];
  description = [];
}

abbrev parser : CmdLineParser
parser = record {
  usage = codes "Usage:\n\t-h [--help]\tshows this\n\t--size\tin pixels\n\t@file\t\n";
  named_options = help_option ∷ size_option ∷ [];
  positional_options = file_option ∷ [];
}

init-parser :
    init (
      record { name = codes "help,h"; default_value = []; description = codes "shows this" }
      ∷ record { name = codes "size"; default_value = codes "10"; description = codes "in pixels" }
      ∷ record { name = codes "@file"; default_value = []; description = [] }
      ∷ [])
    ≡ some parser
unfolding init bytes_eq delimiter_find find_any delimiter_size pushed trim
init-parser = refl

-- The default value of an option is never used.
default_unused : get_value (codes "size") (parse_args [] parser new_settings) ≡ none
unfolding parse_args get_value
default_unused = refl

-- A name of commas only
no_name : init (record { name = codes ","; default_value = []; description = [] } ∷ []) ≡ none
unfolding init bytes_eq delimiter_find find_any delimiter_size pushed trim
no_name = refl
