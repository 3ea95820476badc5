-- ===== src/Strings.antt =====
-- ff/src/string/String.cpp: the functions on `std::string`, a string being its bytes. `tolower`,
-- `toupper` and `isspace` are those of the "C" locale.
pub mod Search
pub mod ReplaceAll
pub mod Split
pub mod Trim
mod Tests
use libff.Prelude.{
  ℕ, zero, suc, ◌+◌, ◌-◌, ◌%◌, ◌^◌, Bool, true, false, ◌&&◌, ◌||◌, Option, none, some, List, [],
  ◌∷◌, ◌++◌, map, ltb, leb, ◌==◌, if◌then◌else◌, length, take, drop, Bytes,
}

-- `isspace`
abbrev pub is_space : ℕ → Bool
is_space c = leb 9 c && leb c 13 || c == b' '

-- `_isspace_`: NUL counts as a space.
unfoldable pub is_blank : ℕ → Bool
is_blank c = is_space c || c == 0

-- `tolower` and `toupper`
unfoldable pub lower_char : ℕ → ℕ
lower_char c = if leb b'A' c && leb c b'Z' then c + 32 else c

unfoldable pub upper_char : ℕ → ℕ
upper_char c = if leb b'a' c && leb c b'z' then c - 32 else c

-- `ToLower`, `ToLowerCopy`, `ToUpper` and `ToUpperCopy`
unfoldable pub to_lower : Bytes → Bytes
unfolding lower_char
to_lower s = map lower_char s

unfoldable pub to_upper : Bytes → Bytes
unfolding upper_char
to_upper s = map upper_char s

-- `TrimLeft`: erases up to the first that is no blank.
unfoldable pub trim_left : Bytes → Bytes
unfolding is_blank
trim_left [] = []
trim_left (c ∷ cs) = let rest = trim_left cs in if is_blank c then rest else c ∷ cs

-- `TrimRight`: erases behind the last that is no blank.
unfoldable pub trim_right : Bytes → Bytes
unfolding is_blank
trim_right [] = []
trim_right (c ∷ cs) = elim (trim_right cs) [
  | [] ↦ if is_blank c then [] else c ∷ []
  | d ∷ ds ↦ c ∷ d ∷ ds
]

-- `Trim`
unfoldable pub trim : Bytes → Bytes
unfolding trim_left trim_right
trim s = trim_right (trim_left s)

-- `std::string`'s `==`
unfoldable pub bytes_eq : Bytes → Bytes → Bool
bytes_eq [] [] = true
bytes_eq [] (y ∷ ys) = false
bytes_eq (x ∷ xs) [] = false
bytes_eq (x ∷ xs) (y ∷ ys) = let rest = bytes_eq xs ys in x == y && rest

-- Is `f` at the front of `s`?
unfoldable pub is_prefix : Bytes → Bytes → Bool
is_prefix [] s = true
is_prefix (x ∷ f) [] = false
is_prefix (x ∷ f) (y ∷ s) = let rest = is_prefix f s in x == y && rest

abbrev pub after_first : Option ℕ → Option ℕ
after_first none = none
after_first (some i) = some (suc i)

-- `s.find(f)`; `none` is `npos`.
unfoldable pub find : Bytes → Bytes → Option ℕ
find f [] = if is_prefix f [] then some 0 else none
find f (c ∷ s) = let rest = after_first (find f s) in if is_prefix f (c ∷ s) then some 0 else rest

-- `s.find(f, pos)`
unfoldable pub find_from : Bytes → Bytes → ℕ → Option ℕ
find_from f s pos =
    if leb pos (length s)
    then elim (find f (drop pos s)) [ none ↦ none | some i ↦ some (pos + i) ]
    else none

-- `s.replace(pos, n, r)`
abbrev pub splice : Bytes → ℕ → ℕ → Bytes → Bytes
splice s pos n r = take pos s ++ (r ++ drop (pos + n) s)

-- The two sides of a comparison, lowered under `ignoreCase`.
abbrev pub folded : Bool → Bytes → Bytes
folded ignore_case s = if ignore_case then to_lower s else s

-- `Replace`: the first occurrence
unfoldable pub replace : Bytes → Bytes → Bytes → Bool → Bytes
unfolding to_lower
replace src f r ignore_case = elim (find (folded ignore_case f) (folded ignore_case src)) [
  | none ↦ src
  | some pos ↦ splice src pos (length f) r
]

-- The loop of `ReplaceAll`: `n` is `find.length()`, `f` and `s` are the strings that it searches.
-- `none` is no result of the code: the fuel of the model ran out.
unfoldable pub replace_loop : ℕ → ℕ → Bytes → Bytes → Bytes → Bytes → ℕ → Option Bytes
replace_loop zero n f r src s pos = none
replace_loop (suc fuel) n f r src s pos = elim (find_from f s pos) [
  | none ↦ some src
  | some i ↦ replace_loop fuel n f r (splice src i n r) (splice s i n r) (i + length r)
]

-- `ReplaceAll`
unfoldable pub replace_all : ℕ → Bytes → Bytes → Bytes → Bool → Option Bytes
unfolding replace_loop
replace_all fuel src f r ignore_case =
    replace_loop fuel (length f) (folded ignore_case f) r src (folded ignore_case src) 0

-- A position, or -1 for `npos`, as it becomes an int; `none` is a negative one.
abbrev pub as_int : Option ℕ → Option ℕ
as_int none = none
as_int (some i) = if ltb (i % 2 ^ 32) (2 ^ 31) then some (i % 2 ^ 32) else none

-- `IndexOf`: the position; `none` is a negative one.
unfoldable pub index_of : Bytes → Bytes → Bool → Option ℕ
unfolding to_lower
index_of src f ignore_case = as_int (find (folded ignore_case f) (folded ignore_case src))

-- `StartsWith` and `EndsWith`
unfoldable pub starts_with : Bytes → Bytes → Bool → Bool
unfolding to_lower
starts_with src f ignore_case =
    if ltb (length src) (length f)
    then false
    else bytes_eq (folded ignore_case (take (length f) src)) (folded ignore_case f)

unfoldable pub ends_with : Bytes → Bytes → Bool → Bool
unfolding to_lower
ends_with src f ignore_case =
    if ltb (length src) (length f)
    then false
    else bytes_eq (folded ignore_case (drop (length src - length f) src)) (folded ignore_case f)

-- `IsAnyOf` and `IsStringOf`, the delimiters of `Split`
pub data Delimiter : Type 0 where
  is_any_of : Bytes → Delimiter
  is_string_of : Bytes → Delimiter

-- `m_delimiterStr.find(str[i])`
unfoldable pub has_char : Bytes → ℕ → Bool
has_char [] c = false
has_char (x ∷ xs) c = let rest = has_char xs c in x == c || rest

-- The loop of `IsAnyOf::Find`; `none` is -1.
unfoldable pub find_any : Bytes → Bytes → Option ℕ
unfolding has_char
find_any d [] = none
find_any d (c ∷ cs) =
    let rest = after_first (find_any d cs) in if has_char d c then some 0 else rest

-- `IDelimiter::Find`, an int: `none` is a negative one.
unfoldable pub delimiter_find : Delimiter → Bytes → Option ℕ
delimiter_find (is_any_of d) s = as_int (find_any d s)
delimiter_find (is_string_of d) s = as_int (find d s)

-- `DelimiterSize`, of a delimiter that is shorter than 2^31 characters

unfoldable pub delimiter_size : Delimiter → ℕ
delimiter_size (is_any_of d) = 1
delimiter_size (is_string_of d) = length d

-- `StringCompressType`
pub data StringCompressType : Type 0 where
  with_empty_string remove_empty_string : StringCompressType

-- What is pushed for a piece in front of a delimiter.
unfoldable pub pushed : StringCompressType → Bytes → List Bytes
pushed with_empty_string piece = piece ∷ []
pushed remove_empty_string piece = if length (trim piece) == 0 then [] else trim piece ∷ []

-- The loop of `Split`; `none` as above, and where `pos + DelimiterSize()` is more than an int holds.
unfoldable pub split_loop :
    ℕ → Delimiter → StringCompressType → Bytes → List Bytes → Option (List Bytes)
split_loop fuel d type [] texts = some texts
split_loop zero d type (c ∷ cs) texts = none
split_loop (suc fuel) d type (c ∷ cs) texts = elim (delimiter_find d (c ∷ cs)) [
  | none ↦ some (texts ++ (c ∷ cs) ∷ [])
  | some pos ↦
      let rest =
        split_loop fuel d type (drop (pos + delimiter_size d) (c ∷ cs))
          (texts ++ pushed type (take pos (c ∷ cs))) in
      if ltb (pos + delimiter_size d) (2 ^ 31) then rest else none
]

-- `Split` and `String::split`
unfoldable pub split : ℕ → Bytes → Delimiter → StringCompressType → Option (List Bytes)
unfolding split_loop
split fuel text d type = split_loop fuel d type text []

-- `StringList::join`
unfoldable pub join : Bytes → List Bytes → Bytes
join sep [] = []
join sep (x ∷ []) = x
join sep (x ∷ y ∷ rest) = x ++ (sep ++ join sep (y ∷ rest))
