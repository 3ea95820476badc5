-- ===== src/FilePath.antt =====
-- ff/src/file/File.cpp: the path of a File, as a list of names, on a system whose separator is '/'.
mod Normal
mod Joined
mod RoundTrip
mod Children
mod Tests
use libff.Prelude.{
  ℕ, zero, suc, ◌+◌, ◌-◌, ◌*◌, ◌/◌, ◌%◌, ◌^◌, ◌≤◌, ◌<◌, min, bit_and, bit_or, bit_xor, ◌≡◌, refl,
  sym, ap, ◌∙◌, ◌≢◌, ◌↔◌, ◌⊎◌, inl, inr, Bool, true, false, not, ◌&&◌, ◌||◌, Option, none, some,
  List, [], ◌∷◌, ◌++◌, map, append-nil, append_assoc, arith, ltb, leb, ◌==◌, if◌then◌else◌, ltb→lt,
  lt→ltb, le→ltb, leb→le, le→leb, lt→leb, ==_iff, ==_refl, Bool-cases, Option-cases, ◌>>=◌, length,
  get_elem?, get_or, set, take, drop, replicate, All, length-append, length-set, take-append-drop,
  length-take, length-drop, length-replicate, take-length_append, drop-length_append,
  drop-length_add_append, take_all, drop_all, take-append_le, drop-append_le,
  get_elem?-length_append, get_elem?-none, take_nil, drop_nil, take-take, drop-take, get_elem?-take,
  get_elem?-some, drop-drop, drop-min, length-map, take-replicate_append, take-length_add_append,
  drop_pos, Bytes, IsByte, add32, le_bytes, le_value, length-le_bytes, le_value-le_bytes,
  le_bytes-IsByte, sub32, copy_out, copy_in, written, copy_in-written, copy_in-outside,
  length-written, take-written, copy_out-inside, copy_out-outside, Returns, Returns_weaken,
  same_table, agree_below, bit_and_low4, bit_or_nibbles, bit_and_low2, bit_and_low6, bit_and_mid2,
  bit_or_low2, bit_or_low6, bit_or_comm, pow2, ones, bit_or-side, pow2_pos, bit_and-ones, codes,
  digit, numeral_loop, numeral, padded,
}
use libff.Strings.{trim, starts_with, bytes_eq}

-- PATH_SEPARATER
abbrev pub path_separater : Bytes
path_separater = codes "/"

-- The two backslashes in front of the name of a machine
abbrev pub machine_root : Bytes
machine_root = codes "\\\\"

abbrev pub is_separater : ℕ → Bool
is_separater c = c == b'/' || c == b'\\'

-- What `setPath` does with the characters up to a separator `c`
abbrev pub end_node : List Bytes → Bytes → ℕ → List Bytes
end_node path node c =
    if not (length (trim node) == 0)
    then path ++ trim node ∷ []
    else if length path == 0
    then path ++ (c ∷ []) ∷ []
    else path

-- What it does with the characters behind the last separator
abbrev pub last_node : List Bytes → Bytes → List Bytes
last_node path node =
    if not (length (trim node) == 0)
    then path ++ trim node ∷ []
    else if length path == 0
    then path ++ path_separater ∷ []
    else path

-- The loop of `setPath` and what follows it; `node` is what `nodeStr` holds.
unfoldable pub path_loop : List Bytes → Bytes → Bytes → List Bytes
path_loop path node [] = last_node path node
path_loop path node (c ∷ p) =
    path_loop (if is_separater c then end_node path node c else path)
      (if is_separater c then [] else node ++ c ∷ []) p

-- `File::setPath` of a file whose path is `old`
unfoldable pub set_path : List Bytes → Bytes → List Bytes
unfolding path_loop
set_path old p =
    if length (trim p) == 0
    then old
    else if starts_with (trim p) machine_root false
    then path_loop (machine_root ∷ []) [] (drop 2 (trim p))
    else path_loop [] [] (trim p)

-- `File(const std::string&)`
unfoldable pub file_of : Bytes → List Bytes
unfolding set_path
file_of p = set_path [] p

abbrev pub is_root : Bytes → Bool
is_root path = bytes_eq path (codes "/") || bytes_eq path (codes "\\") || bytes_eq path machine_root

-- The loop of `File::getPath`
unfoldable pub get_path_loop : Bytes → List Bytes → Bytes
get_path_loop path [] = path
get_path_loop path (name ∷ names) =
    get_path_loop
      (if length path == 0
        then name
        else if is_root path
        then path ++ name
        else path ++ (path_separater ++ name))
      names

-- `File::getPath`
unfoldable pub get_path : List Bytes → Bytes
unfolding get_path_loop
get_path file = get_path_loop [] file

-- The text that `File(parent, child)` gives to `setPath`
abbrev pub child_text : Bytes → Bytes → Bytes
child_text p1 p2 =
    (if length p1 == 0 then p1 else p1 ++ path_separater)
    ++ (if not (length p2 == 0) && bytes_eq (take 1 p2) path_separater then drop 1 p2 else p2)

-- `File(parent, child)`
unfoldable pub file_in : Bytes → Bytes → List Bytes
file_in parent child =
    set_path [] (child_text (get_path (file_of parent)) (get_path (file_of child)))

-- `File::cut`
unfoldable pub cut : List Bytes → ℕ → List Bytes
cut file count = take (length file - count) file

abbrev pub last_or : Bytes → List Bytes → Bytes
last_or name [] = name
last_or name (n ∷ names) = last_or n names

-- `File::getName`
unfoldable pub get_name : List Bytes → Bytes
get_name file =
    let name = last_or [] file in
    if length name == 0
      || bytes_eq name (codes "/")
      || bytes_eq name (codes "\\")
      || get_or name (length name - 1) 0 == b':'
    then []
    else name

-- `name.substr(name.find_last_of(".") + 1)`; the empty text where there is no dot
unfoldable pub after_dot : Bytes → Option Bytes
after_dot [] = none
after_dot (c ∷ name) = elim (after_dot name) [
  | some suffix ↦ some suffix
  | none ↦ if c == b'.' then some name else none
]

-- `File::getSuffix`
unfoldable pub get_suffix : List Bytes → Bytes
unfolding get_name after_dot
get_suffix file = elim (after_dot (get_name file)) [ none ↦ [] | some suffix ↦ suffix ]
