-- ===== src/Strings/Tests.antt =====
-- The theorems on strings at concrete texts.
use libff.Prelude.{◌<◌, ◌≡◌, refl, true, false, none, some, [], ◌∷◌, arith, Bytes, Returns}
use libff.Strings.{
  with_empty_string, is_any_of, is_prefix, folded, replace_all, index_of, split, find,
  delimiter_size,
}
use libff.Strings.ReplaceAll.{substitute, replace_all_lem}
use libff.Strings.Split.{Splits, split_lem}

-- "aBab", "ab" and "x"
abbrev text : Bytes
text = b'a' ∷ b'B' ∷ b'a' ∷ b'b' ∷ []

abbrev sought : Bytes
sought = b'a' ∷ b'b' ∷ []

abbrev other : Bytes
other = b'x' ∷ []

text_index : index_of text sought false ≡ some 2
unfolding index_of find is_prefix
text_index = refl

text_missing : index_of text other false ≡ none
unfolding index_of find is_prefix
text_missing = refl

replace_all_lem_example :
    replace_all 5 text sought other true
    ≡ some (substitute (folded true sought) other 0 (folded true text) text)
replace_all_lem_example = replace_all_lem 5 text sought other true (omega arith) (omega arith)

text_delimiter : 0 < delimiter_size (is_any_of other)
unfolding delimiter_size
text_delimiter = omega arith

split_lem_example :
    Returns
      (split 4 text (is_any_of other) with_empty_string)
      (Splits (is_any_of other) with_empty_string text)
split_lem_example =
    split_lem 4 text (is_any_of other) with_empty_string text_delimiter (omega arith) (omega arith)
