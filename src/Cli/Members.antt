-- ===== src/Cli/Members.antt =====
-- What `toString` writes behind the action, and how `parse` reads it.
use libff.Prelude.{
  suc, ◌+◌, ◌<◌, ◌≡◌, refl, sym, ap, ◌∙◌, true, false, none, some, List, [], ◌∷◌, ◌++◌, map,
  append-nil, append_assoc, arith, ◌==◌, if◌then◌else◌, length, All, take_all, Bytes, codes,
}
use libff.Strings.{is_blank}
use libff.Strings.ReplaceAll.{replace_all_lem}
use libff.Maps.{Ascending}
use libff.Variant.{new_string}
use libff.Variant.Types.{is_block}
use libff.Variant.Convert.{Streams, to_string}
use libff.Cli.{
  CliPacket, parse_rest, scan_members, is_nil, is_valid_char, take_word, skip_spaces, member_text,
  members_text,
}
use libff.Cli.Words.{
  valid_IsSolid, solid_space, take_word-append, take_word-name, skip_spaces_solid,
}
use libff.Cli.Scanner.{
  items, escaped, substitute-escaped, text_member, IsItem, finish-run, name-solid, AllBefore,
}

to_string-new_string : (io : Streams) (s : Bytes) → to_string io (new_string s) ≡ s
unfolding to_string new_string
to_string-new_string io [] = refl
to_string-new_string io (c ∷ s) =
    rw positive (ap (λ t. c ∷ t) (take_all (length s) s (omega arith)))
  where
    positive : (suc (length s) == 0) ≡ false
    positive = ground arith

member_text-new_string :
    (io : Streams) (e : Bytes × Bytes)
    → member_text io e.0 (new_string e.1) ≡ some (e.0 ++ b'=' ∷ b'"' ∷ (escaped e.1 ++ b'"' ∷ []))
unfolding member_text new_string is_block
member_text-new_string io e =
    rw
      (
        to_string-new_string io e.1,
        replace_all_lem (length e.1 + 1) e.1 (codes "\"") (codes "\\\"") false (omega arith)
            (omega arith),
        substitute-escaped e.1,
      )
      refl

pub members_text-items :
    (io : Streams) (kvs : List (Bytes × Bytes))
    → members_text io (map text_member kvs) ≡ some (items kvs)
unfolding members_text items
members_text-items io [] = refl
members_text-items io (e ∷ []) = member_text-new_string io e
members_text-items io (e ∷ d ∷ kvs) =
    rw
      (
        member_text-new_string io e,
        members_text-items io (d ∷ kvs),
        append_assoc e.0 (b'=' ∷ b'"' ∷ (escaped e.1 ++ b'"' ∷ [])) (b',' ∷ items (d ∷ kvs)),
        append_assoc (escaped e.1) (b'"' ∷ []) (b',' ∷ items (d ∷ kvs)),
      )
      refl

-- A word of letters, digits and `_`
abbrev pub IsNameOf : Bytes → Type 0
IsNameOf s = All (λ c. is_valid_char c ≡ true) s

-- The texts behind the action
abbrev pub obj_text : Bytes → Bytes
obj_text obj = if is_nil obj then [] else b' ' ∷ obj

abbrev pub tail_text : List (Bytes × Bytes) → Bytes
tail_text [] = []
tail_text (e ∷ kvs) = b' ' ∷ items (e ∷ kvs)

abbrev pub Packet : Bytes → Bytes → List (Bytes × Bytes) → CliPacket
Packet action obj kvs = record { action = action; obj = obj; members = map text_member kvs }

module _ (action rest : Bytes) where
  parse_rest-no_obj :
      take_word (skip_spaces rest) ≡ none
      → parse_rest action rest
        ≡ record { action = action; obj = []; members = scan_members (skip_spaces rest) }
  unfolding parse_rest
  parse_rest-no_obj h = rw (parse_rest, h) refl

  parse_rest-obj :
      (obj rest' : Bytes)
      → take_word (skip_spaces rest) ≡ some (obj, rest')
      → parse_rest action rest
        ≡ record { action = action; obj = obj; members = scan_members (skip_spaces rest') }
  unfolding parse_rest
  parse_rest-obj obj rest' h = rw (parse_rest, h) refl

skip_spaces-name :
    (name t : Bytes)
    → 0 < length name
    → All (λ c. is_blank c ≡ false) name
    → skip_spaces (name ++ t) ≡ name ++ t
skip_spaces-name [] t h solid = absurd (omega arith)
skip_spaces-name (c ∷ cs) t h solid = skip_spaces_solid c (cs ++ t) (solid_space c solid.0)

items_split :
    (e : Bytes × Bytes) (kvs : List (Bytes × Bytes))
    → (t : Bytes) × (items (e ∷ kvs) ≡ e.0 ++ b'=' ∷ t)
unfolding items
items_split e [] = (_, refl)
items_split e (d ∷ kvs) = (_, refl)

module _ (e : Bytes × Bytes) (kvs : List (Bytes × Bytes)) (h : IsItem e) where
  skip_spaces-items : skip_spaces (items (e ∷ kvs)) ≡ items (e ∷ kvs)
  skip_spaces-items =
      let (t, split) = items_split e kvs in
      rw split (skip_spaces-name e.0 (b'=' ∷ t) h.0 (name-solid e.0 h.1))

  take_word-items : take_word (items (e ∷ kvs)) ≡ none
  take_word-items =
      let (t, split) = items_split e kvs in rw split (take_word-name e.0 t (name-solid e.0 h.1))

AllBefore-nil : (kvs : List (Bytes × Bytes)) → AllBefore [] kvs
AllBefore-nil [] = tt
AllBefore-nil (e ∷ kvs) = (tt, AllBefore-nil kvs)

scan_members-items :
    (kvs : List (Bytes × Bytes))
    → All IsItem kvs
    → Ascending kvs
    → scan_members (items kvs) ≡ map text_member kvs
unfolding scan_members
scan_members-items kvs h asc = finish-run kvs [] h asc (AllBefore-nil kvs)

pub parse_rest_lem :
    (action obj : Bytes) (kvs : List (Bytes × Bytes))
    → All (λ c. is_valid_char c ≡ true) obj
    → All IsItem kvs
    → Ascending kvs
    → parse_rest action (obj_text obj ++ tail_text kvs) ≡ Packet action obj kvs
unfolding skip_spaces scan_members
parse_rest_lem action [] [] valid h asc =
    parse_rest-obj action [] [] [] (take_word-append [] [] tt tt)
parse_rest_lem action [] (e ∷ kvs) valid h asc =
    parse_rest-no_obj action (b' ' ∷ items (e ∷ kvs))
      (rw (skip_spaces-items e kvs h.0) (take_word-items e kvs h.0))
    ∙ rw (skip_spaces-items e kvs h.0, scan_members-items (e ∷ kvs) h asc) refl
parse_rest_lem action (c ∷ obj) [] valid h asc = rw (append-nil obj) (
    parse_rest-obj action (b' ' ∷ c ∷ obj) (c ∷ obj) [] (
      rw (skip_spaces_solid c obj (valid_IsSolid c valid.0).1)
        (ap take_word (sym (append-nil (c ∷ obj))) ∙ take_word-append (c ∷ obj) [] valid tt)))
parse_rest_lem action (c ∷ obj) (e ∷ kvs) valid h asc =
    parse_rest-obj action (b' ' ∷ c ∷ (obj ++ b' ' ∷ items (e ∷ kvs))) (c ∷ obj)
      (b' ' ∷ items (e ∷ kvs))
      (rw (skip_spaces_solid c (obj ++ b' ' ∷ items (e ∷ kvs)) (valid_IsSolid c valid.0).1)
        (take_word-append (c ∷ obj) (b' ' ∷ items (e ∷ kvs)) valid refl))
    ∙ rw (skip_spaces-items e kvs h.0, scan_members-items (e ∷ kvs) h asc) refl
