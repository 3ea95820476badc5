-- ===== src/Cli/RoundTrip.antt =====
-- `parse` of what `toString` gives.
use libff.Prelude.{
  ℕ, ◌<◌, ◌≡◌, refl, ap, ◌∙◌, ◌≢◌, inl, inr, true, false, List, [], ◌∷◌, ◌++◌, map, append_assoc,
  arith, ◌==◌, Bool-cases, length, All, Bytes, Returns,
}
use libff.Strings.{is_blank}
use libff.Maps.{Ascending}
use libff.Variant.Convert.{Streams}
use libff.Cli.{parse, parse_rest, packet_text, lead}
use libff.Cli.Words.{
  valid_IsSolid, Ends, take_word-append, until_nul_lem, skip_spaces_solid, trim-tight,
  without_semicolon-snoc,
}
use libff.Cli.Scanner.{items, escaped, text_member, IsItem, name-solid}
use libff.Cli.Members.{members_text-items, parse_rest_lem, obj_text, tail_text, Packet, IsNameOf}

module _ {A : Type 0} (P : A → Type 0) where
  All-append : (xs ys : List A) → All P xs → All P ys → All P (xs ++ ys)
  All-append [] ys h k = k
  All-append (x ∷ xs) ys h k = (h.0, All-append xs ys h.1 k)

abbrev NoNul : Bytes → Type 0
NoNul s = All (λ c. c ≢ 0) s

solid_nonzero : (c : ℕ) → is_blank c ≡ false → c ≢ 0
unfolding is_blank
solid_nonzero c h e = ground arith

name-NoNul : (s : Bytes) → IsNameOf s → NoNul s
name-NoNul [] h = tt
name-NoNul (c ∷ s) h = (solid_nonzero c (valid_IsSolid c h.0).0, name-NoNul s h.1)

key-NoNul : (s : Bytes) → All (λ c. is_blank c ≡ false) s → NoNul s
key-NoNul [] h = tt
key-NoNul (c ∷ s) h = (solid_nonzero c h.0, key-NoNul s h.1)

escaped-NoNul : (s : Bytes) → NoNul s → NoNul (escaped s)
unfolding escaped
escaped-NoNul [] h = tt
escaped-NoNul (c ∷ s) h = elim (Bool-cases (c == b'"')) [
  | inl quote ↦ rw quote (λ e. omega arith, (λ e. omega arith, escaped-NoNul s h.1))
  | inr other ↦ rw other (h.0, escaped-NoNul s h.1)
]

item-NoNul :
    (e : Bytes × Bytes) (t : Bytes)
    → IsItem e
    → NoNul e.1
    → NoNul t
    → NoNul (e.0 ++ b'=' ∷ b'"' ∷ (escaped e.1 ++ b'"' ∷ t))
item-NoNul e t h n k = All-append _ e.0 _ (key-NoNul e.0 (name-solid e.0 h.1)) (
  λ x. omega arith,
  (λ x. omega arith, All-append _ (escaped e.1) _ (escaped-NoNul e.1 n) (λ x. omega arith, k)),
)

items-NoNul :
    (kvs : List (Bytes × Bytes)) → All IsItem kvs → All (λ e. NoNul e.1) kvs → NoNul (items kvs)
unfolding items
items-NoNul [] h n = tt
items-NoNul (e ∷ []) h n = item-NoNul e [] h.0 n.0 tt
items-NoNul (e ∷ d ∷ kvs) h n =
    item-NoNul e (b',' ∷ items (d ∷ kvs)) h.0 n.0 (λ x. omega arith, items-NoNul (d ∷ kvs) h.1 n.1)

rest-NoNul :
    (obj : Bytes) (kvs : List (Bytes × Bytes))
    → IsNameOf obj
    → All IsItem kvs
    → All (λ e. NoNul e.1) kvs
    → NoNul (obj_text obj ++ tail_text kvs)
rest-NoNul [] [] vo h n = tt
rest-NoNul [] (e ∷ kvs) vo h n = (λ x. omega arith, items-NoNul (e ∷ kvs) h n)
rest-NoNul (c ∷ obj) [] vo h n =
    (λ x. omega arith, All-append _ (c ∷ obj) [] (name-NoNul (c ∷ obj) vo) tt)
rest-NoNul (c ∷ obj) (e ∷ kvs) vo h n = (
  λ x. omega arith,
  All-append _ (c ∷ obj) _ (name-NoNul (c ∷ obj) vo) (λ x. omega arith, items-NoNul (e ∷ kvs) h n),
)

rest-Ends : (obj : Bytes) (kvs : List (Bytes × Bytes)) → Ends (obj_text obj ++ tail_text kvs)
rest-Ends [] [] = tt
rest-Ends [] (e ∷ kvs) = refl
rest-Ends (c ∷ obj) kvs = refl

-- `parse` of an action and a rest that is closed by a semicolon
parse_lem :
    (c : ℕ) (action rest : Bytes)
    → IsNameOf (c ∷ action)
    → Ends rest
    → NoNul rest
    → parse (c ∷ ((action ++ rest) ++ b';' ∷ [])) ≡ (true, parse_rest (c ∷ action) rest)
unfolding parse
parse_lem c action rest valid ends nuls =
    rw
      (
        parse,
        trim-tight c (action ++ rest) b';' (valid_IsSolid c valid.0).0 refl,
        without_semicolon-snoc (c ∷ (action ++ rest)),
        until_nul_lem (c ∷ (action ++ rest))
            (All-append _ (c ∷ action) rest (name-NoNul (c ∷ action) valid) nuls),
        skip_spaces_solid c (action ++ rest) (valid_IsSolid c valid.0).1,
        take_word-append (c ∷ action) rest valid ends,
      )
      refl

lead-items :
    (kvs : List (Bytes × Bytes))
    → lead (map text_member kvs) ++ (items kvs ++ b';' ∷ []) ≡ tail_text kvs ++ b';' ∷ []
unfolding items
lead-items [] = refl
lead-items (e ∷ kvs) = refl

-- `parse` of what `toString` gives restores a packet with an action: action and object consist of
-- letters, digits and `_`, the keys are not empty, in order, and without blanks and `=`, and the texts are
-- without NULs and backslashes.
pub parse-packet_text :
    (io : Streams) (action obj : Bytes) (kvs : List (Bytes × Bytes))
    → 0 < length action
    → IsNameOf action
    → IsNameOf obj
    → All IsItem kvs
    → Ascending kvs
    → All (λ e. NoNul e.1) kvs
    → Returns
        (packet_text io (Packet action obj kvs))
        (λ s. parse s ≡ (true, Packet action obj kvs))
unfolding packet_text
parse-packet_text io [] obj kvs pos va vo h asc nuls = absurd (omega arith)
parse-packet_text io (c ∷ action) obj kvs pos va vo h asc nuls =
    rw
      (
        members_text-items io kvs,
        lead-items kvs,
        ← append_assoc (obj_text obj) (tail_text kvs) (b';' ∷ []),
        ← append_assoc action (obj_text obj ++ tail_text kvs) (b';' ∷ []),
      )
      (parse_lem c action (obj_text obj ++ tail_text kvs) va (rest-Ends obj kvs)
          (rest-NoNul obj kvs vo h nuls)
        ∙ ap (λ p. (true, p)) (parse_rest_lem (c ∷ action) obj kvs vo h asc))
