-- ===== src/Cli/Scanner.antt =====
-- The loop over the members, on the text that `toString` gives.
use libff.Prelude.{
  ℕ, ◌<◌, ◌≡◌, refl, sym, ap, ◌∙◌, ◌≢◌, inl, inr, Bool, true, false, List, [], ◌∷◌, ◌++◌, map,
  append-nil, append_assoc, arith, ◌==◌, if◌then◌else◌, ==_iff, Bool-cases, length, All, Bytes,
  codes,
}
use libff.Strings.{is_prefix, is_blank}
use libff.Strings.ReplaceAll.{substitute}
use libff.Maps.{Map, bytes_lt, Ascending}
use libff.Maps.Laws.{insert_last}
use libff.Variant.{Variant, new_string}
use libff.Cli.{Scan, step, run, finish, is_nil, add_member}
use libff.Cli.Words.{solid_space, trim-solid}

-- A text with a backslash in front of each quote
unfoldable pub escaped : Bytes → Bytes
escaped [] = []
escaped (c ∷ cs) = if c == b'"' then b'\\' ∷ b'"' ∷ escaped cs else c ∷ escaped cs

pub substitute-escaped : (s : Bytes) → substitute (codes "\"") (codes "\\\"") 0 s s ≡ escaped s
unfolding substitute escaped is_prefix
substitute-escaped [] = refl
substitute-escaped (c ∷ cs) = ground (arith, substitute-escaped cs)

-- Members with texts as their values, as `toString` writes them
unfoldable pub items : List (Bytes × Bytes) → Bytes
unfolding escaped
items [] = []
items (e ∷ []) = e.0 ++ b'=' ∷ b'"' ∷ (escaped e.1 ++ b'"' ∷ [])
items (e ∷ d ∷ m) = e.0 ++ b'=' ∷ b'"' ∷ (escaped e.1 ++ b'"' ∷ b',' ∷ items (d ∷ m))

abbrev pub text_member : Bytes × Bytes → Bytes × Variant
text_member e = (e.0, new_string e.1)

-- The states: in a name, between the equals sign and the quote, in quotes, and behind them
abbrev pub in_name : Bytes → Map Variant → Scan
in_name str m = record {
  str = str;
  is_parsing_name = true;
  is_quote_mode = false;
  is_trans_mode = false;
  key = [];
  value = [];
  members = m;
}

abbrev pub in_value : Bool → Bytes → Bytes → Bytes → Map Variant → Scan
in_value quote key str value m = record {
  str = str;
  is_parsing_name = false;
  is_quote_mode = quote;
  is_trans_mode = false;
  key = key;
  value = value;
  members = m;
}

abbrev pub IsNameChar : ℕ → Type 0
IsNameChar c = (is_blank c ≡ false) × (c ≢ b'=')

abbrev pub IsTextChar : ℕ → Type 0
IsTextChar c = c ≢ b'\\'

not_equal : {c d : ℕ} → c ≢ d → (c == d) ≡ false
not_equal h = ground (arith, h)

step-name :
    (c : ℕ) (last : Bool) (str : Bytes) (m : Map Variant)
    → IsNameChar c
    → step c last (in_name str m) ≡ in_name (str ++ c ∷ []) m
unfolding step
step-name c last str m h = rw (not_equal h.1, solid_space c h.0) refl

step-text :
    (c : ℕ) (last : Bool) (key str : Bytes) (m : Map Variant)
    → (c == b'"') ≡ false
    → IsTextChar c
    → last ≡ false
    → step c last (in_value true key str [] m) ≡ in_value true key (str ++ c ∷ []) [] m
unfolding step
step-text c last key str m other h more = rw (not_equal h, other, more) refl

run-name :
    (name : Bytes) (str : Bytes) (m : Map Variant) (t : Bytes)
    → All IsNameChar name
    → run (name ++ b'=' ∷ t) (in_name str m) ≡ run t (in_value false (str ++ name) [] [] m)
unfolding run step
run-name [] str m t h = rw (append-nil str) refl
run-name (c ∷ cs) str m t h =
    ap (λ s. run (cs ++ b'=' ∷ t) s) (step-name c (is_nil (cs ++ b'=' ∷ t)) str m h.0)
    ∙ (run-name cs (str ++ c ∷ []) m t h.1 ∙ rw (append_assoc str (c ∷ []) cs) refl)

is_nil-append : (s : Bytes) (c : ℕ) (t : Bytes) → is_nil (s ++ c ∷ t) ≡ false
is_nil-append [] c t = refl
is_nil-append (d ∷ s) c t = refl

run-text :
    (text key str : Bytes) (m : Map Variant) (t : Bytes)
    → All IsTextChar text
    → run (escaped text ++ b'"' ∷ t) (in_value true key str [] m)
      ≡ run t (in_value false key (str ++ text) (str ++ text) m)
unfolding run step escaped
run-text [] key str m t h = rw (append-nil str) refl
run-text (c ∷ cs) key str m t h = elim (Bool-cases (c == b'"')) [
  | inl quote ↦ rw quote (
      run-text cs key (str ++ b'"' ∷ []) m t h.1
      ∙ rw (append_assoc str (b'"' ∷ []) cs, (==_iff c b'"').0 quote) refl)
  | inr other ↦ rw other (
      ap (λ s. run (escaped cs ++ b'"' ∷ t) s)
        (step-text c _ key str m other h.0 (is_nil-append (escaped cs) b'"' t))
      ∙ (run-text cs key (str ++ c ∷ []) m t h.1 ∙ rw (append_assoc str (c ∷ []) cs) refl))
]

run-item :
    (e : Bytes × Bytes) (m : Map Variant) (t : Bytes)
    → All IsNameChar e.0
    → All IsTextChar e.1
    → run (e.0 ++ b'=' ∷ b'"' ∷ (escaped e.1 ++ b'"' ∷ t)) (in_name [] m)
      ≡ run t (in_value false e.0 e.1 e.1 m)
unfolding run step
run-item e m t name text =
    run-name e.0 [] m (b'"' ∷ (escaped e.1 ++ b'"' ∷ t)) name ∙ run-text e.1 e.0 [] m t text

-- A member that comes back: a name without blanks and equals signs, a text without backslashes.
abbrev pub IsItem : Bytes × Bytes → Type 0
IsItem e = (0 < length e.0) × All IsNameChar e.0 × All IsTextChar e.1

-- The keys of `m` stand in front of that of each item.
abbrev pub AllBefore : Map Variant → List (Bytes × Bytes) → Type 0
AllBefore m kvs = All (λ e. All (λ d. bytes_lt d.0 e.0 ≡ true) m) kvs

All-snoc : {A : Type 0} (P : A → Type 0) (m : List A) (a : A) → All P m → P a → All P (m ++ a ∷ [])
All-snoc P [] a h k = (k, tt)
All-snoc P (x ∷ m) a h k = (h.0, All-snoc P m a h.1 k)

AllBefore-snoc :
    (m : Map Variant) (e : Bytes × Variant) (kvs : List (Bytes × Bytes))
    → AllBefore m kvs
    → All (λ d. bytes_lt e.0 d.0 ≡ true) kvs
    → AllBefore (m ++ e ∷ []) kvs
AllBefore-snoc m e [] h k = tt
AllBefore-snoc m e (d ∷ kvs) h k = (All-snoc _ m e h.0 k.0, AllBefore-snoc m e kvs h.1 k.1)

pub name-solid : (name : Bytes) → All IsNameChar name → All (λ c. is_blank c ≡ false) name
name-solid [] h = tt
name-solid (c ∷ cs) h = (h.0.0, name-solid cs h.1)

add_member-last :
    (e : Bytes × Bytes) (m : Map Variant)
    → IsItem e
    → All (λ d. bytes_lt d.0 e.0 ≡ true) m
    → add_member e.0 e.1 m ≡ m ++ text_member e ∷ []
add_member-last e m item h =
    rw (trim-solid e.0 (name-solid e.0 item.1)) (insert_last e.0 (new_string e.1) m h)

is_nil-pos : (s : Bytes) → 0 < length s → is_nil s ≡ false
is_nil-pos [] h = absurd (omega arith)
is_nil-pos (c ∷ s) h = refl

-- The loop inserts the members that the text lists behind those that are there.
pub finish-run :
    (kvs : List (Bytes × Bytes)) (m : Map Variant)
    → All IsItem kvs
    → Ascending kvs
    → AllBefore m kvs
    → finish (run (items kvs) (in_name [] m)) ≡ m ++ map text_member kvs
unfolding run step finish items Ascending
finish-run [] m h asc b = sym (append-nil m)
finish-run (e ∷ []) m h asc b =
    rw (run-item e m [] h.0.1 h.0.2) (rw (is_nil-pos e.0 h.0.0) (add_member-last e m h.0 b.0))
finish-run (e ∷ d ∷ kvs) m h asc b =
    ap finish (run-item e m (b',' ∷ items (d ∷ kvs)) h.0.1 h.0.2)
    ∙ (ap (λ m'. finish (run (items (d ∷ kvs)) (in_name [] m'))) (add_member-last e m h.0 b.0)
        ∙ (finish-run (d ∷ kvs) (m ++ text_member e ∷ []) h.1 asc.1
              (AllBefore-snoc m (text_member e) (d ∷ kvs) b.1 asc.0)
            ∙ append_assoc m (text_member e ∷ []) (map text_member (d ∷ kvs))))
