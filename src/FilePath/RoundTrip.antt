-- ===== src/FilePath/RoundTrip.antt =====
-- `setPath` reads what `getPath` prints.
use libff.Prelude.{
  ◌≢◌, ℕ, ◌≡◌, refl, ap, ◌∙◌, ◌≢◌, inl, inr, Bool, true, false, List, [], ◌∷◌, ◌++◌, append-nil,
  arith, ◌==◌, if◌then◌else◌, Bool-cases, length, drop, All, Bytes, codes,
}
use mathlib.Core.Path.{subst}
use libff.Strings.{trim, trim_left, starts_with, bytes_eq, is_blank}
use libff.Strings.Search.{bytes_eq_iff}
use libff.Strings.Trim.{trim-IsTight, IsTightLeft, IsTightRight, trim_lem}
use libff.FilePath.Normal.{IsName, IsPath, set_path-IsPath}
use libff.FilePath.Joined.{
  joined, join, name-has_plain, plain_path, root_path, join_loop, join_some, full, path_loop-step,
}
use libff.FilePath.{
  is_separater, path_loop, set_path, file_of, get_path, get_path_loop, is_root, machine_root,
}

tight_left : (n : Bytes) → trim n ≡ n → IsTightLeft n
tight_left n e = subst IsTightLeft e (trim_lem n).1

tight_right : (n : Bytes) → trim n ≡ n → IsTightRight n
tight_right n e = subst IsTightRight e (trim_lem n).2

IsTightLeft-append : (n s : Bytes) → n ≢ [] → IsTightLeft n → IsTightLeft (n ++ s)
IsTightLeft-append [] s h t = absurd (h refl)
IsTightLeft-append (c ∷ n) s h t = t

IsTightRight-append :
    (n : Bytes) (c : ℕ) (s : Bytes) → IsTightRight (c ∷ s) → IsTightRight (n ++ c ∷ s)
IsTightRight-append [] c s t = t
IsTightRight-append (d ∷ []) c s t = t
IsTightRight-append (d ∷ e ∷ n) c s t = IsTightRight-append (e ∷ n) c s t

name_joined-IsTightRight :
    (n : Bytes) (names : List Bytes)
    → IsName n
    → All IsName names
    → IsTightRight (n ++ joined names)
name_joined-IsTightRight n [] i h = rw (append-nil n) (tight_right n i.2)
name_joined-IsTightRight n (m ∷ names) i h =
    IsTightRight-append n b'/' (m ++ joined names)
      (step m (joined names) h.0.0 (name_joined-IsTightRight m names h.0 h.1))
  where
    step : (m s : Bytes) → m ≢ [] → IsTightRight (m ++ s) → IsTightRight (b'/' ∷ (m ++ s))
    step [] s h t = absurd (h refl)
    step (c ∷ m) s h t = t

-- The prefix that `setPath` looks for
starts-other :
    (c : ℕ) (s : Bytes) → (c == b'\\') ≡ false → starts_with (c ∷ s) machine_root false ≡ false
unfolding starts_with bytes_eq
starts-other c s h = ground arith

starts-one :
    (d : ℕ) (s : Bytes)
    → (d == b'\\') ≡ false
    → starts_with (b'\\' ∷ d ∷ s) machine_root false ≡ false
unfolding starts_with bytes_eq
starts-one d s h = ground arith

starts-machine : (s : Bytes) → starts_with (b'\\' ∷ b'\\' ∷ s) machine_root false ≡ true
unfolding starts_with bytes_eq
starts-machine s = ground arith

-- `setPath` of a text without blanks at its ends
set_path-tight :
    (old : List Bytes) (c : ℕ) (s : Bytes) (machine : Bool)
    → IsTightLeft (c ∷ s)
    → IsTightRight (c ∷ s)
    → starts_with (c ∷ s) machine_root false ≡ machine
    → set_path old (c ∷ s) ≡ (
        if machine
        then path_loop (machine_root ∷ []) [] (drop 2 (c ∷ s))
        else path_loop [] [] (c ∷ s))
unfolding set_path
set_path-tight old c s machine l r h = rw (trim-IsTight (c ∷ s) l r, full (c ∷ s) (λ e. cc), h) refl

-- A path whose first name is no root
pub restored_name :
    (old : List Bytes) (n : Bytes) (names : List Bytes)
    → IsName n
    → All IsName names
    → set_path old (n ++ joined names) ≡ n ∷ names
restored_name old [] names i h = absurd (i.0 refl)
restored_name old (c ∷ n) names i h =
    set_path-tight old c (n ++ joined names) false
      (IsTightLeft-append (c ∷ n) (joined names) i.0 (tight_left (c ∷ n) i.2))
      (name_joined-IsTightRight (c ∷ n) names i h)
      (starts-other c (n ++ joined names) (ground (arith, i.1.0)))
    ∙ join_some [] (c ∷ n) names i h

join-IsTightRight :
    (c : ℕ) (names : List Bytes)
    → is_blank c ≡ false
    → All IsName names
    → IsTightRight (c ∷ join names)
join-IsTightRight c [] b h = b
join-IsTightRight c ([] ∷ names) b h = absurd (h.0.0 refl)
join-IsTightRight c ((d ∷ n) ∷ names) b h = name_joined-IsTightRight (d ∷ n) names h.0 h.1

kept_root : (r : Bytes) → path_loop (r ∷ []) [] [] ≡ r ∷ []
unfolding path_loop trim trim_left
kept_root r = refl

-- A path that begins with one separater
restored_root :
    (old : List Bytes) (c : ℕ) (names : List Bytes)
    → is_separater c ≡ true
    → is_blank c ≡ false
    → starts_with (c ∷ join names) machine_root false ≡ false
    → All IsName names
    → set_path old (c ∷ join names) ≡ (c ∷ []) ∷ names
unfolding trim
restored_root old c names sep b other h =
    set_path-tight old c (join names) false b (join-IsTightRight c names b h) other
    ∙ (path_loop-step [] [] c (join names)
        ∙ rw sep (join_loop ((c ∷ []) ∷ []) names (kept_root (c ∷ [])) h))

restored_machine :
    (old : List Bytes) (names : List Bytes)
    → All IsName names
    → set_path old (machine_root ++ join names) ≡ machine_root ∷ names
unfolding is_blank
restored_machine old names h =
    set_path-tight old b'\\' (b'\\' ∷ join names) true refl (join-IsTightRight b'\\' names refl h)
      (starts-machine (join names))
    ∙ join_loop (machine_root ∷ []) names (kept_root machine_root) h

backslash-other :
    (names : List Bytes)
    → All IsName names
    → starts_with (b'\\' ∷ join names) machine_root false ≡ false
unfolding starts_with bytes_eq
backslash-other [] h = refl
backslash-other ([] ∷ names) h = absurd (h.0.0 refl)
backslash-other ((d ∷ n) ∷ names) h = starts-one d (n ++ joined names) (ground (arith, h.0.1.0))

set_path-root :
    (old : List Bytes) (r : Bytes) (names : List Bytes)
    → is_root r ≡ true
    → All IsName names
    → (set_path old (r ++ join names) ≡ r ∷ names) × ((length r == 0) ≡ false)
unfolding is_blank
set_path-root old r names root h = elim (Bool-cases (bytes_eq r (codes "/"))) [
  | inl e ↦
      rw ((bytes_eq_iff r (codes "/")).0 e)
        (restored_root old b'/' names refl refl (starts-other b'/' (join names) refl) h, refl)
  | inr other ↦ elim (Bool-cases (bytes_eq r (codes "\\"))) [
    | inl e ↦
        rw ((bytes_eq_iff r (codes "\\")).0 e)
          (restored_root old b'\\' names refl refl (backslash-other names h) h, refl)
    | inr neither ↦
        rw ((bytes_eq_iff r machine_root).0 (ground (arith, root)))
          (restored_machine old names h, refl)
  ]
]

-- A path as `setPath` makes them, not empty, comes back from its text, whatever the file's path was.
pub set_path-get_path :
    (old : List Bytes) (n : Bytes) (names : List Bytes)
    → IsPath (n ∷ names)
    → set_path old (get_path (n ∷ names)) ≡ n ∷ names
unfolding get_path get_path_loop
set_path-get_path old n names (inl i, h) =
    ap (set_path old) (plain_path n names (name-has_plain n i) h) ∙ restored_name old n names i h
set_path-get_path old n names (inr root, h) =
    let (e, f) = set_path-root old n names root h in
    ap (set_path old) (root_path n names root f h) ∙ e

-- The path that File makes of a text does not change when it is printed and read again, for any text.
pub file_of-get_path : (p : Bytes) → file_of (get_path (file_of p)) ≡ file_of p
unfolding file_of trim get_path
file_of-get_path p = again (set_path [] p) (set_path-IsPath [] p tt)
  where
    again : (path : List Bytes) → IsPath path → set_path [] (get_path path) ≡ path
    again [] i = refl
    again (n ∷ names) i = set_path-get_path [] n names i
