-- ===== src/FilePath/Normal.antt =====
-- The paths that `setPath` makes.
use libff.Prelude.{
  ℕ, suc, ◌≡◌, refl, ◌≢◌, ◌⊎◌, inl, inr, true, false, not, List, [], ◌∷◌, ◌++◌, arith, ◌==◌,
  if◌then◌else◌, Bool-cases, length, drop, All, Bytes,
}
use mathlib.Core.Path.{subst}
use libff.Strings.{trim, starts_with, bytes_eq}
use libff.Strings.Trim.{trim-IsTight, trim_lem}
use libff.FilePath.{
  is_separater, end_node, path_loop, set_path, is_root, machine_root, path_separater,
}

abbrev pub IsPlain : ℕ → Type 0
IsPlain c = is_separater c ≡ false

-- A name: not empty, without separators, and without blanks at its ends
abbrev pub IsName : Bytes → Type 0
IsName n = (n ≢ []) × All IsPlain n × (trim n ≡ n)

-- Names, of which the first may be a root instead
abbrev pub IsPath : List Bytes → Type 0
IsPath [] = Unit {0}
IsPath (n ∷ names) = (IsName n ⊎ (is_root n ≡ true)) × All IsName names

trim-trim : (s : Bytes) → trim (trim s) ≡ trim s
trim-trim s = let (parts, l, r) = trim_lem s in trim-IsTight (trim s) l r

All-append : (P : ℕ → Type 0) (xs ys : Bytes) → All P xs → All P ys → All P (xs ++ ys)
All-append P [] ys h k = k
All-append P (x ∷ xs) ys h k = (h.0, All-append P xs ys h.1 k)

All-append_left : (P : ℕ → Type 0) (xs ys : Bytes) → All P (xs ++ ys) → All P xs
All-append_left P [] ys h = tt
All-append_left P (x ∷ xs) ys h = (h.0, All-append_left P xs ys h.1)

All-append_right : (P : ℕ → Type 0) (xs ys : Bytes) → All P (xs ++ ys) → All P ys
All-append_right P [] ys h = h
All-append_right P (x ∷ xs) ys h = All-append_right P xs ys h.1

ne_nil : (s : Bytes) → (length s == 0) ≡ false → s ≢ []
ne_nil [] h e = cc
ne_nil (c ∷ s) h e = cc

trim-IsName : (s : Bytes) → All IsPlain s → (length (trim s) == 0) ≡ false → IsName (trim s)
trim-IsName s h full =
    let ((l, r, e, hl, hr), tl, tr) = trim_lem s in
    (
      ne_nil (trim s) full,
      All-append_left IsPlain (trim s) r
          (All-append_right IsPlain l (trim s ++ r) (subst (All IsPlain) e h)),
      trim-trim s,
    )

names_snoc : (ns : List Bytes) (n : Bytes) → All IsName ns → IsName n → All IsName (ns ++ n ∷ [])
names_snoc [] n h i = (i, tt)
names_snoc (m ∷ ns) n h i = (h.0, names_snoc ns n h.1 i)

IsPath-snoc : (ns : List Bytes) (n : Bytes) → IsPath ns → IsName n → IsPath (ns ++ n ∷ [])
IsPath-snoc [] n h i = (inl i, tt)
IsPath-snoc (m ∷ ns) n h i = (h.0, names_snoc ns n h.1 i)

separater-is_root : (c : ℕ) → is_separater c ≡ true → is_root (c ∷ []) ≡ true
unfolding bytes_eq
separater-is_root c h = ground arith

-- A separator, or the end of the text, closes a name.
closed-IsPath :
    (path : List Bytes) (node root : Bytes)
    → IsPath path
    → All IsPlain node
    → is_root root ≡ true
    → IsPath (
        if not (length (trim node) == 0)
        then path ++ trim node ∷ []
        else if length path == 0
        then path ++ root ∷ []
        else path)
closed-IsPath path node root p h r = elim (Bool-cases (length (trim node) == 0)) [
  | inl blank ↦ rw blank (rooted path p)
  | inr full ↦ rw full (IsPath-snoc path (trim node) p (trim-IsName node h full))
]
  where
    rooted :
        (path : List Bytes)
        → IsPath path
        → IsPath (if length path == 0 then path ++ root ∷ [] else path)
    rooted [] p = (inr r, tt)
    rooted (n ∷ ns) p =
        let some_names : (suc (length ns) == 0) ≡ false = ground arith in rw some_names p

path_loop-IsPath :
    (path : List Bytes) (node p : Bytes)
    → IsPath path
    → All IsPlain node
    → IsPath (path_loop path node p)
unfolding path_loop bytes_eq
path_loop-IsPath path node [] i h = closed-IsPath path node path_separater i h refl
path_loop-IsPath path node (c ∷ p) i h = elim (Bool-cases (is_separater c)) [
  | inl sep ↦ rw sep (
      path_loop-IsPath (end_node path node c) [] p
        (closed-IsPath path node (c ∷ []) i h (separater-is_root c sep)) tt)
  | inr plain ↦
      rw plain (
        path_loop-IsPath path (node ++ c ∷ []) p i (All-append IsPlain node (c ∷ []) h (plain, tt)))
]

pub set_path-IsPath : (old : List Bytes) (p : Bytes) → IsPath old → IsPath (set_path old p)
unfolding set_path bytes_eq
set_path-IsPath old p i = elim (Bool-cases (length (trim p) == 0)) [
  | inl blank ↦ rw blank i
  | inr full ↦ elim (Bool-cases (starts_with (trim p) machine_root false)) [
    | inl machine ↦
        rw (full, machine)
          (path_loop-IsPath (machine_root ∷ []) [] (drop 2 (trim p)) (inr refl, tt) tt)
    | inr other ↦ rw (full, other) (path_loop-IsPath [] [] (trim p) tt tt)
  ]
]
