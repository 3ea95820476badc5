-- ===== src/FilePath/Joined.antt =====
-- The text of a path, and what the loop of `setPath` makes of it.
use libff.Prelude.{
  ℕ, ◌≡◌, refl, sym, ap, ◌∙◌, ◌≢◌, Bool, true, false, not, ◌||◌, List, [], ◌∷◌, ◌++◌, append-nil,
  append_assoc, arith, ◌==◌, if◌then◌else◌, length, All, Bytes,
}
use libff.Strings.{bytes_eq}
use libff.FilePath.Normal.{IsPlain, IsName}
use libff.FilePath.{is_separater, end_node, path_loop, get_path_loop, is_root, path_separater}

-- The names with a separator in front of each, and between each two
abbrev pub joined : List Bytes → Bytes
joined [] = []
joined (n ∷ names) = b'/' ∷ (n ++ joined names)

abbrev pub join : List Bytes → Bytes
join [] = []
join (n ∷ names) = n ++ joined names

pub has_plain : Bytes → Bool
has_plain [] = false
has_plain (c ∷ s) = not (is_separater c) || has_plain s

has_plain-append : (s t : Bytes) → has_plain (s ++ t) ≡ (has_plain s || has_plain t)
unfolding has_plain
has_plain-append [] t = refl
has_plain-append (c ∷ s) t = ground (arith, has_plain-append s t)

pub name-has_plain : (n : Bytes) → IsName n → has_plain n ≡ true
unfolding has_plain
name-has_plain [] i = absurd (i.0 refl)
name-has_plain (c ∷ n) i = rw i.1.0 refl

has_plain-is_root : (s : Bytes) → has_plain s ≡ true → is_root s ≡ false
unfolding has_plain bytes_eq
has_plain-is_root [] h = cc
has_plain-is_root (c ∷ []) h = ground arith
has_plain-is_root (c ∷ d ∷ []) h = ground arith
has_plain-is_root (c ∷ d ∷ e ∷ s) h = ground arith

has_plain-length : (s : Bytes) → has_plain s ≡ true → (length s == 0) ≡ false
unfolding has_plain
has_plain-length [] h = cc
has_plain-length (c ∷ s) h = ground arith

pub plain_path :
    (path : Bytes) (names : List Bytes)
    → has_plain path ≡ true
    → All IsName names
    → get_path_loop path names ≡ path ++ joined names
unfolding get_path_loop
plain_path path [] h i = sym (append-nil path)
plain_path path (n ∷ names) h i =
    rw (has_plain-length path h, has_plain-is_root path h)
      (plain_path (path ++ (path_separater ++ n)) names
          (rw (has_plain-append path (path_separater ++ n), h) refl) i.1
        ∙ append_assoc path (path_separater ++ n) (joined names))

pub root_path :
    (r : Bytes) (names : List Bytes)
    → is_root r ≡ true
    → (length r == 0) ≡ false
    → All IsName names
    → get_path_loop r names ≡ r ++ join names
unfolding get_path_loop
root_path r [] h f i = sym (append-nil r)
root_path r (n ∷ names) h f i =
    rw (f, h)
      (plain_path (r ++ n) names (rw (has_plain-append r n, name-has_plain n i.0) (ground arith))
          i.1
        ∙ append_assoc r n (joined names))

pub path_loop-step :
    (path : List Bytes) (node : Bytes) (c : ℕ) (p : Bytes)
    → path_loop path node (c ∷ p)
      ≡ path_loop
          (if is_separater c then end_node path node c else path)
          (if is_separater c then [] else node ++ c ∷ [])
          p
unfolding path_loop
path_loop-step path node c p = refl

path_loop-plain :
    (path : List Bytes) (node : Bytes) (c : ℕ) (p : Bytes)
    → is_separater c ≡ false
    → path_loop path node (c ∷ p) ≡ path_loop path (node ++ c ∷ []) p
path_loop-plain path node c p h = path_loop-step path node c p ∙ rw h refl

plain_run :
    (path : List Bytes) (node n rest : Bytes)
    → All IsPlain n
    → path_loop path node (n ++ rest) ≡ path_loop path (node ++ n) rest
plain_run path node [] rest h = ap (λ t. path_loop path t rest) (sym (append-nil node))
plain_run path node (c ∷ n) rest h =
    path_loop-plain path node c (n ++ rest) h.0
    ∙ (plain_run path (node ++ c ∷ []) n rest h.1
        ∙ ap (λ t. path_loop path t rest) (append_assoc node (c ∷ []) n))

pub full : (n : Bytes) → n ≢ [] → (length n == 0) ≡ false
full [] h = absurd (h refl)
full (c ∷ n) h = ground arith

path_loop-name :
    (path : List Bytes) (n p : Bytes)
    → IsName n
    → path_loop path n (b'/' ∷ p) ≡ path_loop (path ++ n ∷ []) [] p
path_loop-name path n p i = path_loop-step path n b'/' p ∙ rw (i.2, full n i.0) refl

pub names_loop :
    (path : List Bytes) (n : Bytes) (names : List Bytes)
    → IsName n
    → All IsName names
    → path_loop path n (joined names) ≡ path ++ n ∷ names
unfolding path_loop
names_loop path n [] i h = rw (i.2, full n i.0) refl
names_loop path n (m ∷ names) i h =
    path_loop-name path n (m ++ joined names) i
    ∙ (plain_run (path ++ n ∷ []) [] m (joined names) h.0.1
        ∙ (names_loop (path ++ n ∷ []) m names h.0 h.1 ∙ append_assoc path (n ∷ []) (m ∷ names)))

pub join_some :
    (path : List Bytes) (n : Bytes) (names : List Bytes)
    → IsName n
    → All IsName names
    → path_loop path [] (n ++ joined names) ≡ path ++ n ∷ names
join_some path n names i h = plain_run path [] n (joined names) i.1 ∙ names_loop path n names i h

pub join_loop :
    (path : List Bytes) (names : List Bytes)
    → path_loop path [] [] ≡ path
    → All IsName names
    → path_loop path [] (join names) ≡ path ++ names
join_loop path [] e h = e ∙ sym (append-nil path)
join_loop path (n ∷ names) e h = join_some path n names h.0 h.1
