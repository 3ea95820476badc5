-- ===== src/FilePath/Children.antt =====
-- `File(parent, child)`.
use libff.Prelude.{
  ◌≡◌, refl, sym, ap, ◌∙◌, ◌≢◌, ◌⊎◌, inl, inr, true, false, List, [], ◌∷◌, ◌++◌, append-nil,
  append_assoc, arith, ◌==◌, length, take, All, length-append, Bytes,
}
use libff.Strings.{bytes_eq}
use libff.FilePath.Normal.{IsName, IsPath}
use libff.FilePath.Joined.{joined, join, plain_path, root_path, name-has_plain, full}
use libff.FilePath.RoundTrip.{restored_name, set_path-get_path}
use libff.FilePath.{
  set_path, file_of, file_in, child_text, get_path, get_path_loop, is_root, path_separater,
}

joined-snoc : (names : List Bytes) (c : Bytes) → joined (names ++ c ∷ []) ≡ joined names ++ b'/' ∷ c
joined-snoc [] c = ap (λ t. b'/' ∷ t) (append-nil c)
joined-snoc (n ∷ names) c =
    ap (λ t. b'/' ∷ t)
      (ap (λ t. n ++ t) (joined-snoc names c) ∙ sym (append_assoc n (joined names) (b'/' ∷ c)))

names-snoc :
    (names : List Bytes) (c : Bytes) → All IsName names → IsName c → All IsName (names ++ c ∷ [])
names-snoc [] c h i = (i, tt)
names-snoc (n ∷ names) c h i = (h.0, names-snoc names c h.1 i)

-- `File(child)` of a single name
child_lem : (c : Bytes) → IsName c → get_path (file_of c) ≡ c
unfolding file_of get_path get_path_loop
child_lem c i = ap get_path (ap (set_path []) (sym (append-nil c)) ∙ restored_name [] c [] i tt)

not_slash : (c : Bytes) → IsName c → bytes_eq (take 1 c) path_separater ≡ false
unfolding bytes_eq
not_slash [] i = absurd (i.0 refl)
not_slash (c ∷ cs) i = ground (arith, i.1.0)

child_text_lem : (t c : Bytes) → (length t == 0) ≡ false → IsName c → child_text t c ≡ t ++ b'/' ∷ c
child_text_lem t c h i = rw (h, not_slash c i, full c i.0) (append_assoc t path_separater c)

get_path-root :
    (r : Bytes) (names : List Bytes)
    → is_root r ≡ true
    → (length r == 0) ≡ false
    → All IsName names
    → get_path (r ∷ names) ≡ r ++ join names
unfolding get_path get_path_loop
get_path-root r names root f h = root_path r names root f h

get_path-name :
    (n : Bytes) (names : List Bytes)
    → IsName n
    → All IsName names
    → get_path (n ∷ names) ≡ n ++ joined names
unfolding get_path get_path_loop
get_path-name n names i h = plain_path n names (name-has_plain n i) h

root_full : (r : Bytes) → is_root r ≡ true → (length r == 0) ≡ false
unfolding bytes_eq
root_full [] h = cc
root_full (c ∷ r) h = ground arith

full-append : (n s : Bytes) → (length n == 0) ≡ false → (length (n ++ s) == 0) ≡ false
full-append n s h = ground (arith, length-append n s)

path_text :
    (n : Bytes) (names : List Bytes)
    → IsPath (n ∷ names)
    → (length (get_path (n ∷ names)) == 0) ≡ false
path_text n names (inl i, h) = rw (get_path-name n names i h) (full-append n _ (full n i.0))
path_text n names (inr root, h) =
    rw (get_path-root n names root (root_full n root) h) (full-append n _ (root_full n root))

snoc_name :
    (n : Bytes) (names : List Bytes) (c : Bytes)
    → IsName n
    → All IsName names
    → IsName c
    → get_path (n ∷ names) ++ b'/' ∷ c ≡ get_path (n ∷ (names ++ c ∷ []))
snoc_name n names c i h ic =
    rw
      (
        get_path-name n names i h,
        get_path-name n (names ++ c ∷ []) i (names-snoc names c h ic),
        joined-snoc names c,
      )
      (append_assoc n (joined names) (b'/' ∷ c))

-- One more name at the end of the text
snoc_text :
    (n : Bytes) (names : List Bytes) (c : Bytes)
    → IsPath (n ∷ names)
    → IsName n ⊎ (names ≢ [])
    → IsName c
    → get_path (n ∷ names) ++ b'/' ∷ c ≡ get_path (n ∷ (names ++ c ∷ []))
snoc_text n names c (inl i, h) alone ic = snoc_name n names c i h ic
snoc_text n [] c (inr root, h) (inl i) ic = snoc_name n [] c i h ic
snoc_text n [] c (inr root, h) (inr more) ic = absurd (more refl)
snoc_text n (m ∷ names) c (inr root, h) alone ic =
    rw
      (
        get_path-root n (m ∷ names) root (root_full n root) h,
        get_path-root n (m ∷ (names ++ c ∷ [])) root (root_full n root)
            (h.0, names-snoc names c h.1 ic),
        joined-snoc names c,
      )
      (append_assoc n (m ++ joined names) (b'/' ∷ c)
        ∙ ap (λ t. n ++ t) (append_assoc m (joined names) (b'/' ∷ c)))

-- A File made of the path of another one and a name has the names of that one and the name behind them.
-- The condition is that the path is not a root alone.
pub file_in_lem :
    (n : Bytes) (names : List Bytes) (c : Bytes)
    → IsPath (n ∷ names)
    → IsName n ⊎ (names ≢ [])
    → IsName c
    → file_in (get_path (n ∷ names)) c ≡ (n ∷ names) ++ c ∷ []
unfolding file_in file_of
file_in_lem n names c i alone ic =
    ap (λ f. set_path [] (child_text (get_path f) (get_path (file_of c))))
      (set_path-get_path [] n names i)
    ∙ (ap (λ t. set_path [] (child_text (get_path (n ∷ names)) t)) (child_lem c ic)
        ∙ (ap (set_path []) (
              child_text_lem (get_path (n ∷ names)) c (path_text n names i) ic
              ∙ snoc_text n names c i alone ic)
            ∙ set_path-get_path [] n (names ++ c ∷ []) (i.0, names-snoc names c i.1 ic)))
