-- ===== src/Maps/Laws.antt =====
-- The order of the keys, and what each operation leaves at a key.
use libff.Prelude.{
  ◌≡◌, refl, ap, ◌≢◌, inl, inr, true, false, none, some, [], ◌∷◌, ◌++◌, arith, Bool-cases, All,
  Bytes,
}
use mathlib.Core.Path.{subst}
use libff.Maps.{erase, Ascending, bytes_lt, Map, lookup, insert, assign}

pub bytes_lt_irrefl : (a : Bytes) → bytes_lt a a ≡ false
unfolding bytes_lt
bytes_lt_irrefl [] = refl
bytes_lt_irrefl (x ∷ a) = ground (arith, bytes_lt_irrefl a)

pub bytes_lt_trans :
    (a b c : Bytes) → bytes_lt a b ≡ true → bytes_lt b c ≡ true → bytes_lt a c ≡ true
unfolding bytes_lt
bytes_lt_trans [] [] c h k = absurd (ground arith)
bytes_lt_trans [] (y ∷ b) [] h k = absurd (ground arith)
bytes_lt_trans [] (y ∷ b) (z ∷ c) h k = refl
bytes_lt_trans (x ∷ a) [] c h k = absurd (ground arith)
bytes_lt_trans (x ∷ a) (y ∷ b) [] h k = absurd (ground arith)
bytes_lt_trans (x ∷ a) (y ∷ b) (z ∷ c) h k = ground (arith, bytes_lt_trans a b c)

pub bytes_lt_asym : (a b : Bytes) → bytes_lt a b ≡ true → bytes_lt b a ≡ false
unfolding bytes_lt
bytes_lt_asym [] [] h = refl
bytes_lt_asym [] (y ∷ b) h = refl
bytes_lt_asym (x ∷ a) [] h = absurd (ground arith)
bytes_lt_asym (x ∷ a) (y ∷ b) h = ground (arith, bytes_lt_asym a b)

pub bytes_lt_total : (a b : Bytes) → bytes_lt a b ≡ false → bytes_lt b a ≡ false → a ≡ b
unfolding bytes_lt
bytes_lt_total [] [] h k = refl
bytes_lt_total [] (y ∷ b) h k = absurd (ground arith)
bytes_lt_total (x ∷ a) [] h k = absurd (ground arith)
bytes_lt_total (x ∷ a) (y ∷ b) h k =
    cc (ap (λ n. n) e, bytes_lt_total a b (ground arith) (ground arith))
  where
    e : x ≡ y
    e = ground arith

module _ {ℓ} {V : Type ℓ} (k : Bytes) (v : V) where
  pub lookup-assign : (m : Map V) → lookup k (assign k v m) ≡ some v
  unfolding lookup assign
  lookup-assign [] = rw (bytes_lt_irrefl k) refl
  lookup-assign (e ∷ m) = ground (arith, lookup-assign m, bytes_lt_irrefl k)

  pub lookup-assign_other :
      (k' : Bytes) (m : Map V) → k' ≢ k → lookup k' (assign k v m) ≡ lookup k' m
  unfolding lookup assign
  lookup-assign_other k' [] h = ground (arith, bytes_lt_total k k')
  lookup-assign_other k' (e ∷ m) h = elim (Bool-cases (bytes_lt e.0 k)) [
    | inl low ↦ rw low (ground (arith, lookup-assign_other k' m h))
    | inr above ↦ elim (Bool-cases (bytes_lt k e.0)) [
      | inl high ↦
          rw (above, high)
            (ground (arith, bytes_lt_total k k', bytes_lt_trans k' k e.0, bytes_lt_asym k' e.0))
      | inr below ↦
          let same : e.0 ≡ k = bytes_lt_total e.0 k above below in
          rw (above, below, same) (ground (arith, bytes_lt_total k k'))
    ]
  ]

  -- A key behind all that are there is inserted at the end.
  pub insert_last :
      (m : Map V) → All (λ e. bytes_lt e.0 k ≡ true) m → insert k v m ≡ m ++ (k, v) ∷ []
  unfolding insert
  insert_last [] h = refl
  insert_last (e ∷ m) h = rw (h.0, insert_last m h.1) refl

module _ {ℓ} {V : Type ℓ} (k : Bytes) where
  -- A key that is not there is erased without effect.
  pub erase-none : (m : Map V) → lookup k m ≡ none → erase k m ≡ m
  unfolding lookup erase
  erase-none [] h = refl
  erase-none (e ∷ m) h = ground (arith, erase-none m)

  -- The first entry
  pub erase-first : (e : Bytes × V) (m : Map V) → e.0 ≡ k → erase k (e ∷ m) ≡ m
  unfolding erase
  erase-first e m h = rw (h, bytes_lt_irrefl k) refl

  lookup-above : (m : Map V) → All (λ d. bytes_lt k d.0 ≡ true) m → lookup k m ≡ none
  unfolding lookup
  lookup-above [] h = refl
  lookup-above (e ∷ m) h = rw (bytes_lt_asym k e.0 h.0, h.0) refl

  -- After `erase` the key is not there.
  pub lookup-erase : (m : Map V) → Ascending m → lookup k (erase k m) ≡ none
  unfolding lookup erase Ascending
  lookup-erase [] h = refl
  lookup-erase (e ∷ m) h = elim (Bool-cases (bytes_lt e.0 k)) [
    | inl low ↦ rw low (rw low (lookup-erase m h.1))
    | inr above ↦ elim (Bool-cases (bytes_lt k e.0)) [
      | inl high ↦ rw (above, high) (rw (above, high) refl)
      | inr below ↦
          rw (above, below)
            (lookup-above m (
              subst (λ x. All (λ d. bytes_lt x d.0 ≡ true) m) (bytes_lt_total e.0 k above below)
                h.0))
    ]
  ]

  All-erase : (P : Bytes × V → Type 0) (m : Map V) → All P m → All P (erase k m)
  unfolding erase
  All-erase P [] h = tt
  All-erase P (e ∷ m) h = ground (arith, All-erase P m, h)

  pub erase-Ascending : (m : Map V) → Ascending m → Ascending (erase k m)
  unfolding erase Ascending
  erase-Ascending [] h = tt
  erase-Ascending (e ∷ m) h = elim (Bool-cases (bytes_lt e.0 k)) [
    | inl low ↦ rw low (All-erase (λ d. bytes_lt e.0 d.0 ≡ true) m h.0, erase-Ascending m h.1)
    | inr above ↦ elim (Bool-cases (bytes_lt k e.0)) [
      | inl high ↦ rw (above, high) h
      | inr below ↦ rw (above, below) h.1
    ]
  ]

module _ {ℓ} {V : Type ℓ} (k : Bytes) (v : V) where
  All-assign :
      (P : Bytes → Type 0) (m : Map V) → P k → All (λ d. P d.0) m → All (λ d. P d.0) (assign k v m)
  unfolding assign
  All-assign P [] p h = (p, tt)
  All-assign P (e ∷ m) p h = elim (Bool-cases (bytes_lt e.0 k)) [
    | inl low ↦ rw low (h.0, All-assign P m p h.1)
    | inr above ↦ elim (Bool-cases (bytes_lt k e.0)) [
      | inl high ↦ rw (above, high) (p, h)
      | inr below ↦ rw (above, below) (p, h.1)
    ]
  ]

  lower_keys :
      (a : Bytes) (m : Map V)
      → bytes_lt k a ≡ true
      → All (λ d. bytes_lt a d.0 ≡ true) m
      → All (λ d. bytes_lt k d.0 ≡ true) m
  lower_keys a [] l h = tt
  lower_keys a (e ∷ m) l h = (bytes_lt_trans k a e.0 l h.0, lower_keys a m l h.1)

  pub assign-Ascending : (m : Map V) → Ascending m → Ascending (assign k v m)
  unfolding assign Ascending
  assign-Ascending [] h = (tt, tt)
  assign-Ascending (e ∷ m) h = elim (Bool-cases (bytes_lt e.0 k)) [
    | inl low ↦ rw low (All-assign (λ x. bytes_lt e.0 x ≡ true) m low h.0, assign-Ascending m h.1)
    | inr above ↦ elim (Bool-cases (bytes_lt k e.0)) [
      | inl high ↦ rw (above, high) ((high, lower_keys e.0 m high h.0), h)
      | inr below ↦
          rw (above, below)
            (
              subst (λ x. All (λ d. bytes_lt x d.0 ≡ true) m) (bytes_lt_total e.0 k above below)
                  h.0,
              h.1,
            )
    ]
  ]
