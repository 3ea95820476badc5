-- ===== src/CycleBuffer/Window.antt =====
-- The cells from a place on, around the end of the memory.
use libff.Prelude.{
  ℕ, zero, suc, ◌+◌, ◌-◌, ◌%◌, ◌≤◌, ◌<◌, ◌≡◌, refl, sym, ap, ◌∙◌, ◌≢◌, Option, none, some, List, [],
  ◌∷◌, ◌++◌, arith, length, get_elem?, get_or, set,
}
use native.Mathlib.Nat.{mod-eq_of_lt, mod-eq-sub-mod, mod-add-mod, mod-mod, mod-lt}
use native.Mathlib.Decide.{dec_lt}

-- The `n` cells from `pos` on, around the end.
abbrev pub window : {A : Type 0} → List (Option A) → ℕ → ℕ → ℕ → List (Option A)
window buf cap pos zero = []
window buf cap pos (suc n) = get_or buf (pos % cap) none ∷ window buf cap (pos + 1) n

mod_above : (x cap : ℕ) → cap ≤ x → x < cap + cap → x % cap ≡ x - cap
mod_above x c h l = mod-eq-sub-mod h ∙ mod-eq_of_lt (omega arith)

-- Two places of the window are two cells.
places-ne : (c p i n : ℕ) → p < c → i < n → n < c → (p + i) % c ≢ (p + n) % c
places-ne c p i n hp hi hn = elim (dec_lt (p + n) c) [
  | yes low ↦
      omega (arith, mod-eq_of_lt {n = p + n} low, mod-eq_of_lt {n = p + i} {m = c} (omega arith))
  | no high ↦ elim (dec_lt (p + i) c) [
    | yes low ↦
        omega (arith, mod_above (p + n) c (omega arith) (omega arith), mod-eq_of_lt {n = p + i} low)
    | no wrapped ↦ omega (
      arith,
      mod_above (p + n) c (omega arith) (omega arith),
      mod_above (p + i) c (omega arith) (omega arith),
    )
  ]
]

module _ {A : Type 0} where
  pub get_or-set :
      (xs : List (Option A)) (i : ℕ) (v : Option A) → i < length xs → get_or (set xs i v) i none ≡ v
  get_or-set [] i v h = absurd (omega arith)
  get_or-set (x ∷ xs) zero v h = refl
  get_or-set (x ∷ xs) (suc i) v h = get_or-set xs i v (omega arith)

  get_or-set_other :
      (xs : List (Option A)) (i j : ℕ) (v : Option A)
      → j ≢ i
      → get_or (set xs i v) j none ≡ get_or xs j none
  get_or-set_other [] i j v h = refl
  get_or-set_other (x ∷ xs) zero zero v h = absurd (h refl)
  get_or-set_other (x ∷ xs) zero (suc j) v h = refl
  get_or-set_other (x ∷ xs) (suc i) zero v h = refl
  get_or-set_other (x ∷ xs) (suc i) (suc j) v h = get_or-set_other xs i j v (λ e. h (ap suc e))

  pub get_elem?-get_or :
      (xs : List (Option A)) (i : ℕ) → i < length xs → get_elem? xs i ≡ some (get_or xs i none)
  get_elem?-get_or [] i h = absurd (omega arith)
  get_elem?-get_or (x ∷ xs) zero h = refl
  get_elem?-get_or (x ∷ xs) (suc i) h = get_elem?-get_or xs i (omega arith)

  -- A write outside the window leaves it.
  pub window-set :
      (buf : List (Option A)) (c p n k : ℕ) (v : Option A)
      → ((i : ℕ) → i < n → (p + i) % c ≢ k)
      → window (set buf k v) c p n ≡ window buf c p n
  window-set buf c p zero k v h = refl
  window-set buf c p (suc n) k v h = cc (
    get_or-set_other buf k (p % c) v (λ e. h 0 (omega arith) (ap (λ q. q % c) (omega arith) ∙ e)),
    window-set buf c (p + 1) n k v
        (λ i l e. h (suc i) (omega arith) (ap (λ q. q % c) (omega arith) ∙ e)),
  )

  pub window_split :
      (buf : List (Option A)) (c p n m : ℕ)
      → window buf c p (n + m) ≡ window buf c p n ++ window buf c (p + n) m
  window_split buf c p zero m = ground arith
  window_split buf c p (suc n) m =
      rw (regroup, window_split buf c (p + 1) n m)
        (ap (λ q. get_or buf (p % c) none ∷ (window buf c (p + 1) n ++ window buf c q m))
          (omega arith))
    where
      regroup : suc n + m ≡ suc (n + m)
      regroup = omega arith

  pub window-mod : (buf : List (Option A)) (c p n : ℕ) → window buf c (p % c) n ≡ window buf c p n
  window-mod buf c p zero = refl
  window-mod buf c p (suc n) = cc (
    mod-mod p c,
    sym (window-mod buf c (p % c + 1) n),
    mod-add-mod p c 1,
    window-mod buf c (p + 1) n,
  )

pub length-window : {A : Type 0} (buf : List (Option A)) (c p n : ℕ) → length (window buf c p n) ≡ n
length-window buf c p zero = refl
length-window buf c p (suc n) = ap suc (length-window buf c (p + 1) n)

-- A write at the tail adds to the window.
pub window-push :
    {A : Type 0} (buf : List (Option A)) (c p n : ℕ) (v : Option A)
    → p < c
    → n < c
    → c ≤ length buf
    → window (set buf ((p + n) % c) v) c p (n + 1) ≡ window buf c p n ++ v ∷ []
window-push buf c p n v hp hn owned =
    rw
      (
        window_split (set buf ((p + n) % c) v) c p n 1,
        window-set buf c p n ((p + n) % c) v (λ i l. places-ne c p i n hp l hn),
        get_or-set buf ((p + n) % c) v (omega (arith, mod-lt (p + n) {m = c} (omega arith))),
      )
      refl
