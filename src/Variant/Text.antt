-- ===== src/Variant/Text.antt =====
-- The text of a STRING `Variant`.
use libff.Prelude.{
  ℕ, ◌+◌, ◌≤◌, ◌≡◌, refl, ◌≢◌, true, false, Option, none, some, [], ◌∷◌, ◌++◌, arith, ◌==◌,
  if◌then◌else◌, length, take, drop, All, length-append, length-replicate, take-length_append,
  Bytes, written, copy_in-written, copy_out-inside, Returns,
}
use libff.Variant.{Variant, set_value, set_size, strlen, copy_to_block, block, behind, repointed}
use libff.Variant.Types.{string, is_block, type_code}
use libff.Variant.Convert.{Streams, to_string}

strlen-text :
    (text rest : Bytes) → All (λ c. c ≢ 0) text → strlen (text ++ 0 ∷ rest) ≡ some (length text)
unfolding strlen
strlen-text [] rest h = refl
strlen-text (c ∷ cs) rest h = ground (arith, h.0, strlen-text cs rest h.1)

-- A STRING of `n` bytes with room for them
HasRoom : ℕ → Variant → Type 0
HasRoom n v = (v.vt ≡ string) × (v.size ≡ n) × (n ≤ length (block v))

set_size-HasRoom :
    (n : ℕ) (v : Variant)
    → v.vt ≡ string
    → v.size ≤ length (block v)
    → HasRoom n (if n == v.size then v else set_size n v)
unfolding set_size is_block HasRoom
set_size-HasRoom n v e fits = ground (arith, e, length-replicate {A = ℕ} n 0)

kept :
    (text : Bytes) (o : Option Bytes)
    → length text ≤ length (behind o)
    → take (length text) (behind (repointed o (written (behind o) 0 text))) ≡ text
kept [] none h = refl
kept (c ∷ cs) none h = absurd (omega arith)
kept text (some old) h = take-length_append text (drop (0 + length text) old)

copied_text :
    (io : Streams) (text rest : Bytes) (v : Variant)
    → HasRoom (length text) v
    → Returns (copy_to_block (text ++ rest) v.size v) (λ v'. to_string io v' ≡ text)
unfolding to_string HasRoom
copied_text io text rest v (e, n, fits) =
    rw
      (
        n,
        copy_out-inside (text ++ rest) 0 (length text) (omega (arith, length-append text rest)),
        take-length_append text rest,
        copy_in-written (block v) 0 text (omega (arith, fits)),
        e,
      )
      (kept text v.val_ptr fits)

-- `setValue` of a text that ends in a NUL, on a STRING of which the block holds the size: nothing is
-- read or written outside the memory, whatever the two lengths are, and `toString` gives the text.
pub to_string-set_value :
    (io : Streams) (text rest : Bytes) (v : Variant)
    → v.vt ≡ string
    → v.size ≤ length (block v)
    → All (λ c. c ≢ 0) text
    → Returns (set_value (text ++ 0 ∷ rest) v) (λ v'. to_string io v' ≡ text)
unfolding set_value
to_string-set_value io text rest v e fits h =
    rw (not_unknown, not_carray, is_string, strlen-text text rest h)
      (copied_text io text (0 ∷ rest) _ (set_size-HasRoom (length text) v e fits))
  where
    not_unknown : (type_code v.vt == 0) ≡ false
    not_unknown = rw e refl

    not_carray : (type_code v.vt == 14) ≡ false
    not_carray = rw e refl

    is_string : (type_code v.vt == 15) ≡ true
    is_string = rw e refl
