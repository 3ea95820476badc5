-- ===== src/HexText/RoundTrip.antt =====
-- `fromHexString` of what `toHexString` gives.
use libff.Prelude.{
  take, List, ℕ, ◌+◌, ◌^◌, ◌<◌, ◌≡◌, refl, sym, ap, ◌∙◌, inl, inr, none, some, List, [], ◌∷◌, ◌++◌,
  map, append-nil, append_assoc, arith, Option-cases, length, take, All, Bytes, IsByte, Returns,
  Returns_weaken, codes,
}
use libff.Strings.{find_from, find, is_prefix, replace_all, trim, to_lower}
use libff.Buffer.{Cell, Buffer, cells, append, clear, empty}
use libff.Buffer.Valid.{IsValid, contents, empty-IsValid, Returns-bind}
use libff.Buffer.Append.{append_lem}
use libff.HexFormat.RoundTrip.{ReadsHex}
use libff.HexText.Digits.{
  spaced, to_hex_string-short, trim-hex_loop, to_lower-spaced, lines_from-one, spaced-lines,
  parse_line-spaced,
}
use libff.HexText.{
  hex_loop, to_hex_string, lines_from, parse_line, append_bytes, append_lines, from_hex_string,
}

-- A buffer with these bytes, none of them read
abbrev pub Holds : Bytes → ℕ → Buffer → Type 0
Holds bs read_pos b = IsValid b × (contents b ≡ map some bs) × (b.read_pos ≡ read_pos)

append_bytes_lem :
    (read_hex : Bytes → ℕ) (bs : Bytes) {b : Buffer}
    → IsValid b
    → b.size + length bs + 4096 < 2 ^ 32
    → Returns
        (append_bytes read_hex b bs)
        (λ b'. IsValid b' × (contents b' ≡ contents b ++ map some bs) × (b'.read_pos ≡ b.read_pos))
unfolding append_bytes
append_bytes_lem read_hex [] {b} v bound = (v, sym (append-nil (contents b)), refl)
append_bytes_lem read_hex (c ∷ bs) {b} v bound =
    Returns-bind _ _ (append (some c ∷ []) b) (λ b'. append_bytes read_hex b' bs)
      (append_lem (some c ∷ []) v (omega arith))
      (λ b' (v', held, size, pos, cap).
        Returns_weaken _ _ (append_bytes read_hex b' bs)
          (append_bytes_lem read_hex bs v' (omega arith))
          (λ b'' (v'', held', pos'). (
            v'',
            held'
                ∙ (ap (λ t. t ++ map some bs) held
                    ∙ append_assoc (contents b) (some c ∷ []) (map some bs)),
            pos' ∙ pos,
          )))

clear-null : (b : Buffer) → b.block ≡ none → clear b ≡ b
unfolding clear
clear-null b e = ground arith

clear-owned : (b : Buffer) (block : List Cell) → b.block ≡ some block → clear b ≡ empty
unfolding clear
clear-owned b block e = ground arith

clear-IsValid :
    {b : Buffer} → IsValid b → Holds [] (clear b).read_pos (clear b) × ((clear b).size ≡ 0)
clear-IsValid {b} v = elim (Option-cases b.block) [
  | inl null ↦
      let blank : b.size ≡ 0 = omega (arith, v.owned, v.fits, ap (λ o. length (cells o)) null) in
      rw (clear-null b null) ((v, ap (λ n. take n (cells b.block)) blank, refl), blank)
  | inr (block, e) ↦ rw (clear-owned b block e) ((empty-IsValid, refl, refl), refl)
]

-- One line
append_line :
    (read_hex : Bytes → ℕ) (line bs : Bytes) {b : Buffer}
    → parse_line read_hex line ≡ some bs
    → Holds [] b.read_pos b
    → b.size ≡ 0
    → length bs + 4096 < 2 ^ 32
    → Returns (append_lines read_hex b (line ∷ [])) (Holds bs b.read_pos)
unfolding append_lines
append_line read_hex line bs {b} e (v, held, pos) size bound = rw e (
    Returns-bind _ _ (append_bytes read_hex b bs) (λ b'. append_lines read_hex b' [])
      (append_bytes_lem read_hex bs v (omega arith))
      (λ b' (v', held', pos'). (v', held' ∙ ap (λ t. t ++ map some bs) held, pos')))

parse_line-nil : (read_hex : Bytes → ℕ) → parse_line read_hex [] ≡ some []
unfolding parse_line replace_all find_from find is_prefix
parse_line-nil read_hex = refl

text-nil : lines_from [] (to_lower (trim (hex_loop (codes " ") []))) ≡ [] ∷ []
unfolding lines_from to_lower trim hex_loop
text-nil = refl

-- `fromHexString` of what `toHexString` gives for fewer than 2^31 bytes ends without a fault in any
-- valid buffer, leaves it valid, and it then holds these bytes.
pub from_hex_string-to_hex_string :
    (read_hex : Bytes → ℕ) (bs : Bytes) (b : Buffer)
    → ReadsHex read_hex
    → All IsByte bs
    → length bs < 2 ^ 31
    → IsValid b
    → Returns
        (from_hex_string read_hex b (to_hex_string (codes " ") bs))
        (λ b'. IsValid b' × (contents b' ≡ map some bs))
unfolding from_hex_string
from_hex_string-to_hex_string read_hex [] b h k bound v =
    let (held, size) = clear-IsValid v in
    rw (to_hex_string-short (codes " ") [] bound, text-nil)
      (Returns_weaken _ _ (append_lines read_hex (clear b) ([] ∷ []))
        (append_line read_hex [] [] (parse_line-nil read_hex) held size (omega (arith, bound)))
        (λ b' (v', e, pos). (v', e)))
from_hex_string-to_hex_string read_hex (c ∷ bs) b h k bound v =
    let (held, size) = clear-IsValid v in
    rw
      (
        to_hex_string-short (codes " ") (c ∷ bs) bound,
        trim-hex_loop c bs,
        to_lower-spaced c bs,
        lines_from-one [] (spaced c bs) (spaced-lines c bs),
      )
      (Returns_weaken _ _ (append_lines read_hex (clear b) (spaced c bs ∷ []))
        (append_line read_hex (spaced c bs) (c ∷ bs) (parse_line-spaced read_hex c bs h k) held size
          (omega (arith, bound)))
        (λ b' (v', e, pos). (v', e)))
