-- ===== src/Base64/Tests.antt =====
-- The encoder's and the decoder's theorems at concrete bytes.
use libff.Prelude.{◌>>=◌, ◌≡◌, refl, inl, inr, none, some, [], ◌∷◌, arith, All, Bytes, IsByte}
use libff.Base64.{encrypt, decrypt}
use libff.Base64.Encoding.{encrypt_overrun}
use libff.Base64.RoundTrip.{decrypt-encrypt}

abbrev five : Bytes
five = 0 ∷ 255 ∷ 17 ∷ 128 ∷ 65 ∷ []

five-IsByte : All IsByte five
five-IsByte = (omega arith, (omega arith, (omega arith, (omega arith, (omega arith, tt)))))

decrypt-encrypt_example : encrypt five >>= decrypt ≡ some (some five)
decrypt-encrypt_example = decrypt-encrypt five five-IsByte (omega arith) (omega arith) (omega arith)

encrypt_overrun_example : encrypt (7 ∷ 8 ∷ []) ≡ none
encrypt_overrun_example =
    encrypt_overrun (7 ∷ 8 ∷ []) (omega arith, (omega arith, tt)) (inr (inl refl))
