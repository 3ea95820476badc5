-- ===== src/Base64.antt =====
-- ff/src/encrypt/Base64.cpp: the Base64 encoder and decoder. A `char` is its code.
mod Groups
mod Encoding
mod RoundTrip
mod Tests
use libff.Prelude.{
  ◌>>=◌, codes, ℕ, zero, suc, ◌+◌, ◌-◌, ◌*◌, ◌/◌, ◌%◌, ◌^◌, bit_and, bit_or, Option, none, some, [],
  ◌∷◌, ◌++◌, map, ltb, leb, ◌==◌, if◌then◌else◌, length, get_or, set, take, replicate, Bytes,
}

-- `tbCode`
abbrev pub tb_code : Bytes
tb_code = codes "ABCDEFGHIJKLMNOPQRSTUVWXYZabcdefghijklmnopqrstuvwxyz0123456789+/"

-- `tbCode[n]`
unfoldable pub char_of : ℕ → ℕ
char_of n = get_or tb_code n 0

-- The four sextets of three bytes, `des`.
unfoldable pub sextets : ℕ → ℕ → ℕ → Bytes
sextets a b c =
    a / 4
    ∷ bit_or (bit_and a 0x03 * 16) (b / 16)
    ∷ bit_or (bit_and b 0x0f * 4) (c / 64)
    ∷ bit_and c 0x3f
    ∷ []

-- The vector `re` and `index`.
pub record Output : Type 0 where
  pub re : Bytes
  pub index : ℕ

-- `re[index++] = c`: `none` where `index` is outside the vector.
unfoldable pub put : ℕ → Output → Option Output
put c o =
    if ltb o.index (length o.re)
    then some (record { re = set o.re o.index c; index = o.index + 1 })
    else none

unfoldable pub put_all : Bytes → Output → Option Output
unfolding put
put_all [] o = some o
put_all (c ∷ cs) o = put c o >>= put_all cs

-- `4 - size` times `=`; `size` is `s / 6 + ((s % 6 > 0) ? 1 : 0)` for the `s` bits that are left.
abbrev pub tail_size : ℕ → ℕ
tail_size size2 = size2 * 8 / 6 + (if ltb 0 (size2 * 8 % 6) then 1 else 0)

-- The loop over the whole groups, and the rest: its bytes are filled up with zeros.
unfoldable pub encrypt_from : Bytes → Output → Option Output
encrypt_from [] o = some o
encrypt_from (a ∷ []) o =
    put_all (take (tail_size 1) (map char_of (sextets a 0 0)) ++ replicate (4 - tail_size 1) b'=') o
encrypt_from (a ∷ b ∷ []) o =
    put_all (take (tail_size 2) (map char_of (sextets a b 0)) ++ replicate (4 - tail_size 2) b'=') o
encrypt_from (a ∷ b ∷ c ∷ rest) o = put_all (map char_of (sextets a b c)) o >>= encrypt_from rest

-- `return &re[0]`: the text up to the first NUL; `none` where the vector holds none.
unfoldable pub c_string : Bytes → Option Bytes
c_string [] = none
c_string (c ∷ cs) =
    let rest = c_string cs in if c == 0 then some [] else (rest >>= λ s. some (c ∷ s))

-- `Encrypt(const void *, unsigned int)` of the bytes behind a pointer that is not null; the vector
-- has twice their number of elements, in an unsigned int.
unfoldable pub encrypt : Bytes → Option Bytes
encrypt buf =
    encrypt_from buf (record { re = replicate (length buf * 2 % 2 ^ 32) 0; index = 0 }) >>= λ o.
    c_string o.re

-- `Encrypt(string)`
unfoldable pub encrypt_string : Bytes → Option Bytes
encrypt_string str = if length str == 0 then some [] else encrypt str

-- The search of `fillBuf` from the table's entry `n` on.
unfoldable pub find_code : Bytes → ℕ → ℕ → Option ℕ
find_code [] n c = none
find_code (x ∷ xs) n c = let rest = find_code xs (n + 1) c in if x == c then some n else rest

-- `fillBuf`; `none` is false.
unfoldable pub fill_buf : ℕ → Option ℕ
unfolding find_code
fill_buf c = elim (find_code tb_code 0 c) [
  | some n ↦ some n
  | none ↦ if c == b'=' then some 0 else none
]

unfoldable pub fill_all : Bytes → Option Bytes
fill_all [] = some []
fill_all (c ∷ cs) = fill_buf c >>= λ n. fill_all cs >>= λ ns. some (n ∷ ns)

-- The three bytes of four sextets, `tmpDes`.
unfoldable pub triple : ℕ → ℕ → ℕ → ℕ → Bytes
triple a b c d =
    bit_or (a * 4 % 256) (bit_and b 0x30 / 16)
    ∷ bit_or (bit_and b 0x0f * 16 % 256) (c / 4)
    ∷ bit_or (c * 64 % 256) d
    ∷ []

-- The loop over groups of four, and the rest: `size2 * 6 / 8` bytes of it. At most 2^31 - 1 sextets are
-- given, so that `i * 4` is an int.
unfoldable pub decrypt_groups : Bytes → Bytes
decrypt_groups [] = []
decrypt_groups (a ∷ []) = take (1 * 6 / 8) (triple a 0 0 0)
decrypt_groups (a ∷ b ∷ []) = take (2 * 6 / 8) (triple a b 0 0)
decrypt_groups (a ∷ b ∷ c ∷ []) = take (3 * 6 / 8) (triple a b c 0)
decrypt_groups (a ∷ b ∷ c ∷ d ∷ rest) = triple a b c d ++ decrypt_groups rest

-- `src.substr(0, src.find("="))`, for a text that is shorter than 2^31 characters
unfoldable pub before_padding : Bytes → Bytes
before_padding [] = []
before_padding (c ∷ cs) = let rest = before_padding cs in if c == b'=' then [] else c ∷ rest

-- `Decrypt(void *, unsigned int *, string)` with pointers that are not null: the bytes written to
-- `des`, whose number is `*desLen`; the inner `none` is false. The outer one is a text of 2^31 characters
-- or more, where `pos` and `i * 4` may leave the range of an int: no result of the code.
unfoldable pub decrypt : Bytes → Option (Option Bytes)
decrypt src =
    if length src == 0
    then some none
    else if leb (2 ^ 31) (length src)
    then none
    else some (fill_all (before_padding src) >>= λ buf. some (decrypt_groups buf))
