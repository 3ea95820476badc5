-- ===== src/Prelude/Numerals.antt =====
-- Literals as bytes, and numbers as text, as `std::to_string`, `<<` and `printf` write them.
use Prim.Native.Nat.{ℕ, zero, suc, ◌+◌, ◌-◌, ◌/◌, ◌%◌}
use Prim.Native.Char.{code}
use Prim.Native.String.{String}
use mathlib.Core.List.{[], ◌∷◌, ◌++◌}
use libff.Prelude.Tests.{ltb, if◌then◌else◌}
use libff.Prelude.Memory.{Bytes}

abbrev pub codes : String → Bytes
codes String.[] = []
codes (String.◌∷◌ c s) = code c ∷ codes s

-- The digit `d`, in lower case.
abbrev pub digit : ℕ → ℕ
digit d = if ltb d 10 then b'0' + d else b'a' + (d - 10)

-- The digits of `n` in front of `acc`; there are fewer than `n` divisions.
unfoldable pub numeral_loop : ℕ → ℕ → ℕ → Bytes → Bytes
numeral_loop zero base n acc = digit n ∷ acc
numeral_loop (suc fuel) base n acc =
    let rest = numeral_loop fuel base (n / base) (digit (n % base) ∷ acc) in
    if ltb n base then digit n ∷ acc else rest

-- `%d` and `%x` of a number without sign
unfoldable pub numeral : ℕ → ℕ → Bytes
unfolding numeral_loop
numeral base n = numeral_loop n base n []

-- `%0wx`: the last `width` digits. `printf` writes more where the number has more.
unfoldable pub padded : ℕ → ℕ → ℕ → Bytes
padded base zero n = []
padded base (suc width) n = padded base width (n / base) ++ digit (n % base) ∷ []
