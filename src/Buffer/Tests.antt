-- ===== src/Buffer/Tests.antt =====
-- The buffer's theorems at concrete buffers.
use libff.Prelude.{◌>>=◌, ◌≤◌, ◌≡◌, none, some, List, [], ◌∷◌, ◌++◌, arith, replicate, Returns}
use libff.Buffer.{Cell, Buffer, append, read, resize}
use libff.Buffer.Valid.{IsValid, contents}
use libff.Buffer.Append.{append_lem}
use libff.Buffer.Reading.{unread, unread-read}
use libff.Buffer.Faults.{read-resize}

abbrev bytes : List Cell
bytes = some 1 ∷ some 2 ∷ some 3 ∷ []

-- Five bytes, two of which have been read, in a block of eight.
abbrev five : Buffer
five = record {
  block = some (some 1 ∷ some 2 ∷ some 3 ∷ some 4 ∷ some 5 ∷ none ∷ none ∷ none ∷ []);
  size = 5;
  capacity = 8;
  read_pos = 2;
}

five-IsValid : IsValid five
five-IsValid = omega arith

abbrev all_read : Buffer
all_read = record five { read_pos = 5 }

all_read-IsValid : IsValid all_read
all_read-IsValid = omega arith

append_lem_example : Returns (append (replicate 9 (some 7)) five) (λ b'.
    IsValid b'
    × (contents b' ≡ contents five ++ replicate 9 (some 7))
    × (b'.size ≡ 14)
    × (b'.read_pos ≡ 2)
    × (8 ≤ b'.capacity))
append_lem_example = append_lem (replicate 9 (some 7)) five-IsValid (omega arith)

unread-read_example :
    Returns
      (read 2 five)
      (λ (out, b'). IsValid b' × (out ≡ some 3 ∷ some 4 ∷ []) × (unread b' ≡ some 5 ∷ []))
unread-read_example = unread-read 2 five-IsValid

read-resize_example :
    resize 1 five >>= read 3
    ≡ some (some 3 ∷ some 4 ∷ some 5 ∷ [], record five { size = 1; read_pos = 5 })
read-resize_example =
    read-resize 1 3 five-IsValid (omega arith) (omega arith) (omega arith) (omega arith)
      (omega arith)
