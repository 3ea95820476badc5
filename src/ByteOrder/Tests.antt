-- ===== src/ByteOrder/Tests.antt =====
-- A number of four bytes.
use libff.Prelude.{◌≡◌, some}
use libff.ByteOrder.{big, small, to, to_host, to_big, to_small}
use libff.ByteOrder.Conversion.{encoded, converts_to}

converts_to_example :
    (to big small (encoded big 4 0x01020304) ≡ some (encoded small 4 0x01020304))
    × (to_host small big (encoded big 4 0x01020304) ≡ some (encoded small 4 0x01020304))
    × (to_big big (encoded big 4 0x01020304) ≡ some (encoded big 4 0x01020304))
    × (to_small big (encoded big 4 0x01020304) ≡ some (encoded small 4 0x01020304))
converts_to_example = converts_to big small 4 0x01020304
