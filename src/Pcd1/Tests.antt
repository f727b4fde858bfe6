-- ===== src/Pcd1/Tests.antt =====
-- The words of PCD1 on concrete numbers.
use nodus_vision.Prelude.{ℕ, List, ◌+◌, ◌≡◌, [], ◌∷◌, ◌++◌, length, arith}
use nodus_vision.Prelude.Result.{ok}
use nodus_vision.Pcd1.{append_uint32, append_uint64, read_uint32, read_uint64}
use nodus_vision.Pcd1.Words.{read-append_uint32}
use nodus_vision.Pcd1.LongWords.{read-append_uint64}

abbrev start : List ℕ
start = 80 ∷ []

read-append_uint32_example :
    read_uint32 (append_uint32 start 0x01020304 ++ (7 ∷ [])) (length start)
    ≡ ok (0x01020304, length start + 4)
read-append_uint32_example = read-append_uint32 start (7 ∷ []) 0x01020304 (omega arith)

read-append_uint64_example :
    read_uint64 (append_uint64 start 0x0102030405060708 ++ (7 ∷ [])) (length start)
    ≡ ok (0x0102030405060708, length start + 8)
read-append_uint64_example = read-append_uint64 start (7 ∷ []) 0x0102030405060708 (omega arith)
