-- ===== src/Pcd1.antt =====
-- src/provider/http/pcd1.cpp: the little-endian words of the PCD1 point-cloud format. A byte is a
-- number below 256; the loops run over byte_index.
pub mod Words
pub mod LongWords
mod Tests
use nodus_vision.Prelude.{
  ℕ, suc, zero, ◌+◌, ◌-◌, ◌*◌, ◌/◌, ◌%◌, ◌^◌, ◌||◌, none, some, List, [], ◌∷◌, ◌++◌, bytes, length,
  get_elem?, ltb, if◌then◌else◌,
}
use nodus_vision.Prelude.Result.{Result, ok, err, invalid_argument, out_of_range}

-- The loop of `appendUint32` and `appendUint64` with `n` rounds left.
abbrev pub append_bytes : ℕ → ℕ → ℕ → List ℕ → List ℕ
append_bytes zero byte_index value output = output
append_bytes (suc n) byte_index value output =
    append_bytes n (byte_index + 1) value (output ++ (value / 2 ^ (byte_index * 8) % 256 ∷ []))

-- `appendUint32`
pub append_uint32 : List ℕ → ℕ → List ℕ
append_uint32 output value = append_bytes 4 0 value output

-- `appendUint64`
pub append_uint64 : List ℕ → ℕ → List ℕ
append_uint64 output value = append_bytes 8 0 value output

-- The loop of `readUint32` and `readUint64`: `input.at` throws out of range. The bits of the new byte
-- are free in the value, so `|=` is a sum. The answer is the value and the offset after it.
abbrev pub read_bytes : ℕ → ℕ → List ℕ → ℕ → ℕ → Result (ℕ × ℕ)
read_bytes zero byte_index input offset value = ok (value, offset)
read_bytes (suc n) byte_index input offset value = elim (get_elem? input offset) [
  | none ↦ err out_of_range
  | some byte ↦
      read_bytes n (byte_index + 1) input (offset + 1) (value + byte * 2 ^ (byte_index * 8))
]

-- `readUint32`
pub read_uint32 : List ℕ → ℕ → Result (ℕ × ℕ)
read_uint32 input offset =
    if ltb (length input) offset || ltb (length input - offset) 4
    then err (invalid_argument (bytes "PCD1 payload is truncated."))
    else read_bytes 4 0 input offset 0

-- `readUint64`
pub read_uint64 : List ℕ → ℕ → Result (ℕ × ℕ)
read_uint64 input offset =
    if ltb (length input) offset || ltb (length input - offset) 8
    then err (invalid_argument (bytes "PCD1 payload is truncated."))
    else read_bytes 8 0 input offset 0
