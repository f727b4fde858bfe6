-- ===== src/Prelude/Strings.antt =====
-- The operations of `std::string` that the parsers use, and `std::stoi`.
use nodus_vision.Prelude.Tests.{ltb, leb, ◌==◌, if◌then◌else◌}
use nodus_vision.Prelude.Int.{ℤ, pos, sub_ℕ}
use nodus_vision.Prelude.Bytes.{Text, bytes}
use nodus_vision.Prelude.Result.{Result, ok, err, invalid_argument, out_of_range}
use Prim.Native.Nat.{ℕ, suc, ◌+◌, ◌-◌, ◌*◌, ◌^◌}
use mathlib.Core.Bool.{Bool, true, false, ◌&&◌, ◌||◌}
use mathlib.Core.List.{[], ◌∷◌}
use mathlib.Core.Option.{Option, none, some, map}

-- `text.rfind(prefix, 0) == 0`
unfoldable pub starts_with : Text → Text → Bool
starts_with text [] = true
starts_with [] (p ∷ ps) = false
starts_with (b ∷ bs) (p ∷ ps) = (b == p) && starts_with bs ps

-- `text.find(pattern) != npos`
unfoldable pub contains : Text → Text → Bool
unfolding starts_with
contains [] pattern = starts_with [] pattern
contains (b ∷ bs) pattern = starts_with (b ∷ bs) pattern || contains bs pattern

-- `text.find(byte)`
unfoldable pub find_byte : Text → ℕ → Option ℕ
find_byte [] byte = none
find_byte (b ∷ bs) byte =
    let later = find_byte bs byte in if b == byte then some 0 else map suc later

-- `text.rfind(byte)`
unfoldable pub rfind_byte : Text → ℕ → Option ℕ
rfind_byte [] byte = none
rfind_byte (b ∷ bs) byte = elim (rfind_byte bs byte) [
  | some i ↦ some (suc i)
  | none ↦ if b == byte then some 0 else none
]

abbrev pub is_digit : ℕ → Bool
is_digit b = leb 48 b && leb b 57

abbrev seen : Option ℕ → ℕ
seen none = 0
seen (some n) = n

-- The value of the leading digits after `value`, `none` where there is no digit at all.
unfoldable pub read_digits : Option ℕ → Text → Option ℕ
read_digits value [] = value
read_digits value (b ∷ bs) =
    let more = read_digits (some (seen value * 10 + (b - 48))) bs in
    if is_digit b then more else value

unfoldable skip_spaces : Text → Text
skip_spaces [] = []
skip_spaces (b ∷ bs) =
    let rest = skip_spaces bs in if (b == 32) || (leb 9 b && leb b 13) then rest else b ∷ bs

int_of_digits : Bool → Text → Result ℤ
unfolding read_digits
int_of_digits is_negative digits = elim (read_digits none digits) [
  | none ↦ err (invalid_argument (bytes "stoi"))
  | some n ↦
      if is_negative
      then (if ltb (2 ^ 31) n then err out_of_range else ok (sub_ℕ 0 n))
      else if ltb (2 ^ 31 - 1) n
      then err out_of_range
      else ok (pos n)
]

signed_int : Text → Result ℤ
unfolding int_of_digits
signed_int [] = err (invalid_argument (bytes "stoi"))
signed_int (b ∷ bs) =
    if b == 43
    then int_of_digits false bs
    else if b == 45
    then int_of_digits true bs
    else int_of_digits false (b ∷ bs)

-- `std::stoi`: spaces, a sign, and the digits that follow; what comes after them is not read.
unfoldable pub stoi : Text → Result ℤ
unfolding skip_spaces signed_int
stoi text = signed_int (skip_spaces text)
