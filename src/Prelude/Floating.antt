-- ===== src/Prelude/Floating.antt =====
-- IEEE 754 numbers by their bits, as far as the source reads them: the conversions of integers and
-- of doubles, and the comparisons. A rounding is to the nearest, ties to even.
use nodus_vision.Prelude.Tests.{ltb, leb, ◌==◌, if◌then◌else◌}
use nodus_vision.Prelude.Int.{ℤ, pos, negsuc, sub_ℕ, ltb_ℤ}
use Prim.Native.Nat.{ℕ, zero, suc, ◌+◌, ◌-◌, ◌*◌, ◌/◌, ◌%◌, ◌^◌}
use mathlib.Core.Bool.{Bool, false, ◌&&◌, ◌||◌, not}

-- `n / 2 ^ shift`, rounded.
unfoldable pub round_shift : ℕ → ℕ → ℕ
round_shift n shift =
    let q = n / 2 ^ shift in
    let twice = 2 * (n % 2 ^ shift) in
    if ltb (2 ^ shift) twice || ((twice == 2 ^ shift) && (q % 2 == 1)) then suc q else q

-- The position of the highest bit, looked for from `fuel` down.
unfoldable pub highest_bit : ℕ → ℕ → ℕ
highest_bit n zero = zero
highest_bit n (suc fuel) =
    let below = highest_bit n fuel in if leb (2 ^ suc fuel) n then suc fuel else below

-- The double of a number below `2 ^ 64`. A carry of the rounding goes into the exponent.
unfoldable pub double_of_u64 : ℕ → ℕ
unfolding round_shift highest_bit
double_of_u64 n =
    let e = highest_bit n 63 in
    if n == 0
    then 0
    else if leb e 52
    then (e + 1023) * 2 ^ 52 + (n - 2 ^ e) * 2 ^ (52 - e)
    else (e + 1023) * 2 ^ 52 + (round_shift n (e - 52) - 2 ^ 52)

unfoldable pub double_of_i64 : ℤ → ℕ
unfolding double_of_u64
double_of_i64 (pos n) = double_of_u64 n
double_of_i64 (negsuc n) = 2 ^ 63 + double_of_u64 (suc n)

unfoldable pub is_finite_f64 : ℕ → Bool
is_finite_f64 bits = not ((bits / 2 ^ 52) % 2 ^ 11 == 2047)

-- `std::abs(x) > limit` for a positive finite `limit`: no comparison holds of a NaN.
unfoldable pub abs_exceeds : ℕ → ℕ → Bool
abs_exceeds bits limit = leb (bits % 2 ^ 63) (2047 * 2 ^ 52) && ltb limit (bits % 2 ^ 63)

-- `static_cast<float>` of a double: an overflow is an infinity, and small numbers are subnormal.
unfoldable pub float_of_double : ℕ → ℕ
unfolding round_shift
float_of_double bits =
    let sign = bits / 2 ^ 63 * 2 ^ 31 in
    let e = (bits / 2 ^ 52) % 2 ^ 11 in
    let m = bits % 2 ^ 52 in
    if e == 2047
    then sign + (if m == 0 then 255 * 2 ^ 23 else 255 * 2 ^ 23 + 2 ^ 22)
    else if leb 1151 e
    then sign + 255 * 2 ^ 23
    else if leb 897 e
    then sign + round_shift ((e - 896) * 2 ^ 52 + m) 29
    else if leb 871 e
    then sign + round_shift (2 ^ 52 + m) (29 + (897 - e))
    else sign

abbrev pub is_nan_f32 : ℕ → Bool
is_nan_f32 bits = ltb (255 * 2 ^ 23) (bits % 2 ^ 31)

-- Of two floats the order is that of their magnitudes with the sign; both zeros are 0.
abbrev pub f32_key : ℕ → ℤ
f32_key bits = if leb (2 ^ 31) bits then sub_ℕ 0 (bits % 2 ^ 31) else pos bits

-- `a < b`
unfoldable pub less_f32 : ℕ → ℕ → Bool
less_f32 a b = if is_nan_f32 a || is_nan_f32 b then false else ltb_ℤ (f32_key a) (f32_key b)

-- `a <= b`
unfoldable pub at_most_f32 : ℕ → ℕ → Bool
at_most_f32 a b =
    if is_nan_f32 a || is_nan_f32 b then false else not (ltb_ℤ (f32_key b) (f32_key a))
