-- ===== src/Config/Fields.antt =====
-- The field readers of src/config/vision_config.cpp. `path` is the text that an error starts with.
pub mod Accepted
pub mod Integers
use nodus_vision.Prelude.{
  ℕ, Bool, ◌||◌, Option, none, some, List, ◌++◌, Text, bytes, text_eq, is_empty, any, length, ltb,
  ◌==◌, if◌then◌else◌,
}
use nodus_vision.Prelude.Int.{ℤ, pos, ltb_ℤ, negsuc}
use nodus_vision.Prelude.Floating.{double_of_u64, double_of_i64, is_finite_f64}
use nodus_vision.Prelude.Json.{
  Json, unsigned, signed, string, object, floating, Members, no_members, member, if_contains,
  as_int64,
}
use nodus_vision.Prelude.Result.{Result, ok, err, invalid_argument, throw_if, ◌>>=◌, ◌>>◌}

unfoldable pub require_field : Members → Text → Text → Result Json
unfolding if_contains
require_field fields key path = elim (if_contains fields key) [
  | none ↦ err (invalid_argument (path ++ bytes ": required field is missing."))
  | some value ↦ ok value
]

as_object : Text → Json → Result Members
as_object path (object fields) = ok fields
as_object path _ = err (invalid_argument (path ++ bytes ": must be an object."))

unfoldable pub require_object : Members → Text → Text → Result Members
unfolding require_field as_object
require_object fields key path = require_field fields key path >>= as_object path

unfoldable pub is_control : ℕ → Bool
is_control character = ltb character 32 || (character == 127)

check_characters : Text → Text → Result Text
unfolding is_control
check_characters path parsed = do
  throw_if (any is_control parsed)
      (invalid_argument (path ++ bytes ": must not contain control characters."))
  ok parsed

as_bounded_string : Text → Json → Result Text
unfolding check_characters
as_bounded_string path (string s) =
    if is_empty s || ltb 128 (length s)
    then err (invalid_argument (path ++ bytes ": must be a non-empty bounded string."))
    else check_characters path s
as_bounded_string path _ =
    err (invalid_argument (path ++ bytes ": must be a non-empty bounded string."))

unfoldable pub require_string : Members → Text → Text → Result Text
unfolding require_field as_bounded_string
require_string fields key path = require_field fields key path >>= as_bounded_string path

as_string_allow_empty : Text → Json → Result Text
unfolding check_characters
as_string_allow_empty path (string s) =
    if ltb 128 (length s)
    then err (invalid_argument (path ++ bytes ": must be a bounded string."))
    else check_characters path s
as_string_allow_empty path _ = err (invalid_argument (path ++ bytes ": must be a bounded string."))

unfoldable pub require_string_allow_empty : Members → Text → Text → Result Text
unfolding require_field as_string_allow_empty
require_string_allow_empty fields key path =
    require_field fields key path >>= as_string_allow_empty path

bounded_int : Text → ℤ → ℤ → Option ℤ → Result ℤ
bounded_int path minimum maximum none =
    err (invalid_argument (path ++ bytes ": must be an integer."))
bounded_int path minimum maximum (some parsed) =
    if ltb_ℤ parsed minimum || ltb_ℤ maximum parsed
    then err (invalid_argument (path ++ bytes ": is outside the allowed range."))
    else ok parsed

unfoldable pub require_bounded_int : Members → Text → Text → ℤ → ℤ → Result ℤ
unfolding require_field bounded_int
require_bounded_int fields key path minimum maximum = do
  value ← require_field fields key path
  bounded_int path minimum maximum (as_int64 value)

bounded_u64 : Text → ℕ → ℕ → ℕ → Result ℕ
bounded_u64 path minimum maximum parsed =
    if ltb parsed minimum || ltb maximum parsed
    then err (invalid_argument (path ++ bytes ": is outside the allowed range."))
    else ok parsed

as_bounded_u64 : Text → ℕ → ℕ → Json → Result ℕ
unfolding bounded_u64
as_bounded_u64 path minimum maximum (signed (pos n)) = bounded_u64 path minimum maximum n
as_bounded_u64 path minimum maximum (signed (negsuc n)) =
    err (invalid_argument (path ++ bytes ": must be non-negative."))
as_bounded_u64 path minimum maximum (unsigned n) = bounded_u64 path minimum maximum n
as_bounded_u64 path minimum maximum _ =
    err (invalid_argument (path ++ bytes ": must be an integer."))

unfoldable pub require_bounded_uint64 : Members → Text → Text → ℕ → ℕ → Result ℕ
unfolding require_field as_bounded_u64
require_bounded_uint64 fields key path minimum maximum =
    require_field fields key path >>= as_bounded_u64 path minimum maximum

unfoldable pub reject_unknown_fields : Members → List Text → Text → Result (Unit {0})
reject_unknown_fields no_members allowed path = ok tt
reject_unknown_fields (member name value rest) allowed path =
    let others = reject_unknown_fields rest allowed path in
    if any (text_eq name) allowed
    then others
    else err (invalid_argument (path ++ bytes "/" ++ name ++ bytes ": unknown field."))

finite : Text → ℕ → Result ℕ
finite path bits =
    if is_finite_f64 bits
    then ok bits
    else err (invalid_argument (path ++ bytes ": must be a finite number."))

-- `to_number<double>` where the value is a number.
as_finite_number : Text → Json → Result ℕ
unfolding finite
as_finite_number path (floating bits) = finite path bits
as_finite_number path (signed z) = finite path (double_of_i64 z)
as_finite_number path (unsigned n) = finite path (double_of_u64 n)
as_finite_number path _ = err (invalid_argument (path ++ bytes ": must be a finite number."))

unfoldable pub require_finite_number : Members → Text → Text → Result ℕ
unfolding require_field as_finite_number
require_finite_number fields key path = require_field fields key path >>= as_finite_number path
