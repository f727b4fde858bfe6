-- ===== src/Config/Fields/Accepted.antt =====
-- What the field readers of src/config/vision_config.cpp ensure of the values they return.
use nodus_vision.Prelude.{
  ℕ, ◌≤◌, ◌≡◌, ◌≢◌, false, true, ◌||◌, Option, none, some, [], ◌∷◌, Text, length, any, All,
  if_cases, is_empty, ltb, arith,
}
use nodus_vision.Prelude.Int.{ℤ, pos, negsuc, ◌≤ℤ◌}
use nodus_vision.Prelude.Floating.{is_finite_f64, double_of_u64, double_of_i64}
use nodus_vision.Prelude.Json.{
  Json, null, boolean, unsigned, signed, floating, string, array, object, Members, as_int64,
}
use nodus_vision.Prelude.Result.{
  Result, Ensures, Ensures-throw_if, Ensures-call, Ensures-bind, ◌>>=◌,
}
use nodus_vision.Config.Fields.{
  is_control, bounded_int, bounded_u64, as_bounded_u64, require_bounded_int, require_bounded_uint64,
  check_characters, as_bounded_string, require_string, require_field, as_string_allow_empty,
  require_string_allow_empty, finite, as_finite_number, require_finite_number,
}

abbrev pub Within : ℤ → ℤ → ℤ → Type 0
Within minimum maximum z = (minimum ≤ℤ z) × (z ≤ℤ maximum)

-- A bounded string without control characters.
abbrev pub IsName : Text → Type 0
IsName s = (s ≢ []) × (length s ≤ 128) × All (λ b. (32 ≤ b) × (b ≢ 127)) s

bounded_int-Within :
    (path : Text) (minimum maximum : ℤ) (parsed : Option ℤ)
    → Ensures (Within minimum maximum) (bounded_int path minimum maximum parsed)
unfolding bounded_int
bounded_int-Within path minimum maximum none = tt
bounded_int-Within path minimum maximum (some parsed) = ground arith

pub require_bounded_int-Within :
    (fields : Members) (key path : Text) (minimum maximum : ℤ)
    → Ensures (Within minimum maximum) (require_bounded_int fields key path minimum maximum)
unfolding require_bounded_int
require_bounded_int-Within fields key path minimum maximum =
    Ensures-call _ (require_field fields key path) _
      (λ value _. bounded_int-Within path minimum maximum (as_int64 value))

printable_bytes : (s : Text) → any is_control s ≡ false → All (λ b. (32 ≤ b) × (b ≢ 127)) s
unfolding is_control
printable_bytes [] h = tt
printable_bytes (b ∷ bs) h = (ground arith, printable_bytes bs (ground arith))

short-IsName : (s : Text) → is_empty s || ltb 128 (length s) ≡ false → (s ≢ []) × (length s ≤ 128)
short-IsName [] h = ground arith
short-IsName (b ∷ bs) h = (λ e. cc, ground arith)

as_bounded_string-IsName :
    (path : Text) (value : Json) → Ensures IsName (as_bounded_string path value)
unfolding as_bounded_string check_characters
as_bounded_string-IsName path (string s) =
    if_cases (Ensures IsName) (is_empty s || ltb 128 (length s)) _ _ (λ _. tt)
      (λ bounded. Ensures-throw_if IsName (any is_control s) _ _ (λ printable.
        ((short-IsName s bounded).0, (short-IsName s bounded).1, printable_bytes s printable)))
as_bounded_string-IsName path null = tt
as_bounded_string-IsName path (boolean b) = tt
as_bounded_string-IsName path (unsigned n) = tt
as_bounded_string-IsName path (signed z) = tt
as_bounded_string-IsName path (floating n) = tt
as_bounded_string-IsName path (array values) = tt
as_bounded_string-IsName path (object fields) = tt

pub require_string-IsName :
    (fields : Members) (key path : Text) → Ensures IsName (require_string fields key path)
unfolding require_string
require_string-IsName fields key path =
    Ensures-call IsName (require_field fields key path) _
      (λ value _. as_bounded_string-IsName path value)

-- A string as above that may be empty.
abbrev pub IsLabel : Text → Type 0
IsLabel s = (length s ≤ 128) × All (λ b. (32 ≤ b) × (b ≢ 127)) s

short_enough : (s : Text) → ltb 128 (length s) ≡ false → length s ≤ 128
short_enough s h = ground arith

as_string_allow_empty-IsLabel :
    (path : Text) (value : Json) → Ensures IsLabel (as_string_allow_empty path value)
unfolding as_string_allow_empty check_characters
as_string_allow_empty-IsLabel path (string s) =
    if_cases (Ensures IsLabel) (ltb 128 (length s)) _ _ (λ _. tt)
      (λ bounded.
        Ensures-throw_if IsLabel (any is_control s) _ _
          (λ printable. (short_enough s bounded, printable_bytes s printable)))
as_string_allow_empty-IsLabel path null = tt
as_string_allow_empty-IsLabel path (boolean b) = tt
as_string_allow_empty-IsLabel path (unsigned n) = tt
as_string_allow_empty-IsLabel path (signed z) = tt
as_string_allow_empty-IsLabel path (floating n) = tt
as_string_allow_empty-IsLabel path (array values) = tt
as_string_allow_empty-IsLabel path (object fields) = tt

pub require_string_allow_empty-IsLabel :
    (fields : Members) (key path : Text)
    → Ensures IsLabel (require_string_allow_empty fields key path)
unfolding require_string_allow_empty
require_string_allow_empty-IsLabel fields key path =
    Ensures-call IsLabel (require_field fields key path) _
      (λ value _. as_string_allow_empty-IsLabel path value)

abbrev pub IsFinite : ℕ → Type 0
IsFinite bits = is_finite_f64 bits ≡ true

finite-IsFinite : (path : Text) (bits : ℕ) → Ensures IsFinite (finite path bits)
unfolding finite
finite-IsFinite path bits = if_cases (Ensures IsFinite) (is_finite_f64 bits) _ _ (λ e. e) (λ _. tt)

as_finite_number-IsFinite :
    (path : Text) (value : Json) → Ensures IsFinite (as_finite_number path value)
unfolding as_finite_number
as_finite_number-IsFinite path (floating bits) = finite-IsFinite path bits
as_finite_number-IsFinite path (signed z) = finite-IsFinite path (double_of_i64 z)
as_finite_number-IsFinite path (unsigned n) = finite-IsFinite path (double_of_u64 n)
as_finite_number-IsFinite path null = tt
as_finite_number-IsFinite path (boolean b) = tt
as_finite_number-IsFinite path (string s) = tt
as_finite_number-IsFinite path (array values) = tt
as_finite_number-IsFinite path (object fields) = tt

require_finite_number-IsFinite :
    (fields : Members) (key path : Text) → Ensures IsFinite (require_finite_number fields key path)
unfolding require_finite_number
require_finite_number-IsFinite fields key path =
    Ensures-call IsFinite (require_field fields key path) _
      (λ value _. as_finite_number-IsFinite path value)

abbrev pub Between : ℕ → ℕ → ℕ → Type 0
Between minimum maximum n = (minimum ≤ n) × (n ≤ maximum)

as_bounded_u64-Between :
    (path : Text) (minimum maximum : ℕ) (value : Json)
    → Ensures (Between minimum maximum) (as_bounded_u64 path minimum maximum value)
unfolding as_bounded_u64 bounded_u64
as_bounded_u64-Between path minimum maximum (signed (pos n)) = ground arith
as_bounded_u64-Between path minimum maximum (signed (negsuc n)) = tt
as_bounded_u64-Between path minimum maximum (unsigned n) = ground arith
as_bounded_u64-Between path minimum maximum (string s) = tt
as_bounded_u64-Between path minimum maximum null = tt
as_bounded_u64-Between path minimum maximum (boolean b) = tt
as_bounded_u64-Between path minimum maximum (floating n) = tt
as_bounded_u64-Between path minimum maximum (array values) = tt
as_bounded_u64-Between path minimum maximum (object fields) = tt

pub require_bounded_uint64-Between :
    (fields : Members) (key path : Text) (minimum maximum : ℕ)
    → Ensures (Between minimum maximum) (require_bounded_uint64 fields key path minimum maximum)
unfolding require_bounded_uint64
require_bounded_uint64-Between fields key path minimum maximum =
    Ensures-call _ (require_field fields key path) _
      (λ value _. as_bounded_u64-Between path minimum maximum value)

-- The steps of a parser that read a field.
pub int_field :
    {B : Type 0} (Q : B → Type 0) (fields : Members) (key path : Text) (minimum maximum : ℤ)
    (rest : ℤ → Result B)
    → ((z : ℤ) → Within minimum maximum z → Ensures Q (rest z))
    → Ensures Q (require_bounded_int fields key path minimum maximum >>= rest)
int_field Q fields key path minimum maximum rest =
    Ensures-bind (Within minimum maximum) Q (require_bounded_int fields key path minimum maximum)
      rest (require_bounded_int-Within fields key path minimum maximum)

pub finite_field :
    {B : Type 0} (Q : B → Type 0) (fields : Members) (key path : Text) (rest : ℕ → Result B)
    → ((bits : ℕ) → IsFinite bits → Ensures Q (rest bits))
    → Ensures Q (require_finite_number fields key path >>= rest)
finite_field Q fields key path rest =
    Ensures-bind IsFinite Q (require_finite_number fields key path) rest
      (require_finite_number-IsFinite fields key path)

pub name_field :
    {B : Type 0} (Q : B → Type 0) (fields : Members) (key path : Text) (rest : Text → Result B)
    → ((s : Text) → IsName s → Ensures Q (rest s))
    → Ensures Q (require_string fields key path >>= rest)
name_field Q fields key path rest =
    Ensures-bind IsName Q (require_string fields key path) rest
      (require_string-IsName fields key path)
