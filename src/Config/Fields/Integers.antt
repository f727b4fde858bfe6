-- ===== src/Config/Fields/Integers.antt =====
-- `requireBoundedInt` of src/config/vision_config.cpp on a number held as `std::uint64_t`, which it
-- converts to `std::int64_t` first.
use nodus_vision.Prelude.{
  ℕ, ◌-◌, ◌^◌, ◌<◌, ◌≡◌, refl, ap, sym, not, Bool, true, false, ◌||◌, ◌&&◌, some, ◌++◌, Text, bytes,
  ltb, leb, if◌then◌else◌, arith, ◌∙◌,
}
use nodus_vision.Prelude.Int.{ℤ, pos, negsuc, ltb_ℤ}
use nodus_vision.Prelude.Json.{Json, unsigned, Members, if_contains, as_int64}
use nodus_vision.Prelude.Result.{Result, ok, err, invalid_argument, ◌>>=◌}
use nodus_vision.Config.Fields.{require_field, bounded_int, require_bounded_int}

abbrev chosen : Bool → Text → ℕ → Result ℤ
chosen accepted path n =
    if accepted
    then ok (pos n)
    else err (invalid_argument (path ++ bytes ": is outside the allowed range."))

opposite :
    (a b : Bool) (path : Text) (n : ℕ)
    → a ≡ not b
    → (if a then chosen false path n else chosen true path n) ≡ chosen b path n
opposite true true path n h = cc
opposite true false path n h = refl
opposite false true path n h = refl
opposite false false path n h = cc

outside :
    (low high n : ℕ)
    → ltb_ℤ (pos n) (pos low) || ltb_ℤ (pos high) (pos n) ≡ not (leb low n && leb n high)
outside low high n = ground arith

in_bounds :
    (low high n : ℕ) (path : Text)
    → bounded_int path (pos low) (pos high) (some (pos n)) ≡ chosen (leb low n && leb n high) path n
unfolding bounded_int
in_bounds low high n path =
    opposite (ltb_ℤ (pos n) (pos low) || ltb_ℤ (pos high) (pos n)) (leb low n && leb n high) path n
      (outside low high n)

above : (low high n : ℕ) → high < 2 ^ 63 → ltb n (2 ^ 63) ≡ false → leb low n && leb n high ≡ false
above low high n h e = ground arith

below : (low k : ℕ) → ltb_ℤ (negsuc k) (pos low) ≡ true
below low k = ground arith

negative :
    (low high k : ℕ) (path : Text) (n : ℕ)
    → bounded_int path (pos low) (pos high) (some (negsuc k)) ≡ chosen false path n
unfolding bounded_int
negative low high k path n = rw (below low k)

converted :
    (low high n : ℕ) (path : Text) (small : Bool)
    → high < 2 ^ 63
    → ltb n (2 ^ 63) ≡ small
    → bounded_int path
        (pos low)
        (pos high)
        (some (if small then pos n else negsuc (2 ^ 64 - 1 - n)))
      ≡ chosen (leb low n && leb n high) path n
converted low high n path true h e = in_bounds low high n path
converted low high n path false h e =
    negative low high (2 ^ 64 - 1 - n) path n
    ∙ ap (λ b. chosen b path n) (sym (above low high n h e))

found :
    (fields : Members) (key path : Text) (value : Json)
    → if_contains fields key ≡ some value
    → require_field fields key path ≡ ok value
unfolding require_field
found fields key path value e = rw (e, require_field)

after :
    (r : Result Json) (value : Json) (path : Text) (low high : ℤ)
    → r ≡ ok value
    → (r >>= (λ v. bounded_int path low high (as_int64 v)))
      ≡ bounded_int path low high (as_int64 value)
after r value path low high e = rw e

-- Between bounds that are not negative and below 2^63, a number held as `std::uint64_t` is accepted
-- exactly when it lies between them, and returned as it is.
pub require_bounded_int-unsigned :
    (fields : Members) (key path : Text) (low high n : ℕ)
    → high < 2 ^ 63
    → if_contains fields key ≡ some (unsigned n)
    → require_bounded_int fields key path (pos low) (pos high) ≡ (
        if leb low n && leb n high
        then ok (pos n)
        else err (invalid_argument (path ++ bytes ": is outside the allowed range.")))
unfolding require_bounded_int
require_bounded_int-unsigned fields key path low high n h e =
    after (require_field fields key path) (unsigned n) path (pos low) (pos high)
      (found fields key path (unsigned n) e)
    ∙ converted low high n path (ltb n (2 ^ 63)) h refl
