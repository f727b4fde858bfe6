-- ===== src/Pilot/Identifiers.antt =====
-- The identifiers of src/pilot/pilot_contract_codec.cpp, the order of strings, and the path
-- segments of src/pilot/pilot_integration_client.cpp.
pub mod Segments
pub mod Generated
use nodus_vision.Prelude.{
  ℕ, ◌+◌, ◌-◌, ◌*◌, ◌/◌, ◌%◌, ◌^◌, Bool, true, false, ◌||◌, ◌&&◌, not, Option, none, some, List, [],
  ◌∷◌, ◌++◌, Text, bytes, text_eq, is_empty, all, length, drop, get_elem?, ltb, leb, ◌==◌,
  if◌then◌else◌,
}
use nodus_vision.Prelude.Strings.{starts_with}
use nodus_vision.Prelude.Result.{Result, ok, err, invalid_argument, throw_if}

-- `operator<` on strings: as unsigned characters.
unfoldable pub text_less : Text → Text → Bool
text_less xs [] = false
text_less [] (b ∷ bs) = true
text_less (a ∷ as') (b ∷ bs) = ltb a b || ((a == b) && text_less as' bs)

-- `IDENTIFIER_MAX_BYTES` is 128.
unfoldable pub validate_identifier : Text → Text → Result (Unit {0})
validate_identifier value field =
    throw_if (is_empty value || ltb 128 (length value))
      (invalid_argument (field ++ bytes " must be a bounded non-empty identifier."))

abbrev is_lower_hex : ℕ → Bool
is_lower_hex b = (leb 48 b && leb b 57) || (leb 97 b && leb b 102)

unfoldable pub is_instance_id_valid : Text → Bool
unfolding starts_with
is_instance_id_valid value =
    (length value == 39) && (starts_with value (bytes "vision-") && all is_lower_hex (drop 7 value))

-- A digit of `HEX`; `letter` is its first letter.
abbrev hex_digit : ℕ → ℕ → ℕ
hex_digit letter n = if ltb n 10 then n + 48 else n - 10 + letter

unfoldable pub hex_bytes : List ℕ → Text
hex_bytes [] = []
hex_bytes (b ∷ bs) = hex_digit 97 ((b / 16) % 16) ∷ hex_digit 97 (b % 16) ∷ hex_bytes bs

generated : Option Text → List ℕ → Result Text
unfolding is_instance_id_valid hex_bytes
generated (some value) random =
    if is_instance_id_valid value
    then ok value
    else err (invalid_argument (bytes "Injected Pilot instance ID has an invalid format."))
generated none random = ok (bytes "vision-" ++ hex_bytes random)

-- The argument is what the injected generator returns, if there is one; `random` are the 16 bytes
-- of `std::random_device`.
unfoldable pub generate_instance_id : Option Text → List ℕ → Result Text
unfolding generated
generate_instance_id generator random = generated generator random

unfoldable pub is_unreserved : ℕ → Bool
is_unreserved b =
    (leb 97 b && leb b 122)
    || ((leb 65 b && leb b 90)
        || ((leb 48 b && leb b 57) || ((b == 45) || ((b == 95) || ((b == 46) || (b == 126))))))

unfoldable pub encode_path_segment : Text → Text
unfolding is_unreserved
encode_path_segment [] = []
encode_path_segment (b ∷ bs) =
    let rest = encode_path_segment bs in
    if is_unreserved b
    then b ∷ rest
    else 37 ∷ hex_digit 65 ((b / 16) % 16) ∷ hex_digit 65 (b % 16) ∷ rest
