-- ===== src/Pilot/Identifiers/Generated.antt =====
-- The instance id that `generateInstanceId` of src/pilot/pilot_contract_codec.cpp returns.
use nodus_vision.Prelude.{
  ℕ, ◌*◌, ◌%◌, ◌/◌, ◌≡◌, ◌<◌, refl, true, Option, none, some, List, [], ◌∷◌, ◌++◌, Text, bytes, all,
  length, if_cases, arith,
}
use nodus_vision.Prelude.Result.{Ensures}
use nodus_vision.Prelude.Strings.{starts_with}
use nodus_vision.Pilot.Identifiers.{
  is_lower_hex, is_instance_id_valid, hex_digit, hex_bytes, generated, generate_instance_id,
}

length-hex_bytes : (bs : List ℕ) → length (hex_bytes bs) ≡ 2 * length bs
unfolding hex_bytes
length-hex_bytes [] = refl
length-hex_bytes (b ∷ bs) = omega (arith, length-hex_bytes bs)

digit-is_lower_hex : (n : ℕ) → n < 16 → is_lower_hex (hex_digit 97 n) ≡ true
digit-is_lower_hex n h = ground arith

all-hex_bytes : (bs : List ℕ) → all is_lower_hex (hex_bytes bs) ≡ true
unfolding hex_bytes
all-hex_bytes [] = refl
all-hex_bytes (b ∷ bs) = rw (
  digit-is_lower_hex ((b / 16) % 16) (omega arith),
  digit-is_lower_hex (b % 16) (omega arith),
  all-hex_bytes bs,
)

prefixed-is_instance_id_valid :
    (hex : Text)
    → length hex ≡ 32
    → all is_lower_hex hex ≡ true
    → is_instance_id_valid (bytes "vision-" ++ hex) ≡ true
unfolding is_instance_id_valid bytes starts_with
prefixed-is_instance_id_valid hex h k = rw (h, k)

-- An instance id that is returned has the form of one: an injected one is checked, and one made of
-- sixteen random bytes has it.
pub generate_instance_id-lem :
    (generator : Option Text) (random : List ℕ)
    → length random ≡ 16
    → Ensures (λ id. is_instance_id_valid id ≡ true) (generate_instance_id generator random)
unfolding generate_instance_id generated is_instance_id_valid
generate_instance_id-lem (some value) random h =
    if_cases (Ensures (λ id. is_instance_id_valid id ≡ true)) (is_instance_id_valid value) _ _
      (λ e. e) (λ _. tt)
generate_instance_id-lem none random h =
    prefixed-is_instance_id_valid (hex_bytes random) (omega (arith, length-hex_bytes random))
      (all-hex_bytes random)
