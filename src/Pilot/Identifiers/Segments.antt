-- ===== src/Pilot/Identifiers/Segments.antt =====
-- `encodePathSegment` of src/pilot/pilot_integration_client.cpp against a decoder.
use nodus_vision.Prelude.{
  ℕ, ◌+◌, ◌*◌, ◌%◌, ◌/◌, ◌-◌, ◌≡◌, ◌<◌, refl, ap, ◌∙◌, true, false, [], ◌∷◌, Text, All, leb, ◌==◌,
  if◌then◌else◌, if_cases, arith,
}
use nodus_vision.Pilot.Identifiers.{hex_digit, is_unreserved, encode_path_segment}

-- The value of an upper-case hexadecimal digit.
abbrev digit_value : ℕ → ℕ
digit_value b = if leb 65 b then b - 55 else b - 48

-- Percent decoding: `%` and two digits are one byte.
unfoldable pub decode_path_segment : Text → Text
decode_path_segment [] = []
decode_path_segment (b ∷ []) = b ∷ []
decode_path_segment (b ∷ c ∷ []) = b ∷ c ∷ []
decode_path_segment (b ∷ high ∷ low ∷ rest) =
    let plain = decode_path_segment (high ∷ low ∷ rest) in
    let encoded = decode_path_segment rest in
    if b == 37 then (digit_value high * 16 + digit_value low) ∷ encoded else b ∷ plain

digit_value-hex_digit : (n : ℕ) → n < 16 → digit_value (hex_digit 65 n) ≡ n
digit_value-hex_digit n h = ground arith

not_percent : (b : ℕ) → is_unreserved b ≡ true → b == 37 ≡ false
unfolding is_unreserved
not_percent b h = ground arith

decode_plain :
    (b : ℕ) (text : Text)
    → b == 37 ≡ false
    → decode_path_segment (b ∷ text) ≡ b ∷ decode_path_segment text
unfolding decode_path_segment
decode_plain b [] h = refl
decode_plain b (c ∷ []) h = refl
decode_plain b (c ∷ d ∷ rest) h = rw h

joined : (b : ℕ) → b < 256 → ((b / 16) % 16) * 16 + b % 16 ≡ b
joined b h = omega arith

byte_of_digits :
    (b : ℕ)
    → b < 256
    → digit_value (hex_digit 65 ((b / 16) % 16)) * 16 + digit_value (hex_digit 65 (b % 16)) ≡ b
byte_of_digits b h = rw (
  digit_value-hex_digit ((b / 16) % 16) (omega arith),
  digit_value-hex_digit (b % 16) (omega arith),
  joined b h,
)

decode_encoded :
    (b : ℕ) (rest : Text)
    → b < 256
    → decode_path_segment (37 ∷ hex_digit 65 ((b / 16) % 16) ∷ hex_digit 65 (b % 16) ∷ rest)
      ≡ b ∷ decode_path_segment rest
unfolding decode_path_segment
decode_encoded b rest h = ap (λ x. x ∷ decode_path_segment rest) (byte_of_digits b h)

-- Decoding gives the text back, whatever bytes it has, so that different session ids have different
-- paths.
pub decode-encode_path_segment :
    (text : Text) → All (λ b. b < 256) text → decode_path_segment (encode_path_segment text) ≡ text
unfolding decode_path_segment encode_path_segment
decode-encode_path_segment [] h = refl
decode-encode_path_segment (b ∷ bs) (small, h) =
    let rest : decode_path_segment (encode_path_segment bs) ≡ bs =
      decode-encode_path_segment bs h in
    if_cases (λ t. decode_path_segment t ≡ b ∷ bs) (is_unreserved b) _ _
      (λ e. decode_plain b (encode_path_segment bs) (not_percent b e) ∙ ap (λ t. b ∷ t) rest)
      (λ _. decode_encoded b (encode_path_segment bs) small ∙ ap (λ t. b ∷ t) rest)
