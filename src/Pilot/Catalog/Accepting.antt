-- ===== src/Pilot/Catalog/Accepting.antt =====
-- What the codec of src/pilot/pilot_contract_codec.cpp asks of a publication.
use nodus_vision.Prelude.{
  ℕ, ◌≡◌, refl, true, false, ◌||◌, List, [], ◌∷◌, ◌++◌, Text, bytes, length, take, ◌-◌, ◌≢◌,
  is_empty, ltb, not, ◌&&◌, ◌≤◌, arith, if_cases,
}
use nodus_vision.Prelude.Json.{object, item}
use nodus_vision.Prelude.Result.{ok, is_ok, seq_ok, not_thrown, bind_ok, two_ok}
use nodus_vision.Pilot.{PilotEndpointDescriptor}
use nodus_vision.Pilot.Identifiers.{text_less, validate_identifier}
use nodus_vision.Pilot.Codec.{
  is_descriptor_incomplete, serialize_descriptor, serialize_descriptors,
  serialize_catalog_publication_request, max_int64,
}
use nodus_vision.Pilot.Catalog.{make_endpoint, ends_with_slash}

-- What the codec asks of a descriptor, and of the descriptors after an id.
abbrev pub Publishable : PilotEndpointDescriptor → Type 0
Publishable d =
    (validate_identifier d.descriptor_id (bytes "descriptor_id") ≡ ok tt)
    × (validate_identifier d.capability (bytes "capability") ≡ ok tt)
    × (is_descriptor_incomplete d ≡ false)

abbrev pub Chain : Text → List PilotEndpointDescriptor → Type 0
Chain previous [] = Unit
Chain previous (d ∷ ds) =
    (not (is_empty previous) && not (text_less previous d.descriptor_id) ≡ false)
    × Publishable d
    × Chain d.descriptor_id ds

Publishable-is_ok :
    (d : PilotEndpointDescriptor) → Publishable d → is_ok (serialize_descriptor d) ≡ true
unfolding serialize_descriptor
Publishable-is_ok d (i, c, e) = rw (i, c, e)

pub Chain-is_ok :
    (previous : Text) (ds : List PilotEndpointDescriptor)
    → Chain previous ds
    → is_ok (serialize_descriptors previous ds) ≡ true
unfolding serialize_descriptors
Chain-is_ok previous [] h = refl
Chain-is_ok previous (d ∷ ds) (sorted, good, rest) = rw (
  sorted,
  two_ok (serialize_descriptor d) (serialize_descriptors d.descriptor_id ds)
      (λ value values. item (object value) values) (Publishable-is_ok d good)
      (Chain-is_ok d.descriptor_id ds rest),
)

append-given : (xs : Text) (b : ℕ) (bs : Text) → is_empty (xs ++ (b ∷ bs)) || false ≡ false
append-given [] b bs = refl
append-given (x ∷ xs) b bs = refl

pub endpoint_given :
    (url : Text) (b : ℕ) (bs : Text) → is_empty (make_endpoint url (b ∷ bs)) || false ≡ false
unfolding make_endpoint
endpoint_given url b bs =
    if_cases (λ t. is_empty t || false ≡ false) (ends_with_slash url) _ _
      (λ _. append-given (take (length url - 1) url) b bs) (λ _. append-given url b bs)

pub identifier_ok :
    (value field : Text) → value ≢ [] → length value ≤ 128 → validate_identifier value field ≡ ok tt
unfolding validate_identifier
identifier_ok [] field given short = absurd (given refl)
identifier_ok (b ∷ bs) field given short = ground arith

pub publication_is_ok :
    (id : Text) (generation : ℕ) (ds : List PilotEndpointDescriptor)
    → validate_identifier id (bytes "publication_id") ≡ ok tt
    → ltb max_int64 generation ≡ false
    → is_ok (serialize_descriptors [] ds) ≡ true
    → is_ok (serialize_catalog_publication_request id generation ds) ≡ true
unfolding serialize_catalog_publication_request
publication_is_ok id generation ds i g h =
    seq_ok _ _ i (seq_ok _ _ (not_thrown _ _ g) (bind_ok (serialize_descriptors [] ds) _ h))
