-- ===== src/Pilot/Codec.antt =====
-- The requests of src/pilot/pilot_contract_codec.cpp, up to `boost::json::serialize`: a document is
-- a value.
use nodus_vision.Prelude.{
  ℕ, ◌^◌, ◌-◌, Bool, true, false, ◌||◌, ◌&&◌, not, List, [], ◌∷◌, Text, bytes, text_eq, is_empty,
  length, ltb, ◌==◌, if◌then◌else◌, any,
}
use nodus_vision.Prelude.Int.{pos}
use nodus_vision.Prelude.Json.{
  Json, null, unsigned, signed, string, array, object, Items, no_items, item, Members, no_members,
  member,
}
use nodus_vision.Prelude.Result.{Result, ok, invalid_argument, throw_if, ◌>>=◌, ◌>>◌}
use nodus_vision.Pilot.{
  PilotCommonState, PilotServiceContract, PilotStreamContract, PilotEndpointDescriptor,
  PilotRegistrationRequest,
}
use nodus_vision.Pilot.Identifiers.{text_less, validate_identifier, is_instance_id_valid}

-- `MAX_INT64_VALUE`
abbrev pub max_int64 : ℕ
max_int64 = 2 ^ 63 - 1

abbrev public_health : List Text
public_health =
    bytes "starting" ∷ bytes "ready" ∷ bytes "degraded" ∷ bytes "faulted" ∷ bytes "stopping" ∷ []

-- A value that is null where the text is empty.
abbrev optional_string : Text → Json
optional_string s = if is_empty s then null else string s

unfoldable pub serialize_common_state : PilotCommonState → Result Members
serialize_common_state state = do
  throw_if (not (any (text_eq state.health) public_health))
      (invalid_argument (bytes "Pilot health must be a public CommonState value."))
  throw_if (ltb 256 (length state.reason))
      (invalid_argument (bytes "Pilot state reason exceeds the public bound."))
  ok (
      member (bytes "health") (string state.health) (
        member (bytes "reason") (optional_string state.reason)
          (member (bytes "details") (object state.details) no_members)))

unfoldable pub is_descriptor_incomplete : PilotEndpointDescriptor → Bool
is_descriptor_incomplete d =
    (d.contract_version == 0)
    || (ltb max_int64 d.contract_version
        || (is_empty d.endpoint || (is_empty d.media_type || is_empty d.schema_id)))

serialize_service : PilotServiceContract → Json
serialize_service service = object (
    member (bytes "method") (string service.method) (
      member (bytes "request_schema_id") (optional_string service.request_schema_id) (
        member (bytes "response_schema_id") (optional_string service.response_schema_id)
          no_members)))

serialize_stream : PilotStreamContract → Json
serialize_stream stream = object (
    member (bytes "clock_domain") (string stream.clock_domain)
      (member (bytes "stream_group_id") (optional_string stream.stream_group_id) no_members))

-- The last two members of a descriptor.
serialize_contract : PilotEndpointDescriptor → Members
unfolding serialize_service serialize_stream
serialize_contract d =
    if d.is_stream
    then member (bytes "service") null
        (member (bytes "stream") (serialize_stream d.stream) no_members)
    else member (bytes "service") (serialize_service d.service)
        (member (bytes "stream") null no_members)

unfoldable pub serialize_descriptor : PilotEndpointDescriptor → Result Members
unfolding validate_identifier is_descriptor_incomplete serialize_contract
serialize_descriptor d = do
  validate_identifier d.descriptor_id (bytes "descriptor_id")
  validate_identifier d.capability (bytes "capability")
  throw_if (is_descriptor_incomplete d)
      (invalid_argument (bytes "Pilot endpoint descriptor is incomplete."))
  ok (
      member (bytes "descriptor_id") (string d.descriptor_id) (
        member (bytes "kind") (string (if d.is_stream then bytes "stream" else bytes "service")) (
          member (bytes "capability") (string d.capability) (
            member (bytes "contract_version") (unsigned d.contract_version) (
              member (bytes "protocol") (string (bytes "http")) (
                member (bytes "endpoint") (string d.endpoint) (
                  member (bytes "media_type") (string d.media_type) (
                    member (bytes "schema_id") (string d.schema_id)
                      (member (bytes "metadata") (object d.metadata) (serialize_contract d))))))))))

-- `std::is_sorted`, and no two neighbours equal.
unfoldable pub is_sorted : List Text → Bool
unfolding text_less
is_sorted [] = true
is_sorted (x ∷ []) = true
is_sorted (x ∷ y ∷ rest) = not (text_less y x) && is_sorted (y ∷ rest)

unfoldable pub has_adjacent_equal : List Text → Bool
has_adjacent_equal [] = false
has_adjacent_equal (x ∷ []) = false
has_adjacent_equal (x ∷ y ∷ rest) = text_eq x y || has_adjacent_equal (y ∷ rest)

unfoldable pub serialize_capabilities : List Text → Result Items
unfolding validate_identifier
serialize_capabilities [] = ok no_items
serialize_capabilities (capability ∷ rest) = do
  validate_identifier capability (bytes "capability")
  values ← serialize_capabilities rest
  ok (item (string capability) values)

unfoldable pub serialize_registration_request : PilotRegistrationRequest → Result Json
unfolding validate_identifier is_instance_id_valid is_sorted has_adjacent_equal
    serialize_capabilities serialize_common_state
serialize_registration_request request = do
  validate_identifier request.component_id (bytes "component_id")
  throw_if
      (not (is_instance_id_valid request.instance_id)
        || not (text_eq request.clock_domain (bytes "monotonic_same_host")))
      (invalid_argument (bytes "Pilot registration identity or clock domain is invalid."))
  throw_if (not (is_sorted request.capabilities) || has_adjacent_equal request.capabilities)
      (invalid_argument (bytes "Pilot registration capabilities must be stable sorted and unique."))
  capabilities ← serialize_capabilities request.capabilities
  initial_state ← serialize_common_state request.initial_state
  ok (
      object (
        member (bytes "component_id") (string request.component_id) (
          member (bytes "instance_id") (string request.instance_id) (
            member (bytes "component_type") (string (bytes "camera")) (
              member (bytes "protocol_version") (signed (pos 1)) (
                member (bytes "supported_schema_versions") (array (item (signed (pos 1)) no_items))
                  (member (bytes "capabilities") (array capabilities) (
                    member (bytes "service_endpoints") (object no_members) (
                      member (bytes "initial_state") (object initial_state) (
                        member (bytes "started_at") (unsigned request.started_at_ns) (
                          member (bytes "metadata") (object request.metadata) (
                            member (bytes "clock_domain") (string request.clock_domain)
                              no_members))))))))))))

-- The loop over the descriptors.
unfoldable pub serialize_descriptors : Text → List PilotEndpointDescriptor → Result Items
unfolding text_less serialize_descriptor
serialize_descriptors previous_id [] = ok no_items
serialize_descriptors previous_id (d ∷ rest) = do
  throw_if (not (is_empty previous_id) && not (text_less previous_id d.descriptor_id))
      (invalid_argument (bytes "Pilot catalog descriptors must be stable sorted and unique."))
  value ← serialize_descriptor d
  values ← serialize_descriptors d.descriptor_id rest
  ok (item (object value) values)

unfoldable pub serialize_catalog_publication_request :
    Text → ℕ → List PilotEndpointDescriptor → Result Json
unfolding validate_identifier serialize_descriptors
serialize_catalog_publication_request publication_id expected_catalog_generation descriptors = do
  validate_identifier publication_id (bytes "publication_id")
  throw_if (ltb max_int64 expected_catalog_generation)
      (invalid_argument (bytes "Expected catalog generation exceeds the public range."))
  values ← serialize_descriptors [] descriptors
  ok (
      object (
        member (bytes "schema_version") (signed (pos 1)) (
          member (bytes "publication_id") (string publication_id) (
            member (bytes "expected_catalog_generation") (unsigned expected_catalog_generation)
              (member (bytes "descriptors") (array values) no_members)))))

unfoldable pub serialize_heartbeat_request : ℕ → Result Json
serialize_heartbeat_request sequence = do
  throw_if (ltb max_int64 sequence)
      (invalid_argument (bytes "Heartbeat sequence exceeds the public range."))
  ok (object (member (bytes "sequence") (unsigned sequence) no_members))

unfoldable pub serialize_state_update_request : ℕ → PilotCommonState → Result Json
unfolding serialize_common_state
serialize_state_update_request sequence state = do
  throw_if (ltb max_int64 sequence)
      (invalid_argument (bytes "State sequence exceeds the public range."))
  serialized ← serialize_common_state state
  ok (
      object (
        member (bytes "sequence") (unsigned sequence)
          (member (bytes "state") (object serialized) no_members)))

unfoldable pub serialize_disconnect_request : Text
serialize_disconnect_request = bytes "{}"
