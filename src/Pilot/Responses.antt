-- ===== src/Pilot/Responses.antt =====
-- The responses that src/pilot/pilot_contract_codec.cpp reads. `boost::json::parse` is a parameter.
pub mod Registration
pub mod Documents
use nodus_vision.Prelude.{
  ℕ, ◌^◌, ◌-◌, Bool, true, false, ◌||◌, ◌&&◌, not, Option, none, some, List, [], ◌∷◌, ◌++◌, Text,
  bytes, text_eq, ltb, leb, ◌==◌, if◌then◌else◌,
}
use nodus_vision.Prelude.Int.{ℤ, pos, negsuc}
use nodus_vision.Prelude.Json.{
  Json, null, boolean, unsigned, signed, string, array, object, Items, no_items, item, Members,
  if_contains, size,
}
use nodus_vision.Prelude.Result.{Result, ok, err, invalid_argument, throw_if, ◌>>=◌, ◌>>◌}
use nodus_vision.Pilot.{
  PilotRegistrationResponse, PilotCatalogAcceptedResponse, PilotLifecycleAcceptedResponse,
}
use nodus_vision.Pilot.Identifiers.{validate_identifier}
use nodus_vision.Pilot.Codec.{max_int64}

in_public_range : Text → ℕ → Result ℕ
in_public_range key value =
    if ltb max_int64 value
    then err (invalid_argument (key ++ bytes " exceeds the public integer range."))
    else ok value

-- The member that `if_contains` found.
non_negative_integer : Text → Option Json → Result ℕ
unfolding in_public_range
non_negative_integer key (some (signed (pos n))) = in_public_range key n
non_negative_integer key (some (signed (negsuc n))) =
    err (invalid_argument (key ++ bytes " must be non-negative."))
non_negative_integer key (some (unsigned n)) = in_public_range key n
non_negative_integer key _ =
    err (invalid_argument (key ++ bytes " must be a non-negative integer."))

unfoldable pub require_non_negative_integer : Members → Text → Result ℕ
unfolding if_contains non_negative_integer
require_non_negative_integer fields key = non_negative_integer key (if_contains fields key)

identifier : Text → Option Json → Result Text
unfolding validate_identifier
identifier key (some (string value)) = do validate_identifier value key; ok value
identifier key _ = err (invalid_argument (key ++ bytes " must be an identifier."))

unfoldable pub require_identifier : Members → Text → Result Text
unfolding if_contains identifier
require_identifier fields key = identifier key (if_contains fields key)

-- `error || !value.is_object()`
unfoldable pub as_response_object : Text → Option Json → Result Members
as_response_object message (some (object fields)) = ok fields
as_response_object message _ = err (invalid_argument message)

abbrev invalid_versions : {A : Type 0} → Result A
invalid_versions = err (invalid_argument (bytes "Pilot accepted schema versions are invalid."))

version_number : Json → Result ℕ
version_number (signed (pos n)) = if ltb 16 n then invalid_versions else ok n
version_number (unsigned n) = if ltb 16 n then invalid_versions else ok n
version_number _ = invalid_versions

-- The loop: whether version 1 is one of them.
accepts_schema_one : Items → Result Bool
unfolding version_number
accepts_schema_one no_items = ok false
accepts_schema_one (item version rest) = do
  numeric_version ← version_number version
  others ← accepts_schema_one rest
  ok ((numeric_version == 1) || others)

accepted_versions : Option Json → Result Bool
unfolding accepts_schema_one
accepted_versions (some (array (item version rest))) = accepts_schema_one (item version rest)
accepted_versions _ = invalid_versions

unfoldable pub require_schema_versions : Members → Result Bool
unfolding if_contains accepted_versions
require_schema_versions fields =
    accepted_versions (if_contains fields (bytes "accepted_schema_versions"))

unfoldable pub read_registration : Members → Result PilotRegistrationResponse
unfolding size require_non_negative_integer require_schema_versions require_identifier
read_registration fields = do
  throw_if (not (size fields == 7))
      (invalid_argument (bytes "Pilot registration response has unknown or missing fields."))
  protocol ← require_non_negative_integer fields (bytes "accepted_protocol_version")
  throw_if (not (protocol == 1))
      (invalid_argument (bytes "Pilot did not accept protocol version 1."))
  accepted_schema_one ← require_schema_versions fields
  session_id ← require_identifier fields (bytes "session_id")
  server_instance_id ← require_identifier fields (bytes "server_instance_id")
  heartbeat ← require_non_negative_integer fields (bytes "heartbeat_interval_ms")
  lease ← require_non_negative_integer fields (bytes "lease_timeout_ms")
  server_time ← require_non_negative_integer fields (bytes "server_time")
  throw_if (not accepted_schema_one || ((heartbeat == 0) || ((lease == 0) || leb lease heartbeat)))
      (invalid_argument (bytes "Pilot registration response has an invalid lease configuration."))
  ok (record {
    session_id = session_id;
    server_instance_id = server_instance_id;
    heartbeat_interval_ms = heartbeat;
    lease_timeout_ms = lease;
    server_time_ns = server_time;
  })

unfoldable pub parse_registration_response :
    (Text → Option Json) → Text → Result PilotRegistrationResponse
unfolding as_response_object read_registration
parse_registration_response parse response_body = do
  fields ←
      as_response_object (bytes "Pilot registration response must be a JSON object.")
        (parse response_body)
  read_registration fields

-- `object.if_contains("status") && object.at("status") == "accepted"`
unfoldable pub is_accepted : Option Json → Bool
is_accepted (some (string status)) = text_eq status (bytes "accepted")
is_accepted _ = false

-- `static_cast<std::uint64_t>` of an `int`.
abbrev to_uint64 : ℤ → ℕ
to_uint64 (pos n) = n
to_uint64 (negsuc n) = 2 ^ 64 - 1 - n

unfoldable pub read_catalog_accepted :
    Members → Text → Text → ℤ → Result PilotCatalogAcceptedResponse
unfolding if_contains size is_accepted require_identifier require_non_negative_integer
read_catalog_accepted fields component_id server_instance_id descriptor_count = do
  throw_if (not (size fields == 7) || not (is_accepted (if_contains fields (bytes "status"))))
      (invalid_argument (bytes "Pilot catalog response is invalid."))
  parsed_server ← require_identifier fields (bytes "server_instance_id")
  parsed_component ← require_identifier fields (bytes "component_id")
  catalog_generation ← require_non_negative_integer fields (bytes "catalog_generation")
  parsed_count ← require_non_negative_integer fields (bytes "descriptor_count")
  session_generation ← require_non_negative_integer fields (bytes "session_generation")
  catalog_revision ← require_non_negative_integer fields (bytes "catalog_revision")
  throw_if
      (not (text_eq parsed_component component_id)
        || (not (text_eq parsed_server server_instance_id)
            || ((catalog_generation == 0)
                || ((session_generation == 0)
                    || ((catalog_revision == 0)
                        || not (parsed_count == to_uint64 descriptor_count))))))
      (invalid_argument (bytes "Pilot catalog response does not match the publication."))
  ok (record {
    server_instance_id = parsed_server;
    component_id = parsed_component;
    catalog_generation = catalog_generation;
    descriptor_count = descriptor_count;
  })

unfoldable pub parse_catalog_accepted_response :
    (Text → Option Json) → Text → Text → Text → ℤ → Result PilotCatalogAcceptedResponse
unfolding as_response_object read_catalog_accepted
parse_catalog_accepted_response parse body component_id server_instance_id descriptor_count = do
  fields ← as_response_object (bytes "Pilot catalog response must be a JSON object.") (parse body)
  read_catalog_accepted fields component_id server_instance_id descriptor_count

-- Each of the keys has a value of a kind.
require_all : (Option Json → Bool) → Text → Members → List Text → Result (Unit {0})
unfolding if_contains
require_all is_kind message fields [] = ok tt
require_all is_kind message fields (key ∷ keys) = do
  throw_if (not (is_kind (if_contains fields key))) (invalid_argument message)
  require_all is_kind message fields keys

is_flag : Option Json → Bool
is_flag (some (boolean b)) = true
is_flag _ = false

is_null_or_object : Option Json → Bool
is_null_or_object (some null) = true
is_null_or_object (some (object fields)) = true
is_null_or_object _ = false

all_strings : Items → Bool
all_strings no_items = true
all_strings (item (string s) rest) = all_strings rest
all_strings (item _ rest) = false

check_reasons : Option Json → Result (Unit {0})
unfolding all_strings
check_reasons (some (array reasons)) =
    throw_if (not (all_strings reasons))
      (invalid_argument (bytes "Pilot lifecycle degraded reason is invalid."))
check_reasons _ = err (invalid_argument (bytes "Pilot lifecycle degraded reasons are invalid."))

unfoldable pub check_readiness : Members → Result (Unit {0})
unfolding size if_contains require_all is_flag check_reasons
check_readiness readiness = do
  throw_if (not (size readiness == 7))
      (invalid_argument (bytes "Pilot lifecycle readiness has unknown or missing fields."))
  require_all is_flag (bytes "Pilot lifecycle readiness flag is invalid.") readiness (
      bytes "api_ready"
      ∷ bytes "control_connected"
      ∷ bytes "component_registry_ready"
      ∷ bytes "active_source_ready"
      ∷ bytes "required_observations_ready"
      ∷ bytes "command_forwarding_enabled"
      ∷ [])
  check_reasons (if_contains readiness (bytes "degraded_reasons"))

unfoldable pub check_control : Members → Result (Unit {0})
unfolding size require_all is_null_or_object
check_control control = do
  throw_if (not (size control == 5))
      (invalid_argument (bytes "Pilot lifecycle control has unknown or missing fields."))
  require_all is_null_or_object (bytes "Pilot lifecycle control projection is invalid.") control (
      bytes "gateway"
      ∷ bytes "robot_state"
      ∷ bytes "status"
      ∷ bytes "last_delivery"
      ∷ bytes "last_external_operation"
      ∷ [])

-- `readiness`, `components` and `control` of a snapshot.
check_shape : Option Json → Option Json → Option Json → Result (Unit {0})
unfolding check_readiness check_control
check_shape (some (object readiness)) (some (array components)) (some (object control)) = do
  check_readiness readiness
  check_control control
check_shape _ _ _ = err (invalid_argument (bytes "Pilot lifecycle snapshot shape is invalid."))

unfoldable pub read_snapshot : Members → Result PilotLifecycleAcceptedResponse
unfolding size if_contains require_identifier require_non_negative_integer check_shape
read_snapshot snapshot = do
  throw_if (not (size snapshot == 6))
      (invalid_argument (bytes "Pilot lifecycle snapshot has unknown or missing fields."))
  server_instance_id ← require_identifier snapshot (bytes "server_instance_id")
  require_non_negative_integer snapshot (bytes "revision")
  require_non_negative_integer snapshot (bytes "created_at_ns")
  check_shape (if_contains snapshot (bytes "readiness")) (if_contains snapshot (bytes "components"))
      (if_contains snapshot (bytes "control"))
  ok (record { server_instance_id = server_instance_id })

unfoldable pub parse_lifecycle_accepted_response :
    (Text → Option Json) → Text → Result PilotLifecycleAcceptedResponse
unfolding as_response_object size if_contains is_accepted read_snapshot
parse_lifecycle_accepted_response parse response_body = do
  fields ←
      as_response_object (bytes "Pilot lifecycle response must be a JSON object.")
        (parse response_body)
  throw_if (not (size fields == 2) || not (is_accepted (if_contains fields (bytes "status"))))
      (invalid_argument (bytes "Pilot lifecycle response is not accepted."))
  snapshot ←
      as_response_object (bytes "Pilot lifecycle response has no snapshot.")
        (if_contains fields (bytes "snapshot"))
  read_snapshot snapshot
