-- ===== src/Pilot/Responses/Documents.antt =====
-- The registration response as a server writes it, and what src/pilot/pilot_contract_codec.cpp reads
-- of it.
use nodus_vision.Prelude.{
  ℕ, ◌^◌, ◌≤◌, ◌<◌, ◌≡◌, refl, false, ◌||◌, Option, some, [], ◌∷◌, Text, bytes, text_eq, length,
  ltb, leb, ◌==◌, arith,
}
use nodus_vision.Prelude.Int.{pos}
use nodus_vision.Prelude.Json.{
  Json, signed, string, array, object, no_items, item, no_members, member, if_contains, size,
}
use nodus_vision.Prelude.Result.{ok}
use nodus_vision.Pilot.{PilotRegistrationResponse}
use nodus_vision.Pilot.Identifiers.{validate_identifier}
use nodus_vision.Pilot.Responses.{
  in_public_range, non_negative_integer, require_non_negative_integer, identifier,
  require_identifier, as_response_object, require_schema_versions, read_registration,
  parse_registration_response,
}
use nodus_vision.Pilot.Responses.Registration.{IsIdentifier, IsRegistration}

-- The seven members, here in the order of the reads. `boost::json::parse` makes a signed number of
-- every integer below 2^63.
unfoldable pub registration_document : PilotRegistrationResponse → Json
registration_document r = object (
    member (bytes "accepted_protocol_version") (signed (pos 1)) (
      member (bytes "accepted_schema_versions") (array (item (signed (pos 1)) no_items)) (
        member (bytes "session_id") (string r.session_id) (
          member (bytes "server_instance_id") (string r.server_instance_id) (
            member (bytes "heartbeat_interval_ms") (signed (pos r.heartbeat_interval_ms)) (
              member (bytes "lease_timeout_ms") (signed (pos r.lease_timeout_ms))
                (member (bytes "server_time") (signed (pos r.server_time_ns)) no_members)))))))

fits : (n : ℕ) → n ≤ 128 → ltb 128 n ≡ false
fits n h = ground arith

identifier-accepts : (key s : Text) → IsIdentifier s → identifier key (some (string s)) ≡ ok s
unfolding identifier validate_identifier
identifier-accepts key [] (given, short) = absurd (given refl)
identifier-accepts key (b ∷ bs) (given, short) = rw (fits (length (b ∷ bs)) short)

integer-accepts :
    (key : Text) (n : ℕ) → n < 2 ^ 63 → non_negative_integer key (some (signed (pos n))) ≡ ok n
unfolding non_negative_integer in_public_range
integer-accepts key n h = ground arith

lease_accepted :
    (heartbeat lease : ℕ)
    → 1 ≤ heartbeat
    → heartbeat < lease
    → (heartbeat == 0) || ((lease == 0) || leb lease heartbeat) ≡ false
lease_accepted heartbeat lease h k = ground arith

-- A document of the seven members, its numbers signed as a JSON parser makes them, is read back as
-- the response it was written for, where that satisfies the conditions of a registration.
pub parse_registration_response-registration_document :
    (parse : Text → Option Json) (body : Text) (r : PilotRegistrationResponse)
    → IsRegistration r
    → parse body ≡ some (registration_document r)
    → parse_registration_response parse body ≡ ok r
unfolding parse_registration_response as_response_object registration_document read_registration
    bytes text_eq size if_contains require_identifier require_non_negative_integer
    require_schema_versions
parse_registration_response-registration_document parse body r
      (session, server, positive, less, lease, time) e =
    rw (
      e,
      identifier-accepts (bytes "session_id") r.session_id session,
      identifier-accepts (bytes "server_instance_id") r.server_instance_id server,
      integer-accepts (bytes "heartbeat_interval_ms") r.heartbeat_interval_ms
          (omega (arith, less, lease)),
      integer-accepts (bytes "lease_timeout_ms") r.lease_timeout_ms lease,
      integer-accepts (bytes "server_time") r.server_time_ns time,
      lease_accepted r.heartbeat_interval_ms r.lease_timeout_ms positive less,
    )
