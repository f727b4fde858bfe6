-- ===== src/Recording/Contracts.antt =====
-- src/recording/recording_contracts.hpp and .cpp: the identities of a recording and its requests.
-- `boost::json::serialize` is the parameter `serialize_object`, a function of the members.
pub mod Identity
use nodus_vision.Prelude.{
  ℕ, ◌+◌, Bool, true, false, not, ◌&&◌, ◌||◌, List, [], ◌∷◌, Text, bytes, text_eq, is_empty, length,
  ltb, leb, ◌==◌, if◌then◌else◌,
}
use nodus_vision.Prelude.Result.{Result, ok, err, Exception, invalid_argument}

pub data RecordingState : Type 0 where
  disabled idle preparing recording finalizing finalized faulted : RecordingState

pub data RecordingStopReason : Type 0 where
  requested max_duration application_shutdown : RecordingStopReason

pub record RecordingStartRequest : Type 0 where
  pub request_id : Text
  pub recording_id : Text
  pub canonical_json : Text

pub is_lowercase_alphanumeric : ℕ → Bool
is_lowercase_alphanumeric character =
    (leb b'a' character && leb character b'z') || (leb b'0' character && leb character b'9')

pub is_permitted_suffix : ℕ → Bool
is_permitted_suffix character = character == b'.' || (character == b'_' || character == b'-')

-- The loop over the characters from `index` on.
recording_id_loop : ℕ → Text → Bool
unfolding is_lowercase_alphanumeric is_permitted_suffix
recording_id_loop index [] = true
recording_id_loop index (character ∷ rest) =
    let later = recording_id_loop (index + 1) rest in
    if (not (is_lowercase_alphanumeric character) && not (is_permitted_suffix character))
      || (index == 0 && not (is_lowercase_alphanumeric character))
    then false
    else later

-- `isRecordingIdValid`
unfoldable pub is_recording_id_valid : Text → Bool
unfolding recording_id_loop
is_recording_id_valid recording_id =
    if is_empty recording_id
      || (ltb 64 (length recording_id)
          || (text_eq recording_id (bytes ".") || text_eq recording_id (bytes "..")))
    then false
    else recording_id_loop 0 recording_id

request_id_loop : Text → Bool
request_id_loop [] = true
request_id_loop (character ∷ rest) =
    if ltb character 0x21 || (ltb 0x7E character || (character == b'/' || character == 0x5C))
    then false
    else request_id_loop rest

-- `isRecordingRequestIdValid`
unfoldable pub is_recording_request_id_valid : Text → Bool
unfolding request_id_loop
is_recording_request_id_valid request_id =
    if is_empty request_id || ltb 128 (length request_id) then false else request_id_loop request_id

-- The member values that the serialised requests have.
pub data Scalar : Type 0 where
  number : ℕ → Scalar
  text : Text → Scalar

-- `serializeRecordingStartRequest`
unfoldable pub serialize_recording_start_request :
    (List (Text × Scalar) → Text) → RecordingStartRequest → Result Text
serialize_recording_start_request serialize_object request =
    if not (is_recording_request_id_valid request.request_id)
      || not (is_recording_id_valid request.recording_id)
    then err (invalid_argument (bytes "Recording start request has an unsafe identity."))
    else if not (is_empty request.canonical_json)
    then ok request.canonical_json
    else ok (
        serialize_object (
          (bytes "schema_version", number 1)
          ∷ (bytes "request_id", text request.request_id)
          ∷ (bytes "recording_id", text request.recording_id)
          ∷ []))

-- `getRecordingStopReasonName`
pub recording_stop_reason_name : RecordingStopReason → Text
recording_stop_reason_name RecordingStopReason.requested = bytes "requested"
recording_stop_reason_name RecordingStopReason.max_duration = bytes "max_duration"
recording_stop_reason_name RecordingStopReason.application_shutdown = bytes "application_shutdown"
