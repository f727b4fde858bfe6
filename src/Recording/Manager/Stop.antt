-- ===== src/Recording/Manager/Stop.antt =====
-- How a recording is closed: `beginFinalizationLocked`, `finalizeOrReplay` and `finalize` of
-- src/recording/recording_manager.cpp. `finalize` is two calls here, since it gives the lock up before
-- it joins the worker.
use nodus_vision.Prelude.{
  ◌+◌, ◌*◌, Bool, true, false, not, ◌&&◌, ◌||◌, Option, none, some, String, Text, bytes, [], ◌++◌,
  text_eq, is_empty, leb, if◌then◌else◌,
}
use nodus_vision.Prelude.Int.{pos_part}
use nodus_vision.Prelude.Result.{ok, err, invalid_argument, runtime_error, recording_not_found}
use nodus_vision.Recording.Contracts.{
  RecordingState, RecordingStopReason, RecordingStartRequest, is_recording_id_valid,
  is_recording_request_id_valid, recording_stop_reason_name,
}
use nodus_vision.Recording.Manager.State.{
  PersistedRecordingArtifact, Parts, Ambient, RecordingStopResult, Manager, returned, thrown, Act,
  ◌>>=◌, ◌>>◌, pure, throw_when, get, modify, on_disk, or_rethrow,
}
use nodus_vision.Recording.Manager.Setup.{join_worker, restore_persisted_artifact}

-- `serializeInternalStopEvidence`
unfoldable pub serialize_internal_stop_evidence : Text → RecordingStopReason → Text
serialize_internal_stop_evidence recording_id reason =
    bytes "{\"schema_version\":1,\"recording_id\":\""
    ++ (recording_id
        ++ (bytes "\",\"stop_reason\":\"" ++ (recording_stop_reason_name reason ++ bytes "\"}")))

abbrev stop_timeout : String
stop_timeout = "Recording stop evidence exceeded its configured finalize timeout."

-- The `try` block of `beginFinalizationLocked`; the clock is read a second time after the write.
unfoldable pub write_evidence :
    {P : Parts} → RecordingStopReason → Text → Text → Text → Ambient → Act P (Unit {0})
write_evidence {P} reason stop_evidence stop_request_id stop_canonical env = do
  m ← get
  on_disk (P.write_stop_request m.artifact_paths stop_evidence)
  throw_when (leb m.finalize_deadline (env.steady_now 1)) (runtime_error (bytes stop_timeout))
  modify (λ n. record n {
    stop_reason = reason;
    stop_request_id = stop_request_id;
    stop_canonical = stop_canonical;
  })

-- `beginFinalizationLocked`
unfoldable pub begin_finalization :
    {P : Parts} → RecordingStopReason → Text → Text → Text → Ambient → Act P (Unit {0})
unfolding write_evidence
begin_finalization reason stop_evidence stop_request_id stop_canonical env m =
    or_rethrow (write_evidence reason stop_evidence stop_request_id stop_canonical env)
      (λ n. record n { state = RecordingState.faulted })
      (record m {
        state = RecordingState.finalizing;
        admitting = false;
        stop_requested = true;
        finalize_deadline = env.steady_now 0 + pos_part m.config.finalize_timeout_ms * 1_000_000;
      })

-- The document that stands for a request without one.
unfoldable pub canonical_stop : RecordingStartRequest → Text
canonical_stop request =
    if is_empty request.canonical_json
    then bytes "{\"schema_version\":1,\"request_id\":\""
      ++ (request.request_id
          ++ (bytes "\",\"recording_id\":\"" ++ (request.recording_id ++ bytes "\"}")))
    else request.canonical_json

unfoldable pub is_recording : RecordingState → Bool
is_recording RecordingState.recording = true
is_recording _ = false

unfoldable pub is_finalizing : RecordingState → Bool
is_finalizing RecordingState.finalizing = true
is_finalizing _ = false

-- The stop request is the one that the manager has accepted last.
unfoldable pub replay_stop : {P : Parts} → Text → Act P RecordingStopResult
replay_stop canonical m =
    if text_eq canonical m.stop_canonical
    then elim m.state [
      | RecordingState.faulted ↦
          (thrown (runtime_error (bytes "Recording finalization faulted.")), m)
      | RecordingState.finalized ↦ (returned RecordingStopResult.replayed, m)
      | _ ↦ (returned RecordingStopResult.accepted, m)
    ]
    else (
      thrown (runtime_error (bytes "Recording stop request ID was reused with different content.")),
      m,
    )

-- A stop that no evidence answers: it is for the active recording, or for none.
unfoldable pub stop_active :
    {P : Parts} → RecordingStartRequest → Text → Ambient → Act P RecordingStopResult
unfolding is_recording
stop_active request canonical env m =
    if not (text_eq request.recording_id m.recording_id)
    then (thrown (recording_not_found (bytes "Recording is unknown.")), m)
    else if not (is_recording m.state)
    then (thrown (runtime_error (bytes "Recording is not accepting a stop request.")), m)
    else (do
      begin_finalization RecordingStopReason.requested canonical request.request_id canonical env
      pure RecordingStopResult.accepted)
        m

-- The persisted evidence of a finalized recording answers; the manager takes it up if it is free.
unfoldable pub replay_finalized :
    {P : Parts}
    → PersistedRecordingArtifact
    → RecordingStartRequest
    → Text
    → Act P RecordingStopResult
unfolding is_recording is_finalizing restore_persisted_artifact
replay_finalized artifact request canonical m =
    if not (is_recording m.state) && not (is_finalizing m.state)
    then (
      returned RecordingStopResult.replayed,
      record (restore_persisted_artifact artifact request [] m) {
        stop_request_id = request.request_id;
        stop_canonical = canonical;
        stop_reason = RecordingStopReason.requested;
      },
    )
    else (returned RecordingStopResult.replayed, m)

-- The artifact on disk has a stop request.
unfoldable pub stop_persisted :
    {P : Parts}
    → PersistedRecordingArtifact
    → Text
    → RecordingStartRequest
    → Text
    → Ambient
    → Act P RecordingStopResult
unfolding replay_finalized stop_active is_finalizing
stop_persisted artifact stop_request request canonical env m =
    if not (text_eq stop_request canonical)
    then (
      thrown
          (runtime_error (bytes "Recording identity exists with different stop request content.")),
      m,
    )
    else if artifact.finalized
    then replay_finalized artifact request canonical m
    else if not (is_finalizing m.state) || not (text_eq request.recording_id m.recording_id)
    then (thrown (runtime_error (bytes "Persisted recording finalization did not complete.")), m)
    else stop_active request canonical env m

unfoldable pub stop_found :
    {P : Parts}
    → Option PersistedRecordingArtifact
    → RecordingStartRequest
    → Text
    → Ambient
    → Act P RecordingStopResult
unfolding stop_active stop_persisted
stop_found none request canonical env m = stop_active request canonical env m
stop_found (some artifact) request canonical env m = elim artifact.stop_request [
  | none ↦ stop_active request canonical env m
  | some stop_request ↦ stop_persisted artifact stop_request request canonical env m
]

-- `finalizeOrReplay`
unfoldable pub finalize_or_replay :
    {P : Parts} → RecordingStartRequest → Ambient → Act P RecordingStopResult
unfolding replay_stop stop_found
finalize_or_replay {P} request env m =
    if not (is_recording_request_id_valid request.request_id)
      || not (is_recording_id_valid request.recording_id)
    then (thrown (invalid_argument (bytes "Recording stop request has an unsafe identity.")), m)
    else let canonical = canonical_stop request in
      if text_eq request.recording_id m.recording_id && text_eq request.request_id m.stop_request_id
      then replay_stop canonical m
      else elim (P.find_persisted_artifact request.recording_id m.disk) [
        | err e ↦ (thrown e, m)
        | ok persisted ↦ stop_found persisted request canonical env m
      ]

unfoldable pub close_for_shutdown : {P : Parts} → Ambient → Manager P → Manager P
unfolding begin_finalization
close_for_shutdown env m =
    let evidence =
      serialize_internal_stop_evidence m.recording_id RecordingStopReason.application_shutdown in
    let (r, m') =
      begin_finalization RecordingStopReason.application_shutdown evidence [] [] env m in
    elim r [
      | returned _ ↦ m'
      | thrown _ ↦ record m' {
        state = RecordingState.faulted;
        admitting = false;
        stop_requested = true;
      }
      | _ ↦ m'
    ]

-- `finalize` up to the join: the application shuts down. The answer is whether it goes on to join.
unfoldable pub request_shutdown : {P : Parts} → Ambient → Manager P → Bool × Manager P
unfolding close_for_shutdown
request_shutdown env m = elim m.state [
  | RecordingState.disabled ↦ (false, m)
  | RecordingState.idle ↦ (false, m)
  | RecordingState.preparing ↦ (false, m)
  | RecordingState.recording ↦ (true, close_for_shutdown env m)
  | _ ↦ (true, m)
]

-- `finalize`, the join, outside the lock: it waits until the worker has returned.
unfoldable pub shutdown_join : {P : Parts} → Act P (Unit {0})
unfolding join_worker
shutdown_join m = join_worker m
