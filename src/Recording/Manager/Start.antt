-- ===== src/Recording/Manager/Start.antt =====
-- `startOrReplay` of src/recording/recording_manager.cpp. The lock is held through the whole call,
-- the join of the last worker included.
use nodus_vision.Prelude.{
  ◌+◌, ◌*◌, true, false, not, ◌&&◌, Option, none, some, String, Text, bytes, [], text_eq, ltb,
  if◌then◌else◌,
}
use nodus_vision.Prelude.Int.{pos, pos_part}
use nodus_vision.Prelude.Result.{ok, err, runtime_error}
use nodus_vision.Recording.Contracts.{
  RecordingState, RecordingStopReason, RecordingStartRequest, serialize_recording_start_request,
}
use nodus_vision.Recording.Queue.{cleared, capacity}
use nodus_vision.Recording.Sidecar.{open_sidecar}
use nodus_vision.Recording.Manager.State.{
  RecordingManagerConfig, RecordingArtifactPaths, PersistedRecordingArtifact,
  ColorVideoWriterConfig, Parts, Ambient, Worker, RecordingStartResult, Manager, returned, thrown,
  Act, ◌>>=◌, ◌>>◌, pure, get, modify, from_result, on_disk, or_rethrow, fault,
}
use nodus_vision.Recording.Manager.Setup.{is_active, join_worker, restore_persisted_artifact}

abbrev pub no_space : String
no_space = "Recording root does not satisfy the configured free-space reserve."

-- `std::filesystem::space` against the configured reserve.
unfoldable pub require_free_space : {P : Parts} → Act P (Unit {0})
require_free_space {P} m = elim (P.available_space m.disk) [
  | none ↦ (thrown (runtime_error (bytes no_space)), m)
  | some available ↦
      if ltb available m.config.minimum_free_bytes
      then (thrown (runtime_error (bytes no_space)), m)
      else (returned tt, m)
]

unfoldable pub writer_config :
    Parts → RecordingArtifactPaths → RecordingManagerConfig → ColorVideoWriterConfig
writer_config P paths c = record {
  output_path = P.path_append paths.staging_directory (bytes "color.mp4");
  width = c.width;
  height = c.height;
  fps = c.fps;
  bit_rate_bps = c.bit_rate_bps;
  preset = c.preset;
  tune = c.tune;
}

unfoldable pub open_outputs :
    {P : Parts} → RecordingStartRequest → RecordingArtifactPaths → Ambient → Act P (Unit {0})
unfolding writer_config
open_outputs {P} request paths env = do
  m ← get
  writer ← on_disk (P.open_writer (writer_config P paths m.config))
  modify (λ n. record n { writer = some writer })
  sidecar ← from_result (
      open_sidecar request.recording_id m.config.sensor_frame m.config.calibration_id
        env.sidecar_opens)
  modify (λ n. record n { sidecar = some sidecar })

-- The members that `startOrReplay` sets once the outputs are open.
unfoldable pub begin_recording :
    {P : Parts} → RecordingStartRequest → Text → Ambient → Manager P → Manager P
begin_recording request canonical env m = record m {
  recording_id = request.recording_id;
  start_request_id = request.request_id;
  start_canonical = canonical;
  admitted_frame_count = 0;
  submitted_frame_count = 0;
  recording_drop_count = 0;
  contention_drop_count = 0;
  queue = cleared (capacity m.queue);
  stop_requested = false;
  stop_request_id = [];
  stop_canonical = [];
  stop_reason = RecordingStopReason.application_shutdown;
  has_identity = false;
  started_monotonic_ns = env.monotonic_now_ns;
  started_unix_epoch_ns = env.unix_now_ns;
  stopped_monotonic_ns = pos 0;
  stopped_unix_epoch_ns = pos 0;
  duration_deadline = env.steady_now 0 + pos_part m.config.max_duration_ms * 1_000_000;
}

-- `m_worker = std::thread(...)` and the last two members.
unfoldable pub start_worker : {P : Parts} → Ambient → Act P RecordingStartResult
start_worker env = do
  from_result env.thread_start
  modify (λ m. record m {
    worker = Worker.at_loop;
    state = RecordingState.recording;
    admitting = true;
  })
  pure RecordingStartResult.started

-- The `try` block.
unfoldable pub prepare :
    {P : Parts} → RecordingStartRequest → Text → Ambient → Act P RecordingStartResult
unfolding require_free_space open_outputs begin_recording start_worker
prepare {P} request canonical env = do
  on_disk P.initialize
  require_free_space
  paths ← on_disk (P.create_staging request)
  modify (λ m. record m { artifact_paths = paths })
  open_outputs request paths env
  modify (begin_recording request canonical env)
  start_worker env

unfoldable pub start_new :
    {P : Parts} → RecordingStartRequest → Text → Ambient → Act P RecordingStartResult
unfolding prepare
start_new request canonical env m =
    or_rethrow (prepare request canonical env) fault (record m { state = RecordingState.preparing })

unfoldable pub start_persisted :
    {P : Parts}
    → Option PersistedRecordingArtifact
    → RecordingStartRequest
    → Text
    → Ambient
    → Act P RecordingStartResult
unfolding start_new restore_persisted_artifact
start_persisted none request canonical env m = start_new request canonical env m
start_persisted (some artifact) request canonical env m =
    if not (text_eq artifact.start_request canonical)
    then (
      thrown
          (runtime_error (bytes "Recording identity exists with different start request content.")),
      m,
    )
    else (
      returned RecordingStartResult.replayed,
      restore_persisted_artifact artifact request canonical m,
    )

unfoldable pub start_canonical_request :
    {P : Parts} → RecordingStartRequest → Text → Ambient → Act P RecordingStartResult
unfolding start_persisted join_worker
start_canonical_request {P} request canonical env m =
    if text_eq request.recording_id m.recording_id && text_eq request.request_id m.start_request_id
    then (if text_eq canonical m.start_canonical
        then (returned RecordingStartResult.replayed, m)
        else (
          thrown (runtime_error (bytes "Recording request ID was reused with different content.")),
          m,
        ))
    else if is_active m.state
    then (thrown (runtime_error (bytes "A recording is already active.")), m)
    else (join_worker >>= λ _ m'. (elim (P.find_persisted_artifact request.recording_id m'.disk) [
      | err e ↦ (thrown e, m')
      | ok persisted ↦ start_persisted persisted request canonical env m'
    ]))
        m

-- `startOrReplay`
unfoldable pub start_or_replay :
    {P : Parts} → RecordingStartRequest → Ambient → Act P RecordingStartResult
unfolding start_canonical_request
start_or_replay {P} request env m =
    elim (serialize_recording_start_request P.serialize_object request) [
      | err e ↦ (thrown e, m)
      | ok canonical ↦ start_canonical_request request canonical env m
    ]
