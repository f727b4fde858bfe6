-- ===== src/Recording/Manager/Finalize.antt =====
-- `requireFinalizeWithinDeadline` and `finalizeArtifacts` of src/recording/recording_manager.cpp: the
-- worker closes, digests and publishes a stopped recording.
use nodus_vision.Prelude.{ℕ, ◌+◌, ◌%◌, ◌^◌, Bool, ◌&&◌, none, some, Text, bytes, leb}
use nodus_vision.Prelude.Result.{Result, Exception, runtime_error}
use nodus_vision.Recording.Contracts.{RecordingState}
use nodus_vision.Recording.Sidecar.{finalize_sidecar}
use nodus_vision.Recording.Manager.State.{
  RecordingArtifactDigest, FinalizedRecordingManifest, Parts, Ambient, Worker, Manager, undefined,
  Act, ◌>>=◌, ◌>>◌, throw_when, get, modify, of_result, from_result, on_disk,
}

abbrev pub timeout_error : Exception
timeout_error = runtime_error (bytes "Recording finalization exceeded its configured timeout.")

unfoldable pub is_past_deadline : {P : Parts} → ℕ → Ambient → Manager P → Bool
is_past_deadline k env m = m.stop_requested && leb m.finalize_deadline (env.steady_now k)

-- `requireFinalizeWithinDeadline`, with the k-th reading of the clock.
unfoldable pub require_finalize_within_deadline : {P : Parts} → ℕ → Ambient → Act P (Unit {0})
unfolding is_past_deadline
require_finalize_within_deadline k env m = throw_when (is_past_deadline k env m) timeout_error m

unfoldable pub make_manifest : {P : Parts} → Manager P → FinalizedRecordingManifest
make_manifest m = record {
  recording_id = m.recording_id;
  component_id = m.config.component_id;
  instance_id = m.config.instance_id;
  device_id = m.config.device_id;
  sensor_frame = m.config.sensor_frame;
  calibration_id = m.config.calibration_id;
  width = m.config.width;
  height = m.config.height;
  fps = m.config.fps;
  started_monotonic_ns = m.started_monotonic_ns;
  started_unix_epoch_ns = m.started_unix_epoch_ns;
  stopped_monotonic_ns = m.stopped_monotonic_ns;
  stopped_unix_epoch_ns = m.stopped_unix_epoch_ns;
  admitted_frame_count = m.admitted_frame_count;
  submitted_frame_count = m.submitted_frame_count;
  recording_drop_count = (m.recording_drop_count + m.contention_drop_count) % 2 ^ 64;
  first_frame = m.first_identity;
  last_frame = m.last_identity;
  has_frames = m.has_identity;
  start_request_id = m.start_request_id;
  stop_request_id = m.stop_request_id;
  stop_reason = m.stop_reason;
}

-- `m_writer->finalize()` and `m_sidecar->finalize()`
unfoldable pub close_video : {P : Parts} → Act P (Unit {0})
close_video {P} m = elim m.writer [
  | none ↦ (undefined, m)
  | some writer ↦
      let (r, writer') = P.finalize_writer writer in
      (of_result r, record m { writer = some writer' })
]

unfoldable pub close_lines : {P : Parts} → Ambient → Act P (Unit {0})
close_lines env m = elim m.sidecar [
  | none ↦ (undefined, m)
  | some sidecar ↦
      let (r, sidecar') = finalize_sidecar sidecar env.stream_takes env.stream_closes in
      (of_result r, record m { sidecar = some sidecar' })
]

-- `finalizeArtifacts`: both files are closed.
unfoldable pub close_files : {P : Parts} → Ambient → Act P (Unit {0})
unfolding require_finalize_within_deadline close_video close_lines
close_files env = do
  require_finalize_within_deadline 0 env
  close_video
  require_finalize_within_deadline 1 env
  close_lines env
  require_finalize_within_deadline 2 env

unfoldable pub digest : {P : Parts} → Text → Manager P → Result RecordingArtifactDigest
digest {P} name m =
    P.calculate_digest m.artifact_paths.staging_directory name m.finalize_deadline m.disk

-- The manifest is written and the directory takes its final name.
unfoldable pub activate :
    {P : Parts}
    → FinalizedRecordingManifest
    → RecordingArtifactDigest
    → RecordingArtifactDigest
    → Ambient
    → Act P (Unit {0})
unfolding require_finalize_within_deadline
activate {P} fields video sidecar env = do
  m ← get
  manifest ← from_result (P.serialize_manifest fields video sidecar)
  on_disk (P.write_finalized_manifest m.artifact_paths manifest)
  require_finalize_within_deadline 4 env
  on_disk (P.activate_finalized m.artifact_paths)
  modify (λ n. record n { state = RecordingState.finalized; worker = Worker.ended })

-- The files are digested, and the manifest describes them.
unfoldable pub publish_artifact : {P : Parts} → Ambient → Act P (Unit {0})
unfolding digest require_finalize_within_deadline make_manifest activate
publish_artifact env = do
  m ← get
  video ← from_result (digest (bytes "color.mp4") m)
  sidecar ← from_result (digest (bytes "frames.jsonl") m)
  require_finalize_within_deadline 3 env
  modify (λ n. record n {
    stopped_monotonic_ns = env.monotonic_now_ns;
    stopped_unix_epoch_ns = env.unix_now_ns;
  })
  stopped ← get
  activate (make_manifest stopped) video sidecar env

-- `finalizeArtifacts`
unfoldable pub finalize_artifacts : {P : Parts} → Ambient → Act P (Unit {0})
unfolding close_files publish_artifact
finalize_artifacts env = do close_files env; publish_artifact env
