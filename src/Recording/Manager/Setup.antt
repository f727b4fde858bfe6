-- ===== src/Recording/Manager/Setup.antt =====
-- The constructor of src/recording/recording_manager.cpp, the join of the last worker and
-- `restorePersistedArtifactLocked`.
use nodus_vision.Prelude.{
  Bool, true, false, not, ◌||◌, none, Text, bytes, [], text_eq, is_empty, ◌==◌, if◌then◌else◌,
}
use nodus_vision.Prelude.Int.{pos, leb_ℤ}
use nodus_vision.Prelude.Result.{Result, ok, err, invalid_argument}
use nodus_vision.Recording.Contracts.{RecordingState, RecordingStopReason, RecordingStartRequest}
use nodus_vision.Recording.Queue.{cleared, capacity}
use nodus_vision.Recording.Sidecar.{no_identity}
use nodus_vision.Recording.Manager.State.{
  RecordingManagerConfig, PersistedRecordingArtifact, Parts, Worker, Manager, returned, blocked,
  Act,
}

-- The test of the constructor.
unfoldable pub is_config_invalid : RecordingManagerConfig → Bool
is_config_invalid c =
    c.queue_capacity_frames == 0
    || (is_empty c.sensor_frame
        || (is_empty c.calibration_id
            || (is_empty c.component_id
                || (is_empty c.device_id
                    || (is_empty c.instance_id
                        || (leb_ℤ c.max_duration_ms (pos 0)
                            || (c.minimum_free_bytes == 0
                                || (leb_ℤ c.finalize_timeout_ms (pos 0)
                                    || (not (text_eq c.preset (bytes "veryfast"))
                                        || not (text_eq c.tune (bytes "zerolatency")))))))))))

unfoldable pub initial : {P : Parts} → RecordingManagerConfig → P.Disk → Manager P
initial config disk = record {
  config = config;
  disk = disk;
  artifact_paths = record { staging_directory = []; finalized_directory = [] };
  queue = cleared config.queue_capacity_frames;
  worker = Worker.no_thread;
  writer = none;
  sidecar = none;
  recording_id = [];
  start_request_id = [];
  start_canonical = [];
  stop_request_id = [];
  stop_canonical = [];
  first_identity = no_identity;
  last_identity = no_identity;
  admitted_frame_count = 0;
  submitted_frame_count = 0;
  recording_drop_count = 0;
  contention_drop_count = 0;
  state = RecordingState.idle;
  admitting = false;
  started_monotonic_ns = pos 0;
  started_unix_epoch_ns = pos 0;
  stopped_monotonic_ns = pos 0;
  stopped_unix_epoch_ns = pos 0;
  duration_deadline = 0;
  finalize_deadline = 0;
  stop_reason = RecordingStopReason.application_shutdown;
  has_identity = false;
  stop_requested = false;
}

-- The constructor; the store is built first, and its exception passes through.
unfoldable pub construct : (P : Parts) → RecordingManagerConfig → Result (Manager P)
unfolding initial
construct P config = elim (P.open_store config.root) [
  | err e ↦ err e
  | ok disk ↦
      if is_config_invalid config
      then err (invalid_argument (bytes "Recording manager configuration is invalid."))
      else ok (initial config disk)
]

unfoldable pub is_active : RecordingState → Bool
is_active RecordingState.preparing = true
is_active RecordingState.recording = true
is_active RecordingState.finalizing = true
is_active _ = false

-- `if (m_worker.joinable()) m_worker.join();` under the lock: a worker that has not returned needs
-- the lock to go on, so the join never ends.
-- `blocked` is a caller that waits at the join for a worker that has not ended. A start waits with the
-- lock, which the worker needs; the end of `finalize` waits without it, and the worker goes on.
unfoldable pub join_worker : {P : Parts} → Act P (Unit {0})
join_worker m = elim m.worker [
  | Worker.no_thread ↦ (returned tt, m)
  | Worker.ended ↦ (returned tt, record m { worker = Worker.no_thread })
  | _ ↦ (blocked, m)
]

-- `restorePersistedArtifactLocked`
unfoldable pub restore_persisted_artifact :
    {P : Parts} → PersistedRecordingArtifact → RecordingStartRequest → Text → Manager P → Manager P
restore_persisted_artifact artifact request canonical_start m = record m {
  artifact_paths = artifact.paths;
  recording_id = request.recording_id;
  admitted_frame_count = 0;
  submitted_frame_count = 0;
  recording_drop_count = 0;
  contention_drop_count = 0;
  queue = cleared (capacity m.queue);
  started_monotonic_ns = pos 0;
  started_unix_epoch_ns = pos 0;
  stopped_monotonic_ns = pos 0;
  stopped_unix_epoch_ns = pos 0;
  stop_request_id = [];
  stop_canonical = [];
  stop_reason = RecordingStopReason.application_shutdown;
  has_identity = false;
  start_request_id = if not (is_empty canonical_start) then request.request_id else [];
  start_canonical = if not (is_empty canonical_start) then canonical_start else [];
  stop_requested = true;
  admitting = false;
  state = if artifact.finalized then RecordingState.finalized else RecordingState.faulted;
}
