-- ===== src/Recording/Manager/Samples.antt =====
-- Parts that count the files they have written, a configuration and requests for the tests.
use nodus_vision.Prelude.{ℕ, ◌+◌, true, none, some, ◌++◌, bytes}
use nodus_vision.Prelude.Int.{pos}
use nodus_vision.Prelude.Result.{Result, ok}
use nodus_vision.Recording.Contracts.{RecordingStartRequest}
use nodus_vision.Recording.Manager.State.{
  RecordingManagerConfig, RecordingArtifactPaths, Parts, Ambient,
}

abbrev paths : RecordingArtifactPaths
paths = record {
  staging_directory = bytes "/r/staging/a";
  finalized_directory = bytes "/r/finalized/a";
}

-- `evidence` is the answer to every stop request.
abbrev pub parts : Result (Unit {0}) → Parts
parts evidence = record {
  Disk = ℕ;
  Writer = ℕ;
  path_append = λ a b. a ++ (bytes "/" ++ b);
  serialize_object = λ members. bytes "{}";
  open_store = λ root. ok 0;
  initialize = λ d. (ok tt, d);
  available_space = λ d. some 1_000_000;
  create_staging = λ request d. (ok paths, d + 1);
  find_persisted_artifact = λ id d. ok none;
  write_stop_request = λ p text d. (evidence, d + 1);
  write_finalized_manifest = λ p text d. (ok tt, d + 1);
  activate_finalized = λ p d. (ok tt, d);
  staging_count = λ d. ok 0;
  open_writer = λ config d. (ok 0, d + 1);
  write_frame = λ view n. (ok n, n + 1);
  finalize_writer = λ n. (ok tt, n);
  calculate_digest = λ directory name deadline d.
      ok (record { relative_path = name; size_bytes = 1; sha256_hex = bytes "00" });
  serialize_manifest = λ fields video lines. ok (bytes "{}");
}

abbrev pub config : RecordingManagerConfig
config = record {
  root = bytes "/r";
  queue_capacity_frames = 2;
  width = pos 2;
  height = pos 1;
  fps = pos 30;
  bit_rate_bps = pos 1_000;
  max_duration_ms = pos 60_000;
  minimum_free_bytes = 1_000;
  finalize_timeout_ms = pos 5_000;
  preset = bytes "veryfast";
  tune = bytes "zerolatency";
  sensor_frame = bytes "camera";
  calibration_id = bytes "cal";
  component_id = bytes "vision";
  device_id = bytes "device";
  instance_id = bytes "one";
}

abbrev pub env : Ambient
env = record {
  steady_now = λ k. 1_000 + k;
  monotonic_now_ns = pos 5;
  unix_now_ns = pos 6;
  sidecar_opens = true;
  stream_takes = true;
  stream_closes = true;
  thread_start = ok tt;
}

abbrev pub start_request : RecordingStartRequest
start_request = record {
  request_id = bytes "start-1";
  recording_id = bytes "a";
  canonical_json = bytes "{}";
}

abbrev pub stop_request : RecordingStartRequest
stop_request = record {
  request_id = bytes "stop-1";
  recording_id = bytes "a";
  canonical_json = bytes "{}";
}
