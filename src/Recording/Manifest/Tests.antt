-- ===== src/Recording/Manifest/Tests.antt =====
-- A manifest on concrete values.
use nodus_vision.Prelude.{◌↔◌, false, bytes, []}
use nodus_vision.Prelude.Int.{pos}
use nodus_vision.Camera.Samples.{identity_of}
use nodus_vision.Recording.Contracts.{RecordingStopReason}
use nodus_vision.Recording.Manager.State.{RecordingArtifactDigest, FinalizedRecordingManifest}
use nodus_vision.Recording.Manifest.{finalized_recording_document}
use nodus_vision.Recording.Manifest.Checks.{IsManifest, IsWritten, finalized_recording_document_iff}

abbrev manifest : FinalizedRecordingManifest
manifest = record {
  recording_id = bytes "a";
  component_id = bytes "vision";
  instance_id = bytes "one";
  device_id = bytes "device";
  sensor_frame = bytes "camera";
  calibration_id = bytes "cal";
  width = pos 640;
  height = pos 480;
  fps = pos 30;
  started_monotonic_ns = pos 1;
  started_unix_epoch_ns = pos 1;
  stopped_monotonic_ns = pos 2;
  stopped_unix_epoch_ns = pos 2;
  admitted_frame_count = 2;
  submitted_frame_count = 2;
  recording_drop_count = 0;
  first_frame = identity_of 1 1;
  last_frame = identity_of 1 2;
  has_frames = false;
  start_request_id = bytes "start-1";
  stop_request_id = [];
  stop_reason = RecordingStopReason.application_shutdown;
}

abbrev video : RecordingArtifactDigest
video = record { relative_path = bytes "color.mp4"; size_bytes = 1; sha256_hex = bytes "00" }

abbrev lines : RecordingArtifactDigest
lines = record { relative_path = bytes "frames.jsonl"; size_bytes = 1; sha256_hex = bytes "00" }

finalized_recording_document_iff_example :
    IsWritten (finalized_recording_document manifest video lines) ↔ IsManifest manifest video lines
finalized_recording_document_iff_example = finalized_recording_document_iff manifest video lines
