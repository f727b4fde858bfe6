-- ===== src/Recording/Manifest.antt =====
-- `serializeFinalizedRecordingManifest` of src/recording/recording_manifest.cpp, up to
-- `boost::json::serialize`: the document is a value.
pub mod Checks
mod Tests
use nodus_vision.Prelude.{◌||◌, not, Bool, Text, bytes, text_eq, is_empty, ltb, if◌then◌else◌}
use nodus_vision.Prelude.Int.{ℤ, pos, leb_ℤ, ltb_ℤ}
use nodus_vision.Prelude.Json.{
  Json, null, unsigned, signed, string, array, object, Items, no_items, item, Members, no_members,
  member,
}
use nodus_vision.Prelude.Result.{Result, ok, err, invalid_argument}
use nodus_vision.Camera.Contracts.{FrameIdentity}
use nodus_vision.Recording.Contracts.{is_recording_id_valid, recording_stop_reason_name}
use nodus_vision.Recording.Manager.State.{RecordingArtifactDigest, FinalizedRecordingManifest}

-- The test of the function.
unfoldable pub is_manifest_invalid :
    FinalizedRecordingManifest → RecordingArtifactDigest → RecordingArtifactDigest → Bool
is_manifest_invalid manifest video sidecar =
    not (is_recording_id_valid manifest.recording_id)
    || (is_empty manifest.component_id
        || (is_empty manifest.instance_id
            || (is_empty manifest.device_id
                || (is_empty manifest.sensor_frame
                    || (is_empty manifest.calibration_id
                        || (leb_ℤ manifest.width (pos 0)
                            || (leb_ℤ manifest.height (pos 0)
                                || (leb_ℤ manifest.fps (pos 0)
                                    || (ltb_ℤ manifest.stopped_monotonic_ns
                                          manifest.started_monotonic_ns
                                        || (ltb_ℤ manifest.stopped_unix_epoch_ns
                                              manifest.started_unix_epoch_ns
                                            || (ltb manifest.admitted_frame_count
                                                  manifest.submitted_frame_count
                                                || (not (
                                                      text_eq video.relative_path
                                                        (bytes "color.mp4"))
                                                    || not (
                                                        text_eq sidecar.relative_path
                                                          (bytes "frames.jsonl"))))))))))))))

-- `serializeFrameIdentity`
serialize_frame_identity : FrameIdentity → Json
serialize_frame_identity identity = object (
    member (bytes "capture_generation") (unsigned identity.capture_generation) (
      member (bytes "frame_number") (unsigned identity.frame_number) (
        member (bytes "capture_timestamp_ns") (signed identity.capture_timestamp_ns) (
          member (bytes "capture_unix_epoch_ns") (signed identity.capture_unix_epoch_ns)
            no_members))))

make_artifact : RecordingArtifactDigest → Json
make_artifact digest = object (
    member (bytes "path") (string digest.relative_path) (
      member (bytes "size_bytes") (unsigned digest.size_bytes)
        (member (bytes "sha256") (string digest.sha256_hex) no_members)))

make_profile : FinalizedRecordingManifest → Json
make_profile manifest = object (
    member (bytes "width") (signed manifest.width) (
      member (bytes "height") (signed manifest.height) (
        member (bytes "fps") (signed manifest.fps)
          (member (bytes "input_pixel_format") (string (bytes "rgb24")) no_members))))

make_video_details : FinalizedRecordingManifest → Json
make_video_details manifest = object (
    member (bytes "container") (string (bytes "mp4")) (
      member (bytes "codec") (string (bytes "h264")) (
        member (bytes "encoder") (string (bytes "libx264")) (
          member (bytes "pixel_format") (string (bytes "yuv420p")) (
            member (bytes "time_base_num") (signed (pos 1))
              (member (bytes "time_base_den") (signed manifest.fps) no_members))))))

-- The members from `first_frame` on.
make_evidence :
    FinalizedRecordingManifest → RecordingArtifactDigest → RecordingArtifactDigest → Members
unfolding serialize_frame_identity make_artifact
make_evidence manifest video sidecar =
    member (bytes "first_frame")
      (if manifest.has_frames then serialize_frame_identity manifest.first_frame else null)
      (member (bytes "last_frame")
        (if manifest.has_frames then serialize_frame_identity manifest.last_frame else null)
        (member (bytes "artifacts")
          (array (item (make_artifact video) (item (make_artifact sidecar) no_items)))
          (member (bytes "start_request_id") (string manifest.start_request_id) (
            member (bytes "stop_request_id")
              (if is_empty manifest.stop_request_id then null else string manifest.stop_request_id)
              (member (bytes "stop_reason")
                (string (recording_stop_reason_name manifest.stop_reason)) no_members)))))

-- The times and counts, then the rest.
make_counts :
    FinalizedRecordingManifest → RecordingArtifactDigest → RecordingArtifactDigest → Members
unfolding make_evidence
make_counts manifest video sidecar =
    member (bytes "started_monotonic_ns") (signed manifest.started_monotonic_ns) (
      member (bytes "started_unix_epoch_ns") (signed manifest.started_unix_epoch_ns) (
        member (bytes "stopped_monotonic_ns") (signed manifest.stopped_monotonic_ns) (
          member (bytes "stopped_unix_epoch_ns") (signed manifest.stopped_unix_epoch_ns) (
            member (bytes "admitted_frame_count") (unsigned manifest.admitted_frame_count) (
              member (bytes "submitted_frame_count") (unsigned manifest.submitted_frame_count) (
                member (bytes "recording_drop_count") (unsigned manifest.recording_drop_count)
                  (make_evidence manifest video sidecar)))))))

make_document :
    FinalizedRecordingManifest → RecordingArtifactDigest → RecordingArtifactDigest → Json
unfolding make_profile make_video_details make_counts
make_document manifest video sidecar =
    let generation = if manifest.has_frames then manifest.first_frame.capture_generation else 0 in
    object (
      member (bytes "schema_version") (signed (pos 1)) (
        member (bytes "state") (string (bytes "finalized")) (
          member (bytes "recording_id") (string manifest.recording_id) (
            member (bytes "component_id") (string manifest.component_id) (
              member (bytes "instance_id") (string manifest.instance_id) (
                member (bytes "device_id") (string manifest.device_id) (
                  member (bytes "capture_generation") (unsigned generation) (
                    member (bytes "sensor_frame") (string manifest.sensor_frame) (
                      member (bytes "calibration_id") (string manifest.calibration_id) (
                        member (bytes "profile") (make_profile manifest) (
                          member (bytes "video") (make_video_details manifest)
                            (make_counts manifest video sidecar))))))))))))

-- `serializeFinalizedRecordingManifest`
pub finalized_recording_document :
    FinalizedRecordingManifest → RecordingArtifactDigest → RecordingArtifactDigest → Result Json
unfolding is_manifest_invalid make_document
finalized_recording_document manifest video sidecar =
    if is_manifest_invalid manifest video sidecar
    then err (invalid_argument (bytes "Recording manifest values are invalid."))
    else ok (make_document manifest video sidecar)
