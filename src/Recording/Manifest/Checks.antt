-- ===== src/Recording/Manifest/Checks.antt =====
-- Which manifests are written, and what a reader finds in them.
use nodus_vision.Prelude.{
  ◌≡◌, ◌≢◌, ◌↔◌, ◌≤◌, Bool, true, false, [], bytes, text_eq_iff, arith, if◌then◌else◌,
}
use nodus_vision.Prelude.Int.{pos, ◌≤ℤ◌, ◌<ℤ◌}
use nodus_vision.Prelude.Json.{Json}
use nodus_vision.Prelude.Result.{Result, ok, err, Exception}
use nodus_vision.Recording.Contracts.{is_recording_id_valid}
use nodus_vision.Recording.Manager.State.{RecordingArtifactDigest, FinalizedRecordingManifest}
use nodus_vision.Recording.Manifest.{is_manifest_invalid, finalized_recording_document}

pub record IsManifest (manifest : FinalizedRecordingManifest)
    (video sidecar : RecordingArtifactDigest) : Type 0 where
  pub recording : is_recording_id_valid manifest.recording_id ≡ true
  pub component : manifest.component_id ≢ []
  pub instance_name : manifest.instance_id ≢ []
  pub device : manifest.device_id ≢ []
  pub sensor : manifest.sensor_frame ≢ []
  pub calibration : manifest.calibration_id ≢ []
  pub width : pos 0 <ℤ manifest.width
  pub height : pos 0 <ℤ manifest.height
  pub fps : pos 0 <ℤ manifest.fps
  pub monotonic : manifest.started_monotonic_ns ≤ℤ manifest.stopped_monotonic_ns
  pub epoch : manifest.started_unix_epoch_ns ≤ℤ manifest.stopped_unix_epoch_ns
  pub counts : manifest.submitted_frame_count ≤ manifest.admitted_frame_count
  pub video_path : video.relative_path ≡ bytes "color.mp4"
  pub sidecar_path : sidecar.relative_path ≡ bytes "frames.jsonl"

abbrev pub IsWritten : Result Json → Type 0
IsWritten (ok document) = Unit
IsWritten (err e) = ⊥

is_manifest_invalid_iff :
    (manifest : FinalizedRecordingManifest) (video sidecar : RecordingArtifactDigest)
    → (is_manifest_invalid manifest video sidecar ≡ false) ↔ IsManifest manifest video sidecar
unfolding is_manifest_invalid
is_manifest_invalid_iff manifest video sidecar = ground (
  arith,
  text_eq_iff video.relative_path (bytes "color.mp4"),
  text_eq_iff sidecar.relative_path (bytes "frames.jsonl"),
)

of_guard_iff :
    (bad : Bool) (e : Exception) (document : Json)
    → IsWritten (if bad then err e else ok document) ↔ (bad ≡ false)
of_guard_iff true e document = ground arith
of_guard_iff false e document = ground arith

-- A manifest is written exactly when the recording has a valid ID and every other name is there, the
-- picture has a size and a rate, the recording does not stop before it starts on either clock, no
-- more frames are counted than admitted, and the artifacts are color.mp4 and frames.jsonl.
pub finalized_recording_document_iff :
    (manifest : FinalizedRecordingManifest) (video sidecar : RecordingArtifactDigest)
    → IsWritten (finalized_recording_document manifest video sidecar)
      ↔ IsManifest manifest video sidecar
unfolding finalized_recording_document
finalized_recording_document_iff manifest video sidecar =
    let w = of_guard_iff (is_manifest_invalid manifest video sidecar) _ _ in
    let i = is_manifest_invalid_iff manifest video sidecar in (λ h. i.0 (w.0 h), λ h. w.1 (i.1 h))
