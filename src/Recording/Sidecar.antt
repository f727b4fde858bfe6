-- ===== src/Recording/Sidecar.antt =====
-- `RecordingSidecarWriter` of src/recording/recording_manifest.cpp: the file frames.jsonl, one line
-- for each encoded frame. A line is the object that `append` builds. Whether the output stream takes
-- a write, a flush or a close is an argument of the call.
pub mod Ledger
use nodus_vision.Prelude.{
  ℕ, Bool, true, false, not, ◌&&◌, ◌||◌, List, [], ◌∷◌, Text, bytes, is_empty, inc_u64, ◌==◌,
  if◌then◌else◌,
}
use nodus_vision.Prelude.Int.{ℤ, pos, ltb_ℤ}
use nodus_vision.Prelude.Result.{Result, ok, err, invalid_argument, runtime_error}
use nodus_vision.Camera.Contracts.{FrameIdentity, DeviceTimestampDomain}
use nodus_vision.Camera.Order.{is_strictly_after}
use nodus_vision.Recording.Contracts.{is_recording_id_valid}

pub record RecordingFrameEntry : Type 0 where
  pub video_frame_index : ℕ
  pub video_pts : ℤ
  pub identity : FrameIdentity

-- The ten members of a line.
pub record Line : Type 0 where
  pub schema_version : ℕ
  pub recording_id : Text
  pub video_frame_index : ℕ
  pub video_pts : ℤ
  pub capture_generation : ℕ
  pub frame_number : ℕ
  pub capture_timestamp_ns : ℤ
  pub capture_unix_epoch_ns : ℤ
  pub sensor_frame : Text
  pub calibration_id : Text

-- `lines` are those that the stream has taken, by the calls of `append` that returned, newest first.
-- What a write that fails leaves of its line, and what the stream's buffer loses, is not modelled.
pub record SidecarWriter : Type 0 where
  pub lines : List Line
  pub stream_good : Bool
  pub recording_id : Text
  pub sensor_frame : Text
  pub calibration_id : Text
  pub last_identity : FrameIdentity
  pub entry_count : ℕ
  pub has_identity : Bool
  pub finalized : Bool

-- `FrameIdentity{}`
abbrev pub no_identity : FrameIdentity
no_identity = record {
  capture_generation = 0;
  frame_number = 0;
  capture_timestamp_ns = pos 0;
  capture_unix_epoch_ns = pos 0;
  device_timestamp = 0;
  device_timestamp_domain = DeviceTimestampDomain.unknown;
}

-- The constructor; the last argument says whether the file was opened.
unfoldable pub open_sidecar : Text → Text → Text → Bool → Result SidecarWriter
open_sidecar recording_id sensor_frame calibration_id is_open =
    if not (is_recording_id_valid recording_id)
      || (is_empty sensor_frame || (is_empty calibration_id || not is_open))
    then err (invalid_argument (bytes "Recording sidecar configuration is invalid."))
    else ok (record {
      lines = [];
      stream_good = true;
      recording_id = recording_id;
      sensor_frame = sensor_frame;
      calibration_id = calibration_id;
      last_identity = no_identity;
      entry_count = 0;
      has_identity = false;
      finalized = false;
    })

make_line : SidecarWriter → RecordingFrameEntry → Line
make_line s entry = record {
  schema_version = 1;
  recording_id = s.recording_id;
  video_frame_index = entry.video_frame_index;
  video_pts = entry.video_pts;
  capture_generation = entry.identity.capture_generation;
  frame_number = entry.identity.frame_number;
  capture_timestamp_ns = entry.identity.capture_timestamp_ns;
  capture_unix_epoch_ns = entry.identity.capture_unix_epoch_ns;
  sensor_frame = s.sensor_frame;
  calibration_id = s.calibration_id;
}

-- The test of `append`.
unfoldable pub violates_order : SidecarWriter → RecordingFrameEntry → Bool
violates_order s entry =
    s.finalized
    || (not (entry.video_frame_index == s.entry_count)
        || (ltb_ℤ entry.video_pts (pos 0)
            || (s.has_identity && not (is_strictly_after entry.identity s.last_identity))))

-- `append`. A failed write leaves the stream bad for good, and is no line that the stream has taken.
unfoldable pub append :
    SidecarWriter → RecordingFrameEntry → Bool → Result (Unit {0}) × SidecarWriter
unfolding make_line
append s entry writes =
    if violates_order s entry
    then (err (invalid_argument (bytes "Recording sidecar entry violates its immutable order.")), s)
    else if not (s.stream_good && writes)
    then (
      err (runtime_error (bytes "Recording sidecar append failed.")),
      record s { stream_good = false },
    )
    else (
      ok tt,
      record s {
        lines = make_line s entry ∷ s.lines;
        last_identity = entry.identity;
        has_identity = true;
        entry_count = inc_u64 s.entry_count;
      },
    )

-- `finalize`; the arguments say whether the flush and the close succeed.
unfoldable pub finalize_sidecar : SidecarWriter → Bool → Bool → Result (Unit {0}) × SidecarWriter
finalize_sidecar s flushes closes =
    if s.finalized
    then (ok tt, s)
    else if not (s.stream_good && flushes)
    then (
      err (runtime_error (bytes "Recording sidecar flush failed.")),
      record s { stream_good = false },
    )
    else if not closes
    then (
      err (runtime_error (bytes "Recording sidecar close failed.")),
      record s { stream_good = false },
    )
    else (ok tt, record s { finalized = true })
