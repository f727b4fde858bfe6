-- ===== src/Recording/Manager/State.antt =====
-- The members of `RecordingManager::Impl`, and what it calls in other components: a record that the
-- recording store, the video writer and the C++ library fill. A time is a number of nanoseconds of
-- the steady clock.
use nodus_vision.Prelude.{ℕ, Bool, true, false, Option, List, Text}
use nodus_vision.Prelude.Int.{ℤ}
use nodus_vision.Prelude.Result.{Result, ok, err, Exception}
use nodus_vision.Camera.Contracts.{FrameIdentity, VideoFrameView, CapturedFrame}
use nodus_vision.Recording.Contracts.{
  RecordingState, RecordingStopReason, RecordingStartRequest, Scalar,
}
use nodus_vision.Recording.Queue.{FrameQueue}
use nodus_vision.Recording.Sidecar.{SidecarWriter}

pub record RecordingManagerConfig : Type 0 where
  pub root : Text
  pub queue_capacity_frames : ℕ
  pub width : ℤ
  pub height : ℤ
  pub fps : ℤ
  pub bit_rate_bps : ℤ
  pub max_duration_ms : ℤ
  pub minimum_free_bytes : ℕ
  pub finalize_timeout_ms : ℤ
  pub preset : Text
  pub tune : Text
  pub sensor_frame : Text
  pub calibration_id : Text
  pub component_id : Text
  pub device_id : Text
  pub instance_id : Text

pub record RecordingArtifactPaths : Type 0 where
  pub staging_directory : Text
  pub finalized_directory : Text

pub record PersistedRecordingArtifact : Type 0 where
  pub paths : RecordingArtifactPaths
  pub finalized : Bool
  pub start_request : Text
  pub stop_request : Option Text

pub record ColorVideoWriterConfig : Type 0 where
  pub output_path : Text
  pub width : ℤ
  pub height : ℤ
  pub fps : ℤ
  pub bit_rate_bps : ℤ
  pub preset : Text
  pub tune : Text

pub record RecordingArtifactDigest : Type 0 where
  pub relative_path : Text
  pub size_bytes : ℕ
  pub sha256_hex : Text

pub record FinalizedRecordingManifest : Type 0 where
  pub recording_id : Text
  pub component_id : Text
  pub instance_id : Text
  pub device_id : Text
  pub sensor_frame : Text
  pub calibration_id : Text
  pub width : ℤ
  pub height : ℤ
  pub fps : ℤ
  pub started_monotonic_ns : ℤ
  pub started_unix_epoch_ns : ℤ
  pub stopped_monotonic_ns : ℤ
  pub stopped_unix_epoch_ns : ℤ
  pub admitted_frame_count : ℕ
  pub submitted_frame_count : ℕ
  pub recording_drop_count : ℕ
  pub first_frame : FrameIdentity
  pub last_frame : FrameIdentity
  pub has_frames : Bool
  pub start_request_id : Text
  pub stop_request_id : Text
  pub stop_reason : RecordingStopReason

-- `RecordingStore`, `ColorVideoWriter`, the digest and the serialisers, as the manager calls them.
pub record Parts : Type 1 where
  pub Disk : Type 0
  pub Writer : Type 0
  pub path_append : Text → Text → Text
  pub serialize_object : List (Text × Scalar) → Text
  pub open_store : Text → Result Disk
  pub initialize : Disk → Result (Unit {0}) × Disk
  pub available_space : Disk → Option ℕ
  pub create_staging : RecordingStartRequest → Disk → Result RecordingArtifactPaths × Disk
  pub find_persisted_artifact : Text → Disk → Result (Option PersistedRecordingArtifact)
  pub write_stop_request : RecordingArtifactPaths → Text → Disk → Result (Unit {0}) × Disk
  pub write_finalized_manifest : RecordingArtifactPaths → Text → Disk → Result (Unit {0}) × Disk
  pub activate_finalized : RecordingArtifactPaths → Disk → Result (Unit {0}) × Disk
  pub staging_count : Disk → Result ℕ
  pub open_writer : ColorVideoWriterConfig → Disk → Result Writer × Disk
  pub write_frame : VideoFrameView → Writer → Result ℕ × Writer
  pub finalize_writer : Writer → Result (Unit {0}) × Writer
  pub calculate_digest : Text → Text → ℕ → Disk → Result RecordingArtifactDigest
  pub serialize_manifest :
      FinalizedRecordingManifest → RecordingArtifactDigest → RecordingArtifactDigest → Result Text

-- What a call meets outside: the k-th reading of the steady clock, the two wall readings, and
-- whether files open, streams take their bytes and the thread's constructor returns.
pub record Ambient : Type 0 where
  pub steady_now : ℕ → ℕ
  pub monotonic_now_ns : ℤ
  pub unix_now_ns : ℤ
  pub sidecar_opens : Bool
  pub stream_takes : Bool
  pub stream_closes : Bool
  pub thread_start : Result (Unit {0})

-- Where the worker thread stands. `no_thread`: not joinable. `at_loop`: before the lock at the top.
-- `holding`: it has taken a frame. `written`: the frame is written and not yet counted. `closing`:
-- it left the loop. `ended`: it has returned and can be joined.
pub data Worker : Type 0 where
  no_thread at_loop closing ended : Worker
  holding : Option CapturedFrame → Worker
  written : FrameIdentity → Worker

pub record Manager (P : Parts) : Type 0 where
  pub config : RecordingManagerConfig
  pub disk : P.Disk
  pub artifact_paths : RecordingArtifactPaths
  pub queue : FrameQueue
  pub worker : Worker
  pub writer : Option P.Writer
  pub sidecar : Option SidecarWriter
  pub recording_id : Text
  pub start_request_id : Text
  pub start_canonical : Text
  pub stop_request_id : Text
  pub stop_canonical : Text
  pub first_identity : FrameIdentity
  pub last_identity : FrameIdentity
  pub admitted_frame_count : ℕ
  pub submitted_frame_count : ℕ
  pub recording_drop_count : ℕ
  pub contention_drop_count : ℕ
  pub state : RecordingState
  pub admitting : Bool
  pub started_monotonic_ns : ℤ
  pub started_unix_epoch_ns : ℤ
  pub stopped_monotonic_ns : ℤ
  pub stopped_unix_epoch_ns : ℤ
  pub duration_deadline : ℕ
  pub finalize_deadline : ℕ
  pub stop_reason : RecordingStopReason
  pub has_identity : Bool
  pub stop_requested : Bool

pub data RecordingStartResult : Type 0 where
  started replayed : RecordingStartResult

pub data RecordingStopResult : Type 0 where
  accepted replayed : RecordingStopResult

-- A call returns, throws, waits for the worker thread to return, or follows a null pointer.
pub data Outcome (A : Type 0) : Type 0 where
  returned : A → Outcome A
  thrown : Exception → Outcome A
  blocked : Outcome A
  undefined : Outcome A

abbrev pub Act : Parts → Type 0 → Type 0
Act P A = Manager P → Outcome A × Manager P

abbrev pub then_act : {P : Parts} {A B : Type 0} → Outcome A → (A → Act P B) → Act P B
then_act (returned a) f m = f a m
then_act (thrown e) f m = (thrown e, m)
then_act blocked f m = (blocked, m)
then_act undefined f m = (undefined, m)

infixl 5 ◌>>=◌ ◌>>◌
abbrev pub ◌>>=◌ : {P : Parts} {A B : Type 0} → Act P A → (A → Act P B) → Act P B
◌>>=◌ act f m = let (r, m') = act m in then_act r f m'

abbrev pub ◌>>◌ : {P : Parts} {B : Type 0} → Act P (Unit {0}) → Act P B → Act P B
a >> b = a >>= λ _. b

abbrev pub pure : {P : Parts} {A : Type 0} → A → Act P A
pure a m = (returned a, m)

abbrev pub throw : {P : Parts} {A : Type 0} → Exception → Act P A
throw e m = (thrown e, m)

-- `if (bad) throw e;`
abbrev pub throw_when : {P : Parts} → Bool → Exception → Act P (Unit {0})
throw_when true e m = (thrown e, m)
throw_when false e m = (returned tt, m)

abbrev pub get : {P : Parts} → Act P (Manager P)
get m = (returned m, m)

abbrev pub modify : {P : Parts} → (Manager P → Manager P) → Act P (Unit {0})
modify f m = (returned tt, f m)

abbrev pub of_result : {A : Type 0} → Result A → Outcome A
of_result (ok a) = returned a
of_result (err e) = thrown e

abbrev pub from_result : {P : Parts} {A : Type 0} → Result A → Act P A
from_result r m = (of_result r, m)

-- A call that changes the files.
abbrev pub on_disk : {P : Parts} {A : Type 0} → (P.Disk → Result A × P.Disk) → Act P A
on_disk f m = let (r, d) = f m.disk in (of_result r, record m { disk = d })

-- `catch (...) { handler; throw; }`
abbrev pub or_rethrow : {P : Parts} {A : Type 0} → Act P A → (Manager P → Manager P) → Act P A
or_rethrow act handler m =
    let (r, m') = act m in
    elim r [
      | returned a ↦ (returned a, m')
      | thrown e ↦ (thrown e, handler m')
      | blocked ↦ (blocked, m')
      | undefined ↦ (undefined, m')
    ]

-- m_state = e_FAULTED; m_admitting = false
abbrev pub fault : {P : Parts} → Manager P → Manager P
fault m = record m { state = RecordingState.faulted; admitting = false }
