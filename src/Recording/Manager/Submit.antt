-- ===== src/Recording/Manager/Submit.antt =====
-- `trySubmitFrame` and `getStatus` of src/recording/recording_manager.cpp.
pub mod Admission
use nodus_vision.Prelude.{
  ℕ, ◌+◌, ◌%◌, ◌^◌, Bool, true, false, not, Option, none, some, Text, bytes, [], ◌++◌, inc_u64,
  if◌then◌else◌,
}
use nodus_vision.Prelude.Int.{ℤ}
use nodus_vision.Prelude.Result.{Result, ok, err}
use nodus_vision.Camera.Contracts.{CapturedFrame}
use nodus_vision.Recording.Contracts.{RecordingState}
use nodus_vision.Recording.Queue.{is_full, push, capacity}
use nodus_vision.Recording.Manager.State.{Parts, Manager}
use nodus_vision.Recording.Manager.Stop.{is_recording}

-- `trySubmitFrame`; `owns_lock` says whether `try_to_lock` got the lock.
unfoldable pub try_submit_frame :
    {P : Parts} → Option CapturedFrame → Bool → Manager P → Bool × Manager P
unfolding is_recording is_full
try_submit_frame none owns_lock m = (false, m)
try_submit_frame (some frame) owns_lock m =
    if not owns_lock
    then (
      false,
      (if m.admitting
          then record m { contention_drop_count = inc_u64 m.contention_drop_count }
          else m),
    )
    else if not (is_recording m.state)
    then (false, m)
    else if is_full m.queue
    then (false, record m { recording_drop_count = inc_u64 m.recording_drop_count })
    else (
      true,
      record m {
        queue = push m.queue frame;
        admitted_frame_count = inc_u64 m.admitted_frame_count;
      },
    )

pub record RecordingStatus : Type 0 where
  pub state : RecordingState
  pub recording_id : Text
  pub admitted_frame_count : ℕ
  pub submitted_frame_count : ℕ
  pub recording_drop_count : ℕ
  pub queue_depth : ℕ
  pub queue_capacity : ℕ
  pub orphan_staging_count : ℕ
  pub started_monotonic_ns : ℤ
  pub started_unix_epoch_ns : ℤ
  pub stopped_monotonic_ns : ℤ
  pub stopped_unix_epoch_ns : ℤ
  pub finalized_artifact_reference : Text

is_finalized : RecordingState → Bool
is_finalized RecordingState.finalized = true
is_finalized _ = false

-- `getStatus`
unfoldable pub get_status : {P : Parts} → Manager P → Result RecordingStatus
unfolding is_finalized
get_status {P} m = elim (P.staging_count m.disk) [
  | err e ↦ err e
  | ok orphans ↦ ok (record {
    state = m.state;
    recording_id = m.recording_id;
    admitted_frame_count = m.admitted_frame_count;
    submitted_frame_count = m.submitted_frame_count;
    recording_drop_count = (m.recording_drop_count + m.contention_drop_count) % 2 ^ 64;
    queue_depth = m.queue.count;
    queue_capacity = capacity m.queue;
    orphan_staging_count = orphans;
    started_monotonic_ns = m.started_monotonic_ns;
    started_unix_epoch_ns = m.started_unix_epoch_ns;
    stopped_monotonic_ns = m.stopped_monotonic_ns;
    stopped_unix_epoch_ns = m.stopped_unix_epoch_ns;
    finalized_artifact_reference =
        if is_finalized m.state then bytes "finalized/" ++ m.recording_id else [];
  })
]
