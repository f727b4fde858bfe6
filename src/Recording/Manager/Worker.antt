-- ===== src/Recording/Manager/Worker.antt =====
-- The worker thread of src/recording/recording_manager.cpp. `runWorker` is cut where it takes the
-- lock: the worker takes a frame, processes it without the lock, and counts it. `finalizeArtifacts`
-- is one step: while the state is e_FINALIZING the other calls only read or are refused.
use nodus_vision.Prelude.{
  ℕ, ◌+◌, ◌-◌, ◌^◌, Bool, true, false, not, ◌&&◌, ◌||◌, Option, none, some, bytes, [], inc_u64, ltb,
  leb, ◌==◌, if◌then◌else◌,
}
use nodus_vision.Prelude.Int.{ℤ, pos, negsuc}
use nodus_vision.Prelude.Result.{Exception, runtime_error}
use nodus_vision.Camera.Contracts.{FrameIdentity, VideoFrameView, CapturedFrame}
use nodus_vision.Camera.Order.{is_strictly_after}
use nodus_vision.Recording.Contracts.{RecordingState, RecordingStopReason}
use nodus_vision.Recording.Queue.{pop}
use nodus_vision.Recording.Sidecar.{RecordingFrameEntry, append}
use nodus_vision.Recording.Manager.State.{
  Parts, Ambient, Worker, Manager, returned, thrown, undefined, Act, ◌>>=◌, ◌>>◌, throw_when,
  modify, of_result,
}
use nodus_vision.Recording.Manager.Stop.{begin_finalization, serialize_internal_stop_evidence}
use nodus_vision.Recording.Manager.Finalize.{require_finalize_within_deadline, finalize_artifacts}

-- The `catch (...)` at the end of `runWorker`.
unfoldable pub worker_fault : {P : Parts} → Manager P → Manager P
worker_fault m = record m {
  state = RecordingState.faulted;
  admitting = false;
  stop_requested = true;
  worker = Worker.ended;
}

-- A step of the worker: what it throws ends the thread.
abbrev pub or_fault : {P : Parts} → Act P (Unit {0}) → Manager P → Manager P
or_fault act m =
    let (r, m') = act m in elim r [ returned _ ↦ m' | thrown e ↦ worker_fault m' | _ ↦ m' ]

-- The recording has lasted its longest.
unfoldable pub close_on_duration : {P : Parts} → Ambient → Act P (Unit {0})
close_on_duration env m =
    if not m.stop_requested && leb m.duration_deadline (env.steady_now 0)
    then begin_finalization RecordingStopReason.max_duration
        (serialize_internal_stop_evidence m.recording_id RecordingStopReason.max_duration) [] []
        (record env { steady_now = λ k. env.steady_now (k + 1) }) m
    else (returned tt, m)

-- The locked part at the top of the loop. With nothing to do before the deadline it keeps waiting.
unfoldable pub take_frame : {P : Parts} → Ambient → Act P (Unit {0})
unfolding close_on_duration
take_frame env = do
  close_on_duration env
  modify (λ m.
      if m.queue.count == 0
      then (if m.stop_requested then record m { worker = Worker.closing } else m)
      else record m { worker = Worker.holding (pop m.queue).0; queue = (pop m.queue).1 })

-- `static_cast<std::int64_t>` of a `std::uint64_t`.
unfoldable pub to_int64 : ℕ → ℤ
to_int64 n = if ltb n (2 ^ 63) then pos n else negsuc (2 ^ 64 - n - 1)

-- The frame has no color image of its own identity, or does not follow the last one.
unfoldable pub is_out_of_order :
    {P : Parts} → Option VideoFrameView → FrameIdentity → Manager P → Bool
is_out_of_order none identity m = true
is_out_of_order (some color) identity m =
    not (color.identity.capture_generation == identity.capture_generation)
    || (not (color.identity.frame_number == identity.frame_number)
        || (m.has_identity && not (is_strictly_after identity m.last_identity)))

unfoldable pub is_other_generation : {P : Parts} → FrameIdentity → Manager P → Bool
is_other_generation identity m =
    m.has_identity && not (identity.capture_generation == m.last_identity.capture_generation)

-- `m_writer->writeFrame` through the owning pointer.
unfoldable pub write_video : {P : Parts} → VideoFrameView → Act P ℕ
write_video {P} color m = elim m.writer [
  | none ↦ (undefined, m)
  | some writer ↦
      let (r, writer') = P.write_frame color writer in
      (of_result r, record m { writer = some writer' })
]

-- `m_sidecar->append`
unfoldable pub append_line : {P : Parts} → ℕ → FrameIdentity → Ambient → Act P (Unit {0})
unfolding to_int64
append_line index identity env m = elim m.sidecar [
  | none ↦ (undefined, m)
  | some sidecar ↦
      let entry : RecordingFrameEntry = record {
        video_frame_index = index;
        video_pts = to_int64 index;
        identity = identity;
      } in
      let (r, sidecar') = append sidecar entry env.stream_takes in
      (of_result r, record m { sidecar = some sidecar' })
]

unfoldable pub write_color :
    {P : Parts} → Option VideoFrameView → FrameIdentity → Ambient → Act P (Unit {0})
unfolding write_video append_line
write_color none identity env m = (undefined, m)
write_color (some color) identity env m =
    (write_video color >>= λ index. append_line index identity env) m

abbrev pub order_error : Exception
order_error = runtime_error (bytes "Recording frame identity is invalid or out of order.")

abbrev pub generation_error : Exception
generation_error = runtime_error (bytes "Recording capture generation changed.")

-- What the loop does with the frame that it has taken, up to the counting.
unfoldable pub process_frame : {P : Parts} → Option CapturedFrame → Ambient → Act P (Unit {0})
unfolding require_finalize_within_deadline is_out_of_order is_other_generation write_color
process_frame none env m = (undefined, m)
process_frame (some frame) env m =
    (do
      require_finalize_within_deadline 0 env
      throw_when (is_out_of_order frame.color_view frame.snapshot.identity m) order_error
      throw_when (is_other_generation frame.snapshot.identity m) generation_error
      write_color frame.color_view frame.snapshot.identity env
      modify (λ n. record n { worker = Worker.written frame.snapshot.identity }))
      m

-- The locked part at the end of the loop.
unfoldable pub count_frame : {P : Parts} → FrameIdentity → Manager P → Manager P
count_frame identity m = record m {
  first_identity = if not m.has_identity then identity else m.first_identity;
  last_identity = identity;
  has_identity = true;
  submitted_frame_count = inc_u64 m.submitted_frame_count;
  worker = Worker.at_loop;
}

-- The next step of the worker thread, from where it stands.
unfoldable pub worker_step : {P : Parts} → Ambient → Manager P → Manager P
unfolding take_frame process_frame count_frame finalize_artifacts worker_fault
worker_step env m = elim m.worker [
  | Worker.no_thread ↦ m
  | Worker.at_loop ↦ or_fault (take_frame env) m
  | Worker.holding frame ↦ or_fault (process_frame frame env) m
  | Worker.written identity ↦ count_frame identity m
  | Worker.closing ↦ or_fault (finalize_artifacts env) m
  | Worker.ended ↦ m
]
