-- ===== src/Recording/Manager/Invariant/Queueing.antt =====
-- `trySubmitFrame` and the locked part of the worker's loop keep the invariant.
use nodus_vision.Prelude.{
  ◌+◌, ℕ, ◌≤◌, ◌<◌, ◌≡◌, Bool, true, false, not, Option, none, some, inc_u64, arith, if_cases,
  not-false,
}
use nodus_vision.Camera.Contracts.{CapturedFrame}
use nodus_vision.Recording.Contracts.{RecordingState}
use nodus_vision.Recording.Queue.{FrameQueue, capacity, is_full, push}
use nodus_vision.Recording.Queue.Fifo.{push-contents, push-AllFrames, count-push}
use nodus_vision.Recording.Sidecar.{SidecarWriter}
use nodus_vision.Recording.Manager.State.{Parts, Worker, Manager}
use nodus_vision.Recording.Manager.Stop.{is_recording}
use nodus_vision.Recording.Manager.Submit.{try_submit_frame}
use nodus_vision.Recording.Manager.Invariant.{is_allowed, Balanced, Working, Inv}

-- The manager after a frame is admitted.
abbrev admitted : {P : Parts} → CapturedFrame → Manager P → Manager P
admitted frame m = record m {
  queue = push m.queue frame;
  admitted_frame_count = inc_u64 m.admitted_frame_count;
}

module _ {W : Type 0} (w : Option W) (s : Option SidecarWriter) (n a q : ℕ) where
  Balanced-admitted : (i x : ℕ) → Balanced i x w s n a q → Balanced i x w s n (inc_u64 a) (q + 1)
  Balanced-admitted i x b = record {
    video = b.video;
    lines = b.lines;
    in_range = b.in_range;
    balance = omega (arith, b.balance);
  }

  Working-admitted :
      (t : Worker) (stop : Bool)
      → is_allowed t RecordingState.recording stop ≡ true
      → Working t w s n a q
      → Working t w s n (inc_u64 a) (q + 1)
  Working-admitted Worker.no_thread stop e h = tt
  Working-admitted Worker.ended stop e h = tt
  Working-admitted Worker.at_loop stop e h = Balanced-admitted 0 0 h
  Working-admitted (Worker.holding f) stop e h = (h.0, Balanced-admitted 1 0 h.1)
  Working-admitted (Worker.written i) stop e h = Balanced-admitted 1 1 h
  Working-admitted Worker.closing stop e h = cc e

pub is_recording_lem : (s : RecordingState) → is_recording s ≡ true → s ≡ RecordingState.recording
unfolding is_recording
is_recording_lem s h = ground arith

not_full : (q : FrameQueue) → q.count ≤ capacity q → is_full q ≡ false → q.count < capacity q
unfolding is_full
not_full q h e = ground arith

admitted-Inv :
    {P : Parts} (frame : CapturedFrame) (m : Manager P)
    → is_recording m.state ≡ true
    → is_full m.queue ≡ false
    → Inv m
    → Inv (admitted frame m)
admitted-Inv frame m rec open_slot v =
    let room = not_full m.queue v.ring.fits open_slot in
    let e = is_recording_lem m.state rec in
    record {
      ring = (push-contents m.queue frame v.ring room).0;
      frames = push-AllFrames m.queue frame v.ring room v.frames;
      standing = v.standing;
      admits = v.admits;
      working = rw (count-push m.queue frame) (
          Working-admitted m.writer m.sidecar m.submitted_frame_count m.admitted_frame_count
            m.queue.count m.worker m.stop_requested (ground (arith, v.standing)) v.working);
    }

drops-Inv :
    {P : Parts} (m : Manager P) (a b : ℕ)
    → Inv m
    → Inv (record m { recording_drop_count = a; contention_drop_count = b })
drops-Inv m a b v = record {
  ring = v.ring;
  frames = v.frames;
  standing = v.standing;
  admits = v.admits;
  working = v.working;
}

-- A frame that is offered, admitted or not, keeps the invariant.
pub try_submit_frame-Inv :
    {P : Parts} (frame : Option CapturedFrame) (owns_lock : Bool) (m : Manager P)
    → Inv m
    → Inv (try_submit_frame frame owns_lock m).1
unfolding try_submit_frame
try_submit_frame-Inv none owns_lock m v = v
try_submit_frame-Inv {P} (some frame) false m v =
    if_cases Inv m.admitting (record m { contention_drop_count = inc_u64 m.contention_drop_count })
      m (λ e. drops-Inv m m.recording_drop_count (inc_u64 m.contention_drop_count) v) (λ e. v)
try_submit_frame-Inv {P} (some frame) true m v =
    if_cases After (not (is_recording m.state)) _ _ (λ e. v)
      λ r.
        if_cases After (is_full m.queue) _ _
          (λ full. drops-Inv m (inc_u64 m.recording_drop_count) m.contention_drop_count v)
          (λ room. admitted-Inv frame m (not-false _ r) room v)
  where
    After : Bool × Manager P → Type 0
    After r = Inv r.1
