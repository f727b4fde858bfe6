-- ===== src/Recording/Manager/Submit/Admission.antt =====
-- Which frames `trySubmitFrame` admits, and what it does with them.
use nodus_vision.Prelude.{
  ◌≡◌, ◌<◌, ◌≤◌, refl, Bool, true, false, not, ◌&&◌, some, [], ◌∷◌, ◌++◌, inc_u64, arith,
  Bool-cases, inl, inr, if◌then◌else◌,
}
use nodus_vision.Camera.Contracts.{CapturedFrame}
use nodus_vision.Recording.Queue.{FrameQueue, capacity, is_full}
use nodus_vision.Recording.Queue.Fifo.{IsRing, contents, push-contents}
use nodus_vision.Recording.Manager.State.{Parts, Manager}
use nodus_vision.Recording.Manager.Stop.{is_recording}
use nodus_vision.Recording.Manager.Submit.{try_submit_frame}

abbrev pub is_admitted : {P : Parts} → Bool → Manager P → Bool
is_admitted owns_lock m = owns_lock && (is_recording m.state && not (is_full m.queue))

not_full : (q : FrameQueue) → q.count ≤ capacity q → is_full q ≡ false → q.count < capacity q
unfolding is_full
not_full q h e = ground arith

-- A frame is admitted exactly when the lock is free, the state is e_RECORDING and the queue has a
-- free slot. The queue, which must be a ring, then holds it behind the others and it is counted;
-- otherwise the queue and the count stay. The drops of the queue count the frames of a recording that
-- find it full, and those of contention the frames that find the lock taken while frames are admitted.
pub try_submit_frame_lem :
    {P : Parts} (frame : CapturedFrame) (owns_lock : Bool) (m : Manager P)
    → IsRing m.queue
    → let (accepted, n) = try_submit_frame (some frame) owns_lock m in
      (accepted ≡ is_admitted owns_lock m)
      × (contents n.queue
          ≡ (if accepted then contents m.queue ++ (some frame ∷ []) else contents m.queue))
      × (n.admitted_frame_count
          ≡ (if accepted then inc_u64 m.admitted_frame_count else m.admitted_frame_count))
      × (n.recording_drop_count ≡ (
          if owns_lock && (is_recording m.state && is_full m.queue)
          then inc_u64 m.recording_drop_count
          else m.recording_drop_count))
      × (n.contention_drop_count ≡ (
          if not owns_lock && m.admitting
          then inc_u64 m.contention_drop_count
          else m.contention_drop_count))
unfolding try_submit_frame
try_submit_frame_lem frame false m ring =
    (refl, ground arith, ground arith, ground arith, ground arith)
try_submit_frame_lem frame true m ring = elim (Bool-cases (is_recording m.state)) [
  | inr r ↦ rw r (refl, refl, refl, refl, refl)
  | inl r ↦ elim (Bool-cases (is_full m.queue)) [
    | inl f ↦ rw (r, f) (refl, refl, refl, refl, refl)
    | inr f ↦
        rw (r, f)
          (
            refl,
            (push-contents m.queue frame ring (not_full m.queue ring.fits f)).1,
            refl,
            refl,
            refl,
          )
  ]
]
