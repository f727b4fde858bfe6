-- ===== src/FrameStore.antt =====
-- src/core/frame_store.cpp: the latest-only slot between the capture thread and its readers. Each
-- call holds the mutex, so a call is one function on the store; the steady clock's reading, in
-- nanoseconds, is an argument. The proofs are in the child.
pub mod Latest
mod Tests
use nodus_vision.Prelude.{
  ℕ, ◌*◌, ◌-◌, Bool, true, false, not, ◌&&◌, ◌||◌, Option, none, some, List, [], ◌∷◌, ltb,
  if◌then◌else◌,
}
use nodus_vision.Prelude.Int.{ℤ, pos, pos_part, leb_ℤ}
use nodus_vision.Camera.Contracts.{FrameIdentity, CapturedFrame}
use nodus_vision.Camera.Order.{is_newer_identity}

pub record FrameStore : Type 0 where
  pub latest_frame : Option CapturedFrame
  pub published_at : ℕ

abbrev pub empty : FrameStore
empty = record { latest_frame = none; published_at = 0 }

replace : FrameStore → ℕ → CapturedFrame → FrameStore × Bool
replace s now frame = (record s { latest_frame = some frame; published_at = now }, true)

-- `publishFrame`; `none` is a null pointer.
pub publish_frame : FrameStore → ℕ → Option CapturedFrame → FrameStore × Bool
unfolding replace
publish_frame s now none = (s, false)
publish_frame s now (some frame) = elim s.latest_frame [
  | none ↦ replace s now frame
  | some latest ↦
      if not (is_newer_identity frame.snapshot.identity latest.snapshot.identity)
      then (s, false)
      else replace s now frame
]

pub acquire_latest_frame : FrameStore → Option CapturedFrame
acquire_latest_frame s = s.latest_frame

-- `acquireFreshFrame`: `max_age` is in milliseconds.
pub acquire_fresh_frame : FrameStore → ℕ → ℤ → Option CapturedFrame
acquire_fresh_frame s now max_age = elim s.latest_frame [
  | none ↦ none
  | some frame ↦
      if leb_ℤ max_age (pos 0) || ltb (pos_part max_age * 1_000_000) (now - s.published_at)
      then none
      else some frame
]

pub has_newer_frame : FrameStore → FrameIdentity → Bool
has_newer_frame s identity = elim s.latest_frame [
  | none ↦ false
  | some frame ↦ is_newer_identity frame.snapshot.identity identity
]

-- `waitForFrameAfter`: the store as the waiting thread sees it at the call, at each wake-up and last
-- at the timeout. `wait_for` tests the predicate on each.
pub wait_for_frame_after : FrameIdentity → FrameStore → List FrameStore → Option CapturedFrame
unfolding has_newer_frame
wait_for_frame_after identity s [] = if has_newer_frame s identity then s.latest_frame else none
wait_for_frame_after identity s (s' ∷ later) =
    let rest = wait_for_frame_after identity s' later in
    if has_newer_frame s identity then s.latest_frame else rest

-- `clear`
pub clear : FrameStore → FrameStore
clear s = record s { latest_frame = none; published_at = 0 }

-- What the capture thread and the application do to the store.
pub data Event : Type 0 where
  publish : ℕ → Option CapturedFrame → Event
  cleared : Event

pub step : FrameStore → Event → FrameStore
step s (publish now frame) = (publish_frame s now frame).0
step s cleared = clear s

pub run : FrameStore → List Event → FrameStore
run s [] = s
run s (e ∷ es) = run (step s e) es
