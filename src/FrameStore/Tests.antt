-- ===== src/FrameStore/Tests.antt =====
-- The frame store on concrete frames.
use nodus_vision.Prelude.{◌≡◌, ◌↔◌, refl, false, none, some, [], ◌∷◌, All, List, ◌≤◌, ◌*◌, ◌-◌}
use nodus_vision.Prelude.Int.{pos, pos_part, ◌<ℤ◌}
use nodus_vision.Camera.Order.{Newer}
use nodus_vision.Camera.Samples.{identity_of, frame_of}
use nodus_vision.FrameStore.{
  FrameStore, empty, publish_frame, acquire_fresh_frame, has_newer_frame, wait_for_frame_after,
  Event, publish, cleared, run,
}
use nodus_vision.FrameStore.Latest.{
  seen, IsLatest, HeldBy, run-IsLatest, acquire_fresh_frame_iff, wait_for_frame_after-none,
  wait_for_frame_after-Newer,
}

-- A clear, then frames 5, 7 and a late 6.
abbrev history : List Event
history =
    publish 1 (some (frame_of 1 9))
    ∷ cleared
    ∷ publish 2 (some (frame_of 2 5))
    ∷ publish 3 (some (frame_of 2 7))
    ∷ publish 4 (some (frame_of 2 6))
    ∷ publish 5 none
    ∷ []

history_latest : (run empty history).latest_frame ≡ some (frame_of 2 7)
unfolding run nodus_vision.FrameStore.step publish_frame nodus_vision.FrameStore.clear
    nodus_vision.Camera.Order.is_newer_identity
history_latest = refl

run-IsLatest_example : IsLatest (run empty history).latest_frame (seen [] history)
run-IsLatest_example = run-IsLatest history

abbrev held : FrameStore
held = record { latest_frame = some (frame_of 2 7); published_at = 1_000 }

acquire_fresh_frame_iff_example :
    (acquire_fresh_frame held 2_001_000 (pos 2) ≡ some (frame_of 2 7)) ↔ (
      (held.latest_frame ≡ some (frame_of 2 7))
      × (pos 0 <ℤ pos 2)
      × (2_001_000 - 1_000 ≤ pos_part (pos 2) * 1_000_000))
acquire_fresh_frame_iff_example = acquire_fresh_frame_iff held 2_001_000 (pos 2) (frame_of 2 7)

too_old : acquire_fresh_frame held 2_001_001 (pos 2) ≡ none
unfolding acquire_fresh_frame
too_old = refl

wait_for_frame_after-none_example :
    (wait_for_frame_after (identity_of 2 7) empty (held ∷ []) ≡ none)
    ↔ All (λ t. has_newer_frame t (identity_of 2 7) ≡ false) (empty ∷ held ∷ [])
wait_for_frame_after-none_example = wait_for_frame_after-none (identity_of 2 7) empty (held ∷ [])

woken : wait_for_frame_after (identity_of 2 6) empty (held ∷ []) ≡ some (frame_of 2 7)
unfolding wait_for_frame_after has_newer_frame nodus_vision.Camera.Order.is_newer_identity
woken = refl

wait_for_frame_after-Newer_example :
    Newer (frame_of 2 7).snapshot.identity (identity_of 2 6)
    × HeldBy (frame_of 2 7) (empty ∷ held ∷ [])
wait_for_frame_after-Newer_example =
    wait_for_frame_after-Newer (identity_of 2 6) empty (held ∷ []) (frame_of 2 7) woken
