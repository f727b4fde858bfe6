-- ===== src/Camera/Order.antt =====
-- The order of frame identities. The same comparison is written four times in the source:
-- src/core/frame_store.cpp branches on the generation, and encoded_preview_cache.cpp,
-- provider_http_server.cpp, recording_manager.cpp and recording_manifest.cpp join two tests.
use nodus_vision.Prelude.{
  ◌<◌, ◌≡◌, ◌⊎◌, ◌↔◌, Bool, true, not, ◌&&◌, ◌||◌, ltb, ◌==◌, if◌then◌else◌, arith,
}
use nodus_vision.Camera.Contracts.{FrameIdentity}

-- `isNewerIdentity` of frame_store.cpp.
unfoldable pub is_newer_identity : FrameIdentity → FrameIdentity → Bool
is_newer_identity candidate current =
    if not (candidate.capture_generation == current.capture_generation)
    then ltb current.capture_generation candidate.capture_generation
    else ltb current.frame_number candidate.frame_number

-- `isNewer`, `isNewerIdentity` and `isStrictlyAfter` of the other files.
unfoldable pub is_strictly_after : FrameIdentity → FrameIdentity → Bool
is_strictly_after candidate previous =
    ltb previous.capture_generation candidate.capture_generation
    || ((candidate.capture_generation == previous.capture_generation)
        && ltb previous.frame_number candidate.frame_number)

-- The lexicographic order of (generation, frame number).
abbrev pub Newer : FrameIdentity → FrameIdentity → Type 0
Newer a b =
    (b.capture_generation < a.capture_generation)
    ⊎ ((b.capture_generation ≡ a.capture_generation) × (b.frame_number < a.frame_number))

-- Both ways of writing the comparison decide the lexicographic order.
pub is_newer_identity_iff : (a b : FrameIdentity) → (is_newer_identity a b ≡ true) ↔ Newer a b
unfolding is_newer_identity
is_newer_identity_iff a b = ground arith

pub is_strictly_after_iff : (a b : FrameIdentity) → (is_strictly_after a b ≡ true) ↔ Newer a b
unfolding is_strictly_after
is_strictly_after_iff a b = ground arith

-- The comparison of the frame store and that of the recorder give the same answer on all identities.
pub is_newer-is_strictly_after :
    (a b : FrameIdentity) → is_newer_identity a b ≡ is_strictly_after a b
unfolding is_newer_identity is_strictly_after
is_newer-is_strictly_after a b = ground arith

pub Newer-irrefl : (a : FrameIdentity) → ¬ Newer a a
Newer-irrefl a h = omega arith

pub Newer-trans : (a b c : FrameIdentity) → Newer a b → Newer b c → Newer a c
Newer-trans a b c p q = omega arith
