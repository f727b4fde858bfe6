-- ===== src/Camera/Tests.antt =====
-- The order of identities.
use nodus_vision.Prelude.{◌≡◌}
use nodus_vision.Camera.Order.{is_newer_identity, is_strictly_after, is_newer-is_strictly_after}
use nodus_vision.Camera.Samples.{identity_of}

is_newer-is_strictly_after_example :
    is_newer_identity (identity_of 2 1) (identity_of 1 9)
    ≡ is_strictly_after (identity_of 2 1) (identity_of 1 9)
is_newer-is_strictly_after_example = is_newer-is_strictly_after (identity_of 2 1) (identity_of 1 9)
