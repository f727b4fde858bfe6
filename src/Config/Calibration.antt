-- ===== src/Config/Calibration.antt =====
-- The `calibration` object of `parseVisionConfig`.
use nodus_vision.Prelude.{
  Bool, ◌||◌, not, any, List, [], ◌∷◌, Text, bytes, text_eq, ◌*◌, ◌^◌, ◌+◌, ℕ,
}
use nodus_vision.Prelude.Floating.{abs_exceeds}
use nodus_vision.Prelude.Json.{Members}
use nodus_vision.Prelude.Result.{Result, ok, invalid_argument, throw_if, ◌>>=◌, ◌>>◌}
use nodus_vision.Config.{MountLocalTransform, CalibrationConfig}
use nodus_vision.Config.Fields.{
  require_object, require_string, require_finite_number, reject_unknown_fields,
}

-- The bits of 10.0: 1.25 with the exponent 3.
abbrev pub max_mount_translation_m : ℕ
max_mount_translation_m = 1026 * 2 ^ 52 + 2 ^ 50

abbrev pub supported_euler_types : List Text
supported_euler_types =
    bytes "XYZ"
    ∷ bytes "XZY"
    ∷ bytes "YXZ"
    ∷ bytes "YZX"
    ∷ bytes "ZXY"
    ∷ bytes "ZYX"
    ∷ bytes "ZXZ"
    ∷ bytes "ZYZ"
    ∷ []

unfoldable pub is_euler_type_supported : Text → Bool
is_euler_type_supported euler_type = any (text_eq euler_type) supported_euler_types

unfoldable pub parse_mount_local_transform : Members → Result MountLocalTransform
unfolding reject_unknown_fields require_finite_number require_string
parse_mount_local_transform transform = do
  reject_unknown_fields transform
      (bytes "x"
        ∷ bytes "y"
        ∷ bytes "z"
        ∷ bytes "r1"
        ∷ bytes "r2"
        ∷ bytes "r3"
        ∷ bytes "euler_type"
        ∷ [])
      (bytes "/calibration/mount_local_transform")
  x ← require_finite_number transform (bytes "x") (bytes "/calibration/mount_local_transform/x")
  y ← require_finite_number transform (bytes "y") (bytes "/calibration/mount_local_transform/y")
  z ← require_finite_number transform (bytes "z") (bytes "/calibration/mount_local_transform/z")
  r1 ← require_finite_number transform (bytes "r1") (bytes "/calibration/mount_local_transform/r1")
  r2 ← require_finite_number transform (bytes "r2") (bytes "/calibration/mount_local_transform/r2")
  r3 ← require_finite_number transform (bytes "r3") (bytes "/calibration/mount_local_transform/r3")
  euler_type ←
      require_string transform (bytes "euler_type")
        (bytes "/calibration/mount_local_transform/euler_type")
  ok (record { x = x; y = y; z = z; r1 = r1; r2 = r2; r3 = r3; euler_type = euler_type })

-- The tests on the transform that has been read.
unfoldable pub check_mount_local_transform : MountLocalTransform → Result (Unit {0})
unfolding abs_exceeds is_euler_type_supported
check_mount_local_transform transform = do
  throw_if
      (abs_exceeds transform.x max_mount_translation_m
        || (abs_exceeds transform.y max_mount_translation_m
            || abs_exceeds transform.z max_mount_translation_m))
      (invalid_argument
        (bytes "/calibration/mount_local_transform: translation is outside the allowed range."))
  throw_if (not (is_euler_type_supported transform.euler_type)) (
      invalid_argument
        (bytes "/calibration/mount_local_transform/euler_type: unsupported Euler convention."))

unfoldable pub parse_calibration : Members → Result CalibrationConfig
unfolding require_object reject_unknown_fields require_string parse_mount_local_transform
    check_mount_local_transform
parse_calibration root = do
  calibration ← require_object root (bytes "calibration") (bytes "/calibration")
  reject_unknown_fields calibration
      (bytes "calibration_id"
        ∷ bytes "sensor_frame"
        ∷ bytes "mount_frame"
        ∷ bytes "mount_local_transform"
        ∷ [])
      (bytes "/calibration")
  calibration_id ←
      require_string calibration (bytes "calibration_id") (bytes "/calibration/calibration_id")
  sensor_frame ←
      require_string calibration (bytes "sensor_frame") (bytes "/calibration/sensor_frame")
  mount_frame ← require_string calibration (bytes "mount_frame") (bytes "/calibration/mount_frame")
  transform ←
      require_object calibration (bytes "mount_local_transform")
        (bytes "/calibration/mount_local_transform")
  mount_local_transform ← parse_mount_local_transform transform
  check_mount_local_transform mount_local_transform
  ok (record {
    calibration_id = calibration_id;
    sensor_frame = sensor_frame;
    mount_frame = mount_frame;
    mount_local_transform = mount_local_transform;
  })
