-- ===== src/Geometry.antt =====
-- `buildCameraMountTransform` of src/geometry/camera_mount_transform.cpp. A double is its bits, and a
-- matrix the list of its sixteen entries, row by row. The operations on doubles, each of which rounds,
-- and the C++ library's sine and cosine are a record that is an argument.
pub mod Mounted
use nodus_vision.Prelude.{
  ℕ, ◌+◌, ◌*◌, ◌/◌, ◌%◌, ◌^◌, Bool, ◌||◌, not, none, some, List, [], ◌∷◌, map, any, Text, bytes,
  is_empty, length, get_elem?, ◌==◌, if◌then◌else◌,
}
use nodus_vision.Prelude.Floating.{is_finite_f64, abs_exceeds}
use nodus_vision.Prelude.Result.{
  Result, ok, err, invalid_argument, out_of_range, throw_if, ◌>>=◌, ◌>>◌,
}
use nodus_vision.Config.{MountLocalTransform, CalibrationConfig}

pub record DoubleArithmetic : Type 0 where
  pub add : ℕ → ℕ → ℕ
  pub sub : ℕ → ℕ → ℕ
  pub mul : ℕ → ℕ → ℕ
  pub cos : ℕ → ℕ
  pub sin : ℕ → ℕ

abbrev one : ℕ
one = 1023 * 2 ^ 52

-- The double 1.0e-9.
abbrev rotation_tolerance : ℕ
rotation_tolerance = 4472406533629990549

-- The other sign.
abbrev negated : ℕ → ℕ
negated bits = (bits + 2 ^ 63) % 2 ^ 64

abbrev at : List ℕ → ℕ → ℕ
at matrix index = elim (get_elem? matrix index) [ none ↦ 0 | some value ↦ value ]

abbrev pub make_identity_matrix : List ℕ
make_identity_matrix = one ∷ 0 ∷ 0 ∷ 0 ∷ 0 ∷ one ∷ 0 ∷ 0 ∷ 0 ∷ 0 ∷ one ∷ 0 ∷ 0 ∷ 0 ∷ 0 ∷ one ∷ []

abbrev camera_body_from_camera_optical : List ℕ
camera_body_from_camera_optical =
    one ∷ 0 ∷ 0 ∷ 0 ∷ 0 ∷ 0 ∷ one ∷ 0 ∷ 0 ∷ negated one ∷ 0 ∷ 0 ∷ 0 ∷ 0 ∷ 0 ∷ one ∷ []

-- 0, 1, ... in order.
abbrev nine : List ℕ
nine = 0 ∷ 1 ∷ 2 ∷ 3 ∷ 4 ∷ 5 ∷ 6 ∷ 7 ∷ 8 ∷ []

abbrev sixteen : List ℕ
sixteen = 0 ∷ 1 ∷ 2 ∷ 3 ∷ 4 ∷ 5 ∷ 6 ∷ 7 ∷ 8 ∷ 9 ∷ 10 ∷ 11 ∷ 12 ∷ 13 ∷ 14 ∷ 15 ∷ []

product_entry : DoubleArithmetic → List ℕ → List ℕ → ℕ → ℕ → ℕ
product_entry a lhs rhs row column =
    a.add
      (a.add
        (a.add (a.add 0 (a.mul (at lhs (row * 4)) (at rhs column)))
          (a.mul (at lhs (row * 4 + 1)) (at rhs (4 + column))))
        (a.mul (at lhs (row * 4 + 2)) (at rhs (8 + column))))
      (a.mul (at lhs (row * 4 + 3)) (at rhs (12 + column)))

unfoldable pub multiply_matrices : DoubleArithmetic → List ℕ → List ℕ → List ℕ
unfolding product_entry
multiply_matrices a lhs rhs = map (λ index. product_entry a lhs rhs (index / 4) (index % 4)) sixteen

-- The axis is a byte: X, Y or Z.
unfoldable pub make_axis_rotation : DoubleArithmetic → ℕ → ℕ → Result (List ℕ)
make_axis_rotation a axis angle =
    let c = a.cos angle in
    let s = a.sin angle in
    if axis == 88
    then ok (one ∷ 0 ∷ 0 ∷ 0 ∷ 0 ∷ c ∷ negated s ∷ 0 ∷ 0 ∷ s ∷ c ∷ 0 ∷ 0 ∷ 0 ∷ 0 ∷ one ∷ [])
    else if axis == 89
    then ok (c ∷ 0 ∷ s ∷ 0 ∷ 0 ∷ one ∷ 0 ∷ 0 ∷ negated s ∷ 0 ∷ c ∷ 0 ∷ 0 ∷ 0 ∷ 0 ∷ one ∷ [])
    else if axis == 90
    then ok (c ∷ negated s ∷ 0 ∷ 0 ∷ s ∷ c ∷ 0 ∷ 0 ∷ 0 ∷ 0 ∷ one ∷ 0 ∷ 0 ∷ 0 ∷ 0 ∷ one ∷ [])
    else err (invalid_argument (bytes "Camera mount Euler axis is invalid."))

is_dot_product_off : DoubleArithmetic → List ℕ → ℕ → ℕ → Bool
is_dot_product_off a m row column =
    abs_exceeds
      (a.sub
        (a.add
          (a.add (a.add 0 (a.mul (at m (row * 4)) (at m (column * 4))))
            (a.mul (at m (row * 4 + 1)) (at m (column * 4 + 1))))
          (a.mul (at m (row * 4 + 2)) (at m (column * 4 + 2))))
        (if row == column then one else 0))
      rotation_tolerance

determinant : DoubleArithmetic → List ℕ → ℕ
determinant a m =
    a.add
      (a.sub (a.mul (at m 0) (a.sub (a.mul (at m 5) (at m 10)) (a.mul (at m 6) (at m 9))))
        (a.mul (at m 1) (a.sub (a.mul (at m 4) (at m 10)) (a.mul (at m 6) (at m 8)))))
      (a.mul (at m 2) (a.sub (a.mul (at m 4) (at m 9)) (a.mul (at m 5) (at m 8))))

unfoldable pub validate_matrix : DoubleArithmetic → List ℕ → Result (Unit {0})
unfolding is_dot_product_off determinant
validate_matrix a m = do
  throw_if (any (λ value. not (is_finite_f64 value)) m)
      (invalid_argument (bytes "Camera mount matrix must be finite."))
  throw_if
      (abs_exceeds (at m 12) rotation_tolerance
        || (abs_exceeds (at m 13) rotation_tolerance
            || (abs_exceeds (at m 14) rotation_tolerance
                || abs_exceeds (a.sub (at m 15) one) rotation_tolerance)))
      (invalid_argument (bytes "Camera mount matrix homogeneous row is invalid."))
  throw_if (any (λ index. is_dot_product_off a m (index / 3) (index % 3)) nine)
      (invalid_argument (bytes "Camera mount rotation is not orthonormal."))
  throw_if (abs_exceeds (a.sub (determinant a m) one) rotation_tolerance)
      (invalid_argument (bytes "Camera mount rotation determinant is invalid."))

pub record CameraMountTransform : Type 0 where
  pub calibration_id : Text
  pub sensor_frame : Text
  pub mount_frame : Text
  pub mount_from_camera_optical_matrix4x4 : List ℕ

unfoldable pub is_calibration_invalid : CalibrationConfig → Bool
is_calibration_invalid c =
    let t : MountLocalTransform = c.mount_local_transform in
    is_empty c.calibration_id
    || (is_empty c.sensor_frame
        || (is_empty c.mount_frame
            || (not (length t.euler_type == 3)
                || (not (is_finite_f64 t.x)
                    || (not (is_finite_f64 t.y)
                        || (not (is_finite_f64 t.z)
                            || (not (is_finite_f64 t.r1)
                                || (not (is_finite_f64 t.r2) || not (is_finite_f64 t.r3)))))))))

-- The loop over the angles; `at` throws where the convention is too short.
unfoldable pub rotate : DoubleArithmetic → Text → List ℕ → List ℕ → Result (List ℕ)
unfolding multiply_matrices make_axis_rotation
rotate a axes [] body = ok body
rotate a [] (angle ∷ angles) body = err out_of_range
rotate a (axis ∷ axes) (angle ∷ angles) body = do
  rotation ← make_axis_rotation a axis angle
  rotate a axes angles (multiply_matrices a body rotation)

-- The rotation with the translation, in front of the optical convention.
unfoldable pub mount_matrix : DoubleArithmetic → MountLocalTransform → List ℕ → List ℕ
unfolding multiply_matrices
mount_matrix a t m =
    multiply_matrices a
      (at m 0
        ∷ at m 1
        ∷ at m 2
        ∷ t.x
        ∷ at m 4
        ∷ at m 5
        ∷ at m 6
        ∷ t.y
        ∷ at m 8
        ∷ at m 9
        ∷ at m 10
        ∷ t.z
        ∷ at m 12
        ∷ at m 13
        ∷ at m 14
        ∷ at m 15
        ∷ [])
      camera_body_from_camera_optical

unfoldable pub mount_rotation : DoubleArithmetic → MountLocalTransform → Result (List ℕ)
unfolding rotate
mount_rotation a t = rotate a t.euler_type (t.r1 ∷ t.r2 ∷ t.r3 ∷ []) make_identity_matrix

validated : DoubleArithmetic → CalibrationConfig → List ℕ → Result CameraMountTransform
unfolding validate_matrix
validated a c matrix = do
  validate_matrix a matrix
  ok (record {
    calibration_id = c.calibration_id;
    sensor_frame = c.sensor_frame;
    mount_frame = c.mount_frame;
    mount_from_camera_optical_matrix4x4 = matrix;
  })

unfoldable pub build_camera_mount_transform :
    DoubleArithmetic → CalibrationConfig → Result CameraMountTransform
unfolding is_calibration_invalid mount_rotation mount_matrix validated
build_camera_mount_transform a c = do
  throw_if (is_calibration_invalid c)
      (invalid_argument (bytes "Camera mount calibration is invalid."))
  rotation ← mount_rotation a c.mount_local_transform
  validated a c (mount_matrix a c.mount_local_transform rotation)
