-- ===== src/Geometry/Mounted.antt =====
-- The mount transform of src/geometry/camera_mount_transform.cpp on a calibration that the parser of
-- the configuration accepted.
use nodus_vision.Prelude.{
  ℕ, ◌≡◌, ◌≢◌, refl, sym, subst, Bool-cases, true, false, ◌||◌, inl, inr, List, [], ◌∷◌, Text,
  bytes, text_eq, text_eq_iff, is_empty, any, All, length, ◌==◌,
}
use nodus_vision.Prelude.Result.{Result, ok, err, is_ok, Ensures, seq_ok, not_thrown, bind_is_ok}
use nodus_vision.Config.{MountLocalTransform, CalibrationConfig}
use nodus_vision.Config.Calibration.{supported_euler_types, is_euler_type_supported}
use nodus_vision.Config.Adapters.{IsCalibrationConfig}
use nodus_vision.Geometry.{
  DoubleArithmetic, make_identity_matrix, make_axis_rotation, validate_matrix, rotate, mount_matrix,
  mount_rotation, validated, is_calibration_invalid, build_camera_mount_transform,
}

-- The rounding of the matrix operations stays within the tolerance of `validateMatrix`.
abbrev pub IsRigid : DoubleArithmetic → CalibrationConfig → Type 0
IsRigid a c =
    Ensures
      (λ rotation. validate_matrix a (mount_matrix a c.mount_local_transform rotation) ≡ ok tt)
      (mount_rotation a c.mount_local_transform)

some_case :
    (P : Text → Type 0) (s : Text) (ts : List Text) → All P ts → any (text_eq s) ts ≡ true → P s
some_case P s [] h e = cc
some_case P s (t ∷ ts) (p, ps) e = elim (Bool-cases (text_eq s t)) [
  | inl same ↦ subst P (sym ((text_eq_iff s t).0 same)) p
  | inr other ↦ some_case P s ts ps (subst (λ b. b || any (text_eq s) ts ≡ true) other e)
]

rotate-is_ok :
    (a : DoubleArithmetic) (s : Text) (r1 r2 r3 : ℕ) (m : List ℕ)
    → is_euler_type_supported s ≡ true
    → is_ok (rotate a s (r1 ∷ r2 ∷ r3 ∷ []) m) ≡ true
unfolding rotate make_axis_rotation is_euler_type_supported bytes
rotate-is_ok a s r1 r2 r3 m =
    some_case (λ t. is_ok (rotate a t (r1 ∷ r2 ∷ r3 ∷ []) m) ≡ true) s supported_euler_types
      (refl, (refl, (refl, (refl, (refl, (refl, (refl, (refl, tt))))))))

three_axes : (s : Text) → is_euler_type_supported s ≡ true → length s == 3 ≡ true
unfolding is_euler_type_supported bytes
three_axes s =
    some_case (λ t. length t == 3 ≡ true) s supported_euler_types
      (refl, (refl, (refl, (refl, (refl, (refl, (refl, (refl, tt))))))))

given : (s : Text) → s ≢ [] → is_empty s ≡ false
given [] h = absurd (h refl)
given (b ∷ bs) h = refl

is_calibration_invalid-accepted :
    (c : CalibrationConfig) → IsCalibrationConfig c → is_calibration_invalid c ≡ false
unfolding is_calibration_invalid
is_calibration_invalid-accepted c
      (id, frame, mount, (x, y, z, r1, r2, r3, name), (far_x, far_y, far_z, euler)) =
    rw (
      given c.calibration_id id.0,
      given c.sensor_frame frame.0,
      given c.mount_frame mount.0,
      three_axes c.mount_local_transform.euler_type euler,
      x,
      y,
      z,
      r1,
      r2,
      r3,
    )

validated-is_ok :
    (a : DoubleArithmetic) (c : CalibrationConfig) (matrix : List ℕ)
    → validate_matrix a matrix ≡ ok tt
    → is_ok (validated a c matrix) ≡ true
unfolding validated
validated-is_ok a c matrix e = seq_ok _ _ e refl

Ensures-map :
    {A : Type 0} (P Q : A → Type 0) (r : Result A)
    → ((a : A) → P a → Q a)
    → Ensures P r
    → Ensures Q r
Ensures-map P Q (ok a) f p = f a p
Ensures-map P Q (err e) f p = tt

-- The transform of an accepted calibration is built, where the rounding stays within the tolerance.
pub build_camera_mount_transform-is_ok :
    (a : DoubleArithmetic) (c : CalibrationConfig)
    → IsCalibrationConfig c
    → IsRigid a c
    → is_ok (build_camera_mount_transform a c) ≡ true
unfolding build_camera_mount_transform mount_rotation
build_camera_mount_transform-is_ok a c (id, frame, mount, read, (far_x, far_y, far_z, euler)) h =
    let t : MountLocalTransform = c.mount_local_transform in
    seq_ok _ _
      (not_thrown _ _
        (is_calibration_invalid-accepted c (id, frame, mount, read, (far_x, far_y, far_z, euler))))
      (bind_is_ok (mount_rotation a t) _
        (rotate-is_ok a t.euler_type t.r1 t.r2 t.r3 make_identity_matrix euler)
        (Ensures-map (λ rotation. validate_matrix a (mount_matrix a t rotation) ≡ ok tt)
          (λ rotation. is_ok (validated a c (mount_matrix a t rotation)) ≡ true)
          (mount_rotation a t) (λ rotation. validated-is_ok a c (mount_matrix a t rotation)) h))
