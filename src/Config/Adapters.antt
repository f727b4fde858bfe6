-- ===== src/Config/Adapters.antt =====
-- What `parseVisionConfig` of src/config/vision_config.cpp ensures of the device and of the
-- calibration.
use nodus_vision.Prelude.{
  ℕ, arith, ◌≡◌, ◌⊎◌, inl, inr, Text, bytes, text_eq, text_eq_iff, if_cases, or-false, not-false,
  ◌||◌, not, false, true, Bool, refl,
}
use nodus_vision.Prelude.Int.{ℤ, pos, pos_part}
use nodus_vision.Prelude.Json.{Members, has_member}
use nodus_vision.Prelude.Result.{
  ok, Ensures, Ensures-throw_if, Ensures-bind, Ensures-call, Exception, throw_if,
}
use nodus_vision.Prelude.Floating.{abs_exceeds}
use nodus_vision.Config.Calibration.{
  max_mount_translation_m, is_euler_type_supported, parse_calibration, parse_mount_local_transform,
  check_mount_local_transform,
}
use nodus_vision.Config.Device.{
  is_intel_d435_invalid, DeviceConfig, require_bool, require_double, parse_fake,
  parse_intel_d435_fields, parse_intel_d435, parse_adapter, parse_device,
  validate_intel_d435_adapter_config,
}
use nodus_vision.Config.{
  MountLocalTransform, CalibrationConfig, FakeCameraAdapterConfig, IntelD435AdapterConfig,
}
use nodus_vision.Config.Fields.Accepted.{
  Within, Between, IsName, IsLabel, IsFinite, int_field, name_field, finite_field,
  require_string_allow_empty-IsLabel,
}
use nodus_vision.Config.Fields.{require_object, reject_unknown_fields, require_string_allow_empty}

-- The six numbers are finite and the Euler convention has a name.
abbrev pub IsRead : MountLocalTransform → Type 0
IsRead t =
    IsFinite t.x
    × IsFinite t.y
    × IsFinite t.z
    × IsFinite t.r1
    × IsFinite t.r2
    × IsFinite t.r3
    × IsName t.euler_type

parse_mount_local_transform-lem :
    (members : Members) → Ensures IsRead (parse_mount_local_transform members)
unfolding parse_mount_local_transform
parse_mount_local_transform-lem members =
    let Q : MountLocalTransform → Type 0 = IsRead in
    Ensures-call Q (reject_unknown_fields members _ _) _ (λ _ _.
      finite_field Q members _ _ _ (λ x x_ok. finite_field Q members _ _ _ (λ y y_ok.
        finite_field Q members _ _ _ (λ z z_ok. finite_field Q members _ _ _ (λ r1 r1_ok.
          finite_field Q members _ _ _ (λ r2 r2_ok. finite_field Q members _ _ _ (λ r3 r3_ok.
            name_field Q members _ _ (λ _. ok _)
              (λ euler euler_ok. (x_ok, y_ok, z_ok, r1_ok, r2_ok, r3_ok, euler_ok)))))))))

-- The translation is at most 10 m along each axis, and the Euler convention is known.
abbrev pub IsMounted : MountLocalTransform → Type 0
IsMounted t =
    (abs_exceeds t.x max_mount_translation_m ≡ false)
    × (abs_exceeds t.y max_mount_translation_m ≡ false)
    × (abs_exceeds t.z max_mount_translation_m ≡ false)
    × (is_euler_type_supported t.euler_type ≡ true)

pub throw_if-lem :
    (P : Type 0) (rejected : Bool) (message : Exception)
    → (rejected ≡ false → P)
    → Ensures (λ _. P) (throw_if rejected message)
throw_if-lem P true message h = tt
throw_if-lem P false message h = h refl

check_mount_local_transform-lem :
    (t : MountLocalTransform) → Ensures (λ _. IsMounted t) (check_mount_local_transform t)
unfolding check_mount_local_transform
check_mount_local_transform-lem t =
    Ensures-throw_if (λ _. IsMounted t)
      (abs_exceeds t.x max_mount_translation_m
        || (abs_exceeds t.y max_mount_translation_m || abs_exceeds t.z max_mount_translation_m))
      _ _
      (λ far.
        let a : ((abs_exceeds t.x max_mount_translation_m ≡ false)
            × (abs_exceeds t.y max_mount_translation_m || abs_exceeds t.z max_mount_translation_m
                ≡ false)) =
          or-false _ _ far in
        let b : ((abs_exceeds t.y max_mount_translation_m ≡ false)
            × (abs_exceeds t.z max_mount_translation_m ≡ false)) =
          or-false _ _ a.1 in
        throw_if-lem (IsMounted t) (not (is_euler_type_supported t.euler_type)) _
          (λ known. (a.0, b.0, b.1, not-false _ known)))

abbrev pub IsCalibrationConfig : CalibrationConfig → Type 0
IsCalibrationConfig c =
    IsName c.calibration_id
    × IsName c.sensor_frame
    × IsName c.mount_frame
    × IsRead c.mount_local_transform
    × IsMounted c.mount_local_transform

pub parse_calibration-lem : (root : Members) → Ensures IsCalibrationConfig (parse_calibration root)
unfolding parse_calibration
parse_calibration-lem root =
    let Q : CalibrationConfig → Type 0 = IsCalibrationConfig in
    Ensures-call Q (require_object root _ _) _ (λ calibration _.
      Ensures-call Q (reject_unknown_fields calibration _ _) _ (λ _ _.
        name_field Q calibration _ _ _ (λ id id_ok.
          name_field Q calibration _ _ _ (λ frame frame_ok.
            name_field Q calibration _ _ _ (λ mount mount_ok.
              Ensures-call Q (require_object calibration _ _) _ (λ members _.
                Ensures-bind IsRead Q (parse_mount_local_transform members) _
                  (parse_mount_local_transform-lem members)
                  (λ transform read.
                    Ensures-bind (λ _. IsMounted transform) Q
                      (check_mount_local_transform transform) (λ _. ok _)
                      (check_mount_local_transform-lem transform)
                      (λ _ mounted. (id_ok, frame_ok, mount_ok, read, mounted)))))))))

abbrev pub IsFakeConfig : FakeCameraAdapterConfig → Type 0
IsFakeConfig c =
    Within (pos 1) (pos 4096) c.width
    × Within (pos 1) (pos 4096) c.height
    × Within (pos 1) (pos 240) c.fps
    × Between 1 1000000000 c.start_frame_number
    × Between 0 255 c.pattern_seed

natural : (low high : ℕ) (z : ℤ) → Within (pos low) (pos high) z → Between low high (pos_part z)
natural low high z h = ground arith

parse_fake-lem : (device : Members) (id : Text) → Ensures IsFakeConfig (parse_fake device id)
unfolding parse_fake
parse_fake-lem device id =
    let Q : FakeCameraAdapterConfig → Type 0 = IsFakeConfig in
    Ensures-throw_if Q (has_member device (bytes "intel_d435")) _ _ (λ _.
      Ensures-call Q (require_object device _ _) _ (λ fake _.
        Ensures-call Q (reject_unknown_fields fake _ _) _ (λ _ _.
          int_field Q fake _ _ (pos 1) (pos 4096) _ (λ width width_ok.
            int_field Q fake _ _ (pos 1) (pos 4096) _ (λ height height_ok.
              int_field Q fake _ _ (pos 1) (pos 240) _ (λ fps fps_ok.
                int_field Q fake _ _ (pos 1) (pos 1000000000) _ (λ start start_ok.
                  int_field Q fake _ _ (pos 0) (pos 255) (λ _. ok _)
                    (λ seed seed_ok. (
                      width_ok,
                      height_ok,
                      fps_ok,
                      natural 1 1000000000 start start_ok,
                      natural 0 255 seed seed_ok,
                    )))))))))

abbrev pub IsIntelConfig : IntelD435AdapterConfig → Type 0
IsIntelConfig c =
    IsLabel c.serial_number
    × Within (pos 1) (pos 4096) c.depth_width
    × Within (pos 1) (pos 4096) c.depth_height
    × Within (pos 1) (pos 240) c.depth_fps
    × Within (pos 1) (pos 4096) c.color_width
    × Within (pos 1) (pos 4096) c.color_height
    × Within (pos 1) (pos 240) c.color_fps

parse_intel_d435_fields-lem :
    (d435 : Members) (id : Text) → Ensures IsIntelConfig (parse_intel_d435_fields d435 id)
unfolding parse_intel_d435_fields
parse_intel_d435_fields-lem d435 id =
    let Q : IntelD435AdapterConfig → Type 0 = IsIntelConfig in
    Ensures-bind IsLabel Q (require_string_allow_empty d435 _ _) _
      (require_string_allow_empty-IsLabel d435 _ _)
      (λ serial serial_ok. int_field Q d435 _ _ (pos 1) (pos 4096) _ (λ depth_width depth_width_ok.
        int_field Q d435 _ _ (pos 1) (pos 4096) _ (λ depth_height depth_height_ok.
          int_field Q d435 _ _ (pos 1) (pos 240) _ (λ depth_fps depth_fps_ok.
            int_field Q d435 _ _ (pos 1) (pos 4096) _ (λ width width_ok.
              int_field Q d435 _ _ (pos 1) (pos 4096) _ (λ height height_ok.
                int_field Q d435 _ _ (pos 1) (pos 240) _ (λ fps fps_ok.
                  Ensures-call Q (require_bool d435 _ _) _ (λ color _.
                    Ensures-call Q (require_double d435 _ _) _ (λ minimum _.
                      Ensures-call Q (require_double d435 _ _) (λ _. ok _)
                        (λ maximum _. (
                          serial_ok, depth_width_ok, depth_height_ok, depth_fps_ok, width_ok,
                          height_ok, fps_ok,
                        )))))))))))

-- The adapter would take the configuration.
abbrev pub IsIntelDevice : IntelD435AdapterConfig → Type 0
IsIntelDevice c = IsIntelConfig c × (is_intel_d435_invalid c ≡ false)

validate_intel_d435_adapter_config-lem :
    (c : IntelD435AdapterConfig)
    → Ensures (λ _. is_intel_d435_invalid c ≡ false) (validate_intel_d435_adapter_config c)
unfolding validate_intel_d435_adapter_config
validate_intel_d435_adapter_config-lem c =
    throw_if-lem (is_intel_d435_invalid c ≡ false) (is_intel_d435_invalid c) _ (λ e. e)

parse_intel_d435-lem :
    (device : Members) (id : Text) → Ensures IsIntelDevice (parse_intel_d435 device id)
unfolding parse_intel_d435
parse_intel_d435-lem device id =
    let Q : IntelD435AdapterConfig → Type 0 = IsIntelDevice in
    Ensures-throw_if Q (has_member device (bytes "fake")) _ _ (λ _.
      Ensures-call Q (require_object device _ _) _ (λ d435 _.
        Ensures-call Q (reject_unknown_fields d435 _ _) _ (λ _ _.
          Ensures-bind IsIntelConfig Q (parse_intel_d435_fields d435 id) _
            (parse_intel_d435_fields-lem d435 id)
            (λ config config_ok.
              Ensures-bind (λ _. is_intel_d435_invalid config ≡ false) Q
                (validate_intel_d435_adapter_config config) (λ _. ok config)
                (validate_intel_d435_adapter_config-lem config) (λ _ valid. (config_ok, valid))))))

-- The adapter is one of the two, and its configuration is valid and in range.
abbrev pub IsDeviceConfig : DeviceConfig → Type 0
IsDeviceConfig c =
    ((c.adapter ≡ bytes "fake") × IsFakeConfig c.fake)
    ⊎ ((c.adapter ≡ bytes "intel_d435") × IsIntelDevice c.intel_d435)

parse_adapter-lem :
    (adapter : Text) (device : Members) (id : Text)
    → Ensures IsDeviceConfig (parse_adapter adapter device id)
unfolding parse_adapter
parse_adapter-lem adapter device id =
    let Q : DeviceConfig → Type 0 = IsDeviceConfig in
    if_cases (Ensures Q) (text_eq adapter (bytes "fake")) _ _
      (λ e.
        Ensures-bind IsFakeConfig Q (parse_fake device id) (λ _. ok _) (parse_fake-lem device id)
          (λ fake fake_ok. inl ((text_eq_iff adapter (bytes "fake")).0 e, fake_ok)))
      (λ _.
        if_cases (Ensures Q) (text_eq adapter (bytes "intel_d435")) _ _
          (λ e.
            Ensures-bind IsIntelDevice Q (parse_intel_d435 device id) (λ _. ok _)
              (parse_intel_d435-lem device id)
              (λ intel intel_ok. inr ((text_eq_iff adapter (bytes "intel_d435")).0 e, intel_ok)))
          (λ _. tt))

pub parse_device-lem : (root : Members) (id : Text) → Ensures IsDeviceConfig (parse_device root id)
unfolding parse_device
parse_device-lem root id =
    let Q : DeviceConfig → Type 0 = IsDeviceConfig in
    Ensures-call Q (require_object root _ _) _ (λ device _.
      Ensures-call Q (reject_unknown_fields device _ _) _
        (λ _ _. name_field Q device _ _ _ (λ adapter _. parse_adapter-lem adapter device id)))
