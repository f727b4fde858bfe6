-- ===== src/Config/Device.antt =====
-- The `device` object of `parseVisionConfig`, and `validateIntelD435AdapterConfig` of
-- src/adapters/intel_d435/intel_d435_adapter.cpp.
use nodus_vision.Prelude.{
  ℕ, Bool, true, false, ◌||◌, ◌&&◌, [], ◌∷◌, Text, bytes, text_eq, if◌then◌else◌,
}
use nodus_vision.Prelude.Int.{pos, leb_ℤ, pos_part}
use nodus_vision.Prelude.Floating.{float_of_double, less_f32, at_most_f32}
use nodus_vision.Prelude.Json.{Json, boolean, floating, Members, has_member}
use nodus_vision.Prelude.Result.{
  Result, ok, err, invalid_argument, system_error, throw_if, ◌>>=◌, ◌>>◌,
}
use nodus_vision.Config.{FakeCameraAdapterConfig, IntelD435AdapterConfig}
use nodus_vision.Config.Fields.{
  require_field, require_object, require_string, require_string_allow_empty, require_bounded_int,
  reject_unknown_fields,
}

unfoldable pub default_fake : FakeCameraAdapterConfig
default_fake = record {
  width = pos 8;
  height = pos 6;
  fps = pos 30;
  start_frame_number = 1;
  pattern_seed = 7;
  auto_advance = true;
  inject_timeout = false;
  inject_read_error = false;
  device_id = bytes "fake_camera";
}

-- 10.0F has the bits 1092616192.
unfoldable pub default_intel_d435 : IntelD435AdapterConfig
default_intel_d435 = record {
  serial_number = [];
  device_name_filter = bytes "D435";
  depth_width = pos 640;
  depth_height = pos 480;
  depth_fps = pos 30;
  enable_color = true;
  color_width = pos 640;
  color_height = pos 480;
  color_fps = pos 30;
  depth_min_m = 0;
  depth_max_m = 1092616192;
  device_id = [];
}

-- The test of `validateIntelD435AdapterConfig`.
unfoldable pub is_intel_d435_invalid : IntelD435AdapterConfig → Bool
unfolding less_f32 at_most_f32
is_intel_d435_invalid c =
    leb_ℤ c.depth_width (pos 0)
    || (leb_ℤ c.depth_height (pos 0)
        || (leb_ℤ c.depth_fps (pos 0)
            || ((c.enable_color
                  && (leb_ℤ c.color_width (pos 0)
                      || (leb_ℤ c.color_height (pos 0) || leb_ℤ c.color_fps (pos 0))))
                || (less_f32 c.depth_min_m 0
                    || (at_most_f32 c.depth_max_m 0 || less_f32 c.depth_max_m c.depth_min_m)))))

unfoldable pub validate_intel_d435_adapter_config : IntelD435AdapterConfig → Result (Unit {0})
unfolding is_intel_d435_invalid
validate_intel_d435_adapter_config c =
    throw_if (is_intel_d435_invalid c)
      (invalid_argument (bytes "Intel D435 stream profile or depth range is invalid."))

unfoldable pub parse_fake : Members → Text → Result FakeCameraAdapterConfig
unfolding has_member default_fake require_object reject_unknown_fields require_bounded_int
parse_fake device device_id = do
  throw_if (has_member device (bytes "intel_d435")) (
      invalid_argument (bytes "/device/intel_d435: inactive adapter configuration is not allowed."))
  fake ← require_object device (bytes "fake") (bytes "/device/fake")
  reject_unknown_fields fake
      (bytes "width"
        ∷ bytes "height"
        ∷ bytes "fps"
        ∷ bytes "start_frame_number"
        ∷ bytes "pattern_seed"
        ∷ [])
      (bytes "/device/fake")
  width ← require_bounded_int fake (bytes "width") (bytes "/device/fake/width") (pos 1) (pos 4096)
  height ←
      require_bounded_int fake (bytes "height") (bytes "/device/fake/height") (pos 1) (pos 4096)
  fps ← require_bounded_int fake (bytes "fps") (bytes "/device/fake/fps") (pos 1) (pos 240)
  start_frame_number ←
      require_bounded_int fake (bytes "start_frame_number")
        (bytes "/device/fake/start_frame_number") (pos 1) (pos 1000000000)
  pattern_seed ←
      require_bounded_int fake (bytes "pattern_seed") (bytes "/device/fake/pattern_seed") (pos 0)
        (pos 255)
  ok (record default_fake {
    width = width;
    height = height;
    fps = fps;
    start_frame_number = pos_part start_frame_number;
    pattern_seed = pos_part pattern_seed;
    device_id = device_id;
  })

-- `value::as_bool` and `value::as_double` throw on a value of another kind.
as_bool : Json → Result Bool
as_bool (boolean b) = ok b
as_bool _ = err system_error

as_double : Json → Result ℕ
as_double (floating bits) = ok bits
as_double _ = err system_error

unfoldable pub require_bool : Members → Text → Text → Result Bool
unfolding require_field as_bool
require_bool fields key path = require_field fields key path >>= as_bool

unfoldable pub require_double : Members → Text → Text → Result ℕ
unfolding require_field as_double
require_double fields key path = require_field fields key path >>= as_double

-- The fields of the object.
unfoldable pub parse_intel_d435_fields : Members → Text → Result IntelD435AdapterConfig
unfolding require_string_allow_empty require_bounded_int require_bool require_double float_of_double
    default_intel_d435
parse_intel_d435_fields d435 device_id = do
  serial_number ←
      require_string_allow_empty d435 (bytes "serial_number")
        (bytes "/device/intel_d435/serial_number")
  depth_width ←
      require_bounded_int d435 (bytes "depth_width") (bytes "/device/intel_d435/depth_width")
        (pos 1) (pos 4096)
  depth_height ←
      require_bounded_int d435 (bytes "depth_height") (bytes "/device/intel_d435/depth_height")
        (pos 1) (pos 4096)
  depth_fps ←
      require_bounded_int d435 (bytes "depth_fps") (bytes "/device/intel_d435/depth_fps") (pos 1)
        (pos 240)
  color_width ←
      require_bounded_int d435 (bytes "color_width") (bytes "/device/intel_d435/color_width")
        (pos 1) (pos 4096)
  color_height ←
      require_bounded_int d435 (bytes "color_height") (bytes "/device/intel_d435/color_height")
        (pos 1) (pos 4096)
  color_fps ←
      require_bounded_int d435 (bytes "color_fps") (bytes "/device/intel_d435/color_fps") (pos 1)
        (pos 240)
  enable_color ← require_bool d435 (bytes "enable_color") (bytes "/device/intel_d435/enable_color")
  depth_min_m ← require_double d435 (bytes "depth_min_m") (bytes "/device/intel_d435/depth_min_m")
  depth_max_m ← require_double d435 (bytes "depth_max_m") (bytes "/device/intel_d435/depth_max_m")
  ok (record default_intel_d435 {
    serial_number = serial_number;
    depth_width = depth_width;
    depth_height = depth_height;
    depth_fps = depth_fps;
    color_width = color_width;
    color_height = color_height;
    color_fps = color_fps;
    enable_color = enable_color;
    depth_min_m = float_of_double depth_min_m;
    depth_max_m = float_of_double depth_max_m;
    device_id = device_id;
  })

unfoldable pub parse_intel_d435 : Members → Text → Result IntelD435AdapterConfig
unfolding has_member require_object reject_unknown_fields parse_intel_d435_fields
    validate_intel_d435_adapter_config
parse_intel_d435 device device_id = do
  throw_if (has_member device (bytes "fake"))
      (invalid_argument (bytes "/device/fake: inactive adapter configuration is not allowed."))
  d435 ← require_object device (bytes "intel_d435") (bytes "/device/intel_d435")
  reject_unknown_fields d435
      (bytes "serial_number"
        ∷ bytes "depth_width"
        ∷ bytes "depth_height"
        ∷ bytes "depth_fps"
        ∷ bytes "color_width"
        ∷ bytes "color_height"
        ∷ bytes "color_fps"
        ∷ bytes "enable_color"
        ∷ bytes "depth_min_m"
        ∷ bytes "depth_max_m"
        ∷ [])
      (bytes "/device/intel_d435")
  config ← parse_intel_d435_fields d435 device_id
  validate_intel_d435_adapter_config config
  ok config

-- The three members of `VisionConfig` that the object sets.
pub record DeviceConfig : Type 0 where
  pub adapter : Text
  pub fake : FakeCameraAdapterConfig
  pub intel_d435 : IntelD435AdapterConfig

fake_device : Text → Members → Text → Result DeviceConfig
unfolding parse_fake default_intel_d435
fake_device adapter device device_id = do
  fake ← parse_fake device device_id
  ok (record { adapter = adapter; fake = fake; intel_d435 = default_intel_d435 })

intel_d435_device : Text → Members → Text → Result DeviceConfig
unfolding parse_intel_d435 default_fake
intel_d435_device adapter device device_id = do
  intel_d435 ← parse_intel_d435 device device_id
  ok (record { adapter = adapter; fake = default_fake; intel_d435 = intel_d435 })

-- The branches on the adapter.
unfoldable pub parse_adapter : Text → Members → Text → Result DeviceConfig
unfolding fake_device intel_d435_device
parse_adapter adapter device device_id =
    if text_eq adapter (bytes "fake")
    then fake_device adapter device device_id
    else if text_eq adapter (bytes "intel_d435")
    then intel_d435_device adapter device device_id
    else err (invalid_argument (bytes "/device/adapter: unsupported adapter."))

unfoldable pub parse_device : Members → Text → Result DeviceConfig
unfolding require_object reject_unknown_fields require_string parse_adapter
parse_device root device_id = do
  device ← require_object root (bytes "device") (bytes "/device")
  reject_unknown_fields device (bytes "adapter" ∷ bytes "fake" ∷ bytes "intel_d435" ∷ [])
      (bytes "/device")
  adapter ← require_string device (bytes "adapter") (bytes "/device/adapter")
  parse_adapter adapter device device_id
