-- ===== src/Config/Parse.antt =====
-- `parseVisionConfig` of src/config/vision_config.cpp, and the recording configuration that
-- src/runtime/vision_application.cpp makes of the result. `boost::json::parse` is a parameter.
use nodus_vision.Prelude.{
  ◌==◌, ◌%◌, Bool, ◌||◌, ◌&&◌, not, Option, some, [], ◌∷◌, Text, bytes, text_eq, if◌then◌else◌,
}
use nodus_vision.Prelude.Int.{ℤ, pos, pos_part}
use nodus_vision.Prelude.Json.{Json, object, Members}
use nodus_vision.Prelude.Result.{Result, ok, err, invalid_argument, throw_if, ◌>>=◌, ◌>>◌}
use nodus_vision.Config.{VisionConfig}
use nodus_vision.Config.Fields.{require_string, require_bounded_int, reject_unknown_fields}
use nodus_vision.Config.Device.{parse_device}
use nodus_vision.Config.Calibration.{parse_calibration}
use nodus_vision.Config.Sections.{parse_provider, parse_pilot, parse_recording}
use nodus_vision.Recording.Manager.State.{RecordingManagerConfig}

unfoldable pub color_width : VisionConfig → ℤ
color_width config =
    if text_eq config.adapter (bytes "fake")
    then config.fake.width
    else config.intel_d435.color_width

unfoldable pub color_height : VisionConfig → ℤ
color_height config =
    if text_eq config.adapter (bytes "fake")
    then config.fake.height
    else config.intel_d435.color_height

unfoldable pub color_enabled : VisionConfig → Bool
color_enabled config = text_eq config.adapter (bytes "fake") || config.intel_d435.enable_color

-- `value % 2 != 0`; the dimensions are positive.
abbrev pub is_odd : ℤ → Bool
is_odd z = pos_part z % 2 == 1

unfoldable pub check_recording_profile : VisionConfig → Result (Unit {0})
unfolding color_width color_height color_enabled
check_recording_profile config =
    throw_if
      (config.recording.enabled
        && (not (color_enabled config)
            || (is_odd (color_width config) || is_odd (color_height config))))
      (invalid_argument
        (bytes "/recording/enabled: requires an enabled even-dimension RGB color profile."))

unfoldable pub parse_root : Members → Result VisionConfig
unfolding reject_unknown_fields require_bounded_int require_string parse_device parse_calibration
    parse_provider parse_pilot parse_recording check_recording_profile
parse_root root = do
  reject_unknown_fields root
      (bytes "schema_version"
        ∷ bytes "device_id"
        ∷ bytes "component_id"
        ∷ bytes "device"
        ∷ bytes "calibration"
        ∷ bytes "provider"
        ∷ bytes "pilot"
        ∷ bytes "recording"
        ∷ [])
      (bytes "/")
  schema_version ←
      require_bounded_int root (bytes "schema_version") (bytes "/schema_version") (pos 1) (pos 1)
  device_id ← require_string root (bytes "device_id") (bytes "/device_id")
  component_id ← require_string root (bytes "component_id") (bytes "/component_id")
  device ← parse_device root device_id
  calibration ← parse_calibration root
  provider ← parse_provider root
  pilot ← parse_pilot root
  recording ← parse_recording root
  let config : VisionConfig = record {
    schema_version = schema_version;
    device_id = device_id;
    component_id = component_id;
    adapter = device.adapter;
    fake = device.fake;
    intel_d435 = device.intel_d435;
    calibration = calibration;
    provider = provider;
    pilot = pilot;
    recording = recording;
  }
  check_recording_profile config
  ok config

unfoldable pub parse_document : Option Json → Result VisionConfig
unfolding parse_root
parse_document (some (object root)) = parse_root root
parse_document _ = err (invalid_argument (bytes "/: must be a JSON object."))

unfoldable pub parse_vision_config : (Text → Option Json) → Text → Result VisionConfig
unfolding parse_document
parse_vision_config parse json_text = parse_document (parse json_text)

-- The argument of `RecordingManager` in `startApplication`; `process_name` is "vision-" with the
-- process number.
unfoldable pub make_recording_config : VisionConfig → Text → RecordingManagerConfig
unfolding color_width color_height
make_recording_config config process_name = record {
  root = config.recording.root;
  queue_capacity_frames = pos_part config.recording.queue_capacity_frames;
  width = color_width config;
  height = color_height config;
  fps =
      if text_eq config.adapter (bytes "fake")
      then config.fake.fps
      else config.intel_d435.color_fps;
  bit_rate_bps = config.recording.bit_rate_bps;
  max_duration_ms = config.recording.max_duration_ms;
  minimum_free_bytes = config.recording.minimum_free_bytes;
  finalize_timeout_ms = config.recording.finalize_timeout_ms;
  preset = config.recording.preset;
  tune = config.recording.tune;
  sensor_frame = config.calibration.sensor_frame;
  calibration_id = config.calibration.calibration_id;
  component_id = config.component_id;
  device_id = config.device_id;
  instance_id = process_name;
}
