-- ===== src/Config.antt =====
-- The configuration: the structs of src/config/vision_config.hpp and of the two adapters' headers.
-- An `int` is a ℤ; a `float` and a `double` are their bits.
pub mod Fields
pub mod Urls
pub mod Device
pub mod Calibration
pub mod Sections
pub mod Parse
pub mod Accepted
pub mod Adapters
pub mod Valid
pub mod Sample
mod Tests
use nodus_vision.Prelude.{ℕ, Bool, true, Text, bytes, List}
use nodus_vision.Prelude.Int.{ℤ, pos}

pub record ProviderConfig : Type 0 where
  pub bind_host : Text
  pub port : ℤ
  pub advertised_base_url : Text
  pub max_connections : ℤ
  pub max_stream_clients : ℤ
  pub request_timeout_ms : ℤ
  pub max_header_bytes : ℤ
  pub max_body_bytes : ℤ
  pub max_frame_age_ms : ℤ
  pub allowed_origins : List Text

pub record PilotConfig : Type 0 where
  pub enabled : Bool
  pub base_url : Text
  pub clock_domain : Text
  pub connect_timeout_ms : ℤ
  pub request_timeout_ms : ℤ
  pub max_response_bytes : ℤ
  pub retry_initial_delay_ms : ℤ
  pub retry_max_delay_ms : ℤ
  pub shutdown_timeout_ms : ℤ

pub record RecordingConfig : Type 0 where
  pub enabled : Bool
  pub root : Text
  pub queue_capacity_frames : ℤ
  pub max_duration_ms : ℤ
  pub minimum_free_bytes : ℕ
  pub finalize_timeout_ms : ℤ
  pub bit_rate_bps : ℤ
  pub preset : Text
  pub tune : Text

pub record MountLocalTransform : Type 0 where
  pub x : ℕ
  pub y : ℕ
  pub z : ℕ
  pub r1 : ℕ
  pub r2 : ℕ
  pub r3 : ℕ
  pub euler_type : Text

pub record CalibrationConfig : Type 0 where
  pub calibration_id : Text
  pub sensor_frame : Text
  pub mount_frame : Text
  pub mount_local_transform : MountLocalTransform

pub record FakeCameraAdapterConfig : Type 0 where
  pub width : ℤ
  pub height : ℤ
  pub fps : ℤ
  pub start_frame_number : ℕ
  pub pattern_seed : ℕ
  pub auto_advance : Bool
  pub inject_timeout : Bool
  pub inject_read_error : Bool
  pub device_id : Text

pub record IntelD435AdapterConfig : Type 0 where
  pub serial_number : Text
  pub device_name_filter : Text
  pub depth_width : ℤ
  pub depth_height : ℤ
  pub depth_fps : ℤ
  pub enable_color : Bool
  pub color_width : ℤ
  pub color_height : ℤ
  pub color_fps : ℤ
  pub depth_min_m : ℕ
  pub depth_max_m : ℕ
  pub device_id : Text

pub record VisionConfig : Type 0 where
  pub schema_version : ℤ
  pub device_id : Text
  pub component_id : Text
  pub adapter : Text
  pub fake : FakeCameraAdapterConfig
  pub intel_d435 : IntelD435AdapterConfig
  pub calibration : CalibrationConfig
  pub provider : ProviderConfig
  pub pilot : PilotConfig
  pub recording : RecordingConfig
