-- ===== src/Camera/Contracts.antt =====
-- include/nodus_vision/camera_contracts.hpp, provider_health.hpp, camera_adapter.hpp: the enums and
-- the value records. A `float` or `double` that is only stored is its bit pattern, a number. Pixel
-- data behind a pointer is the list of its bytes; a null pointer is `none`.
use nodus_vision.Prelude.{ℕ, Bool, Option, List}
use nodus_vision.Prelude.Int.{ℤ}

pub data PixelFormat : Type 0 where
  unknown rgb8 bgr8 z16 : PixelFormat

pub data DeviceTimestampDomain : Type 0 where
  unknown hardware_clock system_time global_time : DeviceTimestampDomain

pub data DistortionModel : Type 0 where
  unknown none_model modified_brown_conrady inverse_brown_conrady : DistortionModel
  ftheta brown_conrady kannala_brandt4 : DistortionModel

pub data CameraLifecycle : Type 0 where
  disconnected connected streaming degraded : CameraLifecycle

pub data ProviderState : Type 0 where
  starting ready degraded stopping : ProviderState

pub data PilotIntegrationState : Type 0 where
  disabled registering online recovering contract_fault stopping stopped : PilotIntegrationState

pub record StreamProfile : Type 0 where
  pub width : ℤ
  pub height : ℤ
  pub fps : ℤ
  pub format : PixelFormat

pub record CameraIntrinsics : Type 0 where
  pub width : ℤ
  pub height : ℤ
  pub fx : ℕ
  pub fy : ℕ
  pub ppx : ℕ
  pub ppy : ℕ
  pub distortion_model : DistortionModel
  pub distortion_coefficients : List ℕ

pub record FrameIdentity : Type 0 where
  pub capture_generation : ℕ
  pub frame_number : ℕ
  pub capture_timestamp_ns : ℤ
  pub capture_unix_epoch_ns : ℤ
  pub device_timestamp : ℕ
  pub device_timestamp_domain : DeviceTimestampDomain

pub record FrameSnapshot : Type 0 where
  pub identity : FrameIdentity
  pub depth_profile : StreamProfile
  pub color_profile : StreamProfile
  pub depth_intrinsics : CameraIntrinsics
  pub color_intrinsics : CameraIntrinsics
  pub depth_scale_m : ℕ
  pub has_color : Bool
  pub has_depth : Bool

pub record VideoFrameView : Type 0 where
  pub width : ℤ
  pub height : ℤ
  pub stride_bytes : ℤ
  pub format : PixelFormat
  pub has_owner : Bool
  pub pixels : Option (List ℕ)
  pub identity : FrameIdentity

-- What `getSnapshot`, `getColorFrameView` and `getDepthPreviewFrameView` answer for one frame.
pub record CapturedFrame : Type 0 where
  pub snapshot : FrameSnapshot
  pub color_view : Option VideoFrameView
  pub depth_preview_view : Option VideoFrameView
