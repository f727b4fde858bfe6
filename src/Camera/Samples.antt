-- ===== src/Camera/Samples.antt =====
-- Frames for the tests.
use nodus_vision.Prelude.{ℕ, true, false, none, some, [], ◌∷◌, ◌+◌, ◌*◌}
use nodus_vision.Prelude.Int.{pos}
use nodus_vision.Camera.Contracts.{
  PixelFormat, DeviceTimestampDomain, DistortionModel, StreamProfile, CameraIntrinsics,
  FrameIdentity, VideoFrameView, CapturedFrame,
}

abbrev pub identity_of : ℕ → ℕ → FrameIdentity
identity_of generation number = record {
  capture_generation = generation;
  frame_number = number;
  capture_timestamp_ns = pos (1_000_000 * number);
  capture_unix_epoch_ns = pos (1_000_000_000 + 1_000_000 * number);
  device_timestamp = 0;
  device_timestamp_domain = DeviceTimestampDomain.system_time;
}

abbrev profile : PixelFormat → StreamProfile
profile format = record { width = pos 2; height = pos 1; fps = pos 30; format = format }

abbrev intrinsics : CameraIntrinsics
intrinsics = record {
  width = pos 2;
  height = pos 1;
  fx = 0;
  fy = 0;
  ppx = 0;
  ppy = 0;
  distortion_model = DistortionModel.none_model;
  distortion_coefficients = [];
}

abbrev pub color_of : FrameIdentity → VideoFrameView
color_of identity = record {
  width = pos 2;
  height = pos 1;
  stride_bytes = pos 6;
  format = PixelFormat.rgb8;
  has_owner = true;
  pixels = some (1 ∷ 2 ∷ 3 ∷ 4 ∷ 5 ∷ 6 ∷ []);
  identity = identity;
}

abbrev pub frame_of : ℕ → ℕ → CapturedFrame
frame_of generation number = record {
  snapshot = record {
    identity = identity_of generation number;
    depth_profile = profile PixelFormat.z16;
    color_profile = profile PixelFormat.rgb8;
    depth_intrinsics = intrinsics;
    color_intrinsics = intrinsics;
    depth_scale_m = 0;
    has_color = true;
    has_depth = false;
  };
  color_view = some (color_of (identity_of generation number));
  depth_preview_view = none;
}
