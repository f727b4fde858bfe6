-- ===== src/Camera/Names.antt =====
-- src/core/camera_contracts.cpp and provider_health.cpp: `toString` of the five enums that the
-- health and metadata documents print. Each overload has its enum's name.
use nodus_vision.Prelude.{◌≡◌, Text, bytes, arith}
use nodus_vision.Camera.Contracts.{
  PixelFormat, DeviceTimestampDomain, DistortionModel, CameraLifecycle, ProviderState,
  PilotIntegrationState,
}

pub pixel_format_text : PixelFormat → Text
pixel_format_text PixelFormat.rgb8 = bytes "rgb8"
pixel_format_text PixelFormat.bgr8 = bytes "bgr8"
pixel_format_text PixelFormat.z16 = bytes "z16"
pixel_format_text PixelFormat.unknown = bytes "unknown"

pub timestamp_domain_text : DeviceTimestampDomain → Text
timestamp_domain_text DeviceTimestampDomain.hardware_clock = bytes "hardware_clock"
timestamp_domain_text DeviceTimestampDomain.system_time = bytes "system_time"
timestamp_domain_text DeviceTimestampDomain.global_time = bytes "global_time"
timestamp_domain_text DeviceTimestampDomain.unknown = bytes "unknown"

pub distortion_model_text : DistortionModel → Text
distortion_model_text DistortionModel.none_model = bytes "none"
distortion_model_text DistortionModel.modified_brown_conrady = bytes "modified_brown_conrady"
distortion_model_text DistortionModel.inverse_brown_conrady = bytes "inverse_brown_conrady"
distortion_model_text DistortionModel.ftheta = bytes "ftheta"
distortion_model_text DistortionModel.brown_conrady = bytes "brown_conrady"
distortion_model_text DistortionModel.kannala_brandt4 = bytes "kannala_brandt4"
distortion_model_text DistortionModel.unknown = bytes "unknown"

pub lifecycle_text : CameraLifecycle → Text
lifecycle_text CameraLifecycle.connected = bytes "connected"
lifecycle_text CameraLifecycle.streaming = bytes "streaming"
lifecycle_text CameraLifecycle.degraded = bytes "degraded"
lifecycle_text CameraLifecycle.disconnected = bytes "disconnected"

unfoldable pub provider_state_text : ProviderState → Text
provider_state_text ProviderState.ready = bytes "ready"
provider_state_text ProviderState.degraded = bytes "degraded"
provider_state_text ProviderState.stopping = bytes "stopping"
provider_state_text ProviderState.starting = bytes "starting"

pub pilot_state_text : PilotIntegrationState → Text
pilot_state_text PilotIntegrationState.registering = bytes "registering"
pilot_state_text PilotIntegrationState.online = bytes "online"
pilot_state_text PilotIntegrationState.recovering = bytes "recovering"
pilot_state_text PilotIntegrationState.contract_fault = bytes "contract_fault"
pilot_state_text PilotIntegrationState.stopping = bytes "stopping"
pilot_state_text PilotIntegrationState.stopped = bytes "stopped"
pilot_state_text PilotIntegrationState.disabled = bytes "disabled"

-- No two Pilot integration states have the same text, so a reader of the health document can tell
-- them apart.
pilot_state_text-injective :
    (s t : PilotIntegrationState) → pilot_state_text s ≡ pilot_state_text t → s ≡ t
unfolding pilot_state_text bytes
pilot_state_text-injective s t e = ground arith
