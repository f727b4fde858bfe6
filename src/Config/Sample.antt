-- ===== src/Config/Sample.antt =====
-- A configuration document of src/config/vision_config.cpp and what is parsed of it, for the tests.
use nodus_vision.Prelude.{◌≡◌, refl, true, Option, some, [], ◌∷◌, Text, bytes, text_eq}
use nodus_vision.Prelude.Int.{pos}
use nodus_vision.Prelude.Json.{
  Json, boolean, signed, string, array, object, no_items, item, no_members, member,
}
use nodus_vision.Prelude.Floating.{is_finite_f64, double_of_i64}
use nodus_vision.Prelude.Result.{ok}
use nodus_vision.Config.{VisionConfig}
use nodus_vision.Config.Device.{default_fake, default_intel_d435}
use nodus_vision.Config.Urls.{has_path}
use nodus_vision.Config.Parse.{parse_vision_config}
use nodus_vision.Config.Valid.{IsVisionConfig, parse_vision_config-IsVisionConfig}

abbrev sample_device : Json
sample_device = object (
    member (bytes "adapter") (string (bytes "fake")) (
      member (bytes "fake")
        (object (
          member (bytes "width") (signed (pos 8)) (
            member (bytes "height") (signed (pos 6)) (
              member (bytes "fps") (signed (pos 30)) (
                member (bytes "start_frame_number") (signed (pos 1))
                  (member (bytes "pattern_seed") (signed (pos 7)) no_members))))))
        no_members))

abbrev sample_calibration : Json
sample_calibration = object (
    member (bytes "calibration_id") (string (bytes "cal-1")) (
      member (bytes "sensor_frame") (string (bytes "camera")) (
        member (bytes "mount_frame") (string (bytes "base")) (
          member (bytes "mount_local_transform")
            (object (
              member (bytes "x") (signed (pos 1)) (
                member (bytes "y") (signed (pos 0)) (
                  member (bytes "z") (signed (pos 0)) (
                    member (bytes "r1") (signed (pos 0)) (
                      member (bytes "r2") (signed (pos 0)) (
                        member (bytes "r3") (signed (pos 0))
                          (member (bytes "euler_type") (string (bytes "XYZ")) no_members))))))))
            no_members))))

abbrev sample_provider : Json
sample_provider = object (
    member (bytes "bind_host") (string (bytes "127.0.0.1")) (
      member (bytes "port") (signed (pos 8080)) (
        member (bytes "advertised_base_url") (string (bytes "http://127.0.0.1:8080")) (
          member (bytes "max_connections") (signed (pos 8)) (
            member (bytes "max_stream_clients") (signed (pos 4)) (
              member (bytes "request_timeout_ms") (signed (pos 1000)) (
                member (bytes "max_header_bytes") (signed (pos 8192)) (
                  member (bytes "max_body_bytes") (signed (pos 65536)) (
                    member (bytes "max_frame_age_ms") (signed (pos 500)) (
                      member (bytes "allowed_origins")
                        (array (item (string (bytes "http://a:1")) no_items)) no_members))))))))))

abbrev sample_pilot : Json
sample_pilot = object (
    member (bytes "enabled") (boolean true) (
      member (bytes "base_url") (string (bytes "http://pilot:9000/")) (
        member (bytes "clock_domain") (string (bytes "monotonic_same_host")) (
          member (bytes "connect_timeout_ms") (signed (pos 1000)) (
            member (bytes "request_timeout_ms") (signed (pos 1000)) (
              member (bytes "max_response_bytes") (signed (pos 65536)) (
                member (bytes "retry_initial_delay_ms") (signed (pos 100)) (
                  member (bytes "retry_max_delay_ms") (signed (pos 5000))
                    (member (bytes "shutdown_timeout_ms") (signed (pos 1000)) no_members)))))))))

abbrev sample_recording : Json
sample_recording = object (
    member (bytes "enabled") (boolean true) (
      member (bytes "root") (string (bytes "/recordings")) (
        member (bytes "queue_capacity_frames") (signed (pos 16)) (
          member (bytes "max_duration_ms") (signed (pos 60000)) (
            member (bytes "minimum_free_bytes") (signed (pos 1048576)) (
              member (bytes "finalize_timeout_ms") (signed (pos 5000)) (
                member (bytes "bit_rate_bps") (signed (pos 1000000)) (
                  member (bytes "preset") (string (bytes "veryfast"))
                    (member (bytes "tune") (string (bytes "zerolatency")) no_members)))))))))

abbrev pub sample_document : Text → Option Json
sample_document text = some (
    object (
      member (bytes "schema_version") (signed (pos 1)) (
        member (bytes "device_id") (string (bytes "d")) (
          member (bytes "component_id") (string (bytes "c")) (
            member (bytes "device") sample_device (
              member (bytes "calibration") sample_calibration (
                member (bytes "provider") sample_provider (
                  member (bytes "pilot") sample_pilot
                    (member (bytes "recording") sample_recording no_members)))))))))

-- 4607182418800017408 are the bits of 1.0.
unfoldable pub sample_config : VisionConfig
unfolding default_fake default_intel_d435
sample_config = record {
  schema_version = pos 1;
  device_id = bytes "d";
  component_id = bytes "c";
  adapter = bytes "fake";
  fake = record default_fake { device_id = bytes "d" };
  intel_d435 = default_intel_d435;
  calibration = record {
    calibration_id = bytes "cal-1";
    sensor_frame = bytes "camera";
    mount_frame = bytes "base";
    mount_local_transform = record {
      x = 4607182418800017408;
      y = 0;
      z = 0;
      r1 = 0;
      r2 = 0;
      r3 = 0;
      euler_type = bytes "XYZ";
    };
  };
  provider = record {
    bind_host = bytes "127.0.0.1";
    port = pos 8080;
    advertised_base_url = bytes "http://127.0.0.1:8080";
    max_connections = pos 8;
    max_stream_clients = pos 4;
    request_timeout_ms = pos 1000;
    max_header_bytes = pos 8192;
    max_body_bytes = pos 65536;
    max_frame_age_ms = pos 500;
    allowed_origins = bytes "http://a:1" ∷ [];
  };
  pilot = record {
    enabled = true;
    base_url = bytes "http://pilot:9000/";
    clock_domain = bytes "monotonic_same_host";
    connect_timeout_ms = pos 1000;
    request_timeout_ms = pos 1000;
    max_response_bytes = pos 65536;
    retry_initial_delay_ms = pos 100;
    retry_max_delay_ms = pos 5000;
    shutdown_timeout_ms = pos 1000;
  };
  recording = record {
    enabled = true;
    root = bytes "/recordings";
    queue_capacity_frames = pos 16;
    max_duration_ms = pos 60000;
    minimum_free_bytes = 1048576;
    finalize_timeout_ms = pos 5000;
    bit_rate_bps = pos 1000000;
    preset = bytes "veryfast";
    tune = bytes "zerolatency";
  };
}

pub accepted_document : parse_vision_config sample_document [] ≡ ok sample_config
unfolding parse_vision_config sample_config text_eq bytes is_finite_f64 double_of_i64 has_path
accepted_document = refl

pub sample_config-IsVisionConfig : IsVisionConfig sample_config
sample_config-IsVisionConfig =
    parse_vision_config-IsVisionConfig sample_document [] sample_config accepted_document
