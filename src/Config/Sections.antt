-- ===== src/Config/Sections.antt =====
-- The `provider`, `pilot` and `recording` objects of `parseVisionConfig`.
use nodus_vision.Prelude.{Bool, ◌||◌, not, List, [], ◌∷◌, ◌++◌, Text, bytes, text_eq, if◌then◌else◌}
use nodus_vision.Prelude.Int.{ℤ, pos, ltb_ℤ, leb_ℤ}
use nodus_vision.Prelude.Json.{Json, boolean, Members, has_member}
use nodus_vision.Prelude.Strings.{starts_with}
use nodus_vision.Prelude.Result.{Result, ok, err, invalid_argument, throw_if, ◌>>=◌, ◌>>◌}
use nodus_vision.Config.{ProviderConfig, PilotConfig, RecordingConfig}
use nodus_vision.Config.Urls.{is_advertised_url_valid, get_url_port, require_allowed_origins}
use nodus_vision.Config.Fields.{
  require_field, require_object, require_string, require_bounded_int, require_bounded_uint64,
  reject_unknown_fields,
}

-- `if (!isAdvertisedUrlValid(url)) throw invalid_argument(message);`
unfoldable pub require_url : Text → Text → Result (Unit {0})
unfolding is_advertised_url_valid
require_url url message = do
  is_valid ← is_advertised_url_valid url
  throw_if (not is_valid) (invalid_argument message)

-- An absent member leaves no origins.
unfoldable pub optional_origins : Members → Result (List Text)
unfolding has_member require_allowed_origins
optional_origins provider =
    if has_member provider (bytes "allowed_origins")
    then require_allowed_origins provider (bytes "allowed_origins")
        (bytes "/provider/allowed_origins")
    else ok []

unfoldable pub check_port : Text → ℤ → Result (Unit {0})
unfolding get_url_port
check_port url port = do
  url_port ← get_url_port url
  throw_if (not (leb_ℤ url_port port) || not (leb_ℤ port url_port))
      (invalid_argument (bytes "/provider/advertised_base_url: port must match /provider/port."))

unfoldable pub parse_provider : Members → Result ProviderConfig
unfolding require_object reject_unknown_fields require_string require_bounded_int require_url
    optional_origins check_port
parse_provider root = do
  provider ← require_object root (bytes "provider") (bytes "/provider")
  reject_unknown_fields provider
      (bytes "bind_host"
        ∷ bytes "port"
        ∷ bytes "advertised_base_url"
        ∷ bytes "max_connections"
        ∷ bytes "max_stream_clients"
        ∷ bytes "request_timeout_ms"
        ∷ bytes "max_header_bytes"
        ∷ bytes "max_body_bytes"
        ∷ bytes "max_frame_age_ms"
        ∷ bytes "allowed_origins"
        ∷ [])
      (bytes "/provider")
  bind_host ← require_string provider (bytes "bind_host") (bytes "/provider/bind_host")
  port ← require_bounded_int provider (bytes "port") (bytes "/provider/port") (pos 1) (pos 65535)
  advertised_base_url ←
      require_string provider (bytes "advertised_base_url") (bytes "/provider/advertised_base_url")
  require_url advertised_base_url
      (bytes "/provider/advertised_base_url: must be an absolute non-wildcard HTTP URL.")
  max_connections ←
      require_bounded_int provider (bytes "max_connections") (bytes "/provider/max_connections")
        (pos 1) (pos 1024)
  max_stream_clients ←
      require_bounded_int provider (bytes "max_stream_clients")
        (bytes "/provider/max_stream_clients") (pos 1) max_connections
  request_timeout_ms ←
      require_bounded_int provider (bytes "request_timeout_ms")
        (bytes "/provider/request_timeout_ms") (pos 1000) (pos 60000)
  max_header_bytes ←
      require_bounded_int provider (bytes "max_header_bytes") (bytes "/provider/max_header_bytes")
        (pos 1) (pos 1048576)
  max_body_bytes ←
      require_bounded_int provider (bytes "max_body_bytes") (bytes "/provider/max_body_bytes")
        (pos 1) (pos 10485760)
  max_frame_age_ms ←
      require_bounded_int provider (bytes "max_frame_age_ms") (bytes "/provider/max_frame_age_ms")
        (pos 1) (pos 60000)
  allowed_origins ← optional_origins provider
  check_port advertised_base_url port
  ok (record {
    bind_host = bind_host;
    port = port;
    advertised_base_url = advertised_base_url;
    max_connections = max_connections;
    max_stream_clients = max_stream_clients;
    request_timeout_ms = request_timeout_ms;
    max_header_bytes = max_header_bytes;
    max_body_bytes = max_body_bytes;
    max_frame_age_ms = max_frame_age_ms;
    allowed_origins = allowed_origins;
  })

as_flag : Text → Json → Result Bool
as_flag path (boolean b) = ok b
as_flag path _ = err (invalid_argument (path ++ bytes ": must be a boolean."))

unfoldable pub require_flag : Members → Text → Text → Result Bool
unfolding require_field as_flag
require_flag fields key path = require_field fields key path >>= as_flag path

unfoldable pub parse_pilot : Members → Result PilotConfig
unfolding require_object reject_unknown_fields require_flag require_string require_bounded_int
    require_url
parse_pilot root = do
  pilot ← require_object root (bytes "pilot") (bytes "/pilot")
  reject_unknown_fields pilot
      (bytes "enabled"
        ∷ bytes "base_url"
        ∷ bytes "clock_domain"
        ∷ bytes "connect_timeout_ms"
        ∷ bytes "request_timeout_ms"
        ∷ bytes "max_response_bytes"
        ∷ bytes "retry_initial_delay_ms"
        ∷ bytes "retry_max_delay_ms"
        ∷ bytes "shutdown_timeout_ms"
        ∷ [])
      (bytes "/pilot")
  enabled ← require_flag pilot (bytes "enabled") (bytes "/pilot/enabled")
  base_url ← require_string pilot (bytes "base_url") (bytes "/pilot/base_url")
  require_url base_url
      (bytes "/pilot/base_url: must be an absolute HTTP URL without userinfo, query, or fragment.")
  clock_domain ← require_string pilot (bytes "clock_domain") (bytes "/pilot/clock_domain")
  throw_if (not (text_eq clock_domain (bytes "monotonic_same_host")))
      (invalid_argument (bytes "/pilot/clock_domain: only monotonic_same_host is supported."))
  connect_timeout_ms ←
      require_bounded_int pilot (bytes "connect_timeout_ms") (bytes "/pilot/connect_timeout_ms")
        (pos 1000) (pos 60000)
  request_timeout_ms ←
      require_bounded_int pilot (bytes "request_timeout_ms") (bytes "/pilot/request_timeout_ms")
        (pos 1000) (pos 60000)
  max_response_bytes ←
      require_bounded_int pilot (bytes "max_response_bytes") (bytes "/pilot/max_response_bytes")
        (pos 1) (pos 10485760)
  retry_initial_delay_ms ←
      require_bounded_int pilot (bytes "retry_initial_delay_ms")
        (bytes "/pilot/retry_initial_delay_ms") (pos 1) (pos 60000)
  retry_max_delay_ms ←
      require_bounded_int pilot (bytes "retry_max_delay_ms") (bytes "/pilot/retry_max_delay_ms")
        (pos 1) (pos 60000)
  shutdown_timeout_ms ←
      require_bounded_int pilot (bytes "shutdown_timeout_ms") (bytes "/pilot/shutdown_timeout_ms")
        (pos 1000) (pos 60000)
  throw_if (ltb_ℤ retry_max_delay_ms retry_initial_delay_ms) (
      invalid_argument
        (bytes "/pilot/retry_initial_delay_ms: must not exceed /pilot/retry_max_delay_ms."))
  ok (record {
    enabled = enabled;
    base_url = base_url;
    clock_domain = clock_domain;
    connect_timeout_ms = connect_timeout_ms;
    request_timeout_ms = request_timeout_ms;
    max_response_bytes = max_response_bytes;
    retry_initial_delay_ms = retry_initial_delay_ms;
    retry_max_delay_ms = retry_max_delay_ms;
    shutdown_timeout_ms = shutdown_timeout_ms;
  })

-- `is_absolute`: a POSIX path that starts with a slash.
unfoldable pub parse_recording : Members → Result RecordingConfig
unfolding require_object reject_unknown_fields require_flag require_string require_bounded_int
    require_bounded_uint64 starts_with
parse_recording document = do
  recording ← require_object document (bytes "recording") (bytes "/recording")
  reject_unknown_fields recording
      (bytes "enabled"
        ∷ bytes "root"
        ∷ bytes "queue_capacity_frames"
        ∷ bytes "max_duration_ms"
        ∷ bytes "minimum_free_bytes"
        ∷ bytes "finalize_timeout_ms"
        ∷ bytes "bit_rate_bps"
        ∷ bytes "preset"
        ∷ bytes "tune"
        ∷ [])
      (bytes "/recording")
  enabled ← require_flag recording (bytes "enabled") (bytes "/recording/enabled")
  root ← require_string recording (bytes "root") (bytes "/recording/root")
  throw_if (not (starts_with root (bytes "/")))
      (invalid_argument (bytes "/recording/root: must be an absolute config-owned path."))
  queue_capacity_frames ←
      require_bounded_int recording (bytes "queue_capacity_frames")
        (bytes "/recording/queue_capacity_frames") (pos 1) (pos 4096)
  max_duration_ms ←
      require_bounded_int recording (bytes "max_duration_ms") (bytes "/recording/max_duration_ms")
        (pos 1) (pos 3600000)
  minimum_free_bytes ←
      require_bounded_uint64 recording (bytes "minimum_free_bytes")
        (bytes "/recording/minimum_free_bytes") 1 1099511627776
  finalize_timeout_ms ←
      require_bounded_int recording (bytes "finalize_timeout_ms")
        (bytes "/recording/finalize_timeout_ms") (pos 1000) (pos 600000)
  bit_rate_bps ←
      require_bounded_int recording (bytes "bit_rate_bps") (bytes "/recording/bit_rate_bps") (pos 1)
        (pos 100000000)
  preset ← require_string recording (bytes "preset") (bytes "/recording/preset")
  tune ← require_string recording (bytes "tune") (bytes "/recording/tune")
  throw_if (not (text_eq preset (bytes "veryfast")) || not (text_eq tune (bytes "zerolatency"))) (
      invalid_argument
        (bytes "/recording: only the Phase 5 veryfast/zerolatency codec profile is supported."))
  ok (record {
    enabled = enabled;
    root = root;
    queue_capacity_frames = queue_capacity_frames;
    max_duration_ms = max_duration_ms;
    minimum_free_bytes = minimum_free_bytes;
    finalize_timeout_ms = finalize_timeout_ms;
    bit_rate_bps = bit_rate_bps;
    preset = preset;
    tune = tune;
  })
