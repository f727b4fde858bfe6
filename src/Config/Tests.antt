-- ===== src/Config/Tests.antt =====
-- The configuration parser on one document.
use nodus_vision.Prelude.{
  ◌≡◌, refl, true, false, [], ◌++◌, ◌&&◌, bytes, text_eq, leb, if◌then◌else◌, arith,
}
use nodus_vision.Prelude.Int.{pos}
use nodus_vision.Prelude.Strings.{starts_with}
use nodus_vision.Prelude.Result.{ok, out_of_range, err, invalid_argument}
use nodus_vision.Config.Sample.{sample_document, sample_config, accepted_document}
use nodus_vision.Prelude.Json.{unsigned, no_members, member, if_contains}
use nodus_vision.Config.Fields.{require_bounded_int}
use nodus_vision.Config.Fields.Integers.{require_bounded_int-unsigned}
use nodus_vision.Config.Urls.{is_advertised_url_valid, get_url_port}
use nodus_vision.Config.Parse.{make_recording_config}
use nodus_vision.Config.Valid.{
  IsVisionConfig, parse_vision_config-IsVisionConfig, make_recording_config-accepted,
}
use nodus_vision.Recording.Manager.Setup.{is_config_invalid}

-- `std::stoi` throws where the port is longer than an `int`.
long_port : is_advertised_url_valid (bytes "http://a:99999999999") ≡ err out_of_range
unfolding is_advertised_url_valid bytes
long_port = refl

port_of_url : get_url_port (bytes "http://127.0.0.1:8080/x") ≡ ok (pos 8080)
unfolding get_url_port bytes
port_of_url = refl

parse_vision_config-IsVisionConfig_example : IsVisionConfig sample_config
parse_vision_config-IsVisionConfig_example =
    parse_vision_config-IsVisionConfig sample_document [] sample_config accepted_document

make_recording_config-accepted_example :
    (is_config_invalid (make_recording_config sample_config (bytes "vision-1")) ≡ false)
    × (starts_with (make_recording_config sample_config (bytes "vision-1")).root (bytes "/") ≡ true)
unfolding bytes
make_recording_config-accepted_example =
    make_recording_config-accepted sample_document [] sample_config (bytes "vision-1")
      accepted_document (λ e. cc)

require_bounded_int-unsigned_example :
    require_bounded_int
      (member (bytes "port") (unsigned 18446744073709551615) no_members)
      (bytes "port")
      (bytes "/port")
      (pos 1)
      (pos 65535)
    ≡ (if leb 1 18446744073709551615 && leb 18446744073709551615 65535
        then ok (pos 18446744073709551615)
        else err (invalid_argument (bytes "/port" ++ bytes ": is outside the allowed range.")))
unfolding if_contains bytes text_eq
require_bounded_int-unsigned_example =
    require_bounded_int-unsigned (member (bytes "port") (unsigned 18446744073709551615) no_members)
      (bytes "port") (bytes "/port") 1 65535 18446744073709551615 (omega arith) refl
