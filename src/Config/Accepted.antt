-- ===== src/Config/Accepted.antt =====
-- What `parseVisionConfig` of src/config/vision_config.cpp ensures of the configuration it returns.
use nodus_vision.Prelude.{
  if_cases, or-false, ◌≡◌, refl, Bool, true, false, ◌||◌, not, Text, bytes, text_eq, text_eq_iff,
  arith, ap, ◌∙◌, not-false,
}
use nodus_vision.Prelude.Int.{ℤ, pos, negsuc, ◌≤ℤ◌, leb_ℤ, ltb_ℤ}
use nodus_vision.Prelude.Json.{Members, has_member}
use nodus_vision.Prelude.Result.{
  Result, ok, Exception, invalid_argument, throw_if, Ensures, Ensures-throw_if, Ensures-bind,
  Ensures-call, ◌>>◌,
}
use nodus_vision.Prelude.Strings.{starts_with}
use nodus_vision.Config.{ProviderConfig, PilotConfig, RecordingConfig}
use nodus_vision.Config.Fields.Accepted.{
  Within, IsName, Between, int_field, name_field, require_bounded_uint64-Between,
}
use nodus_vision.Config.Fields.{require_object, reject_unknown_fields, require_bounded_uint64}
use nodus_vision.Config.Urls.Origins.{AreOrigins, require_allowed_origins-lem}
use nodus_vision.Config.Urls.{is_advertised_url_valid, get_url_port}
use nodus_vision.Config.Sections.{
  require_flag, parse_provider, parse_pilot, parse_recording, require_url, optional_origins,
  check_port,
}

accepted_text : (s t : Text) → not (text_eq s t) ≡ false → s ≡ t
accepted_text s t h = ground (arith, text_eq_iff s t)

not-less : (a b : ℤ) → ltb_ℤ b a ≡ false → a ≤ℤ b
not-less a b h = ground arith

leb_antisym : (a b : ℤ) → not (leb_ℤ a b) || not (leb_ℤ b a) ≡ false → a ≡ b
leb_antisym (pos a) (pos b) h = ap pos (ground arith)
leb_antisym (pos a) (negsuc b) h = ground arith
leb_antisym (negsuc a) (pos b) h = ground arith
leb_antisym (negsuc a) (negsuc b) h = ap negsuc (ground arith)

throw_unless-lem :
    (url : Text) (message : Exception) (is_valid : Bool)
    → is_advertised_url_valid url ≡ ok is_valid
    → Ensures (λ _. is_advertised_url_valid url ≡ ok true) (throw_if (not is_valid) message)
throw_unless-lem url message true e = e
throw_unless-lem url message false e = tt

require_url-lem :
    (url message : Text)
    → Ensures (λ _. is_advertised_url_valid url ≡ ok true) (require_url url message)
unfolding require_url
require_url-lem url message =
    Ensures-call _ (is_advertised_url_valid url) _ (throw_unless-lem url (invalid_argument message))

same_port :
    (url : Text) (port url_port : ℤ) (differs : Bool) (message : Exception)
    → get_url_port url ≡ ok url_port
    → (differs ≡ false → url_port ≡ port)
    → Ensures (λ _. get_url_port url ≡ ok port) (throw_if differs message)
same_port url port url_port true message h k = tt
same_port url port url_port false message h k = h ∙ ap ok (k refl)

check_port-lem :
    (url : Text) (port : ℤ) → Ensures (λ _. get_url_port url ≡ ok port) (check_port url port)
unfolding check_port
check_port-lem url port =
    Ensures-call _ (get_url_port url) _
      (λ url_port e. same_port url port url_port _ _ e (leb_antisym url_port port))

url_step :
    {B : Type 0} (Q : B → Type 0) (url message : Text) (rest : Result B)
    → (is_advertised_url_valid url ≡ ok true → Ensures Q rest)
    → Ensures Q (require_url url message >> rest)
url_step Q url message rest h =
    Ensures-bind (λ _. is_advertised_url_valid url ≡ ok true) Q (require_url url message) _
      (require_url-lem url message) (λ _. h)

abbrev pub IsPilotConfig : PilotConfig → Type 0
IsPilotConfig c =
    (is_advertised_url_valid c.base_url ≡ ok true)
    × (c.clock_domain ≡ bytes "monotonic_same_host")
    × Within (pos 1000) (pos 60000) c.connect_timeout_ms
    × Within (pos 1000) (pos 60000) c.request_timeout_ms
    × Within (pos 1) (pos 10485760) c.max_response_bytes
    × Within (pos 1) c.retry_max_delay_ms c.retry_initial_delay_ms
    × Within (pos 1) (pos 60000) c.retry_max_delay_ms
    × Within (pos 1000) (pos 60000) c.shutdown_timeout_ms
    × IsName c.base_url

pub parse_pilot-lem : (root : Members) → Ensures IsPilotConfig (parse_pilot root)
unfolding parse_pilot
parse_pilot-lem root =
    let Q : PilotConfig → Type 0 = IsPilotConfig in
    Ensures-call Q (require_object root _ _) _ (λ pilot _.
      Ensures-call Q (reject_unknown_fields pilot _ _) _ (λ _ _.
        Ensures-call Q (require_flag pilot _ _) _ (λ enabled _.
          name_field Q pilot _ _ _ (λ base_url name_ok. url_step Q base_url _ _ (λ url_ok.
            name_field Q pilot _ _ _ (λ clock_domain _.
              Ensures-throw_if Q (not (text_eq clock_domain (bytes "monotonic_same_host"))) _ _
                (λ clock_ok. int_field Q pilot _ _ (pos 1000) (pos 60000) _ (λ connect connect_ok.
                  int_field Q pilot _ _ (pos 1000) (pos 60000) _ (λ request request_ok.
                    int_field Q pilot _ _ (pos 1) (pos 10485760) _ (λ response response_ok.
                      int_field Q pilot _ _ (pos 1) (pos 60000) _ (λ initial initial_ok.
                        int_field Q pilot _ _ (pos 1) (pos 60000) _ (λ max max_ok.
                          int_field Q pilot _ _ (pos 1000) (pos 60000) _ (λ shutdown shutdown_ok.
                            Ensures-throw_if Q (ltb_ℤ max initial) _ (ok _) (λ ordered. (
                              url_ok,
                              accepted_text clock_domain _ clock_ok,
                              connect_ok,
                              request_ok,
                              response_ok,
                              (initial_ok.0, not-less initial max ordered),
                              max_ok,
                              shutdown_ok,
                              name_ok,
                            )))))))))))))))

optional_origins-lem : (provider : Members) → Ensures (AreOrigins 16) (optional_origins provider)
unfolding optional_origins
optional_origins-lem provider =
    if_cases (Ensures (AreOrigins 16)) (has_member provider (bytes "allowed_origins")) _ _
      (λ _. require_allowed_origins-lem provider _ _) (λ _. (tt, tt, omega arith))

abbrev pub IsProviderConfig : ProviderConfig → Type 0
IsProviderConfig c =
    IsName c.bind_host
    × Within (pos 1) (pos 65535) c.port
    × (is_advertised_url_valid c.advertised_base_url ≡ ok true)
    × (get_url_port c.advertised_base_url ≡ ok c.port)
    × Within (pos 1) (pos 1024) c.max_connections
    × Within (pos 1) c.max_connections c.max_stream_clients
    × Within (pos 1000) (pos 60000) c.request_timeout_ms
    × Within (pos 1) (pos 1048576) c.max_header_bytes
    × Within (pos 1) (pos 10485760) c.max_body_bytes
    × Within (pos 1) (pos 60000) c.max_frame_age_ms
    × AreOrigins 16 c.allowed_origins
    × IsName c.advertised_base_url

pub parse_provider-lem : (root : Members) → Ensures IsProviderConfig (parse_provider root)
unfolding parse_provider
parse_provider-lem root =
    let Q : ProviderConfig → Type 0 = IsProviderConfig in
    Ensures-call Q (require_object root _ _) _ (λ provider _.
      Ensures-call Q (reject_unknown_fields provider _ _) _ (λ _ _.
        name_field Q provider _ _ _ (λ host host_ok.
          int_field Q provider _ _ (pos 1) (pos 65535) _ (λ port port_ok.
            name_field Q provider _ _ _ (λ url name_ok. url_step Q url _ _ (λ url_ok.
              int_field Q provider _ _ (pos 1) (pos 1024) _ (λ connections connections_ok.
                int_field Q provider _ _ (pos 1) connections _ (λ clients clients_ok.
                  int_field Q provider _ _ (pos 1000) (pos 60000) _ (λ timeout timeout_ok.
                    int_field Q provider _ _ (pos 1) (pos 1048576) _ (λ header header_ok.
                      int_field Q provider _ _ (pos 1) (pos 10485760) _ (λ body body_ok.
                        int_field Q provider _ _ (pos 1) (pos 60000) _ (λ age age_ok.
                          Ensures-bind (AreOrigins 16) Q (optional_origins provider) _
                            (optional_origins-lem provider)
                            (λ origins origins_ok.
                              Ensures-bind (λ _. get_url_port url ≡ ok port) Q (check_port url port)
                                (λ _. ok _) (check_port-lem url port)
                                (λ _ same. (
                                  host_ok, port_ok, url_ok, same, connections_ok, clients_ok,
                                  timeout_ok, header_ok, body_ok, age_ok, origins_ok, name_ok,
                                )))))))))))))))

abbrev pub IsRecordingConfig : RecordingConfig → Type 0
IsRecordingConfig c =
    (starts_with c.root (bytes "/") ≡ true)
    × Within (pos 1) (pos 4096) c.queue_capacity_frames
    × Within (pos 1) (pos 3600000) c.max_duration_ms
    × Between 1 1099511627776 c.minimum_free_bytes
    × Within (pos 1000) (pos 600000) c.finalize_timeout_ms
    × Within (pos 1) (pos 100000000) c.bit_rate_bps
    × (c.preset ≡ bytes "veryfast")
    × (c.tune ≡ bytes "zerolatency")
    × IsName c.root

pub parse_recording-lem : (root : Members) → Ensures IsRecordingConfig (parse_recording root)
unfolding parse_recording
parse_recording-lem root =
    let Q : RecordingConfig → Type 0 = IsRecordingConfig in
    Ensures-call Q (require_object root _ _) _ (λ recording _.
      Ensures-call Q (reject_unknown_fields recording _ _) _ (λ _ _.
        Ensures-call Q (require_flag recording _ _) _ (λ enabled _.
          name_field Q recording _ _ _ (λ path path_ok.
            Ensures-throw_if Q (not (starts_with path (bytes "/"))) _ _ (λ absolute.
              int_field Q recording _ _ (pos 1) (pos 4096) _ (λ capacity capacity_ok.
                int_field Q recording _ _ (pos 1) (pos 3600000) _ (λ duration duration_ok.
                  Ensures-bind (Between 1 1099511627776) Q
                    (require_bounded_uint64 recording (bytes "minimum_free_bytes")
                      (bytes "/recording/minimum_free_bytes") 1 1099511627776)
                    _ (require_bounded_uint64-Between recording _ _ 1 1099511627776)
                    (λ free free_ok.
                      int_field Q recording _ _ (pos 1000) (pos 600000) _ (λ timeout timeout_ok.
                        int_field Q recording _ _ (pos 1) (pos 100000000) _ (λ rate rate_ok.
                          name_field Q recording _ _ _ (λ preset _.
                            name_field Q recording _ _ _ (λ tune _.
                              Ensures-throw_if Q
                                (not (text_eq preset (bytes "veryfast"))
                                  || not (text_eq tune (bytes "zerolatency")))
                                _ (ok _)
                                (λ profile.
                                  let codec : ((not (text_eq preset (bytes "veryfast")) ≡ false)
                                      × (not (text_eq tune (bytes "zerolatency")) ≡ false)) =
                                    or-false _ _ profile in
                                  (
                                    not-false _ absolute,
                                    capacity_ok,
                                    duration_ok,
                                    free_ok,
                                    timeout_ok,
                                    rate_ok,
                                    accepted_text preset _ (codec.0),
                                    accepted_text tune _ (codec.1),
                                    path_ok,
                                  ))))))))))))))
