-- ===== src/Config/Valid.antt =====
-- The whole configuration that `parseVisionConfig` of src/config/vision_config.cpp returns, and what
-- the components that it is handed to rely on.
use nodus_vision.Prelude.{
  or-false, ℕ, ◌≡◌, ◌≢◌, ◌%◌, ◌==◌, refl, Bool, true, false, ◌||◌, ◌&&◌, not, Option, none, some,
  [], ◌∷◌, Text, bytes, text_eq, text_eq_iff, arith, is_empty, ap,
}
use nodus_vision.Prelude.Int.{ℤ, pos, pos_part, leb_ℤ}
use nodus_vision.Prelude.Strings.{starts_with}
use nodus_vision.Prelude.Json.{
  Json, null, boolean, unsigned, signed, floating, string, array, object, Members,
}
use nodus_vision.Prelude.Result.{ok, Ensures, Ensures-bind, Ensures-call, Ensures-ok}
use nodus_vision.Config.{VisionConfig}
use nodus_vision.Config.Fields.Accepted.{Within, Between, IsName, int_field, name_field}
use nodus_vision.Config.Fields.{reject_unknown_fields}
use nodus_vision.Config.Device.{parse_device}
use nodus_vision.Config.Calibration.{parse_calibration}
use nodus_vision.Config.Sections.{parse_provider, parse_pilot, parse_recording}
use nodus_vision.Config.Parse.{
  parse_root, parse_document, parse_vision_config, check_recording_profile, color_enabled,
  color_width, color_height, make_recording_config,
}
use nodus_vision.Config.Accepted.{
  IsProviderConfig, IsPilotConfig, IsRecordingConfig, parse_provider-lem, parse_pilot-lem,
  parse_recording-lem,
}
use nodus_vision.Recording.Manager.Setup.{is_config_invalid}
use nodus_vision.Config.Adapters.{
  throw_if-lem, IsCalibrationConfig, IsDeviceConfig, parse_calibration-lem, parse_device-lem,
}

-- What recording asks of the color profile.
abbrev pub IsRecordable : VisionConfig → Type 0
IsRecordable c =
    (color_enabled c ≡ true)
    × (pos_part (color_width c) % 2 ≡ 0)
    × (pos_part (color_height c) % 2 ≡ 0)

even : (n : ℕ) → n % 2 == 1 ≡ false → n % 2 ≡ 0
even n h = ground arith

even_profile :
    (enabled color : Bool) (w h : ℕ)
    → enabled && (not color || ((w % 2 == 1) || (h % 2 == 1))) ≡ false
    → enabled ≡ true
    → (color ≡ true) × (w % 2 ≡ 0) × (h % 2 ≡ 0)
even_profile true true w h r e = (refl, even w (or-false _ _ r).0, even h (or-false _ _ r).1)
even_profile true false w h r e = cc
even_profile false color w h r e = cc

check_recording_profile-lem :
    (c : VisionConfig)
    → Ensures (λ _. c.recording.enabled ≡ true → IsRecordable c) (check_recording_profile c)
unfolding check_recording_profile
check_recording_profile-lem c = throw_if-lem (c.recording.enabled ≡ true → IsRecordable c) _ _ (
    even_profile c.recording.enabled (color_enabled c) (pos_part (color_width c))
      (pos_part (color_height c)))

abbrev pub IsVisionConfig : VisionConfig → Type 0
IsVisionConfig c =
    IsName c.device_id
    × IsName c.component_id
    × IsDeviceConfig (record { adapter = c.adapter; fake = c.fake; intel_d435 = c.intel_d435 })
    × IsCalibrationConfig c.calibration
    × IsProviderConfig c.provider
    × IsPilotConfig c.pilot
    × IsRecordingConfig c.recording
    × (c.recording.enabled ≡ true → IsRecordable c)
    × Within (pos 1) (pos 1) c.schema_version

parse_root-lem : (root : Members) → Ensures IsVisionConfig (parse_root root)
unfolding parse_root
parse_root-lem root =
    let Q : VisionConfig → Type 0 = IsVisionConfig in
    Ensures-call Q (reject_unknown_fields root _ _) _ (λ _ _.
      int_field Q root _ _ (pos 1) (pos 1) _ (λ version version_ok.
        name_field Q root _ _ _ (λ device_id device_id_ok.
          name_field Q root _ _ _ (λ component_id component_id_ok.
            Ensures-bind IsDeviceConfig Q (parse_device root device_id) _
              (parse_device-lem root device_id)
              (λ device device_ok.
                Ensures-bind IsCalibrationConfig Q (parse_calibration root) _
                  (parse_calibration-lem root)
                  (λ calibration calibration_ok.
                    Ensures-bind IsProviderConfig Q (parse_provider root) _
                      (parse_provider-lem root)
                      (λ provider provider_ok.
                        Ensures-bind IsPilotConfig Q (parse_pilot root) _ (parse_pilot-lem root)
                          (λ pilot pilot_ok.
                            Ensures-bind IsRecordingConfig Q (parse_recording root) _
                              (parse_recording-lem root)
                              (λ recording recording_ok.
                                let config : VisionConfig = record {
                                  schema_version = version;
                                  device_id = device_id;
                                  component_id = component_id;
                                  adapter = device.adapter;
                                  fake = device.fake;
                                  intel_d435 = device.intel_d435;
                                  calibration = calibration;
                                  provider = provider;
                                  pilot = pilot;
                                  recording = recording;
                                } in
                                Ensures-bind
                                  (λ _. config.recording.enabled ≡ true → IsRecordable config) Q
                                  (check_recording_profile config) (λ _. ok config)
                                  (check_recording_profile-lem config)
                                  (λ _ profile_ok. (
                                    device_id_ok, component_id_ok, device_ok, calibration_ok,
                                    provider_ok, pilot_ok, recording_ok, profile_ok, version_ok,
                                  )))))))))))

parse_document-lem : (document : Option Json) → Ensures IsVisionConfig (parse_document document)
unfolding parse_document
parse_document-lem none = tt
parse_document-lem (some null) = tt
parse_document-lem (some (boolean b)) = tt
parse_document-lem (some (unsigned n)) = tt
parse_document-lem (some (signed z)) = tt
parse_document-lem (some (floating n)) = tt
parse_document-lem (some (string s)) = tt
parse_document-lem (some (array values)) = tt
parse_document-lem (some (object root)) = parse_root-lem root

-- A configuration that `parseVisionConfig` returns is in range: the schema version is 1, the names are
-- bounded and printable, the adapter is one of the two, with every number of its configuration within
-- the bounds of its field and, for the D435, one that the adapter takes, the six numbers of the mount
-- are finite, its translation is within 10 m and its Euler convention known, both URLs are bounded
-- and accepted and the advertised one names the provider's port, the at most 16 allowed origins are
-- different origins, there are at most as many stream clients as connections, the first retry delay
-- is at most the largest, every other number of the provider, the Pilot and the recording is within
-- the bounds of its field, the clock domain, preset and tune are those that are supported, the
-- recording root is absolute, and where recording is enabled there is color with even dimensions.
pub parse_vision_config-IsVisionConfig :
    (parse : Text → Option Json) (json_text : Text) (config : VisionConfig)
    → parse_vision_config parse json_text ≡ ok config
    → IsVisionConfig config
unfolding parse_vision_config
parse_vision_config-IsVisionConfig parse json_text config =
    Ensures-ok IsVisionConfig (parse_document (parse json_text))
      (parse_document-lem (parse json_text))

name_given : (s : Text) → s ≢ [] → is_empty s ≡ false
name_given [] h = absurd (h refl)
name_given (b ∷ bs) h = refl

neither : {a b : Bool} → a ≡ false → b ≡ false → a || b ≡ false
neither {a = true} h k = h
neither {a = false} h k = k

at_least_one : (z maximum : ℤ) → Within (pos 1) maximum z → leb_ℤ z (pos 0) ≡ false
at_least_one z maximum h = ground arith

capacity_given : (z maximum : ℤ) → Within (pos 1) maximum z → pos_part z == 0 ≡ false
capacity_given z maximum h = ground arith

thousand_is_positive : (z maximum : ℤ) → Within (pos 1000) maximum z → leb_ℤ z (pos 0) ≡ false
thousand_is_positive z maximum h = ground arith

nonzero : (n maximum : ℕ) → Between 1 maximum n → n == 0 ≡ false
nonzero n maximum h = ground arith

same_text : (s t : Text) → s ≡ t → not (text_eq s t) ≡ false
same_text s t h = ap not ((text_eq_iff s t).1 h)

-- The recording configuration that the application makes of an accepted configuration, where the
-- process has a name, fails neither test of RecordingManager's constructor: the test of its fields
-- rejects nothing, and the root, which RecordingStore wants absolute, starts with a slash.
pub make_recording_config-accepted :
    (parse : Text → Option Json) (json_text : Text) (config : VisionConfig) (process_name : Text)
    → parse_vision_config parse json_text ≡ ok config
    → process_name ≢ []
    → (is_config_invalid (make_recording_config config process_name) ≡ false)
      × (starts_with (make_recording_config config process_name).root (bytes "/") ≡ true)
unfolding is_config_invalid make_recording_config
make_recording_config-accepted parse json_text config process_name e named =
    let v : IsVisionConfig config = parse_vision_config-IsVisionConfig parse json_text config e in
    let r : IsRecordingConfig config.recording = v.6 in
    let c : IsCalibrationConfig config.calibration = v.3 in
    (
      neither (capacity_given config.recording.queue_capacity_frames (pos 4096) r.1) (
          neither (name_given _ c.1.0) (
            neither (name_given _ c.0.0) (
              neither (name_given _ v.1.0) (
                neither (name_given _ v.0.0) (
                  neither (name_given process_name named) (
                    neither (at_least_one config.recording.max_duration_ms (pos 3600000) r.2) (
                      neither (nonzero config.recording.minimum_free_bytes 1099511627776 r.3) (
                        neither
                          (thousand_is_positive config.recording.finalize_timeout_ms (pos 600000)
                            r.4)
                          (neither (same_text config.recording.preset (bytes "veryfast") r.6)
                            (same_text config.recording.tune (bytes "zerolatency") r.7)))))))))),
      r.0,
    )
