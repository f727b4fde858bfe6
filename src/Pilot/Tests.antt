-- ===== src/Pilot/Tests.antt =====
-- The Pilot client on concrete results, and the properties at concrete inputs.
use nodus_vision.Prelude.{
  ℕ, Bool, ◌+◌, ◌*◌, ◌%◌, ◌^◌, ◌==◌, ◌||◌, if◌then◌else◌, ◌-◌, ◌≡◌, ◌≢◌, refl, true, false, Option,
  none, some, List, [], ◌∷◌, Text, bytes, text_eq, replicate, arith,
}
use nodus_vision.Prelude.Int.{pos}
use nodus_vision.Prelude.Json.{Json, null, unsigned, signed, string, object, no_members, member}
use nodus_vision.Prelude.Result.{ok, err, invalid_argument, is_ok, ◌>>=◌}
use nodus_vision.Camera.Contracts.{ProviderState}
use nodus_vision.Geometry.{
  DoubleArithmetic, validate_matrix, mount_matrix, mount_rotation, rotate, make_axis_rotation,
  multiply_matrices,
}
use nodus_vision.Geometry.Mounted.{IsRigid}
use nodus_vision.Config.Fields.Accepted.{Within}
use nodus_vision.Config.Sample.{sample_config, sample_config-IsVisionConfig}
use nodus_vision.Config.Valid.{IsVisionConfig}
use nodus_vision.Pilot.{PilotRegistrationResponse, PilotHttpResult}
use nodus_vision.Pilot.Identifiers.{encode_path_segment, generate_instance_id}
use nodus_vision.Pilot.Identifiers.Segments.{decode_path_segment, decode-encode_path_segment}
use nodus_vision.Pilot.Codec.{serialize_catalog_publication_request}
use nodus_vision.Pilot.Responses.{parse_registration_response}
use nodus_vision.Pilot.Responses.Registration.{
  IsRegistration, parse_registration_response-IsRegistration,
}
use nodus_vision.Pilot.Responses.Documents.{
  registration_document, parse_registration_response-registration_document,
}
use nodus_vision.Pilot.Catalog.{build_catalog}
use nodus_vision.Pilot.Catalog.Published.{build_catalog-accepted}
use nodus_vision.Pilot.Client.{Environment, Worker, Session, PilotClient, backoff, capped_delay}
use nodus_vision.Pilot.Client.Interface.{Event, make_client, start_client, started_client, run}
use nodus_vision.Pilot.Client.Delay.{capped_delay-Within}
use nodus_vision.Pilot.Client.Stopping.{run-stop_called}
use nodus_vision.Pilot.Client.Consistent.{is_online}
use nodus_vision.Pilot.Client.Starting.{InSession, run-online, run-not_terminated}
use nodus_vision.Pilot.Client.Launch.{start_client-is_ok}

abbrev sample_registration : PilotRegistrationResponse
sample_registration = record {
  session_id = bytes "s/1";
  server_instance_id = bytes "server";
  heartbeat_interval_ms = 1000;
  lease_timeout_ms = 3000;
  server_time_ns = 5;
}

-- What the server answers to a publication of the ten or more descriptors of the sample.
abbrev sample_accepted : Json
sample_accepted = object (
    member (bytes "status") (string (bytes "accepted")) (
      member (bytes "server_instance_id") (string (bytes "server")) (
        member (bytes "component_id") (string (bytes "c")) (
          member (bytes "catalog_generation") (signed (pos 1)) (
            member (bytes "descriptor_count") (signed (pos 12)) (
              member (bytes "session_generation") (signed (pos 1))
                (member (bytes "catalog_revision") (signed (pos 1)) no_members)))))))

sample_parse : Text → Option Json
unfolding registration_document text_eq
sample_parse text =
    if text_eq text (bytes "registered")
    then some (registration_document sample_registration)
    else some sample_accepted

abbrev is_zero : ℕ → Bool
is_zero bits = bits % 2 ^ 63 == 0

abbrev is_one : ℕ → Bool
is_one bits = bits == 1023 * 2 ^ 52

abbrev negated : ℕ → ℕ
negated bits = (bits + 2 ^ 63) % 2 ^ 64

-- Exact where a sum has a zero or two opposite terms and a product a zero or a factor that is 1 or
-- -1, and for the angle 0: no other operation comes up for a mount that is not rotated.
abbrev sum : ℕ → ℕ → ℕ
sum a b = if is_zero a then b else if is_zero b then a else if a == negated b then 0 else a

abbrev product : ℕ → ℕ → ℕ
product a b =
    if is_zero a || is_zero b
    then 0
    else if is_one a
    then b
    else if is_one b
    then a
    else if is_one (negated a)
    then negated b
    else negated a

abbrev sample_arithmetic : DoubleArithmetic
sample_arithmetic = record {
  add = sum;
  sub = λ a b. sum a (negated b);
  mul = product;
  cos = λ angle. 1023 * 2 ^ 52;
  sin = λ angle. 0;
}

abbrev sample_environment : Environment
unfolding sample_parse
sample_environment = record {
  parse = sample_parse;
  serialize = λ document. [];
  arithmetic = sample_arithmetic;
  thread_start = ok tt;
}

-- A mount that is rotated by an axis that is none is refused.
refused_axis :
    make_axis_rotation sample_arithmetic 65 0
    ≡ err (invalid_argument (bytes "Camera mount Euler axis is invalid."))
unfolding make_axis_rotation bytes
refused_axis = refl

abbrev reply_of : ℕ → Text → PilotHttpResult
reply_of status body = record { status = pos status; content_type = []; body = body; error = [] }

abbrev sample_client : PilotClient
unfolding make_client sample_config
sample_client = make_client sample_config

abbrev registered_events : List Event
registered_events =
    Event.woken 10
    ∷ Event.replied (reply_of 201 (bytes "registered")) 20
    ∷ Event.replied (reply_of 200 (bytes "published")) 30
    ∷ []

sample_online :
    is_online
      (run sample_environment registered_events (
        started_client sample_environment ProviderState.ready none
          (replicate 16 0)
          1
          sample_client)).snapshot.state
    ≡ true
unfolding run start_client is_online sample_environment sample_client bytes
    nodus_vision.Prelude.Floating.is_finite_f64 nodus_vision.Prelude.Floating.abs_exceeds
sample_online = refl

unused : sample_client.worker ≡ Worker.no_thread
unfolding sample_client make_client
unused = refl

not_started : sample_client.started ≡ false
unfolding sample_client make_client
not_started = refl

sample_client-config : sample_client.config ≡ sample_config
unfolding sample_client make_client
sample_client-config = refl

sample_client-IsVisionConfig : IsVisionConfig sample_client.config
unfolding sample_client make_client
sample_client-IsVisionConfig = sample_config-IsVisionConfig

run-online_example :
    InSession
      (run sample_environment registered_events (
        started_client sample_environment ProviderState.ready none
          (replicate 16 0)
          1
          sample_client))
      (run sample_environment registered_events (
        started_client sample_environment ProviderState.ready none
          (replicate 16 0)
          1
          sample_client)).worker
run-online_example =
    run-online sample_environment ProviderState.ready none (replicate 16 0) 1 sample_client
      registered_events unused not_started sample_client-IsVisionConfig refl sample_online

run-not_terminated_example :
    (run sample_environment registered_events (
      started_client sample_environment ProviderState.ready none
        (replicate 16 0)
        1
        sample_client)).worker
    ≢ Worker.terminated
run-not_terminated_example =
    run-not_terminated sample_environment ProviderState.ready none (replicate 16 0) 1 sample_client
      registered_events unused not_started sample_client-IsVisionConfig refl

rigid : IsRigid sample_arithmetic sample_config.calibration
unfolding sample_config validate_matrix mount_matrix mount_rotation rotate make_axis_rotation
    multiply_matrices bytes nodus_vision.Prelude.Floating.is_finite_f64
    nodus_vision.Prelude.Floating.abs_exceeds
rigid = refl

sample_client-IsRigid : IsRigid sample_environment.arithmetic sample_client.config.calibration
unfolding sample_client make_client sample_environment
sample_client-IsRigid = rigid

start_client-is_ok_example :
    is_ok (
      (start_client sample_environment ProviderState.ready none (replicate 16 0) 1 sample_client).0)
    ≡ true
unfolding generate_instance_id sample_environment
start_client-is_ok_example =
    start_client-is_ok sample_environment ProviderState.ready none (replicate 16 0) 1 sample_client
      sample_client-IsVisionConfig sample_client-IsRigid refl refl

abbrev sample_session : Session
sample_session = record {
  session_id = bytes "s/1";
  server_instance_id = bytes "server";
  heartbeat_interval_ms = 1000;
}

abbrev waiting_client : PilotClient
unfolding sample_client make_client
waiting_client = record sample_client {
  started = true;
  worker = Worker.waiting sample_session 7 5000;
}

waiting_started : waiting_client.started ≡ true
unfolding waiting_client
waiting_started = refl

waiting_live : waiting_client.worker ≢ Worker.terminated
unfolding waiting_client
waiting_live = λ e. cc

abbrev ready_document : Json
ready_document = object (
    member (bytes "sequence") (unsigned 7) (
      member (bytes "state")
        (object (
          member (bytes "health") (string (bytes "ready")) (
            member (bytes "reason") null
              (member (bytes "details") (object no_members) no_members))))
        no_members))

abbrev sample_stop : List Event
sample_stop =
    Event.stop_called
    ∷ Event.woken 9
    ∷ Event.replied (reply_of 200 []) 10
    ∷ Event.replied (reply_of 0 []) 11
    ∷ Event.stop_joined
    ∷ []

run-stop_called_example :
    ((run sample_environment sample_stop waiting_client).started ≡ false)
    × ((run sample_environment sample_stop waiting_client).worker ≡ Worker.no_thread)
run-stop_called_example =
    run-stop_called sample_environment waiting_client 9 10 11 (reply_of 200 []) (reply_of 0 [])
      waiting_started waiting_live

abbrev asking_client : PilotClient
unfolding sample_client make_client
asking_client = record sample_client { started = true; worker = Worker.registering [] 0 }

capped_delay-Within_example :
    Within (pos 1) (pos (2 ^ 31 - 1)) (backoff sample_config.pilot 3)
    × Within (pos 1) sample_config.pilot.retry_max_delay_ms (capped_delay sample_config.pilot 3)
capped_delay-Within_example =
    capped_delay-Within sample_config.pilot 3 (sample_config-IsVisionConfig.5)

build_catalog-accepted_example :
    is_ok (
      build_catalog sample_config sample_arithmetic
      >>= (λ catalog. serialize_catalog_publication_request (112 ∷ []) 0 catalog.descriptors))
    ≡ true
build_catalog-accepted_example =
    build_catalog-accepted sample_config sample_arithmetic (112 ∷ []) 0 sample_config-IsVisionConfig
      rigid (λ e. cc) (omega arith) (omega arith)

sample_IsRegistration : IsRegistration sample_registration
unfolding bytes
sample_IsRegistration = (
  ((λ e. cc), omega arith),
  ((λ e. cc), omega arith),
  omega arith,
  omega arith,
  omega arith,
  omega arith,
)

registration_parse : Text → Option Json
registration_parse text = some (registration_document sample_registration)

parsed_registration : parse_registration_response registration_parse [] ≡ ok sample_registration
unfolding registration_parse
parsed_registration =
    parse_registration_response-registration_document registration_parse [] sample_registration
      sample_IsRegistration refl

parse_registration_response-IsRegistration_example : IsRegistration sample_registration
parse_registration_response-IsRegistration_example =
    parse_registration_response-IsRegistration registration_parse [] sample_registration
      parsed_registration

parse_registration_response-registration_document_example :
    parse_registration_response registration_parse [] ≡ ok sample_registration
unfolding registration_parse
parse_registration_response-registration_document_example =
    parse_registration_response-registration_document registration_parse [] sample_registration
      sample_IsRegistration refl

decode-encode_path_segment_example :
    decode_path_segment (encode_path_segment (115 ∷ 47 ∷ 255 ∷ [])) ≡ 115 ∷ 47 ∷ 255 ∷ []
decode-encode_path_segment_example =
    decode-encode_path_segment (115 ∷ 47 ∷ 255 ∷ []) (omega arith, (omega arith, (omega arith, tt)))

encoded_slash : encode_path_segment (bytes "s/1") ≡ bytes "s%2F1"
unfolding encode_path_segment bytes
encoded_slash = refl
