-- ===== src/Pilot/Client/Registering.antt =====
-- The registration request that the worker of src/pilot/pilot_integration_client.cpp sends is one that
-- the codec serializes.
use nodus_vision.Prelude.{
  ◌≡◌, refl, Bool, true, false, ◌||◌, not, Text, bytes, text_eq, text_eq_iff,
}
use nodus_vision.Prelude.Result.{
  Result, ok, err, ◌>>=◌, Ensures-ok, is_ok, seq_ok, not_thrown, two_ok,
}
use nodus_vision.Prelude.Json.{Members}
use nodus_vision.Camera.Contracts.{ProviderState}
use nodus_vision.Config.{VisionConfig}
use nodus_vision.Config.Valid.{IsVisionConfig}
use nodus_vision.Pilot.{PilotRegistrationRequest, VisionEndpointCatalog}
use nodus_vision.Pilot.Identifiers.{validate_identifier, is_instance_id_valid}
use nodus_vision.Pilot.Codec.{
  serialize_capabilities, serialize_common_state, serialize_registration_request,
}
use nodus_vision.Pilot.Catalog.{build_catalog, build_vision_static_metadata}
use nodus_vision.Pilot.Catalog.Published.{Capable, build_catalog-capabilities}
use nodus_vision.Pilot.Catalog.Accepting.{identifier_ok}
use nodus_vision.Pilot.Client.{Environment, PilotClient, make_pilot_state}
use nodus_vision.Pilot.Client.Run.{registration_request}

make_pilot_state-is_ok :
    (state : ProviderState) → is_ok (serialize_common_state (make_pilot_state state)) ≡ true
unfolding make_pilot_state serialize_common_state bytes text_eq
make_pilot_state-is_ok ProviderState.starting = refl
make_pilot_state-is_ok ProviderState.ready = refl
make_pilot_state-is_ok ProviderState.degraded = refl
make_pilot_state-is_ok ProviderState.stopping = refl

identity_ok :
    (instance_id clock_domain : Text)
    → is_instance_id_valid instance_id ≡ true
    → clock_domain ≡ bytes "monotonic_same_host"
    → not (is_instance_id_valid instance_id)
        || not (text_eq clock_domain (bytes "monotonic_same_host"))
      ≡ false
identity_ok instance_id clock_domain h e =
    let same : text_eq clock_domain (bytes "monotonic_same_host") ≡ true = (text_eq_iff _ _).1 e in
    rw (h, same)

sorted_ok : (sorted equal : Bool) → sorted ≡ true → equal ≡ false → not sorted || equal ≡ false
sorted_ok sorted equal h k = rw (h, k)

request_is_ok :
    (r : PilotRegistrationRequest)
    → validate_identifier r.component_id (bytes "component_id") ≡ ok tt
    → is_instance_id_valid r.instance_id ≡ true
    → r.clock_domain ≡ bytes "monotonic_same_host"
    → Capable r.capabilities
    → is_ok (serialize_common_state r.initial_state) ≡ true
    → is_ok (serialize_registration_request r) ≡ true
unfolding serialize_registration_request
request_is_ok r component instance clock (sorted, different, named) state = seq_ok _ _ component (
    seq_ok _ _ (not_thrown _ _ (identity_ok r.instance_id r.clock_domain instance clock)) (
      seq_ok _ _ (not_thrown _ _ (sorted_ok _ _ sorted different)) (
        two_ok (serialize_capabilities r.capabilities) (serialize_common_state r.initial_state) _
          named state)))

-- What a started client keeps: the configuration was accepted, the catalog is the one built of it,
-- and the instance id has the form of one.
abbrev pub Identity : Environment → VisionConfig → VisionEndpointCatalog → Text → Type 0
Identity env config catalog instance_id =
    IsVisionConfig config
    × (build_catalog config env.arithmetic ≡ ok catalog)
    × (is_instance_id_valid instance_id ≡ true)

component_ok :
    (config : VisionConfig) (field : Text)
    → IsVisionConfig config
    → validate_identifier config.component_id field ≡ ok tt
component_ok config field
      (
        device,
        (given, short, printable),
        adapter,
        calibration,
        provider,
        pilot,
        recording,
        profile,
        version,
      ) =
    identifier_ok config.component_id field given short

clock_ok :
    (config : VisionConfig)
    → IsVisionConfig config
    → config.pilot.clock_domain ≡ bytes "monotonic_same_host"
clock_ok config
      (
        device,
        component,
        adapter,
        calibration,
        provider,
        (url, clock, connect, request, response, initial, maximum, shutdown, name),
        recording,
        profile,
        version,
      ) =
    clock

-- What the catalog was built of is there for the request as well.
built :
    (r : Result Members) (f : Members → VisionEndpointCatalog)
    (g : Members → PilotRegistrationRequest) (catalog : VisionEndpointCatalog)
    → (r >>= (λ metadata. ok (f metadata))) ≡ ok catalog
    → ((metadata : Members) → is_ok (serialize_registration_request (g metadata)) ≡ true)
    → is_ok ((r >>= (λ metadata. ok (g metadata))) >>= serialize_registration_request) ≡ true
built (ok metadata) f g catalog e h = h metadata
built (err exception) f g catalog e h = cc

pub registration_request-is_ok :
    (env : Environment) (c : PilotClient)
    → Identity env c.config c.catalog c.instance_id
    → is_ok (registration_request env c >>= serialize_registration_request) ≡ true
unfolding registration_request build_catalog
registration_request-is_ok env c (config, catalog, instance) =
    let capable : Capable c.catalog.capabilities =
      Ensures-ok (λ k. Capable k.capabilities) _
        (build_catalog-capabilities c.config env.arithmetic) catalog in
    built (build_vision_static_metadata c.config env.arithmetic) _ _ c.catalog catalog (λ metadata.
      request_is_ok _ (component_ok c.config _ config) instance (clock_ok c.config config) capable
        (make_pilot_state-is_ok c.current_state))
