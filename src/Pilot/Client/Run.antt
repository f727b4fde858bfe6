-- ===== src/Pilot/Client/Run.antt =====
-- The worker thread of src/pilot/pilot_integration_client.cpp from each place where it blocks to the
-- next one: `runWorker` and the head of `publishCatalog`.
use nodus_vision.Prelude.{
  ℕ, ◌+◌, Bool, true, not, ◌==◌, [], ◌∷◌, ◌++◌, Text, bytes, is_empty, if◌then◌else◌,
}
use nodus_vision.Prelude.Int.{pos}
use nodus_vision.Prelude.Json.{Json, Members, string, member, no_members}
use nodus_vision.Prelude.Result.{Result, ok, err, ◌>>=◌}
use nodus_vision.Camera.Contracts.{PilotIntegrationState}
use nodus_vision.Pilot.{
  PilotHttpRequest, PilotHttpResult, PilotRegistrationRequest, PilotRegistrationResponse,
}
use nodus_vision.Pilot.Identifiers.{encode_path_segment}
use nodus_vision.Pilot.Codec.{
  serialize_registration_request, serialize_catalog_publication_request,
  serialize_disconnect_request,
}
use nodus_vision.Pilot.Responses.{parse_registration_response}
use nodus_vision.Pilot.Catalog.{build_vision_static_metadata}
use nodus_vision.Pilot.Client.{
  Environment, Session, Worker, PilotClient, make_pilot_state, status_is, is_contract_status,
  set_snapshot, record_success, set_retry_count, wait_end,
}

abbrev pub block : Worker → PilotClient → PilotClient
block worker c = record c { worker = worker }

-- The test of `RequestSession` on the target; the methods are POST and PUT, which Boost knows.
abbrev pub is_target_invalid : Text → Bool
is_target_invalid [] = true
is_target_invalid (b ∷ bs) = not (b == 47)

-- `executeRequest`: it throws where the target is invalid, which leads to `failed`, and otherwise the
-- thread blocks until the transport has a result.
abbrev pub send : PilotHttpRequest → Worker → PilotClient → PilotClient → PilotClient
send request worker failed c =
    if is_target_invalid request.target
    then failed
    else record c { worker = worker; requests = request ∷ c.requests }

abbrev pub session_path : Text → Text
session_path session_id = bytes "/api/v1/components/" ++ encode_path_segment session_id

-- What `runWorker` does after its loop. An exception of the request leaves the thread.
unfoldable pub finish_worker : Text → PilotClient → PilotClient
unfolding set_snapshot serialize_disconnect_request
finish_worker session_id c =
    if is_empty session_id
    then block Worker.returned (
        set_snapshot
          (if c.config.pilot.enabled
            then PilotIntegrationState.stopped
            else PilotIntegrationState.disabled)
          [] c)
    else send
        (record {
          method = bytes "POST";
          target = session_path session_id ++ bytes "/disconnect";
          body = serialize_disconnect_request;
        })
        Worker.disconnecting
        (block Worker.terminated (set_snapshot PilotIntegrationState.stopping [] c))
        (set_snapshot PilotIntegrationState.stopping [] c)

append_member : Members → Text → Json → Members
append_member no_members key value = member key value no_members
append_member (member name old rest) key value = member name old (append_member rest key value)

-- The exception of `buildVisionStaticMetadata` is one of the request.
unfoldable pub registration_request : Environment → PilotClient → Result PilotRegistrationRequest
unfolding make_pilot_state build_vision_static_metadata append_member
registration_request env c = do
  metadata ← build_vision_static_metadata c.config env.arithmetic
  ok (record {
    component_id = c.config.component_id;
    instance_id = c.instance_id;
    capabilities = c.catalog.capabilities;
    initial_state = make_pilot_state c.current_state;
    started_at_ns = c.started_at_ns;
    metadata = append_member metadata (bytes "provider_api_version") (string (bytes "1.3.0"));
    clock_domain = c.config.pilot.clock_domain;
  })

-- The exceptions of the metadata, of the serialization and of the request are outside every `try`.
unfoldable pub send_registration : Environment → Text → ℕ → Result Json → PilotClient → PilotClient
send_registration env session_id retry_count (ok document) c =
    send
      (record {
        method = bytes "POST";
        target = bytes "/api/v1/components/register";
        body = env.serialize document;
      })
      (Worker.registering session_id retry_count) (block Worker.terminated c) c
send_registration env session_id retry_count (err exception) c = block Worker.terminated c

-- The head of the loop of `runWorker`.
unfoldable pub registration_head : Environment → Text → ℕ → PilotClient → PilotClient
unfolding finish_worker set_snapshot serialize_registration_request registration_request
    send_registration
registration_head env session_id retry_count c =
    if c.stop_requested
    then finish_worker session_id c
    else send_registration env session_id retry_count
        (registration_request env (set_snapshot PilotIntegrationState.registering [] c)
          >>= serialize_registration_request)
        (set_snapshot PilotIntegrationState.registering [] c)

-- The end of an iteration of `runWorker`.
unfoldable pub schedule_retry : Text → ℕ → ℕ → PilotClient → PilotClient
unfolding set_retry_count wait_end
schedule_retry session_id retry_count now c =
    block
      (Worker.retrying session_id (retry_count + 1) (wait_end c.config.pilot (retry_count + 1) now))
      (set_retry_count (retry_count + 1) c)

-- `setSnapshot(e_RECOVERING, error)` and the end of the iteration.
unfoldable pub recover : Text → Text → ℕ → ℕ → PilotClient → PilotClient
unfolding set_snapshot schedule_retry
recover error session_id retry_count now c =
    schedule_retry session_id retry_count now
      (set_snapshot PilotIntegrationState.recovering error c)

-- The head of the loop of `publishCatalog`; `e_STOPPED` ends the loop of `runWorker`, and an exception
-- of the request is caught there.
unfoldable pub publication_head : Session → Text → ℕ → ℕ → ℕ → PilotClient → PilotClient
unfolding finish_worker recover
publication_head session body retry_count publish_retry_count now c =
    if c.stop_requested
    then finish_worker session.session_id c
    else send
        (record {
          method = bytes "PUT";
          target = session_path session.session_id ++ bytes "/endpoint-catalog";
          body = body;
        })
        (Worker.publishing session body retry_count publish_retry_count)
        (recover (bytes "invalid_registration_response") session.session_id retry_count now c) c

-- The exception of the serialization is caught in `runWorker`.
unfoldable pub begin_publication :
    Environment → Session → ℕ → ℕ → Result Json → PilotClient → PilotClient
unfolding publication_head recover
begin_publication env session retry_count now (ok document) c =
    publication_head session (env.serialize document) retry_count 0 now c
begin_publication env session retry_count now (err exception) c =
    recover (bytes "invalid_registration_response") session.session_id retry_count now c

unfoldable pub accept_registration :
    Environment → PilotRegistrationResponse → ℕ → ℕ → PilotClient → PilotClient
unfolding record_success begin_publication serialize_catalog_publication_request
accept_registration env response retry_count now c =
    begin_publication env
      (record {
        session_id = response.session_id;
        server_instance_id = response.server_instance_id;
        heartbeat_interval_ms = response.heartbeat_interval_ms;
      })
      retry_count now
      (serialize_catalog_publication_request (bytes "catalog-" ++ c.instance_id ++ bytes "-1") 0
        c.catalog.descriptors)
      (record (record_success now c) {
        snapshot = record c.snapshot {
          server_instance_id = response.server_instance_id;
          retry_count = retry_count;
          catalog_generation = 0;
          descriptor_count = pos 0;
        };
      })

unfoldable pub registration_parsed :
    Environment → Text → ℕ → ℕ → Result PilotRegistrationResponse → PilotClient → PilotClient
unfolding accept_registration recover
registration_parsed env session_id retry_count now (ok response) c =
    accept_registration env response retry_count now c
registration_parsed env session_id retry_count now (err exception) c =
    recover (bytes "invalid_registration_response") session_id retry_count now c

-- The result of the registration request.
unfoldable pub registration_replied :
    Environment → Text → ℕ → PilotHttpResult → ℕ → PilotClient → PilotClient
unfolding finish_worker parse_registration_response registration_parsed is_contract_status
    set_snapshot recover
registration_replied env session_id retry_count result now c =
    if c.stop_requested
    then finish_worker session_id c
    else if status_is 201 result.status
    then registration_parsed env session_id retry_count now
        (parse_registration_response env.parse result.body) c
    else if is_contract_status result.status
    then block Worker.returned
        (set_snapshot PilotIntegrationState.contract_fault (bytes "registration_contract_error") c)
    else recover
        (if is_empty result.error
          then bytes "registration_unavailable"
          else bytes "registration_transport_error")
        session_id retry_count now c
