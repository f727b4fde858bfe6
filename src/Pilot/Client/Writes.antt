-- ===== src/Pilot/Client/Writes.antt =====
-- The results of `publishCatalog` and the loop of `runSession` of
-- src/pilot/pilot_integration_client.cpp.
use nodus_vision.Prelude.{
  ℕ, ◌+◌, ◌*◌, Bool, true, false, ◌||◌, not, Option, none, some, [], ◌++◌, Text, bytes, text_eq,
  is_empty, length, leb, if◌then◌else◌, inc_u64,
}
use nodus_vision.Prelude.Int.{pos}
use nodus_vision.Prelude.Json.{Json}
use nodus_vision.Prelude.Result.{Result, ok, err}
use nodus_vision.Camera.Contracts.{ProviderState, PilotIntegrationState}
use nodus_vision.Pilot.{PilotHttpResult, PilotCatalogAcceptedResponse}
use nodus_vision.Pilot.Codec.{serialize_heartbeat_request, serialize_state_update_request}
use nodus_vision.Pilot.Responses.{
  parse_catalog_accepted_response, parse_lifecycle_accepted_response,
}
use nodus_vision.Pilot.Client.{
  Environment, Session, Worker, PilotClient, make_pilot_state, status_is, is_contract_status,
  CatalogConflictDisposition, classify_catalog_conflict, get_error_code, set_snapshot,
  update_online_success, set_retry_count, wait_end,
}
use nodus_vision.Pilot.Client.Run.{block, send, session_path, finish_worker, recover}

-- The head of the loop of `runSession`, where it is called and after an accepted write.
unfoldable pub session_head : Session → ℕ → ℕ → PilotClient → PilotClient
unfolding finish_worker
session_head session sequence now c =
    if c.stop_requested
    then finish_worker session.session_id c
    else block (Worker.waiting session sequence (now + session.heartbeat_interval_ms * 1000000)) c

unfoldable pub catalog_parsed :
    Session → ℕ → ℕ → Result PilotCatalogAcceptedResponse → PilotClient → PilotClient
unfolding update_online_success recover session_head
catalog_parsed session retry_count now (ok response) c = session_head session 1 now (
    update_online_success now (record c {
      snapshot = record c.snapshot {
        server_instance_id = response.server_instance_id;
        catalog_generation = response.catalog_generation;
        descriptor_count = response.descriptor_count;
      };
    }))
catalog_parsed session retry_count now (err exception) c =
    recover (bytes "invalid_catalog_response") [] retry_count now c

unfoldable pub contract_fault : Text → PilotClient → PilotClient
unfolding set_snapshot
contract_fault error c =
    block Worker.returned (set_snapshot PilotIntegrationState.contract_fault error c)

-- The branches on a conflict.
unfoldable pub catalog_conflict :
    CatalogConflictDisposition → Text → ℕ → ℕ → PilotClient → PilotClient
unfolding recover contract_fault
catalog_conflict CatalogConflictDisposition.replace_session error_code retry_count now c =
    recover
      (if text_eq error_code (bytes "stale_catalog_generation")
        then bytes "stale_catalog_generation"
        else bytes "catalog_session_replaced")
      [] retry_count now c
catalog_conflict CatalogConflictDisposition.contract_fault error_code retry_count now c =
    contract_fault (bytes "catalog_contract_conflict") c
catalog_conflict CatalogConflictDisposition.unknown error_code retry_count now c =
    contract_fault (bytes "catalog_unknown_conflict") c

unfoldable pub publication_refused :
    Environment → Session → Text → ℕ → ℕ → PilotHttpResult → ℕ → PilotClient → PilotClient
unfolding get_error_code classify_catalog_conflict catalog_conflict is_contract_status
    contract_fault recover set_retry_count wait_end
publication_refused env session body retry_count publish_retry_count result now c =
    if status_is 409 result.status
    then catalog_conflict (classify_catalog_conflict (get_error_code env.parse result.body))
        (get_error_code env.parse result.body) retry_count now c
    else if is_contract_status result.status
    then contract_fault (bytes "catalog_contract_error") c
    else if status_is 404 result.status
    then recover (bytes "catalog_session_replaced") [] retry_count now c
    else block
        (Worker.publish_retrying session body retry_count (publish_retry_count + 1)
          (wait_end c.config.pilot (publish_retry_count + 1) now))
        (set_retry_count (publish_retry_count + 1) c)

-- The result of the publication.
unfoldable pub publication_replied :
    Environment → Session → Text → ℕ → ℕ → PilotHttpResult → ℕ → PilotClient → PilotClient
unfolding finish_worker parse_catalog_accepted_response catalog_parsed publication_refused
publication_replied env session body retry_count publish_retry_count result now c =
    if c.stop_requested
    then finish_worker session.session_id c
    else if status_is 200 result.status
    then catalog_parsed session retry_count now
        (parse_catalog_accepted_response env.parse result.body c.config.component_id
          session.server_instance_id (pos (length c.catalog.descriptors)))
        c
    else publication_refused env session body retry_count publish_retry_count result now c

-- An exception of the serialization and of the request is caught in `runWorker`; its retry count is 0 there.
unfoldable pub send_write :
    Environment → Session → ℕ → Text → ℕ → Result Json → PilotClient → PilotClient
unfolding recover
send_write env session sequence suffix now (ok document) c =
    send
      (record {
        method = bytes "POST";
        target = session_path session.session_id ++ suffix;
        body = env.serialize document;
      })
      (Worker.writing session (inc_u64 sequence))
      (recover (bytes "invalid_registration_response") session.session_id 0 now c) c
send_write env session sequence suffix now (err exception) c =
    recover (bytes "invalid_registration_response") session.session_id 0 now c

unfoldable pub write_request :
    Environment → Session → ℕ → Option ProviderState → ℕ → PilotClient → PilotClient
unfolding send_write serialize_state_update_request serialize_heartbeat_request make_pilot_state
write_request env session sequence (some state) now c =
    send_write env session sequence (bytes "/state") now
      (serialize_state_update_request sequence (make_pilot_state state)) c
write_request env session sequence none now c =
    send_write env session sequence (bytes "/heartbeat") now (serialize_heartbeat_request sequence)
      c

abbrev pub is_some {ℓ} : {A : Type ℓ} → Option A → Bool
is_some none = false
is_some (some a) = true

-- `wait_until` goes on waiting where its predicate fails before the time.
unfoldable pub session_woken : Environment → Session → ℕ → ℕ → ℕ → PilotClient → PilotClient
unfolding finish_worker write_request
session_woken env session sequence next_heartbeat now c =
    if c.stop_requested
    then finish_worker session.session_id c
    else if is_some c.pending_state || leb next_heartbeat now
    then write_request env session sequence c.pending_state now (record c { pending_state = none })
    else c

-- The server's instance of an accepted write.
unfoldable pub write_parsed : Session → ℕ → ℕ → Result Text → PilotClient → PilotClient
unfolding recover update_online_success session_head
write_parsed session sequence now (ok server_instance_id) c =
    if text_eq server_instance_id c.snapshot.server_instance_id
    then session_head session sequence now (update_online_success now c)
    else recover (bytes "lifecycle_server_instance_mismatch") session.session_id 0 now c
write_parsed session sequence now (err exception) c =
    recover (bytes "invalid_lifecycle_response") session.session_id 0 now c

unfoldable pub lifecycle_server : (Text → Option Json) → Text → Result Text
unfolding parse_lifecycle_accepted_response
lifecycle_server parse body = elim (parse_lifecycle_accepted_response parse body) [
  | ok response ↦ ok response.server_instance_id
  | err exception ↦ err exception
]

-- The result of a heartbeat or a state update.
unfoldable pub write_replied :
    Environment → Session → ℕ → PilotHttpResult → ℕ → PilotClient → PilotClient
unfolding finish_worker recover lifecycle_server write_parsed
write_replied env session sequence result now c =
    if c.stop_requested
    then finish_worker session.session_id c
    else if not (status_is 200 result.status)
    then recover
        (if is_empty result.error
          then bytes "lifecycle_write_rejected"
          else bytes "lifecycle_transport_error")
        session.session_id 0 now c
    else write_parsed session sequence now (lifecycle_server env.parse result.body) c
