-- ===== src/Pilot/Client.antt =====
-- The state of `PilotIntegrationClient` of src/pilot/pilot_integration_client.cpp. The worker thread
-- runs without waiting from one place where it blocks to the next: its state is the place, with the
-- local variables that live there. Times are nanoseconds of the steady clock.
pub mod Delay
pub mod Run
pub mod Writes
pub mod Interface
pub mod Stopping
pub mod Registering
pub mod Consistent
pub mod Agreeing
pub mod Starting
pub mod Launch
pub mod Faults
pub mod Updates
use nodus_vision.Prelude.{
  ℕ, ◌+◌, ◌-◌, ◌*◌, ◌/◌, ◌^◌, Bool, true, false, ◌||◌, Option, none, some, List, [], ◌∷◌, ◌++◌,
  Text, bytes, text_eq, ltb, ◌==◌, if◌then◌else◌,
}
use nodus_vision.Prelude.Int.{ℤ, pos, negsuc, pos_part, sub_ℕ, ltb_ℤ}
use nodus_vision.Prelude.Json.{Json, string, object, Members, no_members, if_contains}
use nodus_vision.Prelude.Result.{Result}
use nodus_vision.Geometry.{DoubleArithmetic}
use nodus_vision.Camera.Contracts.{ProviderState, PilotIntegrationState}
use nodus_vision.Config.{PilotConfig, VisionConfig}
use nodus_vision.Pilot.{PilotCommonState, PilotHttpRequest, VisionEndpointCatalog}

-- `boost::json::parse` and `serialize`, the operations on doubles, and whether the constructor of the
-- thread returns.
pub record Environment : Type 0 where
  pub parse : Text → Option Json
  pub serialize : Json → Text
  pub arithmetic : DoubleArithmetic
  pub thread_start : Result (Unit {0})

pub record PilotIntegrationSnapshot : Type 0 where
  pub enabled : Bool
  pub state : PilotIntegrationState
  pub server_instance_id : Text
  pub catalog_generation : ℕ
  pub descriptor_count : ℤ
  pub retry_count : ℕ
  pub last_success_age_ms : ℤ
  pub last_error : Text

pub record Session : Type 0 where
  pub session_id : Text
  pub server_instance_id : Text
  pub heartbeat_interval_ms : ℕ

-- `registering` and `retrying` have the `session_id` and the `retry_count` of `runWorker`.
-- `publishing` and `publish_retrying` have the body, and the retry counts of `runWorker` and of
-- `publishCatalog`. `waiting` and `writing` have the next sequence number. The last number of a
-- wait is the time at which it ends. `terminated` is an exception that leaves the thread.
pub data Worker : Type 0 where
  no_thread spawned disconnecting returned terminated : Worker
  registering : Text → ℕ → Worker
  retrying : Text → ℕ → ℕ → Worker
  publishing : Session → Text → ℕ → ℕ → Worker
  publish_retrying : Session → Text → ℕ → ℕ → ℕ → Worker
  waiting : Session → ℕ → ℕ → Worker
  writing : Session → ℕ → Worker

-- `requests` are those that the transport was given, the last one first. A `last_success` of 0 is
-- none.
pub record PilotClient : Type 0 where
  pub config : VisionConfig
  pub catalog : VisionEndpointCatalog
  pub instance_id : Text
  pub started_at_ns : ℕ
  pub started : Bool
  pub stop_requested : Bool
  pub current_state : ProviderState
  pub pending_state : Option ProviderState
  pub snapshot : PilotIntegrationSnapshot
  pub last_success : ℕ
  pub worker : Worker
  pub requests : List PilotHttpRequest

common_state : Text → Text → PilotCommonState
common_state health reason = record { health = health; reason = reason; details = no_members }

unfoldable pub make_pilot_state : ProviderState → PilotCommonState
unfolding common_state
make_pilot_state ProviderState.ready = common_state (bytes "ready") []
make_pilot_state ProviderState.degraded = common_state (bytes "degraded") (bytes "camera_degraded")
make_pilot_state ProviderState.stopping =
    common_state (bytes "stopping") (bytes "provider_stopping")
make_pilot_state ProviderState.starting = common_state (bytes "starting") []

abbrev pub status_is : ℕ → ℤ → Bool
status_is code (pos n) = n == code
status_is code (negsuc n) = false

unfoldable pub is_contract_status : ℤ → Bool
is_contract_status status = status_is 400 status || (status_is 413 status || status_is 415 status)

pub data CatalogConflictDisposition : Type 0 where
  replace_session contract_fault unknown : CatalogConflictDisposition

unfoldable pub classify_catalog_conflict : Text → CatalogConflictDisposition
classify_catalog_conflict error_code =
    if text_eq error_code (bytes "stale_catalog_generation")
      || (text_eq error_code (bytes "session_expired")
          || text_eq error_code (bytes "stale_sequence"))
    then CatalogConflictDisposition.replace_session
    else if text_eq error_code (bytes "idempotency_conflict")
        || (text_eq error_code (bytes "duplicate_descriptor_id")
            || text_eq error_code (bytes "undeclared_endpoint_capability"))
    then CatalogConflictDisposition.contract_fault
    else CatalogConflictDisposition.unknown

code_of : Option Json → Text
code_of (some (string code)) = code
code_of _ = []

error_of : Option Json → Text
unfolding code_of if_contains
error_of (some (object fields)) = code_of (if_contains fields (bytes "code"))
error_of _ = []

error_code_of : Option Json → Text
unfolding error_of if_contains
error_code_of (some (object fields)) = error_of (if_contains fields (bytes "error"))
error_code_of _ = []

unfoldable pub get_error_code : (Text → Option Json) → Text → Text
unfolding error_code_of
get_error_code parse body = error_code_of (parse body)

unfoldable pub set_snapshot : PilotIntegrationState → Text → PilotClient → PilotClient
set_snapshot state error c = record c {
  snapshot = record c.snapshot {
    enabled = c.config.pilot.enabled;
    state = state;
    last_error = error;
  };
}

unfoldable pub record_success : ℕ → PilotClient → PilotClient
record_success now c = record c { last_success = now }

unfoldable pub update_online_success : ℕ → PilotClient → PilotClient
update_online_success now c = record c {
  snapshot = record c.snapshot { state = PilotIntegrationState.online; last_error = [] };
  last_success = now;
}

unfoldable pub set_retry_count : ℕ → PilotClient → PilotClient
set_retry_count count c = record c { snapshot = record c.snapshot { retry_count = count } }

-- `initial * (1 << min(count - 1, 10))`: the product of two `int`s, which `Delay` shows to be one.
abbrev scale : ℤ → ℕ → ℤ
scale (pos a) k = pos (a * k)
scale (negsuc a) k = sub_ℕ 0 ((a + 1) * k)

unfoldable pub backoff : PilotConfig → ℕ → ℤ
backoff pilot count =
    scale pilot.retry_initial_delay_ms (2 ^ (if ltb 10 (count - 1) then 10 else count - 1))

unfoldable pub capped_delay : PilotConfig → ℕ → ℤ
unfolding backoff
capped_delay pilot count =
    if ltb_ℤ (backoff pilot count) pilot.retry_max_delay_ms
    then backoff pilot count
    else pilot.retry_max_delay_ms

-- The time at which `wait_for` of the delay ends.
unfoldable pub wait_end : PilotConfig → ℕ → ℕ → ℕ
unfolding capped_delay
wait_end pilot count now = now + pos_part (capped_delay pilot count) * 1000000
