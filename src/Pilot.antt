-- ===== src/Pilot.antt =====
-- The data that the Pilot codec exchanges: the structs of src/pilot/pilot_contract_codec.hpp,
-- src/pilot/pilot_http_transport.hpp and src/pilot/vision_endpoint_catalog.hpp.
pub mod Identifiers
pub mod Codec
pub mod Responses
pub mod Catalog
pub mod Transport
pub mod Client
mod Tests
use nodus_vision.Prelude.{ℕ, Bool, List, Text}
use nodus_vision.Prelude.Int.{ℤ}
use nodus_vision.Prelude.Json.{Members}

pub record PilotCommonState : Type 0 where
  pub health : Text
  pub reason : Text
  pub details : Members

pub record PilotServiceContract : Type 0 where
  pub method : Text
  pub request_schema_id : Text
  pub response_schema_id : Text

pub record PilotStreamContract : Type 0 where
  pub clock_domain : Text
  pub stream_group_id : Text

pub record PilotEndpointDescriptor : Type 0 where
  pub descriptor_id : Text
  pub kind : Text
  pub capability : Text
  pub contract_version : ℕ
  pub endpoint : Text
  pub media_type : Text
  pub schema_id : Text
  pub metadata : Members
  pub is_stream : Bool
  pub service : PilotServiceContract
  pub stream : PilotStreamContract

pub record PilotRegistrationRequest : Type 0 where
  pub component_id : Text
  pub instance_id : Text
  pub capabilities : List Text
  pub initial_state : PilotCommonState
  pub started_at_ns : ℕ
  pub metadata : Members
  pub clock_domain : Text

pub record PilotRegistrationResponse : Type 0 where
  pub session_id : Text
  pub server_instance_id : Text
  pub heartbeat_interval_ms : ℕ
  pub lease_timeout_ms : ℕ
  pub server_time_ns : ℕ

pub record PilotCatalogAcceptedResponse : Type 0 where
  pub server_instance_id : Text
  pub component_id : Text
  pub catalog_generation : ℕ
  pub descriptor_count : ℤ

pub record PilotLifecycleAcceptedResponse : Type 0 where
  pub server_instance_id : Text

pub record VisionEndpointCatalog : Type 0 where
  pub descriptors : List PilotEndpointDescriptor
  pub capabilities : List Text

pub record PilotHttpRequest : Type 0 where
  pub method : Text
  pub target : Text
  pub body : Text

pub record PilotHttpResult : Type 0 where
  pub status : ℤ
  pub content_type : Text
  pub body : Text
  pub error : Text
