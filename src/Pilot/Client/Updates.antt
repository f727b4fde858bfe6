-- ===== src/Pilot/Client/Updates.antt =====
-- State updates of src/pilot/pilot_integration_client.cpp: only the latest is sent, and at once.
use nodus_vision.Prelude.Json.{Json}
