-- ===== src/Pilot/Client/Faults.antt =====
-- A contract fault of src/pilot/pilot_integration_client.cpp is the end: the worker has returned.
use nodus_vision.Prelude.{◌≡◌, ◌⊎◌, List}
use nodus_vision.Camera.Contracts.{PilotIntegrationState}
use nodus_vision.Pilot.{PilotHttpRequest}
use nodus_vision.Pilot.Client.{Worker, PilotIntegrationSnapshot, PilotClient}
use nodus_vision.Pilot.Client.Writes.{contract_fault}

-- A client whose worker is over, with this snapshot and these requests.
abbrev Over : PilotIntegrationSnapshot → List PilotHttpRequest → PilotClient → Type 0
Over snapshot requests c =
    ((c.worker ≡ Worker.returned) ⊎ (c.worker ≡ Worker.no_thread))
    × (c.snapshot ≡ snapshot)
    × (c.requests ≡ requests)

-- The worker waits for the result of a registration or of a publication.
abbrev pub IsAsking : Worker → Type 0
IsAsking (Worker.registering id n) = Unit
IsAsking (Worker.publishing s body n m) = Unit
IsAsking _ = ⊥

abbrev Faulted : List PilotHttpRequest → PilotClient → Type 0
Faulted requests c =
    (c.worker ≡ Worker.returned)
    × (c.snapshot.state ≡ PilotIntegrationState.contract_fault)
    × (c.requests ≡ requests)
