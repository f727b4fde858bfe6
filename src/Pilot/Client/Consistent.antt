-- ===== src/Pilot/Client/Consistent.antt =====
-- What the state of src/pilot/pilot_integration_client.cpp keeps: the worker and the snapshot agree at
-- every place where the worker blocks.
use nodus_vision.Prelude.{
  bytes, ℕ, ◌≤◌, ◌≡◌, ◌≢◌, refl, Bool, true, false, [], Text, is_empty, length, if_cases,
}
use nodus_vision.Prelude.Int.{pos}
use nodus_vision.Prelude.Json.{Json}
use nodus_vision.Prelude.Result.{Result, ok, err, is_ok, Ensures}
use nodus_vision.Camera.Contracts.{PilotIntegrationState}
use nodus_vision.Config.{VisionConfig}
use nodus_vision.Pilot.{PilotHttpResult, PilotRegistrationResponse, VisionEndpointCatalog}
use nodus_vision.Pilot.Responses.Registration.{IsRegistration, parse_registration_response-lem}
use nodus_vision.Pilot.Client.{
  Environment, Session, Worker, PilotIntegrationSnapshot, PilotClient, status_is,
  is_contract_status, set_snapshot, record_success, set_retry_count,
}
use nodus_vision.Pilot.Client.Run.{
  finish_worker, registration_head, registration_replied, schedule_retry, recover, publication_head,
  accept_registration, send_registration, begin_publication, registration_parsed,
}
use nodus_vision.Pilot.Client.Registering.{Identity, registration_request-is_ok}

unfoldable pub is_online : PilotIntegrationState → Bool
is_online PilotIntegrationState.online = true
is_online _ = false

abbrev pub IsSession : Session → Type 0
IsSession s = (s.session_id ≢ []) × (1 ≤ s.heartbeat_interval_ms)

-- The snapshot of a session that is online.
abbrev pub Online : Session → VisionEndpointCatalog → PilotIntegrationSnapshot → Type 0
Online s catalog snapshot =
    (snapshot.state ≡ PilotIntegrationState.online)
    × (snapshot.server_instance_id ≡ s.server_instance_id)
    × (1 ≤ snapshot.catalog_generation)
    × (snapshot.descriptor_count ≡ pos (length catalog.descriptors))

abbrev Offline : PilotIntegrationSnapshot → Type 0
unfolding is_online
Offline snapshot = is_online snapshot.state ≡ false

-- The condition for each place of the worker.
unfoldable pub Matches :
    Environment
    → Worker
    → VisionConfig
    → VisionEndpointCatalog
    → Text
    → PilotIntegrationSnapshot
    → Type 0
Matches env Worker.no_thread config catalog id snapshot = is_online snapshot.state ≡ false
Matches env Worker.returned config catalog id snapshot = is_online snapshot.state ≡ false
Matches env Worker.disconnecting config catalog id snapshot = is_online snapshot.state ≡ false
Matches env Worker.terminated config catalog id snapshot = ⊥
Matches env (Worker.publishing s body n m) config catalog id snapshot =
    Identity env config catalog id × IsSession s × (is_online snapshot.state ≡ false)
Matches env (Worker.publish_retrying s body n m end) config catalog id snapshot =
    Identity env config catalog id × IsSession s × (is_online snapshot.state ≡ false)
Matches env (Worker.waiting s n end) config catalog id snapshot =
    Identity env config catalog id × IsSession s × Online s catalog snapshot
Matches env (Worker.writing s n) config catalog id snapshot =
    Identity env config catalog id × IsSession s × Online s catalog snapshot
Matches env _ config catalog id snapshot =
    Identity env config catalog id × (is_online snapshot.state ≡ false)

abbrev pub Consistent : Environment → PilotClient → Type 0
Consistent env c = Matches env c.worker c.config c.catalog c.instance_id c.snapshot

abbrev pub Known : Environment → PilotClient → Type 0
Known env c = Identity env c.config c.catalog c.instance_id

module _ (env : Environment) where
  pub finish_worker-Consistent : (id : Text) (c : PilotClient) → Consistent env (finish_worker id c)
  unfolding finish_worker set_snapshot Matches is_online bytes
  finish_worker-Consistent id c =
      if_cases (Consistent env) (is_empty id) _ _
        (λ _.
          if_cases (λ s. is_online s ≡ false) c.config.pilot.enabled _ _ (λ _. refl) (λ _. refl))
        (λ _. refl)

  send_registration-Consistent :
      (id : Text) (n : ℕ) (r : Result Json) (c : PilotClient)
      → is_ok r ≡ true
      → Known env c
      → is_online c.snapshot.state ≡ false
      → Consistent env (send_registration env id n r c)
  unfolding send_registration Matches bytes
  send_registration-Consistent id n (ok document) c h known offline = (known, offline)
  send_registration-Consistent id n (err exception) c h known offline = cc

  pub registration_head-Consistent :
      (id : Text) (n : ℕ) (c : PilotClient)
      → Known env c
      → Consistent env (registration_head env id n c)
  unfolding registration_head set_snapshot is_online Matches
  registration_head-Consistent id n c known =
      if_cases (Consistent env) c.stop_requested _ _ (λ _. finish_worker-Consistent id c)
        (λ _.
          send_registration-Consistent id n _ (set_snapshot PilotIntegrationState.registering [] c)
            (registration_request-is_ok env (set_snapshot PilotIntegrationState.registering [] c)
              known)
            known refl)

  pub recover-Consistent :
      (error id : Text) (n now : ℕ) (c : PilotClient)
      → Known env c
      → Consistent env (recover error id n now c)
  unfolding recover schedule_retry set_snapshot set_retry_count Matches is_online
  recover-Consistent error id n now c known = (known, refl)

  pub publication_head-Consistent :
      (s : Session) (body : Text) (n m now : ℕ) (c : PilotClient)
      → Known env c
      → IsSession s
      → is_online c.snapshot.state ≡ false
      → Consistent env (publication_head s body n m now c)
  unfolding publication_head Matches bytes
  publication_head-Consistent s body n m now c known session offline =
      if_cases (Consistent env) c.stop_requested _ _ (λ _. finish_worker-Consistent s.session_id c)
        (λ _. (known, session, offline))

  begin_publication-Consistent :
      (s : Session) (n now : ℕ) (r : Result Json) (c : PilotClient)
      → Known env c
      → IsSession s
      → is_online c.snapshot.state ≡ false
      → Consistent env (begin_publication env s n now r c)
  unfolding begin_publication Matches
  begin_publication-Consistent s n now (ok document) c known session offline =
      publication_head-Consistent s (env.serialize document) n 0 now c known session offline
  begin_publication-Consistent s n now (err exception) c known session offline =
      recover-Consistent [] s.session_id n now c known

  registration_parsed-Consistent :
      (id : Text) (n now : ℕ) (r : Result PilotRegistrationResponse) (c : PilotClient)
      → Ensures IsRegistration r
      → Known env c
      → is_online c.snapshot.state ≡ false
      → Consistent env (registration_parsed env id n now r c)
  unfolding registration_parsed accept_registration record_success Matches
  registration_parsed-Consistent id n now (ok response) c
        (session, server, heartbeat, lease, fits, time) known offline =
      begin_publication-Consistent
        (record {
          session_id = response.session_id;
          server_instance_id = response.server_instance_id;
          heartbeat_interval_ms = response.heartbeat_interval_ms;
        })
        n now _ _ known (session.0, heartbeat) offline
  registration_parsed-Consistent id n now (err exception) c h known offline =
      recover-Consistent [] id n now c known

  pub registration_replied-Consistent :
      (id : Text) (n : ℕ) (result : PilotHttpResult) (now : ℕ) (c : PilotClient)
      → Known env c
      → is_online c.snapshot.state ≡ false
      → Consistent env (registration_replied env id n result now c)
  unfolding registration_replied set_snapshot Matches is_online
  registration_replied-Consistent id n result now c known offline =
      if_cases (Consistent env) c.stop_requested _ _ (λ _. finish_worker-Consistent id c)
        (λ _.
          if_cases (Consistent env) (status_is 201 result.status) _ _
            (λ _.
              registration_parsed-Consistent id n now _ c
                (parse_registration_response-lem env.parse result.body) known offline)
            (λ _.
              if_cases (Consistent env) (is_contract_status result.status) _ _ (λ _. refl)
                (λ _. recover-Consistent [] id n now c known)))
